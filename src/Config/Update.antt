-- ===== src/Config/Update.antt =====
-- core/config.go: `updateConfig` and what it calls, with `updateListeners` of core/lifecycle.go and the settings
-- of core/geo.go.
use yu_clash.Prelude.{
  ℕ, Bool, true, false, not, ◌&&◌, Option, none, some, String, List, [], ◌∷◌, ◌++◌, ◌==◌, str_eq,
  if◌then◌else◌, string_equality,
}
use yu_clash.Text.{Text, cut}
use yu_clash.Route.{RouteChange, unchanged, moved, reset, is_unchanged}
use yu_clash.Config.Updater.{set_geo_urls, sync_geo_updater}
use yu_clash.Config.{
  given, same_flag, Platform, Tun, General, User, Config, RouteConfig, Listening, Told, State,
  TunSchema, UpdateParams,
}

-- `patchTun`.
unfoldable pub patch_tun : TunSchema → Tun → Tun
patch_tun params t = record {
  enable = params.enable;
  auto_route = given params.auto_route t.auto_route;
  device = given params.device t.device;
  stack = given params.stack t.stack;
}

-- The pairs that `strings.Cut` finds.
unfoldable pub users_of : List Text → List User
unfolding cut
users_of [] = []
users_of (line ∷ lines) =
    let rest = users_of lines in (elim (cut 58 line) [ none ↦ rest | some u ↦ u ∷ rest ])

abbrev pub is_nil : List User → Bool
is_nil [] = true
is_nil (_ ∷ _) = false

-- The route's change that an update makes.
unfoldable pub mode_change : Option ℕ → ℕ → RouteChange
mode_change none old = unchanged
mode_change (some new) old = if old == new then unchanged else moved

module _ {m : Platform} where
  -- `routeConfig`.
  unfoldable pub route_config : Config m → RouteConfig
  route_config cfg = record {
    addr = cfg.controller.external_controller;
    tls_addr = cfg.controller.external_controller_tls;
    unix_addr = cfg.controller.external_controller_unix;
    pipe_addr = cfg.controller.external_controller_pipe;
    routing_mark = cfg.controller.external_controller_routing_mark;
    secret = cfg.controller.secret;
    doh_server = cfg.controller.external_doh_server;
    is_debug = cfg.general.log_level == m.debug;
    allow_origins = cfg.controller.allow_origins;
    allow_private_network = cfg.controller.allow_private_network;
    tls = cfg.tls;
  }

  -- The part of `updateListeners` that follows its guard.
  unfoldable pub listening_of : Config m → Listening m
  listening_of cfg =
      let general = cfg.general in
      record {
        listeners = cfg.listeners;
        allow_lan = general.allow_lan;
        allowed_ips = general.lan_allowed_ips;
        dis_allowed_ips = general.lan_dis_allowed_ips;
        bind_address = general.bind_address;
        http = general.port;
        socks = general.socks_port;
        redir = general.redir_port;
        tproxy = general.tproxy_port;
        mixed = general.mixed_port;
        shadow_socks = general.shadow_socks_config;
        vmess = general.vmess_config;
        tuic = general.tuic_server;
        tun = if m.is_android then none else some general.tun;
      }

  -- `updateListeners`.
  unfoldable pub update_listeners : Bool → Option (Config m) → Told m → Told m
  unfolding listening_of
  update_listeners is_running none t = t
  update_listeners false (some cfg) t = t
  update_listeners true (some cfg) t = record t {
    listening = some (listening_of cfg);
    skip_auth_prefixes = cfg.general.skip_auth_prefixes;
  }

  -- `applyAuthentication`.
  unfoldable pub apply_authentication : List Text → Config m × Told m → Config m × Told m
  unfolding users_of
  apply_authentication lines (cfg, t) =
      let users = users_of lines in
      let named = record cfg.general { authentication = lines } in
      let told = record t { users = users } in
      if is_nil users then (record cfg { general = named; users = users }, told) else (
        record cfg { general = record named { skip_auth_prefixes = [] }; users = users },
        record told { skip_auth_prefixes = [] },
      )

  abbrev pub authenticate : Option (List Text) → Config m × Told m → Config m × Told m
  authenticate none ct = ct
  authenticate (some lines) ct = apply_authentication lines ct

  -- `patchController`.
  unfoldable pub patch_controller : UpdateParams → Config m × Told m → Config m × Told m
  unfolding route_config
  patch_controller params (cfg, t) =
      let old = cfg.controller in
      let address = given params.external_controller old.external_controller in
      let secret = given params.secret old.secret in
      let cfg' = record cfg {
        controller = record old { external_controller = address; secret = secret };
      } in
      if str_eq address old.external_controller && str_eq secret old.secret
      then (cfg, t)
      else (cfg', record t { server = some (route_config cfg') })

  -- The fields of `general` that `updateConfig` sets.
  unfoldable pub patch_general : UpdateParams → General m → General m
  unfolding patch_tun
  patch_general params g = record g {
    mixed_port = given params.mixed_port g.mixed_port;
    allow_lan = given params.allow_lan g.allow_lan;
    find_process_mode = given params.find_process_mode g.find_process_mode;
    tcp_concurrent = given params.tcp_concurrent g.tcp_concurrent;
    unified_delay = given params.unified_delay g.unified_delay;
    mode = given params.mode g.mode;
    log_level = given params.log_level g.log_level;
    ipv6 = given params.ipv6 g.ipv6;
    tun = elim params.tun [ none ↦ g.tun | some schema ↦ patch_tun schema g.tun ];
  }

  -- What `updateConfig` tells mihomo of these fields.
  unfoldable pub tell_general : UpdateParams → Told m → Told m
  tell_general params t = record t {
    find_process_mode = given params.find_process_mode t.find_process_mode;
    tcp_concurrent = given params.tcp_concurrent t.tcp_concurrent;
    unified_delay = given params.unified_delay t.unified_delay;
    mode = given params.mode t.mode;
    log_level = given params.log_level t.log_level;
    disable_ipv6 = elim params.ipv6 [ none ↦ t.disable_ipv6 | some on ↦ not on ];
  }

  unfoldable pub route_change : UpdateParams → General m → RouteChange
  unfolding mode_change
  route_change params g = elim params.ipv6 [
    | none ↦ mode_change params.mode g.mode
    | some on ↦ if same_flag g.ipv6 on then mode_change params.mode g.mode else reset
  ]

abbrev pub asked : RouteChange → List RouteChange → List RouteChange
asked change changes = if is_unchanged change then changes else changes ++ change ∷ []

abbrev pub config_not_applied : String
config_not_applied = "config is not applied"

module _ {m : Platform} where
  -- The configuration after an update, and what mihomo is told before the listeners.
  unfoldable pub patch_config : UpdateParams → Config m × Told m → Config m × Told m
  unfolding patch_general tell_general patch_controller apply_authentication
  patch_config params (cfg, t) = authenticate params.authentication (
      patch_controller params
        (record cfg { general = patch_general params cfg.general }, tell_general params t))

  -- `updateConfig` with a configuration.
  unfoldable pub update_applied : UpdateParams → Config m → State m → State m
  unfolding patch_config update_listeners set_geo_urls sync_geo_updater route_change
  update_applied params cfg s =
      let (cfg', t) = patch_config params (cfg, s.told) in
      let t' = update_listeners s.is_running (some cfg') t in
      let geo =
        sync_geo_updater params.geo_auto_update params.geo_update_interval
          (set_geo_urls m params.geox_url t'.geo) in
      record s {
        config = some cfg';
        skip_cert_verify = given params.skip_cert_verify s.skip_cert_verify;
        told = record t' { geo = geo };
        route_changes = asked (route_change params cfg.general) s.route_changes;
      }

  -- `updateConfig`.
  unfoldable pub update_config : UpdateParams → State m → Option String × State m
  unfolding update_applied
  update_config params s = elim s.config [
    | none ↦ (some config_not_applied, s)
    | some cfg ↦ (none, update_applied params cfg s)
  ]
