-- ===== src/Config/Examples.antt =====
-- Runs of a core with one configuration, and the theorems on it.
use yu_clash.Prelude.{ℕ, ◌≡◌, refl, true, false, none, some, List, [], ◌∷◌, inl, inr}
use yu_clash.Text.{bytes}
use yu_clash.Config.{pos, negsuc, Platform, Config, State, UpdateParams}
use yu_clash.Config.Update.{users_of, update_config}
use yu_clash.Config.Life.{
  to_int32, Loads, SetupParams, Event, init, setup, update, start, stop, run,
}
use yu_clash.Config.Runs.{IsServing, stopped-IsServing, listeners_follow_config}
use yu_clash.Config.Credentials.{IsGuarded, no_exemption_with_credentials}

abbrev desktop : Platform
desktop = record {
  Prefix = ℕ;
  Listeners = ℕ;
  TuicServer = ℕ;
  debug = 0;
  is_android = false;
  to_upper = λ s. s;
}

abbrev config : Config desktop
config = record {
  general = record {
    port = pos 0;
    socks_port = pos 0;
    redir_port = pos 0;
    tproxy_port = pos 0;
    mixed_port = pos 7890;
    shadow_socks_config = "";
    vmess_config = "";
    tuic_server = 0;
    tun = record { enable = false; auto_route = true; device = ""; stack = 0 };
    authentication = [];
    skip_auth_prefixes = 127 ∷ [];
    lan_allowed_ips = [];
    lan_dis_allowed_ips = [];
    allow_lan = false;
    bind_address = "*";
    find_process_mode = 0;
    tcp_concurrent = false;
    unified_delay = false;
    mode = 1;
    log_level = 1;
    ipv6 = false;
  };
  controller = record {
    external_controller = "";
    external_controller_tls = "";
    external_controller_unix = "";
    external_controller_pipe = "";
    external_controller_routing_mark = pos 0;
    external_doh_server = "";
    secret = "";
    allow_origins = [];
    allow_private_network = true;
  };
  users = [];
  listeners = 0;
  tls = none;
  ntp_write_to_system = false;
}

abbrev fresh : State desktop
fresh = record {
  is_init = false;
  is_running = false;
  sdk_version = pos 0;
  home_dir = "";
  config = none;
  test_url = "";
  skip_cert_verify = false;
  told = record {
    applied = none;
    find_process_mode = 0;
    tcp_concurrent = false;
    unified_delay = false;
    mode = 0;
    log_level = 0;
    disable_ipv6 = true;
    server = none;
    users = [];
    skip_auth_prefixes = [];
    listening = none;
    connection_resets = 0;
    geo = record {
      auto_update = false;
      update_interval = pos 24;
      links = [];
      is_registered = false;
    };
  };
  route_changes = [];
  selections = [];
}

abbrev params : UpdateParams
params = record {
  tun = none;
  allow_lan = some true;
  mixed_port = some (pos 7891);
  find_process_mode = none;
  mode = some 2;
  log_level = none;
  ipv6 = none;
  tcp_concurrent = none;
  external_controller = none;
  secret = none;
  unified_delay = none;
  authentication = some (bytes "ada:key" ∷ bytes "none" ∷ []);
  geo_auto_update = some true;
  geo_update_interval = none;
  geox_url = [];
  skip_cert_verify = none;
}

abbrev broken : Loads desktop ℕ
broken = record { file = inr "no file"; with_base = λ b. inr "no base"; fallback = inl config }

abbrev set_up : SetupParams ℕ
set_up = record { selected_map = []; test_url = ""; skip_cert_verify = false; base = none }

abbrev events : List (Event desktop ℕ)
events =
    init (record { home_dir = "/home"; version = pos 33 })
    ∷ start
    ∷ setup broken set_up
    ∷ update params
    ∷ stop
    ∷ start
    ∷ []

first_users : users_of (bytes "ada:key" ∷ bytes "none" ∷ []) ≡ (bytes "ada", bytes "key") ∷ []
unfolding users_of
first_users = refl

wrapped_version : to_int32 (pos 2147483648) ≡ negsuc 2147483647
unfolding to_int32
wrapped_version = refl

abbrev applied : State desktop
applied = record fresh { config = some config; is_running = true }

listeners_follow_config_example : IsServing (run events fresh)
listeners_follow_config_example =
    listeners_follow_config {m = desktop} {B = ℕ} events fresh (stopped-IsServing fresh refl refl)

no_exemption_with_credentials_example :
    IsGuarded (run {m = desktop} {B = ℕ} (stop ∷ start ∷ []) (update_config params applied).1)
no_exemption_with_credentials_example =
    no_exemption_with_credentials {m = desktop} {B = ℕ} params (bytes "ada:key" ∷ bytes "none" ∷ [])
      applied refl (stop ∷ start ∷ []) (refl, (refl, tt))
