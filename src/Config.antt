-- ===== src/Config.antt =====
-- core/config.go, core/lifecycle.go, core/geo.go, core/protocol.go: the running configuration. `Told` is
-- what the core has last told mihomo by each of its calls. A critical section of `configMu` is one function.
-- Reading and parsing files is an argument. The release of memory, the log, the ownership of files and the
-- watch of the route, which these handlers also call, are not part of the state here.
pub mod Updater
pub mod Update
pub mod Life
pub mod Runs
pub mod Credentials
mod Examples
use yu_clash.Prelude.{ℕ, Bool, Option, List, String, ◌==◌, not, true, false, none, some}
use yu_clash.Text.{Text}
use yu_clash.Route.{RouteChange}

-- `int`.
pub data ℤ : Type 0 where
  pos negsuc : ℕ → ℤ

abbrev pub same_int : ℤ → ℤ → Bool
same_int (pos m) (pos n) = m == n
same_int (negsuc m) (negsuc n) = m == n
same_int _ _ = false

-- A field that the parameters may give.
abbrev pub given : {A : Type 0} → Option A → A → A
given none old = old
given (some new) old = new

abbrev pub same_flag : Bool → Bool → Bool
same_flag true b = b
same_flag false b = not b

-- Types and values of mihomo and of the platform that the core hands on.
pub record Platform : Type 1 where
  -- `netip.Prefix`
  pub Prefix : Type 0
  pub Listeners : Type 0
  pub TuicServer : Type 0
  -- `log.DEBUG`
  pub debug : ℕ
  -- `features.Android`
  pub is_android : Bool
  -- `strings.ToUpper`
  pub to_upper : String → String

-- `LC.Tun`, as far as the core changes it.
pub record Tun : Type 0 where
  pub enable : Bool
  pub auto_route : Bool
  pub device : String
  pub stack : ℕ

-- `config.General`, as far as the core reads it.
pub record General (m : Platform) : Type 0 where
  pub port : ℤ
  pub socks_port : ℤ
  pub redir_port : ℤ
  pub tproxy_port : ℤ
  pub mixed_port : ℤ
  pub shadow_socks_config : String
  pub vmess_config : String
  pub tuic_server : m.TuicServer
  pub tun : Tun
  pub authentication : List Text
  pub skip_auth_prefixes : List m.Prefix
  pub lan_allowed_ips : List m.Prefix
  pub lan_dis_allowed_ips : List m.Prefix
  pub allow_lan : Bool
  pub bind_address : String
  pub find_process_mode : ℕ
  pub tcp_concurrent : Bool
  pub unified_delay : Bool
  pub mode : ℕ
  pub log_level : ℕ
  pub ipv6 : Bool

-- `config.Controller`.
pub record Controller : Type 0 where
  pub external_controller : String
  pub external_controller_tls : String
  pub external_controller_unix : String
  pub external_controller_pipe : String
  pub external_controller_routing_mark : ℤ
  pub external_doh_server : String
  pub secret : String
  pub allow_origins : List String
  pub allow_private_network : Bool

-- `config.TLS`.
pub record Tls : Type 0 where
  pub certificate : String
  pub private_key : String
  pub client_auth_type : String
  pub client_auth_cert : String
  pub ech_key : String

-- `auth.AuthUser`: a name and a password.
abbrev pub User : Type 0
User = Text × Text

-- `config.Config`.
pub record Config (m : Platform) : Type 0 where
  pub general : General m
  pub controller : Controller
  pub users : List User
  pub listeners : m.Listeners
  pub tls : Option Tls
  pub ntp_write_to_system : Bool

-- `route.Config`.
pub record RouteConfig : Type 0 where
  pub addr : String
  pub tls_addr : String
  pub unix_addr : String
  pub pipe_addr : String
  pub routing_mark : ℤ
  pub secret : String
  pub doh_server : String
  pub is_debug : Bool
  pub allow_origins : List String
  pub allow_private_network : Bool
  pub tls : Option Tls

-- What `updateListeners` hands to mihomo.
pub record Listening (m : Platform) : Type 0 where
  pub listeners : m.Listeners
  pub allow_lan : Bool
  pub allowed_ips : List m.Prefix
  pub dis_allowed_ips : List m.Prefix
  pub bind_address : String
  pub http : ℤ
  pub socks : ℤ
  pub redir : ℤ
  pub tproxy : ℤ
  pub mixed : ℤ
  pub shadow_socks : String
  pub vmess : String
  pub tuic : m.TuicServer
  pub tun : Option Tun

-- `updater`'s settings and whether its timer is registered.
pub record Geo : Type 0 where
  pub auto_update : Bool
  pub update_interval : ℤ
  pub links : List (String × String)
  pub is_registered : Bool

pub record Told (m : Platform) : Type 0 where
  pub applied : Option (Config m)
  pub find_process_mode : ℕ
  pub tcp_concurrent : Bool
  pub unified_delay : Bool
  pub mode : ℕ
  pub log_level : ℕ
  pub disable_ipv6 : Bool
  pub server : Option RouteConfig
  pub users : List User
  pub skip_auth_prefixes : List m.Prefix
  -- the listeners told of since the last `StopListener`
  pub listening : Option (Listening m)
  pub connection_resets : ℕ
  pub geo : Geo

-- The core's own state, with the changes of the route and the selections that it asked for, oldest first.
pub record State (m : Platform) : Type 0 where
  pub is_init : Bool
  pub is_running : Bool
  pub sdk_version : ℤ
  pub home_dir : String
  pub config : Option (Config m)
  pub test_url : String
  pub skip_cert_verify : Bool
  pub told : Told m
  pub route_changes : List RouteChange
  pub selections : List (List (String × String))

-- `tunSchema`.
pub record TunSchema : Type 0 where
  pub enable : Bool
  pub device : Option String
  pub stack : Option ℕ
  pub auto_route : Option Bool

-- `UpdateParams`.
pub record UpdateParams : Type 0 where
  pub tun : Option TunSchema
  pub allow_lan : Option Bool
  pub mixed_port : Option ℤ
  pub find_process_mode : Option ℕ
  pub mode : Option ℕ
  pub log_level : Option ℕ
  pub ipv6 : Option Bool
  pub tcp_concurrent : Option Bool
  pub external_controller : Option String
  pub secret : Option String
  pub unified_delay : Option Bool
  pub authentication : Option (List Text)
  pub geo_auto_update : Option Bool
  pub geo_update_interval : Option ℤ
  pub geox_url : List (String × String)
  pub skip_cert_verify : Option Bool
