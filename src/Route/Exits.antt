-- ===== src/Route/Exits.antt =====
-- core/route.go: the exit of a route, live and from the chains of a connection, and `handleCheckRoutes`.
-- Proxies and the tunnel are mihomo's: a parameter, with the one fact that the loop over `Unwrap` needs.
pub mod Laws
pub mod Check
use yu_clash.Prelude.{
  ℕ, zero, suc, ◌<◌, String, ◌≡◌, ◌↔◌, ap, reverse, Bool, true, false, ◌&&◌, Option, none, some,
  List, [], ◌∷◌, ◌++◌, Equality, str_eq, str_eq_iff, string_equality, if◌then◌else◌, arith,
}
use yu_clash.Prelude.Maps.{lookup, insert}
use yu_clash.Route.{World}

pub record Tunnel : Type 1 where
  pub Proxy : Type 0
  pub Metadata : Type 0
  -- `tunnel.AllProxies()`
  pub all_proxies : List (String × Proxy)
  -- `metadata.SetRemoteAddress` on a fresh metadata; `none` is its error
  pub set_remote_address : String → Option Metadata
  -- `tunnel.ResolveRoute`; the outer `none` is its error, the inner one a nil proxy
  pub resolve_route : Metadata → Option (Option Proxy)
  pub is_load_balance : Proxy → Bool
  pub unwrap : Proxy → Option Metadata → Option Proxy
  pub name : Proxy → String
  -- `fmt.Sprintf("%q %s %s", proxy.Name(), proxy.Type(), proxy.Addr())`
  pub exit_name : Proxy → String
  -- mihomo sorts the groups of a config and refuses a loop among them
  pub depth : Proxy → ℕ
  pub unwrap_descends :
      (p : Proxy) (m : Option Metadata) (q : Proxy) → unwrap p m ≡ some q → depth q < depth p

pub record RouteHit : Type 0 where
  pub host : String
  pub proxy : String
  pub exit : String

pub record RouteCheck : Type 0 where
  pub core_epoch : ℕ
  pub route_version : ℕ
  pub held : List Bool

module _ (tunnel : Tunnel) where
  open tunnel use {
    Proxy, Metadata, all_proxies, set_remote_address, resolve_route, is_load_balance, unwrap,
    exit_name, depth,
  }

  unfoldable pub lookup_proxy : String → Option Proxy
  lookup_proxy name = lookup name all_proxies

  -- The loop of `exitThrough`, with a bound on its rounds.
  pub walk : ℕ → Proxy → Option Metadata → String
  walk zero p m = ""
  walk (suc rounds) p m = elim (is_load_balance p) [
    | true ↦ exit_name p
    | false ↦ elim (unwrap p m) [ none ↦ exit_name p | some next ↦ walk rounds next m ]
  ]

  -- `exitThrough`; a proxy's depth bounds the rounds.
  unfoldable pub exit_through : Option Proxy → Option Metadata → String
  unfolding walk
  exit_through none m = ""
  exit_through (some p) m = walk (suc (depth p)) p m

  -- `resolveExit`: a named proxy is followed even if the address gave no metadata.
  unfoldable pub resolve_exit : String → String → String
  unfolding lookup_proxy
  resolve_exit host proxy_name =
      let metadata = set_remote_address host in
      if str_eq proxy_name ""
      then (elim metadata [
        | none ↦ ""
        | some m ↦ elim (resolve_route m) [ none ↦ "" | some p ↦ exit_through p (some m) ]
      ])
      else exit_through (lookup_proxy proxy_name) metadata

  -- The loop of `exitOfChains` over the names from the outermost group inwards.
  pub first_load_balance : List String → Option Proxy
  unfolding lookup_proxy
  first_load_balance [] = none
  first_load_balance (n ∷ names) = elim (lookup_proxy n) [
    | none ↦ first_load_balance names
    | some p ↦ elim (is_load_balance p) [ true ↦ some p | false ↦ first_load_balance names ]
  ]

  exit_or : Option Proxy → String → String
  exit_or none other = other
  exit_or (some p) other = exit_name p

  -- `exitOfChains`.
  unfoldable pub exit_of_chains : List String → String
  unfolding first_load_balance exit_or lookup_proxy
  exit_of_chains [] = ""
  exit_of_chains (dialed ∷ groups) =
      exit_or (first_load_balance (reverse groups)) (exit_or (lookup_proxy dialed) "")

abbrev pub pair_equal : String × String → String × String → Bool
pair_equal (a, b) (c, d) = str_eq a c && str_eq b d

pub pair_equal_iff : (k j : String × String) → (pair_equal k j ≡ true) ↔ (k ≡ j)
pair_equal_iff (a, b) (c, d) = (
  λ h. ground (arith, str_eq_iff a c, str_eq_iff b d),
  λ h. ground (
    arith,
    (str_eq_iff a c).1 (ap (λ (t : String × String). t.0) h),
    (str_eq_iff b d).1 (ap (λ (t : String × String). t.1) h),
  ),
)

-- Go compares the structs that are keys of the cache field by field.
instance abbrev pub pair_equality : Equality (String × String)
pair_equality = record { equal = pair_equal; equal_iff = pair_equal_iff }

-- `handleCheckRoutes` over the function that resolves an exit. `exits` is the cache.
module _ (resolve : String → String → String) where
  abbrev pub Exits : Type 0
  Exits = List ((String × String) × String)

  abbrev cached : Option String → String × String → Exits → String × Exits
  cached (some exit) key exits = (exit, exits)
  cached none (host, proxy) exits =
      let exit = resolve host proxy in (exit, insert (host, proxy) exit exits)

  pub exit_of : RouteHit → Exits → String × Exits
  exit_of hit exits = cached (lookup (hit.host, hit.proxy) exits) (hit.host, hit.proxy) exits

  -- The inner loop, which a hit with another exit ends.
  pub check_hits : List RouteHit → Exits → Bool × Exits
  unfolding exit_of
  check_hits [] exits = (true, exits)
  check_hits (hit ∷ route) exits =
      let (exit, exits') = exit_of hit exits in
      let rest = check_hits route exits' in if str_eq exit hit.exit then rest else (false, exits')

  pub check_route : List RouteHit → Exits → Bool × Exits
  unfolding check_hits
  check_route [] exits = (false, exits)
  check_route (hit ∷ route) exits = check_hits (hit ∷ route) exits

  pub check_each : List (List RouteHit) → Exits → List Bool
  unfolding check_route
  check_each [] exits = []
  check_each (route ∷ routes) exits =
      let (held, exits') = check_route route exits in held ∷ check_each routes exits'

-- The stamp is read before any route resolves.
unfoldable pub handle_check_routes : Tunnel → World → List (List RouteHit) → RouteCheck
unfolding check_each
handle_check_routes tunnel w routes = record {
  core_epoch = w.tracker.epoch;
  route_version = w.tracker.version;
  held = check_each (resolve_exit tunnel) routes [];
}
