-- ===== src/Outbound.antt =====
-- core/outbound_ip.go: the lookup of the outbound address. A probe, the parser of addresses and the resolver of
-- exits are arguments. The race receives its answers, ticks and its deadline one at a time.
pub mod Race
pub mod First
pub mod InFlight
pub mod Claims
mod Examples
use yu_clash.Prelude.{
  ℕ, suc, ◌-◌, Bool, true, false, not, ◌&&◌, ◌||◌, Option, none, some, String, List, [], ◌∷◌, ◌++◌,
  ◌==◌, leb, str_eq, if◌then◌else◌, is_some,
}
use yu_clash.Text.{Text}
use yu_clash.Route.Exits.{RouteHit}
use yu_clash.Probe.{with_hit}

abbrev pub outbound_ip_concurrency : ℕ
outbound_ip_concurrency = 3

-- What the lookup reads of a `ProbeResult`.
pub record ProbeResult : Type 0 where
  pub status_code : ℕ
  pub error : String
  pub body : Text
  pub delay : ℕ
  pub chains : List String
  pub core_epoch : ℕ
  pub route_version : ℕ
  pub hits : List RouteHit

-- `OutboundIpResult`.
pub record OutboundIpResult : Type 0 where
  pub url : String
  pub body : Text
  pub delay : ℕ
  pub chains : List String
  pub error : String
  pub core_epoch : ℕ
  pub route_version : ℕ
  pub hits : List RouteHit
  pub node_hits : List RouteHit

-- The failure of a lookup, with the stamp of the route from before it.
unfoldable pub failure : ℕ → ℕ → List RouteHit → String → OutboundIpResult
failure epoch version hits kind = record {
  url = "";
  body = [];
  delay = 0;
  chains = [];
  error = kind;
  core_epoch = epoch;
  route_version = version;
  hits = hits;
  node_hits = [];
}

-- `netip.Addr` after `Unmap`: what the core asks of it.
pub record Address : Type 0 where
  pub is_global_unicast : Bool
  pub is_private : Bool
  pub is_shared : Bool

abbrev pub in_range : ℕ → ℕ → ℕ → Bool
in_range low high c = leb low c && leb c high

-- The characters of an address; each byte of any other rune separates, as the rune does.
abbrev pub is_address_byte : ℕ → Bool
is_address_byte c = c == 46 || c == 58 || in_range 48 57 c || in_range 97 122 c || in_range 65 90 c

abbrev pub flushed : Text → List Text → List Text
flushed [] fields = fields
flushed (c ∷ s) fields = (c ∷ s) ∷ fields

abbrev pub grown : ℕ → Text × List Text → Text × List Text
grown c (field, fields) =
    if is_address_byte c then (c ∷ field, fields) else ([], flushed field fields)

-- The field that a text begins with, and the fields after it.
unfoldable pub fields_from : Text → Text × List Text
fields_from [] = ([], [])
fields_from (c ∷ s) = grown c (fields_from s)

-- `strings.FieldsFunc`.
unfoldable pub address_fields : Text → List Text
unfolding fields_from
address_fields s = flushed (fields_from s).0 (fields_from s).1

abbrev pub is_public : Option Address → Bool
is_public none = false
is_public (some a) = a.is_global_unicast && not a.is_private && not a.is_shared

module _ (parse_address : Text → Option Address) where
  unfoldable pub any_public : List Text → Bool
  any_public [] = false
  any_public (token ∷ tokens) =
      let rest = any_public tokens in if is_public (parse_address token) then true else rest

  -- `mentionsIp`.
  unfoldable pub mentions_ip : Text → Bool
  unfolding any_public address_fields
  mentions_ip body = any_public (address_fields body)

module _ (resolve_exit : String → String → String) where
  unfoldable pub hits_through : String → List RouteHit → List RouteHit → List RouteHit
  unfolding with_hit
  hits_through node [] through = through
  hits_through node (hit ∷ hits) through = hits_through node hits (
      with_hit through
        (record { host = hit.host; proxy = node; exit = resolve_exit hit.host node }))

  -- `nodeHits`.
  unfoldable pub node_hits : List String → String → List RouteHit → List RouteHit
  unfolding hits_through
  node_hits [] proxy_name hits = []
  node_hits (node ∷ chains) proxy_name hits =
      if str_eq node proxy_name then [] else hits_through node hits []

module _ (parse_address : Text → Option Address) (resolve_exit : String → String → String) where
  abbrev usable : ProbeResult → Bool
  usable r = str_eq r.error "" && r.status_code == 200 && mentions_ip parse_address r.body

  -- `probeOutboundIpSource`, on what the probe gave.
  unfoldable pub probe_outbound_ip_source :
      String → String → Option ProbeResult → Option OutboundIpResult
  unfolding mentions_ip node_hits
  probe_outbound_ip_source url proxy_name none = none
  probe_outbound_ip_source url proxy_name (some r) =
      if not (usable r)
      then none
      else some (record {
        url = url;
        body = r.body;
        delay = r.delay;
        chains = r.chains;
        error = "";
        core_epoch = r.core_epoch;
        route_version = r.route_version;
        hits = r.hits;
        node_hits = node_hits resolve_exit r.chains proxy_name r.hits;
      })
