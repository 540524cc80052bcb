-- ===== src/Provider/Updates.antt =====
-- core/provider.go and core/geo.go: the updates of providers and of geo data, and the hook of mihomo's own geo
-- updater. A started update is a step, and so is its end; `running` holds the keys of those that have started.
use Prim.Native.String.{◌++◌ as ◌<>◌}
use yu_clash.Prelude.{
  ℕ, suc, Bool, true, false, not, ◌&&◌, Option, none, some, String, List, [], ◌∷◌, ◌++◌, str_eq,
  if◌then◌else◌, string_equality, is_some,
}
use yu_clash.Route.{RouteChange, unchanged, moved}
use yu_clash.Text.{bytes}
use yu_clash.Config.Updater.{is_geo_resource}
use yu_clash.Provider.{Snapshot, lookup_external_provider}
use yu_clash.Provider.Claims.{
  Claims, geo_key, provider_key, claim_update_as, claim_update, release_update, release_hook_update,
}
use yu_clash.Provider.Failures.{ProviderError, provider_error}

-- `GeoUpdateStatus`.
pub record GeoUpdateStatus : Type 0 where
  pub type_name : String
  pub updating : Bool
  pub skipped : Bool
  pub error : String

-- The claims and what these handlers have sent and asked for, oldest first.
pub record World : Type 0 where
  pub claims : Claims
  pub running : List String
  pub route_changes : List RouteChange
  pub statuses : List GeoUpdateStatus

unfoldable pub removed : String → List String → List String
removed key [] = []
removed key (k ∷ ks) = let rest = removed key ks in if str_eq k key then rest else k ∷ rest

abbrev pub began : String → World → World
began key w = record w { claims = (claim_update key w.claims).1; running = key ∷ w.running }

abbrev pub ended : String → World → World
ended key w = record w { claims = release_update key w.claims; running = removed key w.running }

-- `handleUpdateGeoData`, up to the start of its goroutine.
unfoldable pub handle_update_geo_data : String → World → Option String × World
unfolding claim_update claim_update_as
handle_update_geo_data geo_type w =
    if not (is_geo_resource geo_type)
    then (some ("unknown geo resource: " <> geo_type), w)
    else if (claim_update (geo_key geo_type) w.claims).0
    then (none, began (geo_key geo_type) w)
    else (some ("geo update already in progress: " <> geo_type), w)

-- The end of that goroutine.
unfoldable pub geo_data_updated : String → World → World
unfolding release_update removed
geo_data_updated geo_type w = ended (geo_key geo_type) w

abbrev error_text : Option String → String
error_text none = ""
error_text (some e) = e

-- `onGeoUpdate`.
unfoldable pub on_geo_update : String → Bool → Bool → Option String → World → World
unfolding claim_update_as release_hook_update
on_geo_update geo_type updating skipped error w =
    let status : GeoUpdateStatus = record {
      type_name = geo_type;
      updating = updating;
      skipped = skipped;
      error = error_text error;
    } in
    let w' =
      if updating
      then record w { claims = (claim_update_as (geo_key geo_type) true w.claims).1 }
      else record w {
        claims = release_hook_update (geo_key geo_type) w.claims;
        route_changes =
            if not skipped && not (is_some error)
            then w.route_changes ++ moved ∷ []
            else w.route_changes;
      } in
    record w' { statuses = w'.statuses ++ status ∷ [] }

-- `updateExternalProvider`, up to the call of `update`.
unfoldable pub update_external_provider :
    Snapshot → Snapshot → String → World → Option ProviderError × World
unfolding lookup_external_provider claim_update claim_update_as provider_error
update_external_provider proxies rules name w =
    if not (is_some (lookup_external_provider proxies rules name))
    then (
      some (provider_error "provider_not_found" name (bytes "external provider does not exist")),
      w,
    )
    else if (claim_update (provider_key name) w.claims).0
    then (none, began (provider_key name) w)
    else (some (provider_error "provider_updating" name (bytes "external provider is updating")), w)

-- The end of `updateExternalProvider` with what `update` answered.
unfoldable pub external_provider_updated : String → Option ProviderError → World → World
unfolding release_update removed
external_provider_updated name error w = record (ended (provider_key name) w) {
  route_changes = if is_some error then w.route_changes else w.route_changes ++ unchanged ∷ [];
}

unfoldable pub count : String → List String → ℕ
count key [] = 0
count key (k ∷ ks) = let rest = count key ks in if str_eq k key then suc rest else rest

unfoldable pub contains : String → List String → Bool
contains key [] = false
contains key (k ∷ ks) = let rest = contains key ks in if str_eq k key then true else rest

-- What can happen, in any order; only an update that runs ends.
pub data Step : Type 0 where
  update_geo geo_updated : String → Step
  hook : String → Bool → Bool → Option String → Step
  update_provider : Snapshot → Snapshot → String → Step
  provider_updated : String → Option ProviderError → Step

unfoldable pub step : Step → World → World
unfolding handle_update_geo_data geo_data_updated on_geo_update update_external_provider
    external_provider_updated contains
step (update_geo geo_type) w = (handle_update_geo_data geo_type w).1
step (geo_updated geo_type) w =
    if contains (geo_key geo_type) w.running then geo_data_updated geo_type w else w
step (hook geo_type updating skipped error) w = on_geo_update geo_type updating skipped error w
step (update_provider proxies rules name) w = (update_external_provider proxies rules name w).1
step (provider_updated name error) w =
    if contains (provider_key name) w.running then external_provider_updated name error w else w

unfoldable pub run : List Step → World → World
unfolding step
run [] w = w
run (s ∷ steps) w = run steps (step s w)
