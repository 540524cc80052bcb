-- ===== src/Provider/Examples.antt =====
-- Updates and providers, and the theorems on them.
use mathlib.Core.List.Memᴰ.{Memᴰ}
use yu_clash.Prelude.{
  ◌≡◌, refl, Bool, true, false, none, some, String, List, [], ◌∷◌, ◌↔◌, arith, string_equality,
}
use yu_clash.Prelude.Maps.{lookup, HasUniqueKeys}
use yu_clash.Text.{bytes}
use yu_clash.Provider.{
  Kind, proxy_set, rule_set, Provider, Snapshot, ExternalProvider, handle_get_external_providers,
  handle_get_external_provider,
}
use yu_clash.Provider.Failures.{
  Failure, provider_update_error, status_text, provider_update_error-status_text,
}
use yu_clash.Provider.Updates.{
  World, Step, update_geo, geo_updated, hook, update_provider, provider_updated, run,
}
use yu_clash.Provider.OneUpdate.{IsClaimed, idle-IsClaimed, one_update_at_a_time}
use yu_clash.Provider.Finding.{listed_iff_found}

abbrev provider : Kind → Bool → Provider
provider kind is_compatible = record {
  kind = kind;
  name = bytes "a";
  type_name = "Proxy";
  is_compatible = is_compatible;
  vehicle_type = "HTTP";
  count = 3;
  updated_at = 0;
  path = "a.yaml";
  subscription_info = some "7";
}

abbrev proxies : Snapshot
proxies = ("a", provider proxy_set false) ∷ ("default", provider proxy_set true) ∷ []

abbrev rules : Snapshot
rules = ("a", provider rule_set false) ∷ []

abbrev idle : World
idle = record { claims = []; running = []; route_changes = []; statuses = [] }

-- mihomo's own update starts and ends inside a manual one, and a second manual one is refused.
abbrev steps : List Step
steps =
    update_geo "MMDB"
    ∷ hook "MMDB" true false none
    ∷ hook "MMDB" false false none
    ∷ update_geo "MMDB"
    ∷ update_provider proxies rules "a"
    ∷ provider_updated "a" none
    ∷ geo_updated "MMDB"
    ∷ []

still_running :
    (run
      (update_geo "MMDB"
        ∷ hook "MMDB" true false none
        ∷ hook "MMDB" false false none
        ∷ update_geo "MMDB"
        ∷ [])
      idle).running
    ≡ "geo:MMDB" ∷ []
unfolding run
still_running = refl

one_update_at_a_time_example : IsClaimed (run steps idle)
one_update_at_a_time_example = one_update_at_a_time steps idle (idle-IsClaimed idle refl refl)

unique_proxies : HasUniqueKeys proxies
unfolding lookup
unique_proxies = (refl, (refl, tt))

abbrev shown : ExternalProvider
shown = record {
  name = bytes "a";
  type_name = "Proxy";
  vehicle_type = "HTTP";
  count = 3;
  path = "a.yaml";
  update_at = 0;
  subscription_info = none;
}

listed_iff_found_example :
    Memᴰ shown (handle_get_external_providers proxies rules)
    ↔ ((n : String) × (handle_get_external_provider proxies rules n ≡ some shown))
unfolding lookup
listed_iff_found_example = listed_iff_found proxies rules shown unique_proxies (refl, tt)

abbrev not_found : Failure
not_found = record {
  message = bytes "404 Not Found";
  unknown_authority = false;
  hostname = false;
  invalid_certificate = false;
  certificate_verification = false;
  record_header = false;
  alert = false;
  dns_error = false;
  ip_not_found = false;
  context_deadline = false;
  os_deadline = false;
  network_error = none;
  op_error = false;
  connection_refused = false;
  connection_reset = false;
  eof = false;
  unexpected_eof = false;
  url_error = false;
}

provider_update_error-status_text_example : provider_update_error "a" not_found ≡ record {
  code = "request_bad_response";
  message = status_text 404 (bytes "Not Found");
  details = record { provider_name = "a"; reason = none; status_code = some 404 };
}
provider_update_error-status_text_example =
    provider_update_error-status_text 404 (bytes "Not Found") "a" not_found (omega arith)
      (omega arith) refl
