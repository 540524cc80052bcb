-- ===== src/Provider.antt =====
-- core/provider.go: the external providers, and how one is found. mihomo's two snapshots are association lists
-- with one entry for each name; what a provider says of itself is a record.
pub mod Claims
pub mod Failures
pub mod Updates
pub mod OneUpdate
pub mod Finding
mod Examples
use yu_clash.Prelude.{
  ℕ, Bool, true, false, not, ◌&&◌, Option, none, some, String, List, [], ◌∷◌, ◌==◌, if◌then◌else◌,
  Equality, string_equality,
}
use yu_clash.Prelude.Maps.{lookup, insert}
use yu_clash.Text.{Text, before, bytes}

-- The concrete type of a `cp.Provider`.
pub data Kind : Type 0 where
  proxy_set rule_set other : Kind

pub record Provider : Type 0 where
  pub kind : Kind
  pub name : Text
  pub type_name : String
  -- whether its vehicle is `cp.Compatible`
  pub is_compatible : Bool
  pub vehicle_type : String
  pub count : ℕ
  pub updated_at : ℕ
  pub path : String
  pub subscription_info : Option String

-- `tunnel.ProvidersSnapshot` and `tunnel.RuleProvidersSnapshot`.
abbrev pub Snapshot : Type 0
Snapshot = List (String × Provider)

unfoldable pub add_external : Snapshot → Snapshot → Snapshot
unfolding insert
add_external [] eps = eps
add_external ((n, p) ∷ more) eps =
    add_external more (if p.is_compatible then eps else insert n p eps)

-- `externalProviders`.
unfoldable pub external_providers : Snapshot → Snapshot → Snapshot
unfolding add_external
external_providers proxies rules = add_external rules (add_external proxies [])

abbrev pub if_external : Option Provider → Option Provider
if_external none = none
if_external (some p) = if p.is_compatible then none else some p

abbrev pub or_else : Option Provider → Option Provider → Option Provider
or_else (some p) q = some p
or_else none q = q

-- `lookupExternalProvider`.
unfoldable pub lookup_external_provider : Snapshot → Snapshot → String → Option Provider
unfolding lookup
lookup_external_provider proxies rules name =
    or_else (if_external (lookup name rules)) (if_external (lookup name proxies))

-- `ExternalProvider`.
pub record ExternalProvider : Type 0 where
  pub name : Text
  pub type_name : String
  pub vehicle_type : String
  pub count : ℕ
  pub path : String
  pub update_at : ℕ
  pub subscription_info : Option String

-- `toExternalProvider`; `none` is `errNotExternalProvider`.
unfoldable pub to_external_provider : Provider → Option ExternalProvider
to_external_provider p =
    let shown : Option String → ExternalProvider = λ info. record {
      name = p.name;
      type_name = p.type_name;
      vehicle_type = p.vehicle_type;
      count = p.count;
      path = p.path;
      update_at = p.updated_at;
      subscription_info = info;
    } in
    elim p.kind [
      | proxy_set ↦ some (shown p.subscription_info)
      | rule_set ↦ some (shown none)
      | other ↦ none
    ]

abbrev pub with_shown : Option ExternalProvider → List ExternalProvider → List ExternalProvider
with_shown none eps = eps
with_shown (some ep) eps = ep ∷ eps

unfoldable pub shown_all : Snapshot → List ExternalProvider
unfolding to_external_provider
shown_all [] = []
shown_all ((n, p) ∷ more) = with_shown (to_external_provider p) (shown_all more)

unfoldable pub insert_by_name : ExternalProvider → List ExternalProvider → List ExternalProvider
unfolding before
insert_by_name e [] = e ∷ []
insert_by_name e (f ∷ eps) =
    let rest = insert_by_name e eps in if before f.name e.name then f ∷ rest else e ∷ f ∷ eps

unfoldable pub sort_by_name : List ExternalProvider → List ExternalProvider
unfolding insert_by_name
sort_by_name [] = []
sort_by_name (e ∷ eps) = insert_by_name e (sort_by_name eps)

-- `handleGetExternalProviders`.
unfoldable pub handle_get_external_providers : Snapshot → Snapshot → List ExternalProvider
unfolding external_providers shown_all sort_by_name
handle_get_external_providers proxies rules =
    sort_by_name (shown_all (external_providers proxies rules))

-- `handleGetExternalProvider`.
unfoldable pub handle_get_external_provider : Snapshot → Snapshot → String → Option ExternalProvider
unfolding lookup_external_provider to_external_provider
handle_get_external_provider proxies rules name =
    elim (lookup_external_provider proxies rules name) [
      | none ↦ none
      | some p ↦ to_external_provider p
    ]
