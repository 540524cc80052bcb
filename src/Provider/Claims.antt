-- ===== src/Provider/Claims.antt =====
-- core/provider.go: the claims of updates, one for each resource. The value marks a claim for mihomo's own
-- updater.
use Prim.Native.String.{◌++◌ as ◌<>◌}
use yu_clash.Prelude.{Bool, true, false, none, some, String, List, string_equality}
use yu_clash.Prelude.Maps.{lookup, insert, without}

-- `updateClaims.fromHook`.
abbrev pub Claims : Type 0
Claims = List (String × Bool)

abbrev pub geo_key : String → String
geo_key geo_type = "geo:" <> geo_type

abbrev pub provider_key : String → String
provider_key name = "provider:" <> name

-- `claimUpdateAs`.
unfoldable pub claim_update_as : String → Bool → Claims → Bool × Claims
unfolding lookup insert
claim_update_as key from_hook claims = elim (lookup key claims) [
  | none ↦ (true, insert key from_hook claims)
  | some _ ↦ (false, claims)
]

-- `claimUpdate`.
unfoldable pub claim_update : String → Claims → Bool × Claims
unfolding claim_update_as
claim_update key claims = claim_update_as key false claims

-- `releaseUpdate`.
unfoldable pub release_update : String → Claims → Claims
unfolding without
release_update key claims = without key claims

-- `releaseHookUpdate`.
unfoldable pub release_hook_update : String → Claims → Claims
unfolding lookup without
release_hook_update key claims = elim (lookup key claims) [
  | none ↦ claims
  | some true ↦ without key claims
  | some false ↦ claims
]
