-- ===== src/Provider/OneUpdate.antt =====
-- One update of a resource at a time.
use yu_clash.Prelude.{
  ℕ, ◌≡◌, refl, ap, subst, Bool, true, false, not, Option, none, some, String, List, [], ◌∷◌,
  str_eq, str_eq_iff, if◌then◌else◌, string_equality, is_some, Option-cases, inl, inr, arith,
}
use yu_clash.Prelude.Maps.{lookup, insert, without, lookup-insert, lookup-without}
use yu_clash.Config.Updater.{is_geo_resource}
use yu_clash.Provider.{lookup_external_provider}
use yu_clash.Provider.Claims.{
  Claims, geo_key, provider_key, claim_update_as, claim_update, release_update, release_hook_update,
}
use yu_clash.Provider.Failures.{ProviderError}
use yu_clash.Provider.Updates.{
  World, removed, began, ended, handle_update_geo_data, geo_data_updated, on_geo_update,
  update_external_provider, external_provider_updated, count, contains, Step, update_geo,
  geo_updated, hook, update_provider, provider_updated, step, run,
}

abbrev held : Option Bool → ℕ
held none = 0
held (some true) = 0
held (some false) = 1

-- A resource is updated as often as its claim is held by an update of the core's own.
pub Matches : Claims → List String → Type 0
unfolding lookup count
Matches claims running = (key : String) → count key running ≡ held (lookup key claims)

pub IsClaimed : World → Type 0
IsClaimed w = Matches w.claims w.running

count-removed :
    (k j : String) (ks : List String)
    → count j (removed k ks) ≡ (if str_eq k j then 0 else count j ks)
unfolding count removed
count-removed k j [] = ground arith
count-removed k j (i ∷ ks) =
    ground (arith, count-removed k j ks, str_eq_iff i k, str_eq_iff i j, str_eq_iff k j)

insert-Matches :
    (k : String) (claims : Claims) (running : List String)
    → lookup k claims ≡ none
    → Matches claims running
    → Matches (insert k false claims) (k ∷ running)
unfolding Matches count lookup insert
insert-Matches k claims running e h j = ground (
  arith,
  e,
  h j,
  lookup-insert k j false claims,
  str_eq_iff k j,
  ap (λ x. held (lookup x claims)),
)

hooked-Matches :
    (k : String) (claims : Claims) (running : List String)
    → lookup k claims ≡ none
    → Matches claims running
    → Matches (insert k true claims) running
unfolding Matches
hooked-Matches k claims running e h j =
    ground (arith, e, h j, lookup-insert k j true claims, str_eq_iff k j)

without-Matches :
    (k : String) (claims : Claims) (running : List String)
    → Matches claims running
    → Matches (without k claims) (removed k running)
unfolding Matches
without-Matches k claims running h j =
    ground (arith, h j, lookup-without k j claims, count-removed k j running)

unhooked-Matches :
    (k : String) (claims : Claims) (running : List String)
    → lookup k claims ≡ some true
    → Matches claims running
    → Matches (without k claims) running
unfolding Matches
unhooked-Matches k claims running e h j =
    ground (arith, e, h j, lookup-without k j claims, str_eq_iff k j)

began-IsClaimed :
    (k : String) (w : World)
    → (claim_update k w.claims).0 ≡ true
    → IsClaimed w
    → IsClaimed (began k w)
unfolding IsClaimed claim_update claim_update_as
began-IsClaimed k w e h = elim (Option-cases (lookup k w.claims)) [
  | inl n ↦
      subst (λ c. Matches c (k ∷ w.running)) (ground (arith, n))
        (insert-Matches k w.claims w.running n h)
  | inr (b, q) ↦ ground (arith, e, q)
]

ended-IsClaimed : (k : String) (w : World) → IsClaimed w → IsClaimed (ended k w)
unfolding IsClaimed release_update
ended-IsClaimed k w h = without-Matches k w.claims w.running h

hook_begins-Matches :
    (k : String) (claims : Claims) (running : List String)
    → Matches claims running
    → Matches (claim_update_as k true claims).1 running
unfolding claim_update_as
hook_begins-Matches k claims running h = elim (Option-cases (lookup k claims)) [
  | inl n ↦ subst (λ c. Matches c running) (ground (arith, n)) (hooked-Matches k claims running n h)
  | inr (b, q) ↦ subst (λ c. Matches c running) (ground (arith, q)) h
]

hook_ends-Matches :
    (k : String) (claims : Claims) (running : List String)
    → Matches claims running
    → Matches (release_hook_update k claims) running
unfolding release_hook_update
hook_ends-Matches k claims running h = go (lookup k claims) refl
  where
    go :
        (o : Option Bool)
        → lookup k claims ≡ o
        → Matches
            (elim o as (λ _. Claims) [
              | none ↦ claims
              | some true ↦ without k claims
              | some false ↦ claims
            ])
            running
    go none e = h
    go (some true) e = unhooked-Matches k claims running e h
    go (some false) e = h

abbrev either : {A : Type 0} → Bool → A × World → A × World → A × World
either b x y = if b then x else y

guarded-IsClaimed :
    {A : Type 0} (k : String) (w : World) (a b : A)
    → IsClaimed w
    → IsClaimed (either (claim_update k w.claims).0 (a, began k w) (b, w)).1
guarded-IsClaimed {A} k w a b h = go (claim_update k w.claims).0 refl
  where
    go :
        (c : Bool)
        → (claim_update k w.claims).0 ≡ c
        → IsClaimed (either {A = A} c (a, began k w) (b, w)).1
    go true e = began-IsClaimed k w e h
    go false e = h

on_geo_update-IsClaimed :
    (t : String) (updating skipped : Bool) (error : Option String) (w : World)
    → IsClaimed w
    → IsClaimed (on_geo_update t updating skipped error w)
unfolding on_geo_update IsClaimed
on_geo_update-IsClaimed t true skipped error w h =
    hook_begins-Matches (geo_key t) w.claims w.running h
on_geo_update-IsClaimed t false skipped error w h =
    hook_ends-Matches (geo_key t) w.claims w.running h

refused-IsClaimed :
    {A : Type 0} (b : Bool) (e : A) (w : World) (x : A × World)
    → IsClaimed w
    → IsClaimed x.1
    → IsClaimed (either b (e, w) x).1
refused-IsClaimed true e w x h g = h
refused-IsClaimed false e w x h g = g

ended_if-IsClaimed :
    (b : Bool) (w w' : World) → IsClaimed w → IsClaimed w' → IsClaimed (if b then w' else w)
ended_if-IsClaimed true w w' h g = g
ended_if-IsClaimed false w w' h g = h

provider_ended-IsClaimed :
    (name : String) (error : Option ProviderError) (w : World)
    → IsClaimed w
    → IsClaimed (external_provider_updated name error w)
unfolding external_provider_updated IsClaimed
provider_ended-IsClaimed name error w h = ended-IsClaimed (provider_key name) w h

step-IsClaimed : (s : Step) (w : World) → IsClaimed w → IsClaimed (step s w)
unfolding step handle_update_geo_data geo_data_updated update_external_provider
    external_provider_updated
step-IsClaimed (update_geo t) w h =
    refused-IsClaimed (not (is_geo_resource t)) _ w _ h (guarded-IsClaimed (geo_key t) w _ _ h)
step-IsClaimed (geo_updated t) w h =
    ended_if-IsClaimed (contains (geo_key t) w.running) w _ h (ended-IsClaimed (geo_key t) w h)
step-IsClaimed (hook t updating skipped error) w h =
    on_geo_update-IsClaimed t updating skipped error w h
step-IsClaimed (update_provider proxies rules name) w h =
    refused-IsClaimed (not (is_some (lookup_external_provider proxies rules name))) _ w _ h
      (guarded-IsClaimed (provider_key name) w _ _ h)
step-IsClaimed (provider_updated name error) w h =
    ended_if-IsClaimed (contains (provider_key name) w.running) w
      (external_provider_updated name error w) h (provider_ended-IsClaimed name error w h)

-- Over every order of updates of providers and geo data, their ends, and starts and ends of mihomo's own updater: of
-- every resource, one update of the core's own runs exactly while its claim is held by such an update, and none
-- otherwise, so two never run at once, and mihomo's own updater, whose run may start and finish inside a manual one,
-- never gives that claim back.
pub one_update_at_a_time : (steps : List Step) (w : World) → IsClaimed w → IsClaimed (run steps w)
unfolding run
one_update_at_a_time [] w h = h
one_update_at_a_time (s ∷ steps) w h = one_update_at_a_time steps (step s w) (step-IsClaimed s w h)

pub idle-IsClaimed : (w : World) → w.claims ≡ [] → w.running ≡ [] → IsClaimed w
unfolding IsClaimed Matches count lookup
idle-IsClaimed w c r key = ground (arith, c, r)
