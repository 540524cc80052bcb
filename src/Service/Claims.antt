-- ===== src/Service/Claims.antt =====
-- core/service_check.go: `claimService`, `claimServices` and their releases. A context is a number, and
-- those that are not cancelled stand with the service they were made for.
use yu_clash.Prelude.{
  ℕ, suc, ◌≡◌, Bool, false, Option, none, some, String, List, [], ◌∷◌, ◌==◌, if◌then◌else◌, inl,
  inr, Bool-cases, Option-cases, nat_equality, string_equality, str_eq_iff, arith,
}
use yu_clash.Prelude.Maps.{lookup, insert, without, lookup-insert, lookup-without}

pub record Claims : Type 0 where
  -- `serviceClaims`
  pub claims : List (String × ℕ)
  -- the contexts that no cancel function was called of
  pub live : List (ℕ × String)
  pub next : ℕ

abbrev pub no_claims : Claims
no_claims = record { claims = []; live = []; next = 0 }

abbrev pub cancel_previous : Option ℕ → List (ℕ × String) → List (ℕ × String)
cancel_previous none live = live
cancel_previous (some claim) live = without claim live

-- `claimService`: the new context is the number `next`.
unfoldable pub claim_service : String → Claims → Claims
unfolding lookup insert without
claim_service name c = record {
  claims = insert name c.next c.claims;
  live = insert c.next name (cancel_previous (lookup name c.claims) c.live);
  next = suc c.next;
}

abbrev pub holds : Option ℕ → ℕ → Bool
holds none claim = false
holds (some other) claim = other == claim

-- The release of a claim: it cancels its own context, and gives up the name unless a newer claim has it.
unfoldable pub release : String → ℕ → Claims → Claims
unfolding lookup without
release name claim c = record c {
  live = without claim c.live;
  claims = if holds (lookup name c.claims) claim then without name c.claims else c.claims;
}

-- The contexts of `claimServices`: a name that comes twice in a sweep shares its context.
unfoldable pub claim_services : List String → List (String × ℕ) → Claims → List ℕ × Claims
unfolding lookup insert claim_service
claim_services [] claimed c = ([], c)
claim_services (name ∷ names) claimed c = elim (lookup name claimed) [
  | some context ↦ (let (contexts, c') = claim_services names claimed c in (context ∷ contexts, c'))
  | none ↦
      (let (contexts, c') =
          claim_services names (insert name c.next claimed) (claim_service name c) in
        (c.next ∷ contexts, c'))
]

pub data Step : Type 0 where
  claims_one : String → Step
  releases : String → ℕ → Step

unfoldable pub step : Step → Claims → Claims
unfolding claim_service release
step (claims_one name) c = claim_service name c
step (releases name claim) c = release name claim c

unfoldable pub steps : List Step → Claims → Claims
unfolding step
steps [] c = c
steps (s ∷ ss) c = steps ss (step s c)

-- A live context is the one that its name's claim holds, and contexts are numbered below the next one.
pub record IsExclusive (c : Claims) : Type 0 where
  pub held :
      (claim : ℕ) (name : String)
      → lookup claim c.live ≡ some name
      → lookup name c.claims ≡ some claim

claim_service-IsExclusive :
    (name : String) (c : Claims) → IsExclusive c → IsExclusive (claim_service name c)
unfolding claim_service
claim_service-IsExclusive name c h = record { held = kept }
  where
    others :
        (claim : ℕ) (other : String)
        → lookup claim (cancel_previous (lookup name c.claims) c.live) ≡ some other
        → lookup other (insert name c.next c.claims) ≡ some claim
    others claim other e = elim (Option-cases (lookup name c.claims)) [
      | inl n ↦ ground (
        arith,
        n,
        e,
        h.held claim other,
        lookup-insert name other c.next c.claims,
        str_eq_iff name other,
      )
      | inr (p, s) ↦ ground (
        arith,
        s,
        e,
        h.held claim other,
        lookup-insert name other c.next c.claims,
        lookup-without p claim c.live,
        str_eq_iff name other,
      )
    ]

    kept :
        (claim : ℕ) (other : String)
        → lookup claim (insert c.next name (cancel_previous (lookup name c.claims) c.live))
          ≡ some other
        → lookup other (insert name c.next c.claims) ≡ some claim
    kept claim other e = elim (Bool-cases (c.next == claim)) [
      | inl n ↦ ground (
        arith,
        n,
        e,
        lookup-insert c.next claim name (cancel_previous (lookup name c.claims) c.live),
        lookup-insert name other c.next c.claims,
        str_eq_iff name other,
      )
      | inr n ↦ others claim other (
          ground (
            arith,
            n,
            e,
            lookup-insert c.next claim name (cancel_previous (lookup name c.claims) c.live),
          ))
    ]

release-IsExclusive :
    (name : String) (claim : ℕ) (c : Claims) → IsExclusive c → IsExclusive (release name claim c)
unfolding release
release-IsExclusive name claim c h = record { held = kept }
  where
    kept :
        (other : ℕ) (owner : String)
        → lookup other (without claim c.live) ≡ some owner
        → lookup owner
            (if holds (lookup name c.claims) claim then without name c.claims else c.claims)
          ≡ some other
    kept other owner e = elim (Bool-cases (holds (lookup name c.claims) claim)) [
      | inl t ↦ (elim (Option-cases (lookup name c.claims)) [
        | inl n ↦ ground (arith, n, t)
        | inr (p, s) ↦ ground (
          arith,
          s,
          t,
          e,
          h.held other owner,
          lookup-without claim other c.live,
          lookup-without name owner c.claims,
          str_eq_iff name owner,
        )
      ])
      | inr t ↦ ground (arith, t, e, h.held other owner, lookup-without claim other c.live)
    ]

steps-IsExclusive : (ss : List Step) (c : Claims) → IsExclusive c → IsExclusive (steps ss c)
unfolding steps step
steps-IsExclusive [] c h = h
steps-IsExclusive (claims_one name ∷ ss) c h =
    steps-IsExclusive ss (claim_service name c) (claim_service-IsExclusive name c h)
steps-IsExclusive (releases name claim ∷ ss) c h =
    steps-IsExclusive ss (release name claim c) (release-IsExclusive name claim c h)

-- After any claims and releases, whatever names and contexts they have, at most one context of a service is not
-- cancelled, and it is the one that the service's claim holds.
pub claims_are_exclusive :
    (ss : List Step) (name : String) (a b : ℕ)
    → lookup a (steps ss no_claims).live ≡ some name
    → lookup b (steps ss no_claims).live ≡ some name
    → (a ≡ b) × (lookup name (steps ss no_claims).claims ≡ some a)
unfolding lookup
claims_are_exclusive ss name a b ha hb =
    let h = steps-IsExclusive ss no_claims (record { held = none_held }) in
    (ground (arith, h.held a name ha, h.held b name hb), h.held a name ha)
  where
    none_held :
        (claim : ℕ) (other : String)
        → lookup claim no_claims.live ≡ some other
        → lookup other no_claims.claims ≡ some claim
    none_held claim other e = ground (arith, e)
