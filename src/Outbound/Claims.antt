-- ===== src/Outbound/Claims.antt =====
-- core/outbound_ip.go: the claims of running lookups. A lookup's cancel function is a number that no other has.
use yu_clash.Prelude.{
  ℕ, suc, ◌≤◌, ◌≡◌, refl, sym, ap, subst, Bool, false, Option, none, some, List, [], ◌∷◌, ◌==◌, ltb,
  if◌then◌else◌, nat_equality, arith,
}
use yu_clash.Prelude.Maps.{lookup, without, HasUniqueKeys, lookup-without}

-- A claim: the lookup and its epoch.
abbrev pub Claim : Type 0
Claim = ℕ × ℕ

pub record OutboundClaims : Type 0 where
  pub next : ℕ
  -- `outboundIpClaims`
  pub claims : List Claim
  -- the lookups that run and were not cancelled, with their epochs
  pub live : List Claim

-- The claims of an epoch that is not older.
unfoldable pub not_older : ℕ → List Claim → List Claim
not_older epoch [] = []
not_older epoch ((id, other) ∷ claims) =
    let rest = not_older epoch claims in if ltb other epoch then rest else (id, other) ∷ rest

unfoldable pub cancelled : ℕ → List Claim → List Claim → List Claim
unfolding without
cancelled epoch [] live = live
cancelled epoch ((id, other) ∷ claims) live =
    let rest = cancelled epoch claims live in if ltb other epoch then without id rest else rest

-- `claimOutboundIp`, at the start of a lookup that gets the next number.
unfoldable pub claim_outbound_ip : ℕ → OutboundClaims → OutboundClaims
unfolding not_older cancelled
claim_outbound_ip epoch c = record {
  next = suc c.next;
  claims = (c.next, epoch) ∷ not_older epoch c.claims;
  live = (c.next, epoch) ∷ cancelled epoch c.claims c.live;
}

-- The function that it returns, at the end of the lookup.
unfoldable pub release_outbound_ip : ℕ → OutboundClaims → OutboundClaims
unfolding without
release_outbound_ip id c = record c { claims = without id c.claims; live = without id c.live }

-- Lookups that start, with the epoch of the route, and end, in any order.
pub data Step : Type 0 where
  claim release : ℕ → Step

unfoldable pub step : Step → OutboundClaims → OutboundClaims
unfolding claim_outbound_ip release_outbound_ip
step (claim epoch) c = claim_outbound_ip epoch c
step (release id) c = release_outbound_ip id c

unfoldable pub run : List Step → OutboundClaims → OutboundClaims
unfolding step
run [] c = c
run (s ∷ steps) c = run steps (step s c)

-- Whether a claim is of an older epoch.
abbrev pub is_older : ℕ → Option ℕ → Bool
is_older epoch none = false
is_older epoch (some other) = ltb other epoch

lookup-not_older :
    (epoch k : ℕ) (claims : List Claim)
    → HasUniqueKeys claims
    → lookup k (not_older epoch claims)
      ≡ (if is_older epoch (lookup k claims) then none else lookup k claims)
unfolding lookup not_older
lookup-not_older epoch k [] u = refl
lookup-not_older epoch k ((id, other) ∷ claims) (e, u) =
    ground (arith, e, lookup-not_older epoch k claims u, ap (λ x. lookup x claims))

lookup-cancelled :
    (epoch k : ℕ) (claims live : List Claim)
    → HasUniqueKeys claims
    → lookup k (cancelled epoch claims live)
      ≡ (if is_older epoch (lookup k claims) then none else lookup k live)
unfolding lookup cancelled
lookup-cancelled epoch k [] live u = refl
lookup-cancelled epoch k ((id, other) ∷ claims) live (e, u) = ground (
  arith,
  e,
  lookup-cancelled epoch k claims live u,
  lookup-without id k (cancelled epoch claims live),
)

not_older-HasUniqueKeys :
    (epoch : ℕ) (claims : List Claim)
    → HasUniqueKeys claims
    → HasUniqueKeys (not_older epoch claims)
unfolding not_older
not_older-HasUniqueKeys epoch [] u = u
not_older-HasUniqueKeys epoch ((id, other) ∷ claims) (e, u) =
    ground (arith, e, not_older-HasUniqueKeys epoch claims u, lookup-not_older epoch id claims u)

without-HasUniqueKeys :
    (id : ℕ) (claims : List Claim) → HasUniqueKeys claims → HasUniqueKeys (without id claims)
unfolding without
without-HasUniqueKeys id [] u = u
without-HasUniqueKeys id ((j, other) ∷ claims) (e, u) =
    ground (arith, e, without-HasUniqueKeys id claims u, lookup-without id j claims)

-- Each running lookup has one claim, under a number that no later one has, and is live while it holds it.
pub IsWell : OutboundClaims → Type 0
unfolding lookup
IsWell c =
    HasUniqueKeys c.claims
    × ((k : ℕ) → c.next ≤ k → lookup k c.claims ≡ none)
    × ((k : ℕ) → lookup k c.live ≡ lookup k c.claims)

claim-IsWell : (epoch : ℕ) (c : OutboundClaims) → IsWell c → IsWell (claim_outbound_ip epoch c)
unfolding IsWell claim_outbound_ip lookup
claim-IsWell epoch c (u, f, l) = (
  (
    ground (arith, f c.next, lookup-not_older epoch c.next c.claims u),
    not_older-HasUniqueKeys epoch c.claims u,
  ),
  λ k h. ground (arith, h, f k, lookup-not_older epoch k c.claims u),
  λ k.
      ground (
        arith,
        l k,
        lookup-not_older epoch k c.claims u,
        lookup-cancelled epoch k c.claims c.live u,
      ),
)

release-IsWell : (id : ℕ) (c : OutboundClaims) → IsWell c → IsWell (release_outbound_ip id c)
unfolding IsWell release_outbound_ip
release-IsWell id c (u, f, l) = (
  without-HasUniqueKeys id c.claims u,
  λ k h. ground (arith, f k h, lookup-without id k c.claims),
  λ k. ground (arith, l k, lookup-without id k c.claims, lookup-without id k c.live),
)

run-IsWell : (steps : List Step) (c : OutboundClaims) → IsWell c → IsWell (run steps c)
unfolding run step
run-IsWell [] c h = h
run-IsWell (claim epoch ∷ steps) c h =
    run-IsWell steps (claim_outbound_ip epoch c) (claim-IsWell epoch c h)
run-IsWell (release id ∷ steps) c h =
    run-IsWell steps (release_outbound_ip id c) (release-IsWell id c h)

-- Whatever lookups have started and ended before, a new lookup of an epoch cancels exactly those live ones whose epoch is
-- older: it is live itself, and every other lookup is live afterwards, with its epoch, when it was and is not older.
pub older_lookups_are_cancelled :
    (steps : List Step) (c : OutboundClaims)
    → IsWell c
    → (epoch k : ℕ)
    → lookup k (claim_outbound_ip epoch (run steps c)).live ≡ (
        if (run steps c).next == k
        then some epoch
        else if is_older epoch (lookup k (run steps c).live)
        then none
        else lookup k (run steps c).live)
unfolding IsWell claim_outbound_ip lookup
older_lookups_are_cancelled steps c h epoch k =
    let c' = run steps c in
    let (u, f, l) = run-IsWell steps c h in
    ground (arith, l k, lookup-cancelled epoch k c'.claims c'.live u)

pub none-IsWell : (c : OutboundClaims) → c.claims ≡ [] → c.live ≡ [] → IsWell c
unfolding IsWell lookup
none-IsWell c e f =
    (subst HasUniqueKeys (sym e) tt, λ k h. ground (arith, e), λ k. ground (arith, e, f))
