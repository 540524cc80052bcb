-- ===== src/Prelude/Maps.antt =====
-- Go's maps as association lists: a write replaces the entry of its key, and `maps.Equal` compares
-- two maps by their lengths and by a lookup for every entry of the first.
use Prim.Native.Nat.{ℕ, ◌≤◌, ◌<◌}
use mathlib.Core.Path.{◌≡◌, refl, ap, sym, ◌∙◌}
use mathlib.Core.Logic.{◌≢◌, ◌↔◌, inl, inr}
use mathlib.Core.Bool.{Bool, true, false, ◌&&◌}
use mathlib.Core.Option.{Option, none, some}
use mathlib.Core.List.{List, [], ◌∷◌}
use native.Mathlib.Omega.{arith}
use yu_clash.Prelude.Tests.{◌==◌, if◌then◌else◌, Option-cases}
use yu_clash.Prelude.Lists.{length}
use yu_clash.Prelude.Eq.{Equality, beq}

module _ {ℓ κ} {K : Type ℓ} ⦃e : Equality K⦄ {V : Type κ} where
  unfoldable pub lookup : K → List (K × V) → Option V
  lookup k [] = none
  lookup k ((j, v) ∷ m) = if beq j k then some v else lookup k m

  unfoldable pub insert : K → V → List (K × V) → List (K × V)
  insert k v [] = (k, v) ∷ []
  insert k v ((j, w) ∷ m) = if beq j k then (k, v) ∷ m else (j, w) ∷ insert k v m

  unfoldable pub without : K → List (K × V) → List (K × V)
  without k [] = []
  without k ((j, v) ∷ m) = let rest = without k m in if beq j k then rest else (j, v) ∷ rest

  abbrev pub HasUniqueKeys : List (K × V) → Type κ
  HasUniqueKeys [] = Unit
  HasUniqueKeys ((k, _) ∷ m) = (lookup k m ≡ none) × HasUniqueKeys m

  pub lookup-insert :
      (k j : K) (v : V) (m : List (K × V))
      → lookup j (insert k v m) ≡ (if beq k j then some v else lookup j m)
  unfolding lookup insert
  lookup-insert k j v [] = refl
  lookup-insert k j v ((i, w) ∷ m) =
      ground (arith, e.equal_iff k j, e.equal_iff i k, e.equal_iff i j, lookup-insert k j v m)

  pub lookup-without :
      (k j : K) (m : List (K × V)) → lookup j (without k m) ≡ (if beq k j then none else lookup j m)
  unfolding lookup without
  lookup-without k j [] = ground arith
  lookup-without k j ((i, w) ∷ m) =
      ground (arith, e.equal_iff k j, e.equal_iff i k, e.equal_iff i j, lookup-without k j m)

  pub insert-HasUniqueKeys :
      (k : K) (v : V) (m : List (K × V)) → HasUniqueKeys m → HasUniqueKeys (insert k v m)
  unfolding insert lookup
  insert-HasUniqueKeys k v [] h = (refl, tt)
  insert-HasUniqueKeys k v ((j, w) ∷ m) h = ground (
    arith,
    e.equal_iff j k,
    e.equal_iff k j,
    lookup-insert k j v m,
    insert-HasUniqueKeys k v m h.1,
  )

  abbrev Covers : List (K × V) → List (K × V) → Type (ℓ ⊔ κ)
  Covers m n = (k : K) → lookup k n ≡ none → lookup k m ≡ none

  length-without-le : (k : K) (m : List (K × V)) → length (without k m) ≤ length m
  unfolding without
  length-without-le k [] = omega arith
  length-without-le k ((j, w) ∷ m) = ground (arith, length-without-le k m)

  length-without : (k : K) (m : List (K × V)) → lookup k m ≢ none → length (without k m) < length m
  unfolding lookup without
  length-without k [] h = absurd (h refl)
  length-without k ((j, w) ∷ m) h = ground (arith, length-without-le k m, length-without k m)

  Covers-without :
      (k : K) (v : V) (m n : List (K × V))
      → HasUniqueKeys ((k, v) ∷ m)
      → Covers ((k, v) ∷ m) n
      → Covers m (without k n)
  unfolding lookup
  Covers-without k v m n u c j h = ground (arith, lookup-without k j n, e.equal_iff k j, c j, u.0)

  -- A map with unique keys is no longer than one that has all its keys.
  length-Covers : (m n : List (K × V)) → HasUniqueKeys m → Covers m n → length m ≤ length n
  length-Covers [] n u c = omega arith
  length-Covers ((k, v) ∷ m) n u c = omega (
    arith,
    length-Covers m (without k n) u.1 (Covers-without k v m n u c),
    length-without k n (λ h. unfold lookup in ground (arith, c k h, e.equal_iff k k)),
  )

holds {κ} : {V : Type κ} ⦃d : Equality V⦄ → Option V → V → Bool
holds none v = false
holds (some w) v = beq w v

holds_iff {κ} :
    {V : Type κ} ⦃d : Equality V⦄ (o : Option V) (v : V) → (holds o v ≡ true) ↔ (o ≡ some v)
unfolding holds
holds_iff none v = (λ h. cc, λ h. cc)
holds_iff ⦃d⦄ (some w) v =
    ((λ h. ap some ((d.equal_iff w v).0 h)), λ h. ground (arith, d.equal_iff w v))

module _ {ℓ κ} {K : Type ℓ} ⦃e : Equality K⦄ {V : Type κ} ⦃d : Equality V⦄ where
  all_found : List (K × V) → List (K × V) → Bool
  all_found [] n = true
  all_found ((k, v) ∷ m) n = holds (lookup k n) v && all_found m n

  -- `maps.Equal`.
  unfoldable pub maps_equal : List (K × V) → List (K × V) → Bool
  unfolding all_found holds
  maps_equal m n = length m == length n && all_found m n

  abbrev pub SameMap : List (K × V) → List (K × V) → Type (ℓ ⊔ κ)
  SameMap m n = (k : K) → lookup k m ≡ lookup k n

  all_found_sound :
      (m n : List (K × V)) (k : K) (v : V)
      → all_found m n ≡ true
      → lookup k m ≡ some v
      → lookup k n ≡ some v
  unfolding all_found lookup
  all_found_sound [] n k v h f = cc
  all_found_sound ((j, w) ∷ m) n k v h f =
      ground (arith, e.equal_iff j k, all_found_sound m n k v, holds_iff (lookup j n) w)

  all_found_complete :
      (m n : List (K × V))
      → HasUniqueKeys m
      → ((k : K) (v : V) → lookup k m ≡ some v → lookup k n ≡ some v)
      → all_found m n ≡ true
  unfolding all_found
  all_found_complete [] n u f = refl
  all_found_complete ((k, v) ∷ m) n u f = ground (
    arith,
    (holds_iff (lookup k n) v).1 (f k v (unfold lookup in ground (arith, e.equal_iff k k))),
    all_found_complete m n u.1 (λ j w h. f j w (tail j w h)),
  )
    where
      tail : (j : K) (w : V) → lookup j m ≡ some w → lookup j ((k, v) ∷ m) ≡ some w
      tail j w h = unfold lookup in ground (arith, e.equal_iff k j, u.0)

  SameMap-Covers : (m n : List (K × V)) → SameMap m n → Covers m n
  SameMap-Covers m n s k h = s k ∙ h

  -- A lookup that fails in the first map and succeeds in the second would make the second longer.
  missing :
      (m n : List (K × V)) (k : K)
      → HasUniqueKeys m
      → maps_equal m n ≡ true
      → lookup k m ≡ none
      → lookup k n ≡ none
  unfolding maps_equal
  missing m n k u h f = elim (Option-cases (lookup k n)) [
    | inl none_there ↦ none_there
    | inr (w, there) ↦ absurd (
        omega (
          arith,
          same_length (length m) (length n) (all_found m n) h,
          length-without k n (λ g. cc),
          length-Covers m (without k n) u covers,
        ))
  ]
    where
      same_length : (a b : ℕ) (c : Bool) → (a == b && c) ≡ true → a ≡ b
      same_length a b c g = ground arith

      found : all_found m n ≡ true
      found = ground arith

      covers : Covers m (without k n)
      covers j g = elim (Option-cases (lookup j m)) [
        | inl e' ↦ e'
        | inr (x, e') ↦
            ground (arith, lookup-without k j n, e.equal_iff k j, all_found_sound m n j x found e')
      ]

  -- On maps with unique keys `maps.Equal` decides whether every lookup agrees.
  pub maps_equal_iff :
      (m n : List (K × V))
      → HasUniqueKeys m
      → HasUniqueKeys n
      → (maps_equal m n ≡ true) ↔ SameMap m n
  maps_equal_iff m n u v = (sound, complete)
    where
      sound : maps_equal m n ≡ true → SameMap m n
      sound h k = elim (Option-cases (lookup k m)) [
        | inl e' ↦ e' ∙ sym (missing m n k u h e')
        | inr (x, e') ↦ e' ∙ sym (all_found_sound m n k x (unfold maps_equal in ground arith) e')
      ]

      complete : SameMap m n → maps_equal m n ≡ true
      complete s =
          unfold maps_equal in
          ground (
            arith,
            length-Covers m n u (SameMap-Covers m n s),
            length-Covers n m v (λ k h. sym (s k) ∙ h),
            all_found_complete m n u (λ k x h. sym (s k) ∙ h),
          )
