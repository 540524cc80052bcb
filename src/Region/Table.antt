-- ===== src/Region/Table.antt =====
-- The table of core/region.go is sorted, so its binary search is exact.
use yu_clash.Prelude.{
  ℕ, zero, suc, ◌+◌, ◌*◌, ◌/◌, ◌≤◌, ◌<◌, ◌≡◌, refl, ◌∙◌, ap, Bool, true, false, not, ◌&&◌, [], ◌∷◌,
  map, take, drop, length, ◌==◌, if◌then◌else◌, arith,
}
use yu_clash.Text.{Text, before, trim_space, upper}
use yu_clash.Region.{
  entry_key, iso3166_packed, search_table, is_ascii_upper, normalize_folded, normalize_region,
}
use yu_clash.Region.Search.{IsSorted, before-transitive, linear_search, binary_search_is_linear}

-- Every key is greater than the one before it, the first one than `k`.
ascending_from : Text → Text → Bool
ascending_from k (a ∷ b ∷ c ∷ _ ∷ _ ∷ rest) =
    let others = ascending_from (a ∷ b ∷ c ∷ []) rest in before k (a ∷ b ∷ c ∷ []) && others
ascending_from k _ = true

step_key :
    (a b c d e : ℕ) (rest : Text) (i : ℕ)
    → entry_key (a ∷ b ∷ c ∷ d ∷ e ∷ rest) (suc i) ≡ entry_key rest i
unfolding entry_key
step_key a b c d e rest i =
    let q : suc i * 5 ≡ suc (suc (suc (suc (suc (i * 5))))) = omega arith in
    ap (λ k. take 3 (drop k (a ∷ b ∷ c ∷ d ∷ e ∷ rest))) q

ascending_from-first :
    (k : Text) (a b c d e : ℕ) (rest : Text)
    → ascending_from k (a ∷ b ∷ c ∷ d ∷ e ∷ rest) ≡ true
    → (before k (a ∷ b ∷ c ∷ []) ≡ true) × (ascending_from (a ∷ b ∷ c ∷ []) rest ≡ true)
unfolding ascending_from
ascending_from-first k a b c d e rest h =
    split (before k (a ∷ b ∷ c ∷ [])) (ascending_from (a ∷ b ∷ c ∷ []) rest) h
  where
    split : (p q : Bool) → p && q ≡ true → (p ≡ true) × (q ≡ true)
    split true true g = (refl, refl)
    split true false g = ground (arith, g)
    split false q g = ground (arith, g)

all_after :
    (i : ℕ) (k t : Text)
    → ascending_from k t ≡ true
    → 5 * (i + 1) ≤ length t
    → before k (entry_key t i) ≡ true
unfolding entry_key
all_after i k [] h g = absurd (omega (arith, g))
all_after i k (a ∷ []) h g = absurd (omega (arith, g))
all_after i k (a ∷ b ∷ []) h g = absurd (omega (arith, g))
all_after i k (a ∷ b ∷ c ∷ []) h g = absurd (omega (arith, g))
all_after i k (a ∷ b ∷ c ∷ d ∷ []) h g = absurd (omega (arith, g))
all_after zero k (a ∷ b ∷ c ∷ d ∷ e ∷ rest) h g = (ascending_from-first k a b c d e rest h).0
all_after (suc i) k (a ∷ b ∷ c ∷ d ∷ e ∷ rest) h g =
    let (p, q) = ascending_from-first k a b c d e rest h in
    before-transitive k (a ∷ b ∷ c ∷ []) (entry_key (a ∷ b ∷ c ∷ d ∷ e ∷ rest) (suc i)) p (
      ap (before (a ∷ b ∷ c ∷ [])) (step_key a b c d e rest i)
      ∙ all_after i (a ∷ b ∷ c ∷ []) rest q (omega (arith, g)))

all_sorted :
    (i j : ℕ) (k t : Text)
    → ascending_from k t ≡ true
    → i < j
    → 5 * (j + 1) ≤ length t
    → before (entry_key t i) (entry_key t j) ≡ true
unfolding entry_key
all_sorted i zero k t h o g = absurd (omega (arith, o))
all_sorted i (suc j) k [] h o g = absurd (omega (arith, g))
all_sorted i (suc j) k (a ∷ []) h o g = absurd (omega (arith, g))
all_sorted i (suc j) k (a ∷ b ∷ []) h o g = absurd (omega (arith, g))
all_sorted i (suc j) k (a ∷ b ∷ c ∷ []) h o g = absurd (omega (arith, g))
all_sorted i (suc j) k (a ∷ b ∷ c ∷ d ∷ []) h o g = absurd (omega (arith, g))
all_sorted zero (suc j) k (a ∷ b ∷ c ∷ d ∷ e ∷ rest) h o g =
    ap (before (a ∷ b ∷ c ∷ [])) (step_key a b c d e rest j)
    ∙ all_after j (a ∷ b ∷ c ∷ []) rest (ascending_from-first k a b c d e rest h).1
        (omega (arith, g))
all_sorted (suc i) (suc j) k (a ∷ b ∷ c ∷ d ∷ e ∷ rest) h o g =
    ap (λ x. before x (entry_key (a ∷ b ∷ c ∷ d ∷ e ∷ rest) (suc j))) (step_key a b c d e rest i)
    ∙ (ap (before (entry_key rest i)) (step_key a b c d e rest j)
        ∙ all_sorted i j (a ∷ b ∷ c ∷ []) rest (ascending_from-first k a b c d e rest h).1
            (omega (arith, o)) (omega (arith, g)))

iso3166_packed-ascending : ascending_from [] iso3166_packed ≡ true
unfolding ascending_from iso3166_packed before
iso3166_packed-ascending = refl

iso3166_packed-IsSorted : IsSorted iso3166_packed (length iso3166_packed / 5)
iso3166_packed-IsSorted i j o g =
    all_sorted i j [] iso3166_packed iso3166_packed-ascending o (omega (arith, g))

abbrev pub folded : Text → Text
folded code = map upper (trim_space code)

-- What the folding means, with a search that visits the entries one by one.
pub region_by_scan : Text → Text
unfolding linear_search iso3166_packed is_ascii_upper
region_by_scan code =
    if not (is_ascii_upper code)
    then []
    else if length code == 2
    then code
    else if length code == 3
    then linear_search iso3166_packed code (length iso3166_packed / 5) 0
    else []

same_cases :
    (is_upper two three : Bool) (code a b : Text)
    → a ≡ b
    → (if two
        then (if is_upper then code else [])
        else if three
        then (if is_upper then a else [])
        else [])
      ≡ (if not is_upper then [] else if two then code else if three then b else [])
same_cases true true three code a b e = refl
same_cases true false true code a b e = e
same_cases true false false code a b e = refl
same_cases false true three code a b e = refl
same_cases false false true code a b e = refl
same_cases false false false code a b e = refl

-- A country code, trimmed and folded to upper case, is itself when it has two letters, the alpha-2 code of its entry when
-- it has three letters and the table has it, and nothing otherwise: the binary search over the packed table misses no
-- entry and finds no other.
pub normalize_region_lem : (code : Text) → normalize_region code ≡ region_by_scan (folded code)
unfolding normalize_region normalize_folded region_by_scan
normalize_region_lem code =
    same_cases (is_ascii_upper (folded code)) (length (folded code) == 2)
      (length (folded code) == 3) (folded code) (search_table iso3166_packed (folded code))
      (linear_search iso3166_packed (folded code) (length iso3166_packed / 5) 0)
      (binary_search_is_linear iso3166_packed (folded code) iso3166_packed-IsSorted)
