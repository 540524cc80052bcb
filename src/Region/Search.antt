-- ===== src/Region/Search.antt =====
-- The binary search over a sorted table finds what a linear one finds.
use yu_clash.Prelude.{
  ℕ, zero, suc, ◌+◌, ◌/◌, ◌≤◌, ◌<◌, ◌≡◌, ◌≢◌, refl, sym, ◌∙◌, ap, true, false, [], ◌∷◌, length, ltb,
  ◌==◌, if◌then◌else◌, ◌⊎◌, inl, inr, Bool-cases, arith,
}
use yu_clash.Text.{Text, before, equal, equal_texts}
use yu_clash.Region.{entry_key, entry_value, search_range, search_table}

pub before-irreflexive : (a : Text) → before a a ≡ false
unfolding before
before-irreflexive [] = refl
before-irreflexive (x ∷ a) = ground (arith, before-irreflexive a)

before-total : (a b : Text) → before a b ≡ false → before b a ≡ false → a ≡ b
unfolding before
before-total [] [] p q = refl
before-total [] (y ∷ b) p q = ground (arith, p)
before-total (x ∷ a) [] p q = ground (arith, q)
before-total (x ∷ a) (y ∷ b) p q = ground (arith, p, q, before-total a b)

pub before-transitive : (a b c : Text) → before a b ≡ true → before b c ≡ true → before a c ≡ true
unfolding before
before-transitive a b [] p q = ground (arith, q)
before-transitive a [] (z ∷ c) p q = ground (arith, p)
before-transitive [] (y ∷ b) (z ∷ c) p q = refl
before-transitive (x ∷ a) (y ∷ b) (z ∷ c) p q = ground (arith, p, q, before-transitive a b c)

abbrev pub IsSorted : Text → ℕ → Type 0
IsSorted table n = (i j : ℕ) → i < j → j < n → before (entry_key table i) (entry_key table j) ≡ true

before-asymmetric : (a b : Text) → before a b ≡ true → before b a ≡ false
before-asymmetric a b p = elim (Bool-cases (before b a)) [
  | inl q ↦ absurd (ground (arith, before-transitive a b a p q, before-irreflexive a))
  | inr q ↦ q
]

middle : (low high : ℕ) → low < high → (low ≤ (low + high) / 2) × ((low + high) / 2 < high)
middle low high h = (omega (arith, h), omega (arith, h))

module _ (table code : Text) (n : ℕ) (sorted : IsSorted table n) where
  -- Where the code lies, seen from the middle.
  key_is_after :
      (mid i : ℕ)
      → mid < i
      → i < n
      → entry_key table i ≡ code
      → before (entry_key table mid) code ≡ true
  key_is_after mid i a b e = ap (before (entry_key table mid)) (sym e) ∙ sorted mid i a b

  key_is_before :
      (mid i : ℕ)
      → i < mid
      → mid < n
      → entry_key table i ≡ code
      → before code (entry_key table mid) ≡ true
  key_is_before mid i a b e = ap (λ k. before k (entry_key table mid)) (sym e) ∙ sorted i mid a b

  search_range-finds :
      (rounds low high i : ℕ)
      → low ≤ i
      → i < high
      → high ≤ n
      → high ≤ low + rounds
      → entry_key table i ≡ code
      → search_range table code rounds low high ≡ entry_value table i
  unfolding search_range
  search_range-finds zero low high i a b c d e = absurd (omega (arith, a, b, d))
  search_range-finds (suc rounds) low high i a b c d e =
      let (above, below) = middle low high (omega (arith, a, b)) in
      let mid : ℕ = (low + high) / 2 in
      let left = search_range-finds rounds low mid i a in
      let right = search_range-finds rounds (mid + 1) high i in
      elim (Bool-cases (ltb mid i)) [
        | inl t ↦ ground (
          arith,
          t,
          a,
          b,
          key_is_after mid i (ground (arith, t)) (omega (arith, b, c)) e,
          right (ground (arith, t)) b c (omega (arith, d, above)) e,
        )
        | inr t ↦ (elim (Bool-cases (ltb i mid)) [
          | inl u ↦
              (let smaller = key_is_before mid i (ground (arith, u)) (omega (arith, below, c)) e in
                ground (
                  arith,
                  u,
                  a,
                  b,
                  smaller,
                  before-asymmetric code (entry_key table mid) smaller,
                  left (ground (arith, u)) (omega (arith, below, c)) (omega (arith, d, below)) e,
                ))
          | inr u ↦
              (let same : mid ≡ i = ground (arith, t, u) in
                ground (arith, a, b, same, e, before-irreflexive code))
        ])
      ]

  search_range-misses :
      (rounds low high : ℕ)
      → ((i : ℕ) → low ≤ i → i < high → entry_key table i ≢ code)
      → search_range table code rounds low high ≡ []
  unfolding search_range
  search_range-misses zero low high h = refl
  search_range-misses (suc rounds) low high h = elim (Bool-cases (ltb low high)) [
    | inr t ↦ ground (arith, t)
    | inl t ↦
        (let (above, below) = middle low high (ground (arith, t)) in
          let mid : ℕ = (low + high) / 2 in
          let right =
            search_range-misses rounds (mid + 1) high (λ i a b. h i (omega (arith, a, above)) b) in
          let left =
            search_range-misses rounds low mid (λ i a b. h i a (omega (arith, b, below))) in
          let other : entry_key table mid ≢ code = h mid above below in
          elim (Bool-cases (before (entry_key table mid) code)) [
            | inl u ↦ ground (arith, t, u, right)
            | inr u ↦ (elim (Bool-cases (before code (entry_key table mid))) [
              | inl v ↦ ground (arith, t, u, v, left)
              | inr v ↦ absurd (other (before-total (entry_key table mid) code u v))
            ])
          ])
  ]

-- The first of the entries from `start` on whose key is the code, one by one.
unfoldable pub linear_search : Text → Text → ℕ → ℕ → Text
linear_search table code zero start = []
linear_search table code (suc left) start =
    let rest = linear_search table code left (suc start) in
    if equal (entry_key table start) code then entry_value table start else rest

-- Either it stops at an entry with the code, or there is none.
linear_search-cases :
    (table code : Text) (left start : ℕ)
    → ((i : ℕ) × ((start ≤ i)
          × ((i < start + left)
              × ((entry_key table i ≡ code)
                  × (linear_search table code left start ≡ entry_value table i)))))
      ⊎ (((i : ℕ) → start ≤ i → i < start + left → entry_key table i ≢ code)
          × (linear_search table code left start ≡ []))
unfolding linear_search
linear_search-cases table code zero start = inr ((λ i a b e. omega (arith, a, b)), refl)
linear_search-cases table code (suc left) start =
    elim (Bool-cases (equal (entry_key table start) code)) [
      | inl t ↦ inl (
        start,
        (
          omega arith,
          (
            omega arith,
            (ground (arith, t, equal_texts (entry_key table start) code), ground (arith, t)),
          ),
        ),
      )
      | inr t ↦ (elim (linear_search-cases table code left (suc start)) [
        | inl (i, (a, (b, (e, v)))) ↦
            inl (i, (omega (arith, a), (omega (arith, b), (e, ground (arith, t, v)))))
        | inr (none_left, v) ↦ inr (
          (λ i a b e. elim (Bool-cases (i == start)) [
            | inl u ↦ ground (arith, t, u, e, equal_texts (entry_key table start) code)
            | inr u ↦ none_left i (ground (arith, a, u)) (omega (arith, b)) e
          ]),
          ground (arith, t, v),
        )
      ])
    ]

-- On a table whose keys rise, the binary search gives what a linear search over all entries gives, for every code.
pub binary_search_is_linear :
    (table code : Text)
    → IsSorted table (length table / 5)
    → search_table table code ≡ linear_search table code (length table / 5) 0
unfolding search_table
binary_search_is_linear table code sorted =
    let n : ℕ = length table / 5 in
    elim (linear_search-cases table code n 0) [
      | inl (i, (a, (b, (e, v)))) ↦
          search_range-finds table code n sorted n 0 n i a (omega (arith, b)) (omega arith)
            (omega arith) e
          ∙ sym v
      | inr (none_left, v) ↦
          search_range-misses table code n sorted n 0 n (λ i a b. none_left i a (omega (arith, b)))
          ∙ sym v
    ]
