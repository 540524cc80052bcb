-- ===== src/Text.antt =====
-- The functions of Go's packages strings and net/url that core/ uses, over texts as lists of bytes. Case
-- is folded for ASCII letters only.
use Prim.Native.Char.{code}
use yu_clash.Prelude.{
  ◌≡◌, ◌↔◌, arith, Equality, ℕ, ◌+◌, ◌-◌, ◌/◌, ◌%◌, String, Bool, true, false, ◌&&◌, ◌||◌, Option,
  none, some, List, [], ◌∷◌, reverse, leb, ltb, ◌==◌, if◌then◌else◌,
}

abbrev pub Text : Type 0
Text = List ℕ

-- The bytes of an ASCII literal.
abbrev pub bytes : String → Text
bytes String.[] = []
bytes (String.◌∷◌ c s) = code c ∷ bytes s

unfoldable pub equal : Text → Text → Bool
equal [] [] = true
equal [] (_ ∷ _) = false
equal (_ ∷ _) [] = false
equal (a ∷ s) (b ∷ t) = a == b && equal s t

-- `a < b` on strings.
unfoldable pub before : Text → Text → Bool
before _ [] = false
before [] (_ ∷ _) = true
before (a ∷ s) (b ∷ t) = ltb a b || a == b && before s t

abbrev pub is_empty : Text → Bool
is_empty [] = true
is_empty (_ ∷ _) = false

-- `slices.Contains`.
unfoldable pub member : Text → List Text → Bool
unfolding equal
member t [] = false
member t (u ∷ us) = equal u t || member t us

abbrev pub is_between : ℕ → ℕ → ℕ → Bool
is_between low high c = leb low c && leb c high

-- `strings.ToLower` and `strings.ToUpper`.
abbrev pub lower : ℕ → ℕ
lower c = if is_between 65 90 c then c + 32 else c

abbrev pub upper : ℕ → ℕ
upper c = if is_between 97 122 c then c - 32 else c

-- The ASCII part of `unicode.IsSpace`.
abbrev pub is_space : ℕ → Bool
is_space c = is_between 9 13 c || c == 32

unfoldable pub trim_left : (ℕ → Bool) → Text → Text
trim_left p [] = []
trim_left p (c ∷ s) = if p c then trim_left p s else c ∷ s

abbrev pub trim_right : (ℕ → Bool) → Text → Text
trim_right p s = reverse (trim_left p (reverse s))

abbrev pub trim_space : Text → Text
trim_space s = trim_right is_space (trim_left is_space s)

-- `strings.CutPrefix`.
unfoldable pub cut_prefix : Text → Text → Option Text
cut_prefix [] s = some s
cut_prefix (_ ∷ _) [] = none
cut_prefix (a ∷ p) (b ∷ s) = if a == b then cut_prefix p s else none

-- `strings.Index`, and the text behind the first occurrence.
unfoldable pub after : Text → Text → Option Text
unfolding cut_prefix
after needle [] = cut_prefix needle []
after needle (c ∷ s) = elim (cut_prefix needle (c ∷ s)) [
  | some rest ↦ some rest
  | none ↦ after needle s
]

abbrev pub contains : Text → Text → Bool
contains s needle = elim (after needle s) [ some _ ↦ true | none ↦ false ]

abbrev pub extend : ℕ → List Text → List Text
extend c [] = (c ∷ []) ∷ []
extend c (s ∷ ss) = (c ∷ s) ∷ ss

-- `strings.Split` at a separator of one byte.
unfoldable pub split : ℕ → Text → List Text
split sep [] = [] ∷ []
split sep (c ∷ s) = let rest = split sep s in if c == sep then [] ∷ rest else extend c rest

abbrev pub first : List Text → Text
first [] = []
first (s ∷ _) = s

abbrev pub hex_digit : ℕ → ℕ
hex_digit n = if ltb n 10 then 48 + n else 55 + n

abbrev pub is_unreserved : ℕ → Bool
is_unreserved c =
    is_between 48 57 c
    || is_between 65 90 c
    || is_between 97 122 c
    || c == 45
    || c == 95
    || c == 46
    || c == 126

-- `url.QueryEscape`.
unfoldable pub query_escape : Text → Text
query_escape [] = []
query_escape (c ∷ s) =
    let rest = query_escape s in
    if is_unreserved c
    then c ∷ rest
    else if c == 32
    then 43 ∷ rest
    else 37 ∷ hex_digit (c / 16) ∷ hex_digit (c % 16) ∷ rest

pub equal_texts : (s t : Text) → (equal s t ≡ true) ↔ (s ≡ t)
unfolding equal
equal_texts [] [] = ground arith
equal_texts [] (b ∷ t) = ground arith
equal_texts (a ∷ s) [] = ground arith
equal_texts (a ∷ s) (b ∷ t) = ground (arith, equal_texts s t)

instance abbrev pub text_equality : Equality Text
text_equality = record { equal = equal; equal_iff = equal_texts }

-- `strings.HasPrefix`.
abbrev pub has_prefix : Text → Text → Bool
has_prefix s p = elim (cut_prefix p s) [ some _ ↦ true | none ↦ false ]

-- `strings.Cut` at a separator of one byte.
unfoldable pub cut : ℕ → Text → Option (Text × Text)
cut sep [] = none
cut sep (c ∷ s) = elim (c == sep) [
  | true ↦ some ([], s)
  | false ↦ elim (cut sep s) [
    | none ↦ none
    | some (before_it, after_it) ↦ some (c ∷ before_it, after_it)
  ]
]

abbrev pub any_byte : (ℕ → Bool) → Text → Bool
any_byte p [] = false
any_byte p (c ∷ s) = p c || any_byte p s

abbrev pub every_byte : (ℕ → Bool) → Text → Bool
every_byte p [] = true
every_byte p (c ∷ s) = p c && every_byte p s
