-- ===== src/Share/Escapes.antt =====
-- A reader of the escapes of net/url.
use yu_clash.Prelude.{
  ℕ, ◌+◌, ◌*◌, ◌-◌, ◌/◌, ◌%◌, ◌<◌, ◌≡◌, refl, ap, ◌∙◌, Bool, true, false, [], ◌∷◌, ltb, ◌==◌,
  if◌then◌else◌, Bool-cases, inl, inr, All, arith,
}
use yu_clash.Text.{Text, hex_digit, is_unreserved, query_escape}
use yu_clash.Share.Url.{escape}
use yu_clash.Share.Base64.{IsByte}

-- `url.PathUnescape`, on what `escape` writes.
from_hex : ℕ → ℕ
from_hex c = if ltb c 58 then c - 48 else c - 55

unfoldable pub unescape : Text → Text
unfolding from_hex
unescape [] = []
unescape (c ∷ []) = c ∷ []
unescape (c ∷ d ∷ []) = c ∷ d ∷ []
unescape (c ∷ d ∷ e ∷ s) =
    let kept = unescape (d ∷ e ∷ s) in
    let rest = unescape s in if c == 37 then (from_hex d * 16 + from_hex e) ∷ rest else c ∷ kept

hex_round :
    (c : ℕ) → c < 256 → from_hex (hex_digit (c / 16)) * 16 + from_hex (hex_digit (c % 16)) ≡ c
unfolding from_hex
hex_round c h = ground (arith, h)

unescape-kept : (c : ℕ) (s : Text) → (c == 37) ≡ false → unescape (c ∷ s) ≡ c ∷ unescape s
unfolding unescape
unescape-kept c [] e = refl
unescape-kept c (d ∷ []) e = refl
unescape-kept c (d ∷ x ∷ s) e = ground (arith, e)

pub unescape-escape :
    (keeps : ℕ → Bool) (s : Text) → keeps 37 ≡ false → All IsByte s → unescape (escape keeps s) ≡ s
unfolding escape unescape
unescape-escape keeps [] k h = refl
unescape-escape keeps (c ∷ s) k (hc, hs) = pick (keeps c) refl (unescape-escape keeps s k hs)
  where
    pick :
        (b : Bool)
        → keeps c ≡ b
        → unescape (escape keeps s) ≡ s
        → unescape (
            if b
            then c ∷ escape keeps s
            else 37 ∷ hex_digit (c / 16) ∷ hex_digit (c % 16) ∷ escape keeps s)
          ≡ c ∷ s
    pick true e f =
        unescape-kept c (escape keeps s) (ground (arith, e, k, ap keeps)) ∙ ap (λ t. c ∷ t) f
    pick false e f = cc (hex_round c hc, f)

-- `url.QueryUnescape`, which reads a plus sign as a blank.
abbrev blank_or : ℕ → ℕ
blank_or c = if c == 43 then 32 else c

unfoldable pub query_unescape : Text → Text
unfolding from_hex
query_unescape [] = []
query_unescape (c ∷ []) = blank_or c ∷ []
query_unescape (c ∷ d ∷ []) = blank_or c ∷ blank_or d ∷ []
query_unescape (c ∷ d ∷ e ∷ s) =
    let kept = query_unescape (d ∷ e ∷ s) in
    let rest = query_unescape s in
    if c == 37 then (from_hex d * 16 + from_hex e) ∷ rest else blank_or c ∷ kept

query_unescape-kept :
    (c : ℕ) (s : Text) → (c == 37) ≡ false → query_unescape (c ∷ s) ≡ blank_or c ∷ query_unescape s
unfolding query_unescape
query_unescape-kept c [] e = refl
query_unescape-kept c (d ∷ []) e = refl
query_unescape-kept c (d ∷ x ∷ s) e = ground (arith, e)

reserved_percent : (c : ℕ) → is_unreserved c ≡ true → (c == 37) ≡ false
reserved_percent c e = elim (Bool-cases (c == 37)) [ inl w ↦ ground (arith, w, e) | inr w ↦ w ]

unreserved_blank : (c : ℕ) → is_unreserved c ≡ true → blank_or c ≡ c
unreserved_blank c e = elim (Bool-cases (c == 43)) [
  | inl w ↦ ground (arith, w, e)
  | inr w ↦ ground (arith, w)
]

pub query_unescape-query_escape : (s : Text) → All IsByte s → query_unescape (query_escape s) ≡ s
unfolding query_escape query_unescape
query_unescape-query_escape [] h = refl
query_unescape-query_escape (c ∷ s) (hc, hs) =
    pick (is_unreserved c) (c == 32) refl refl (query_unescape-query_escape s hs)
  where
    pick :
        (u w : Bool)
        → is_unreserved c ≡ u
        → (c == 32) ≡ w
        → query_unescape (query_escape s) ≡ s
        → query_unescape (
            if u
            then c ∷ query_escape s
            else if w
            then 43 ∷ query_escape s
            else 37 ∷ hex_digit (c / 16) ∷ hex_digit (c % 16) ∷ query_escape s)
          ≡ c ∷ s
    pick true w e g f =
        query_unescape-kept c (query_escape s) (reserved_percent c e)
        ∙ ap (λ t. blank_or c ∷ t) f
        ∙ ap (λ d. d ∷ s) (unreserved_blank c e)
    pick false true e g f =
        query_unescape-kept 43 (query_escape s) refl
        ∙ ap (λ t. 32 ∷ t) f
        ∙ ap (λ d. d ∷ s) (ground (arith, g))
    pick false false e g f = cc (hex_round c hc, f)
