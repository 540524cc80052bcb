-- ===== src/Share/Marks.antt =====
-- The marks that stand between the parts of a link do not occur in a part that is escaped.
use yu_clash.Prelude.{
  ℕ, ◌/◌, ◌%◌, ◌≡◌, refl, ap, ◌∙◌, Bool, true, false, ◌||◌, Option, none, some, [], ◌∷◌, ◌++◌,
  append-nil, ◌==◌, if◌then◌else◌, Bool-cases, inl, inr, arith,
}
use yu_clash.Text.{Text, bytes, cut, is_unreserved, hex_digit, query_escape, any_byte}
use yu_clash.Share.Url.{
  escape, kept_in_user, Userinfo, user_text, secret_text, Query, pairs_text, prefixed, pair_text,
}

-- A text without the byte.
abbrev pub Free : ℕ → Text → Type 0
Free sep s = any_byte (λ c. c == sep) s ≡ false

pub append-Free : (sep : ℕ) (s t : Text) → Free sep s → Free sep t → Free sep (s ++ t)
append-Free sep [] t d e = e
append-Free sep (c ∷ s) t d e = ground (arith, d, e, append-Free sep s t)

-- The text before the first of a byte, and the text behind it.
abbrev halves : Text → Option (Text × Text) → Text × Text
halves s none = (s, [])
halves s (some h) = h

unfoldable pub cut_at : ℕ → Text → Text × Text
unfolding cut
cut_at sep s = halves s (cut sep s)

cut-Free : (sep : ℕ) (s : Text) → Free sep s → cut sep s ≡ none
unfolding cut
cut-Free sep [] e = refl
cut-Free sep (c ∷ s) e = ground (arith, e, cut-Free sep s)

cut-found : (sep : ℕ) (s t : Text) → Free sep s → cut sep (s ++ sep ∷ t) ≡ some (s, t)
unfolding cut
cut-found sep [] t e = ground arith
cut-found sep (c ∷ s) t e = ground (arith, e, cut-found sep s t)

pub cut_at-prefixed :
    (sep : ℕ) (s t : Text) → Free sep s → cut_at sep (s ++ prefixed (sep ∷ []) t) ≡ (s, t)
unfolding cut_at
cut_at-prefixed sep s [] e =
    ap (λ x. halves x (cut sep x)) (append-nil s) ∙ ap (halves s) (cut-Free sep s e)
cut_at-prefixed sep s (c ∷ t) e = ap (halves (s ++ sep ∷ c ∷ t)) (cut-found sep s (c ∷ t) e)

pub cut_at-found : (sep : ℕ) (s t : Text) → Free sep s → cut_at sep (s ++ sep ∷ t) ≡ (s, t)
unfolding cut_at
cut_at-found sep s t e = ap (halves (s ++ sep ∷ t)) (cut-found sep s t e)

-- A byte that an escaped text has only when it is kept.
abbrev pub is_mark : ℕ → Bool
is_mark sep =
    sep == 35 || sep == 38 || sep == 47 || sep == 58 || sep == 61 || sep == 63 || sep == 64

hex_digit-mark : (n sep : ℕ) → is_mark sep ≡ true → (hex_digit n == sep) ≡ false
hex_digit-mark n sep m = ground (arith, m)

pub escape-Free :
    (keeps : ℕ → Bool) (sep : ℕ) (s : Text)
    → is_mark sep ≡ true
    → keeps sep ≡ false
    → Free sep (escape keeps s)
unfolding escape
escape-Free keeps sep [] m k = refl
escape-Free keeps sep (c ∷ s) m k = elim (Bool-cases (c == sep)) [
  | inl e ↦ ground (
    arith,
    m,
    k,
    e,
    escape-Free keeps sep s m k,
    hex_digit-mark (c / 16) sep m,
    hex_digit-mark (c % 16) sep m,
  )
  | inr e ↦ ground (
    arith,
    m,
    k,
    e,
    escape-Free keeps sep s m k,
    hex_digit-mark (c / 16) sep m,
    hex_digit-mark (c % 16) sep m,
  )
]

unreserved-Free :
    (sep c : ℕ) (s : Text)
    → is_unreserved sep ≡ false
    → is_unreserved c ≡ true
    → Free sep s
    → Free sep (c ∷ s)
unreserved-Free sep c s r u f = elim (Bool-cases (c == sep)) [
  | inl e ↦ ground (arith, e, r, u)
  | inr e ↦ ground (arith, e, f)
]

escaped-Free :
    (sep c : ℕ) (s : Text)
    → is_mark sep ≡ true
    → Free sep s
    → Free sep (37 ∷ hex_digit (c / 16) ∷ hex_digit (c % 16) ∷ s)
escaped-Free sep c s m f =
    ground (arith, m, f, hex_digit-mark (c / 16) sep m, hex_digit-mark (c % 16) sep m)

pub query_escape-Free :
    (sep : ℕ) (s : Text)
    → is_mark sep ≡ true
    → is_unreserved sep ≡ false
    → Free sep (query_escape s)
unfolding query_escape
query_escape-Free sep [] m r = refl
query_escape-Free sep (c ∷ s) m r =
    pick (is_unreserved c) (c == 32) refl (query_escape-Free sep s m r)
  where
    pick :
        (u w : Bool)
        → is_unreserved c ≡ u
        → Free sep (query_escape s)
        → Free sep (
            if u
            then c ∷ query_escape s
            else if w
            then 43 ∷ query_escape s
            else 37 ∷ hex_digit (c / 16) ∷ hex_digit (c % 16) ∷ query_escape s)
    pick true w e f = unreserved-Free sep c (query_escape s) r e f
    pick false true e f = ground (arith, m, f)
    pick false false e f = escaped-Free sep c (query_escape s) m f

pub pair_text-Free :
    (sep : ℕ) (e : Text × Text)
    → is_mark sep ≡ true
    → is_unreserved sep ≡ false
    → (61 == sep) ≡ false
    → Free sep (pair_text e)
pair_text-Free sep e m r n =
    append-Free sep (query_escape e.0 ++ bytes "=") (query_escape e.1)
      (append-Free sep (query_escape e.0) (bytes "=") (query_escape-Free sep e.0 m r)
        (ground (arith, n)))
      (query_escape-Free sep e.1 m r)

pub pairs_text-Free : (q : Query) → Free 35 (pairs_text q)
unfolding pairs_text
pairs_text-Free [] = refl
pairs_text-Free (e ∷ []) = pair_text-Free 35 e refl refl refl
pairs_text-Free (e ∷ f ∷ q) =
    append-Free 35 (pair_text e ++ bytes "&") (pairs_text (f ∷ q))
      (append-Free 35 (pair_text e) (bytes "&") (pair_text-Free 35 e refl refl refl) refl)
      (pairs_text-Free (f ∷ q))

secret_text-Free :
    (sep : ℕ) (o : Option Text)
    → is_mark sep ≡ true
    → kept_in_user sep ≡ false
    → (58 == sep) ≡ false
    → Free sep (secret_text o)
secret_text-Free sep none m k n = refl
secret_text-Free sep (some secret) m k n =
    ground (arith, n, escape-Free kept_in_user sep secret m k)

pub user_text-Free :
    (sep : ℕ) (u : Userinfo)
    → is_mark sep ≡ true
    → kept_in_user sep ≡ false
    → (58 == sep) ≡ false
    → Free sep (user_text u)
unfolding user_text
user_text-Free sep u m k n =
    append-Free sep (escape kept_in_user u.username) (secret_text u.password)
      (escape-Free kept_in_user sep u.username m k) (secret_text-Free sep u.password m k n)
