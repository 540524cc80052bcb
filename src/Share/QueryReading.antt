-- ===== src/Share/QueryReading.antt =====
-- A reader of the query of a link.
use yu_clash.Prelude.{
  ℕ, ◌≡◌, refl, ap, ◌∙◌, true, false, [], ◌∷◌, ◌++◌, append_assoc, map, if◌then◌else◌, All, Bool,
  Bool-cases, inl, inr, arith,
}
use yu_clash.Prelude.Maps.{lookup}
use yu_clash.Text.{
  Text, bytes, split, equal, equal_texts, text_equality, before, query_escape, is_empty,
}
use yu_clash.Region.Search.{before-irreflexive}
use yu_clash.Share.Url.{Query, insert_sorted, sorted, pair_text, pairs_text, encode_query}
use yu_clash.Share.Base64.{IsByte}
use yu_clash.Share.Marks.{Free, cut_at, cut_at-found, query_escape-Free, pair_text-Free}
use yu_clash.Share.Escapes.{query_unescape, query_unescape-query_escape}

-- `url.ParseQuery`, on what `Values.Encode` writes.
abbrev read_pair : Text → Text × Text
read_pair t = (query_unescape (cut_at 61 t).0, query_unescape (cut_at 61 t).1)

unfoldable pub read_query : Text → Query
unfolding split cut_at query_unescape
read_query [] = []
read_query (c ∷ s) = map read_pair (split 38 (c ∷ s))

abbrev IsPair : Text × Text → Type 0
IsPair e = All IsByte e.0 × All IsByte e.1

-- The keys and the values are texts of bytes.
abbrev pub IsQuery : Query → Type 0
IsQuery q = All IsPair q

split-Free : (sep : ℕ) (s : Text) → Free sep s → split sep s ≡ s ∷ []
unfolding split
split-Free sep [] e = refl
split-Free sep (c ∷ s) e = ground (arith, e, split-Free sep s)

split-found :
    (sep : ℕ) (s rest : Text) → Free sep s → split sep (s ++ sep ∷ rest) ≡ s ∷ split sep rest
unfolding split
split-found sep [] rest e = ground arith
split-found sep (c ∷ s) rest e = ground (arith, e, split-found sep s rest)

read_pair-pair_text : (e : Text × Text) → IsPair e → read_pair (pair_text e) ≡ e
read_pair-pair_text (key, value) (hk, hv) =
    ap (λ x. (query_unescape x.0, query_unescape x.1)) halves_found
    ∙ cc (query_unescape-query_escape key hk, query_unescape-query_escape value hv)
  where
    halves_found : cut_at 61 (pair_text (key, value)) ≡ (query_escape key, query_escape value)
    halves_found =
        ap (cut_at 61) (append_assoc (query_escape key) (bytes "=") (query_escape value))
        ∙ cut_at-found 61 (query_escape key) (query_escape value)
            (query_escape-Free 61 key refl refl)

pair_parts : Text → Query
pair_parts s = map read_pair (split 38 s)

pair_parts-pairs_text :
    (e : Text × Text) (q : Query) → IsPair e → IsQuery q → pair_parts (pairs_text (e ∷ q)) ≡ e ∷ q
unfolding pair_parts pairs_text
pair_parts-pairs_text e [] h hs =
    ap (map read_pair) (split-Free 38 (pair_text e) (pair_text-Free 38 e refl refl refl))
    ∙ ap (λ x. x ∷ []) (read_pair-pair_text e h)
pair_parts-pairs_text e (f ∷ q) h (hf, hq) =
    ap (λ x. map read_pair (split 38 x))
      (append_assoc (pair_text e) (bytes "&") (pairs_text (f ∷ q)))
    ∙ ap (map read_pair)
        (split-found 38 (pair_text e) (pairs_text (f ∷ q)) (pair_text-Free 38 e refl refl refl))
    ∙ cc (read_pair-pair_text e h, pair_parts-pairs_text f q hf hq)

read_query-pairs_text : (q : Query) → IsQuery q → read_query (pairs_text q) ≡ q
unfolding pairs_text read_query pair_parts
read_query-pairs_text [] h = refl
read_query-pairs_text (e ∷ q) (he, hq) =
    nonempty (pairs_text (e ∷ q)) (full e q) ∙ pair_parts-pairs_text e q he hq
  where
    nonempty : (s : Text) → is_empty s ≡ false → read_query s ≡ pair_parts s
    nonempty [] n = ground (arith, n)
    nonempty (c ∷ s) n = refl

    full_before : (s : Text) (c : ℕ) (t : Text) → is_empty (s ++ c ∷ t) ≡ false
    full_before [] c t = refl
    full_before (d ∷ s) c t = refl

    full_first : (s t : Text) → is_empty s ≡ false → is_empty (s ++ t) ≡ false
    full_first [] t n = ground (arith, n)
    full_first (d ∷ s) t n = refl

    full_pair : (e : Text × Text) → is_empty (pair_text e) ≡ false
    full_pair e =
        full_first (query_escape e.0 ++ bytes "=") (query_escape e.1)
          (full_before (query_escape e.0) 61 [])

    full : (e : Text × Text) (q : Query) → is_empty (pairs_text (e ∷ q)) ≡ false
    full e [] = full_pair e
    full e (f ∷ q) =
        full_first (pair_text e ++ bytes "&") (pairs_text (f ∷ q))
          (full_first (pair_text e) (bytes "&") (full_pair e))

insert_sorted-IsQuery :
    (e : Text × Text) (q : Query) → IsPair e → IsQuery q → IsQuery (insert_sorted e q)
unfolding insert_sorted
insert_sorted-IsQuery e [] he hq = (he, tt)
insert_sorted-IsQuery e (f ∷ q) he (hf, hq) =
    pick (before f.0 e.0) (insert_sorted-IsQuery e q he hq)
  where
    pick :
        (b : Bool)
        → IsQuery (insert_sorted e q)
        → IsQuery (if b then f ∷ insert_sorted e q else e ∷ f ∷ q)
    pick true h = (hf, h)
    pick false h = (he, (hf, hq))

sorted-IsQuery : (q : Query) → IsQuery q → IsQuery (sorted q)
unfolding sorted
sorted-IsQuery [] h = h
sorted-IsQuery (e ∷ q) (he, hq) = insert_sorted-IsQuery e (sorted q) he (sorted-IsQuery q hq)

pub read_query-encode_query : (q : Query) → IsQuery q → read_query (encode_query q) ≡ sorted q
unfolding encode_query
read_query-encode_query q h = read_query-pairs_text (sorted q) (sorted-IsQuery q h)

before-distinct : (a b : Text) → before a b ≡ true → equal a b ≡ false
before-distinct a b h = elim (Bool-cases (equal a b)) [
  | inl w ↦ ground (arith, h, before-irreflexive a, (equal_texts a b).0 w, ap (before a))
  | inr w ↦ w
]

lookup-insert_sorted :
    (key : Text) (e : Text × Text) (q : Query) → lookup key (insert_sorted e q) ≡ lookup key (e ∷ q)
unfolding lookup insert_sorted
lookup-insert_sorted key e [] = refl
lookup-insert_sorted key e (f ∷ q) = elim (Bool-cases (before f.0 e.0)) [
  | inl w ↦ ground (
    arith,
    w,
    before-distinct f.0 e.0 w,
    equal_texts f.0 e.0,
    equal_texts f.0 key,
    equal_texts e.0 key,
    lookup-insert_sorted key e q,
  )
  | inr w ↦ ground (arith, w)
]

pub lookup-sorted : (key : Text) (q : Query) → lookup key (sorted q) ≡ lookup key q
unfolding sorted lookup
lookup-sorted key [] = refl
lookup-sorted key (e ∷ q) =
    lookup-insert_sorted key e (sorted q) ∙ ground (arith, lookup-sorted key q)
