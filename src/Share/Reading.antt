-- ===== src/Share/Reading.antt =====
-- A link of `shareURL` is read back: no part of it can break out of its place.
use yu_clash.Prelude.{
  ℕ, ◌≡◌, refl, ap, ◌∙◌, true, false, Option, none, some, [], ◌∷◌, ◌++◌, append_assoc, ◌==◌, All,
  drop, arith,
}
use yu_clash.Prelude.Maps.{lookup}
use yu_clash.Text.{Text, bytes, text_equality}
use yu_clash.Share.Url.{
  escape, kept_in_user, kept_in_fragment, kept_in_host, Userinfo, user_text, secret_text, Query,
  sorted, encode_query, share_url, authority, prefixed,
}
use yu_clash.Share.Base64.{IsByte}
use yu_clash.Share.Marks.{
  Free, append-Free, cut_at, cut_at-prefixed, cut_at-found, is_mark, escape-Free, pairs_text-Free,
  user_text-Free,
}
use yu_clash.Share.Escapes.{unescape, unescape-escape}
use yu_clash.Share.QueryReading.{read_query, IsQuery, read_query-encode_query, lookup-sorted}

-- What a reader takes from a link with user information: the scheme, the user's name, the password, the host, the query
-- and the name of the proxy.
abbrev pub ShareLink : Type 0
ShareLink = Text × Text × Text × Text × Query × Text

abbrev front_of : Text → Text
front_of link = (cut_at 63 (cut_at 35 link).0).0

-- The authority stands behind the two slashes.
abbrev authority_of : Text → Text
authority_of front = drop 1 (cut_at 47 front).1

abbrev user_of : Text → Text
user_of front = (cut_at 64 (authority_of front)).0

abbrev host_of : Text → Text
host_of front = (cut_at 64 (authority_of front)).1

pub read_link : Text → ShareLink
unfolding cut_at unescape
read_link link = (
  (cut_at 58 (front_of link)).0,
  unescape (cut_at 58 (user_of (front_of link))).0,
  unescape (cut_at 58 (user_of (front_of link))).1,
  unescape (host_of (front_of link)),
  read_query (cut_at 63 (cut_at 35 link).0).1,
  unescape (cut_at 35 link).1,
)

abbrev or_empty : Option Text → Text
or_empty none = []
or_empty (some s) = s

user_halves :
    (u : Userinfo)
    → cut_at 58 (user_text u) ≡ (escape kept_in_user u.username, drop 1 (secret_text u.password))
unfolding user_text
user_halves u = go u.password
  where
    free : Free 58 (escape kept_in_user u.username)
    free = escape-Free kept_in_user 58 u.username refl refl

    go :
        (o : Option Text)
        → cut_at 58 (escape kept_in_user u.username ++ secret_text o)
          ≡ (escape kept_in_user u.username, drop 1 (secret_text o))
    go none = cut_at-prefixed 58 (escape kept_in_user u.username) [] free
    go (some secret) =
        cut_at-found 58 (escape kept_in_user u.username) (escape kept_in_user secret) free

module _ (scheme : Text) (u : Userinfo) (host : Text) (query : Query) (name : Text) where
  front : Text
  front = scheme ++ bytes ":" ++ bytes "//" ++ authority (some u) ++ escape kept_in_host host

  front-Free :
      (sep : ℕ)
      → is_mark sep ≡ true
      → kept_in_user sep ≡ false
      → kept_in_host sep ≡ false
      → (58 == sep) ≡ false
      → (47 == sep) ≡ false
      → (64 == sep) ≡ false
      → Free sep scheme
      → Free sep front
  unfolding front
  front-Free sep m k h a b c f =
      append-Free sep _ (escape kept_in_host host)
        (append-Free sep _ (authority (some u))
          (append-Free sep _ (bytes "//") (append-Free sep scheme (bytes ":") f (ground (arith, a)))
            (ground (arith, b)))
          (append-Free sep (user_text u) (bytes "@") (user_text-Free sep u m k a)
            (ground (arith, c))))
        (escape-Free kept_in_host sep host m h)

  prefixed-Free : (q : Text) → Free 35 q → Free 35 (prefixed (bytes "?") q)
  prefixed-Free [] f = refl
  prefixed-Free (c ∷ q) f = f

  fragment : Text
  fragment = escape kept_in_fragment name

  link_halves :
      Free 35 scheme
      → cut_at 35 (share_url scheme (some u) host query name)
        ≡ (front ++ prefixed (bytes "?") (encode_query query), fragment)
  unfolding share_url front fragment encode_query
  link_halves f = cut_at-prefixed 35 (front ++ prefixed (bytes "?") (encode_query query)) fragment (
      append-Free 35 front (prefixed (bytes "?") (encode_query query))
        (front-Free 35 refl refl refl refl refl refl f)
        (prefixed-Free (encode_query query) (pairs_text-Free (sorted query))))

  front-halves :
      Free 63 scheme
      → cut_at 63 (front ++ prefixed (bytes "?") (encode_query query)) ≡ (front, encode_query query)
  front-halves f =
      cut_at-prefixed 63 front (encode_query query) (front-Free 63 refl refl refl refl refl refl f)

  behind : Text
  behind = user_text u ++ 64 ∷ escape kept_in_host host

  front-slashes : front ≡ (scheme ++ 58 ∷ []) ++ 47 ∷ 47 ∷ behind
  unfolding front behind
  front-slashes =
      append_assoc ((scheme ++ bytes ":") ++ bytes "//") (user_text u ++ bytes "@")
        (escape kept_in_host host)
      ∙ append_assoc (scheme ++ bytes ":") (bytes "//")
          ((user_text u ++ bytes "@") ++ escape kept_in_host host)
      ∙ ap (λ x. (scheme ++ bytes ":") ++ 47 ∷ 47 ∷ x)
          (append_assoc (user_text u) (bytes "@") (escape kept_in_host host))

  authority-halves :
      Free 47 scheme → cut_at 64 (authority_of front) ≡ (user_text u, escape kept_in_host host)
  unfolding behind
  authority-halves f =
      ap (λ x. cut_at 64 (drop 1 (cut_at 47 x).1)) front-slashes
      ∙ ap (λ x. cut_at 64 (drop 1 x.1))
          (cut_at-found 47 (scheme ++ 58 ∷ []) (47 ∷ behind)
            (append-Free 47 scheme (58 ∷ []) f refl))
      ∙ cut_at-found 64 (user_text u) (escape kept_in_host host)
          (user_text-Free 64 u refl refl refl)

  scheme_part : Free 58 scheme → (cut_at 58 front).0 ≡ scheme
  scheme_part f =
      ap (λ x. (cut_at 58 x).0) (front-slashes ∙ append_assoc scheme (58 ∷ []) (47 ∷ 47 ∷ behind))
      ∙ ap (λ x. x.0) (cut_at-found 58 scheme (47 ∷ 47 ∷ behind) f)

  host_part : Free 47 scheme → All IsByte host → unescape (host_of front) ≡ host
  host_part f h =
      ap (λ x. unescape x.1) (authority-halves f) ∙ unescape-escape kept_in_host host refl h

  user_parts :
      Free 47 scheme
      → cut_at 58 (user_of front)
        ≡ (escape kept_in_user u.username, drop 1 (secret_text u.password))
  user_parts f = ap (λ x. cut_at 58 x.0) (authority-halves f) ∙ user_halves u

  user_part :
      Free 47 scheme → All IsByte u.username → unescape (cut_at 58 (user_of front)).0 ≡ u.username
  user_part f h =
      ap (λ x. unescape x.0) (user_parts f) ∙ unescape-escape kept_in_user u.username refl h

  secret_text-round :
      (o : Option Text) → All IsByte (or_empty o) → unescape (drop 1 (secret_text o)) ≡ or_empty o
  unfolding unescape
  secret_text-round none h = refl
  secret_text-round (some secret) h = unescape-escape kept_in_user secret refl h

  secret_part :
      Free 47 scheme
      → All IsByte (or_empty u.password)
      → unescape (cut_at 58 (user_of front)).1 ≡ or_empty u.password
  secret_part f h = ap (λ x. unescape x.1) (user_parts f) ∙ secret_text-round u.password h

  abbrev link : Text
  link = share_url scheme (some u) host query name

  link_parts :
      Free 35 scheme → Free 63 scheme → cut_at 63 (cut_at 35 link).0 ≡ (front, encode_query query)
  link_parts a b = ap (λ x. cut_at 63 x.0) (link_halves a) ∙ front-halves b

  query_part :
      Free 35 scheme
      → Free 63 scheme
      → IsQuery query
      → read_query (cut_at 63 (cut_at 35 link).0).1 ≡ sorted query
  query_part a b h = ap (λ x. read_query x.1) (link_parts a b) ∙ read_query-encode_query query h

  name_part : Free 35 scheme → All IsByte name → unescape (cut_at 35 link).1 ≡ name
  unfolding fragment
  name_part f h =
      ap (λ x. unescape x.1) (link_halves f) ∙ unescape-escape kept_in_fragment name refl h

  -- The parts of the front, as far as the link gives it back.
  abbrev front_parts : Text → Text × Text × Text × Text
  front_parts f = (
    (cut_at 58 f).0,
    unescape (cut_at 58 (user_of f)).0,
    unescape (cut_at 58 (user_of f)).1,
    unescape (host_of f),
  )

  -- A link with user information gives back each of its parts, whatever bytes they have: the scheme, the user's name, the
  -- password, the host, the query with its pairs ordered by their keys, and the proxy's name. In the ordered query every
  -- key has the value it was set to. Cutting the link at its marks and undoing the escapes finds each part in its place,
  -- so no value can pass for another part of the link, if the scheme is without the marks of a link.
  pub read_link-share_url :
      (key : Text)
      → Free 35 scheme
      → Free 63 scheme
      → Free 47 scheme
      → Free 58 scheme
      → All IsByte u.username
      → All IsByte (or_empty u.password)
      → All IsByte host
      → IsQuery query
      → All IsByte name
      → (read_link (share_url scheme (some u) host query name)
          ≡ (scheme, u.username, or_empty u.password, host, sorted query, name))
        × (lookup key (sorted query) ≡ lookup key query)
  unfolding read_link
  read_link-share_url key a b c d hu hs hh hq hn =
      (cc (parts, query_part a b hq, name_part a hn), lookup-sorted key query)
    where
      parts : front_parts (front_of link) ≡ (scheme, u.username, or_empty u.password, host)
      parts =
          ap (λ x. front_parts x.0) (link_parts a b)
          ∙ cc (scheme_part d, user_part c hu, secret_part c hs, host_part c hh)
