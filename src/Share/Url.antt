-- ===== src/Share/Url.antt =====
-- core/share_link.go: `shareURL`, `setIf` and `hostPort`, with the parts of net and net/url under them.
use yu_clash.Prelude.{
  ℕ, ◌/◌, ◌%◌, Bool, true, not, ◌||◌, Option, none, some, List, [], ◌∷◌, ◌++◌, ◌==◌, if◌then◌else◌,
}
use yu_clash.Prelude.Maps.{insert}
use yu_clash.Text.{
  Text, bytes, text_equality, before, is_empty, is_unreserved, hex_digit, query_escape, any_byte,
}

-- The escaping of net/url: a byte that is not kept is written in hexadecimal.
unfoldable pub escape : (ℕ → Bool) → Text → Text
escape keeps [] = []
escape keeps (c ∷ s) =
    let rest = escape keeps s in
    if keeps c then c ∷ rest else 37 ∷ hex_digit (c / 16) ∷ hex_digit (c % 16) ∷ rest

abbrev one_of : Text → ℕ → Bool
one_of s c = any_byte (λ d. d == c) s

abbrev pub kept_in_user : ℕ → Bool
kept_in_user c = is_unreserved c || one_of (bytes "$&+,;=") c

abbrev pub kept_in_fragment : ℕ → Bool
kept_in_fragment c = is_unreserved c || one_of (bytes "$&+,/:;=?@!()*") c

abbrev pub kept_in_host : ℕ → Bool
kept_in_host c = is_unreserved c || one_of (bytes "!$&'()*+,;=:[]<>\"") c

-- `url.Userinfo`: a name with a password or without.
pub record Userinfo : Type 0 where
  pub username : Text
  pub password : Option Text

abbrev pub user : Text → Userinfo
user name = record { username = name; password = none }

abbrev pub user_password : Text → Text → Userinfo
user_password name secret = record { username = name; password = some secret }

abbrev pub secret_text : Option Text → Text
secret_text none = []
secret_text (some secret) = 58 ∷ escape kept_in_user secret

-- `Userinfo.String`; the colon stands only before a password that is set.
unfoldable pub user_text : Userinfo → Text
unfolding escape
user_text u = escape kept_in_user u.username ++ secret_text u.password

-- `url.Values` whose keys have one value each, which `Set` keeps.
abbrev pub Query : Type 0
Query = List (Text × Text)

unfoldable pub set : Text → Text → Query → Query
unfolding insert
set key value q = insert key value q

-- `setIf`.
unfoldable pub set_if : Text → Text → Query → Query
unfolding set
set_if key [] q = q
set_if key (c ∷ s) q = set key (c ∷ s) q

unfoldable pub insert_sorted : Text × Text → Query → Query
unfolding before
insert_sorted e [] = e ∷ []
insert_sorted e (f ∷ q) =
    let rest = insert_sorted e q in if before f.0 e.0 then f ∷ rest else e ∷ f ∷ q

unfoldable pub sorted : Query → Query
unfolding insert_sorted
sorted [] = []
sorted (e ∷ q) = insert_sorted e (sorted q)

abbrev pub pair_text : Text × Text → Text
pair_text e = query_escape e.0 ++ bytes "=" ++ query_escape e.1

unfoldable pub pairs_text : Query → Text
unfolding query_escape
pairs_text [] = []
pairs_text (e ∷ []) = pair_text e
pairs_text (e ∷ f ∷ q) = pair_text e ++ bytes "&" ++ pairs_text (f ∷ q)

-- `Values.Encode`.
unfoldable pub encode_query : Query → Text
unfolding sorted pairs_text
encode_query q = pairs_text (sorted q)

abbrev pub authority : Option Userinfo → Text
authority none = []
authority (some u) = user_text u ++ bytes "@"

abbrev has_authority : Option Userinfo → Text → Bool
has_authority none host = not (is_empty host)
has_authority (some u) host = true

abbrev pub prefixed : Text → Text → Text
prefixed mark [] = []
prefixed mark (c ∷ s) = mark ++ c ∷ s

-- `shareURL`, and `URL.String` of a link without a path.
unfoldable pub share_url : Text → Option Userinfo → Text → Query → Text → Text
unfolding escape user_text encode_query
share_url scheme who host query name =
    scheme
    ++ bytes ":"
    ++ (if has_authority who host then bytes "//" else [])
    ++ authority who
    ++ escape kept_in_host host
    ++ prefixed (bytes "?") (encode_query query)
    ++ prefixed (bytes "#") (escape kept_in_fragment name)

abbrev pub has_colon : Text → Bool
has_colon s = any_byte (λ c. c == 58) s

-- `net.JoinHostPort`.
unfoldable pub join_host_port : Text → Text → Text
join_host_port host port =
    if has_colon host then bytes "[" ++ host ++ bytes "]:" ++ port else host ++ bytes ":" ++ port
