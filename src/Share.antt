-- ===== src/Share.antt =====
-- core/share_link.go: the fields of a mapping, and the parts of Go's net, net/url and encoding/base64 that
-- the encoders of its children use. fmt.Sprint of a value that is no text, json.Marshal of a map of texts,
-- and url.Parse with a query parameter set are parameters.
pub mod Url
pub mod Base64
pub mod Queries
pub mod Vmess
pub mod Links
pub mod ShadowsocksR
pub mod Marks
pub mod Escapes
pub mod QueryReading
pub mod Reading
mod Examples
use yu_clash.Prelude.{
  ℕ, Bool, true, false, Option, none, some, String, List, [], ◌∷◌, ◌++◌, str_eq, if◌then◌else◌,
}
use yu_clash.Text.{Text, bytes, equal}

-- A value of a decoded mapping.
mutual
  pub data Value : Type 0 where
    null : Value
    string : Text → Value
    boolean : Bool → Value
    number : ℕ → Value
    strings : List Text → Value
    items : Values → Value
    mapping : Fields → Value

  pub data Values : Type 0 where
    nil : Values
    cons : Value → Values → Values

  -- `proxyFields`.
  pub data Fields : Type 0 where
    end : Fields
    field : String → Value → Fields → Fields

pub record Packages : Type 0 where
  -- `fmt.Sprint`
  pub sprint : Value → Text
  -- `json.Marshal` of a map of texts
  pub marshal : List (Text × Text) → Text
  -- a link parsed by `url.Parse`, with one parameter of its query set, and written back
  pub set_parameter : Text → Text → Text → Option Text

-- A key that a map lacks gives its nil value.
unfoldable pub get : String → Fields → Value
get key end = null
get key (field k v fs) = let rest = get key fs in if str_eq k key then v else rest

module _ (p : Packages) where
  abbrev pub as_str : Value → Text
  as_str null = []
  as_str (string s) = s
  as_str v = p.sprint v

  -- `proxyFields.str`.
  unfoldable pub str : Fields → String → Text
  unfolding get
  str f key = as_str (get key f)

  unfoldable pub sprint_all : Values → List Text
  sprint_all nil = []
  sprint_all (cons v vs) = p.sprint v ∷ sprint_all vs

  abbrev as_list : Value → List Text
  as_list (strings ss) = ss
  as_list (items vs) = sprint_all vs
  as_list (string []) = []
  as_list (string (c ∷ s)) = (c ∷ s) ∷ []
  as_list _ = []

  -- `proxyFields.list`.
  unfoldable pub list : Fields → String → List Text
  unfolding get sprint_all
  list f key = as_list (get key f)

  abbrev first_of : List Text → Text
  first_of [] = []
  first_of (s ∷ _) = s

  -- `proxyFields.first`.
  unfoldable pub first : Fields → String → Text
  unfolding list
  first f key = first_of (list f key)

abbrev as_flag : Value → Bool
as_flag (boolean b) = b
as_flag (string s) = equal s (bytes "true")
as_flag _ = false

-- `proxyFields.flag`.
unfoldable pub flag : Fields → String → Bool
unfolding get equal
flag f key = as_flag (get key f)

abbrev as_sub : Value → Fields
as_sub (mapping fs) = fs
as_sub _ = end

-- `proxyFields.sub`.
unfoldable pub sub : Fields → String → Fields
unfolding get
sub f key = as_sub (get key f)

-- `strings.Join`.
unfoldable pub join : Text → List Text → Text
join sep [] = []
join sep (s ∷ []) = s
join sep (s ∷ t ∷ ts) = s ++ sep ++ join sep (t ∷ ts)
