-- ===== src/Profile.antt =====
-- core/profile_base.go: the merge of a profile and the host's overlay. A parsed document is a tree in which an alias
-- holds the node that it names; the tag of a node is its short tag. Reading, decrypting, parsing and writing are left out,
-- and so is the retagging of short ids, which changes nodes in place that aliases share.
pub mod Values
pub mod Rules
pub mod Merge
mod Examples
use yu_clash.Prelude.{
  Bool, true, false, not, ◌&&◌, ◌||◌, Option, none, some, String, List, [], ◌∷◌, str_eq,
  if◌then◌else◌, ◌⊎◌, inl, inr,
}

-- `yaml.Node`: a sequence holds nodes, a mapping pairs of a key and a value.
mutual
  pub data Node : Type 0 where
    scalar : String → String → Node
    sequence : Nodes → Node
    mapping : Entries → Node
    alias : Node → Node

  pub data Nodes : Type 0 where
    nil : Nodes
    cons : Node → Nodes → Nodes

  pub data Entries : Type 0 where
    end : Entries
    entry : Node → Node → Entries → Entries

-- What `yaml.Unmarshal` leaves: the zero node for an empty text, or the root of a document.
pub data Document : Type 0 where
  empty : Document
  root : Node → Document

-- `profileBaseSections`.
abbrev pub profile_base_sections : List String
profile_base_sections = "proxies" ∷ "proxy-groups" ∷ "sub-rules" ∷ []

-- `resolveAlias`.
unfoldable pub resolve_alias : Node → Node
resolve_alias (alias n) = resolve_alias n
resolve_alias (scalar tag value) = scalar tag value
resolve_alias (sequence ns) = sequence ns
resolve_alias (mapping es) = mapping es

-- `isNull`.
unfoldable pub is_null : Node → Bool
is_null (scalar tag value) = str_eq tag "!!null"
is_null _ = false

abbrev pub mapping_of : Node → Entries ⊎ String
mapping_of (mapping es) = inl es
mapping_of (scalar tag value) =
    if is_null (scalar tag value) then inl end else inr "a config must be a mapping"
mapping_of _ = inr "a config must be a mapping"

-- `documentMapping`; its error also names the line.
unfoldable pub document_mapping : Document → Entries ⊎ String
unfolding resolve_alias is_null
document_mapping empty = inl end
document_mapping (root n) = mapping_of (resolve_alias n)

abbrev pub or_else : Option Node → Option Node → Option Node
or_else (some n) other = some n
or_else none other = other

abbrev pub is_merge : Node → Bool
is_merge (scalar tag value) = str_eq tag "!!merge"
is_merge _ = false

-- Whether a node is a key that is looked for: a scalar that is no merge key.
abbrev pub is_key : String → Node → Bool
is_key key (scalar tag value) = not (str_eq tag "!!merge") && str_eq value key
is_key key _ = false

-- The value of a key that stands in a mapping itself.
unfoldable pub own_value : String → Entries → Option Node
own_value key end = none
own_value key (entry name value es) =
    let rest = own_value key es in if is_key key name then some value else rest

-- The value of a key in the sources of a mapping's merge keys, in order. A source is a mapping or a sequence of them.
unfoldable mutual
  unfolding own_value

  pub merged_value : String → Entries → Option Node
  merged_value key end = none
  merged_value key (entry name value es) =
      let here = source_value key value in
      let rest = merged_value key es in if is_merge name then or_else here rest else rest

  pub source_value : String → Node → Option Node
  source_value key (alias n) = source_value key n
  source_value key (sequence ns) = candidates_value key ns
  source_value key (mapping es) = or_else (own_value key es) (merged_value key es)
  source_value key (scalar tag value) = none

  pub candidates_value : String → Nodes → Option Node
  candidates_value key nil = none
  candidates_value key (cons n ns) = or_else (candidate_value key n) (candidates_value key ns)

  pub candidate_value : String → Node → Option Node
  candidate_value key (alias n) = candidate_value key n
  candidate_value key (mapping es) = or_else (own_value key es) (merged_value key es)
  candidate_value key (sequence ns) = none
  candidate_value key (scalar tag value) = none

-- `mappingValue`.
unfoldable pub mapping_value : String → Entries → Option Node
unfolding own_value merged_value
mapping_value key es = or_else (own_value key es) (merged_value key es)

abbrev pub is_spelled : String → Node → Bool
is_spelled key (scalar tag value) = str_eq value key
is_spelled key _ = false

-- `setMappingValue`.
unfoldable pub set_mapping_value : String → Node → Entries → Entries
set_mapping_value key new end = entry (scalar "!!str" key) new end
set_mapping_value key new (entry name value es) =
    let rest = set_mapping_value key new es in
    if is_spelled key name then entry name new es else entry name value rest

unfoldable pub append : Nodes → Nodes → Nodes
append nil ns = ns
append (cons m ms) ns = cons m (append ms ns)

abbrev pub joined : Node → Node → Node ⊎ String
joined (sequence ms) (sequence ns) = inl (sequence (append ms ns))
joined _ _ = inr "rules must be a list"

abbrev pub adds_nothing : Node → Bool
adds_nothing (scalar tag value) = is_null (scalar tag value)
adds_nothing (sequence nil) = true
adds_nothing _ = false

abbrev pub rules_of : Option Node → Node → Node ⊎ String
rules_of none profile = inl profile
rules_of (some added) profile =
    if adds_nothing added
    then inl profile
    else if is_null profile
    then inl added
    else joined added profile

abbrev pub resolved : Option Node → Option Node
resolved none = none
resolved (some n) = some (resolve_alias n)

-- `appendRules`; its error also names the line.
unfoldable pub append_rules : Option Node → Option Node → Option Node ⊎ String
unfolding resolve_alias is_null append
append_rules added none = inl none
append_rules added (some profile) = elim (rules_of (resolved added) (resolve_alias profile)) [
  | inl rules ↦ inl (some rules)
  | inr e ↦ inr e
]

abbrev pub with_section : String → Option Node → Entries → Entries
with_section key none es = es
with_section key (some value) es = set_mapping_value key value es

-- The loop over the sections.
unfoldable pub with_sections : List String → Entries → Entries → Entries
unfolding mapping_value set_mapping_value
with_sections [] profile es = es
with_sections (key ∷ keys) profile es =
    with_sections keys profile (with_section key (mapping_value key profile) es)

-- The part of `mergeProfileBase` after parsing, but for short ids.
unfoldable pub merge_profile_base : Entries → Entries → Entries ⊎ String
unfolding with_sections append_rules
merge_profile_base profile overlay =
    let es = with_sections profile_base_sections profile overlay in
    elim (append_rules (mapping_value "rules" es) (mapping_value "rules" profile)) [
      | inl rules ↦ inl (with_section "rules" rules es)
      | inr e ↦ inr e
    ]
