-- ===== src/Profile/Values.antt =====
-- The value of a key after `setMappingValue`, and after the sections of the base are set.
use yu_clash.Prelude.{
  ◌≡◌, refl, ap, ◌∙◌, Bool, true, false, not, ◌||◌, Option, none, some, String, List, [], ◌∷◌,
  str_eq, str_eq_iff, if◌then◌else◌, All, arith,
}
use yu_clash.Profile.{
  Node, scalar, sequence, mapping, alias, Entries, end, entry, or_else, own_value, merged_value,
  mapping_value, set_mapping_value, with_section, with_sections,
}

abbrev is_plain : Node → Bool
is_plain (scalar tag value) = not (str_eq tag "!!merge") || str_eq value "<<"
is_plain _ = true

-- Every merge key is written `<<`, as YAML resolves it.
abbrev pub HasPlainMerges : Entries → Type 0
HasPlainMerges end = Unit
HasPlainMerges (entry name value es) = (is_plain name ≡ true) × HasPlainMerges es

abbrev pub IsNoMerge : String → Type 0
IsNoMerge key = str_eq key "<<" ≡ false

own_value-set_mapping_value :
    (k key : String) (v : Node) (es : Entries)
    → IsNoMerge key
    → HasPlainMerges es
    → own_value k (set_mapping_value key v es) ≡ (if str_eq key k then some v else own_value k es)
unfolding own_value set_mapping_value
own_value-set_mapping_value k key v end n p = ground (arith, n)
own_value-set_mapping_value k key v (entry (scalar tag s) w es) n (q, p) = ground (
  arith,
  n,
  q,
  own_value-set_mapping_value k key v es n p,
  str_eq_iff s key,
  str_eq_iff s k,
  str_eq_iff key k,
  str_eq_iff s "<<",
  str_eq_iff key "<<",
)
own_value-set_mapping_value k key v (entry (sequence ns) w es) n (q, p) =
    own_value-set_mapping_value k key v es n p
own_value-set_mapping_value k key v (entry (mapping ms) w es) n (q, p) =
    own_value-set_mapping_value k key v es n p
own_value-set_mapping_value k key v (entry (alias m) w es) n (q, p) =
    own_value-set_mapping_value k key v es n p

merged_value-set_mapping_value :
    (k key : String) (v : Node) (es : Entries)
    → IsNoMerge key
    → HasPlainMerges es
    → merged_value k (set_mapping_value key v es) ≡ merged_value k es
unfolding merged_value set_mapping_value
merged_value-set_mapping_value k key v end n p = refl
merged_value-set_mapping_value k key v (entry (scalar tag s) w es) n (q, p) = ground (
  arith,
  n,
  q,
  merged_value-set_mapping_value k key v es n p,
  str_eq_iff s key,
  str_eq_iff s "<<",
  str_eq_iff key "<<",
)
merged_value-set_mapping_value k key v (entry (sequence ns) w es) n (q, p) =
    merged_value-set_mapping_value k key v es n p
merged_value-set_mapping_value k key v (entry (mapping ms) w es) n (q, p) =
    merged_value-set_mapping_value k key v es n p
merged_value-set_mapping_value k key v (entry (alias m) w es) n (q, p) =
    merged_value-set_mapping_value k key v es n p

set_mapping_value-HasPlainMerges :
    (key : String) (v : Node) (es : Entries)
    → HasPlainMerges es
    → HasPlainMerges (set_mapping_value key v es)
unfolding set_mapping_value
set_mapping_value-HasPlainMerges key v end p = (refl, tt)
set_mapping_value-HasPlainMerges key v (entry name w es) (q, p) =
    ground (arith, q, p, set_mapping_value-HasPlainMerges key v es p)

mapping_value-set_mapping_value :
    (k key : String) (v : Node) (es : Entries)
    → IsNoMerge key
    → HasPlainMerges es
    → mapping_value k (set_mapping_value key v es)
      ≡ (if str_eq key k then some v else mapping_value k es)
unfolding mapping_value
mapping_value-set_mapping_value k key v es n p = ground (
  arith,
  own_value-set_mapping_value k key v es n p,
  merged_value-set_mapping_value k key v es n p,
)

abbrev pub chosen : Bool → Option Node → Option Node
chosen true o = o
chosen false o = none

pub mapping_value-with_section :
    (k key : String) (o : Option Node) (es : Entries)
    → IsNoMerge key
    → HasPlainMerges es
    → mapping_value k (with_section key o es)
      ≡ or_else (chosen (str_eq key k) o) (mapping_value k es)
mapping_value-with_section k key none es n p = ground arith
mapping_value-with_section k key (some v) es n p =
    ground (arith, mapping_value-set_mapping_value k key v es n p)

pub with_section-HasPlainMerges :
    (key : String) (o : Option Node) (es : Entries)
    → HasPlainMerges es
    → HasPlainMerges (with_section key o es)
with_section-HasPlainMerges key none es p = p
with_section-HasPlainMerges key (some v) es p = set_mapping_value-HasPlainMerges key v es p

abbrev pub is_one_of : List String → String → Bool
is_one_of [] k = false
is_one_of (key ∷ keys) k = str_eq key k || is_one_of keys k

pub with_sections-HasPlainMerges :
    (keys : List String) (profile es : Entries)
    → HasPlainMerges es
    → HasPlainMerges (with_sections keys profile es)
unfolding with_sections
with_sections-HasPlainMerges [] profile es p = p
with_sections-HasPlainMerges (key ∷ keys) profile es p =
    with_sections-HasPlainMerges keys profile _
      (with_section-HasPlainMerges key (mapping_value key profile) es p)

pub mapping_value-with_sections :
    (k : String) (keys : List String) (profile es : Entries)
    → All IsNoMerge keys
    → HasPlainMerges es
    → mapping_value k (with_sections keys profile es)
      ≡ or_else (chosen (is_one_of keys k) (mapping_value k profile)) (mapping_value k es)
unfolding with_sections
mapping_value-with_sections k [] profile es n p = refl
mapping_value-with_sections k (key ∷ keys) profile es (n, ns) p =
    mapping_value-with_sections k keys profile (with_section key (mapping_value key profile) es) ns
      (with_section-HasPlainMerges key (mapping_value key profile) es p)
    ∙ ap (or_else (chosen (is_one_of keys k) (mapping_value k profile)))
        (mapping_value-with_section k key (mapping_value key profile) es n p)
    ∙ merged (str_eq key k) refl
  where
    merged :
        (b : Bool)
        → str_eq key k ≡ b
        → or_else
            (chosen (is_one_of keys k) (mapping_value k profile))
            (or_else (chosen b (mapping_value key profile)) (mapping_value k es))
          ≡ or_else (chosen (b || is_one_of keys k) (mapping_value k profile)) (mapping_value k es)
    merged b e = ground (arith, e, str_eq_iff key k, ap (λ x. mapping_value x profile))
