-- ===== src/RuleSet.antt =====
-- core/rule_set.go: rule sets are read, classified and compiled beside their source. The reading of YAML, of
-- addresses and the writing of mrs are other packages' code: parameters.
pub mod Files
pub mod Keys
pub mod Classes
pub mod Compile
pub mod Paths
mod Examples
use yu_clash.Prelude.{
  ℕ, zero, suc, Bool, true, false, not, ◌&&◌, ◌||◌, Option, none, some, List, [], ◌∷◌, ◌++◌, map,
  length, ◌==◌, if◌then◌else◌,
}
use yu_clash.Text.{
  Text, bytes, equal, is_empty, is_between, upper, trim_space, has_prefix, cut, split, any_byte,
  every_byte,
}

pub data RuleBehavior : Type 0 where
  domain ipcidr classical : RuleBehavior

pub data RuleFormat : Type 0 where
  yaml_rule text_rule mrs_rule : RuleFormat

pub data RuleSetError : Type 0 where
  not_initialized invalid_name unreadable empty mixed invalid unwritable : RuleSetError

-- `RuleSetInfo`.
pub record RuleSetInfo : Type 0 where
  pub behavior : RuleBehavior
  pub format : RuleFormat

pub record Packages : Type 0 where
  -- `netip.ParsePrefix` succeeds
  pub is_prefix : Text → Bool
  -- `netip.ParseAddr`, written back as the prefix of its whole length without a zone
  pub address_prefix : Text → Option Text
  -- the two lists of a YAML document that has them
  pub yaml_lists : Text → Option (List Text × List Text)
  -- `rp.ConvertToMrs` of an mrs file, and of lines of keys
  pub reads_mrs : Text → RuleBehavior → Bool
  pub to_mrs : List Text → RuleBehavior → Option Text

abbrev pub is_name_byte : ℕ → Bool
is_name_byte c =
    is_between 97 122 c || is_between 65 90 c || is_between 48 57 c || c == 46 || c == 45 || c == 95

-- `filepath.Join` under a home directory whose path is taken to be cleaned.
abbrev pub rules_directory : Text → Text
rules_directory home = home ++ bytes "/providers/rules/"

-- `ruleSetCachePath`.
unfoldable pub rule_set_cache_path : Text → Text → Option Text
rule_set_cache_path home [] = none
rule_set_cache_path home (c ∷ s) =
    if c == 46
    then none
    else if every_byte is_name_byte (c ∷ s)
    then some (rules_directory home ++ c ∷ s)
    else none

unfoldable pub trimmed : List Text → List Text
trimmed [] = []
trimmed (entry ∷ entries) =
    let rest = trimmed entries in
    if is_empty (trim_space entry) then rest else trim_space entry ∷ rest

abbrev is_comment : Text → Bool
is_comment line = has_prefix line (bytes "#") || has_prefix line (bytes "//")

unfoldable pub without_comments : List Text → List Text
without_comments [] = []
without_comments (line ∷ lines) =
    let rest = without_comments lines in if is_comment line then rest else line ∷ rest

-- `ruleSetEntries`.
unfoldable pub rule_set_entries : Packages → Text → RuleFormat × List Text
unfolding trimmed without_comments split
rule_set_entries p buf = elim (p.yaml_lists buf) [
  | some (payload, rules) ↦ (yaml_rule, trimmed (payload ++ rules))
  | none ↦ (text_rule, without_comments (trimmed (split 10 buf)))
]

-- `parseCIDR`.
unfoldable pub parse_cidr : Packages → Text → Option Text
parse_cidr p entry = if p.is_prefix entry then some entry else p.address_prefix entry

unfoldable pub cidrs_of : Packages → List Text → List Text
unfolding parse_cidr
cidrs_of p [] = []
cidrs_of p (entry ∷ entries) =
    let rest = cidrs_of p entries in
    elim (parse_cidr p entry) [ none ↦ rest | some cidr ↦ cidr ∷ rest ]

-- `plainDomain`.
unfoldable pub plain_domain : Text → Bool
plain_domain [] = false
plain_domain (c ∷ s) = not (c == 46) && not (any_byte (λ d. d == 43 || d == 42 || d == 47) (c ∷ s))

-- What one classical entry adds.
pub data Key : Type 0 where
  domain_key cidr_key : Text → Key
  other_key : Key

unfoldable pub key_of_type : Packages → Text → Text → Key
unfolding plain_domain equal
key_of_type p kind value =
    if equal kind (bytes "DOMAIN")
    then (if plain_domain value then domain_key value else other_key)
    else if equal kind (bytes "DOMAIN-SUFFIX")
    then (if plain_domain value then domain_key (bytes "+." ++ value) else other_key)
    else if equal kind (bytes "IP-CIDR") || equal kind (bytes "IP-CIDR6")
    then (if p.is_prefix value then cidr_key value else other_key)
    else other_key

abbrev pub has_comma : Text → Bool
has_comma entry = any_byte (λ c. c == 44) entry

unfoldable pub classical_key : Packages → Text → Key
unfolding key_of_type cut
classical_key p entry = elim (cut 44 entry) [
  | none ↦ other_key
  | some (kind, value) ↦
      if has_comma value
      then other_key
      else key_of_type p (map upper (trim_space kind)) (trim_space value)
]

-- The loop of `classifyClassical` over the domains and the ranges so far; `none` is its early return.
unfoldable pub classical_keys :
    Packages → List Text → List Text → List Text → Option (List Text × List Text)
unfolding classical_key
classical_keys p [] domains cidrs = some (domains, cidrs)
classical_keys p (entry ∷ entries) domains cidrs = elim (classical_key p entry) [
  | domain_key d ↦ classical_keys p entries (domains ++ d ∷ []) cidrs
  | cidr_key c ↦ classical_keys p entries domains (cidrs ++ c ∷ [])
  | other_key ↦ none
]

abbrev pub classify_keys : Option (List Text × List Text) → RuleBehavior × List Text
classify_keys none = (classical, [])
classify_keys (some (domains, [])) = (domain, domains)
classify_keys (some ([], c ∷ cs)) = (ipcidr, c ∷ cs)
classify_keys (some (d ∷ ds, c ∷ cs)) = (classical, [])

-- `classifyClassical`.
unfoldable pub classify_classical : Packages → List Text → RuleBehavior × List Text
unfolding classical_keys
classify_classical p entries = classify_keys (classical_keys p entries [] [])

abbrev pub any_comma : List Text → Bool
any_comma [] = false
any_comma (entry ∷ entries) = has_comma entry || any_comma entries

-- The result of a classification, or its error.
pub data Classified : Type 0 where
  classes : RuleBehavior → List Text → Classified
  refused : RuleSetError → Classified

abbrev pub by_count : List Text → List Text → Classified
by_count entries cidrs =
    if length cidrs == 0
    then classes domain entries
    else if length cidrs == length entries
    then classes ipcidr cidrs
    else refused mixed

-- `classifyRuleSet`.
unfoldable pub classify_rule_set : Packages → List Text → Classified
unfolding classify_classical cidrs_of
classify_rule_set p [] = refused empty
classify_rule_set p (entry ∷ entries) =
    if any_comma (entry ∷ entries)
    then (let (behavior, keys) = classify_classical p (entry ∷ entries) in classes behavior keys)
    else by_count (entry ∷ entries) (cidrs_of p (entry ∷ entries))
