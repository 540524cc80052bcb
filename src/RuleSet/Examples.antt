-- ===== src/RuleSet/Examples.antt =====
-- Rule sets that are compiled, and the theorems on them.
use yu_clash.Prelude.{
  ◌≡◌, ◌≢◌, refl, true, false, ◌&&◌, none, some, List, [], ◌∷◌, ◌++◌, beq, if◌then◌else◌, arith,
}
use yu_clash.Prelude.Maps.{lookup}
use yu_clash.Text.{Text, bytes, text_equality, is_empty, every_byte}
use yu_clash.RuleSet.{
  Packages, domain, classes, classify_rule_set, rule_set_cache_path, rules_directory, unreadable,
  unwritable,
}
use yu_clash.RuleSet.Keys.{KeysOf}
use yu_clash.RuleSet.Classes.{no_entry_dropped}
use yu_clash.RuleSet.Files.{Files, Calls, temp_differs, write_rule_set_file, write_is_atomic}
use yu_clash.RuleSet.Compile.{
  CompileRuleSetParams, Meets, handle_compile_rule_set, error, refusal_changes_nothing,
}
use yu_clash.RuleSet.Paths.{is_plain, begins_with_dot, cache_path_stays_inside}

abbrev no_ranges : Packages
no_ranges = record {
  is_prefix = λ s. false;
  address_prefix = λ s. none;
  yaml_lists = λ s. none;
  reads_mrs = λ s b. false;
  to_mrs = λ keys b. none;
}

abbrev two_rules : List Text
two_rules = bytes "DOMAIN,a.com" ∷ bytes "domain-suffix, b.org" ∷ []

abbrev two_keys : List Text
two_keys = bytes "a.com" ∷ bytes "+.b.org" ∷ []

classified : classify_rule_set no_ranges two_rules ≡ classes domain two_keys
unfolding classify_rule_set yu_clash.Text.cut yu_clash.Text.trim_left yu_clash.Text.equal
classified = refl

no_entry_dropped_example : KeysOf no_ranges domain two_rules two_keys
no_entry_dropped_example =
    no_entry_dropped no_ranges two_rules two_keys domain classified (λ e. ground (arith, e))

abbrev failing_rename : Calls
failing_rename = record {
  mkdir = true;
  opens = true;
  writes = true;
  closes = true;
  renames = false;
}

abbrev old_files : Files
old_files = (bytes "ads", bytes "old") ∷ []

write_is_atomic_example :
    lookup
      (bytes "ads")
      (write_rule_set_file failing_rename (bytes "ads") (bytes "new") old_files).0
    ≡ (if (write_rule_set_file failing_rename (bytes "ads") (bytes "new") old_files).1
          && beq (bytes "ads") (bytes "ads")
        then some (bytes "new")
        else lookup (bytes "ads") old_files)
write_is_atomic_example =
    write_is_atomic failing_rename (bytes "ads") (bytes "new") (bytes "ads") old_files
      (temp_differs (bytes "ads"))

abbrev no_sets : Meets
no_sets = record {
  is_init = true;
  home = bytes "/home/u";
  downloaded = none;
  source_calls = failing_rename;
  mrs_calls = failing_rename;
}

abbrev ads : CompileRuleSetParams
ads = record { name = bytes "ads"; url = bytes "https://x" }

refusal_changes_nothing_example :
    (handle_compile_rule_set no_ranges no_sets ads old_files).0 ≡ old_files
unfolding handle_compile_rule_set
refusal_changes_nothing_example =
    refusal_changes_nothing no_ranges no_sets ads old_files unreadable refused differs
  where
    refused : (handle_compile_rule_set no_ranges no_sets ads old_files).1 ≡ error unreadable
    refused = refl

    differs : unreadable ≢ unwritable
    differs e = ground (arith, e)

cache_path_stays_inside_example :
    (rules_directory (bytes "/u") ++ bytes "ads.txt"
      ≡ rules_directory (bytes "/u") ++ bytes "ads.txt")
    × (every_byte is_plain (bytes "ads.txt") ≡ true)
    × (begins_with_dot (bytes "ads.txt") ≡ false)
    × (is_empty (bytes "ads.txt") ≡ false)
unfolding rule_set_cache_path
cache_path_stays_inside_example =
    cache_path_stays_inside (bytes "/u") (bytes "ads.txt")
      (rules_directory (bytes "/u") ++ bytes "ads.txt") path
  where
    path :
        rule_set_cache_path (bytes "/u") (bytes "ads.txt")
        ≡ some (rules_directory (bytes "/u") ++ bytes "ads.txt")
    path = refl
