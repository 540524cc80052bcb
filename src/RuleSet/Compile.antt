-- ===== src/RuleSet/Compile.antt =====
-- core/rule_set.go: `compileRuleSet` and `handleCompileRuleSet`.
use yu_clash.Prelude.{
  ◌≡◌, ◌≢◌, refl, Bool, true, false, not, ◌&&◌, Option, none, some, List, [], ◌∷◌, ◌++◌,
  Option-cases, Bool-cases, inl, inr, if◌then◌else◌, arith,
}
use yu_clash.Prelude.Maps.{lookup}
use yu_clash.Text.{Text, bytes, is_empty, has_prefix, text_equality}
use yu_clash.RuleSet.{
  Packages, RuleBehavior, domain, ipcidr, classical, RuleFormat, mrs_rule, RuleSetError,
  not_initialized, invalid_name, unreadable, empty, invalid, unwritable, RuleSetInfo, Classified,
  classes, refused, rule_set_cache_path, rule_set_entries, classify_rule_set,
}
use yu_clash.RuleSet.Files.{Files, Calls, write_rule_set_file}

-- The info and the mrs file when there is one, or the error.
pub data Compiled : Type 0 where
  compiled : RuleSetInfo → Option Text → Compiled
  compile_failed : RuleSetError → Compiled

abbrev zstd_magic : Text
zstd_magic = 40 ∷ 181 ∷ 47 ∷ 253 ∷ []

abbrev info : RuleFormat → RuleBehavior → RuleSetInfo
info format behavior = record { behavior = behavior; format = format }

abbrev written : RuleSetInfo → Option Text → Compiled
written i none = compile_failed empty
written i (some mrs) = compiled i (some mrs)

unfoldable pub compile_classified : Packages → RuleFormat → Classified → Compiled
compile_classified p format (refused e) = compile_failed e
compile_classified p format (classes classical keys) = compiled (info format classical) none
compile_classified p format (classes domain keys) =
    written (info format domain) (p.to_mrs keys domain)
compile_classified p format (classes ipcidr keys) =
    written (info format ipcidr) (p.to_mrs keys ipcidr)

abbrev is_none_found : List Text → Bool
is_none_found [] = true
is_none_found (_ ∷ _) = false

unfoldable pub compile_entries : Packages → Bool → RuleFormat × List Text → Compiled
unfolding compile_classified classify_rule_set
compile_entries p allow_empty (format, entries) =
    if is_none_found entries && allow_empty
    then compiled (info format classical) none
    else compile_classified p format (classify_rule_set p entries)

-- `compileRuleSet`.
unfoldable pub compile_rule_set : Packages → Text → Bool → Compiled
unfolding compile_entries rule_set_entries
compile_rule_set p buf allow_empty =
    if has_prefix buf zstd_magic
    then (if p.reads_mrs buf domain
        then compiled (info mrs_rule domain) none
        else if p.reads_mrs buf ipcidr
        then compiled (info mrs_rule ipcidr) none
        else compile_failed invalid)
    else compile_entries p allow_empty (rule_set_entries p buf)

pub record CompileRuleSetParams : Type 0 where
  pub name : Text
  pub url : Text

-- What the handler meets: the data that the download or the file gives, and how the two writes go.
pub record Meets : Type 0 where
  pub is_init : Bool
  pub home : Text
  pub downloaded : Option Text
  pub source_calls : Calls
  pub mrs_calls : Calls

pub data Reply : Type 0 where
  replied : RuleSetInfo → Reply
  error : RuleSetError → Reply

abbrev mrs_of : Text → Text
mrs_of source = source ++ bytes ".mrs"

unfoldable pub write_mrs : Meets → Text → RuleSetInfo → Option Text → Files → Files × Reply
unfolding write_rule_set_file
write_mrs m source i none files = (files, replied i)
write_mrs m source i (some mrs) files =
    let (files', ok) = write_rule_set_file m.mrs_calls (mrs_of source) mrs files in
    (files', (if ok then replied i else error unwritable))

-- The two writes: the source only when it was downloaded.
unfoldable pub store_rule_set : Meets → Bool → Text → Text → Compiled → Files → Files × Reply
unfolding write_rule_set_file write_mrs
store_rule_set m remote source buf (compile_failed e) files = (files, error e)
store_rule_set m remote source buf (compiled i mrs) files = elim remote [
  | false ↦ write_mrs m source i mrs files
  | true ↦ elim (write_rule_set_file m.source_calls source buf files).1 [
    | true ↦ write_mrs m source i mrs (write_rule_set_file m.source_calls source buf files).0
    | false ↦ ((write_rule_set_file m.source_calls source buf files).0, error unwritable)
  ]
]

abbrev fetched : Meets → Bool → Text → Files → Option Text
fetched m true source files = m.downloaded
fetched m false source files = lookup source files

unfoldable pub compile_source : Packages → Meets → Bool → Text → Files → Files × Reply
unfolding compile_rule_set store_rule_set lookup
compile_source p m remote source files = elim (fetched m remote source files) [
  | none ↦ (files, error unreadable)
  | some buf ↦ store_rule_set m remote source buf (compile_rule_set p buf (not remote)) files
]

-- `handleCompileRuleSet`.
unfoldable pub handle_compile_rule_set :
    Packages → Meets → CompileRuleSetParams → Files → Files × Reply
unfolding rule_set_cache_path compile_source
handle_compile_rule_set p m params files =
    if m.is_init
    then (elim (rule_set_cache_path m.home params.name) [
      | none ↦ (files, error invalid_name)
      | some source ↦ compile_source p m (not (is_empty params.url)) source files
    ])
    else (files, error not_initialized)

write_mrs-error :
    (m : Meets) (source : Text) (i : RuleSetInfo) (mrs : Option Text) (files : Files)
    (e : RuleSetError)
    → (write_mrs m source i mrs files).1 ≡ error e
    → e ≡ unwritable
unfolding write_mrs
write_mrs-error m source i none files e h = ground (arith, h)
write_mrs-error m source i (some mrs) files e h =
    elim (Bool-cases (write_rule_set_file m.mrs_calls (mrs_of source) mrs files).1) [
      | inl t ↦ ground (arith, h, t)
      | inr t ↦ ground (arith, h, t)
    ]

store_rule_set-error :
    (m : Meets) (remote : Bool) (source buf : Text) (c : Compiled) (files : Files)
    (e : RuleSetError)
    → (store_rule_set m remote source buf c files).1 ≡ error e
    → e ≢ unwritable
    → (store_rule_set m remote source buf c files).0 ≡ files
unfolding store_rule_set
store_rule_set-error m remote source buf (compile_failed x) files e h n = refl
store_rule_set-error m false source buf (compiled i mrs) files e h n =
    absurd (n (write_mrs-error m source i mrs files e h))
store_rule_set-error m true source buf (compiled i mrs) files e h n =
    elim (Bool-cases (write_rule_set_file m.source_calls source buf files).1) [
      | inl t ↦ absurd (
          n (
            write_mrs-error m source i mrs (write_rule_set_file m.source_calls source buf files).0 e
              (ground (arith, h, t))))
      | inr t ↦ absurd (n (ground (arith, h, t)))
    ]

compile_source-error :
    (p : Packages) (m : Meets) (remote : Bool) (source : Text) (files : Files) (e : RuleSetError)
    → (compile_source p m remote source files).1 ≡ error e
    → e ≢ unwritable
    → (compile_source p m remote source files).0 ≡ files
unfolding compile_source
compile_source-error p m remote source files e h n =
    elim (Option-cases (fetched m remote source files)) [
      | inl f ↦ ground (arith, f)
      | inr (buf, f) ↦ ground (
        arith,
        f,
        h,
        n,
        store_rule_set-error m remote source buf (compile_rule_set p buf (not remote)) files e,
      )
    ]

-- A request that is refused for its name, for data that cannot be fetched, or for a set that does not compile, leaves
-- every file as it was: only a failing write can come after a change.
pub refusal_changes_nothing :
    (p : Packages) (m : Meets) (params : CompileRuleSetParams) (files : Files) (e : RuleSetError)
    → (handle_compile_rule_set p m params files).1 ≡ error e
    → e ≢ unwritable
    → (handle_compile_rule_set p m params files).0 ≡ files
unfolding handle_compile_rule_set
refusal_changes_nothing p m params files e h n = elim (Bool-cases m.is_init) [
  | inl t ↦ (elim (Option-cases (rule_set_cache_path m.home params.name)) [
    | inl f ↦ ground (arith, t, f)
    | inr (source, f) ↦
        ground
          (arith, t, f, h, n, compile_source-error p m (not (is_empty params.url)) source files e)
  ])
  | inr t ↦ ground (arith, t)
]
