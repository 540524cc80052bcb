-- ===== src/RuleSet/Files.antt =====
-- core/rule_set.go: `writeRuleSetFile`, which puts a file in place by a rename. Every call of the file system
-- may fail.
use yu_clash.Prelude.{
  ◌≡◌, ◌≢◌, ap, Bool, true, false, ◌&&◌, none, some, List, ◌++◌, length, length-append, beq,
  if◌then◌else◌, arith,
}
use yu_clash.Prelude.Maps.{lookup, insert, without, lookup-insert, lookup-without}
use yu_clash.Text.{Text, bytes, text_equality, equal_texts}

-- The files by their paths.
abbrev pub Files : Type 0
Files = List (Text × Text)

-- Which calls succeed.
pub record Calls : Type 0 where
  pub mkdir : Bool
  pub opens : Bool
  pub writes : Bool
  pub closes : Bool
  pub renames : Bool

abbrev pub temp_of : Text → Text
temp_of path = path ++ bytes ".tmp"

-- `os.Rename`.
unfoldable pub rename : Text → Text → Files → Files
unfolding lookup insert without
rename temp path files = elim (lookup temp files) [
  | none ↦ files
  | some content ↦ insert path content (without temp files)
]

-- A write that fails may leave any part of the data in the temporary file; it is removed on each of these ways.
unfoldable pub write_rule_set_file : Calls → Text → Text → Files → Files × Bool
unfolding rename insert without
write_rule_set_file calls path buf files =
    let cleared = without (temp_of path) files in
    if calls.mkdir
    then (if calls.opens
        then (if (calls.writes && calls.closes) && calls.renames
            then (rename (temp_of path) path (insert (temp_of path) buf cleared), true)
            else (without (temp_of path) (insert (temp_of path) buf cleared), false))
        else (cleared, false))
    else (files, false)

pub temp_differs : (path : Text) → temp_of path ≢ path
temp_differs path e = omega (arith, ap length e, length-append path (bytes ".tmp"))

-- Whatever calls fail, the file is either the new data, when the write reports success, or what it was before, when
-- it reports an error; and no other file changes but the temporary one.
pub write_is_atomic :
    (calls : Calls) (path buf other : Text) (files : Files)
    → temp_of path ≢ other
    → lookup other (write_rule_set_file calls path buf files).0 ≡ (
        if (write_rule_set_file calls path buf files).1 && beq path other
        then some buf
        else lookup other files)
unfolding write_rule_set_file rename
write_is_atomic calls path buf other files d = ground (
  arith,
  d,
  equal_texts (temp_of path) other,
  equal_texts path other,
  lookup-without (temp_of path) other files,
  lookup-insert (temp_of path) other buf (without (temp_of path) files),
  lookup-insert (temp_of path) (temp_of path) buf (without (temp_of path) files),
  equal_texts (temp_of path) (temp_of path),
  lookup-without (temp_of path) other (insert (temp_of path) buf (without (temp_of path) files)),
  lookup-insert path other buf
      (without (temp_of path) (insert (temp_of path) buf (without (temp_of path) files))),
)
