-- ===== src/Method/Spill.antt =====
-- core/spill.go: large replies go to a file of the spill directory.
use yu_clash.Prelude.{
  ℕ, ◌^◌, Bool, ◌&&◌, Option, none, some, String, List, [], leb, if◌then◌else◌, string_equality,
}
use yu_clash.Prelude.Maps.{insert, without}
use yu_clash.Method.{Json, file_response, encode_response}

abbrev pub response_spill_threshold : ℕ
response_spill_threshold = 2 ^ 20

-- Which calls of the file system succeed; `create` is the name that `os.CreateTemp` found.
pub record Calls : Type 0 where
  pub mkdir : Bool
  pub create : Option String
  pub chmod : Bool
  pub writes : Bool
  pub closes : Bool

module _ (j : Json) where
  abbrev pub Files : Type 0
  Files = List (String × j.Data)

  abbrev pub written_file : Calls → String → j.Data → Files → Option String × Files
  written_file calls path encoded files =
      if (calls.chmod && calls.writes) && calls.closes
      then (some path, insert path encoded files)
      else (none, without path files)

  -- `writeSpilledResponse`.
  unfoldable pub write_spilled_response : Calls → j.Data → Files → Option String × Files
  unfolding insert without
  write_spilled_response calls encoded files =
      if calls.mkdir
      then (elim calls.create [
        | none ↦ (none, files)
        | some path ↦ written_file calls path encoded files
      ])
      else (none, files)

  abbrev pub spilled : String → j.Data → Option String × Files → j.Data × Files
  spilled id encoded (none, files) = (encoded, files)
  spilled id encoded (some path, files) = (encode_response j (file_response id path), files)

  -- `spillResponse`.
  unfoldable pub spill_response : Calls → ℕ → String → j.Data → Files → j.Data × Files
  unfolding write_spilled_response encode_response
  spill_response calls threshold id encoded files =
      if leb (j.size encoded) threshold
      then (encoded, files)
      else spilled id encoded (write_spilled_response calls encoded files)

  -- `clearSpilledResponses`, when every removal succeeds.
  unfoldable pub clear_spilled_responses : Files → Files
  clear_spilled_responses files = []
