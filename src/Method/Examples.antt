-- ===== src/Method/Examples.antt =====
-- A call whose reply is spilled, and the theorem on it.
use yu_clash.Prelude.{
  none, is_some, ℕ, ◌≡◌, ◌≢◌, refl, true, Option, some, String, [], ◌∷◌, ◌++◌, ◌⊎◌, inl, inc64,
  str_eq_iff, arith, string_equality,
}
use yu_clash.Method.{Json, MethodResponse, file_response, MethodCall, missing, without_arguments}
use yu_clash.Method.Spill.{Calls}
use yu_clash.Method.Dispatch.{Handlers, Core, dispatch_method_call}
use yu_clash.Method.Replies.{Answered, response_to, every_call_is_replied}
use yu_clash.Prelude.Maps.{lookup}
use yu_clash.Method.Table.{method_handlers, register_all}

-- Every name has one handler, so no registration panics.
all_registered : is_some (register_all method_handlers []) ≡ true
unfolding register_all method_handlers lookup
all_registered = refl

-- The crash method has no handler of its own.
crash_is_apart : lookup "crash" method_handlers ≡ none
unfolding method_handlers lookup
crash_is_apart = refl

inl-some :
    (r d : MethodResponse ℕ) → ◌≡◌ {A = MethodResponse ℕ ⊎ String} (inl r) (inl d) → some d ≡ some r
inl-some r d e = ground (arith, e)

-- A coder that keeps the response, as large as a megabyte and more.
abbrev kept : Json
kept = record {
  R = ℕ;
  Data = MethodResponse ℕ;
  size = λ d. 2000000;
  nil_data = file_response "" "";
  marshal = λ r. inl r;
  read = λ d. some d;
  read-marshal = inl-some;
  marshals_error = λ id e. (_, refl);
  marshals_file = λ id path. (_, refl);
}

abbrev all_succeed : Calls
all_succeed = record {
  mkdir = true;
  create = some "1.json";
  chmod = true;
  writes = true;
  closes = true;
}

abbrev get_count : Handlers kept ℕ ℕ
get_count = ("getConnectionCount", without_arguments (λ s. (s, s))) ∷ []

abbrev asked : MethodCall ℕ
asked = record { id = "7"; name = "getConnectionCount"; arguments = missing; seq = 0 }

abbrev core : Core kept ℕ ℕ
core = record { state = 3; files = []; call_seq = 4; replies = []; is_alive = true }

every_call_is_replied_example :
    (d : MethodResponse ℕ) × (((dispatch_method_call kept ℕ ℕ get_count all_succeed asked
          core).replies
        ≡ [] ++ d ∷ [])
      × Answered kept ℕ ℕ
          (dispatch_method_call kept ℕ ℕ get_count all_succeed asked core).files
          d
          "7"
          (response_to kept ℕ ℕ get_count (record asked { seq = inc64 4 }) 3))
every_call_is_replied_example =
    every_call_is_replied kept ℕ ℕ get_count all_succeed asked core refl named
  where
    named : ◌≢◌ {A = Option String} (some "1.json") (some "")
    named e = ground (arith, e, str_eq_iff "1.json" "")
