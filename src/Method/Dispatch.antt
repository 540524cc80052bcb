-- ===== src/Method/Dispatch.antt =====
-- core/method.go: `dispatchMethodCall` and `handleMethodCall`.
use Prim.Native.String.{◌++◌ as ◌<>◌}
use yu_clash.Prelude.{
  ℕ, Bool, false, none, some, String, List, [], ◌∷◌, ◌++◌, if◌then◌else◌, string_equality, str_eq,
  inc64,
}
use yu_clash.Prelude.Maps.{lookup}
use yu_clash.Method.{
  Json, MethodError, result_response, error_response, encode_response, internal_error,
  as_method_error, Outcome, result, failed, panicked, MethodCall, Handler,
}
use yu_clash.Method.Spill.{Calls, Files, response_spill_threshold, spill_response}

abbrev pub not_implemented : String → MethodError
not_implemented name = record { code = "not_implemented"; message = "unknown method: " <> name }

module _ (j : Json) where
  -- The reply to an outcome; `recover` answers a panic.
  unfoldable pub reply_of : Calls → String → Outcome j.R → Files j → j.Data × Files j
  unfolding encode_response as_method_error spill_response
  reply_of calls id (result r) files =
      spill_response j calls response_spill_threshold id (encode_response j (result_response id r))
        files
  reply_of calls id (failed e) files =
      (encode_response j (error_response id (as_method_error e)), files)
  reply_of calls id (panicked message) files = (
    encode_response j (error_response id (internal_error ("internal panic: " <> message))),
    files,
  )

module _ (j : Json) (A S : Type 0) where
  abbrev pub Handlers : Type 0
  Handlers = List (String × Handler A S j.R)

  -- `handleMethodCall`.
  unfoldable pub handle_method_call :
      Handlers → Calls → MethodCall A → S → Files j → j.Data × S × Files j
  unfolding lookup reply_of
  handle_method_call handlers calls call s files = elim (lookup call.name handlers) [
    | none ↦ (encode_response j (error_response call.id (not_implemented call.name)), s, files)
    | some handler ↦
        (let (outcome, s') = handler call s in
          let (encoded, files') = reply_of j calls call.id outcome files in (encoded, s', files'))
  ]

  -- The core while it runs, and what it has replied, oldest first.
  pub record Core : Type 0 where
    pub state : S
    pub files : Files j
    pub call_seq : ℕ
    pub replies : List j.Data
    pub is_alive : Bool

  -- `dispatchMethodCall`: the call gets its place in the order of arrival, and the goroutine of the call
  -- replies. The crash method ends the process.
  unfoldable pub dispatch_method_call : Handlers → Calls → MethodCall A → Core → Core
  unfolding handle_method_call
  dispatch_method_call handlers calls call c =
      let seq = inc64 c.call_seq in
      let (encoded, s, files) =
        handle_method_call handlers calls (record call { seq = seq }) c.state c.files in
      if str_eq call.name "crash" then record c { call_seq = seq; is_alive = false } else record c {
        state = s;
        files = files;
        call_seq = seq;
        replies = c.replies ++ encoded ∷ [];
      }
