-- ===== src/Method/Replies.antt =====
-- What the host reads: every call that does not end the process is answered once, under its id.
use yu_clash.Prelude.{
  ℕ, ◌≡◌, ◌≢◌, refl, ap, ◌∙◌, false, Option, none, some, String, [], ◌∷◌, ◌++◌, string_equality,
  str_eq, inl, inr, inc64, arith,
}
use yu_clash.Prelude.Maps.{lookup}
use yu_clash.Method.{
  Json, MethodResponse, error_response, encode_response, Outcome, result, failed, panicked,
  MethodCall, Handler,
}
use yu_clash.Method.Spill.{Calls, Files}
use yu_clash.Method.Dispatch.{
  Handlers, reply_of, handle_method_call, not_implemented, Core, dispatch_method_call,
}
use yu_clash.Method.Reaches.{
  host_reads, Encoded, read-encode_response, Reaches, direct-Reaches, response_of, reply_of-Reaches,
}

module _ (j : Json) (A S : Type 0) where
  -- What a call should be answered.
  abbrev answer : Option (Handler A S j.R) → MethodCall A → S → MethodResponse j.R
  answer none call s = error_response call.id (not_implemented call.name)
  answer (some handler) call s = response_of j call.id (handler call s).0

  pub response_to : Handlers j A S → MethodCall A → S → MethodResponse j.R
  unfolding lookup
  response_to handlers call s = answer (lookup call.name handlers) call s

  handle_method_call-Reaches :
      (handlers : Handlers j A S) (calls : Calls) (call : MethodCall A) (s : S) (files : Files j)
      → calls.create ≢ some ""
      → (let (d, _, files') = handle_method_call j A S handlers calls call s files in
          Reaches j files' d (response_to handlers call s))
  unfolding handle_method_call response_to
  handle_method_call-Reaches handlers calls call s files n = go (lookup call.name handlers)
    where
      go :
          (o : Option (Handler A S j.R))
          → (let (d, _, files') = (elim o as (λ x. j.Data × S × Files j) [
            | none ↦
                (encode_response j (error_response call.id (not_implemented call.name)), s, files)
            | some handler ↦
                (let (outcome, s') = handler call s in
                  let (encoded, files') = reply_of j calls call.id outcome files in
                  (encoded, s', files'))
          ]) in
              Reaches j files' d (answer o call s))
      go none =
          direct-Reaches j files _ _ refl
            (read-encode_response j (error_response call.id (not_implemented call.name)))
      go (some handler) = reply_of-Reaches j calls call.id (handler call s).0 files n

  Encoded-id : (r r' : MethodResponse j.R) → Encoded j r r' → r'.id ≡ r.id
  Encoded-id r r' (inl q) = ap (λ x. x.id) q
  Encoded-id r r' (inr (message, (m, q))) = ap (λ x. x.id) q

  answer-id :
      (o : Option (Handler A S j.R)) (call : MethodCall A) (s : S) → (answer o call s).id ≡ call.id
  answer-id none call s = refl
  answer-id (some handler) call s = go (handler call s).0
    where
      go : (o : Outcome j.R) → (response_of j call.id o).id ≡ call.id
      go (result r) = refl
      go (failed e) = refl
      go (panicked message) = refl

  abbrev stamped : MethodCall A → ℕ → MethodCall A
  stamped call seq = record call { seq = seq }

  -- What the host reads of a reply under the id of its call, when it should be told of the response.
  pub Answered : Files j → j.Data → String → MethodResponse j.R → Type 0
  Answered files d id r =
      (r' : MethodResponse j.R) × ((host_reads j files d ≡ some r')
        × ((r'.id ≡ id) × Encoded j r r'))

  -- A call that does not end the process is replied to exactly once, and what the host reads of the reply, from the file it
  -- names or directly, has the call's id and is the response to its outcome: the result, the error of a handler that
  -- failed or panicked, or that no handler has the name; or, where that cannot be encoded, an error that says so. This
  -- holds whatever calls of the file system fail, as long as a created file has a name.
  pub every_call_is_replied :
      (handlers : Handlers j A S) (calls : Calls) (call : MethodCall A) (c : Core j A S)
      → str_eq call.name "crash" ≡ false
      → calls.create ≢ some ""
      → (d : j.Data) × (((dispatch_method_call j A S handlers calls call c).replies
            ≡ c.replies ++ d ∷ [])
          × Answered
              (dispatch_method_call j A S handlers calls call c).files
              d
              call.id
              (response_to handlers (stamped call (inc64 c.call_seq)) c.state))
  unfolding dispatch_method_call Reaches Answered response_to
  every_call_is_replied handlers calls call c q n =
      let call' : MethodCall A = stamped call (inc64 c.call_seq) in
      let handled = handle_method_call j A S handlers calls call' c.state c.files in
      let same_files : (dispatch_method_call j A S handlers calls call c).files ≡ handled.2 =
        ground (arith, q) in
      let (r', (found, enc)) = handle_method_call-Reaches handlers calls call' c.state c.files n in
      (
        handled.0,
        (
          ground (arith, q),
          (
            r',
            (
              ap (λ x. host_reads j x handled.0) same_files ∙ found,
              (
                Encoded-id (answer (lookup call.name handlers) call' c.state) r' enc
                    ∙ answer-id (lookup call.name handlers) call' c.state,
                enc,
              ),
            ),
          ),
        ),
      )
