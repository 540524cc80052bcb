-- ===== src/Method/Reaches.antt =====
-- What the host reads of a reply, in a file or directly.
use Prim.Native.String.{◌++◌ as ◌<>◌}
use yu_clash.Prelude.{
  ◌≡◌, ◌≢◌, refl, ap, ◌∙◌, Bool, true, false, ◌&&◌, Option, none, some, String, leb, if◌then◌else◌,
  string_equality, str_eq, str_eq_iff, ◌⊎◌, inl, inr, arith,
}
use yu_clash.Prelude.Maps.{lookup, insert, without, lookup-insert}
use yu_clash.Method.{
  Json, MethodError, MethodResponse, result_response, error_response, file_response, internal_error,
  encode_response, encoded_or, encode_failure, data_or, as_method_error, Outcome, result, failed,
  panicked,
}
use yu_clash.Method.Spill.{
  Calls, Files, response_spill_threshold, spill_response, spilled, written_file,
  write_spilled_response,
}
use yu_clash.Method.Dispatch.{reply_of}

module _ (j : Json) where
  abbrev Response : Type 0
  Response = MethodResponse j.R

  abbrev opened : Files j → Option Response → Option Response
  opened files none = none
  opened files (some r) =
      if str_eq r.file ""
      then some r
      else (elim (lookup r.file files) [ none ↦ none | some d ↦ j.read d ])

  -- The host: it decodes a reply, and one that names a file is the content of that file.
  pub host_reads : Files j → j.Data → Option Response
  host_reads files d = opened files (j.read d)

  -- What an encoder makes of a response: the response, or an error that says why it cannot be encoded.
  abbrev pub Encoded : Response → Response → Type 0
  Encoded r r' =
      (r' ≡ r)
      ⊎ ((e : String) × ((j.marshal r ≡ inr e) × (r' ≡ error_response r.id (encode_failure e))))

  pub Read : j.Data → Response → Type 0
  Read d r = (r' : Response) × ((j.read d ≡ some r') × Encoded r r')

  read-error_response :
      (id : String) (e : MethodError)
      → j.read (data_or (j.marshal (error_response id e)) j.nil_data) ≡ some (error_response id e)
  read-error_response id e =
      let (d, m) = j.marshals_error id e in
      ap (λ x. j.read (data_or x j.nil_data)) m ∙ j.read-marshal (error_response id e) d m

  pub read-encode_response : (r : Response) → Read (encode_response j r) r
  unfolding encode_response Read
  read-encode_response r = go (j.marshal r) refl
    where
      go : (m : j.Data ⊎ String) → j.marshal r ≡ m → Read (encoded_or j r.id m) r
      go (inl d) e = (r, (j.read-marshal r d e, inl refl))
      go (inr message) e = (
        error_response r.id (encode_failure message),
        (read-error_response r.id (encode_failure message), inr (message, (e, refl))),
      )

  read-file_response :
      (id path : String)
      → j.read (encode_response j (file_response id path)) ≡ some (file_response id path)
  unfolding encode_response
  read-file_response id path =
      let (d, m) = j.marshals_file id path in
      ap (λ x. j.read (encoded_or j id x)) m ∙ j.read-marshal (file_response id path) d m

  -- The host finds an encoding of the response, directly or in a file.
  unfoldable pub Reaches : Files j → j.Data → Response → Type 0
  Reaches files d r = (r' : Response) × ((host_reads files d ≡ some r') × Encoded r r')

  Encoded-file : (r r' : Response) → r.file ≡ "" → Encoded r r' → r'.file ≡ ""
  Encoded-file r r' e (inl q) = ap (λ x. x.file) q ∙ e
  Encoded-file r r' e (inr (message, (m, q))) = ap (λ x. x.file) q

  pub direct-Reaches :
      (files : Files j) (d : j.Data) (r : Response) → r.file ≡ "" → Read d r → Reaches files d r
  unfolding Reaches Read host_reads
  direct-Reaches files d r e (r', (q, enc)) = (
    r',
    (ap (opened files) q ∙ ground (arith, str_eq_iff r'.file "", Encoded-file r r' e enc), enc),
  )

  file-Reaches :
      (files : Files j) (path id : String) (d : j.Data) (r : Response)
      → path ≢ ""
      → lookup path files ≡ some d
      → Read d r
      → Reaches files (encode_response j (file_response id path)) r
  unfolding Reaches Read host_reads
  file-Reaches files path id d r n l (r', (q, enc)) = (
    r',
    (
      ap (opened files) (read-file_response id path) ∙ ground (arith, str_eq_iff path "", n, l, q),
      enc,
    ),
  )

  spilled-Reaches :
      (calls : Calls) (id : String) (d : j.Data) (files : Files j) (r : Response)
      → calls.create ≢ some ""
      → r.file ≡ ""
      → Read d r
      → (let (d', files') = spilled j id d (write_spilled_response j calls d files) in
          Reaches files' d' r)
  unfolding write_spilled_response
  spilled-Reaches calls id d files r n e h = made calls.mkdir
    where
      finished :
          (b : Bool) (path : String)
          → path ≢ ""
          → (let (d', files') =
                spilled j id d
                  (if b then (some path, insert path d files) else (none, without path files)) in
              Reaches files' d' r)
      finished true path m =
          file-Reaches (insert path d files) path id d r m
            (ground (arith, lookup-insert path path d files, str_eq_iff path path)) h
      finished false path m = direct-Reaches (without path files) d r e h

      created :
          (o : Option String)
          → o ≢ some ""
          → (let (d', files') =
                spilled j id d (elim o [
                  | none ↦ (none, files)
                  | some path ↦ written_file j calls path d files
                ]) in
              Reaches files' d' r)
      created none m = direct-Reaches files d r e h
      created (some path) m =
          finished ((calls.chmod && calls.writes) && calls.closes) path (λ q. m (ap some q))

      made :
          (b : Bool)
          → (let (d', files') = spilled j id d (
                if b
                then (elim calls.create [
                  | none ↦ (none, files)
                  | some path ↦ written_file j calls path d files
                ])
                else (none, files)) in
              Reaches files' d' r)
      made true = created calls.create n
      made false = direct-Reaches files d r e h

  -- The response to an outcome.
  abbrev pub response_of : String → Outcome j.R → Response
  response_of id (result r) = result_response id r
  response_of id (failed e) = error_response id (as_method_error e)
  response_of id (panicked message) =
      error_response id (internal_error ("internal panic: " <> message))

  pub reply_of-Reaches :
      (calls : Calls) (id : String) (o : Outcome j.R) (files : Files j)
      → calls.create ≢ some ""
      → (let (d, files') = reply_of j calls id o files in Reaches files' d (response_of id o))
  unfolding reply_of spill_response
  reply_of-Reaches calls id (result r) files n = go (leb (j.size d) response_spill_threshold)
    where
      d : j.Data
      d = encode_response j (result_response id r)

      go :
          (b : Bool)
          → (let (d', files') =
                (if b
                  then (d, files)
                  else spilled j id d (write_spilled_response j calls d files)) in
              Reaches files' d' (result_response id r))
      go true =
          direct-Reaches files d (result_response id r) refl
            (read-encode_response (result_response id r))
      go false =
          spilled-Reaches calls id d files (result_response id r) n refl
            (read-encode_response (result_response id r))
  reply_of-Reaches calls id (failed e) files n =
      direct-Reaches files _ _ refl (read-encode_response (error_response id (as_method_error e)))
  reply_of-Reaches calls id (panicked message) files n =
      direct-Reaches files _ _ refl
        (read-encode_response (error_response id (internal_error ("internal panic: " <> message))))
