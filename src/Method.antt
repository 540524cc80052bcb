-- ===== src/Method.antt =====
-- core/method.go: calls, handlers and their replies. Encoding as JSON is a parameter, a handler may change
-- the state of the core, and a goroutine is the call of its function.
pub mod Spill
pub mod Dispatch
pub mod Table
pub mod Reaches
pub mod Replies
mod Examples
use Prim.Native.String.{◌++◌ as ◌<>◌}
use yu_clash.Prelude.{
  ℕ, Bool, true, false, Option, none, some, String, List, [], ◌∷◌, ◌≡◌, ◌⊎◌, inl, inr,
}

-- `MethodError`, without its details.
pub record MethodError : Type 0 where
  pub code : String
  pub message : String

abbrev pub internal_error : String → MethodError
internal_error message = record { code = "internal_error"; message = message }

-- An `error`: a structured one, or any other by its message.
pub data Failure : Type 0 where
  structured : MethodError → Failure
  plain : String → Failure

-- `MethodResponse` of results of one type.
pub record MethodResponse (R : Type 0) : Type 0 where
  pub id : String
  pub result : Option R
  pub error : Option MethodError
  pub file : String

abbrev pub result_response : {R : Type 0} → String → R → MethodResponse R
result_response id r = record { id = id; result = some r; error = none; file = "" }

abbrev pub error_response : {R : Type 0} → String → MethodError → MethodResponse R
error_response id e = record { id = id; result = none; error = some e; file = "" }

abbrev pub file_response : {R : Type 0} → String → String → MethodResponse R
file_response id path = record { id = id; result = none; error = none; file = path }

-- encoding/json on responses: what a decoder reads back from an encoded response, and that one of texts alone
-- can always be encoded.
pub record Json : Type 1 where
  pub R : Type 0
  pub Data : Type 0
  pub size : Data → ℕ
  -- what is left of the data when nothing could be encoded
  pub nil_data : Data
  pub marshal : MethodResponse R → Data ⊎ String
  pub read : Data → Option (MethodResponse R)
  pub read-marshal : (r : MethodResponse R) (d : Data) → marshal r ≡ inl d → read d ≡ some r
  pub marshals_error :
      (id : String) (e : MethodError) → (d : Data) × (marshal (error_response id e) ≡ inl d)
  pub marshals_file : (id path : String) → (d : Data) × (marshal (file_response id path) ≡ inl d)

-- `asMethodError`.
unfoldable pub as_method_error : Failure → MethodError
as_method_error (structured e) = e
as_method_error (plain message) = record { code = "core_error"; message = message }

abbrev pub data_or : {A B : Type 0} → A ⊎ B → A → A
data_or (inl d) other = d
data_or (inr e) other = other

abbrev pub encode_failure : String → MethodError
encode_failure message = internal_error ("encode response: " <> message)

abbrev pub encoded_or : (j : Json) → String → j.Data ⊎ String → j.Data
encoded_or j id (inl d) = d
encoded_or j id (inr message) =
    data_or (j.marshal (error_response id (encode_failure message))) j.nil_data

-- `encodeResponse`.
unfoldable pub encode_response : (j : Json) → MethodResponse j.R → j.Data
encode_response j r = encoded_or j r.id (j.marshal r)

-- How a handler ends.
pub data Outcome (R : Type 0) : Type 0 where
  result : R → Outcome R
  failed : Failure → Outcome R
  panicked : String → Outcome R

pub data Arguments (A : Type 0) : Type 0 where
  missing : Arguments A
  given : A → Arguments A

-- `MethodCall`; its arguments are JSON that no one has read yet.
pub record MethodCall (A : Type 0) : Type 0 where
  pub id : String
  pub name : String
  pub arguments : Arguments A
  pub seq : ℕ

-- `methodHandler` over the state of the core.
abbrev pub Handler : Type 0 → Type 0 → Type 0 → Type 0
Handler A S R = MethodCall A → S → Outcome R × S

abbrev pub invalid_arguments : String → String → MethodError
invalid_arguments name message = record {
  code = "invalid_arguments";
  message = "invalid arguments for " <> name <> ": " <> message;
}

-- `json.Unmarshal` of the arguments: the parameters, or its error.
abbrev unmarshalled : {A P : Type 0} → (A → P ⊎ String) → Arguments A → P ⊎ String
unmarshalled decode missing = inr "missing arguments"
unmarshalled decode (given a) = decode a

-- `decodeArguments`.
unfoldable pub decode_arguments : {A P : Type 0} → (A → P ⊎ String) → MethodCall A → P ⊎ MethodError
decode_arguments decode call = elim (unmarshalled decode call.arguments) [
  | inl params ↦ inl params
  | inr message ↦ inr (invalid_arguments call.name message)
]

abbrev message_outcome : {R : Type 0} → (String → R) → Outcome (Option Failure) → Outcome R
message_outcome as_text (result none) = result (as_text "")
message_outcome as_text (result (some (structured e))) = failed (structured e)
message_outcome as_text (result (some (plain message))) = result (as_text message)
message_outcome as_text (failed e) = failed e
message_outcome as_text (panicked e) = panicked e

module _ {A P R S : Type 0} (decode : A → P ⊎ String) where
  -- `withFallible`.
  unfoldable pub with_fallible : (P → S → Outcome R × S) → Handler A S R
  unfolding decode_arguments
  with_fallible run call s = elim (decode_arguments decode call) [
    | inl params ↦ run params s
    | inr e ↦ (failed (structured e), s)
  ]

  -- `withArguments`.
  unfoldable pub with_arguments : (P → S → R × S) → Handler A S R
  unfolding with_fallible
  with_arguments run = with_fallible (λ params s. (result (run params s).0, (run params s).1))

  -- `withMessage`: `as_text` is the result that is a text.
  unfoldable pub with_message :
      (String → R) → (P → S → Outcome (Option Failure) × S) → Handler A S R
  unfolding with_fallible
  with_message as_text run =
      with_fallible (λ params s. (message_outcome as_text (run params s).0, (run params s).1))

module _ {A R S : Type 0} where
  -- `withoutArguments`.
  unfoldable pub without_arguments : (S → R × S) → Handler A S R
  without_arguments run call s = (result (run s).0, (run s).1)

  -- `acknowledged`: `done` is the result `true`.
  unfoldable pub acknowledged : R → (S → S) → Handler A S R
  acknowledged done run call s = (result done, run s)
