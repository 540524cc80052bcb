-- ===== src/Provider/Failures.antt =====
-- core/provider.go: the error that a failed update answers with. What errors.As and errors.Is find in an error
-- is a record of tests.
use yu_clash.Prelude.{
  ℕ, ◌+◌, ◌*◌, ◌-◌, ◌/◌, ◌%◌, ◌≤◌, ◌≡◌, ap, ◌∙◌, Bool, false, not, ◌&&◌, ◌||◌, Option, none, some,
  String, ◌∷◌, ◌==◌, leb, if◌then◌else◌, str_eq, is_some, arith,
}
use yu_clash.Text.{Text}

-- An error: its text, and the types and values in its chain.
pub record Failure : Type 0 where
  pub message : Text
  pub unknown_authority : Bool
  pub hostname : Bool
  pub invalid_certificate : Bool
  pub certificate_verification : Bool
  pub record_header : Bool
  pub alert : Bool
  pub dns_error : Bool
  pub ip_not_found : Bool
  pub context_deadline : Bool
  pub os_deadline : Bool
  -- a `net.Error`, with its `Timeout()`
  pub network_error : Option Bool
  pub op_error : Bool
  pub connection_refused : Bool
  pub connection_reset : Bool
  pub eof : Bool
  pub unexpected_eof : Bool
  pub url_error : Bool

abbrev is_timeout : Option Bool → Bool
is_timeout none = false
is_timeout (some timeout) = timeout

-- `providerRequestFailureReason`.
unfoldable pub provider_request_failure_reason : Failure → String
provider_request_failure_reason e =
    if e.unknown_authority || e.hostname || e.invalid_certificate || e.certificate_verification
      || e.record_header || e.alert
    then "tls"
    else if e.dns_error || e.ip_not_found
    then "dns"
    else if e.context_deadline || e.os_deadline || is_timeout e.network_error
    then "timeout"
    else if e.op_error || e.connection_refused || e.connection_reset || e.eof || e.unexpected_eof
    then "connection"
    else ""

abbrev pub is_digit : ℕ → Bool
is_digit c = leb 48 c && leb c 57

-- `strconv.Atoi` of three bytes, as far as the result can be 100 or more: a sign leaves two digits.
abbrev pub three_digits : ℕ → ℕ → ℕ → Option ℕ
three_digits a b c =
    if is_digit a && is_digit b && is_digit c
    then some ((a - 48) * 100 + (b - 48) * 10 + (c - 48))
    else none

abbrev in_range : Option ℕ → Option ℕ
in_range none = none
in_range (some status) = if leb 100 status && leb status 599 then some status else none

-- The status that a text begins with.
unfoldable pub leading_status : Text → Option ℕ
leading_status (a ∷ b ∷ c ∷ d ∷ _) = if d == 32 then in_range (three_digits a b c) else none
leading_status _ = none

-- `providerRequestFailure`.
pub record RequestFailure : Type 0 where
  pub code : String
  pub reason : String
  pub status_code : ℕ

abbrev pub classified : Failure → Option ℕ → Option RequestFailure
classified e (some status) =
    some (record { code = "request_bad_response"; reason = ""; status_code = status })
classified e none =
    let reason = provider_request_failure_reason e in
    if not (str_eq reason "") || e.url_error || is_some e.network_error
    then some (record { code = "request_error"; reason = reason; status_code = 0 })
    else none

-- `classifyProviderRequestError`.
unfoldable pub classify_provider_request_error : Failure → Option RequestFailure
unfolding leading_status provider_request_failure_reason
classify_provider_request_error e = classified e (leading_status e.message)

-- The details of a `MethodError`.
pub record Details : Type 0 where
  pub provider_name : String
  pub reason : Option String
  pub status_code : Option ℕ

pub record ProviderError : Type 0 where
  pub code : String
  pub message : Text
  pub details : Details

-- `providerError`.
unfoldable pub provider_error : String → String → Text → ProviderError
provider_error code name message = record {
  code = code;
  message = message;
  details = record { provider_name = name; reason = none; status_code = none };
}

abbrev pub request_answer : String → Failure → Option RequestFailure → Option ProviderError
request_answer name e none = none
request_answer name e (some failure) = some (record {
  code = failure.code;
  message = e.message;
  details = record {
    provider_name = name;
    reason = if str_eq failure.reason "" then none else some failure.reason;
    status_code = if failure.status_code == 0 then none else some failure.status_code;
  };
})

-- `requestMethodError` on the details that name a provider.
unfoldable pub request_method_error : Failure → String → Option ProviderError
unfolding classify_provider_request_error
request_method_error e name = request_answer name e (classify_provider_request_error e)

abbrev pub answered : String → Failure → Option ProviderError → ProviderError
answered name e none = provider_error "provider_update_error" name e.message
answered name e (some error) = error

-- `providerUpdateError`.
unfoldable pub provider_update_error : String → Failure → ProviderError
unfolding request_method_error provider_error
provider_update_error name e = answered name e (request_method_error e name)

-- The text that an HTTP status begins with: three digits and a space.
abbrev pub status_text : ℕ → Text → Text
status_text status rest =
    (48 + status / 100) ∷ (48 + status / 10 % 10) ∷ (48 + status % 10) ∷ 32 ∷ rest

three_digits-status_text :
    (status : ℕ)
    → 100 ≤ status
    → status ≤ 599
    → three_digits (48 + status / 100) (48 + status / 10 % 10) (48 + status % 10) ≡ some status
three_digits-status_text status low high = ground (arith, low, high)

leading_status-status_text :
    (status : ℕ) (rest : Text)
    → 100 ≤ status
    → status ≤ 599
    → leading_status (status_text status rest) ≡ some status
unfolding leading_status
leading_status-status_text status rest low high =
    ground (arith, low, high, three_digits-status_text status low high)

-- An error whose text is an HTTP status, as mihomo words a fetch that was refused, is answered as a bad response with the
-- number of the status, the whole text and the name of the provider, whatever else its chain holds.
pub provider_update_error-status_text :
    (status : ℕ) (rest : Text) (name : String) (e : Failure)
    → 100 ≤ status
    → status ≤ 599
    → e.message ≡ status_text status rest
    → provider_update_error name e ≡ record {
      code = "request_bad_response";
      message = status_text status rest;
      details = record { provider_name = name; reason = none; status_code = some status };
    }
unfolding provider_update_error request_method_error classify_provider_request_error
provider_update_error-status_text status rest name e low high q =
    go (leading_status e.message)
      (ap leading_status q ∙ leading_status-status_text status rest low high)
  where
    go :
        (o : Option ℕ)
        → o ≡ some status
        → answered name e (request_answer name e (classified e o)) ≡ record {
          code = "request_bad_response";
          message = status_text status rest;
          details = record { provider_name = name; reason = none; status_code = some status };
        }
    go none i = ground (arith, i)
    go (some s) i = ground (arith, i, q, low)
