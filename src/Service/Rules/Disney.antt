-- ===== src/Service/Rules/Disney.antt =====
-- core/service_rules.go: `checkDisneyPlus`, three requests in sequence.
use yu_clash.Prelude.{false, ◌||◌, none, some, String, [], ◌∷◌, ◌++◌, leb, ◌==◌, if◌then◌else◌}
use yu_clash.Text.{Text, bytes, equal, is_empty, contains, query_escape}
use yu_clash.Pattern.{Pattern, literal, either, mark, spaces, first_submatch}
use yu_clash.Region.{normalize_region}
use yu_clash.Service.{
  Status, available, unavailable, blocked, coming_soon, failed, ProbeResult, ProbeRequest,
  post_method, Env, Item, small_max_body, send, item_from, answered,
}
use yu_clash.Service.Rules.{quoted, until_quote}

unfoldable pub disney_supported_pattern : Pattern
disney_supported_pattern = record {
  is_anchored = false;
  pieces =
      literal (bytes "\"inSupportedLocation\"")
      ∷ spaces
      ∷ literal (bytes ":")
      ∷ spaces
      ∷ mark
      ∷ either (bytes "false") (bytes "true")
      ∷ mark
      ∷ [];
}

abbrev disney_auth_header : String
disney_auth_header =
    "Bearer ZGlzbmV5JmJyb3dzZXImMS4wLjA.Cu56AgSfBTDag5NiRA81oLHkDZfu5L3CKadnefEAY84"

abbrev post : String → String → Text → ProbeRequest
post url kind body = record {
  verb = post_method;
  target = url;
  headers = ("authorization", disney_auth_header) ∷ ("content-type", kind) ∷ [];
  content = body;
  max_body = small_max_body;
  until = none;
  no_redirect = false;
}

unfoldable pub device_request : ProbeRequest
device_request =
    post "https://disney.api.edge.bamgrid.com/devices" "application/json; charset=UTF-8" (
      bytes
        "{\"deviceFamily\":\"browser\",\"applicationRuntime\":\"chrome\",\"deviceProfile\":\"windows\",\"attributes\":{}}")

unfoldable pub token_request : Text → ProbeRequest
unfolding query_escape
token_request assertion =
    post "https://disney.api.edge.bamgrid.com/token" "application/x-www-form-urlencoded" (
      bytes
        "grant_type=urn:ietf:params:oauth:grant-type:token-exchange&latitude=0&longitude=0&platform=browser&subject_token="
      ++ query_escape assertion
      ++ bytes "&subject_token_type=urn:bamtech:params:oauth:token-type:device")

unfoldable pub session_request : Text → ProbeRequest
session_request refresh =
    post "https://disney.api.edge.bamgrid.com/graph/v1/device/graphql" "application/json" (
      bytes
        "{\"query\":\"mutation refreshToken($input: RefreshTokenInput!) { refreshToken(refreshToken: $input) { activeSession { sessionId } } }\",\"variables\":{\"input\":{\"refreshToken\":\""
      ++ refresh
      ++ bytes "\"}}}")

-- The status of the session's `inSupportedLocation`.
unfoldable pub support_status : Text → Status
unfolding equal
support_status value =
    if equal value (bytes "true")
    then available
    else if equal value (bytes "false")
    then coming_soon
    else failed

unfoldable pub session_verdict : Item → ProbeResult → Item
unfolding first_submatch disney_supported_pattern support_status normalize_region
session_verdict item r =
    if is_empty r.body || leb 400 r.status_code
    then record item { status = failed }
    else (elim (normalize_region (first_submatch (quoted "countryCode" until_quote) r.body)) [
      | [] ↦ record item { status = unavailable }
      | c ∷ s ↦ record item {
        region = c ∷ s;
        status = support_status (first_submatch disney_supported_pattern r.body);
      }
    ])

unfoldable pub ask_session : Env → Item → Text → Item
unfolding send answered session_request session_verdict
ask_session env item [] = record item { status = failed }
ask_session env item (c ∷ s) = elim (answered (send env (session_request (c ∷ s)))) [
  | none ↦ record item { status = failed }
  | some r ↦ session_verdict item r
]

unfoldable pub ask_token : Env → Item → Text → Item
unfolding send item_from answered token_request ask_session first_submatch
ask_token env item [] = record item { status = failed }
ask_token env item (c ∷ s) =
    let token = send env (token_request (c ∷ s)) in
    elim (answered token) [
      | none ↦ item_from token
      | some r ↦
          if contains r.body (bytes "forbidden-location") || contains r.body (bytes "403 ERROR")
          then record item { status = blocked }
          else ask_session env item (first_submatch (quoted "refresh_token" until_quote) r.body)
    ]

-- `checkDisneyPlus`.
unfoldable pub check_disney_plus : Env → Item
unfolding send item_from answered device_request ask_token first_submatch
check_disney_plus env =
    let device = send env device_request in
    elim (answered device) [
      | none ↦ item_from device
      | some r ↦
          if r.status_code == 403
          then record (item_from device) { status = blocked }
          else ask_token env (item_from device)
              (first_submatch (quoted "assertion" until_quote) r.body)
    ]
