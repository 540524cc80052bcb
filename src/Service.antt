-- ===== src/Service.antt =====
-- core/service_check.go: the items, the requests of a check, and what every rule shares. The children have
-- the rules, the sweep and the claims. Sending a probe is core/probe.go's: a parameter.
pub mod Rules
pub mod Sweep
pub mod Judged
pub mod Claims
mod Examples
use yu_clash.Prelude.{
  ℕ, zero, suc, ◌+◌, ◌*◌, Bool, true, false, not, ◌&&◌, ◌||◌, Option, none, some, String, List, [],
  ◌∷◌, map, ltb, leb, ◌==◌, if◌then◌else◌, Equality, str_eq, string_equality,
}
use yu_clash.Prelude.Maps.{insert}
use yu_clash.Text.{Text, bytes, contains, lower, cut_prefix, trim_space, split}

-- The statuses; `blank` is the empty text.
pub data Status : Type 0 where
  blank available unavailable restricted disallowed_isp blocked unsupported_region : Status
  originals_only coming_soon timeout failed : Status

-- `ProbeResult.Error`.
pub data ProbeError : Type 0 where
  no_error timed_out other_error : ProbeError

pub record ProbeResult : Type 0 where
  pub error : ProbeError
  pub status_code : ℕ
  pub delay : ℕ
  pub chains : List String
  pub url : Text
  pub body : Text
  -- the `Location` header; `none` for a result without a header
  pub location : Option Text

pub data HttpMethod : Type 0 where
  get_method post_method : HttpMethod

pub record ProbeRequest : Type 0 where
  pub verb : HttpMethod
  pub target : String
  pub headers : List (String × String)
  pub content : Text
  pub max_body : ℕ
  -- `until`: a scan stops reading at a tail that it accepts
  pub until : Option (Text → Bool)
  pub no_redirect : Bool

-- What is not from the source: `run_probe`, the answer to each request of one check, which asks no address
-- twice; the path of `url.Parse`; and the countries of the targets that `json.Unmarshal` finds in the
-- payload of fast.com.
pub record Env : Type 0 where
  pub run_probe : ProbeRequest → Option ProbeResult
  pub parse_path : Text → Option Text
  pub target_countries : Text → Option (List Text)

pub record Item : Type 0 where
  pub status : Status
  pub region : Text
  pub delay : ℕ
  pub chains : List String

abbrev pub html_max_body : ℕ
html_max_body = 512 * 1024

abbrev pub small_max_body : ℕ
small_max_body = 16 * 1024

abbrev pub scan_max_body : ℕ
scan_max_body = 8 * 1024 * 1024

abbrev pub browser_user_agent : String
browser_user_agent =
    "Mozilla/5.0 (Windows NT 10.0; Win64; x64) AppleWebKit/537.36 (KHTML, like Gecko) Chrome/120.0.0.0 Safari/537.36"

abbrev pub add_headers : List (String × String) → List (String × String) → List (String × String)
add_headers [] held = held
add_headers ((name, value) ∷ rest) held = add_headers rest (insert name value held)

-- `serviceEnv.send`.
unfoldable pub send : Env → ProbeRequest → Option ProbeResult
send env req =
    env.run_probe
      (record req { headers = add_headers req.headers (("User-Agent", browser_user_agent) ∷ []) })

-- `serviceEnv.get`.
unfoldable pub get : Env → String → ℕ → Option ProbeResult
unfolding send
get env url limit = send env (record {
  verb = get_method;
  target = url;
  headers = [];
  content = [];
  max_body = limit;
  until = none;
  no_redirect = false;
})

-- `serviceEnv.scan`.
unfoldable pub scan : Env → String → (Text → Bool) → Option ProbeResult
unfolding send
scan env url stop = send env (record {
  verb = get_method;
  target = url;
  headers = [];
  content = [];
  max_body = scan_max_body;
  until = some stop;
  no_redirect = false;
})

abbrev pub bare : Status → Item
bare s = record { status = s; region = []; delay = 0; chains = [] }

-- `itemFrom`.
unfoldable pub item_from : Option ProbeResult → Item
item_from none = bare failed
item_from (some r) = elim r.error [
  | no_error ↦ record { status = blank; region = []; delay = r.delay; chains = r.chains }
  | timed_out ↦ record { status = timeout; region = []; delay = 0; chains = r.chains }
  | other_error ↦ record { status = failed; region = []; delay = 0; chains = r.chains }
]

-- `statusFromCode`.
unfoldable pub status_from_code : ℕ → Status
status_from_code code =
    if leb 200 code && ltb code 300
    then available
    else if code == 401 || code == 403 || code == 429 || code == 451
    then restricted
    else unavailable

abbrev pub is_blank : Status → Bool
is_blank blank = true
is_blank _ = false

-- `answered`: the result of a request that a rule has yet to judge.
unfoldable pub answered : Option ProbeResult → Option ProbeResult
unfolding item_from
answered result = if is_blank (item_from result).status then result else none

abbrev pub contains_any : Text → List Text → Bool
contains_any s [] = false
contains_any s (needle ∷ needles) = contains s needle || contains_any s needles

-- `bodyContains`, without its cache of the folded body.
unfoldable pub body_contains : ProbeResult → List Text → Bool
body_contains r needles = contains_any (map lower r.body) needles

unfoldable pub line_value : List Text → Text → Text
line_value [] prefix = []
line_value (line ∷ lines) prefix = elim (cut_prefix prefix line) [
  | some rest ↦ trim_space rest
  | none ↦ line_value lines prefix
]

-- `traceValue` of the key `loc`.
unfoldable pub trace_loc : Text → Text
unfolding line_value
trace_loc body = line_value (split 10 body) (bytes "loc=")

-- `checkReachable`.
unfoldable pub check_reachable : String → Env → Item
unfolding get answered item_from status_from_code
check_reachable url env =
    let result = get env url 0 in
    elim (answered result) [
      | none ↦ item_from result
      | some r ↦ record (item_from result) { status = status_from_code r.status_code }
    ]
