-- ===== src/Service/Rules.antt =====
-- core/service_rules.go: the rules of the services that one page decides, and the patterns. The children
-- have the rules with several requests.
pub mod Several
pub mod Disney
use yu_clash.Prelude.{
  ℕ, ◌+◌, Bool, true, false, not, ◌&&◌, ◌||◌, Option, none, some, String, List, [], ◌∷◌, ◌++◌, map,
  length, take, ltb, leb, ◌==◌, if◌then◌else◌,
}
use yu_clash.Text.{
  Text, bytes, equal, member, is_empty, is_between, contains, after, split, first, trim_left,
  trim_right,
}
use yu_clash.Pattern.{
  Piece, literal, either, greedy, lazy, mark, Pattern, find, first_submatch, spaces, is_letter,
  is_not,
}
use yu_clash.Region.{normalize_region, is_ascii_upper}
use yu_clash.Service.{
  Status, blank, available, unavailable, restricted, disallowed_isp, blocked, unsupported_region,
  timeout, failed, ProbeResult, Env, Item, html_max_body, small_max_body, get, scan, item_from,
  status_from_code, answered, body_contains, trace_loc,
}

abbrev anywhere : List Piece → Pattern
anywhere ps = record { is_anchored = false; pieces = ps }

-- `"<key>"\s*:\s*"(<class>)"`.
abbrev pub quoted : String → Piece → Pattern
quoted key value = anywhere (
    literal (bytes "\"" ++ bytes key ++ bytes "\"")
    ∷ spaces
    ∷ literal (bytes ":")
    ∷ spaces
    ∷ literal (bytes "\"")
    ∷ mark
    ∷ value
    ∷ mark
    ∷ literal (bytes "\"")
    ∷ [])

abbrev pub until_quote : Piece
until_quote = greedy 1 none (is_not 34)

abbrev two_letters : Piece
two_letters = greedy 2 (some 2) is_letter

-- The letters of a literal in either case.
abbrev either_case : Text → List Piece
either_case [] = []
either_case (c ∷ s) =
    greedy 1 (some 1) (λ d. d == c || is_letter c && (d + 32 == c)) ∷ either_case s

abbrev is_quote : ℕ → Bool
is_quote c = c == 34 || c == 39

abbrev a_quote : Piece
a_quote = greedy 1 (some 1) is_quote

unfoldable pub youtube_region_patterns : List Pattern
youtube_region_patterns =
    anywhere (
      either_case (bytes "id=")
      ++ a_quote
        ∷ (either_case (bytes "country-code")
            ++ a_quote
              ∷ greedy 0 none (is_not 62)
              ∷ literal (bytes ">")
              ∷ spaces
              ∷ mark
              ∷ greedy 2 (some 3) is_letter
              ∷ mark
              ∷ spaces
              ∷ literal (bytes "<")
              ∷ []))
    ∷ quoted "GL" two_letters
    ∷ quoted "countryCode" two_letters
    ∷ quoted "country_code" two_letters
    ∷ []

unfoldable pub tiktok_region_pattern : Pattern
tiktok_region_pattern = anywhere (
    literal (bytes "\"webapp.app-context\"")
    ∷ spaces
    ∷ literal (bytes ":")
    ∷ spaces
    ∷ literal (bytes "{")
    ∷ lazy (λ c. not (c == 123 || c == 125))
    ∷ literal (bytes "\"region\"")
    ∷ spaces
    ∷ literal (bytes ":")
    ∷ spaces
    ∷ literal (bytes "\"")
    ∷ mark
    ∷ greedy 0 none (is_not 34)
    ∷ mark
    ∷ literal (bytes "\"")
    ∷ [])

unfoldable pub prime_region_pattern : Pattern
prime_region_pattern = anywhere (
    literal (bytes "\"currentTerritory\":\"")
    ∷ mark
    ∷ until_quote
    ∷ mark
    ∷ literal (bytes "\"")
    ∷ [])

unfoldable pub bilibili_code_pattern : Pattern
bilibili_code_pattern = record {
  is_anchored = true;
  pieces =
      spaces
      ∷ literal (bytes "{")
      ∷ spaces
      ∷ literal (bytes "\"code\"")
      ∷ spaces
      ∷ literal (bytes ":")
      ∷ spaces
      ∷ mark
      ∷ greedy 0 (some 1) (λ c. c == 45)
      ∷ greedy 1 none (is_between 48 57)
      ∷ mark
      ∷ [];
}

unfoldable pub claude_blocked_regions : List Text
claude_blocked_regions =
    map bytes ("AF" ∷ "BY" ∷ "CN" ∷ "CU" ∷ "HK" ∷ "IR" ∷ "KP" ∷ "MO" ∷ "RU" ∷ "SY" ∷ [])

unfoldable pub gemini_blocked_regions : List Text
gemini_blocked_regions =
    map bytes ("CHN" ∷ "RUS" ∷ "BLR" ∷ "CUB" ∷ "IRN" ∷ "PRK" ∷ "SYR" ∷ "HKG" ∷ "MAC" ∷ [])

unfoldable pub claude_verdict : Item → Text → Item
unfolding member claude_blocked_regions
claude_verdict item [] = record item { status = failed }
claude_verdict item (c ∷ s) = record item {
  region = c ∷ s;
  status = (if member (c ∷ s) claude_blocked_regions then unsupported_region else available);
}

-- `checkClaude`.
unfoldable pub check_claude : Env → Item
unfolding get item_from answered claude_verdict trace_loc normalize_region
check_claude env =
    let result = get env "https://claude.ai/cdn-cgi/trace" small_max_body in
    elim (answered result) [
      | none ↦ item_from result
      | some r ↦ claude_verdict (item_from result) (normalize_region (trace_loc r.body))
    ]

-- The three bytes behind the marker, when they are there.
unfoldable pub gemini_code : Text → Option Text
gemini_code body = elim (after (bytes ",2,1,200,\"") body) [
  | none ↦ none
  | some rest ↦ if leb 3 (length rest) then some (take 3 rest) else none
]

unfoldable pub gemini_verdict : Item → Option Text → Item
unfolding member gemini_blocked_regions is_ascii_upper normalize_region
gemini_verdict item none = record item { status = failed }
gemini_verdict item (some code) =
    if is_ascii_upper code
    then record item {
      region = normalize_region code;
      status = (if member code gemini_blocked_regions then unsupported_region else available);
    }
    else record item { status = failed }

abbrev found {ℓ} : {A : Type ℓ} → Option A → Bool
found none = false
found (some _) = true

abbrev pub gemini_page : Env → Option ProbeResult
gemini_page env = scan env "https://gemini.google.com" (λ tail. found (gemini_code tail))

-- `checkGemini`.
unfoldable pub check_gemini : Env → Item
unfolding scan item_from answered gemini_code gemini_verdict
check_gemini env =
    let result = gemini_page env in
    elim (answered result) [
      | none ↦ item_from result
      | some r ↦ gemini_verdict (item_from result) (gemini_code r.body)
    ]

-- The first pattern with a code.
unfoldable pub first_code : List Pattern → Text → Text
unfolding first_submatch
first_code [] body = []
first_code (p ∷ ps) body = elim (is_empty (first_submatch p body)) [
  | true ↦ first_code ps body
  | false ↦ first_submatch p body
]

unfoldable pub youtube_status : ProbeResult → Status
unfolding body_contains status_from_code
youtube_status r =
    if body_contains r (
      map bytes (
        "youtube premium is not available in your country"
        ∷ "premium is not available in your country" ∷ "premium is not available in your region"
        ∷ []))
    then unsupported_region
    else if (leb 200 r.status_code && ltb r.status_code 300)
        && body_contains r
            (map bytes ("youtube premium" ∷ "ad-free" ∷ "\"browseid\":\"spunlimited\"" ∷ []))
    then available
    else status_from_code r.status_code

-- The region when there is a code, and an untouched one otherwise.
abbrev region_of : Text → Text
region_of [] = []
region_of (c ∷ s) = normalize_region (c ∷ s)

-- `checkYouTubePremium`.
unfoldable pub check_youtube : Env → Item
unfolding get item_from answered first_code youtube_region_patterns youtube_status
check_youtube env =
    let result = get env "https://www.youtube.com/premium?hl=en" html_max_body in
    elim (answered result) [
      | none ↦ item_from result
      | some r ↦ record (item_from result) {
        region = region_of (first_code youtube_region_patterns r.body);
        status = youtube_status r;
      }
    ]

abbrev is_slash : ℕ → Bool
is_slash c = c == 47

-- The first segment of a path, when it is a country's.
abbrev path_country : Text → Option Text
path_country path =
    let segment = first (split 47 (trim_right is_slash (trim_left is_slash path))) in
    if is_empty segment || equal segment (bytes "api")
    then none
    else some (first (split 45 segment))

abbrev payload_country : Text → Option Text → Text
payload_country body (some country) = country
payload_country body none = first_submatch (quoted "countryCode" until_quote) body

-- `spotifyRegion`.
unfoldable pub spotify_region : Env → ProbeResult → Text
unfolding first_submatch split equal
spotify_region env r = elim (env.parse_path r.url) [
  | none ↦ payload_country r.body none
  | some path ↦ payload_country r.body (path_country path)
]

unfoldable pub spotify_status : ProbeResult → Status
unfolding body_contains status_from_code
spotify_status r =
    if r.status_code == 403 || r.status_code == 451
    then unsupported_region
    else if ltb r.status_code 200 || leb 300 r.status_code
    then status_from_code r.status_code
    else if body_contains r (bytes "not available in your country" ∷ [])
    then unsupported_region
    else available

-- `checkSpotify`.
unfoldable pub check_spotify : Env → Item
unfolding get item_from answered spotify_region spotify_status normalize_region
check_spotify env =
    let result =
      get env "https://www.spotify.com/api/content/v1/country-selector?platform=web&format=json"
        small_max_body in
    elim (answered result) [
      | none ↦ item_from result
      | some r ↦ record (item_from result) {
        region = normalize_region (spotify_region env r);
        status = spotify_status r;
      }
    ]

-- `tikTokStatus`.
unfoldable pub tiktok_status : ProbeResult → Status
unfolding body_contains
tiktok_status r =
    if r.status_code == 403 || r.status_code == 451
    then unsupported_region
    else if ltb r.status_code 200 || leb 300 r.status_code
    then failed
    else if body_contains r (
        map bytes
          ("access denied" ∷ "not available in your region" ∷ "tiktok is not available" ∷ []))
    then unsupported_region
    else available

-- `checkTikTok`.
unfoldable pub check_tiktok : Env → Item
unfolding scan item_from answered tiktok_status first_submatch tiktok_region_pattern find
    normalize_region
check_tiktok env =
    let result =
      scan env "https://www.tiktok.com/" (λ tail. found (find tiktok_region_pattern tail)) in
    elim (answered result) [
      | none ↦ item_from result
      | some r ↦ record (item_from result) {
        region = normalize_region (first_submatch tiktok_region_pattern r.body);
        status = tiktok_status r;
      }
    ]

abbrev discord_region : Status → Text → Text
discord_region available body =
    normalize_region (first_submatch (quoted "country_code" until_quote) body)
discord_region _ body = []

-- `checkDiscord`.
unfoldable pub check_discord : Env → Item
unfolding get item_from answered status_from_code first_submatch normalize_region
check_discord env =
    let result = get env "https://discord.com/api/v9/auth/location-metadata" small_max_body in
    elim (answered result) [
      | none ↦ item_from result
      | some r ↦ record (item_from result) {
        region = discord_region (status_from_code r.status_code) r.body;
        status = status_from_code r.status_code;
      }
    ]

unfoldable pub prime_verdict : Item → Text → Item
unfolding first_submatch prime_region_pattern normalize_region
prime_verdict item body = elim (contains body (bytes "isServiceRestricted")) [
  | true ↦ record item { status = unsupported_region }
  | false ↦ elim (first_submatch prime_region_pattern body) [
    | [] ↦ record item { status = failed }
    | c ∷ s ↦ record item { region = normalize_region (c ∷ s); status = available }
  ]
]

abbrev pub prime_page : Env → Option ProbeResult
prime_page env =
    scan env "https://www.primevideo.com" (λ tail.
      contains tail (bytes "isServiceRestricted") || found (find prime_region_pattern tail))

-- `checkPrimeVideo`.
unfoldable pub check_prime_video : Env → Item
unfolding scan item_from answered prime_verdict find prime_region_pattern
check_prime_video env =
    let result = prime_page env in
    elim (answered result) [
      | none ↦ item_from result
      | some r ↦ prime_verdict (item_from result) r.body
    ]
