-- ===== src/Service/Rules/Several.antt =====
-- core/service_rules.go: the rules of ChatGPT, Bilibili and Netflix, which send several requests.
use yu_clash.Prelude.{
  ℕ, Bool, true, false, ◌&&◌, ◌||◌, Option, none, some, String, List, [], ◌∷◌, ◌==◌, if◌then◌else◌,
}
use yu_clash.Text.{Text, bytes, equal, split, first}
use yu_clash.Pattern.{first_submatch}
use yu_clash.Region.{normalize_region}
use yu_clash.Service.{
  Status, available, disallowed_isp, blocked, unsupported_region, originals_only, failed,
  ProbeError, no_error, ProbeResult, get_method, Env, Item, small_max_body, send, get, item_from,
  status_from_code, answered, body_contains, trace_loc,
}
use yu_clash.Service.Rules.{bilibili_code_pattern}

-- `chatGptIosStatus`.
unfoldable pub chatgpt_ios_status : ProbeResult → Status
unfolding body_contains
chatgpt_ios_status r =
    if body_contains r (bytes "you may be connected to a disallowed isp" ∷ [])
    then disallowed_isp
    else if body_contains r (bytes "sorry, you have been blocked" ∷ [])
    then blocked
    else if body_contains r (bytes "request is not allowed. please try again later." ∷ [])
    then available
    else failed

abbrev pub ios_status : Option ProbeResult → Option ProbeResult → Status
ios_status ios none = (item_from ios).status
ios_status ios (some r) = chatgpt_ios_status r

abbrev trace_region : Option ProbeResult → Text
trace_region none = []
trace_region (some r) = normalize_region (trace_loc r.body)

abbrev pub is_unsupported : Option ProbeResult → Bool
is_unsupported none = false
is_unsupported (some r) = body_contains r (bytes "unsupported_country" ∷ [])

-- `checkChatGpt`.
unfoldable pub check_chatgpt : Env → Item
unfolding get item_from answered chatgpt_ios_status trace_loc normalize_region body_contains
check_chatgpt env =
    let ios = get env "https://ios.chat.openai.com/" small_max_body in
    let trace = get env "https://chat.openai.com/cdn-cgi/trace" small_max_body in
    let web = get env "https://api.openai.com/compliance/cookie_requirements" small_max_body in
    record (item_from ios) {
      region = trace_region (answered trace);
      status =
          (if is_unsupported (answered web)
            then unsupported_region
            else ios_status ios (answered ios));
    }

-- `bilibiliStatus`.
unfoldable pub bilibili_status : Text → Status
unfolding first_submatch bilibili_code_pattern equal
bilibili_status body =
    let code = first_submatch bilibili_code_pattern body in
    if equal code (bytes "0")
    then available
    else if equal code (bytes "-10403")
    then unsupported_region
    else failed

-- `bilibiliEpisode`.
unfoldable pub bilibili_episode : Env → String → Item
unfolding get item_from answered bilibili_status
bilibili_episode env url =
    let result = get env url small_max_body in
    elim (answered result) [
      | none ↦ item_from result
      | some r ↦ record (item_from result) { status = bilibili_status r.body }
    ]

abbrev pub mainland : String
mainland =
    "https://api.bilibili.com/pgc/player/web/playurl?avid=82846771&qn=0&type=&otype=json&ep_id=307247&fourk=1&fnver=0&fnval=16&module=bangumi"

abbrev pub hong_kong_macau_taiwan : String
hong_kong_macau_taiwan =
    "https://api.bilibili.com/pgc/player/web/playurl?avid=18281381&cid=29892777&qn=0&type=&otype=json&ep_id=183799&fourk=1&fnver=0&fnval=16&module=bangumi"

-- `checkBilibili`.
unfoldable pub check_bilibili : Env → Item
unfolding bilibili_episode
check_bilibili env =
    let item = bilibili_episode env mainland in
    elim item.status [
      | available ↦ record item { region = bytes "CN" }
      | unsupported_region ↦ bilibili_episode env hong_kong_macau_taiwan
      | _ ↦ item
    ]

abbrev pub cdn_payload : Item → Option (List Text) → Item
cdn_payload item none = record item { status = failed }
cdn_payload item (some []) = record item { status = failed }
cdn_payload item (some (country ∷ _)) = record item {
  region = normalize_region country;
  status = available;
}

-- `netflixFromCdn`.
unfoldable pub netflix_from_cdn : Env → Item
unfolding get item_from answered normalize_region
netflix_from_cdn env =
    let result =
      get env
        "https://api.fast.com/netflix/speedtest/v2?https=true&token=YXNkZmFzZGxmbnNkYWZoYXNkZmhrYWxm&urlCount=5"
        small_max_body in
    elim (answered result) [
      | none ↦ item_from result
      | some r ↦
          if r.status_code == 403
          then record (item_from result) { status = blocked }
          else cdn_payload (item_from result) (env.target_countries r.body)
    ]

-- The country of `https://host/country-language/…`.
abbrev location_country : List Text → Text
location_country (_ ∷ _ ∷ _ ∷ segment ∷ _) = normalize_region (first (split 45 segment))
location_country _ = []

abbrev redirect_country : ProbeError → Option Text → Text
redirect_country no_error (some location) = location_country (split 47 location)
redirect_country _ _ = []

-- `netflixRegion`.
unfoldable pub netflix_region : Env → Text
unfolding send split normalize_region
netflix_region env =
    let result = send env (record {
      verb = get_method;
      target = "https://www.netflix.com/title/80018499";
      headers = [];
      content = [];
      max_body = 0;
      until = none;
      no_redirect = true;
    }) in
    elim result [ none ↦ [] | some r ↦ redirect_country r.error r.location ]

-- `netflixServed`.
abbrev pub netflix_served : ℕ → Bool
netflix_served code = code == 200 || code == 301

unfoldable pub netflix_verdict : Env → Item → ℕ → ℕ → Item
unfolding netflix_region status_from_code
netflix_verdict env item one two =
    if one == 404 && two == 404
    then record item { status = originals_only }
    else if one == 403 || two == 403
    then record item { status = unsupported_region }
    else if netflix_served one || netflix_served two
    then record item { status = available; region = netflix_region env }
    else record item { status = status_from_code one }

unfoldable pub netflix_titles : Env → Item
unfolding get item_from answered netflix_verdict
netflix_titles env =
    let one = get env "https://www.netflix.com/title/81280792" 0 in
    let two = get env "https://www.netflix.com/title/70143836" 0 in
    elim (answered one) [
      | none ↦ item_from one
      | some r ↦ elim (answered two) [
        | none ↦ item_from two
        | some r' ↦ netflix_verdict env (item_from one) r.status_code r'.status_code
      ]
    ]

-- `checkNetflix`.
unfoldable pub check_netflix : Env → Item
unfolding netflix_from_cdn netflix_titles
check_netflix env =
    let item = netflix_from_cdn env in
    elim item.status [ available ↦ item | blocked ↦ item | _ ↦ netflix_titles env ]
