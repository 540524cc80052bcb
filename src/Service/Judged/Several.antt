-- ===== src/Service/Judged/Several.antt =====
-- No rule of several requests leaves the status of its item blank.
use yu_clash.Prelude.{
  ℕ, ◌≡◌, refl, false, ◌||◌, ◌&&◌, Option, none, some, String, List, [], ◌∷◌, inl, inr,
  Option-cases, arith, ◌==◌, leb,
}
use yu_clash.Text.{Text, bytes, equal, contains, is_empty}
use yu_clash.Pattern.{first_submatch}
use yu_clash.Region.{normalize_region}
use yu_clash.Service.{
  Status, available, unavailable, blocked, unsupported_region, ProbeResult, Env, Item, is_blank,
  item_from, answered, send, get, small_max_body,
}
use yu_clash.Service.Rules
use yu_clash.Service.Rules.Several
use yu_clash.Service.Rules.Disney
use yu_clash.Service.Judged.{
  IsJudged, unanswered, one_request, if-judged, if-IsJudged, status_from_code-judged,
}

chatgpt_ios_status-judged : (r : ProbeResult) → is_blank (Several.chatgpt_ios_status r) ≡ false
unfolding Several.chatgpt_ios_status
chatgpt_ios_status-judged r = ground arith

ios_status-judged : (r : Option ProbeResult) → is_blank (Several.ios_status r (answered r)) ≡ false
ios_status-judged r = elim (Option-cases (answered r)) [
  | inl e ↦ ground (arith, e, unanswered r e)
  | inr (p, e) ↦ ground (arith, e, chatgpt_ios_status-judged p)
]

pub check_chatgpt-IsJudged : (env : Env) → IsJudged (Several.check_chatgpt env)
unfolding Several.check_chatgpt
check_chatgpt-IsJudged env =
    if-judged
      (Several.is_unsupported
        (answered (get env "https://api.openai.com/compliance/cookie_requirements" small_max_body)))
      unsupported_region
      (Several.ios_status (get env "https://ios.chat.openai.com/" small_max_body)
        (answered (get env "https://ios.chat.openai.com/" small_max_body)))
      refl (ios_status-judged (get env "https://ios.chat.openai.com/" small_max_body))

bilibili_status-judged : (body : Text) → is_blank (Several.bilibili_status body) ≡ false
unfolding Several.bilibili_status
bilibili_status-judged body =
    if-judged (equal (first_submatch Rules.bilibili_code_pattern body) (bytes "0")) _ _ refl (
      if-judged (equal (first_submatch Rules.bilibili_code_pattern body) (bytes "-10403")) _ _ refl
        refl)

bilibili_episode-IsJudged : (env : Env) (url : String) → IsJudged (Several.bilibili_episode env url)
unfolding Several.bilibili_episode
bilibili_episode-IsJudged env url =
    one_request (get env url small_max_body) _ (λ r. bilibili_status-judged r.body)

-- An item that stays the same, with another region, or gives way to a judged one is judged.
abbrev follow : Item → Item → Status → Item
follow item other available = record item { region = bytes "CN" }
follow item other unsupported_region = other
follow item other _ = item

follow-IsJudged :
    (item other : Item) (s : Status)
    → IsJudged item
    → IsJudged other
    → IsJudged (follow item other s)
follow-IsJudged item other s p q = elim s as (λ k. IsJudged (follow item other k)) [
  | available ↦ p
  | unsupported_region ↦ q
  | _ ↦ p
]

pub check_bilibili-IsJudged : (env : Env) → IsJudged (Several.check_bilibili env)
unfolding Several.check_bilibili
check_bilibili-IsJudged env =
    let item = Several.bilibili_episode env Several.mainland in
    let other = Several.bilibili_episode env Several.hong_kong_macau_taiwan in
    follow-IsJudged item other item.status (bilibili_episode-IsJudged env Several.mainland)
      (bilibili_episode-IsJudged env Several.hong_kong_macau_taiwan)

netflix_verdict-IsJudged :
    (env : Env) (item : Item) (a b : ℕ) → IsJudged (Several.netflix_verdict env item a b)
unfolding Several.netflix_verdict
netflix_verdict-IsJudged env item a b = if-IsJudged (a == 404 && b == 404) _ _ refl (
    if-IsJudged (a == 403 || b == 403) _ _ refl (
      if-IsJudged (Several.netflix_served a || Several.netflix_served b) _ _ refl
        (status_from_code-judged a)))

netflix_titles-IsJudged : (env : Env) → IsJudged (Several.netflix_titles env)
unfolding Several.netflix_titles
netflix_titles-IsJudged env =
    let one = get env "https://www.netflix.com/title/81280792" 0 in
    let two = get env "https://www.netflix.com/title/70143836" 0 in
    one_request one _ (λ r.
      one_request two _
        (λ r'. netflix_verdict-IsJudged env (item_from one) r.status_code r'.status_code))

cdn_payload-IsJudged :
    (item : Item) (countries : Option (List Text)) → IsJudged (Several.cdn_payload item countries)
cdn_payload-IsJudged item none = refl
cdn_payload-IsJudged item (some []) = refl
cdn_payload-IsJudged item (some (c ∷ cs)) = refl

netflix_from_cdn-IsJudged : (env : Env) → IsJudged (Several.netflix_from_cdn env)
unfolding Several.netflix_from_cdn
netflix_from_cdn-IsJudged env =
    one_request
      (get env
        "https://api.fast.com/netflix/speedtest/v2?https=true&token=YXNkZmFzZGxmbnNkYWZoYXNkZmhrYWxm&urlCount=5"
        small_max_body)
      _
      (λ r. if-IsJudged (r.status_code == 403) _ _ refl (
        cdn_payload-IsJudged
          (item_from (
            get env
              "https://api.fast.com/netflix/speedtest/v2?https=true&token=YXNkZmFzZGxmbnNkYWZoYXNkZmhrYWxm&urlCount=5"
              small_max_body))
          (env.target_countries r.body)))

abbrev unless_known : Item → Item → Status → Item
unless_known item other available = item
unless_known item other blocked = item
unless_known item other _ = other

unless_known-IsJudged :
    (item other : Item) (s : Status)
    → IsJudged item
    → IsJudged other
    → IsJudged (unless_known item other s)
unless_known-IsJudged item other s p q = elim s as (λ k. IsJudged (unless_known item other k)) [
  | available ↦ p
  | blocked ↦ p
  | _ ↦ q
]

pub check_netflix-IsJudged : (env : Env) → IsJudged (Several.check_netflix env)
unfolding Several.check_netflix
check_netflix-IsJudged env =
    let item = Several.netflix_from_cdn env in
    unless_known-IsJudged item (Several.netflix_titles env) item.status
      (netflix_from_cdn-IsJudged env) (netflix_titles-IsJudged env)

support_status-judged : (value : Text) → is_blank (Disney.support_status value) ≡ false
unfolding Disney.support_status
support_status-judged value =
    if-judged (equal value (bytes "true")) _ _ refl
      (if-judged (equal value (bytes "false")) _ _ refl refl)

abbrev located : Item → Text → Text → Item
located item value [] = record item { status = unavailable }
located item value (c ∷ s) = record item { region = c ∷ s; status = Disney.support_status value }

located-IsJudged : (item : Item) (value region : Text) → IsJudged (located item value region)
located-IsJudged item value [] = refl
located-IsJudged item value (c ∷ s) = support_status-judged value

session_verdict-IsJudged :
    (item : Item) (r : ProbeResult) → IsJudged (Disney.session_verdict item r)
unfolding Disney.session_verdict
session_verdict-IsJudged item r = if-IsJudged (is_empty r.body || leb 400 r.status_code) _ _ refl (
    located-IsJudged item (first_submatch Disney.disney_supported_pattern r.body)
      (normalize_region (first_submatch (Rules.quoted "countryCode" Rules.until_quote) r.body)))

option-IsJudged :
    (o : Option ProbeResult) (i : Item) (verdict : ProbeResult → Item)
    → IsJudged i
    → ((p : ProbeResult) → IsJudged (verdict p))
    → IsJudged (elim o [ none ↦ i | some p ↦ verdict p ])
option-IsJudged none i verdict h g = h
option-IsJudged (some p) i verdict h g = g p

ask_session-IsJudged :
    (env : Env) (item : Item) (refresh : Text) → IsJudged (Disney.ask_session env item refresh)
unfolding Disney.ask_session
ask_session-IsJudged env item [] = refl
ask_session-IsJudged env item (c ∷ s) =
    option-IsJudged (answered (send env (Disney.session_request (c ∷ s)))) _ _ refl
      (session_verdict-IsJudged item)

ask_token-IsJudged :
    (env : Env) (item : Item) (assertion : Text) → IsJudged (Disney.ask_token env item assertion)
unfolding Disney.ask_token
ask_token-IsJudged env item [] = refl
ask_token-IsJudged env item (c ∷ s) = one_request (send env (Disney.token_request (c ∷ s))) _ (λ r.
    if-IsJudged
      (contains r.body (bytes "forbidden-location") || contains r.body (bytes "403 ERROR")) _ _ refl
      (ask_session-IsJudged env item
        (first_submatch (Rules.quoted "refresh_token" Rules.until_quote) r.body)))

pub check_disney_plus-IsJudged : (env : Env) → IsJudged (Disney.check_disney_plus env)
unfolding Disney.check_disney_plus
check_disney_plus-IsJudged env = one_request (send env Disney.device_request) _ (λ r.
    if-IsJudged (r.status_code == 403) _ _ refl (
      ask_token-IsJudged env (item_from (send env Disney.device_request))
        (first_submatch (Rules.quoted "assertion" Rules.until_quote) r.body)))
