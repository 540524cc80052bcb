-- ===== src/Service/Judged.antt =====
-- No rule leaves the status of its item blank.
pub mod Several
pub mod Every
use yu_clash.Prelude.{
  ℕ, ◌≡◌, refl, ap, Bool, true, false, Option, none, some, String, List, [], ◌∷◌, inl, inr,
  Bool-cases, Option-cases, All, arith, leb, ltb, ◌==◌, if◌then◌else◌,
}
use yu_clash.Text.{Text, member}
use yu_clash.Region.{normalize_region, is_ascii_upper}
use yu_clash.Service.{
  Status, blank, available, unavailable, restricted, disallowed_isp, blocked, unsupported_region,
  originals_only, coming_soon, timeout, failed, ProbeResult, Env, Item, is_blank, item_from,
  trace_loc, html_max_body, small_max_body, answered, status_from_code, check_reachable, get, send,
  scan,
}
use yu_clash.Service.Rules

abbrev pub IsJudged : Item → Type 0
IsJudged item = is_blank item.status ≡ false

pub unanswered : (r : Option ProbeResult) → answered r ≡ none → IsJudged (item_from r)
unfolding answered item_from
unanswered none e = refl
unanswered (some r) e = ground (arith, e)

pub status_from_code-judged : (code : ℕ) → is_blank (status_from_code code) ≡ false
unfolding status_from_code
status_from_code-judged code = ground arith

module _ (r : Option ProbeResult) (verdict : ProbeResult → Item) where
  -- A rule of one request judges its item when its verdict does.
  pub one_request :
      ((p : ProbeResult) → IsJudged (verdict p))
      → IsJudged (elim (answered r) [ none ↦ item_from r | some p ↦ verdict p ])
  one_request h = elim (Option-cases (answered r)) [
    | inl e ↦ ground (arith, e, unanswered r e)
    | inr (p, e) ↦ ground (arith, e, h p)
  ]

pub check_reachable-IsJudged : (url : String) (env : Env) → IsJudged (check_reachable url env)
unfolding check_reachable
check_reachable-IsJudged url env =
    one_request (get env url 0) _ (λ r. status_from_code-judged r.status_code)

pub if-judged :
    (b : Bool) (s t : Status)
    → is_blank s ≡ false
    → is_blank t ≡ false
    → is_blank (if b then s else t) ≡ false
if-judged true s t p q = p
if-judged false s t p q = q

pub if-IsJudged : (b : Bool) (i j : Item) → IsJudged i → IsJudged j → IsJudged (if b then i else j)
if-IsJudged true i j p q = p
if-IsJudged false i j p q = q

claude_verdict-IsJudged :
    (item : Item) (region : Text) → IsJudged (Rules.claude_verdict item region)
unfolding Rules.claude_verdict
claude_verdict-IsJudged item [] = refl
claude_verdict-IsJudged item (c ∷ s) =
    if-judged (member (c ∷ s) Rules.claude_blocked_regions) _ _ refl refl

pub check_claude-IsJudged : (env : Env) → IsJudged (Rules.check_claude env)
unfolding Rules.check_claude
check_claude-IsJudged env =
    one_request (get env "https://claude.ai/cdn-cgi/trace" small_max_body) _ (λ r.
      claude_verdict-IsJudged (item_from (get env "https://claude.ai/cdn-cgi/trace" small_max_body))
        (normalize_region (trace_loc r.body)))

gemini_verdict-IsJudged :
    (item : Item) (code : Option Text) → IsJudged (Rules.gemini_verdict item code)
unfolding Rules.gemini_verdict
gemini_verdict-IsJudged item none = refl
gemini_verdict-IsJudged item (some code) =
    if-IsJudged (is_ascii_upper code) _ _
      (if-judged (member code Rules.gemini_blocked_regions) _ _ refl refl) refl

pub check_gemini-IsJudged : (env : Env) → IsJudged (Rules.check_gemini env)
unfolding Rules.check_gemini
check_gemini-IsJudged env =
    one_request (Rules.gemini_page env) _
      (λ r. gemini_verdict-IsJudged (item_from (Rules.gemini_page env)) (Rules.gemini_code r.body))

pub check_youtube-IsJudged : (env : Env) → IsJudged (Rules.check_youtube env)
unfolding Rules.check_youtube Rules.youtube_status
check_youtube-IsJudged env =
    one_request (get env "https://www.youtube.com/premium?hl=en" html_max_body) _
      (λ r. ground (arith, status_from_code-judged r.status_code))

spotify_status-judged : (r : ProbeResult) → is_blank (Rules.spotify_status r) ≡ false
unfolding Rules.spotify_status
spotify_status-judged r = ground (arith, status_from_code-judged r.status_code)

pub check_spotify-IsJudged : (env : Env) → IsJudged (Rules.check_spotify env)
unfolding Rules.check_spotify
check_spotify-IsJudged env =
    one_request
      (get env "https://www.spotify.com/api/content/v1/country-selector?platform=web&format=json"
        small_max_body)
      _ spotify_status-judged

tiktok_status-judged : (r : ProbeResult) → is_blank (Rules.tiktok_status r) ≡ false
unfolding Rules.tiktok_status
tiktok_status-judged r = ground arith

pub check_tiktok-IsJudged : (env : Env) → IsJudged (Rules.check_tiktok env)
unfolding Rules.check_tiktok
check_tiktok-IsJudged env =
    one_request (scan env "https://www.tiktok.com/" _) _ tiktok_status-judged

pub check_discord-IsJudged : (env : Env) → IsJudged (Rules.check_discord env)
unfolding Rules.check_discord
check_discord-IsJudged env =
    one_request (get env "https://discord.com/api/v9/auth/location-metadata" small_max_body) _
      (λ r. status_from_code-judged r.status_code)

prime_verdict-IsJudged : (item : Item) (body : Text) → IsJudged (Rules.prime_verdict item body)
unfolding Rules.prime_verdict
prime_verdict-IsJudged item body = ground arith

pub check_prime_video-IsJudged : (env : Env) → IsJudged (Rules.check_prime_video env)
unfolding Rules.check_prime_video
check_prime_video-IsJudged env =
    one_request (Rules.prime_page env) _
      (λ r. prime_verdict-IsJudged (item_from (Rules.prime_page env)) r.body)
