-- ===== src/Service/Sweep.antt =====
-- core/service_check.go: the checkers, their selection, and a check with its retry and its stamp.
use yu_clash.Prelude.{
  ℕ, suc, Bool, true, false, ◌&&◌, Option, none, some, String, List, [], ◌∷◌, str_eq, if◌then◌else◌,
}
use yu_clash.Route.Exits.{RouteHit}
use yu_clash.Service.{Status, timeout, failed, Env, Item, bare, check_reachable}
use yu_clash.Service.Rules.{
  check_youtube, check_claude, check_gemini, check_prime_video, check_spotify, check_tiktok,
  check_discord,
}
use yu_clash.Service.Rules.Several.{check_chatgpt, check_netflix, check_bilibili}
use yu_clash.Service.Rules.Disney.{check_disney_plus}

pub record ServiceChecker : Type 0 where
  pub name : String
  pub check : Env → Item

abbrev rule : String → (Env → Item) → ServiceChecker
rule name check = record { name = name; check = check }

unfoldable pub service_checkers : List ServiceChecker
unfolding check_reachable check_youtube check_chatgpt check_claude check_gemini check_netflix
    check_disney_plus check_prime_video check_spotify check_tiktok check_discord check_bilibili
service_checkers =
    rule "google" (check_reachable "https://www.google.com/generate_204")
    ∷ rule "github" (check_reachable "https://github.com/")
    ∷ rule "youtube" check_youtube
    ∷ rule "chatgpt" check_chatgpt
    ∷ rule "claude" check_claude
    ∷ rule "gemini" check_gemini
    ∷ rule "netflix" check_netflix
    ∷ rule "disney-plus" check_disney_plus
    ∷ rule "prime-video" check_prime_video
    ∷ rule "spotify" check_spotify
    ∷ rule "tiktok" check_tiktok
    ∷ rule "discord" check_discord
    ∷ rule "bilibili" check_bilibili
    ∷ []

unfoldable pub find_checker : List ServiceChecker → String → Option ServiceChecker
find_checker [] name = none
find_checker (c ∷ cs) name =
    let rest = find_checker cs name in if str_eq c.name name then some c else rest

unfoldable pub wanted_checkers : List ServiceChecker → List String → List ServiceChecker
unfolding find_checker
wanted_checkers checkers [] = []
wanted_checkers checkers (name ∷ names) = elim (find_checker checkers name) [
  | some c ↦ c ∷ wanted_checkers checkers names
  | none ↦ wanted_checkers checkers names
]

-- `selectedCheckers`.
unfoldable pub selected_checkers : List ServiceChecker → List String → List ServiceChecker
unfolding wanted_checkers
selected_checkers checkers [] = checkers
selected_checkers checkers (name ∷ names) = wanted_checkers checkers (name ∷ names)

-- `ServiceCheckItem` with its stamp.
pub record Stamped : Type 0 where
  pub name : String
  pub item : Item
  pub checked_at : ℕ
  pub core_epoch : ℕ
  pub route_version : ℕ
  pub hits : List RouteHit

-- What a check meets: the route's stamp at its start, whether its context is cancelled, the network in the
-- first and in the second attempt and whether the rule panics there, the budget left between them, the clock and the recorder at its end.
pub record Run : Type 0 where
  pub epoch : ℕ
  pub version : ℕ
  pub is_cancelled : Bool
  pub attempt_one : Env
  pub attempt_two : Env
  pub panics_one : Bool
  pub panics_two : Bool
  pub has_budget : Bool
  pub now : ℕ
  pub recorded : List RouteHit

abbrev pub is_timeout : Status → Bool
is_timeout timeout = true
is_timeout _ = false

-- A call of a rule; `none` is a panic.
abbrev pub attempted : Bool → Item → Option Item
attempted panics item = if panics then none else some item

-- The deferred function: a panic leaves a failed item.
unfoldable pub recovered : Option Item → Item
recovered none = bare failed
recovered (some item) = item

-- The second attempt of a check whose first one ran out of time.
unfoldable pub retried : ServiceChecker → Run → Item → Option Item
retried c run item =
    if is_timeout item.status && run.has_budget
    then attempted run.panics_two (c.check run.attempt_two)
    else some item

unfoldable pub judged : ServiceChecker → Run → Option Item
unfolding retried
judged c run = elim (attempted run.panics_one (c.check run.attempt_one)) [
  | none ↦ none
  | some item ↦ retried c run item
]

-- `runServiceCheck`.
unfoldable pub run_service_check : ServiceChecker → Run → Stamped
unfolding judged recovered
run_service_check c run = record {
  name = c.name;
  item = if run.is_cancelled then bare failed else recovered (judged c run);
  checked_at = run.now;
  core_epoch = run.epoch;
  route_version = run.version;
  hits = run.recorded;
}

-- The items of `handleServiceCheck`: every goroutine writes the place of its checker.
unfoldable pub sweep : List ServiceChecker → (ℕ → Run) → ℕ → List Stamped
unfolding run_service_check
sweep [] run index = []
sweep (c ∷ cs) run index = run_service_check c (run index) ∷ sweep cs run (suc index)

-- `handleServiceCheck`; claims and slots decide what each run meets.
unfoldable pub handle_service_check : List String → (ℕ → Run) → List Stamped
unfolding service_checkers selected_checkers sweep
handle_service_check names run = sweep (selected_checkers service_checkers names) run 0
