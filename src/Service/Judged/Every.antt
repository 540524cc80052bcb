-- ===== src/Service/Judged/Every.antt =====
-- Every item of a sweep has a verdict.
use yu_clash.Prelude.{
  ℕ, suc, ◌≡◌, refl, subst, Option, none, some, String, List, [], ◌∷◌, All, inl, inr, Bool-cases,
  Option-cases, str_eq, arith,
}
use yu_clash.Service.{Env, Item}
use yu_clash.Service.Judged.{
  IsJudged, if-IsJudged, check_reachable-IsJudged, check_claude-IsJudged, check_gemini-IsJudged,
  check_youtube-IsJudged, check_spotify-IsJudged, check_tiktok-IsJudged, check_discord-IsJudged,
  check_prime_video-IsJudged,
}
use yu_clash.Service.Judged.Several.{
  check_chatgpt-IsJudged, check_netflix-IsJudged, check_bilibili-IsJudged,
  check_disney_plus-IsJudged,
}
use yu_clash.Service.Sweep.{
  ServiceChecker, service_checkers, find_checker, wanted_checkers, selected_checkers, Run, Stamped,
  recovered, retried, judged, run_service_check, sweep, handle_service_check,
}

Judges : ServiceChecker → Type 0
Judges c = (env : Env) → IsJudged (c.check env)

service_checkers-Judges : All Judges service_checkers
unfolding service_checkers Judges
service_checkers-Judges = (
  check_reachable-IsJudged _,
  (
    check_reachable-IsJudged _,
    (
      check_youtube-IsJudged,
      (
        check_chatgpt-IsJudged,
        (
          check_claude-IsJudged,
          (
            check_gemini-IsJudged,
            (
              check_netflix-IsJudged,
              (
                check_disney_plus-IsJudged,
                (
                  check_prime_video-IsJudged,
                  (
                    check_spotify-IsJudged,
                    (
                      check_tiktok-IsJudged,
                      (check_discord-IsJudged, (check_bilibili-IsJudged, tt)),
                    ),
                  ),
                ),
              ),
            ),
          ),
        ),
      ),
    ),
  ),
)

find_checker-Judges :
    (checkers : List ServiceChecker) (name : String) (c : ServiceChecker)
    → All Judges checkers
    → find_checker checkers name ≡ some c
    → Judges c
unfolding find_checker
find_checker-Judges [] name c h e = ground (arith, e)
find_checker-Judges (d ∷ ds) name c (h, hs) e = elim (Bool-cases (str_eq d.name name)) [
  | inl t ↦ subst Judges (ground (arith, t, e)) h
  | inr t ↦ find_checker-Judges ds name c hs (ground (arith, t, e))
]

wanted_checkers-Judges :
    (checkers : List ServiceChecker) (names : List String)
    → All Judges checkers
    → All Judges (wanted_checkers checkers names)
unfolding wanted_checkers
wanted_checkers-Judges checkers [] h = tt
wanted_checkers-Judges checkers (name ∷ names) h =
    let rest = wanted_checkers-Judges checkers names h in
    elim (Option-cases (find_checker checkers name)) [
      | inl e ↦ subst (All Judges) (ground (arith, e)) rest
      | inr (c, e) ↦
          subst (All Judges) {x = c ∷ wanted_checkers checkers names} (ground (arith, e))
            (both c e rest)
    ]
  where
    both :
        (c : ServiceChecker)
        → find_checker checkers name ≡ some c
        → All Judges (wanted_checkers checkers names)
        → All Judges (c ∷ wanted_checkers checkers names)
    both c e rest = (find_checker-Judges checkers name c h e, rest)

selected_checkers-Judges :
    (checkers : List ServiceChecker) (names : List String)
    → All Judges checkers
    → All Judges (selected_checkers checkers names)
unfolding selected_checkers
selected_checkers-Judges checkers [] h = h
selected_checkers-Judges checkers (name ∷ names) h =
    wanted_checkers-Judges checkers (name ∷ names) h

IsJudged-recovered :
    (item : Option Item) → ((i : Item) → item ≡ some i → IsJudged i) → IsJudged (recovered item)
unfolding recovered
IsJudged-recovered none h = refl
IsJudged-recovered (some i) h = h i refl

retried-IsJudged :
    (c : ServiceChecker) (run : Run) (first item : Item)
    → Judges c
    → IsJudged first
    → retried c run first ≡ some item
    → IsJudged item
unfolding retried Judges
retried-IsJudged c run first item h j e = ground (arith, e, j, h run.attempt_two)

judged-IsJudged :
    (c : ServiceChecker) (run : Run) (item : Item)
    → Judges c
    → judged c run ≡ some item
    → IsJudged item
unfolding judged Judges
judged-IsJudged c run item h e = elim (Bool-cases run.panics_one) [
  | inl p ↦ ground (arith, e, p)
  | inr p ↦
      retried-IsJudged c run (c.check run.attempt_one) item h (h run.attempt_one)
        (ground (arith, e, p))
]

recovered-judged : (c : ServiceChecker) (run : Run) → Judges c → IsJudged (recovered (judged c run))
recovered-judged c run h = IsJudged-recovered (judged c run) (λ i e. judged-IsJudged c run i h e)

abbrev pub HasVerdict : Stamped → Type 0
HasVerdict s = IsJudged s.item

sweep-HasVerdict :
    (checkers : List ServiceChecker) (run : ℕ → Run) (index : ℕ)
    → All Judges checkers
    → All HasVerdict (sweep checkers run index)
unfolding sweep run_service_check
sweep-HasVerdict [] run index h = tt
sweep-HasVerdict (c ∷ cs) run index (h, hs) = (
  if-IsJudged (run index).is_cancelled _ _ refl (recovered-judged c (run index) h),
  sweep-HasVerdict cs run (suc index) hs,
)

-- Whatever services are asked for, whatever the network answers, and whichever attempts panic, no item of the sweep has the blank status:
-- every rule judges its service on all of its branches, also behind a retry, a panic or a cancelled context.
pub no_blank_item :
    (names : List String) (run : ℕ → Run) → All HasVerdict (handle_service_check names run)
unfolding handle_service_check
no_blank_item names run =
    sweep-HasVerdict (selected_checkers service_checkers names) run 0
      (selected_checkers-Judges service_checkers names service_checkers-Judges)
