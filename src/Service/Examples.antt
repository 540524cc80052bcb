-- ===== src/Service/Examples.antt =====
-- Runs of checks, and the theorems on them.
use yu_clash.Prelude.{
  ◌==◌, ℕ, ◌≡◌, refl, true, false, Option, none, some, List, [], ◌∷◌, All, string_equality,
  nat_equality,
}
use yu_clash.Prelude.Maps.{lookup, insert, without}
use yu_clash.Text.{Text, bytes}
use yu_clash.Service.{ProbeResult, ProbeRequest, no_error, Env, available}
use yu_clash.Service.Rules.{check_claude}
use yu_clash.Service.Sweep.{Run, handle_service_check}
use yu_clash.Service.Judged.Every.{HasVerdict, no_blank_item}
use yu_clash.Service.Claims.{Step, claims_one, releases, steps, no_claims, claims_are_exclusive}

abbrev answer : Text → ProbeRequest → Option ProbeResult
answer body req = some (record {
  error = no_error;
  status_code = 200;
  delay = 30;
  chains = [];
  url = [];
  body = body;
  location = none;
})

abbrev trace_env : Env
trace_env = record {
  run_probe = answer (bytes "ip=1.1.1.1\nloc=jp\ntls=on");
  parse_path = λ url. none;
  target_countries = λ body. none;
}

abbrev one_run : ℕ → Run
one_run index = record {
  epoch = 1;
  version = 2;
  is_cancelled = false;
  attempt_one = trace_env;
  attempt_two = trace_env;
  panics_one = index == 1;
  panics_two = false;
  has_budget = true;
  now = 9;
  recorded = [];
}

claude_in_japan : (check_claude trace_env).region ≡ bytes "JP"
unfolding check_claude yu_clash.Text.trim_left yu_clash.Text.split yu_clash.Text.cut_prefix
claude_in_japan = refl

claude_is_open : (check_claude trace_env).status ≡ available
unfolding check_claude yu_clash.Text.trim_left yu_clash.Text.split yu_clash.Text.cut_prefix
claude_is_open = refl

no_blank_item_example :
    All HasVerdict (handle_service_check ("claude" ∷ "unknown" ∷ "google" ∷ []) one_run)
no_blank_item_example = no_blank_item ("claude" ∷ "unknown" ∷ "google" ∷ []) one_run

abbrev asked_twice : List Step
asked_twice =
    claims_one "claude" ∷ claims_one "google" ∷ claims_one "claude" ∷ releases "claude" 0 ∷ []

claims_are_exclusive_example :
    (◌≡◌ {A = ℕ} 2 2) × (lookup "claude" (steps asked_twice no_claims).claims ≡ some 2)
unfolding steps lookup insert without
claims_are_exclusive_example = claims_are_exclusive asked_twice "claude" 2 2 live live
  where
    live : lookup 2 (steps asked_twice no_claims).live ≡ some "claude"
    live = refl
