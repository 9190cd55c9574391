-- ===== src/Promote/Tests/Runs.antt =====
-- Runs of a promotion stage, and what they may be asked for, at concrete inputs.
use lab_charts.Base.{
  ℕ, true, false, some, List, [], ◌∷◌, all, any, leb, ◌≡◌, refl, arith, Text, text, Memᴰ, ◌⊎◌,
}
use lab_charts.Promote.State.{verdict_beq}
use lab_charts.Promote.State.{Verdict, is_passing, run_verdict, helm_test, terminal_phases}
use lab_charts.Promote.State.Verdicts.{severity, run_verdict_worst}
use lab_charts.Promote.Request.{millis, Limits, Budgets, IsSound}
use lab_charts.Promote.Status.{HelmReleaseRef}
use lab_charts.Promote.Telemetry.{PromotionTelemetry}
use lab_charts.Promote.Fanout.{
  Completion, returned, crashed, crash_error, RunResult, run_ok, run_fanout, idle, Run,
}
use lab_charts.Promote.Fanout.Laws.{
  run_fanout_collects, is_promoted, promoted_exactly, run_ok-run_verdict,
}

abbrev sample_verdicts : List Verdict
sample_verdicts = Verdict.ready ∷ Verdict.timed_out ∷ []

run_verdict_worst_example :
    (all
        (λ v. leb (severity v) (severity (run_verdict sample_verdicts Verdict.ready)))
        sample_verdicts
      ≡ true)
    × (Memᴰ (run_verdict sample_verdicts Verdict.ready) sample_verdicts
        ⊎ (run_verdict sample_verdicts Verdict.ready ≡ Verdict.ready))
run_verdict_worst_example =
    run_verdict_worst sample_verdicts Verdict.ready (unfold is_passing in refl)

abbrev sample_limits : Limits
sample_limits = record {
  chart_name = text "web";
  version = text "1.2.0";
  concurrency = 4;
  per_poll_timeout_seconds = millis 10000;
  per_hr_timeout_seconds = millis 60000;
  total_timeout_seconds = millis 90000;
  min_per_hr = 15000;
}

abbrev sample_budgets : Budgets
sample_budgets = record { per_poll = 10000; per_hr = 60000; total = 90000 }

sample_limits-IsSound : IsSound sample_limits sample_budgets
unfolding text
sample_limits-IsSound = record {
  named = λ h. cc;
  versioned = λ h. cc;
  workers = omega arith;
  poll = refl;
  hr = refl;
  whole = refl;
  poll_positive = omega arith;
  hr_positive = omega arith;
  hr_enough = omega arith;
  ordered = omega arith;
}

abbrev sample_ref : Text → HelmReleaseRef
sample_ref name = record {
  name = name;
  namespace = text "lab";
  api_version = text "v2";
  release_name = name;
  storage_namespace = text "lab";
  target_namespace = text "lab";
}

abbrev Sample : Type 0
Sample = HelmReleaseRef × Verdict

abbrev ref_of : Sample → HelmReleaseRef
ref_of o = o.0

abbrev verdict_of_sample : Sample → Verdict
verdict_of_sample o = o.1

abbrev sample_web : Sample
sample_web = (sample_ref (text "web"), Verdict.passed)

abbrev sample_api : Sample
sample_api = (sample_ref (text "api"), Verdict.passed)

abbrev sample_completions : List (Completion Sample × ℕ)
sample_completions = (returned sample_web, 10) ∷ (returned sample_api, 20) ∷ []

abbrev crashing_completions : List (Completion Sample × ℕ)
crashing_completions = (returned sample_web, 10) ∷ (crashed (text "boom"), 20) ∷ []

run_fanout_collects_example :
    let f =
      run_fanout ref_of verdict_of_sample
        (text "watcher")
        100
        (λ o. false)
        crashing_completions
        (idle ref_of verdict_of_sample) in
    (f.outcomes ≡ sample_web ∷ [])
    × (f.raised ≡ some (crash_error (text "watcher") (text "boom")))
    × (f.cancelled ≡ true)
unfolding any
run_fanout_collects_example =
    run_fanout_collects ref_of verdict_of_sample (text "watcher") 100 (λ o. false)
      crashing_completions

promoted_exactly_example :
    any is_promoted (
      terminal_phases helm_test
        (run_verdict (Verdict.passed ∷ Verdict.skipped_suspended ∷ []) Verdict.passed))
    ≡ true
unfolding all is_passing verdict_beq
promoted_exactly_example =
    promoted_exactly helm_test (Verdict.passed ∷ Verdict.skipped_suspended ∷ [])

abbrev sample_result : RunResult Sample
sample_result = record {
  chart = text "web";
  version = text "1.2.0";
  outcomes = sample_web ∷ sample_api ∷ [];
  total_duration = 30;
  total_timed_out = false;
}

run_ok-run_verdict_example :
    run_ok ref_of verdict_of_sample sample_result
    ≡ is_passing (run_verdict (Verdict.passed ∷ Verdict.passed ∷ []) Verdict.passed)
run_ok-run_verdict_example =
    run_ok-run_verdict ref_of verdict_of_sample sample_result Verdict.passed
      (unfold is_passing in refl)

abbrev sample_telemetry : PromotionTelemetry
sample_telemetry = record {
  writer = record { source = text "lab"; accepts = λ e. true };
  chart_name = text "web";
  version = text "1.2.0";
  environment = some (text "prod");
}

abbrev sample_run : Run Sample
sample_run = record {
  start = 0;
  total_deadline = 100;
  telemetry = sample_telemetry;
  stage = helm_test;
  success = Verdict.passed;
  no_match = λ n. sample_web;
  crash_label = text "tester";
  chart_name = text "web";
  version = text "1.2.0";
  cancel_on = λ o. false;
}
