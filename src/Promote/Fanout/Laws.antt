-- ===== src/Promote/Fanout/Laws.antt =====
-- What `run_fanout` and `run_matched` of commands/promote/fanout.py collect, when they cancel, and
-- what they leave in the ledger.
use lab_charts.Base.{
  ℕ, zero, suc, Bool, true, false, not, ◌&&◌, ◌||◌, Option, none, some, List, [], ◌∷◌, ◌++◌, map,
  append_assoc, append-nil, all, any, leb, ◌≡◌, refl, sym, ◌∙◌, arith, Text, contains, ◌==◌,
}
use lab_charts.Events.Model.{PromotionPhase, promoted}
use lab_charts.Promote.State.{
  Verdict, is_passing, run_verdict, Stage, rollout, helm_test, verdict_beq, verdict_eq,
  terminal_phases,
}
use lab_charts.Promote.State.Verdicts.{
  run_verdict_passing, run_verdict_cases, all_passing_eq, without_severe_eq,
}
use lab_charts.Promote.Status.{HelmReleaseRef}
use lab_charts.Promote.Fanout.{
  Completion, returned, known_error, crashed, interrupted, Raised, same_error, crash_error,
  interrupt, Fanout, RunResult, RunEnd, finished_run, raised_run, run_ok, is_nil, run_fanout, idle,
}

abbrev pub is_raised : Option Raised → Bool
is_raised none = false
is_raised (some r) = true

module _ {O : Type 0} where
  -- The outcomes that were handed out before the first completion that raises.
  abbrev pub before_raise : List (Completion O × ℕ) → List (O × ℕ)
  before_raise [] = []
  before_raise ((returned o, now) ∷ rest) = (o, now) ∷ before_raise rest
  before_raise (_ ∷ rest) = []

  abbrev pub first_raise : Text → List (Completion O × ℕ) → Option Raised
  first_raise label [] = none
  first_raise label ((returned o, now) ∷ rest) = first_raise label rest
  first_raise label ((known_error e, now) ∷ rest) = some (same_error e)
  first_raise label ((crashed e, now) ∷ rest) = some (crash_error label e)
  first_raise label ((interrupted, now) ∷ rest) = some interrupt

module _ {O : Type 0} (ref : O → HelmReleaseRef) (verdict : O → Verdict) (label : Text)
    (deadline : ℕ) (cancel_on : O → Bool) where
  abbrev cancels : O × ℕ → Bool
  cancels p = cancel_on p.0 || leb deadline p.1

  abbrev fan : List (Completion O × ℕ) → Fanout O → Fanout O
  fan = run_fanout ref verdict label deadline cancel_on

  fanout_outcomes :
      (cs : List (Completion O × ℕ)) (f : Fanout O)
      → (fan cs f).outcomes ≡ f.outcomes ++ map (λ (p : O × ℕ). p.0) (before_raise cs)
  unfolding run_fanout
  fanout_outcomes [] f = sym (append-nil f.outcomes)
  fanout_outcomes ((returned o, now) ∷ rest) f =
      fanout_outcomes rest _ ∙ append_assoc f.outcomes (o ∷ []) _
  fanout_outcomes ((known_error e, now) ∷ rest) f = sym (append-nil f.outcomes)
  fanout_outcomes ((crashed e, now) ∷ rest) f = sym (append-nil f.outcomes)
  fanout_outcomes ((interrupted, now) ∷ rest) f = sym (append-nil f.outcomes)

  fanout_cancelled :
      (cs : List (Completion O × ℕ)) (f : Fanout O)
      → (fan cs f).cancelled
        ≡ (f.cancelled || (any cancels (before_raise cs) || is_raised (first_raise label cs)))
  unfolding run_fanout any
  fanout_cancelled [] f = ground arith
  fanout_cancelled ((returned o, now) ∷ rest) f = fanout_cancelled rest _ ∙ ground arith
  fanout_cancelled ((known_error e, now) ∷ rest) f = ground arith
  fanout_cancelled ((crashed e, now) ∷ rest) f = ground arith
  fanout_cancelled ((interrupted, now) ∷ rest) f = ground arith

  fanout_raised :
      (cs : List (Completion O × ℕ)) (f : Fanout O)
      → f.raised ≡ none
      → (fan cs f).raised ≡ first_raise label cs
  unfolding run_fanout
  fanout_raised [] f h = h
  fanout_raised ((returned o, now) ∷ rest) f h = fanout_raised rest _ h
  fanout_raised ((known_error e, now) ∷ rest) f h = refl
  fanout_raised ((crashed e, now) ∷ rest) f h = refl
  fanout_raised ((interrupted, now) ∷ rest) f h = refl

  -- The loop keeps exactly the outcomes handed out before the first raise, in their order, the one
  -- that cancels the run included; it raises what that completion raises; and the run counts as
  -- cancelled exactly when an outcome asked for it, a reading of the clock passed the deadline, or
  -- something was raised.
  pub run_fanout_collects :
      (completions : List (Completion O × ℕ))
      → let f = run_fanout ref verdict label deadline cancel_on completions (idle ref verdict) in
        (f.outcomes ≡ map (λ (p : O × ℕ). p.0) (before_raise completions))
        × (f.raised ≡ first_raise label completions)
        × (f.cancelled ≡ (
            any (λ (p : O × ℕ). cancel_on p.0 || leb deadline p.1) (before_raise completions)
            || is_raised (first_raise label completions)))
  run_fanout_collects cs = (fanout_outcomes cs _, fanout_raised cs _ refl, fanout_cancelled cs _)

abbrev nonempty : List Verdict → Bool
nonempty [] = false
nonempty (v ∷ vs) = true

-- The verdict of an all-green run of a stage: what `monitor.run` and `test.run` pass as `success`.
abbrev pub success_of : Stage → Verdict
success_of rollout = Verdict.ready
success_of helm_test = Verdict.passed

abbrev is_helm_test : Stage → Bool
is_helm_test rollout = false
is_helm_test helm_test = true

abbrev pub is_promoted : PromotionPhase → Bool
is_promoted promoted = true
is_promoted _ = false

passed_exactly :
    (vs : List Verdict)
    → (run_verdict vs Verdict.passed == Verdict.passed)
      ≡ (all is_passing vs && not (nonempty vs && all (λ w. w == Verdict.skipped_suspended) vs))
unfolding verdict_beq
passed_exactly [] = unfold run_verdict contains all in refl
passed_exactly (v ∷ vs) = ground (
  arith,
  run_verdict_cases (v ∷ vs) Verdict.passed,
  all_passing_eq (v ∷ vs),
  without_severe_eq v vs Verdict.passed,
)

promoted_terminal :
    (v : Verdict) → any is_promoted (terminal_phases helm_test v) ≡ (v == Verdict.passed)
unfolding terminal_phases any verdict_beq
promoted_terminal v = ground arith

not-promoted_rollout : (v : Verdict) → any is_promoted (terminal_phases rollout v) ≡ false
unfolding terminal_phases any
not-promoted_rollout v = ground arith

-- A finished run closes with PROMOTED exactly when it is the helm-test stage, every release passed,
-- and not every one of them was merely suspended.
pub promoted_exactly :
    (stage : Stage) (verdicts : List Verdict)
    → any is_promoted (terminal_phases stage (run_verdict verdicts (success_of stage))) ≡ (
        is_helm_test stage
        && (all is_passing verdicts
            && not (nonempty verdicts && all (λ w. w == Verdict.skipped_suspended) verdicts)))
promoted_exactly rollout vs = not-promoted_rollout _
promoted_exactly helm_test vs = promoted_terminal _ ∙ passed_exactly vs

module _ {O : Type 0} (ref : O → HelmReleaseRef) (verdict : O → Verdict) where
  all-map : (xs : List O) → all is_passing (map verdict xs) ≡ all (λ o. is_passing (verdict o)) xs
  unfolding all
  all-map [] = refl
  all-map (x ∷ xs) = rw (all-map xs)

  -- The exit outcome and the ledger agree: a run is reported as a success exactly when it has
  -- outcomes and the verdict that its last events are chosen by is a passing one.
  pub run_ok-run_verdict :
      (r : RunResult O) (success : Verdict)
      → is_passing success ≡ true
      → run_ok ref verdict r
        ≡ (not (is_nil r.outcomes) && is_passing (run_verdict (map verdict r.outcomes) success))
  unfolding run_ok
  run_ok-run_verdict r success h =
      rw (run_verdict_passing (map verdict r.outcomes) success h, all-map r.outcomes)

  -- the phases that close a run
  abbrev pub closing : Stage → Verdict → RunEnd O → List PromotionPhase
  closing stage success (finished_run r) =
      terminal_phases stage (run_verdict (map verdict r.outcomes) success)
  closing stage success (raised_run interrupt) = []
  closing stage success (raised_run _) = terminal_phases stage Verdict.failed

  abbrev pub if_matched : ℕ → List PromotionPhase → List PromotionPhase
  if_matched zero ps = []
  if_matched (suc m) ps = ps
