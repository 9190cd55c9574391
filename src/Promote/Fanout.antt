-- ===== src/Promote/Fanout.antt =====
-- commands/promote/fanout.py: how a stage collects the outcomes of its workers, cancels their peers
-- and reports the run. The completions stand in the order in which `as_completed` hands them out,
-- each with the reading of the clock that follows it; which order the threads take is not decided
-- here. Times are natural numbers of milliseconds, and the clock does not run backwards.
pub mod Laws
use lab_charts.Base.{
  ℕ, ◌+◌, ◌-◌, Bool, true, false, not, ◌&&◌, ◌||◌, Option, none, some, List, [], ◌∷◌, ◌++◌, map,
  all, keep, nat_eq, list_eq, ◌==◌, leb, length, drop, sorted, text_leb, if◌then◌else◌, Text,
}
use lab_charts.Plumbing.ExitCodes.{Outcome}
use lab_charts.Promote.State.{Verdict, is_passing, run_verdict, Stage, Transition}
use lab_charts.Promote.Status.{HelmReleaseRef}
use lab_charts.Promote.Telemetry.{PromotionTelemetry, Ledger, started, finished}

abbrev pub transitions_max : ℕ
transitions_max = 5

-- `append` on a `deque(maxlen=TRANSITIONS_MAX)`
unfoldable pub push : List Transition → Transition → List Transition
push transitions t =
    let longer = transitions ++ t ∷ [] in drop (length longer - transitions_max) longer

-- tuples of texts compare by their first difference
unfoldable pub ref_leb : HelmReleaseRef → HelmReleaseRef → Bool
ref_leb a b =
    if a.namespace == b.namespace then text_leb a.name b.name else text_leb a.namespace b.namespace

-- what one future gives: a worker's outcome, an expected failure, a crash, or Ctrl-C
pub data Completion (O : Type 0) : Type 0 where
  returned : O → Completion O
  known_error : Text → Completion O
  crashed : Text → Completion O
  interrupted : Completion O

-- what `run_fanout` raises: the expected error itself, a ChartManagerError about the crash, or the
-- interrupt
pub data Raised : Type 0 where
  same_error : Text → Raised
  crash_error : (label cause : Text) → Raised
  interrupt : Raised

pub record Fanout (O : Type 0) : Type 0 where
  pub outcomes : List O
  pub cancelled : Bool
  pub raised : Option Raised

pub record RunResult (O : Type 0) : Type 0 where
  pub chart : Text
  pub version : Text
  pub outcomes : List O
  pub total_duration : ℕ
  pub total_timed_out : Bool

pub data RunEnd (O : Type 0) : Type 0 where
  finished_run : RunResult O → RunEnd O
  raised_run : Raised → RunEnd O

abbrev pub is_nil {ℓ} : {A : Type ℓ} → List A → Bool
is_nil [] = true
is_nil (x ∷ xs) = false

module _ {O : Type 0} (ref : O → HelmReleaseRef) (verdict : O → Verdict) where
  -- `RunResult.ok`
  unfoldable pub run_ok : RunResult O → Bool
  run_ok r = not (is_nil r.outcomes) && all (λ o. is_passing (verdict o)) r.outcomes

  -- `RunResult.outcome`
  unfoldable pub run_outcome : RunResult O → Outcome
  run_outcome r = if run_ok r then Outcome.success else Outcome.failed

  -- `RunResult.failures`
  unfoldable pub failures : List O → List O
  failures outcomes = keep (λ o. not (is_passing (verdict o))) outcomes

  unfoldable pub sorted_by_ref : List O → List O
  sorted_by_ref outcomes = sorted (λ a b. ref_leb (ref a) (ref b)) outcomes

  -- one turn of the loop over `as_completed`; the outcome is kept before the run is cancelled
  unfoldable pub take_outcome : ℕ → (O → Bool) → O → ℕ → Fanout O → Fanout O
  take_outcome total_deadline cancel_on o now f = record f {
    outcomes = f.outcomes ++ o ∷ [];
    cancelled = f.cancelled || (cancel_on o || leb total_deadline now);
  }

  abbrev stop_run : Raised → Fanout O → Fanout O
  stop_run r f = record f { cancelled = true; raised = some r }

  unfoldable pub run_fanout :
      (crash_label : Text) (total_deadline : ℕ)
      → (O → Bool)
      → List (Completion O × ℕ)
      → Fanout O
      → Fanout O
  unfolding take_outcome
  run_fanout label deadline cancel_on [] f = f
  run_fanout label deadline cancel_on ((returned o, now) ∷ rest) f =
      run_fanout label deadline cancel_on rest (take_outcome deadline cancel_on o now f)
  run_fanout label deadline cancel_on ((known_error e, now) ∷ rest) f = stop_run (same_error e) f
  run_fanout label deadline cancel_on ((crashed e, now) ∷ rest) f = stop_run (crash_error label e) f
  run_fanout label deadline cancel_on ((interrupted, now) ∷ rest) f = stop_run interrupt f

  abbrev pub idle : Fanout O
  idle = record { outcomes = []; cancelled = false; raised = none }

-- The arguments of `run_matched` that stay the same through a run.
pub record Run (O : Type 0) : Type 0 where
  pub start : ℕ
  pub total_deadline : ℕ
  pub telemetry : PromotionTelemetry
  pub stage : Stage
  pub success : Verdict
  pub no_match : ℕ → O
  pub crash_label : Text
  pub chart_name : Text
  pub version : Text
  pub cancel_on : O → Bool

module _ {O : Type 0} (ref : O → HelmReleaseRef) (verdict : O → Verdict) where
  no_match_result : Run O → ℕ → RunEnd O
  no_match_result r elapsed = finished_run (record {
    chart = r.chart_name;
    version = r.version;
    outcomes = r.no_match elapsed ∷ [];
    total_duration = elapsed;
    total_timed_out = false;
  })

  -- after the loop: the interval is closed unless the run was interrupted
  unfoldable pub conclude :
      Run O → (matched elapsed : ℕ) → Fanout O → Option Raised → Ledger → RunEnd O × Ledger
  conclude r matched elapsed f (some interrupt) ledger = (raised_run interrupt, ledger)
  conclude r matched elapsed f (some e) ledger = (
    raised_run e,
    finished r.telemetry r.stage Verdict.failed matched (matched - length f.outcomes) ledger,
  )
  conclude r matched elapsed f none ledger =
      let outcomes = sorted_by_ref ref verdict f.outcomes in
      (
        finished_run (record {
          chart = r.chart_name;
          version = r.version;
          outcomes = outcomes;
          total_duration = elapsed;
          total_timed_out = f.cancelled;
        }),
        finished r.telemetry r.stage (run_verdict (map verdict outcomes) r.success)
            (length outcomes) (length (failures ref verdict outcomes)) ledger,
      )

  -- `now` is the clock at the end of the run; there is one completion for each matched release, or
  -- fewer if one of them raises.
  unfoldable pub run_matched :
      Run O → (matched : ℕ) → List (Completion O × ℕ) → (now : ℕ) → Ledger → RunEnd O × Ledger
  unfolding no_match_result conclude run_fanout
  run_matched r ℕ.zero completions now ledger = (no_match_result r (now - r.start), ledger)
  run_matched r (ℕ.suc m) completions now ledger =
      let f =
        run_fanout ref verdict r.crash_label r.total_deadline r.cancel_on completions
          (idle ref verdict) in
      conclude r (ℕ.suc m) (now - r.start) f f.raised (started r.telemetry r.stage (ℕ.suc m) ledger)
