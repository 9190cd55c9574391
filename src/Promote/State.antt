-- ===== src/Promote/State.antt =====
-- commands/promote/state.py: verdicts, reasons and the tables that read them. An enum is a data type;
-- a table is a function by clauses.
pub mod Verdicts
use lab_charts.Base.{
  ℕ, Bool, true, false, not, ◌&&◌, Option, none, some, List, [], ◌∷◌, ◌≡◌, ◌↔◌, arith, Eq, nat_eq,
  list_eq, ◌==◌, any, all, contains, take, if◌then◌else◌, Text, text,
}
use lab_charts.Plumbing.ExitCodes.{Outcome}
use lab_charts.Events.Model.{
  PromotionPhase, flux_pr_open, awaiting_merge, waiting_rollout, rollout_ok, helm_test_run,
  helm_test_ok, helm_test_failed, promoted, abandoned,
}

pub data Verdict : Type 0 where
  ready passed failed timed_out skipped_suspended skipped_not_ready no_match : Verdict

unfoldable pub verdict_beq : Verdict → Verdict → Bool
verdict_beq ready ready = true
verdict_beq passed passed = true
verdict_beq failed failed = true
verdict_beq timed_out timed_out = true
verdict_beq skipped_suspended skipped_suspended = true
verdict_beq skipped_not_ready skipped_not_ready = true
verdict_beq no_match no_match = true
verdict_beq _ _ = false

pub verdict_beq_iff : (a b : Verdict) → (verdict_beq a b ≡ true) ↔ (a ≡ b)
unfolding verdict_beq
verdict_beq_iff a b = ground arith

instance abbrev pub verdict_eq : Eq Verdict
verdict_eq = record { beq = verdict_beq; reflects = verdict_beq_iff }

-- the value of a member
unfoldable pub verdict_value : Verdict → Text
verdict_value ready = text "ready"
verdict_value passed = text "passed"
verdict_value failed = text "failed"
verdict_value timed_out = text "timed-out"
verdict_value skipped_suspended = text "skipped-suspended"
verdict_value skipped_not_ready = text "skipped-not-ready"
verdict_value no_match = text "no-match"

-- PASSING_VERDICTS, as `Verdict.is_passing`
unfoldable pub is_passing : Verdict → Bool
is_passing ready = true
is_passing passed = true
is_passing skipped_suspended = true
is_passing _ = false

pub data Reason : Type 0 where
  no_helmreleases_matched suspended total_budget_exhausted per_hr_budget_exhausted : Reason
  ready disappeared stalled : Reason
  not_released generation_lag reap_list_failed test_pod_in_flight reap_incomplete : Reason
  helm_unavailable test_pod_conflict all_tests_passed no_tests_defined test_failed : Reason
  install_failed upgrade_failed reconciliation_failed artifact_failed retry_exhausted : Reason

-- the value of a `Reason` member
unfoldable pub reason_value : Reason → Text
unfolding text
reason_value no_helmreleases_matched = text "NoHelmReleasesMatched"
reason_value suspended = text "Suspended"
reason_value total_budget_exhausted = text "TotalBudgetExhausted"
reason_value per_hr_budget_exhausted = text "PerHRBudgetExhausted"
reason_value Reason.ready = text "Ready"
reason_value disappeared = text "Disappeared"
reason_value stalled = text "Stalled"
reason_value not_released = text "NotReleased"
reason_value generation_lag = text "GenerationLag"
reason_value reap_list_failed = text "ReapListFailed"
reason_value test_pod_in_flight = text "TestPodInFlight"
reason_value reap_incomplete = text "ReapIncomplete"
reason_value helm_unavailable = text "HelmUnavailable"
reason_value test_pod_conflict = text "TestPodConflict"
reason_value all_tests_passed = text "AllTestsPassed"
reason_value no_tests_defined = text "NoTestsDefined"
reason_value test_failed = text "TestFailed"
reason_value install_failed = text "InstallFailed"
reason_value upgrade_failed = text "UpgradeFailed"
reason_value reconciliation_failed = text "ReconciliationFailed"
reason_value artifact_failed = text "ArtifactFailed"
reason_value retry_exhausted = text "RetryExhausted"

-- the members of `Reason`, in the order of the class
abbrev pub reasons : List Reason
reasons =
    no_helmreleases_matched ∷ suspended ∷ total_budget_exhausted ∷ per_hr_budget_exhausted
    ∷ Reason.ready ∷ disappeared ∷ stalled ∷ not_released ∷ generation_lag ∷ reap_list_failed
    ∷ test_pod_in_flight ∷ reap_incomplete ∷ helm_unavailable ∷ test_pod_conflict ∷ all_tests_passed
    ∷ no_tests_defined ∷ test_failed ∷ install_failed ∷ upgrade_failed ∷ reconciliation_failed
    ∷ artifact_failed ∷ retry_exhausted ∷ []

-- A reason is a member, or a text that Flux wrote.
pub data ReasonLike : Type 0 where
  member : Reason → ReasonLike
  raw : Text → ReasonLike

-- the text that a `ReasonLike` compares and prints as
unfoldable pub reason_text : ReasonLike → Text
reason_text (member r) = reason_value r
reason_text (raw t) = t

-- TERMINAL_READY_REASONS
abbrev pub terminal_ready_reasons : List Reason
terminal_ready_reasons =
    install_failed ∷ upgrade_failed ∷ reconciliation_failed ∷ artifact_failed ∷ retry_exhausted ∷ []

-- `value in TERMINAL_READY_REASONS`: members compare equal to their values
unfoldable pub is_terminal_ready_reason : Text → Bool
unfolding any
is_terminal_ready_reason value = any (λ r. value == reason_value r) terminal_ready_reasons

-- `Reason(value)`: the member with that value
unfoldable pub reason_of : Text → List Reason → ReasonLike
reason_of value [] = raw value
reason_of value (r ∷ rs) = if value == reason_value r then member r else reason_of value rs

unfoldable pub coerce_reason : Text → ReasonLike
unfolding reason_of
coerce_reason value = reason_of value reasons

pub data Stage : Type 0 where
  rollout helm_test : Stage

-- the value of a member
unfoldable pub stage_value : Stage → Text
stage_value rollout = text "rollout"
stage_value helm_test = text "helm-test"

-- START_PHASE
unfoldable pub start_phase : Stage → PromotionPhase
start_phase rollout = waiting_rollout
start_phase helm_test = helm_test_run

-- TERMINAL_PHASES; a pair that the table lacks has no phase
unfoldable pub terminal_phases : Stage → Verdict → List PromotionPhase
terminal_phases rollout ready = rollout_ok ∷ []
terminal_phases rollout failed = abandoned ∷ []
terminal_phases rollout timed_out = abandoned ∷ []
terminal_phases helm_test passed = helm_test_ok ∷ promoted ∷ []
terminal_phases helm_test failed = helm_test_failed ∷ []
terminal_phases helm_test timed_out = helm_test_failed ∷ []
terminal_phases _ _ = []

abbrev pub severity_order : List Verdict
severity_order = failed ∷ timed_out ∷ no_match ∷ skipped_not_ready ∷ []

-- the loop over _SEVERITY: the first verdict of the order that was seen
unfoldable pub first_seen : List Verdict → List Verdict → Option Verdict
first_seen seen [] = none
first_seen seen (v ∷ order) = if contains seen v then some v else first_seen seen order

abbrev is_empty : List Verdict → Bool
is_empty [] = true
is_empty (v ∷ vs) = false

-- With no severe verdict: every release suspended, or a success. `seen` stands for its set.
unfoldable pub without_severe : List Verdict → Verdict → Verdict
unfolding all
without_severe seen success =
    if not (is_empty seen) && all (λ w. w == skipped_suspended) seen
    then skipped_suspended
    else success

unfoldable pub run_verdict : List Verdict → Verdict → Verdict
unfolding first_seen without_severe
run_verdict verdicts success = elim (first_seen verdicts severity_order) [
  | some v ↦ v
  | none ↦ without_severe verdicts success
]

pub data PromoteStatus : Type 0 where
  no_changes dry_run aborted already_open pr_opened pushed : PromoteStatus

-- PROMOTE_PHASE
unfoldable pub promote_phase : PromoteStatus → Option PromotionPhase
promote_phase aborted = some abandoned
promote_phase already_open = some awaiting_merge
promote_phase pr_opened = some flux_pr_open
promote_phase pushed = some flux_pr_open
promote_phase _ = none

-- PROMOTE_OUTCOME
unfoldable pub promote_outcome : PromoteStatus → Outcome
promote_outcome aborted = Outcome.failed
promote_outcome _ = Outcome.success

pub record Transition : Type 0 where
  pub at : ℕ
  pub phase : Text
  pub detail : Text

abbrev pub detail_max : ℕ
detail_max = 200

-- `detail[:DETAIL_MAX]`
unfoldable pub cut : Text → Text
cut detail = take detail_max detail
