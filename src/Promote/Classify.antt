-- ===== src/Promote/Classify.antt =====
-- commands/promote/classify.py: is a release done, and if not, what is it waiting on.
pub mod Laws
use lab_charts.Base.{
  ℕ, Bool, true, false, not, ◌&&◌, Option, none, some, List, [], ◌∷◌, ◌++◌, map, nat_eq, list_eq,
  option_eq, ◌==◌, keep, length, if◌then◌else◌, Text, text, join, show, sorted, text_leb,
}
use lab_charts.Promote.State.{
  Verdict, Reason, ReasonLike, member, coerce_reason, is_terminal_ready_reason, cut,
}
use lab_charts.Promote.Status.{
  ConditionSnapshot, HelmReleaseStatus, condition, WorkloadRollout, ready, released, test_success,
}

pub record Terminal : Type 0 where
  pub verdict : Verdict
  pub reason : ReasonLike
  pub phase : Text
  pub detail : Text

-- The tuples that a watch compares to keep one transition of each situation. `pending` stands for
-- a frozenset.
pub data Signature : Type 0 where
  waiting_on :
      (ready_status ready_reason : Text) (observed_generation : ℕ) (pending : List Text) → Signature
  poll_error : Text → Signature
  poll_error_workloads : Text → Signature

pub record Waiting : Type 0 where
  pub phase : Text
  pub detail : Text
  pub signature : Signature
  pub needs_workloads : Bool

pub data Decision : Type 0 where
  terminal : Terminal → Decision
  waiting : Waiting → Decision

-- `cond is not None and cond.status == value`
unfoldable pub status_is : Option ConditionSnapshot → Text → Bool
status_is none value = false
status_is (some c) value = c.status == value

suspended_stop : HelmReleaseStatus → Option Terminal
suspended_stop s =
    if s.suspended
    then some (record {
      verdict = Verdict.skipped_suspended;
      reason = member Reason.suspended;
      phase = text "Suspended";
      detail = text "HR spec.suspend=true";
    })
    else none

stalled_stop : Option ConditionSnapshot → Option Terminal
stalled_stop none = none
stalled_stop (some stalled) =
    if stalled.status == text "True"
    then some (record {
      verdict = Verdict.failed;
      reason = member Reason.stalled;
      phase = text "Stalled";
      detail = cut stalled.message;
    })
    else none

ready_stop : Option ConditionSnapshot → Option Terminal
ready_stop none = none
ready_stop (some cond) =
    if cond.status == text "False" && is_terminal_ready_reason cond.reason
    then some (record {
      verdict = Verdict.failed;
      reason = coerce_reason cond.reason;
      phase = text "Ready=False:" ++ cond.reason;
      detail = cut cond.message;
    })
    else none

-- TestSuccess=False counts only once Released=True.
test_stop : Option ConditionSnapshot → Option ConditionSnapshot → Option Terminal
test_stop none released = none
test_stop (some test) released =
    if test.status == text "False" && status_is released (text "True")
    then some (record {
      verdict = Verdict.failed;
      reason = if test.reason == [] then member Reason.test_failed else coerce_reason test.reason;
      phase = text "TestSuccess=False";
      detail = cut test.message;
    })
    else none

or_else : Option Terminal → Option Terminal → Option Terminal
or_else (some t) later = some t
or_else none later = later

-- the early returns of `classify`, in their order
unfoldable pub stop : HelmReleaseStatus → Option Terminal
unfolding suspended_stop stalled_stop ready_stop test_stop or_else
stop s = or_else (suspended_stop s) (
    or_else (stalled_stop (condition s (text "Stalled")))
      (or_else (ready_stop (ready s)) (test_stop (test_success s) (released s))))

unfoldable pub phase_label : Text → Text → Bool → Bool → List Text → Text
phase_label ready_status ready_reason gen_caught_up history_matches pending =
    if not gen_caught_up
    then text "GenerationLag"
    else if not history_matches
    then text "HistoryLag"
    else if not (ready_status == text "True")
    then (if ready_reason == []
        then text "WaitingForReady"
        else text "WaitingForReady:" ++ ready_reason)
    else if not (pending == [])
    then text "WaitingForWorkloads:" ++ show (length pending)
    else text "Ready"

-- an optional value in an f-string
show_option : Option Text → Text
show_option none = text "None"
show_option (some t) = t

ready_bit : Option ConditionSnapshot → List Text
ready_bit none = []
ready_bit (some c) = (text "ready=" ++ (c.status ++ (text "(" ++ (c.reason ++ text ")")))) ∷ []

pending_bit : List Text → List Text
pending_bit [] = []
pending_bit (n ∷ ns) = (text "pending=[" ++ (join (text ",") (n ∷ ns) ++ text "]")) ∷ []

unfoldable pub phase_detail : HelmReleaseStatus → Text → List Text → Text
unfolding show_option ready_bit pending_bit
phase_detail s requested_version pending = cut (
    join (text " ") (
      (text "obs-gen=" ++ (show s.observed_generation ++ (text "/" ++ show s.generation)))
      ∷ (text "history=" ++ show_option s.history_chart_version)
      ∷ (text "requested=" ++ requested_version)
      ∷ (ready_bit (ready s) ++ pending_bit pending)))

ready_status : Option ConditionSnapshot → Text
ready_status none = text "Unknown"
ready_status (some c) = c.status

ready_reason : Option ConditionSnapshot → Text
ready_reason none = []
ready_reason (some c) = c.reason

workload_name : WorkloadRollout → Text
workload_name w =
    w.workload.kind ++ (text "/" ++ (w.workload.namespace ++ (text "/" ++ w.workload.name)))

-- `gen_caught_up and history_matches and ready_true`
unfoldable pub converged_hr : HelmReleaseStatus → Text → Bool
converged_hr s requested_version =
    s.observed_generation == s.generation
    && (s.history_chart_version == some requested_version && status_is (ready s) (text "True"))

-- `not_converged_names`; empty unless the release has converged and its workloads were read
unfoldable pub not_converged_names : Bool → Option (List WorkloadRollout) → List Text
unfolding workload_name
not_converged_names true (some ws) =
    sorted text_leb (map workload_name (keep (λ w. not w.converged) ws))
not_converged_names _ _ = []

abbrev pub is_none {ℓ} : {A : Type ℓ} → Option A → Bool
is_none none = true
is_none (some a) = false

abbrev ready_terminal : Terminal
ready_terminal = record {
  verdict = Verdict.ready;
  reason = member Reason.ready;
  phase = text "Ready";
  detail = text "HR Ready=True and all workloads converged";
}

still_waiting :
    HelmReleaseStatus → Text → Option (List WorkloadRollout) → Bool → List Text → Waiting
unfolding ready_status ready_reason
still_waiting s requested_version workloads converged pending = record {
  phase =
      phase_label (ready_status (ready s)) (ready_reason (ready s))
        (s.observed_generation == s.generation) (s.history_chart_version == some requested_version)
        pending;
  detail = phase_detail s requested_version pending;
  signature =
      waiting_on (ready_status (ready s)) (ready_reason (ready s)) s.observed_generation pending;
  needs_workloads = converged && is_none workloads;
}

-- what follows the early returns
unfoldable pub converging : HelmReleaseStatus → Text → Option (List WorkloadRollout) → Decision
unfolding still_waiting
converging s requested_version workloads =
    let converged = converged_hr s requested_version in
    let pending = not_converged_names converged workloads in
    if (converged && not (is_none workloads)) && pending == []
    then terminal ready_terminal
    else waiting (still_waiting s requested_version workloads converged pending)

unfoldable pub classify : HelmReleaseStatus → Text → Option (List WorkloadRollout) → Decision
unfolding stop converging
classify s requested_version workloads = elim (stop s) [
  | some t ↦ terminal t
  | none ↦ converging s requested_version workloads
]
