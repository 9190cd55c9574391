-- ===== src/Promote/Classify/Laws.antt =====
-- What `classify` of commands/promote/classify.py decides, on every branch.
use lab_charts.Base.{
  ◌≤◌, Bool, true, false, not, ◌&&◌, ◌||◌, Option, none, some, List, [], ◌∷◌, map, ◌≡◌, refl, arith,
  ◌==◌, nat_eq, list_eq, list_beq, keep, all, length, length-take, if◌then◌else◌, Text, text,
  sorted, text_leb, sorted-ne-nil, beq_false, Bool-cases, inl, inr,
}
use lab_charts.Promote.State.{Verdict, is_terminal_ready_reason, detail_max, cut}
use lab_charts.Promote.Status.{
  ConditionSnapshot, HelmReleaseStatus, condition, WorkloadRollout, ready, released, test_success,
}
use lab_charts.Promote.Classify.{
  Decision, Terminal, terminal, waiting, status_is, stop, suspended_stop, stalled_stop, ready_stop,
  test_stop, converged_hr, not_converged_names, phase_detail, workload_name, converging, classify,
  or_else,
}

-- What a decision shows: its verdict if it ends the watch, its detail, and whether it asks for
-- the workloads.
abbrev pub verdict_of : Decision → Option Verdict
verdict_of (terminal t) = some t.verdict
verdict_of (waiting w) = none

abbrev pub detail_of : Decision → Text
detail_of (terminal t) = t.detail
detail_of (waiting w) = w.detail

abbrev pub needs_workloads : Decision → Bool
needs_workloads (terminal t) = false
needs_workloads (waiting w) = w.needs_workloads

abbrev ready_fails : Option ConditionSnapshot → Bool
ready_fails none = false
ready_fails (some c) = c.status == text "False" && is_terminal_ready_reason c.reason

-- Stalled=True, or Ready=False for a reason that Flux will not retry, or a failed test of a
-- release that is out.
abbrev pub has_failed : HelmReleaseStatus → Bool
has_failed s =
    status_is (condition s (text "Stalled")) (text "True")
    || (ready_fails (ready s)
        || (status_is (test_success s) (text "False") && status_is (released s) (text "True")))

abbrev all_converged : Option (List WorkloadRollout) → Bool
all_converged none = false
all_converged (some ws) = all (λ w. w.converged) ws

-- The release reports the requested version as converged, and so does every workload.
abbrev pub rolled_out : HelmReleaseStatus → Text → Option (List WorkloadRollout) → Bool
rolled_out s version workloads = converged_hr s version && all_converged workloads

keep-not-eq-nil :
    (ws : List WorkloadRollout)
    → (sorted text_leb (map workload_name (keep (λ w. not w.converged) ws)) == [])
      ≡ all (λ w. w.converged) ws
unfolding all keep workload_name
keep-not-eq-nil [] = unfold sorted list_beq in refl
keep-not-eq-nil (w ∷ ws) = elim (Bool-cases w.converged) [
  | inl e ↦ rw e (keep-not-eq-nil ws)
  | inr e ↦ rw e (
      beq_false _ _ (
        sorted-ne-nil text_leb (workload_name w)
          (map workload_name (keep (λ v. not v.converged) ws))))
]

abbrev stop_verdict : Option Terminal → Option Verdict
stop_verdict none = none
stop_verdict (some t) = some t.verdict

abbrev stop_detail : Option Terminal → Text
stop_detail none = []
stop_detail (some t) = t.detail

stop_verdict-stop :
    (s : HelmReleaseStatus)
    → stop_verdict (stop s) ≡ (
        if s.suspended
        then some Verdict.skipped_suspended
        else if has_failed s
        then some Verdict.failed
        else none)
unfolding stop status_is
stop_verdict-stop s = ground arith

length-cut-le : (t : Text) → length (cut t) ≤ detail_max
unfolding cut
length-cut-le t = omega (arith, length-take detail_max t)

record IsCapped (t : Option Terminal) : Type 0 where
  capped : length (stop_detail t) ≤ detail_max

or_else-IsCapped : {a b : Option Terminal} → IsCapped a → IsCapped b → IsCapped (or_else a b)
unfolding or_else
or_else-IsCapped {a = none} ha hb = hb
or_else-IsCapped {a = some t} ha hb = ha

suspended_stop-IsCapped : (s : HelmReleaseStatus) → IsCapped (suspended_stop s)
unfolding suspended_stop text
suspended_stop-IsCapped s = ground arith

stalled_stop-IsCapped : (c : Option ConditionSnapshot) → IsCapped (stalled_stop c)
unfolding stalled_stop
stalled_stop-IsCapped none = omega arith
stalled_stop-IsCapped (some c) = ground (arith, length-cut-le c.message)

ready_stop-IsCapped : (c : Option ConditionSnapshot) → IsCapped (ready_stop c)
unfolding ready_stop
ready_stop-IsCapped none = omega arith
ready_stop-IsCapped (some c) = ground (arith, length-cut-le c.message)

test_stop-IsCapped : (c r : Option ConditionSnapshot) → IsCapped (test_stop c r)
unfolding test_stop
test_stop-IsCapped none r = omega arith
test_stop-IsCapped (some c) r = ground (arith, length-cut-le c.message)

stop_detail_bound : (s : HelmReleaseStatus) → IsCapped (stop s)
unfolding stop
stop_detail_bound s = search (
  or_else-IsCapped, suspended_stop-IsCapped, stalled_stop-IsCapped, ready_stop-IsCapped,
  test_stop-IsCapped,
)

module _ (s : HelmReleaseStatus) (version : Text) where
  converging_verdict :
      (workloads : Option (List WorkloadRollout))
      → verdict_of (converging s version workloads)
        ≡ (if rolled_out s version workloads then some Verdict.ready else none)
  unfolding converging not_converged_names
  converging_verdict none = ground arith
  converging_verdict (some ws) = ground (arith, keep-not-eq-nil ws)

  -- The verdict of every status: a suspended release is skipped, whatever else it shows; else a
  -- stalled, unrecoverable or test-failing one has failed; else it is ready exactly when the
  -- release and all its workloads have converged; else the watch goes on.
  pub classify_verdict :
      (workloads : Option (List WorkloadRollout))
      → verdict_of (classify s version workloads) ≡ (
          if s.suspended
          then some Verdict.skipped_suspended
          else if has_failed s
          then some Verdict.failed
          else if rolled_out s version workloads
          then some Verdict.ready
          else none)
  unfolding classify
  classify_verdict workloads = ground (arith, stop_verdict-stop s, converging_verdict workloads)

  -- Workloads that a decision did not ask for do not change it.
  pub classify_unasked :
      (ws : List WorkloadRollout)
      → needs_workloads (classify s version none) ≡ false
      → classify s version (some ws) ≡ classify s version none
  unfolding classify not_converged_names
  classify_unasked ws h = ground arith

  -- Workloads that a decision asked for settle it: the release is ready exactly when all of them
  -- have converged, and otherwise the watch goes on and asks for nothing more.
  pub classify_reread :
      (ws : List WorkloadRollout)
      → needs_workloads (classify s version none) ≡ true
      → (verdict_of (classify s version (some ws))
          ≡ (if all (λ w. w.converged) ws then some Verdict.ready else none))
        × (needs_workloads (classify s version (some ws)) ≡ false)
  unfolding classify not_converged_names
  classify_reread ws h = (ground (arith, keep-not-eq-nil ws), ground arith)

  phase_detail_bound : (pending : List Text) → length (phase_detail s version pending) ≤ detail_max
  unfolding phase_detail
  phase_detail_bound pending = length-cut-le _

  converging_bound :
      (workloads : Option (List WorkloadRollout))
      → length (detail_of (converging s version workloads)) ≤ detail_max
  unfolding converging text
  converging_bound workloads =
      ground (arith, phase_detail_bound (not_converged_names (converged_hr s version) workloads))

  -- No detail of a decision is longer than its cap.
  pub classify_detail_bound :
      (workloads : Option (List WorkloadRollout))
      → length (detail_of (classify s version workloads)) ≤ detail_max
  unfolding classify
  classify_detail_bound workloads =
      ground (arith, (stop_detail_bound s).capped, converging_bound workloads)
