-- ===== src/Promote/Monitor/Watch/Laws.antt =====
-- A whole watch (`_Watcher.watch` of commands/promote/monitor.py): it ends within its budget, and
-- its outcome says why.
use lab_charts.Base.{
  ℕ, suc, ◌+◌, ◌-◌, ◌*◌, ◌≤◌, ◌<◌, true, Option, some, List, [], length, ◌≡◌, ◌≢◌, refl, ◌⊎◌, inl,
  inr, arith, Bool-cases, subst,
}
use lab_charts.Promote.State.{Verdict, Reason, member, ReasonLike, is_passing}
use lab_charts.Promote.Status.{HelmReleaseRef, HelmReleaseStatus, WorkloadRollout}
use lab_charts.Promote.Classify.{is_none}
use lab_charts.Promote.Fanout.{transitions_max}
use lab_charts.Promote.Action.{Result, ok, raised, out_of_fuel}
use lab_charts.Promote.Action.Triples.{Holds}
use lab_charts.Promote.World.{World, Context, IsMonotonic}
use lab_charts.Promote.Monitor.{End, Target, poll_interval, poll_until_terminal}
use lab_charts.Promote.Monitor.Explained.{Cause, Done, Explained}
use lab_charts.Promote.Monitor.Ends.{poll_until_terminal-Done}
use lab_charts.Promote.Monitor.Watch.{
  MonitorOutcome, WatchRequest, Diagnose, target, initial_context, finalize, finish, watch,
}

-- What an outcome says of a watch that began at `started`: the total budget is named when the run was
-- cancelled or has lasted up to the total deadline, the per-HR budget when the clock of a state in
-- that time was past it and before the total deadline; any other verdict shows in the last status
-- and the last workloads, or the release is gone.
abbrev pub Why :
    (e : World)
    → WatchRequest
    → (started : ℕ) → Verdict
    → ReasonLike
    → Option HelmReleaseStatus
    → List WorkloadRollout
    → (duration : ℕ) → Type 0
Why e q started Verdict.timed_out reason last workloads duration =
    ((reason ≡ member Reason.total_budget_exhausted)
      × (((w : e.Outside) × ((e.cancel_is_set w).0 ≡ true) × (e.now w - started ≤ duration))
          ⊎ (q.total_deadline - started ≤ duration)))
    ⊎ ((reason ≡ member Reason.per_hr_budget_exhausted)
        × (w : e.Outside) × (started + q.per_hr ≤ e.now w)
        × (e.now w < q.total_deadline)
        × (e.now w - started ≤ duration))
Why e q started v reason last workloads duration =
    ((v ≡ Verdict.failed) × (reason ≡ member Reason.disappeared))
    ⊎ ((s : HelmReleaseStatus) × (last ≡ some s) × Cause q.version s workloads v)

-- An outcome that is explained, keeps at most five transitions, and carries diagnostics exactly
-- when its verdict does not pass.
pub record IsJudged (e : World) (q : WatchRequest) (started : ℕ) (o : MonitorOutcome) : Type 0 where
  pub why : Why e q started o.verdict o.reason o.last_status o.last_workloads o.duration
  pub bounded : length o.transitions ≤ transitions_max
  pub diagnosed : is_none o.diagnostics ≡ is_passing o.verdict

abbrev Judged : World → WatchRequest → ℕ → Result MonitorOutcome → Type 0
Judged e q started (ok o) = IsJudged e q started o
Judged e q started (raised x) = Unit
Judged e q started out_of_fuel = ⊥

module _ (e : World) (mono : IsMonotonic e) (diagnose : Diagnose e) (q : WatchRequest) where
  module _ (ref : HelmReleaseRef) (started : ℕ) where
    abbrev goal : Target
    goal = target e q ref started

    Why-of :
        (v : Verdict) (reason : ReasonLike) (c : Context e)
        → Explained e mono goal v reason c
        → Why e q started v reason c.last_status c.last_workloads (e.now c.outside - started)
    Why-of Verdict.timed_out reason c (inl (p, inl (v, set, past))) =
        inl (p, inl (v, set, omega arith))
    Why-of Verdict.timed_out reason c (inl (p, inr late)) = inl (p, inr (omega arith))
    Why-of Verdict.timed_out reason c (inr (p, (v, late, early, past))) =
        inr (p, v, omega arith, early, omega arith)
    Why-of _ reason c h = h

    finalize-IsJudged :
        (end : End) (c : Context e)
        → Done e mono goal end c
        → IsJudged e q started (finalize e diagnose ref started end c).0
    unfolding finalize
    finalize-IsJudged (v, reason) c d = elim (Bool-cases (is_passing v)) [
      | inl p ↦
          rw p (record { why = Why-of v reason c d.why; bounded = d.bounded; diagnosed = rw p })
      | inr p ↦
          rw p (record { why = Why-of v reason c d.why; bounded = d.bounded; diagnosed = rw p })
    ]

    finish-Judged :
        (r : Result End) (c : Context e)
        → Holds ⊥ (Done e mono goal) r c
        → Judged e q started (finish e diagnose ref started r c).0
    unfolding finish
    finish-Judged (ok end) c h = finalize-IsJudged end c h
    finish-Judged (raised x) c h = tt
    finish-Judged out_of_fuel c h = h

  module _ (fuel : ℕ) (initial : HelmReleaseStatus) (w : e.Outside)
      (enough : q.per_hr ≤ poll_interval * fuel) where
    watch-Judged : Judged e q (e.now w) (watch e diagnose (suc fuel) q initial w).0
    unfolding watch
    watch-Judged =
        let started = e.now w in
        let g = target e q initial.ref started in
        let c = initial_context e initial (e.clock w) in
        let (r, c') = poll_until_terminal e g (suc fuel) initial c in
        finish-Judged initial.ref started r c' (
          (poll_until_terminal-Done e mono g fuel started initial [] (omega arith)).at c (record {
            later = mono.clock_later w;
            status_is = refl;
            workloads_are = refl;
            bounded = omega arith;
          }))

    -- With a clock that is never run backwards and sleeps that last as long as they were asked to:
    -- one turn for each poll interval of the per-HR budget, and one more, is enough fuel: the watch
    -- gives an outcome, or an exception that it does not handle passes through.
    pub watch_ends : (watch e diagnose (suc fuel) q initial w).0 ≢ out_of_fuel
    watch_ends h = subst (Judged e q (e.now w)) h watch-Judged

    -- With such a clock and that fuel, every outcome of a watch is explained. READY means that the
    -- last status reports the requested version as converged, is neither suspended nor failed, and
    -- that all workloads last listed have converged; FAILED and SKIPPED_SUSPENDED show in the last
    -- status, unless the release is gone. A timeout that names the total budget was cancelled, or
    -- lasted up to the total deadline; one that names the per-HR budget has seen that budget used up
    -- in a state whose clock was still before the total deadline. Diagnostics are
    -- there exactly when the verdict does not pass, and at most five transitions are kept.
    pub watch_explained :
        (o : MonitorOutcome)
        → (watch e diagnose (suc fuel) q initial w).0 ≡ ok o
        → IsJudged e q (e.now w) o
    watch_explained o h = subst (Judged e q (e.now w)) h watch-Judged
