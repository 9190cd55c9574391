-- ===== src/Promote/Monitor/Watch.antt =====
-- `_Watcher.watch` and `_finalize` of commands/promote/monitor.py: a whole watch, from the status
-- that the matching fetched to its outcome. The text of the diagnostics (`_compose_diagnostics`) is
-- not modelled: `diagnose` stands for it, and for the kubectl calls that it makes.
pub mod Laws
use lab_charts.Base.{
  ℕ, zero, suc, ◌+◌, ◌-◌, Bool, true, false, Option, none, some, List, [], min, Text, nat_eq, ◌==◌,
  if◌then◌else◌, ◌||◌,
}
use lab_charts.Promote.State.{
  Verdict, verdict_eq, is_passing, Reason, ReasonLike, member, Transition,
}
use lab_charts.Promote.Status.{HelmReleaseRef, HelmReleaseStatus, WorkloadRollout}
use lab_charts.Promote.Action.{Result, ok, raised, out_of_fuel}
use lab_charts.Promote.World.{World, Context, WatchState}
use lab_charts.Promote.Monitor.{Target, End, poll_until_terminal}

pub record MonitorOutcome : Type 0 where
  pub ref : HelmReleaseRef
  pub verdict : Verdict
  pub reason : ReasonLike
  pub last_status : Option HelmReleaseStatus
  pub last_workloads : List WorkloadRollout
  pub transitions : List Transition
  pub diagnostics : Option Text
  pub duration : ℕ

-- `_no_match_outcome`, with NO_MATCH_REF
unfoldable pub no_match_outcome : HelmReleaseRef → ℕ → MonitorOutcome
no_match_outcome no_match_ref elapsed = record {
  ref = no_match_ref;
  verdict = Verdict.no_match;
  reason = member Reason.no_helmreleases_matched;
  last_status = none;
  last_workloads = [];
  transitions = [];
  diagnostics = none;
  duration = elapsed;
}

-- `_fail_fast_predicate`
unfoldable pub fail_fast_predicate : Bool → MonitorOutcome → Bool
fail_fast_predicate false o = false
fail_fast_predicate true o = o.verdict == Verdict.failed || o.verdict == Verdict.timed_out

-- the fields of a MonitorRequest that a watch reads
pub record WatchRequest : Type 0 where
  pub version : Text
  pub per_poll : ℕ
  pub per_hr : ℕ
  pub total_deadline : ℕ

module _ (e : World) where
  abbrev pub Diagnose : Type 0
  Diagnose = WatchState → Verdict → ReasonLike → e.Outside → Text × e.Outside

  -- `hr_deadline=min(started_mono + per_hr_timeout_seconds, total_deadline)`
  abbrev pub target : WatchRequest → HelmReleaseRef → ℕ → Target
  target q ref started = record {
    ref = ref;
    version = q.version;
    per_poll = q.per_poll;
    hr_deadline = min (started + q.per_hr) q.total_deadline;
    total_deadline = q.total_deadline;
  }

  abbrev pub initial_context : HelmReleaseStatus → e.Outside → Context e
  initial_context initial w = record {
    state = record {
      transitions = [];
      last_status = some initial;
      last_workloads = [];
      prev_signature = none;
    };
    outside = w;
  }

  -- The elapsed time is read before the diagnostics run; a passing verdict has none.
  unfoldable pub finalize :
      Diagnose → HelmReleaseRef → ℕ → End → Context e → MonitorOutcome × e.Outside
  finalize diagnose ref started (verdict, reason) c =
      let after = e.clock c.outside in
      let (report, diagnosed) = diagnose c.state verdict reason after in
      let outcome = λ (diagnostics : Option Text).
        let o : MonitorOutcome = record {
          ref = ref;
          verdict = verdict;
          reason = reason;
          last_status = c.last_status;
          last_workloads = c.last_workloads;
          transitions = c.transitions;
          diagnostics = diagnostics;
          duration = e.now c.outside - started;
        } in
        o in
      if is_passing verdict then (outcome none, after) else (outcome (some report), diagnosed)

  finish :
      Diagnose → HelmReleaseRef → ℕ → Result End → Context e → Result MonitorOutcome × e.Outside
  finish diagnose ref started (ok end) c =
      let (o, w) = finalize diagnose ref started end c in (ok o, w)
  finish diagnose ref started (raised x) c = (raised x, c.outside)
  finish diagnose ref started out_of_fuel c = (out_of_fuel, c.outside)

  unfoldable pub watch :
      Diagnose
      → ℕ
      → WatchRequest
      → HelmReleaseStatus
      → e.Outside
      → Result MonitorOutcome × e.Outside
  unfolding finish
  watch diagnose fuel q initial w =
      let started = e.now w in
      let (end, c) =
        poll_until_terminal e (target q initial.ref started) fuel initial
          (initial_context initial (e.clock w)) in
      finish diagnose initial.ref started end c
