-- ===== src/Promote/World.antt =====
-- What a watcher thread meets outside itself (commands/promote/monitor.py takes `sleep`, `clock`,
-- `rand`, `progress`, the cancel event and a `Kubectl` from its caller), and the thread's own state
-- `_WatchState`. An action may raise; what it wrote before the raise stays written. Times are
-- natural numbers of milliseconds.
use lab_charts.Base.{ℕ, ◌+◌, ◌≤◌, Bool, Option, List, Text}
use lab_charts.Promote.State.{Transition}
use lab_charts.Promote.Status.{HelmReleaseRef, HelmReleaseStatus, WorkloadRollout}
use lab_charts.Promote.Classify.{Signature}

-- an ExternalCommandError: its stderr and its own text
pub record CommandError : Type 0 where
  pub stderr : Text
  pub message : Text

-- what a kubectl call gives; any other exception passes through the watcher
pub data Answer (A : Type 0) : Type 0 where
  answered : A → Answer A
  command_failed : CommandError → Answer A
  other_error : Text → Answer A

-- plumbing/progress.py, `RowUpdate` of the column "phase"
pub record RowUpdate : Type 0 where
  pub namespace : Text
  pub name : Text
  pub status : Text
  pub detail : Text

-- `Outside` is the state of all that the watcher does not own, the cancel flag included. A raising
-- progress callback is swallowed by the program, so `report` gives nothing back.
pub record World : Type 1 where
  pub Outside : Type 0
  pub now : Outside → ℕ
  pub clock : Outside → Outside
  pub sleep : ℕ → Outside → Outside
  pub rand : ℕ → ℕ → Outside → ℕ × Outside
  pub cancel_is_set : Outside → Bool × Outside
  pub wall_clock : Outside → ℕ × Outside
  pub report : RowUpdate → Outside → Outside
  pub get_helmrelease_status : HelmReleaseRef → ℕ → Outside → Answer HelmReleaseStatus × Outside
  pub list_owned_workloads : HelmReleaseRef → ℕ → Outside → Answer (List WorkloadRollout) × Outside

-- What the time source promises: `now` is the reading that `clock()` returns, nothing runs it
-- backwards, and `sleep(d)` takes at least `d`.
pub record IsMonotonic (e : World) : Type 0 where
  pub clock_later : (w : e.Outside) → e.now w ≤ e.now (e.clock w)
  pub sleep_long : (d : ℕ) (w : e.Outside) → e.now w + d ≤ e.now (e.sleep d w)
  pub rand_later : (a b : ℕ) (w : e.Outside) → e.now w ≤ e.now (e.rand a b w).1
  pub cancel_later : (w : e.Outside) → e.now w ≤ e.now (e.cancel_is_set w).1
  pub wall_later : (w : e.Outside) → e.now w ≤ e.now (e.wall_clock w).1
  pub report_later : (r : RowUpdate) (w : e.Outside) → e.now w ≤ e.now (e.report r w)
  pub status_later :
      (r : HelmReleaseRef) (t : ℕ) (w : e.Outside)
      → e.now w ≤ e.now (e.get_helmrelease_status r t w).1
  pub workloads_later :
      (r : HelmReleaseRef) (t : ℕ) (w : e.Outside)
      → e.now w ≤ e.now (e.list_owned_workloads r t w).1

-- `_WatchState`, beside the reference that it is about
pub record WatchState : Type 0 where
  pub transitions : List Transition
  pub last_status : Option HelmReleaseStatus
  pub last_workloads : List WorkloadRollout
  pub prev_signature : Option Signature

module _ (e : World) where
  pub record Context : Type 0 where
    pub state : WatchState
    pub open state use *
    pub outside : e.Outside
