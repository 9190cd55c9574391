-- ===== src/Promote/Monitor.antt =====
-- commands/promote/monitor.py: one watcher polls one HelmRelease until it is ready, has failed, is
-- skipped, or a budget runs out. The loop takes fuel, a bound on its turns.
pub mod Steps
pub mod Explained
pub mod Ends
pub mod Watch
use lab_charts.Base.{
  ℕ, zero, suc, ◌+◌, ◌-◌, Bool, true, false, not, ◌&&◌, ◌||◌, Option, none, some, List, [], ◌∷◌,
  min, take, all, contains, nat_eq, list_eq, ◌==◌, leb, if◌then◌else◌, Text, text, strip, is_part,
}
use lab_charts.Promote.State.{
  Verdict, verdict_beq, verdict_eq, is_passing, Reason, reason_value, ReasonLike, member,
  Transition, cut,
}
use lab_charts.Promote.Status.{HelmReleaseRef, HelmReleaseStatus, WorkloadRollout}
use lab_charts.Promote.Classify.{
  Terminal, Signature, waiting_on, poll_error, poll_error_workloads, Waiting, Decision, terminal,
  waiting, classify,
}
use lab_charts.Promote.Fanout.{push}
use lab_charts.Promote.Action.{
  Result, ok, raised, out_of_fuel, Action, pure, raise, fuel_gone, ◌>>=◌, ◌>>◌,
}
use lab_charts.Promote.World.{
  World, Context, WatchState, Answer, answered, command_failed, other_error, CommandError,
  RowUpdate,
}

-- _POLL_INTERVAL_SEC, in milliseconds
abbrev pub poll_interval : ℕ
poll_interval = 3000

-- equality of the frozensets of two signatures
same_names : List Text → List Text → Bool
same_names xs ys = all (contains ys) xs && all (contains xs) ys

unfoldable pub same_signature : Signature → Option Signature → Bool
unfolding same_names
same_signature s none = false
same_signature (waiting_on a b n xs) (some (waiting_on a' b' n' xs')) =
    a == a' && (b == b' && (n == n' && same_names xs xs'))
same_signature (poll_error t) (some (poll_error t')) = t == t'
same_signature (poll_error_workloads t) (some (poll_error_workloads t')) = t == t'
same_signature _ _ = false

-- `(exc.stderr or str(exc)).strip()`
unfoldable pub error_text : CommandError → Text
error_text x = strip (if x.stderr == [] then x.message else x.stderr)

-- `stderr[:80]`
unfoldable pub head_of : Text → Text
head_of t = take 80 t

-- `"NotFound" in stderr or "not found" in stderr`
unfoldable pub is_not_found : Text → Bool
is_not_found stderr = is_part (text "NotFound") stderr || is_part (text "not found") stderr

-- what `_poll` returns for a release that is gone
abbrev pub gone_terminal : Text → Terminal
gone_terminal stderr = record {
  verdict = Verdict.failed;
  reason = member Reason.disappeared;
  phase = text "Disappeared";
  detail = cut stderr;
}

pub data Polled : Type 0 where
  fresh : HelmReleaseStatus → Polled
  gone : Terminal → Polled
  flaked : Polled

-- What stays the same through one watch.
pub record Target : Type 0 where
  pub ref : HelmReleaseRef
  pub version : Text
  pub per_poll : ℕ
  pub hr_deadline : ℕ
  pub total_deadline : ℕ

abbrev pub End : Type 0
End = Verdict × ReasonLike

module _ (e : World) (g : Target) where
  abbrev pub Step : Type 0 → Type 0
  Step A = Action (Context e) A

  unfoldable pub read_clock : Step ℕ
  read_clock c = (ok (e.now c.outside), record c { outside = e.clock c.outside })

  unfoldable pub do_sleep : ℕ → Step Unit
  do_sleep d c = (ok tt, record c { outside = e.sleep d c.outside })

  unfoldable pub jitter : Step ℕ
  jitter c = let (d, w) = e.rand 0 poll_interval c.outside in (ok d, record c { outside = w })

  unfoldable pub is_cancelled : Step Bool
  is_cancelled c = let (b, w) = e.cancel_is_set c.outside in (ok b, record c { outside = w })

  unfoldable pub fetch_status : Step (Answer HelmReleaseStatus)
  fetch_status c =
      let (a, w) = e.get_helmrelease_status g.ref g.per_poll c.outside in
      (ok a, record c { outside = w })

  unfoldable pub fetch_workloads : Step (Answer (List WorkloadRollout))
  fetch_workloads c =
      let (a, w) = e.list_owned_workloads g.ref g.per_poll c.outside in
      (ok a, record c { outside = w })

  -- fanout.py, `record`
  unfoldable pub record_phase : Text → Text → Step Unit
  record_phase phase detail c =
      let (at, w) = e.wall_clock c.outside in
      let row : RowUpdate = record {
        namespace = g.ref.namespace;
        name = g.ref.name;
        status = phase;
        detail = detail;
      } in
      let t : Transition = record { at = at; phase = phase; detail = detail } in
      (
        ok tt,
        record {
          state = record c.state { transitions = push c.transitions t };
          outside = e.report row w;
        },
      )

  unfoldable pub set_signature : Signature → Step Unit
  set_signature s c = (ok tt, record c { state = record c.state { prev_signature = some s } })

  unfoldable pub set_status : HelmReleaseStatus → Step Unit
  set_status s c = (ok tt, record c { state = record c.state { last_status = some s } })

  unfoldable pub set_workloads : List WorkloadRollout → Step Unit
  set_workloads ws c = (ok tt, record c { state = record c.state { last_workloads = ws } })

  -- a transition, unless the last one said the same
  unfoldable pub record_new : Signature → Text → Text → Step Unit
  unfolding set_signature
  record_new s phase detail c =
      if same_signature s c.prev_signature
      then (ok tt, c)
      else (record_phase phase detail >> set_signature s) c

  -- `_record_deduped`
  unfoldable pub record_deduped : Signature → Text → Text → Step Unit
  record_deduped s phase stderr = record_new s phase (cut stderr)

  unfoldable pub workloads_answer :
      Answer (List WorkloadRollout) → Step (Option (List WorkloadRollout))
  workloads_answer (answered ws) = pure (some ws)
  workloads_answer (command_failed x) = do
    record_deduped (poll_error_workloads (head_of (error_text x))) (text "WorkloadsPollError")
        (error_text x)
    pure none
  workloads_answer (other_error x) = raise x

  -- `_list_workloads`
  unfoldable pub list_workloads : Step (Option (List WorkloadRollout))
  unfolding workloads_answer
  list_workloads = do a ← fetch_workloads; workloads_answer a

  -- the second reading, if the workloads could be listed
  unfoldable pub redecide :
      HelmReleaseStatus → Decision → Option (List WorkloadRollout) → Step Decision
  unfolding set_workloads
  redecide s d none = pure d
  redecide s d (some ws) = do set_workloads ws; pure (classify s g.version (some ws))

  unfoldable pub decide : HelmReleaseStatus → Decision → Step Decision
  unfolding redecide
  decide s (terminal t) = pure (terminal t)
  decide s (waiting w) =
      if w.needs_workloads
      then (do found ← list_workloads; redecide s (waiting w) found)
      else pure (waiting w)

  unfoldable pub settle : Decision → Step (Option End)
  settle (terminal t) = do record_phase t.phase t.detail; pure (some (t.verdict, t.reason))
  settle (waiting w) = do record_new w.signature w.phase w.detail; pure none

  -- `_evaluate`
  unfoldable pub evaluate : HelmReleaseStatus → Step (Option End)
  evaluate s = do d ← decide s (classify s g.version none); settle d

  -- the release was deleted under the watcher
  unfoldable pub disappeared : Text → Step Polled
  disappeared stderr = do
    record_phase (text "Disappeared") (cut stderr)
    pure (gone (gone_terminal stderr))

  unfoldable pub poll_failed : Text → Step Polled
  poll_failed stderr = do
    record_deduped (poll_error (head_of stderr)) (text "PollError") stderr
    pure flaked

  unfoldable pub poll_answer : Answer HelmReleaseStatus → Step Polled
  unfolding disappeared poll_failed
  poll_answer (answered s) = pure (fresh s)
  poll_answer (command_failed x) =
      if is_not_found (error_text x) then disappeared (error_text x) else poll_failed (error_text x)
  poll_answer (other_error x) = raise x

  -- `_poll`
  unfoldable pub poll : Step Polled
  unfolding poll_answer
  poll = do a ← fetch_status; poll_answer a

  -- `_cancelled`
  unfoldable pub cancelled_end : Step End
  cancelled_end = do
    record_phase (text "Cancelled") (reason_value Reason.total_budget_exhausted)
    pure (Verdict.timed_out, member Reason.total_budget_exhausted)

  unfoldable pub which_budget : Bool → Step (Option Reason)
  which_budget false = pure none
  which_budget true = do
    later ← read_clock
    pure (
        some (
          if leb g.total_deadline later
          then Reason.total_budget_exhausted
          else Reason.per_hr_budget_exhausted))

  -- the budget that ran out, if one did
  unfoldable pub check_budget : Step (Option Reason)
  unfolding which_budget
  check_budget = do now ← read_clock; which_budget (leb g.hr_deadline now)

  module _ (again : Option HelmReleaseStatus → Step End) where
    unfoldable pub after_poll : Polled → Step End
    after_poll (fresh s) = again (some s)
    after_poll (gone t) = pure (t.verdict, t.reason)
    after_poll flaked = again none

    unfoldable pub after_budget : Option Reason → Step End
    unfolding after_poll
    after_budget (some reason) = do
      record_phase (text "TimedOut") (reason_value reason)
      pure (Verdict.timed_out, member reason)
    after_budget none = do
      do_sleep poll_interval
      stopped ← is_cancelled
      if stopped then cancelled_end else do polled ← poll; after_poll polled

    unfoldable pub after_evaluate : Option End → Step End
    unfolding after_budget
    after_evaluate (some end) = pure end
    after_evaluate none = do
      stopped ← is_cancelled
      if stopped then cancelled_end else do spent ← check_budget; after_budget spent

    -- one turn of the `while True` loop; `again` is the next
    unfoldable pub turn : Option HelmReleaseStatus → Step End
    unfolding after_evaluate set_status
    turn none = after_evaluate none
    turn (some s) = do set_status s; end ← evaluate s; after_evaluate end

  unfoldable pub poll_loop : ℕ → Option HelmReleaseStatus → Step End
  poll_loop zero status = fuel_gone
  poll_loop (suc fuel) status = turn (poll_loop fuel) status

  -- the jittered start, then the loop on the status that the matching fetched
  unfoldable pub begin : ℕ → HelmReleaseStatus → Step End
  begin fuel initial = do
    d ← jitter
    do_sleep d
    stopped ← is_cancelled
    if stopped then cancelled_end else poll_loop fuel (some initial)

  unfoldable pub skip_or_begin : ℕ → HelmReleaseStatus → Decision → Step End
  skip_or_begin fuel initial (terminal t) =
      if t.verdict == Verdict.skipped_suspended
      then (do record_phase t.phase t.detail; pure (t.verdict, t.reason))
      else begin fuel initial
  skip_or_begin fuel initial (waiting w) = begin fuel initial

  -- `_poll_until_terminal`
  unfoldable pub poll_until_terminal : ℕ → HelmReleaseStatus → Step End
  unfolding skip_or_begin
  poll_until_terminal fuel initial = skip_or_begin fuel initial (classify initial g.version none)
