-- ===== src/Promote/HelmTest.antt =====
-- commands/promote/test.py: `helm test` for one HelmRelease. The phases of `_Tester.test_one` that
-- decide are here; what they end with is a record `Ending`, which `_finalize` makes an outcome of.
-- Times are natural numbers of milliseconds.
pub mod Tested
pub mod Finish
pub mod Outcomes
use lab_charts.Base.{
  ℕ, zero, suc, ◌+◌, ◌-◌, min, Bool, true, false, not, ◌&&◌, ◌||◌, Option, none, some, List, [],
  ◌∷◌, ◌++◌, map, keep, any, contains, ltb, leb, nat_eq, list_eq, ◌==◌, if◌then◌else◌, Text, text,
  is_part, lower,
}
use lab_charts.Cluster.Effects.{
  Failure, command_timeout, message_of, is_external, Try, returned, threw, Act, pure, throw, lift,
  attempt, ◌>>=◌, ◌>>◌,
}
use lab_charts.Cluster.Tools.{CommandResult, ExitCode, exited, signalled}
use lab_charts.Promote.Fanout.{push}
use lab_charts.Promote.Report.{failure_detail}
use lab_charts.Promote.State.{Verdict, Reason, ReasonLike, member, Transition}
use lab_charts.Promote.Status.{HelmReleaseRef, HelmReleaseStatus, ConditionSnapshot, released}
use lab_charts.Promote.World.{RowUpdate}

-- a test pod: namespace, name and phase
pub record TestPod : Type 0 where
  pub namespace : Text
  pub name : Text
  pub phase : Text

-- What a tester meets outside itself. Only the calls of kubectl and helm may raise.
pub record Lab : Type 1 where
  pub Outside : Type 0
  pub clock : Outside → ℕ × Outside
  pub cancel_is_set : Outside → Bool × Outside
  pub wall_clock : Outside → ℕ × Outside
  pub report : RowUpdate → Outside → Outside
  pub list_test_pods : HelmReleaseRef → ℕ → Act Outside (List TestPod)
  pub delete_pod : (namespace name : Text) → ℕ → Act Outside Unit
  pub helm_test : (release namespace : Text) (timeout cap : ℕ) → Act Outside CommandResult
  pub get_helmrelease_status : HelmReleaseRef → ℕ → Act Outside HelmReleaseStatus
  pub pod_logs : (namespace name : Text) (tail : ℕ) (previous : Bool) → ℕ → Act Outside Text
  pub namespace_events : Text → ℕ → Outside → Text × Outside

-- the fields of a TestRequest that a tester reads, and the run's deadline
pub record TestTarget : Type 0 where
  pub chart_name : Text
  pub version : Text
  pub per_poll : ℕ
  pub per_hr : ℕ
  pub pod_log_tail : ℕ
  pub total_deadline : ℕ

-- what a phase hands to `_finalize`
pub record Ending : Type 0 where
  pub verdict : Verdict
  pub reason : ReasonLike
  pub helm_result : Option CommandResult
  pub in_flight : List TestPod
  pub residual : List Text
  pub inline : Option Text

-- _SUBPROCESS_SLACK_SEC
abbrev pub subprocess_slack : ℕ
subprocess_slack = 30000

-- _IN_FLIGHT_PHASES, _STALE_PHASES
unfoldable pub in_flight_phase : Text → Bool
in_flight_phase phase = contains (text "Pending" ∷ text "Running" ∷ text "Unknown" ∷ [] ∷ []) phase

unfoldable pub stale_phase : Text → Bool
stale_phase phase = contains (text "Succeeded" ∷ text "Failed" ∷ []) phase

abbrev pub ending : Verdict → Reason → Ending
ending v r = record {
  verdict = v;
  reason = member r;
  helm_result = none;
  in_flight = [];
  residual = [];
  inline = none;
}

-- one character as `re.IGNORECASE` compares it with an ASCII letter
unfoldable pub fold_case : ℕ → ℕ
fold_case c =
    if leb 65 c && leb c 90
    then c + 32
    else if c == 304 || c == 305
    then 105
    else if c == 383
    then 115
    else if c == 8490
    then 107
    else c

-- `_NO_TESTS_PATTERN.search`
unfoldable pub says_no_tests : Text → Bool
unfolding fold_case
says_no_tests stderr =
    let folded = map fold_case stderr in
    is_part (text "no tests to run") folded
    || (is_part (text "no tests for chart") folded || is_part (text "no tests found") folded)

-- `_HELM_UNAVAILABLE_PATTERN.search`
unfoldable pub says_unavailable : Text → Bool
unfolding fold_case
says_unavailable stderr =
    let folded = map fold_case stderr in
    is_part (text "cluster unreachable") folded
    || (is_part (text "connection refused") folded || is_part (text "installation failed") folded)

unfoldable pub exits_zero : ExitCode → Bool
exits_zero (exited n) = n == 0
exits_zero (signalled n) = false

-- `_classify`: the verdict and reason of a finished `helm test`
unfoldable pub classify_result : CommandResult → Verdict × Reason
unfolding exits_zero
classify_result r =
    if exits_zero r.returncode
    then (Verdict.passed, Reason.all_tests_passed)
    else if says_no_tests r.stderr
    then (Verdict.passed, Reason.no_tests_defined)
    else if says_unavailable r.stderr
    then (Verdict.failed, Reason.helm_unavailable)
    else if is_part (text "already exists") (lower r.stderr)
    then (Verdict.failed, Reason.test_pod_conflict)
    else (Verdict.failed, Reason.test_failed)

-- `released is None or released.status != "True"`
unfoldable pub not_released : Option ConditionSnapshot → Bool
not_released none = true
not_released (some c) = not (c.status == text "True")

-- the skips of `_preflight`, which ask nothing of the cluster
unfoldable pub skip_of : HelmReleaseStatus → Option Ending
unfolding not_released
skip_of s =
    if s.suspended
    then some (ending Verdict.skipped_suspended Reason.suspended)
    else if not_released (released s)
    then some (ending Verdict.skipped_not_ready Reason.not_released)
    else if not (s.observed_generation == s.generation)
    then some (ending Verdict.skipped_not_ready Reason.generation_lag)
    else none

module _ (e : Lab) where
  -- `_RunContext.transitions`, and the outside
  pub record TestContext : Type 0 where
    pub transitions : List Transition
    pub outside : e.Outside

  abbrev pub Step : Type 0 → Type 0
  Step A = Act TestContext A

  -- a call that may raise
  unfoldable pub call : {A : Type 0} → Act e.Outside A → Step A
  call m c = let (r, w) = m c.outside in (r, record c { outside = w })

  -- a reading that does not raise
  unfoldable pub read : {A : Type 0} → (e.Outside → A × e.Outside) → Step A
  read m c = let (a, w) = m c.outside in (returned a, record c { outside = w })

  unfoldable pub record_phase : HelmReleaseRef → Text → Text → Step Unit
  record_phase ref phase detail c =
      let (at, w) = e.wall_clock c.outside in
      let row : RowUpdate = record {
        namespace = ref.namespace;
        name = ref.name;
        status = phase;
        detail = detail;
      } in
      let t : Transition = record { at = at; phase = phase; detail = detail } in
      (returned tt, record { transitions = push c.transitions t; outside = e.report row w })

  module _ (q : TestTarget) (s : HelmReleaseStatus) where
    -- `ctx.cancel_event.is_set() or self.clock() >= ctx.total_deadline`
    unfoldable pub out_of_time : Step Bool
    unfolding read
    out_of_time = do
      stopped ← read e.cancel_is_set
      if stopped then pure true else do now ← read e.clock; pure (leb q.total_deadline now)

    abbrev pub total_timeout : Ending
    total_timeout = ending Verdict.timed_out Reason.total_budget_exhausted

    unfoldable pub check_time : Step (Option Ending)
    unfolding out_of_time
    check_time = do spent ← out_of_time; pure (if spent then some total_timeout else none)

    unfoldable pub unless_skipped : Option Ending → Step (Option Ending)
    unfolding check_time
    unless_skipped (some end) = pure (some end)
    unless_skipped none = check_time

    -- `_preflight`
    unfoldable pub preflight : Step (Option Ending)
    unfolding unless_skipped
    preflight = unless_skipped (skip_of s)

    -- the pods that `_reap` could not delete
    unfoldable pub delete_result : TestPod → Try Unit → Step (List Text)
    delete_result p (returned _) = pure []
    delete_result p (threw x) =
        if is_external x
        then pure ((p.namespace ++ (text "/" ++ (p.name ++ (text ": " ++ failure_detail x)))) ∷ [])
        else throw x

    unfoldable pub delete_all : List TestPod → Step (List Text)
    unfolding delete_result call
    delete_all [] = pure []
    delete_all (p ∷ rest) = do
      result ← attempt (call (e.delete_pod p.namespace p.name q.per_poll))
      residual ← delete_result p result
      others ← delete_all rest
      pure (residual ++ others)

    unfoldable pub after_deletes : List Text → Option Ending
    after_deletes [] = none
    after_deletes (r ∷ rs) =
        some (record (ending Verdict.failed Reason.reap_incomplete) { residual = r ∷ rs })

    -- with the pods in flight and the stale ones
    unfoldable pub reap_found : (flying stale : List TestPod) → Step (Option Ending)
    unfolding delete_all after_deletes
    reap_found (p ∷ ps) stale =
        pure
          (some (record (ending Verdict.failed Reason.test_pod_in_flight) { in_flight = p ∷ ps }))
    reap_found [] stale = do residual ← delete_all stale; pure (after_deletes residual)

    unfoldable pub reap_pods : List TestPod → Step (Option Ending)
    unfolding reap_found
    reap_pods pods =
        reap_found (keep (λ p. in_flight_phase p.phase) pods) (keep (λ p. stale_phase p.phase) pods)

    unfoldable pub listed : Try (List TestPod) → Step (Option Ending)
    unfolding reap_pods
    listed (returned pods) = reap_pods pods
    listed (threw x) =
        if is_external x
        then pure (
            some (record (ending Verdict.failed Reason.reap_list_failed) {
              inline = some (message_of x);
            }))
        else throw x

    -- `_reap`
    unfoldable pub reap : Step (Option Ending)
    unfolding listed record_phase call
    reap = do
      record_phase s.ref (text "Reaping") (text "checking for existing test pods")
      pods ← attempt (call (e.list_test_pods s.ref q.per_poll))
      listed pods

    unfoldable pub helm_timed_out : ℕ → Ending
    helm_timed_out now = ending Verdict.timed_out (
        if leb q.total_deadline now
        then Reason.total_budget_exhausted
        else Reason.per_hr_budget_exhausted)

    unfoldable pub helm_raised : Failure → Step Ending
    unfolding helm_timed_out read
    helm_raised (command_timeout message stderr) = do now ← read e.clock; pure (helm_timed_out now)
    helm_raised x =
        if is_external x
        then pure (record (ending Verdict.failed Reason.helm_unavailable) {
          inline = some (message_of x);
        })
        else throw x

    unfoldable pub helm_finished : Try CommandResult → Step Ending
    unfolding helm_raised classify_result
    helm_finished (threw x) = helm_raised x
    helm_finished (returned r) =
        let (v, reason) = classify_result r in
        pure (record (ending v reason) { helm_result = some r })

    -- `min(per_hr + slack, max(0, total_deadline - now))`
    unfoldable pub subprocess_cap : ℕ → ℕ
    subprocess_cap now = min (q.per_hr + subprocess_slack) (q.total_deadline - now)

    unfoldable pub helm_with : ℕ → Step Ending
    unfolding helm_finished call
    helm_with cap = if leb cap 0 then pure total_timeout else (do
      result ← attempt (call (e.helm_test s.ref.release_name s.ref.storage_namespace q.per_hr cap))
      helm_finished result)

    -- `_run_helm`
    unfoldable pub run_helm : Step Ending
    unfolding helm_with subprocess_cap record_phase read
    run_helm = do
      record_phase s.ref (text "Running")
          (text "helm test " ++ (s.ref.release_name ++ (text " -n " ++ s.ref.storage_namespace)))
      now ← read e.clock
      helm_with (subprocess_cap now)

    unfoldable pub or_continue : Step Ending → Option Ending → Step Ending
    or_continue next (some end) = pure end
    or_continue next none = next

    -- `test_one`, up to `_finalize`
    unfoldable pub pipeline : Step Ending
    unfolding or_continue preflight reap check_time run_helm record_phase
    pipeline = do
      record_phase s.ref (text "Preflight")
          (text "chart=" ++ (q.chart_name ++ (text "@" ++ q.version)))
      first ← preflight
      or_continue
          (do reaped ← reap; or_continue (do late ← check_time; or_continue run_helm late) reaped)
          first
