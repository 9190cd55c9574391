-- ===== src/Test/Command/Cleanups.antt =====
-- What has happened when `chart teardown` returns an outcome.
use lab_charts.Base.{Bool, true, false, Option, none, some, List, [], ◌∷◌, ◌≡◌, ◌⊎◌}
use lab_charts.Cluster.Effects.{Failure, message_of, is_expected, Try, returned, threw}
use lab_charts.Cluster.Tools.{Tools, Told}
use lab_charts.Cluster.Bootstrap.{Session}
use lab_charts.Cluster.Session.{find, delete_session}
use lab_charts.Test.Plan.{LifecycleAction, LifecyclePlan}
use lab_charts.Test.Hooks.{HookRunner, run_action}
use lab_charts.Test.Run.{pass, fail, ActionOutcome, outcome_of}
use lab_charts.Test.Command.{Setting}
use lab_charts.Test.Command.Teardown.{
  TeardownRequest, TeardownOutcome, context_of, Deletion, teardown_plan,
}

-- the outcomes that a loop has returned
abbrev reported : Try (List ActionOutcome) → List ActionOutcome
reported (returned outcomes) = outcomes
reported (threw x) = []

module _ (t : Tools) (g : Setting) where
  module _ (h : HookRunner) where
    -- Each hook has been run, whatever became of those before it and where they ended, and is reported
    -- as what it came to.
    pub data AllCleaned
        : t.Outside → List LifecycleAction → List ActionOutcome → t.Outside → Type 0 where
      all_run : (w : t.Outside) → AllCleaned w [] [] w
      hook_passed :
          (a : LifecycleAction) (rest : List LifecycleAction) (outcomes : List ActionOutcome)
          (w w1 w2 w3 w' : t.Outside)
          → Told t w w1
          → run_action t g.repository h a w1 ≡ (returned tt, w2)
          → Told t w2 w3
          → AllCleaned w3 rest outcomes w'
          → AllCleaned w (a ∷ rest) (outcome_of a pass none ∷ outcomes) w'
      hook_raised :
          (a : LifecycleAction) (rest : List LifecycleAction) (outcomes : List ActionOutcome)
          (x : Failure) (w w1 w2 w3 w' : t.Outside)
          → is_expected x ≡ true
          → Told t w w1
          → run_action t g.repository h a w1 ≡ (threw x, w2)
          → Told t w2 w3
          → AllCleaned w3 rest outcomes w'
          → AllCleaned w (a ∷ rest) (outcome_of a fail (some (message_of x)) ∷ outcomes) w'

  -- Only a cluster that was found and is not kept is deleted, and an error says that it was not; where
  -- none was found or it is kept, nothing is done.
  pub data IsDeletion (keep_cluster : Bool) (w w' : t.Outside)
      : Option Session → Deletion t g → Type 0 where
    no_cluster : w ≡ w' → IsDeletion keep_cluster w w' none (false, none)
    kept :
        (s : Session)
        → keep_cluster ≡ true
        → w ≡ w'
        → IsDeletion keep_cluster w w' (some s) (false, none)
    deleted :
        (s : Session) (existed : Bool) (w1 : t.Outside)
        → keep_cluster ≡ false
        → Told t w w1
        → delete_session t g.repository s w1 ≡ (returned existed, w')
        → IsDeletion keep_cluster w w' (some s) (existed, none)
    not_deleted :
        (s : Session) (x : Failure) (w1 : t.Outside)
        → keep_cluster ≡ false
        → Told t w w1
        → delete_session t g.repository s w1 ≡ (threw x, w')
        → is_expected x ≡ true
        → IsDeletion keep_cluster w w' (some s) (false, some (message_of x))

  -- A teardown, in the order of what it does: the plan's cleanup hooks, the cluster that was found, and
  -- what became of them. `w1` to `w4` are the states of the outside in between.
  pub record IsTornDown (q : TeardownRequest) (w : t.Outside) (outcome : TeardownOutcome)
      (w' : t.Outside) : Type 0 where
    pub cleanups : LifecyclePlan
    pub found : Option Session
    pub w1 : t.Outside
    pub w2 : t.Outside
    pub w3 : t.Outside
    pub w4 : t.Outside
    pub planned : teardown_plan t g q w ≡ (returned cleanups, w1)
    pub looked : find t g.repository q.cluster_name w1 ≡ (returned found, w2)
    pub warned : (w2 ≡ w3) ⊎ Told t w2 w3
    pub hooks_run :
        AllCleaned
          (record { kube_context = context_of t g found; cluster_name = q.cluster_name })
          w3
          cleanups.actions
          outcome.cleanups
          w4
    pub deletion :
        IsDeletion q.keep_cluster w4 w' found (outcome.cluster_deleted, outcome.delete_error)
