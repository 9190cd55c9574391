-- ===== src/Test/Command/Teardown.antt =====
-- commands/test/run.py: `chart teardown`, which runs every cleanup hook and then deletes the cluster.
use lab_charts.Base.{
  Bool, true, false, Option, none, some, List, [], ◌∷◌, ◌++◌, keep, nat_eq, list_eq, pair_eq,
  if◌then◌else◌, Text, text,
}
use lab_charts.Cluster.Effects.{
  message_of, is_expected, Try, returned, threw, pure, throw, attempt, ◌>>=◌, ◌>>◌,
}
use lab_charts.Cluster.Tools.{Tools, severity_step, severity_detail, severity_error, severity_warn}
use lab_charts.Cluster.Bootstrap.{Session, event, tell}
use lab_charts.Cluster.Session.{find, delete_session}
use lab_charts.Test.Plan.{LifecycleAction, LifecyclePlan, install_all}
use lab_charts.Test.Hooks.{HookRunner, run_action}
use lab_charts.Test.Run.{
  pass, fail, ActionOutcome, is_cleanup, is_fail, outcome_of, subject_of, label_of,
}
use lab_charts.Test.Command.{Setting, Step, compile}

pub record TeardownRequest : Type 0 where
  pub chart : Text
  pub profile : Text
  pub namespace : Option Text
  pub cluster_name : Text
  pub include_dependent_tests : Bool
  pub keep_cluster : Bool

pub record TeardownOutcome : Type 0 where
  pub cluster_name : Text
  pub cleanups : List ActionOutcome
  pub cluster_deleted : Bool
  pub delete_error : Option Text

unfoldable pub failed_cleanups : TeardownOutcome → List ActionOutcome
failed_cleanups o = keep (λ a. is_fail a.verdict) o.cleanups

-- `TeardownOutcome.ok`
unfoldable pub teardown_ok : TeardownOutcome → Bool
unfolding failed_cleanups
teardown_ok o = elim (failed_cleanups o) [
  | [] ↦ elim o.delete_error [ none ↦ true | some e ↦ false ]
  | a ∷ rest ↦ false
]

module _ (t : Tools) (g : Setting) where
  unfoldable pub teardown_plan : TeardownRequest → Step t g LifecyclePlan
  unfolding compile
  teardown_plan q = do
    found ←
        compile t g
          (record {
            chart = q.chart;
            profile = q.profile;
            namespace = q.namespace;
            include_dependent_tests = q.include_dependent_tests;
            lint = false;
          })
          false install_all
    pure (record found.0.plan { actions = keep (λ a. is_cleanup a.kind) found.0.plan.actions })

  -- one turn of the loop of `teardown`
  unfoldable pub cleaned : LifecycleAction → Try Unit → Step t g ActionOutcome
  unfolding outcome_of subject_of
  cleaned a (returned _) = do
    tell t g.repository (event severity_detail (text "Completed") (subject_of a))
    pure (outcome_of a pass none)
  cleaned a (threw x) =
      if is_expected x
      then (do
        tell t g.repository
            (event severity_error (text "Failed") (subject_of a ++ (text ": " ++ message_of x)))
        pure (outcome_of a fail (some (message_of x))))
      else throw x

  unfoldable pub clean_up : HookRunner → LifecycleAction → Step t g ActionOutcome
  unfolding cleaned label_of
  clean_up h a = do
    tell t g.repository (event severity_step (label_of a.kind) (subject_of a))
    result ← attempt (run_action t g.repository h a)
    cleaned a result

  unfoldable pub clean_all : HookRunner → List LifecycleAction → Step t g (List ActionOutcome)
  unfolding clean_up
  clean_all h [] = pure []
  clean_all h (a ∷ rest) = do
    outcome ← clean_up h a
    outcomes ← clean_all h rest
    pure (outcome ∷ outcomes)

  unfoldable pub missing_cluster : Text → Text
  missing_cluster name =
      text "cluster "
      ++ (name ++ text " does not exist; running cleanup hooks without a kube context")

  unfoldable pub warn_missing : Option Session → Text → Step t g Unit
  unfolding missing_cluster
  warn_missing (some s) name = pure tt
  warn_missing none name =
      tell t g.repository (event severity_warn (text "warn:") (missing_cluster name))

  unfoldable pub context_of : Option Session → Text
  context_of none = []
  context_of (some s) = s.context

  -- whether the cluster was deleted, and the error if it could not be
  abbrev pub Deletion : Type 0
  Deletion = Bool × Option Text

  unfoldable pub deletion_of : Try Bool → Step t g Deletion
  deletion_of (returned deleted) = pure (deleted, none)
  deletion_of (threw x) = if is_expected x then pure (false, some (message_of x)) else throw x

  unfoldable pub delete_unless_kept : TeardownRequest → Option Session → Step t g Deletion
  unfolding deletion_of delete_session
  delete_unless_kept q none = pure (false, none)
  delete_unless_kept q (some s) = if q.keep_cluster then pure (false, none) else (do
    tell t g.repository (event severity_step (text "Deleting test cluster") q.cluster_name)
    result ← attempt (delete_session t g.repository s)
    deletion_of result)

  unfoldable pub teardown : TeardownRequest → Step t g TeardownOutcome
  unfolding teardown_plan warn_missing context_of clean_all delete_unless_kept
  teardown q = do
    cleanups ← teardown_plan q
    session ← find t g.repository q.cluster_name
    warn_missing session q.cluster_name
    outcomes ←
        clean_all (record { kube_context = context_of session; cluster_name = q.cluster_name })
          cleanups.actions
    deletion ← delete_unless_kept q session
    pure (record {
      cluster_name = q.cluster_name;
      cleanups = outcomes;
      cluster_deleted = deletion.0;
      delete_error = deletion.1;
    })
