-- ===== src/Test/Run/Success.antt =====
-- What it takes for an outcome to be ok.
use lab_charts.Base.{true, false, Option, none, some, List, ◌≡◌, refl, ◌⊎◌, inl, inr, Every}
use lab_charts.Cluster.Effects.{Returned}
use lab_charts.Cluster.Tools.{Tools}
use lab_charts.Cluster.Releases.{Repository}
use lab_charts.Test.Plan.{LifecycleAction}
use lab_charts.Test.Hooks.{HookRunner}
use lab_charts.Test.Run.{
  ActionOutcome, ChartTestOutcome, failed_of, is_ok, is_cleanup, outcome_of, perform,
}
use lab_charts.Test.Run.Report.{IsReport, no_more, left_to_teardown, passed, failed_here}

module _ (t : Tools) (p : Repository) (h : HookRunner) where
  -- a cleanup hook, or an action that was performed
  abbrev pub IsDone : LifecycleAction → Type 0
  IsDone a = (is_cleanup a.kind ≡ true) ⊎ Returned (perform t p h a) tt

  no_failure-IsDone :
      (actions : List LifecycleAction) (outcomes : List ActionOutcome) (w w' : t.Outside)
      → IsReport t p h false w actions outcomes w'
      → failed_of outcomes ≡ none
      → Every IsDone actions
  unfolding failed_of outcome_of
  no_failure-IsDone _ _ _ _ (no_more failed w) ok = tt
  no_failure-IsDone _ _ _ _ (left_to_teardown a rest os w w1 w' c told r) ok =
      (inl c, no_failure-IsDone rest os w1 w' r ok)
  no_failure-IsDone _ _ _ _ (passed a rest os w w1 w2 w3 w' c told run done r) ok =
      (inr (record { before = w1; after = w2; run = run }), no_failure-IsDone rest os w3 w' r ok)
  no_failure-IsDone _ _ _ _ (failed_here a rest os x w w1 w2 w3 w' c k told run seen r) ok =
      absurd (cc)

  ok-no_failure : (o : ChartTestOutcome) → is_ok o ≡ true → failed_of o.actions ≡ none
  unfolding is_ok
  ok-no_failure o h = split (failed_of o.actions) h
    where
      split :
          (f : Option ActionOutcome) → (elim f [ none ↦ true | some a ↦ false ]) ≡ true → f ≡ none
      split none e = refl
      split (some a) e = absurd (cc)

  pub report-IsDone :
      (actions : List LifecycleAction) (o : ChartTestOutcome) (w w' : t.Outside)
      → IsReport t p h false w actions o.actions w'
      → is_ok o ≡ true
      → Every IsDone actions
  report-IsDone actions o w w' r ok =
      no_failure-IsDone actions o.actions w w' r (ok-no_failure o ok)
