-- ===== src/Test/Run/Report.antt =====
-- The report of a chart test, described without its loop: actions pass until one fails, and the
-- cleanup hooks and all that follows a failure are skipped.
use lab_charts.Base.{
  Bool, true, false, ◌||◌, none, some, List, [], ◌∷◌, ◌≡◌, ap, inl, inr, arith, subst, Bool-cases,
  Text, ◌⊎◌, ◌∙◌, strip, list_eq, nat_eq, ◌==◌,
}
use lab_charts.Cluster.Effects.{
  Failure, message_of, is_reported, Try, returned, threw, returned-injective, pure, throw,
  attempt-run, threw-is-no-returned, >>=-returned,
}
use lab_charts.Cluster.Tools.{Tools, ProgressEvent, Told}
use lab_charts.Cluster.Releases.{Repository}
use lab_charts.Cluster.Bootstrap.{tell}
use lab_charts.Test.Plan.{LifecycleAction, LifecyclePlan}
use lab_charts.Test.Hooks.{HookRunner}
use lab_charts.Test.Run.{
  pass, fail, skip, ActionOutcome, is_cleanup, outcome_of, skip_reason, perform, Ended,
  diagnostics_of, tell_diagnostics, ended, skipped, attempted, one_action, fails, latest,
  execute_from, execute,
}

-- the outcomes of a loop that has returned
abbrev ended_with : Try (List ActionOutcome × Text) → List ActionOutcome
ended_with (returned end) = end.0
ended_with (threw x) = []

module _ (t : Tools) (p : Repository) (h : HookRunner) where
  -- what follows a failure: the diagnostics are read, and told of with the failure
  pub record IsDiagnosed (a : LifecycleAction) (x : Failure) (w w' : t.Outside) : Type 0 where
    pub diagnostics : Text
    pub found : t.Outside
    pub told : t.Outside
    pub read : diagnostics_of t p h a x w ≡ (returned diagnostics, found)
    pub failure : Told t found told
    pub shown : (told ≡ w') ⊎ Told t told w'

  -- What may be reported of the actions, before (`false`) and after (`true`) a failure, from one state
  -- of the outside to another: a skipped action is told of and nothing is done for it, any other is
  -- told of and then performed, and the next begins where it ended.
  pub data IsReport
      : Bool → t.Outside → List LifecycleAction → List ActionOutcome → t.Outside → Type 0 where
    no_more : (failed : Bool) (w : t.Outside) → IsReport failed w [] [] w
    left_to_teardown :
        (a : LifecycleAction) (rest : List LifecycleAction) (outcomes : List ActionOutcome)
        (w w1 w' : t.Outside)
        → is_cleanup a.kind ≡ true
        → Told t w w1
        → IsReport false w1 rest outcomes w'
        → IsReport false w (a ∷ rest) (outcome_of a skip (some (skip_reason false)) ∷ outcomes) w'
    after_failure :
        (a : LifecycleAction) (rest : List LifecycleAction) (outcomes : List ActionOutcome)
        (w w1 w' : t.Outside)
        → Told t w w1
        → IsReport true w1 rest outcomes w'
        → IsReport true w (a ∷ rest) (outcome_of a skip (some (skip_reason true)) ∷ outcomes) w'
    passed :
        (a : LifecycleAction) (rest : List LifecycleAction) (outcomes : List ActionOutcome)
        (w w1 w2 w3 w' : t.Outside)
        → is_cleanup a.kind ≡ false
        → Told t w w1
        → perform t p h a w1 ≡ (returned tt, w2)
        → Told t w2 w3
        → IsReport false w3 rest outcomes w'
        → IsReport false w (a ∷ rest) (outcome_of a pass none ∷ outcomes) w'
    failed_here :
        (a : LifecycleAction) (rest : List LifecycleAction) (outcomes : List ActionOutcome)
        (x : Failure) (w w1 w2 w3 w' : t.Outside)
        → is_cleanup a.kind ≡ false
        → is_reported x ≡ true
        → Told t w w1
        → perform t p h a w1 ≡ (threw x, w2)
        → IsDiagnosed a x w2 w3
        → IsReport true w3 rest outcomes w'
        → IsReport false w (a ∷ rest) (outcome_of a fail (some (message_of x)) ∷ outcomes) w'

  -- How one turn of the loop ended.
  data IsTurn (failed : Bool) (a : LifecycleAction) (w w' : t.Outside) : Ended t p h → Type 0 where
    was_skipped :
        is_cleanup a.kind || failed ≡ true
        → Told t w w'
        → IsTurn failed a w w' (outcome_of a skip (some (skip_reason failed)), none)
    has_passed :
        (w1 w2 : t.Outside)
        → is_cleanup a.kind || failed ≡ false
        → Told t w w1
        → perform t p h a w1 ≡ (returned tt, w2)
        → Told t w2 w'
        → IsTurn failed a w w' (outcome_of a pass none, none)
    has_failed :
        (x : Failure) (diagnostics : Text) (w1 w2 : t.Outside)
        → is_cleanup a.kind || failed ≡ false
        → is_reported x ≡ true
        → Told t w w1
        → perform t p h a w1 ≡ (threw x, w2)
        → IsDiagnosed a x w2 w'
        → IsTurn failed a w w' (outcome_of a fail (some (message_of x)), some diagnostics)

  Told-tell :
      (ev : ProgressEvent) (w : t.Outside) {u : Unit} {w' : t.Outside}
      → tell t p ev w ≡ (returned u, w')
      → Told t w w'
  unfolding tell
  Told-tell ev w e = (ev, ap (λ v. v.1) e)

  shown-tell_diagnostics :
      (d : Text) (w : t.Outside) {u : Unit} {w' : t.Outside}
      → tell_diagnostics t p h d w ≡ (returned u, w')
      → (w ≡ w') ⊎ Told t w w'
  unfolding tell_diagnostics pure
  shown-tell_diagnostics d w e = elim (Bool-cases (strip d == [])) [
    | inl k ↦ inl (ap (λ v. v.1) (rw k at e))
    | inr k ↦ inr (Told-tell _ w (rw k at e))
  ]

  skipped-IsTurn :
      (failed : Bool) (a : LifecycleAction) (w : t.Outside) {end : Ended t p h} {w' : t.Outside}
      → is_cleanup a.kind || failed ≡ true
      → skipped t p h failed a w ≡ (returned end, w')
      → IsTurn failed a w w' end
  unfolding skipped pure
  skipped-IsTurn failed a w {end} {w'} c e =
      let (_, w1, e1, g) = >>=-returned _ _ w e in
      subst (IsTurn failed a w w') (returned-injective (ap (λ v. v.0) g))
        (was_skipped c (Told-tell _ w (e1 ∙ ap (λ v. (returned tt, v.1)) g)))

  ended-IsTurn :
      (failed : Bool) (a : LifecycleAction) (w first : t.Outside) (r : Try Unit)
      (second : t.Outside) {end : Ended t p h} {w' : t.Outside}
      → is_cleanup a.kind || failed ≡ false
      → Told t w first
      → perform t p h a first ≡ (r, second)
      → ended t p h a r second ≡ (returned end, w')
      → IsTurn failed a w w' end
  unfolding ended pure throw
  ended-IsTurn failed a w first (returned tt) second {end} {w'} c told run e =
      let (_, w1, e1, g) = >>=-returned _ _ second e in
      subst (IsTurn failed a w w') (returned-injective (ap (λ v. v.0) g)) (
        has_passed first second c told run
          (Told-tell _ second (e1 ∙ ap (λ v. (returned tt, v.1)) g)))
  ended-IsTurn failed a w first (threw x) second {end} {w'} c told run e =
      elim (Bool-cases (is_reported x)) [
        | inl k ↦
            let (d, w1, e1, g1) = >>=-returned _ _ second (rw k at e) in
            let (_, w2, e2, g2) = >>=-returned _ _ w1 g1 in
            let (_, w3, e3, g3) = >>=-returned _ _ w2 g2 in
            subst (IsTurn failed a w w') (returned-injective (ap (λ v. v.0) g3)) (
              has_failed x d first second c k told run (record {
                diagnostics = d;
                found = w1;
                told = w2;
                read = e1;
                failure = Told-tell _ w1 e2;
                shown = shown-tell_diagnostics d w2 (e3 ∙ ap (λ v. (returned tt, v.1)) g3);
              }))
        | inr k ↦ absurd (threw-is-no-returned (ap (λ v. v.0) (rw k at e)))
      ]

  one_action-IsTurn :
      (failed : Bool) (a : LifecycleAction) (w : t.Outside) {end : Ended t p h} {w' : t.Outside}
      → one_action t p h failed a w ≡ (returned end, w')
      → IsTurn failed a w w' end
  unfolding one_action attempted
  one_action-IsTurn failed a w e = elim (Bool-cases (is_cleanup a.kind || failed)) [
    | inl c ↦ skipped-IsTurn failed a w c (rw c at e)
    | inr c ↦
        let (_, w1, e1, g) = >>=-returned _ _ w (rw c at e) in
        let (r, w2, run, last) = >>=-returned _ _ w1 g in
        ended-IsTurn failed a w w1 r w2 c (Told-tell _ w e1) (attempt-run (perform t p h a) w1 run)
          last
  ]

  keep_going :
      (failed : Bool) (a : LifecycleAction) (rest : List LifecycleAction) (end : Ended t p h)
      (outcomes : List ActionOutcome) (w w3 w' : t.Outside)
      → IsTurn failed a w w3 end
      → IsReport (fails t p h failed end.1) w3 rest outcomes w'
      → IsReport failed w (a ∷ rest) (end.0 ∷ outcomes) w'
  unfolding fails
  keep_going false a rest _ outcomes w w3 w' (was_skipped c told) r =
      left_to_teardown a rest outcomes w w3 w' (ground arith) told r
  keep_going true a rest _ outcomes w w3 w' (was_skipped c told) r =
      after_failure a rest outcomes w w3 w' told r
  keep_going false a rest _ outcomes w w3 w' (has_passed w1 w2 c told run done) r =
      passed a rest outcomes w w1 w2 w3 w' (ground arith) told run done r
  keep_going false a rest _ outcomes w w3 w' (has_failed x d w1 w2 c k told run seen) r =
      failed_here a rest outcomes x w w1 w2 w3 w' (ground arith) k told run seen r
  keep_going true a rest _ outcomes w w3 w' (has_passed w1 w2 c told run done) r =
      absurd (ground arith)
  keep_going true a rest _ outcomes w w3 w' (has_failed x d w1 w2 c k told run seen) r =
      absurd (ground arith)

  execute_from-IsReport :
      (failed : Bool) (diagnostics : Text) (actions : List LifecycleAction) (w : t.Outside)
      {end : List ActionOutcome × Text} {w' : t.Outside}
      → execute_from t p h failed diagnostics actions w ≡ (returned end, w')
      → IsReport failed w actions end.0 w'
  unfolding execute_from pure
  execute_from-IsReport failed d [] w e =
      subst
        (λ (v : Try (List ActionOutcome × Text) × t.Outside).
          IsReport failed w [] (ended_with v.0) v.1)
        e (no_more failed w)
  execute_from-IsReport failed d (a ∷ rest) w {end} {w'} e =
      let (turn, w1, e1, h1) = >>=-returned _ _ w e in
      let (last, w2, e2, h2) = >>=-returned _ _ w1 h1 in
      let ih =
        execute_from-IsReport (fails t p h failed turn.1) (latest t p h d turn.1) rest w1 e2 in
      subst
        (λ (v : Try (List ActionOutcome × Text) × t.Outside).
          IsReport failed w (a ∷ rest) (ended_with v.0) v.1)
        h2 (keep_going failed a rest turn last.0 w w1 w2 (one_action-IsTurn failed a w e1) ih)

  -- What the loop over a plan's actions returns is a report of what has been done since it began: before
  -- the first failure each action but the cleanup hooks is performed, in order and each where the one
  -- before it ended; for a cleanup hook, and for every action after a failure, nothing is done but
  -- telling of the skip.
  pub execute-IsReport :
      (plan : LifecyclePlan) (w : t.Outside) {end : List ActionOutcome × Text} {w' : t.Outside}
      → execute t p h plan w ≡ (returned end, w')
      → IsReport false w plan.actions end.0 w'
  unfolding execute
  execute-IsReport plan w e = execute_from-IsReport false [] plan.actions w e
