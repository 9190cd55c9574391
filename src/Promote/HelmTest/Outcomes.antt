-- ===== src/Promote/HelmTest/Outcomes.antt =====
-- What an outcome of `test_one` says.
use lab_charts.Base.{
  ℕ, suc, ◌≤◌, Bool, true, false, not, Option, none, some, List, [], ◌∷◌, length, take, length-take,
  ◌≡◌, refl, ap, subst, ◌∙◌, sym, inl, inr, arith, Bool-cases, Text, ◌==◌,
}
use lab_charts.Cluster.Effects.{
  is_external, Try, returned, threw, returned-injective, threw-is-no-returned, pure, throw,
  >>=-returned,
}
use lab_charts.Promote.State.{Verdict, verdict_eq, is_passing, ReasonLike}
use lab_charts.Promote.Status.{HelmReleaseStatus}
use lab_charts.Promote.HelmTest.{TestPod, Lab, TestTarget, Ending, TestContext}
use lab_charts.Promote.HelmTest.Tested.{IsTested, pipeline-IsTested}
use lab_charts.Promote.HelmTest.Finish.{
  TestPodSnapshot, TestOutcome, Snapshots, diagnostics_pod_cap, wants_pods, snapshot_all,
  snapshot_listed, snapshot_test_pods, wanted_pods, compose_diagnostics, Refreshed, Findings,
  investigate, finalize, test_one,
}

abbrev pub is_given : {A : Type 0} → Option A → Bool
is_given none = false
is_given (some a) = true

module _ (e : Lab) (q : TestTarget) (s : HelmReleaseStatus) where
  length-snapshot_all :
      (pods : List TestPod) (c : TestContext e) {taken : List TestPodSnapshot} {c' : TestContext e}
      → snapshot_all e q s pods c ≡ (returned taken, c')
      → length taken ≡ length pods
  unfolding snapshot_all pure
  length-snapshot_all [] c h = ap length (sym (returned-injective (ap (λ v. v.0) h)))
  length-snapshot_all (p ∷ rest) c h =
      let (_, c1, _, h1) = >>=-returned _ _ c h in
      let (first, c2, _, h2) = >>=-returned _ _ c1 h1 in
      let (others, c3, k, h3) = >>=-returned _ _ c2 h2 in
      ap length (sym (returned-injective (ap (λ v. v.0) h3)))
      ∙ ap suc (length-snapshot_all rest c2 k)

  abbrev IsFew : List TestPodSnapshot → Type 0
  IsFew pods = length pods ≤ diagnostics_pod_cap

  snapshot_listed-IsFew :
      (r : Try (List TestPod)) (c : TestContext e) {found : Snapshots} {c' : TestContext e}
      → snapshot_listed e q s r c ≡ (returned found, c')
      → IsFew found.0
  unfolding snapshot_listed pure throw
  snapshot_listed-IsFew (threw x) c h = elim (Bool-cases (is_external x)) [
    | inl k ↦
        subst (λ (v : Snapshots). IsFew v.0) (returned-injective (ap (λ v. v.0) (rw k at h)))
          (omega arith)
    | inr k ↦ absurd (threw-is-no-returned (ap (λ v. v.0) (rw k at h)))
  ]
  snapshot_listed-IsFew (returned pods) c h =
      let (taken, c1, k, g) = >>=-returned _ _ c h in
      subst (λ (v : Snapshots). IsFew v.0) (returned-injective (ap (λ v. v.0) g))
        (omega (
          arith,
          length-snapshot_all (take diagnostics_pod_cap pods) c k,
          length-take diagnostics_pod_cap pods,
        ))

  wanted_pods-IsFew :
      (reason : ReasonLike) (c : TestContext e) {found : Snapshots} {c' : TestContext e}
      → wanted_pods e q s reason c ≡ (returned found, c')
      → IsFew found.0
  unfolding wanted_pods snapshot_test_pods pure
  wanted_pods-IsFew reason c h = elim (Bool-cases (wants_pods reason)) [
    | inl k ↦ let (r, c1, _, g) = >>=-returned _ _ c (rw k at h) in snapshot_listed-IsFew r c1 g
    | inr k ↦
        subst (λ (v : Snapshots). IsFew v.0) (returned-injective (ap (λ v. v.0) (rw k at h)))
          (omega arith)
  ]

  compose_diagnostics-IsFew :
      (end : Ending) (r : Refreshed e q s) (c : TestContext e)
      {composed : Text × List TestPodSnapshot} {c' : TestContext e}
      → compose_diagnostics e q s end r c ≡ (returned composed, c')
      → IsFew composed.1
  unfolding compose_diagnostics pure
  compose_diagnostics-IsFew end r c h =
      let (pods, c1, w, g) = >>=-returned _ _ c h in
      let (events, c2, _, f) = >>=-returned _ _ c1 g in
      subst (λ (v : Text × List TestPodSnapshot). IsFew v.1) (returned-injective (ap (λ v. v.0) f))
        (wanted_pods-IsFew end.reason c w)

  -- A report is given exactly with a verdict that does not pass, and shows few pods.
  record IsInvestigated (end : Ending) (found : Findings e q s) : Type 0 where
    reported : is_given found.report ≡ not (is_passing end.verdict)
    few : IsFew found.pods

  investigate-IsInvestigated :
      (end : Ending) (c : TestContext e) {found : Findings e q s} {c' : TestContext e}
      → investigate e q s end c ≡ (returned found, c')
      → IsInvestigated end found
  unfolding investigate pure
  investigate-IsInvestigated end c h = elim (Bool-cases (is_passing end.verdict)) [
    | inl k ↦
        subst (IsInvestigated end) (returned-injective (ap (λ v. v.0) (rw k at h)))
          (record { reported = rw k refl; few = omega arith })
    | inr k ↦ elim (Bool-cases (end.verdict == Verdict.skipped_not_ready)) [
      | inl m ↦
          subst (IsInvestigated end) (returned-injective (ap (λ v. v.0) (rw (k, m) at h)))
            (record { reported = rw k refl; few = omega arith })
      | inr m ↦
          let (r, c1, _, g) = >>=-returned _ _ c (rw (k, m) at h) in
          let (composed, c2, f, last) = >>=-returned _ _ c1 g in
          subst (IsInvestigated end) (returned-injective (ap (λ v. v.0) last))
            (record { reported = rw k refl; few = compose_diagnostics-IsFew end r c1 f })
    ]
  ]

  -- An outcome: the ending that it reports, with a report exactly where that does not pass, and at
  -- most as many pods as the cap.
  pub record IsOutcome (o : TestOutcome) : Type 0 where
    pub end : Ending
    pub tested : IsTested e q s end
    pub same_verdict : o.verdict ≡ end.verdict
    pub same_reason : o.reason ≡ end.reason
    pub reported : is_given o.diagnostics ≡ not (is_passing o.verdict)
    pub few : length o.test_pods ≤ diagnostics_pod_cap

  finalize-IsOutcome :
      (started : ℕ) (end : Ending) (c : TestContext e) {o : TestOutcome} {c' : TestContext e}
      → IsTested e q s end
      → finalize e q s started end c ≡ (returned o, c')
      → IsOutcome o
  unfolding finalize pure
  finalize-IsOutcome started end c tested h =
      let (now, c1, _, h1) = >>=-returned _ _ c h in
      let (_, c2, _, h2) = >>=-returned _ _ c1 h1 in
      let (found, c3, k, h3) = >>=-returned _ _ c2 h2 in
      let (transitions, c4, _, h4) = >>=-returned _ _ c3 h3 in
      let seen = investigate-IsInvestigated end c2 k in
      subst IsOutcome (returned-injective (ap (λ v. v.0) h4)) (record {
        end = end;
        tested = tested;
        same_verdict = refl;
        same_reason = refl;
        reported = seen.reported;
        few = seen.few;
      })

  pub test_one-IsOutcome :
      (c : TestContext e) {o : TestOutcome} {c' : TestContext e}
      → test_one e q s c ≡ (returned o, c')
      → IsOutcome o
  unfolding test_one
  test_one-IsOutcome c h =
      let (started, c1, _, h1) = >>=-returned _ _ c h in
      let (end, c2, k, h2) = >>=-returned _ _ c1 h1 in
      finalize-IsOutcome started end c2 (pipeline-IsTested e q s c1 k).tested h2
