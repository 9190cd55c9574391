-- ===== src/Promote/HelmTest/Tested.antt =====
-- What lies behind the verdict of a `helm test` run: which calls have returned and what they said.
use lab_charts.Base.{
  ℕ, ◌+◌, ◌≤◌, ◌<◌, Bool, true, false, Option, none, some, List, [], ◌∷◌, ◌++◌, keep, leb, leb→lt,
  leb→le, ◌≡◌, refl, sym, ap, ◌∙◌, subst, inl, inr, arith, Bool-cases, if◌then◌else◌, Text, text,
}
use lab_charts.Cluster.Effects.{
  Failure, command_timeout, message_of, is_external, Try, returned, threw, returned-injective,
  threw-is-no-returned, Act, pure, throw, attempt, ◌>>=◌, Returned, >>=-returned, attempt-run,
}
use lab_charts.Cluster.Tools.{CommandResult}
use lab_charts.Promote.Report.{failure_detail}
use lab_charts.Promote.State.{Verdict, Reason}
use lab_charts.Promote.Status.{HelmReleaseStatus}
use lab_charts.Promote.HelmTest.{
  TestPod, Lab, TestTarget, Ending, ending, subprocess_slack, in_flight_phase, stale_phase,
  classify_result, skip_of, TestContext, call, read, record_phase, out_of_time, total_timeout,
  check_time, unless_skipped, preflight, delete_result, delete_all, after_deletes, reap_found,
  reap_pods, listed, reap, helm_timed_out, helm_raised, helm_finished, subprocess_cap, helm_with,
  run_helm, or_continue, pipeline,
}

module _ (e : Lab) where
  -- a call that raised
  pub record CallRaised {A : Type 0} (m : Act e.Outside A) (x : Failure) : Type 0 where
    pub before : e.Outside
    pub after : e.Outside
    pub run : m before ≡ (threw x, after)

  -- What an attempted call reports is what the call came to.
  pub call-run :
      {A : Type 0} (m : Act e.Outside A) (c : TestContext e) {r : Try A} {c' : TestContext e}
      → attempt (call e m) c ≡ (returned r, c')
      → m c.outside ≡ (r, c'.outside)
  unfolding call
  call-run m c h =
      let g = attempt-run (call e m) c h in ap (λ (v : Try _ × TestContext e). (v.0, v.1.outside)) g

  call-Returned :
      {A : Type 0} (m : Act e.Outside A) (c : TestContext e) {a : A} {w : e.Outside}
      → m c.outside ≡ (returned a, w)
      → Returned m a
  call-Returned m c {a} {w} h = record { before = c.outside; after = w; run = h }

  module _ (q : TestTarget) (s : HelmReleaseStatus) where
    -- The run was cancelled, or the clock had reached the total deadline.
    pub data NoTimeLeft : Type 0 where
      cancelled : (w : e.Outside) → (e.cancel_is_set w).0 ≡ true → NoTimeLeft
      past_deadline : (w : e.Outside) → q.total_deadline ≤ (e.clock w).0 → NoTimeLeft

    -- each pod was deleted, or is among the residual ones with what its deletion raised
    pub data IsReaping : List TestPod → List Text → Type 0 where
      no_pods : IsReaping [] []
      was_deleted :
          (p : TestPod) (rest : List TestPod) (residual : List Text)
          → Returned (e.delete_pod p.namespace p.name q.per_poll) tt
          → IsReaping rest residual
          → IsReaping (p ∷ rest) residual
      was_kept :
          (p : TestPod) (rest : List TestPod) (residual : List Text) (x : Failure)
          → is_external x ≡ true
          → CallRaised (e.delete_pod p.namespace p.name q.per_poll) x
          → IsReaping rest residual
          → IsReaping (p ∷ rest) (
              (p.namespace ++ (text "/" ++ (p.name ++ (text ": " ++ failure_detail x)))) ∷ residual)

    -- No pod of an earlier run was in flight, and those that had ended were reaped.
    pub record IsReaped (residual : List Text) : Type 0 where
      pub pods : List TestPod
      pub found : Returned (e.list_test_pods s.ref q.per_poll) pods
      pub none_in_flight : keep (λ p. in_flight_phase p.phase) pods ≡ []
      pub reaping : IsReaping (keep (λ p. stale_phase p.phase) pods) residual

    -- Helm was called within the budgets, as they stood at some reading of the clock.
    pub record IsWithinBudget (cap : ℕ) : Type 0 where
      pub reading : e.Outside
      pub positive : 0 < cap
      pub within_own : cap ≤ q.per_hr + subprocess_slack
      pub within_total : (e.clock reading).0 + cap ≤ q.total_deadline

    -- Why a run ended as it did.
    pub data IsTested : Ending → Type 0 where
      was_skipped : (end : Ending) → skip_of s ≡ some end → IsTested end
      ran_out : skip_of s ≡ none → NoTimeLeft → IsTested (total_timeout e q s)
      pods_unknown :
          (x : Failure)
          → skip_of s ≡ none
          → is_external x ≡ true
          → CallRaised (e.list_test_pods s.ref q.per_poll) x
          → IsTested (record (ending Verdict.failed Reason.reap_list_failed) {
            inline = some (message_of x);
          })
      still_running :
          (pods : List TestPod) (p : TestPod) (ps : List TestPod)
          → skip_of s ≡ none
          → Returned (e.list_test_pods s.ref q.per_poll) pods
          → keep (λ p. in_flight_phase p.phase) pods ≡ p ∷ ps
          → IsTested
              (record (ending Verdict.failed Reason.test_pod_in_flight) { in_flight = p ∷ ps })
      not_reaped :
          (r : Text) (rs : List Text)
          → skip_of s ≡ none
          → IsReaped (r ∷ rs)
          → IsTested (record (ending Verdict.failed Reason.reap_incomplete) { residual = r ∷ rs })
      ran_out_later : skip_of s ≡ none → IsReaped [] → NoTimeLeft → IsTested (total_timeout e q s)
      helm_was_run :
          (cap : ℕ) (r : CommandResult)
          → skip_of s ≡ none
          → IsReaped []
          → IsWithinBudget cap
          → Returned (e.helm_test s.ref.release_name s.ref.storage_namespace q.per_hr cap) r
          → IsTested
              (record (ending (classify_result r).0 (classify_result r).1) { helm_result = some r })
      helm_ran_out :
          (cap : ℕ) (message stderr : Text) (w : e.Outside)
          → skip_of s ≡ none
          → IsReaped []
          → IsWithinBudget cap
          → CallRaised
              (e.helm_test s.ref.release_name s.ref.storage_namespace q.per_hr cap)
              (command_timeout message stderr)
          → IsTested (helm_timed_out e q s (e.clock w).0)
      helm_not_run :
          (cap : ℕ) (x : Failure)
          → skip_of s ≡ none
          → IsReaped []
          → IsWithinBudget cap
          → is_external x ≡ true
          → CallRaised (e.helm_test s.ref.release_name s.ref.storage_namespace q.per_hr cap) x
          → IsTested (record (ending Verdict.failed Reason.helm_unavailable) {
            inline = some (message_of x);
          })

    out_of_time-NoTimeLeft :
        (c : TestContext e) {c' : TestContext e}
        → out_of_time e q s c ≡ (returned true, c')
        → NoTimeLeft
    unfolding out_of_time read pure ◌>>=◌
    out_of_time-NoTimeLeft c h = elim (Bool-cases (e.cancel_is_set c.outside).0) [
      | inl k ↦ cancelled c.outside k
      | inr k ↦
          past_deadline (e.cancel_is_set c.outside).1
            (leb→le q.total_deadline _ (returned-injective (ap (λ v. v.0) (rw k at h))))
    ]

    -- What a check of the time ends with.
    data IsCheck : Option Ending → Type 0 where
      has_time : IsCheck none
      has_none : NoTimeLeft → IsCheck (some (total_timeout e q s))

    check_time-IsCheck :
        (c : TestContext e) {o : Option Ending} {c' : TestContext e}
        → check_time e q s c ≡ (returned o, c')
        → IsCheck o
    unfolding check_time pure
    check_time-IsCheck c h =
        let (spent, c1, k, g) = >>=-returned _ _ c h in
        subst IsCheck (returned-injective (ap (λ v. v.0) g)) (by_answer spent c k)
      where
        by_answer :
            (spent : Bool) (c : TestContext e) {c1 : TestContext e}
            → out_of_time e q s c ≡ (returned spent, c1)
            → IsCheck (if spent then some (total_timeout e q s) else none)
        by_answer true c k = has_none (out_of_time-NoTimeLeft c k)
        by_answer false c k = has_time

    delete_result-IsReaping :
        (p : TestPod) (rest : List TestPod) (others : List Text) (first : TestContext e)
        (r : Try Unit) (c : TestContext e) {residual : List Text} {c' : TestContext e}
        → e.delete_pod p.namespace p.name q.per_poll first.outside ≡ (r, c.outside)
        → delete_result e q s p r c ≡ (returned residual, c')
        → IsReaping rest others
        → IsReaping (p ∷ rest) (residual ++ others)
    unfolding delete_result pure throw
    delete_result-IsReaping p rest others first (returned tt) c run h tail =
        subst (λ l. IsReaping (p ∷ rest) (l ++ others)) (returned-injective (ap (λ v. v.0) h))
          (was_deleted p rest others (call-Returned _ first run) tail)
    delete_result-IsReaping p rest others first (threw x) c run h tail =
        elim (Bool-cases (is_external x)) [
          | inl k ↦
              subst (λ l. IsReaping (p ∷ rest) (l ++ others))
                (returned-injective (ap (λ v. v.0) (rw k at h)))
                (was_kept p rest others x k
                  (record { before = first.outside; after = c.outside; run = run }) tail)
          | inr k ↦ absurd (threw-is-no-returned (ap (λ v. v.0) (rw k at h)))
        ]

    delete_all-IsReaping :
        (pods : List TestPod) (c : TestContext e) {residual : List Text} {c' : TestContext e}
        → delete_all e q s pods c ≡ (returned residual, c')
        → IsReaping pods residual
    unfolding delete_all pure
    delete_all-IsReaping [] c h =
        subst (IsReaping []) (returned-injective (ap (λ v. v.0) h)) no_pods
    delete_all-IsReaping (p ∷ rest) c h =
        let (r, c1, e1, h1) = >>=-returned _ _ c h in
        let (own, c2, e2, h2) = >>=-returned _ _ c1 h1 in
        let (others, c3, e3, h3) = >>=-returned _ _ c2 h2 in
        subst (IsReaping (p ∷ rest)) (returned-injective (ap (λ v. v.0) h3)) (
          delete_result-IsReaping p rest others c r c1
            (call-run (e.delete_pod p.namespace p.name q.per_poll) c e1) e2
            (delete_all-IsReaping rest c2 e3))

    -- What reaping ends with: the run goes on only when nothing is left.
    data IsReapEnd : Option Ending → Type 0 where
      reaped : IsReaped [] → IsReapEnd none
      not_clear : (end : Ending) → IsTested end → IsReapEnd (some end)

    after_deletes-IsReapEnd :
        (residual : List Text)
        → skip_of s ≡ none
        → IsReaped residual
        → IsReapEnd (after_deletes e q s residual)
    unfolding after_deletes
    after_deletes-IsReapEnd [] proceeds r = reaped r
    after_deletes-IsReapEnd (x ∷ xs) proceeds r = not_clear _ (not_reaped x xs proceeds r)

    reap_found-IsReapEnd :
        (pods flying : List TestPod) (c : TestContext e) {o : Option Ending} {c' : TestContext e}
        → skip_of s ≡ none
        → Returned (e.list_test_pods s.ref q.per_poll) pods
        → keep (λ p. in_flight_phase p.phase) pods ≡ flying
        → reap_found e q s flying (keep (λ p. stale_phase p.phase) pods) c ≡ (returned o, c')
        → IsReapEnd o
    unfolding reap_found pure
    reap_found-IsReapEnd pods (p ∷ ps) c proceeds found some_fly h =
        subst IsReapEnd (returned-injective (ap (λ v. v.0) h))
          (not_clear _ (still_running pods p ps proceeds found some_fly))
    reap_found-IsReapEnd pods [] c proceeds found none_fly h =
        let (residual, c1, k, g) = >>=-returned _ _ c h in
        subst IsReapEnd (returned-injective (ap (λ v. v.0) g)) (
          after_deletes-IsReapEnd residual proceeds (record {
            pods = pods;
            found = found;
            none_in_flight = none_fly;
            reaping = delete_all-IsReaping (keep (λ p. stale_phase p.phase) pods) c k;
          }))

    listed-IsReapEnd :
        (first : TestContext e) (r : Try (List TestPod)) (c : TestContext e) {o : Option Ending}
        {c' : TestContext e}
        → skip_of s ≡ none
        → e.list_test_pods s.ref q.per_poll first.outside ≡ (r, c.outside)
        → listed e q s r c ≡ (returned o, c')
        → IsReapEnd o
    unfolding listed reap_pods pure throw
    listed-IsReapEnd first (returned pods) c proceeds run h =
        reap_found-IsReapEnd pods _ c proceeds (call-Returned _ first run) refl h
    listed-IsReapEnd first (threw x) c proceeds run h = elim (Bool-cases (is_external x)) [
      | inl k ↦ subst IsReapEnd (returned-injective (ap (λ v. v.0) (rw k at h))) (
          not_clear _ (
            pods_unknown x proceeds k
              (record { before = first.outside; after = c.outside; run = run })))
      | inr k ↦ absurd (threw-is-no-returned (ap (λ v. v.0) (rw k at h)))
    ]

    reap-IsReapEnd :
        (c : TestContext e) {o : Option Ending} {c' : TestContext e}
        → skip_of s ≡ none
        → reap e q s c ≡ (returned o, c')
        → IsReapEnd o
    unfolding reap
    reap-IsReapEnd c proceeds h =
        let (_, c1, _, g) = >>=-returned _ _ c h in
        let (r, c2, k, f) = >>=-returned _ _ c1 g in
        listed-IsReapEnd c1 r c2 proceeds (call-run (e.list_test_pods s.ref q.per_poll) c1 k) f

    helm_raised-IsTested :
        (cap : ℕ) (first : TestContext e) (x : Failure) (c : TestContext e) {end : Ending}
        {c' : TestContext e}
        → skip_of s ≡ none
        → IsReaped []
        → IsWithinBudget cap
        → e.helm_test s.ref.release_name s.ref.storage_namespace q.per_hr cap first.outside
          ≡ (threw x, c.outside)
        → helm_raised e q s x c ≡ (returned end, c')
        → IsTested end
    unfolding helm_raised pure throw read ◌>>=◌
    helm_raised-IsTested cap first (command_timeout m err) c proceeds r b run h =
        subst IsTested (returned-injective (ap (λ v. v.0) h)) (
          helm_ran_out cap m err c.outside proceeds r b
            (record { before = first.outside; after = c.outside; run = run }))
    helm_raised-IsTested cap first x c proceeds r b run h = elim (Bool-cases (is_external x)) [
      | inl k ↦ subst IsTested (returned-injective (ap (λ v. v.0) (rw k at h))) (
          helm_not_run cap x proceeds r b k
            (record { before = first.outside; after = c.outside; run = run }))
      | inr k ↦ absurd (threw-is-no-returned (ap (λ v. v.0) (rw k at h)))
    ]

    helm_finished-IsTested :
        (cap : ℕ) (first : TestContext e) (t : Try CommandResult) (c : TestContext e) {end : Ending}
        {c' : TestContext e}
        → skip_of s ≡ none
        → IsReaped []
        → IsWithinBudget cap
        → e.helm_test s.ref.release_name s.ref.storage_namespace q.per_hr cap first.outside
          ≡ (t, c.outside)
        → helm_finished e q s t c ≡ (returned end, c')
        → IsTested end
    unfolding helm_finished pure
    helm_finished-IsTested cap first (threw x) c proceeds r b run h =
        helm_raised-IsTested cap first x c proceeds r b run h
    helm_finished-IsTested cap first (returned result) c proceeds r b run h =
        subst IsTested (returned-injective (ap (λ v. v.0) h))
          (helm_was_run cap result proceeds r b (call-Returned _ first run))

    cap-IsWithinBudget :
        (w : e.Outside)
        → leb (subprocess_cap e q s (e.clock w).0) 0 ≡ false
        → IsWithinBudget (subprocess_cap e q s (e.clock w).0)
    unfolding subprocess_cap
    cap-IsWithinBudget w h = record {
      reading = w;
      positive = leb→lt (subprocess_cap e q s (e.clock w).0) 0 h;
      within_own = omega arith;
      within_total = ground arith;
    }

    cap-NoTimeLeft :
        (w : e.Outside) → leb (subprocess_cap e q s (e.clock w).0) 0 ≡ true → NoTimeLeft
    unfolding subprocess_cap
    cap-NoTimeLeft w h = past_deadline w (ground arith)

    helm_with-IsTested :
        (w : e.Outside) (c : TestContext e) {end : Ending} {c' : TestContext e}
        → skip_of s ≡ none
        → IsReaped []
        → helm_with e q s (subprocess_cap e q s (e.clock w).0) c ≡ (returned end, c')
        → IsTested end
    unfolding helm_with pure
    helm_with-IsTested w c proceeds r h =
        let cap = subprocess_cap e q s (e.clock w).0 in
        elim (Bool-cases (leb cap 0)) [
          | inl k ↦
              subst IsTested (returned-injective (ap (λ v. v.0) (rw k at h)))
                (ran_out_later proceeds r (cap-NoTimeLeft w k))
          | inr k ↦
              let (t, c1, f, g) = >>=-returned _ _ c (rw k at h) in
              helm_finished-IsTested cap c t c1 proceeds r (cap-IsWithinBudget w k)
                (call-run (e.helm_test s.ref.release_name s.ref.storage_namespace q.per_hr cap) c f)
                g
        ]

    clock-value :
        (c : TestContext e) {now : ℕ} {c' : TestContext e}
        → read e e.clock c ≡ (returned now, c')
        → (e.clock c.outside).0 ≡ now
    unfolding read
    clock-value c h = returned-injective (ap (λ v. v.0) h)

    run_helm-IsTested :
        (c : TestContext e) {end : Ending} {c' : TestContext e}
        → skip_of s ≡ none
        → IsReaped []
        → run_helm e q s c ≡ (returned end, c')
        → IsTested end
    unfolding run_helm
    run_helm-IsTested c {end} {c'} proceeds r h =
        let (_, c1, _, g) = >>=-returned _ _ c h in
        let (now, c2, k, f) = >>=-returned _ _ c1 g in
        helm_with-IsTested c1.outside c2 proceeds r (
          subst (λ n. helm_with e q s (subprocess_cap e q s n) c2 ≡ (returned end, c'))
            (sym (clock-value c1 k)) f)

    -- What the preflight ends with.
    data IsPreflight : Option Ending → Type 0 where
      proceeds : skip_of s ≡ none → IsPreflight none
      stops : (end : Ending) → IsTested end → IsPreflight (some end)

    checked : (o : Option Ending) → skip_of s ≡ none → IsCheck o → IsPreflight o
    checked _ none_skipped has_time = proceeds none_skipped
    checked _ none_skipped (has_none spent) = stops _ (ran_out none_skipped spent)

    unless_skipped-IsPreflight :
        (first : Option Ending) (c : TestContext e) {o : Option Ending} {c' : TestContext e}
        → skip_of s ≡ first
        → unless_skipped e q s first c ≡ (returned o, c')
        → IsPreflight o
    unfolding unless_skipped pure
    unless_skipped-IsPreflight (some end) c skips h =
        subst IsPreflight (returned-injective (ap (λ v. v.0) h)) (stops end (was_skipped end skips))
    unless_skipped-IsPreflight none c {o} skips h = checked o skips (check_time-IsCheck c h)

    -- the rest of the pipeline, once nothing is left of an earlier run
    last_check-IsTested :
        (late : Option Ending) (c : TestContext e) {end : Ending} {c' : TestContext e}
        → skip_of s ≡ none
        → IsReaped []
        → IsCheck late
        → or_continue e q s (run_helm e q s) late c ≡ (returned end, c')
        → IsTested end
    unfolding or_continue pure
    last_check-IsTested _ c none_skipped r has_time h = run_helm-IsTested c none_skipped r h
    last_check-IsTested _ c none_skipped r (has_none spent) h =
        subst IsTested (returned-injective (ap (λ v. v.0) h)) (ran_out_later none_skipped r spent)

    after_reap-IsTested :
        (o : Option Ending) (c : TestContext e) {end : Ending} {c' : TestContext e}
        → skip_of s ≡ none
        → IsReapEnd o
        → or_continue e q s
            (check_time e q s >>= λ late. or_continue e q s (run_helm e q s) late)
            o
            c
          ≡ (returned end, c')
        → IsTested end
    unfolding or_continue pure
    after_reap-IsTested _ c none_skipped (reaped r) h =
        let (late, c1, k, g) = >>=-returned _ _ c h in
        last_check-IsTested late c1 none_skipped r (check_time-IsCheck c k) g
    after_reap-IsTested _ c none_skipped (not_clear end tested) h =
        subst IsTested (returned-injective (ap (λ v. v.0) h)) tested

    after_preflight-IsTested :
        (o : Option Ending) (c : TestContext e) {end : Ending} {c' : TestContext e}
        → IsPreflight o
        → or_continue e q s
            (reap e q s >>= λ reaped.
              or_continue e q s
                (check_time e q s >>= λ late. or_continue e q s (run_helm e q s) late)
                reaped)
            o
            c
          ≡ (returned end, c')
        → IsTested end
    unfolding or_continue pure
    after_preflight-IsTested _ c (proceeds none_skipped) h =
        let (o, c1, k, g) = >>=-returned _ _ c h in
        after_reap-IsTested o c1 none_skipped (reap-IsReapEnd c none_skipped k) g
    after_preflight-IsTested _ c (stops end tested) h =
        subst IsTested (returned-injective (ap (λ v. v.0) h)) tested

    -- the context once the run is announced
    abbrev pub announced : TestContext e → TestContext e
    announced c =
        (record_phase e s.ref (text "Preflight")
          (text "chart=" ++ (q.chart_name ++ (text "@" ++ q.version))) c).1

    -- A run from `c` to `c'`: why it ended, and what a skip leaves.
    pub record IsPipelined (c : TestContext e) (end : Ending) (c' : TestContext e) : Type 0 where
      pub tested : IsTested end
      pub untouched : (skip : Ending) → skip_of s ≡ some skip → (end ≡ skip) × (c' ≡ announced c)

    pipeline-skipped :
        (c : TestContext e) (skip : Ending)
        → skip_of s ≡ some skip
        → pipeline e q s c ≡ (returned skip, announced c)
    unfolding pipeline preflight unless_skipped or_continue ◌>>=◌ pure record_phase
    pipeline-skipped c skip k = rw k refl

    pub pipeline-IsTested :
        (c : TestContext e) {end : Ending} {c' : TestContext e}
        → pipeline e q s c ≡ (returned end, c')
        → IsPipelined c end c'
    unfolding pipeline preflight
    pipeline-IsTested c h =
        let (_, c1, _, g) = >>=-returned _ _ c h in
        let (first, c2, k, f) = >>=-returned _ _ c1 g in
        record {
          tested =
              after_preflight-IsTested first c2 (unless_skipped-IsPreflight (skip_of s) c1 refl k)
                f;
          untouched = λ skip is.
              let same = sym h ∙ pipeline-skipped c skip is in
              (returned-injective (ap (λ v. v.0) same), ap (λ v. v.1) same);
        }
