-- ===== src/Validate/Check/Rendering.antt =====
-- What a rendering that passed has done (commands/validate/run.py, `_render` and `_run_check`).
use lab_charts.Base.{
  ℕ, ◌-◌, Bool, true, false, Option, none, some, List, ◌≡◌, ◌≢◌, refl, sym, ap, subst, ◌∙◌, inl,
  inr, Bool-cases, if◌then◌else◌, Text,
}
use lab_charts.Cluster.Effects.{
  Failure, missing_tool, is_external, Try, returned, threw, Act, pure, throw, catch, on_failure,
  returned-injective, threw-is-no-returned, >>=-returned, ◌>>=◌, ◌>>◌,
}
use lab_charts.Validate.Check.{
  CheckedChart, CheckTools, Templated, rendered, not_rendered, result_of, render_result,
  find_environment, is_rejection,
}
use lab_charts.Validate.Check.Steps.{
  Now, tool, ensure_once, or_error, values_of, template, timed, unless_stale, render_into, render,
}
use lab_charts.Validate.Models.{CheckName, CheckResult, Row, Status}

module _ (t : CheckTools) (chart : CheckedChart) (row : Row) (out : Text) where
  -- From `w` to `w'` the values of the environment were found, the directory was no link, and was
  -- cleared, the dependencies were made ready, and then helm rendered the chart into it.
  pub record IsPassedRender (binary : Text) (w w' : Now t) : Type 0 where
    pub values : List Text
    pub with_values : Now t
    pub unlinked : Now t
    pub cleared : Now t
    pub ready : Now t
    pub found_values :
        values_of t chart row.env (find_environment row.env chart.spec.environments) w
        ≡ (returned values, with_values)
    pub no_link : tool t (t.is_linked out) with_values ≡ (returned false, unlinked)
    pub was_cleared : tool t (t.clear out) unlinked ≡ (returned tt, cleared)
    pub was_ready : ensure_once t binary chart.path cleared ≡ (returned tt, ready)
    pub was_rendered :
        tool t (t.template binary row.release chart.path row.namespace out values) ready
        ≡ (returned rendered, w')

  or_error-status :
      (covers : Failure → Bool) (x : Failure) (w : Now t) {r : CheckResult} {w' : Now t}
      → or_error t covers x w ≡ (returned r, w')
      → r.status ≡ Status.error
  unfolding or_error throw pure result_of
  or_error-status covers (missing_tool m) w h = absurd (threw-is-no-returned (ap (λ v. v.0) h))
  or_error-status covers x w h = elim (Bool-cases (covers x)) [
    | inl k ↦
        ap (λ (r : CheckResult). r.status) (sym (returned-injective (ap (λ v. v.0) (rw k at h))))
    | inr k ↦ absurd (threw-is-no-returned (ap (λ v. v.0) (rw k at h)))
  ]

  -- what the making ready of the dependencies leaves: an error as the result, or readiness
  abbrev IsStale : Text → Now t → Option CheckResult → Now t → Type 0
  IsStale binary w none w' = ensure_once t binary chart.path w ≡ (returned tt, w')
  IsStale binary w (some r) w' = r.status ≡ Status.error

  ensure-IsStale :
      (binary : Text) (w : Now t) (r : Try (Option CheckResult)) (v : Now t)
      {o : Option CheckResult} {w' : Now t}
      → (ensure_once t binary chart.path >> pure none) w ≡ (r, v)
      → on_failure (λ x. or_error t is_external x >>= λ r. pure (some r)) r v ≡ (returned o, w')
      → IsStale binary w o w'
  unfolding pure
  ensure-IsStale binary w (returned found) v {w' = w'} run h =
      let (_, w1, e, g) = >>=-returned (ensure_once t binary chart.path) _ w run in
      let none_found =
        returned-injective (ap (λ v. v.0) g) ∙ returned-injective (ap (λ v. v.0) h) in
      let same = ap (λ v. v.1) g ∙ ap (λ v. v.1) h in
      subst (λ o. IsStale binary w o w') none_found (e ∙ ap (λ v. (returned tt, v)) same)
  ensure-IsStale binary w (threw x) v {w' = w'} run h =
      let (r, w1, e, g) = >>=-returned (or_error t is_external x) _ v h in
      subst (λ o. IsStale binary w o w') (returned-injective (ap (λ v. v.0) g))
        (or_error-status is_external x v e)

  no_pass : Status.error ≢ Status.passed
  no_pass h = cc

  failing : (b : Bool) → (if b then Status.failed else Status.error) ≢ Status.passed
  failing true h = cc
  failing false h = cc

  template-passed :
      (answer : Templated) (r : CheckResult)
      → render_result answer ≡ r
      → r.status ≡ Status.passed
      → answer ≡ rendered
  unfolding render_result result_of
  template-passed rendered r same passes = refl
  template-passed (not_rendered code m) r same passes =
      absurd (failing (is_rejection code) (ap (λ (r : CheckResult). r.status) same ∙ passes))

  render_into-IsPassedRender :
      (binary : Text) (values : List Text) (linked : Bool) (w with_values unlinked : Now t)
      {r : CheckResult} {w' : Now t}
      → values_of t chart row.env (find_environment row.env chart.spec.environments) w
        ≡ (returned values, with_values)
      → tool t (t.is_linked out) with_values ≡ (returned linked, unlinked)
      → render_into t chart row out binary values linked unlinked ≡ (returned r, w')
      → r.status ≡ Status.passed
      → IsPassedRender binary w w'
  unfolding render_into throw catch unless_stale template pure
  render_into-IsPassedRender binary values true w wa w0 found no_link h passes =
      absurd (threw-is-no-returned (ap (λ v. v.0) h))
  render_into-IsPassedRender binary values false w wa w0 {r} {w'} found no_link h passes =
      let (_, w1, e1, h1) = >>=-returned (tool t (t.clear out)) _ w0 h in
      let (stale, w2, e2, h2) =
        >>=-returned
          (catch (ensure_once t binary chart.path >> pure none)
            (λ x. or_error t is_external x >>= λ r. pure (some r)))
          (unless_stale t chart row out binary values) w1 h1 in
      let by_catch = catch_stale w1 e2 in by_stale stale w1 w2 e1 by_catch h2
    where
      catch_stale :
          (w1 : Now t) {o : Option CheckResult} {w2 : Now t}
          → catch
              (ensure_once t binary chart.path >> pure none)
              (λ x. or_error t is_external x >>= λ r. pure (some r))
              w1
            ≡ (returned o, w2)
          → IsStale binary w1 o w2
      catch_stale w1 k = ensure-IsStale binary w1 _ _ refl k

      by_stale :
          (stale : Option CheckResult) (w1 w2 : Now t)
          → tool t (t.clear out) w0 ≡ (returned tt, w1)
          → IsStale binary w1 stale w2
          → unless_stale t chart row out binary values stale w2 ≡ (returned r, w')
          → IsPassedRender binary w w'
      by_stale (some x) w1 w2 cleared is_error k =
          let same = returned-injective (ap (λ v. v.0) k) in
          absurd (no_pass (sym is_error ∙ (ap (λ (r : CheckResult). r.status) same ∙ passes)))
      by_stale none w1 w2 cleared ready k =
          let (answer, w3, e3, h3) =
            >>=-returned
              (tool t (t.template binary row.release chart.path row.namespace out values))
              (λ answer. pure (render_result answer)) w2 k in
          let is = template-passed answer r (returned-injective (ap (λ v. v.0) h3)) passes in
          record {
            values = values;
            with_values = wa;
            unlinked = w0;
            cleared = w1;
            ready = w2;
            found_values = found;
            no_link = no_link;
            was_cleared = cleared;
            was_ready = ready;
            was_rendered =
                e3 ∙ (ap (λ a. (returned a, w3)) is ∙ ap (λ v. (returned rendered, v.1)) h3);
          }

  pub render-IsPassedRender :
      (binary : Text) (w : Now t) {r : CheckResult} {w' : Now t}
      → render t chart row out binary w ≡ (returned r, w')
      → r.status ≡ Status.passed
      → IsPassedRender binary w w'
  unfolding render
  render-IsPassedRender binary w h passes =
      let (values, wa, e1, h1) =
        >>=-returned (values_of t chart row.env (find_environment row.env chart.spec.environments))
          _ w h in
      let (linked, w0, e2, h2) = >>=-returned (tool t (t.is_linked out)) _ wa h1 in
      render_into-IsPassedRender binary values linked w wa w0 e1 e2 h2 passes

  -- A check that is timed is the result of its run, with the time that it took.
  pub record IsTimed (m : Act (Now t) CheckResult) (w : Now t) (r : CheckResult) : Type 0 where
    pub own : CheckResult
    pub before : Now t
    pub after : Now t
    pub took_start : (started : ℕ) × (tool t t.now w ≡ (returned started, before))
    pub run : m before ≡ (returned own, after)
    pub same_status : own.status ≡ r.status
    pub same_detail : own.detail ≡ r.detail

  pub timed-IsTimed :
      (name : CheckName) (m : Act (Now t) CheckResult) (w : Now t) {r : CheckResult} {w' : Now t}
      → timed t chart row out name m w ≡ (returned r, w')
      → IsTimed m w r
  unfolding timed pure
  timed-IsTimed name m w {r} h =
      let (started, w1, e1, h1) = >>=-returned (tool t t.now) _ w h in
      let (own, w2, e2, h2) = >>=-returned m _ w1 h1 in
      let (ended, w3, e3, h3) = >>=-returned (tool t t.now) _ w2 h2 in
      let (_, w4, e4, h4) =
        >>=-returned
          (tool t (t.row_update row.chart row.env name own.status (t.seconds (ended - started)))) _
          w3 h3 in
      let same : (record own { elapsed = some (ended - started) }) ≡ r =
        returned-injective (ap (λ v. v.0) h4) in
      record {
        own = own;
        before = w1;
        after = w2;
        took_start = (started, e1);
        run = e2;
        same_status = ap (λ (r : CheckResult). r.status) same;
        same_detail = ap (λ (r : CheckResult). r.detail) same;
      }
