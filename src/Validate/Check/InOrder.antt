-- ===== src/Validate/Check/InOrder.antt =====
-- What the checks of a row say of each other: after one that failed the others are skipped.
use lab_charts.Base.{
  Bool, true, false, ◌||◌, Option, none, some, List, [], ◌∷◌, ◌++◌, map, any, keep, ◌≡◌, refl,
  append-nil, sym, ap, subst, ◌∙◌, inl, inr, arith, Bool-cases, if◌then◌else◌, Text,
}
use lab_charts.Cluster.Effects.{returned, Act, pure, returned-injective, >>=-returned}
use lab_charts.Validate.Check.{CheckedChart, CheckTools, is_requested, result_of, failed_checks}
use lab_charts.Validate.Check.Steps.{
  Now, tool, skipped, skip_reason, after_failed, unless_skipped, and_check, if_requested, check,
  check_schema, check_policy, helm_binary, timed, render,
}
use lab_charts.Validate.Check.Rendering.{
  IsPassedRender, IsTimed, render-IsPassedRender, timed-IsTimed,
}
use lab_charts.Validate.Models.{CheckName, CheckResult, Checks, Row, Status, is_failed}

abbrev pub failed_in : Checks → Bool
failed_in checks = any (λ (c : CheckName × CheckResult). is_failed c.1.status) checks

-- after a check that failed, or one that failed before these, the others are skipped
abbrev pub IsInOrder : Bool → Checks → Type 0
IsInOrder stopped [] = Unit
IsInOrder stopped ((name, result) ∷ rest) =
    (stopped ≡ true → result.status ≡ Status.skipped)
    × IsInOrder (stopped || is_failed result.status) rest

abbrev pub names_of : Checks → List CheckName
names_of checks = map (λ (c : CheckName × CheckResult). c.0) checks

IsInOrder-append :
    (stopped : Bool) (checks : Checks) (name : CheckName) (result : CheckResult)
    → IsInOrder stopped checks
    → ((stopped || failed_in checks) ≡ true → result.status ≡ Status.skipped)
    → IsInOrder stopped (checks ++ (name, result) ∷ [])
unfolding any
IsInOrder-append stopped [] name result h last = (λ s. last (ground arith), tt)
IsInOrder-append stopped ((n, r) ∷ rest) name result h last = (
  h.0,
  IsInOrder-append (stopped || is_failed r.status) rest name result h.1 λ s. last (ground arith),
)

failed_checks-any :
    (checks : Checks)
    → failed_in checks ≡ true
    → (n : Text) × (ns : List Text) × (failed_checks checks ≡ n ∷ ns)
unfolding any failed_checks keep
failed_checks-any [] h = absurd (cc)
failed_checks-any ((name, result) ∷ rest) h = elim (Bool-cases (is_failed result.status)) [
  | inl e ↦ rw e (_, _, refl)
  | inr e ↦ rw e (failed_checks-any rest (rw e at h))
]

map_append :
    (xs : Checks) (c : CheckName × CheckResult) → names_of (xs ++ c ∷ []) ≡ names_of xs ++ c.0 ∷ []
map_append [] c = refl
map_append (x ∷ xs) c = ap (λ r. x.0 ∷ r) (map_append xs c)

-- the checks that a row gets: always the rendering, first, and each other that was asked for
abbrev pub names_for : List CheckName → List CheckName
names_for requested =
    (CheckName.render ∷ []
      ++ (if is_requested CheckName.schema requested then CheckName.schema ∷ [] else []))
    ++ (if is_requested CheckName.policy requested then CheckName.policy ∷ [] else [])

pub record IsChecked (requested : List CheckName) (checks : Checks) : Type 0 where
  pub named : names_of checks ≡ names_for requested
  pub in_order : IsInOrder false checks

module _ (t : CheckTools) (chart : CheckedChart) (row : Row) (out : Text) where
  skip_reason-failed :
      (enabled : Bool) (earlier : Checks) (w : Now t) {reason : Option Text} {w' : Now t}
      → failed_in earlier ≡ true
      → skip_reason t chart row out enabled earlier w ≡ (returned reason, w')
      → (why : Text) × (reason ≡ some why)
  unfolding skip_reason after_failed pure
  skip_reason-failed false earlier w f h = (_, sym (returned-injective (ap (λ v. v.0) h)))
  skip_reason-failed true earlier w f h =
      let (n, ns, e) = failed_checks-any earlier f in
      (_, sym (returned-injective (ap (λ v. v.0) (rw e at h))))

  skipped-status :
      (name : CheckName) (why : Text) (w : Now t) {r : CheckResult} {w' : Now t}
      → skipped t row name why w ≡ (returned r, w')
      → r.status ≡ Status.skipped
  unfolding skipped pure result_of
  skipped-status name why w h =
      let (u, w1, e, h1) =
        >>=-returned (tool t (t.row_update row.chart row.env name Status.skipped [])) _ w h in
      ap (λ (r : CheckResult). r.status) (sym (returned-injective (ap (λ v. v.0) h1)))

  unless_skipped-status :
      (name : CheckName) (m : Act (Now t) CheckResult) (why : Text) (reason : Option Text)
      (w : Now t) {r : CheckResult} {w' : Now t}
      → reason ≡ some why
      → unless_skipped t chart row out name m reason w ≡ (returned r, w')
      → r.status ≡ Status.skipped
  unfolding unless_skipped
  unless_skipped-status name m why none w e h = absurd (cc)
  unless_skipped-status name m why (some reason) w e h = skipped-status name reason w h

  -- a check adds its result, a skipped one after a failed check
  and_check-added :
      (name : CheckName) (enabled : Bool) (m : Act (Now t) CheckResult) (earlier : Checks)
      (w : Now t) {checks : Checks} {w' : Now t}
      → and_check t chart row out name enabled m earlier w ≡ (returned checks, w')
      → (r : CheckResult) × (checks ≡ earlier ++ (name, r) ∷ [])
        × (failed_in earlier ≡ true → r.status ≡ Status.skipped)
  unfolding and_check pure
  and_check-added name enabled m earlier w h =
      let (reason, w1, e1, h1) = >>=-returned (skip_reason t chart row out enabled earlier) _ w h in
      let (r, w2, e2, h2) = >>=-returned (unless_skipped t chart row out name m reason) _ w1 h1 in
      (
        r,
        sym (returned-injective (ap (λ v. v.0) h2)),
        λ f.
            let (why, is) = skip_reason-failed enabled earlier w f e1 in
            unless_skipped-status name m why reason w1 is e2,
      )

  -- the names of the checks so far, and their order
  record IsSoFar (names : List CheckName) (checks : Checks) : Type 0 where
    pub named : names_of checks ≡ names
    pub in_order : IsInOrder false checks

  if_requested-IsSoFar :
      (requested : List CheckName) (name : CheckName) (enabled : Bool) (m : Act (Now t) CheckResult)
      (names : List CheckName) (earlier : Checks) (w : Now t) {checks : Checks} {w' : Now t}
      → IsSoFar names earlier
      → if_requested t chart row out requested name enabled m earlier w ≡ (returned checks, w')
      → IsSoFar (names ++ (if is_requested name requested then name ∷ [] else [])) checks
  unfolding if_requested pure
  if_requested-IsSoFar requested name enabled m names earlier w s h =
      elim (Bool-cases (is_requested name requested)) [
        | inl e ↦
            let (r, same, last) = and_check-added name enabled m earlier w (rw e at h) in
            rw e (
              subst (IsSoFar (names ++ name ∷ [])) (sym same) (record {
                named = map_append earlier (name, r) ∙ ap (λ ns. ns ++ name ∷ []) s.named;
                in_order = IsInOrder-append false earlier name r s.in_order last;
              }))
        | inr e ↦ rw e (
            subst (IsSoFar (names ++ [])) (returned-injective (ap (λ v. v.0) (rw e at h)))
              (rw append-nil s))
      ]

  if_requested-added :
      (requested : List CheckName) (name : CheckName) (enabled : Bool) (m : Act (Now t) CheckResult)
      (first : CheckName × CheckResult) (rest : Checks) (w : Now t) {checks : Checks} {w' : Now t}
      → if_requested t chart row out requested name enabled m (first ∷ rest) w
        ≡ (returned checks, w')
      → (more : Checks) × (checks ≡ first ∷ more)
  unfolding if_requested pure
  if_requested-added requested name enabled m first rest w h =
      elim (Bool-cases (is_requested name requested)) [
        | inl e ↦
            let (r, same, last) = and_check-added name enabled m (first ∷ rest) w (rw e at h) in
            (_, same)
        | inr e ↦ (rest, sym (returned-injective (ap (λ v. v.0) (rw e at h))))
      ]

  -- What the checks of a row have done from `w` on: they stand in order, and the first is the
  -- rendering, which was run with the binary that the chart asks for; when it passed, helm has
  -- rendered the chart.
  pub record IsInspected (requested : List CheckName) (w : Now t) (checks : Checks) : Type 0 where
    pub checked : IsChecked requested checks
    pub result : CheckResult
    pub others : Checks
    pub first : checks ≡ (CheckName.render, result) ∷ others
    pub binary : Text
    pub chosen : Now t
    pub found_binary : helm_binary t chart.spec w ≡ (returned binary, chosen)
    pub timing : IsTimed t chart row out (render t chart row out binary) chosen result
    pub passed :
        result.status ≡ Status.passed
        → IsPassedRender t chart row out binary timing.before timing.after

  -- The checks of a row that return are one result for each check that it gets, the rendering first;
  -- after a check that failed all the later ones are skipped. The first result is what the run of
  -- the rendering gave; if it is a pass, then in that run the values files were found, the
  -- directory, no link, was cleared, the dependencies were made ready, and the call of helm with
  -- that release, namespace, directory and values rendered the chart, in this order.
  pub check-IsChecked :
      (requested : List CheckName) (w : Now t) {checks : Checks} {w' : Now t}
      → check t chart row out requested w ≡ (returned checks, w')
      → IsInspected requested w checks
  unfolding check
  check-IsChecked requested w h =
      let (binary, w1, e1, h1) = >>=-returned (helm_binary t chart.spec) _ w h in
      let (r, w2, e2, h2) =
        >>=-returned (timed t chart row out CheckName.render (render t chart row out binary)) _ w1
          h1 in
      let (cs, w3, e3, h3) =
        >>=-returned
          (if_requested t chart row out requested CheckName.schema chart.spec.kubeconform
            (check_schema t chart row out) ((CheckName.render, r) ∷ []))
          _ w2 h2 in
      let so_far =
        if_requested-IsSoFar requested CheckName.schema chart.spec.kubeconform
          (check_schema t chart row out) (CheckName.render ∷ []) ((CheckName.render, r) ∷ []) w2
          (record { named = refl; in_order = ((λ z. cc), tt) }) e3 in
      let all_of =
        if_requested-IsSoFar requested CheckName.policy chart.spec.policy
          (check_policy t chart row out) _ cs w3 so_far h3 in
      let (more, begins) =
        if_requested-added requested CheckName.schema chart.spec.kubeconform
          (check_schema t chart row out) (CheckName.render, r) [] w2 e3 in
      let (others, first) =
        if_requested-added requested CheckName.policy chart.spec.policy
          (check_policy t chart row out) (CheckName.render, r) more w3 (rw begins at h3) in
      let timing = timed-IsTimed t chart row out CheckName.render _ w1 e2 in
      record {
        checked = record { named = all_of.named; in_order = all_of.in_order };
        result = r;
        others = others;
        first = first;
        binary = binary;
        chosen = w1;
        found_binary = e1;
        timing = timing;
        passed = λ passes.
            render-IsPassedRender t chart row out binary timing.before timing.run
              (timing.same_status ∙ passes);
      }
