-- ===== src/Promote/PullRequest/Promoted.antt =====
-- How a promotion that returns has come to its status.
use lab_charts.Base.{
  Bool, true, false, Option, none, some, List, [], ◌∷◌, Every, nat_eq, list_eq, ◌≡◌, ◌≢◌, refl, sym,
  ap, subst, ◌∙◌, inl, inr, Bool-cases,
}
use lab_charts.Cluster.Effects.{
  Failure, returned, pure, throw, for_each, Returned, Raises, returned-injective,
  threw-is-no-returned, >>=-returned, throw-Raises, if-Raises, for_each-returned, catch-returned,
  is_external,
}
use lab_charts.Promote.Scanner.{HelmReleaseMatch, Tree, Scan, found, refused, scan}
use lab_charts.Promote.State.{no_changes, aborted, already_open}
use lab_charts.Promote.PullRequest.{
  PromoteRequest, PullRequest, PromoteResult, Flux, branch_name, pr_title, pr_body, result_of,
  drift_of, downgrades_of, changed_files_of, set_version, pr_failed, publish, opened_result,
  unless_open, if_confirmed, confirmed, dry_result, promote_drift, promote_matches,
  promote_in_workdir,
}

module _ (f : Flux) (q : PromoteRequest) where
  -- the clone was scanned, and holds HelmReleases of the chart
  pub record IsScanned (w w1 : f.Outside) (matches : List HelmReleaseMatch) : Type 0 where
    pub inside : f.is_inside q.path ≡ true
    pub tree : Tree
    pub read : f.tree q.path w ≡ (returned tree, w1)
    pub scanned : scan f.show_mapping q.chart_name q.path tree ≡ found matches
    pub any_match : matches ≢ []

  -- the drift was edited, committed and pushed, and the pull request created
  pub record IsPublished (drift : List HelmReleaseMatch) (pr : PullRequest) : Type 0 where
    pub edited : Every (λ path. Returned (set_version f q path) tt) (changed_files_of f q drift)
    pub branched : Returned (f.checkout_new_branch (branch_name q) q.base_branch) tt
    pub added : Returned (f.add (changed_files_of f q drift)) tt
    pub committed : Returned (f.commit (pr_title q) (pr_body f q drift)) tt
    pub is_pushed : Returned (f.push (branch_name q)) tt
    pub created :
        Returned (f.create_pr (pr_title q) (pr_body f q drift) (branch_name q) q.base_branch) pr

  -- what made a promotion end in a state, after the scan
  pub data IsPromoted (w1 w' : f.Outside) (matches : List HelmReleaseMatch) (r : PromoteResult)
      : Type 0 where
    nothing_to_do :
        drift_of f q matches ≡ []
        → w1 ≡ w'
        → result_of f q no_changes matches ≡ r
        → IsPromoted w1 w' matches r
    planned :
        drift_of f q matches ≢ []
        → q.is_dry_run ≡ true
        → w1 ≡ w'
        → dry_result f q matches ≡ r
        → IsPromoted w1 w' matches r
    declined :
        q.is_dry_run ≡ false
        → confirmed f q (downgrades_of f q (drift_of f q matches)) w1 ≡ (returned false, w')
        → r.status ≡ aborted
        → IsPromoted w1 w' matches r
    found_open :
        (pr : PullRequest) (w2 : f.Outside)
        → q.is_dry_run ≡ false
        → confirmed f q (downgrades_of f q (drift_of f q matches)) w1 ≡ (returned true, w2)
        → f.find_open_pr_for_branch (branch_name q) q.base_branch w2 ≡ (returned (some pr), w')
        → r.status ≡ already_open
        → r.pull_request ≡ some pr
        → IsPromoted w1 w' matches r
    opened :
        (pr : PullRequest) (w2 w3 : f.Outside)
        → q.is_dry_run ≡ false
        → drift_of f q matches ≢ []
        → confirmed f q (downgrades_of f q (drift_of f q matches)) w1 ≡ (returned true, w2)
        → f.find_open_pr_for_branch (branch_name q) q.base_branch w2 ≡ (returned none, w3)
        → IsPublished (drift_of f q matches) pr
        → opened_result f q matches pr ≡ r
        → IsPromoted w1 w' matches r

  pr_failed-Raises : (x : Failure) → Raises (pr_failed f q x)
  unfolding pr_failed
  pr_failed-Raises x = if-Raises (is_external x) (throw-Raises _) (throw-Raises x)

  publish-IsPublished :
      (drift : List HelmReleaseMatch) (w : f.Outside) {pr : PullRequest} {w' : f.Outside}
      → publish f q drift w ≡ (returned pr, w')
      → IsPublished drift pr
  unfolding publish
  publish-IsPublished drift w h =
      let (_, v1, e1, h1) =
        >>=-returned (for_each (changed_files_of f q drift) (set_version f q)) _ w h in
      let (_, v2, e2, h2) =
        >>=-returned (f.checkout_new_branch (branch_name q) q.base_branch) _ v1 h1 in
      let (_, v3, e3, h3) = >>=-returned (f.add (changed_files_of f q drift)) _ v2 h2 in
      let (_, v4, e4, h4) = >>=-returned (f.commit (pr_title q) (pr_body f q drift)) _ v3 h3 in
      let (_, v5, e5, h5) = >>=-returned (f.push (branch_name q)) _ v4 h4 in
      record {
        edited = for_each-returned (changed_files_of f q drift) (set_version f q) w e1;
        branched = record { before = v1; after = v2; run = e2 };
        added = record { before = v2; after = v3; run = e3 };
        committed = record { before = v3; after = v4; run = e4 };
        is_pushed = record { before = v4; after = v5; run = e5 };
        created = record {
          before = v5;
          after = _;
          run =
              catch-returned
                (f.create_pr (pr_title q) (pr_body f q drift) (branch_name q) q.base_branch)
                (pr_failed f q) v5 pr_failed-Raises h5;
        };
      }

  pure-run :
      {A : Type 0} (a : A) (w : f.Outside) {b : A} {w' : f.Outside}
      → pure {S = f.Outside} a w ≡ (returned b, w')
      → (a ≡ b) × (w ≡ w')
  unfolding pure
  pure-run a w h = (returned-injective (ap (λ v. v.0) h), ap (λ v. v.1) h)

  module _ (matches : List HelmReleaseMatch) where
    unless_open-IsPromoted :
        (existing : Option PullRequest) (w1 w2 w3 : f.Outside) {r : PromoteResult} {w' : f.Outside}
        → q.is_dry_run ≡ false
        → drift_of f q matches ≢ []
        → confirmed f q (downgrades_of f q (drift_of f q matches)) w1 ≡ (returned true, w2)
        → f.find_open_pr_for_branch (branch_name q) q.base_branch w2 ≡ (returned existing, w3)
        → unless_open f q matches existing w3 ≡ (returned r, w')
        → IsPromoted w1 w' matches r
    unfolding unless_open result_of
    unless_open-IsPromoted (some pr) w1 w2 w3 {r} {w'} dry d c e h =
        let (g, v) = pure-run _ w3 h in
        found_open pr w2 dry c
          (subst
            (λ x.
              f.find_open_pr_for_branch (branch_name q) q.base_branch w2 ≡ (returned (some pr), x))
            v e)
          (ap (λ (x : PromoteResult). x.status) (sym g))
          (ap (λ (x : PromoteResult). x.pull_request) (sym g))
    unless_open-IsPromoted none w1 w2 w3 dry d c e h =
        let (pr, v, e1, h1) = >>=-returned (publish f q (drift_of f q matches)) _ w3 h in
        opened pr w2 w3 dry d c e (publish-IsPublished (drift_of f q matches) w3 e1)
          (pure-run _ v h1).0

    if_confirmed-IsPromoted :
        (answer : Bool) (w1 w2 : f.Outside) {r : PromoteResult} {w' : f.Outside}
        → q.is_dry_run ≡ false
        → drift_of f q matches ≢ []
        → confirmed f q (downgrades_of f q (drift_of f q matches)) w1 ≡ (returned answer, w2)
        → if_confirmed f q matches answer w2 ≡ (returned r, w')
        → IsPromoted w1 w' matches r
    unfolding if_confirmed result_of
    if_confirmed-IsPromoted false w1 w2 dry d c h =
        let (g, v) = pure-run _ w2 h in
        declined dry
          (subst
            (λ x. confirmed f q (downgrades_of f q (drift_of f q matches)) w1 ≡ (returned false, x))
            v c)
          (ap (λ (x : PromoteResult). x.status) (sym g))
    if_confirmed-IsPromoted true w1 w2 dry d c h =
        let (existing, w3, e, h1) =
          >>=-returned (f.find_open_pr_for_branch (branch_name q) q.base_branch) _ w2 h in
        unless_open-IsPromoted existing w1 w2 w3 dry d c e h1

    promote_drift-IsPromoted :
        (drift : List HelmReleaseMatch) (w1 : f.Outside) {r : PromoteResult} {w' : f.Outside}
        → drift_of f q matches ≡ drift
        → promote_drift f q matches drift w1 ≡ (returned r, w')
        → IsPromoted w1 w' matches r
    unfolding promote_drift
    promote_drift-IsPromoted [] w1 e h = let (g, v) = pure-run _ w1 h in nothing_to_do e v g
    promote_drift-IsPromoted (m ∷ ms) w1 {r} {w'} e h = elim (Bool-cases q.is_dry_run) [
      | inl d ↦ let (g, v) = pure-run _ w1 (rw d at h) in planned some_drift d v g
      | inr d ↦
          let (answer, w2, c, h1) =
            >>=-returned (confirmed f q (downgrades_of f q (m ∷ ms))) _ w1 (rw d at h) in
          if_confirmed-IsPromoted answer w1 w2 d some_drift
            (subst (λ x. confirmed f q (downgrades_of f q x) w1 ≡ (returned answer, w2)) (sym e) c)
            h1
    ]
      where
        some_drift : drift_of f q matches ≢ []
        some_drift z = nothing (sym e ∙ z)
          where
            nothing : (m ∷ ms) ≢ []
            nothing y = cc

  promote_matches-IsPromoted :
      (s : Scan) (w1 : f.Outside) {r : PromoteResult} {w' : f.Outside}
      → promote_matches f q s w1 ≡ (returned r, w')
      → (matches : List HelmReleaseMatch) × (s ≡ found matches)
        × (matches ≢ [])
        × IsPromoted w1 w' matches r
  unfolding promote_matches throw
  promote_matches-IsPromoted (refused message) w1 h = absurd (cc)
  promote_matches-IsPromoted (found []) w1 h = absurd (cc)
  promote_matches-IsPromoted (found (m ∷ ms)) w1 h =
      (m ∷ ms, refl, (λ z. cc), promote_drift-IsPromoted (m ∷ ms) (drift_of f q (m ∷ ms)) w1 refl h)

  -- A promotion that returns has scanned the clone and found HelmReleases of the chart. It reports no
  -- changes where none drifts, and a plan in a dry run, and in both cases has done nothing since the
  -- scan; it is aborted by the operator's answer about downgrades; it reports a pull request that is
  -- open already; or it has edited every file of the drift, committed to a branch, pushed it and
  -- created the pull request that it reports.
  pub promote_in_workdir-IsPromoted :
      (w : f.Outside) {r : PromoteResult} {w' : f.Outside}
      → promote_in_workdir f q w ≡ (returned r, w')
      → (w1 : f.Outside) × (matches : List HelmReleaseMatch) × IsScanned w w1 matches
        × IsPromoted w1 w' matches r
  unfolding promote_in_workdir throw
  promote_in_workdir-IsPromoted w h = elim (Bool-cases (f.is_inside q.path)) [
    | inl i ↦
        let (tree, w1, e, h1) = >>=-returned (f.tree q.path) _ w (rw i at h) in
        let (matches, s, m, p) =
          promote_matches-IsPromoted (scan f.show_mapping q.chart_name q.path tree) w1 h1 in
        (w1, matches, record { inside = i; tree = tree; read = e; scanned = s; any_match = m }, p)
    | inr i ↦ absurd (threw-is-no-returned (ap (λ v. v.0) (rw i at h)))
  ]
