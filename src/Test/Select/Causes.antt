-- ===== src/Test/Select/Causes.antt =====
-- Why a changed file selects a chart test.
use lab_charts.Base.{
  true, Eq, Option, none, some, List, [], ◌∷◌, ◌++◌, any, contains, contains_of_mem, keep, map,
  Memᴰ, Every, Every-of_mem, ◌≡◌, refl, sym, ap, subst, ◌∙◌, inl, inr, Bool-cases, eq_of_beq,
  nat_eq, list_eq, pair_eq, ◌==◌, Text, text,
}
use lab_charts.Charts.Result.{Key, Result, ok, err, out_of_fuel, >>=-eq-ok, ok-injective}
use lab_charts.Charts.Lifecycle.{ChartTestRef, ChartTestProfile, ChartTestSpec}
use lab_charts.Workspace.{path_of, chart_name_from_repo_path, pattern_matches}
use lab_charts.Test.Select.{
  chart_change, declared_dependent_test, chart_test_fanout, Reason, Repo, Reasons, with_reason,
  reason_beq, add_reason, chart_test, fanout_patterns, fanout_detail, changed_paths,
  matching_patterns, fanout_of, add_fanout, add_fanouts, Found, target_text, add_dependent,
  named_profile, add_dependents, profile_for, add_owned, add_path, add_paths, reasons_for,
}

module _ (r : Repo) (profiles : List Key) (paths patterns : List Text) where
  -- the rules by which a changed file selects a test
  pub data IsCause : Key → Reason → Type 0 where
    by_fanout :
        (key : Key) (path pattern : Text)
        → contains profiles key ≡ true
        → contains paths path ≡ true
        → contains patterns pattern ≡ true
        → pattern_matches r.fnmatchcase pattern (path_of path) ≡ true
        → IsCause key (record {
          code = chart_test_fanout;
          changed_file = path;
          detail = fanout_detail r pattern;
        })
    by_change :
        (chart profile path : Text)
        → contains paths path ≡ true
        → chart_name_from_repo_path r.charts_dir (path_of path) ≡ some chart
        → profile_for r chart profiles ≡ some profile
        → IsCause
            (chart, profile)
            (record {
              code = chart_change;
              changed_file = path;
              detail =
                  text "changed file belongs to "
                  ++ (chart ++ text ", which has chart tests enabled");
            })
    by_dependent :
        (chart profile path : Text) (spec : ChartTestSpec) (ref : ChartTestRef)
        (named : ChartTestProfile)
        → contains paths path ≡ true
        → chart_name_from_repo_path r.charts_dir (path_of path) ≡ some chart
        → profile_for r chart profiles ≡ some profile
        → chart_test r chart ≡ ok spec
        → Memᴰ ref spec.dependent_tests
        → named_profile r ref ≡ ok named
        → IsCause
            (ref.chart, ref.profile)
            (record {
              code = declared_dependent_test;
              changed_file = path;
              detail = chart ++ (text " declares dependent test " ++ target_text r ref);
            })

  -- a test with its reasons: it has one, and each is a cause
  pub record IsCaused (item : Key × List Reason) : Type 0 where
    pub first : Reason
    pub others : List Reason
    pub some_reason : item.1 ≡ first ∷ others
    pub causes : Every (IsCause item.0) item.1

  -- what `selected` may hold
  abbrev pub AllCaused : Reasons → Type 0
  AllCaused selected = Every IsCaused selected

  Every-append :
      (key : Key) (found : List Reason) (reason : Reason)
      → Every (IsCause key) found
      → IsCause key reason
      → Every (IsCause key) (found ++ reason ∷ [])
  Every-append key [] reason h c = (c, tt)
  Every-append key (x ∷ xs) reason h c = (h.0, Every-append key xs reason h.1 c)

  with_reason-IsCaused :
      (key : Key) (found : List Reason) (reason : Reason)
      → IsCaused (key, found)
      → IsCause key reason
      → IsCaused (key, with_reason reason found)
  unfolding with_reason
  with_reason-IsCaused key found reason h c = elim (Bool-cases (any (reason_beq reason) found)) [
    | inl e ↦ rw e h
    | inr e ↦ rw e (record {
      first = h.first;
      others = h.others ++ reason ∷ [];
      some_reason = ap (λ l. l ++ reason ∷ []) h.some_reason;
      causes = Every-append key found reason h.causes c;
    })
  ]

  add_reason-AllCaused :
      (key : Key) (reason : Reason) (selected : Reasons)
      → AllCaused selected
      → IsCause key reason
      → AllCaused (add_reason key reason selected)
  unfolding add_reason with_reason any
  add_reason-AllCaused key reason [] h c =
      (record { first = reason; others = []; some_reason = refl; causes = (c, tt) }, tt)
  add_reason-AllCaused key reason ((k, found) ∷ rest) h c = elim (Bool-cases (k == key)) [
    | inl e ↦ rw e (
      with_reason-IsCaused k found reason h.0 (subst (λ x. IsCause x reason) (sym (eq_of_beq e)) c),
      h.1,
    )
    | inr e ↦ rw e (h.0, add_reason-AllCaused key reason rest h.1 c)
  ]

  -- a changed path with a pattern that it matches
  abbrev IsFanout : Text × Text → Type 0
  IsFanout (path, pattern) =
      (contains paths path ≡ true)
      × (contains patterns pattern ≡ true)
      × (pattern_matches r.fnmatchcase pattern (path_of path) ≡ true)

  joined :
      (xs ys : List (Text × Text))
      → Every IsFanout xs
      → Every IsFanout ys
      → Every IsFanout (xs ++ ys)
  joined [] ys h k = k
  joined (x ∷ xs) ys h k = (h.0, joined xs ys h.1 k)

  matched_each :
      (path : Text) (some_patterns : List Text)
      → contains paths path ≡ true
      → Every (λ p. contains patterns p ≡ true) some_patterns
      → Every IsFanout (
          map
            (λ (p : Text). (path, p))
            (keep (λ p. pattern_matches r.fnmatchcase p (path_of path)) some_patterns))
  unfolding keep
  matched_each path [] c h = tt
  matched_each path (p ∷ ps) c h =
      elim (Bool-cases (pattern_matches r.fnmatchcase p (path_of path))) [
        | inl e ↦ rw e ((c, h.0, e), matched_each path ps c h.1)
        | inr e ↦ rw e (matched_each path ps c h.1)
      ]

  contained_each : {A : Type 0} ⦃e : Eq A⦄ (xs : List A) → Every (λ x. contains xs x ≡ true) xs
  contained_each xs = Every-of_mem (λ x. contains xs x ≡ true) xs (λ x m. contains_of_mem m)

  fanout_of-IsFanout :
      (some_paths : List Text)
      → Every (λ p. contains paths p ≡ true) some_paths
      → Every IsFanout (fanout_of r some_paths patterns)
  unfolding fanout_of matching_patterns
  fanout_of-IsFanout [] h = tt
  fanout_of-IsFanout (p ∷ ps) h =
      joined (matching_patterns r p patterns) (fanout_of r ps patterns)
        (matched_each p patterns h.0 (contained_each patterns)) (fanout_of-IsFanout ps h.1)

  add_fanout-AllCaused :
      (key : Key) (fanout : List (Text × Text)) (selected : Reasons)
      → contains profiles key ≡ true
      → Every IsFanout fanout
      → AllCaused selected
      → AllCaused (add_fanout r key fanout selected)
  unfolding add_fanout
  add_fanout-AllCaused key [] selected k h c = c
  add_fanout-AllCaused key ((path, pattern) ∷ rest) selected k h c =
      let (known, listed, fits) = h.0 in
      add_fanout-AllCaused key rest _ k h.1
        (add_reason-AllCaused key _ selected c (by_fanout key path pattern k known listed fits))

  add_fanouts-AllCaused :
      (keys : List Key) (fanout : List (Text × Text)) (selected : Reasons)
      → Every (λ k. contains profiles k ≡ true) keys
      → Every IsFanout fanout
      → AllCaused selected
      → AllCaused (add_fanouts r keys fanout selected)
  unfolding add_fanouts
  add_fanouts-AllCaused [] fanout selected k h c = c
  add_fanouts-AllCaused (key ∷ rest) fanout selected k h c =
      add_fanouts-AllCaused rest fanout _ k.1 h (add_fanout-AllCaused key fanout selected k.0 h c)

  -- a path of a chart with chart tests, and that chart's section
  record IsOwned (chart path : Text) (spec : ChartTestSpec) : Type 0 where
    profile : Text
    known : contains paths path ≡ true
    owner : chart_name_from_repo_path r.charts_dir (path_of path) ≡ some chart
    tested : profile_for r chart profiles ≡ some profile
    section : chart_test r chart ≡ ok spec

  add_dependent-AllCaused :
      (chart path : Text) (spec : ChartTestSpec) (ref : ChartTestRef)
      (named : Result ChartTestProfile) (found : Found r) {next : Found r}
      → IsOwned chart path spec
      → Memᴰ ref spec.dependent_tests
      → named_profile r ref ≡ named
      → AllCaused found.0
      → add_dependent r chart path ref named found ≡ ok next
      → AllCaused next.0
  unfolding add_dependent
  add_dependent-AllCaused chart path spec ref out_of_fuel found o m n c h = absurd (cc)
  add_dependent-AllCaused chart path spec ref (err x) (selected, errors) o m n c h =
      subst (λ (f : Found r). AllCaused f.0) (ok-injective h) c
  add_dependent-AllCaused chart path spec ref (ok profile) (selected, errors) o m n c h =
      subst (λ (f : Found r). AllCaused f.0) (ok-injective h)
        (add_reason-AllCaused (ref.chart, ref.profile) _ selected c
          (by_dependent chart o.profile path spec ref profile o.known o.owner o.tested o.section m
            n))

  add_dependents-AllCaused :
      (chart path : Text) (spec : ChartTestSpec) (refs : List ChartTestRef) (found : Found r)
      {last : Found r}
      → IsOwned chart path spec
      → ((ref : ChartTestRef) → Memᴰ ref refs → Memᴰ ref spec.dependent_tests)
      → AllCaused found.0
      → add_dependents r chart path refs found ≡ ok last
      → AllCaused last.0
  unfolding add_dependents
  add_dependents-AllCaused chart path spec [] found o sub c h =
      subst (λ (f : Found r). AllCaused f.0) (ok-injective h) c
  add_dependents-AllCaused chart path spec (ref ∷ rest) found o sub c h =
      let (next, e, g) =
        >>=-eq-ok (add_dependent r chart path ref (named_profile r ref) found) _ h in
      add_dependents-AllCaused chart path spec rest next o (λ x m. sub x (Memᴰ.tail m))
        (add_dependent-AllCaused chart path spec ref (named_profile r ref) found o
          (sub ref (Memᴰ.head refl)) refl c e)
        g

  add_owned-AllCaused :
      (path chart : Text) (tested : Option Text) (found : Found r) {last : Found r}
      → contains paths path ≡ true
      → chart_name_from_repo_path r.charts_dir (path_of path) ≡ some chart
      → profile_for r chart profiles ≡ tested
      → AllCaused found.0
      → add_owned r path chart tested found ≡ ok last
      → AllCaused last.0
  unfolding add_owned
  add_owned-AllCaused path chart none found known owner tested c h =
      subst (λ (f : Found r). AllCaused f.0) (ok-injective h) c
  add_owned-AllCaused path chart (some profile) (selected, errors) known owner tested c h =
      let (spec, e, g) = >>=-eq-ok (chart_test r chart) _ h in
      add_dependents-AllCaused chart path spec spec.dependent_tests _
        (record { profile = profile; known = known; owner = owner; tested = tested; section = e })
        (λ x m. m)
        (add_reason-AllCaused (chart, profile) _ selected c
          (by_change chart profile path known owner tested))
        g

  add_path-AllCaused :
      (path : Text) (owner : Option Text) (found : Found r) {last : Found r}
      → contains paths path ≡ true
      → chart_name_from_repo_path r.charts_dir (path_of path) ≡ owner
      → AllCaused found.0
      → add_path r profiles path owner found ≡ ok last
      → AllCaused last.0
  unfolding add_path
  add_path-AllCaused path none found known owned c h =
      subst (λ (f : Found r). AllCaused f.0) (ok-injective h) c
  add_path-AllCaused path (some chart) found known owned c h =
      add_owned-AllCaused path chart (profile_for r chart profiles) found known owned refl c h

  add_paths-AllCaused :
      (some_paths : List Text) (found : Found r) {last : Found r}
      → Every (λ p. contains paths p ≡ true) some_paths
      → AllCaused found.0
      → add_paths r profiles some_paths found ≡ ok last
      → AllCaused last.0
  unfolding add_paths
  add_paths-AllCaused [] found h c e = subst (λ (f : Found r). AllCaused f.0) (ok-injective e) c
  add_paths-AllCaused (p ∷ ps) found h c e =
      let (next, first, rest) =
        >>=-eq-ok (add_path r profiles p (chart_name_from_repo_path r.charts_dir (path_of p)) found)
          _ e in
      add_paths-AllCaused ps next h.1 (add_path-AllCaused p _ found h.0 refl c first) rest

-- Every test that changed files select is selected by a rule.
pub reasons_for-AllCaused :
    (r : Repo) (changes : List Text) (profiles : List Key) (patterns : List Text) {found : Found r}
    → fanout_patterns r ≡ ok patterns
    → reasons_for r changes profiles ≡ ok found
    → AllCaused r profiles (changed_paths r changes) patterns found.0
unfolding reasons_for
reasons_for-AllCaused r changes profiles patterns known h =
    let (found_patterns, e, g) = >>=-eq-ok (fanout_patterns r) _ h in
    let same : found_patterns ≡ patterns = ok-injective (sym e ∙ known) in
    let paths = changed_paths r changes in
    add_paths-AllCaused r profiles paths patterns paths _
      (contained_each r profiles paths patterns paths)
      (subst
        (λ ps.
          AllCaused r profiles paths patterns (add_fanouts r profiles (fanout_of r paths ps) []))
        (sym same)
        (add_fanouts-AllCaused r profiles paths patterns profiles (fanout_of r paths patterns) []
          (contained_each r profiles paths patterns profiles)
          (fanout_of-IsFanout r profiles paths patterns paths
            (contained_each r profiles paths patterns paths))
          tt))
      g
