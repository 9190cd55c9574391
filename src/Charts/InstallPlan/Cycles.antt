-- ===== src/Charts/InstallPlan/Cycles.antt =====
-- The cycle that `install_plan` (shared/charts/install_plan.py) reports.
use lab_charts.Base.{
  ℕ, zero, suc, true, false, Option, none, some, List, [], ◌∷◌, ◌++◌, any, any_of_mem, Every,
  Every-of_mem, nat_eq, list_eq, pair_eq, ◌==◌, beq_refl, contains, ◌≡◌, ◌≢◌, refl, sym, ◌∙◌, subst,
  arith, Text, Bool-cases, Option-cases, inl, inr,
}
use lab_charts.Charts.Result.{
  Key, ChartError, dependency_cycle, Result, ok, err, out_of_fuel, >>=-eq-err, ok-is-no-err,
}
use lab_charts.Charts.Lifecycle.{
  ChartTestRef, ChartTestProfile, ChartTestSpec, ChartLifecycle, Chart, require_section,
  require_chart_test, profile_or_error, find_profile, require_chart_test_profile,
}
use lab_charts.Charts.InstallPlan.{
  ref_key, Search, empty_search, find_chart, Checkout, load_missing, cached_chart, test_profile,
  append_entry, profile_values, visit_all, enter, visit_step, visit, install_plan,
}
use lab_charts.Charts.InstallPlan.Invariant.{IsNamed, Inv, Visits, cached_chart-Cached}
use lab_charts.Charts.InstallPlan.Order.{entered-Inv, Cached-Grown, empty_search-Inv, visit-Grown}

-- The profile `a` requires the profile `b`.
pub record Requires (k : Checkout) (a b : Key) : Type 0 where
  pub chart : Chart
  pub spec : ChartTestProfile
  pub loaded : k.load_chart a.0 ≡ ok chart
  pub spec_of : test_profile k chart a.1 ≡ ok spec
  pub listed : any (λ r. ref_key r == b) spec.requires ≡ true

-- Each profile requires the next.
abbrev pub Linked : Checkout → List Key → Type 0
Linked k [] = Unit
Linked k (a ∷ []) = Unit
Linked k (a ∷ b ∷ rest) = Requires k a b × Linked k (b ∷ rest)

-- Each profile of the path requires the next, and the last stands in it before.
pub record IsCycle (k : Checkout) (path : List Key) : Type 0 where
  pub before : List Key
  pub last : Key
  pub parts : path ≡ before ++ last ∷ []
  pub again : contains before last ≡ true
  pub linked : Linked k path

Linked-snoc :
    (k : Checkout) (xs : List Key) (a b : Key)
    → Linked k (xs ++ a ∷ [])
    → Requires k a b
    → Linked k ((xs ++ a ∷ []) ++ b ∷ [])
Linked-snoc k [] a b l q = (q, tt)
Linked-snoc k (x ∷ []) a b l q = (l.0, (q, tt))
Linked-snoc k (x ∷ y ∷ r) a b l q = (l.0, Linked-snoc k (y ∷ r) a b l.1 q)

same_path :
    {A : Type 0} {m : Result A} {p q : List Key}
    → m ≡ err (dependency_cycle p)
    → m ≡ err (dependency_cycle q)
    → p ≡ q
same_path g h = cc

require_chart_test-no_cycle :
    (l : Option ChartLifecycle) (name : Text) (p : List Key)
    → require_chart_test l name ≢ err (dependency_cycle p)
unfolding require_chart_test require_section
require_chart_test-no_cycle none name p h = cc
require_chart_test-no_cycle (some l) name p h = ground arith

require_chart_test_profile-no_cycle :
    (t : ChartTestSpec) (name : Text) (p : List Key)
    → require_chart_test_profile t name ≢ err (dependency_cycle p)
unfolding require_chart_test_profile profile_or_error
require_chart_test_profile-no_cycle t name p h =
    elim (Option-cases (find_profile name t.profiles)) [
      | inl e ↦ absurd (cc (rw e at h))
      | inr (s, e) ↦ absurd (ok-is-no-err (rw e at h))
    ]

module _ (k : Checkout) where
  test_profile-no_cycle :
      (c : Chart) (name : Text) (p : List Key) → test_profile k c name ≢ err (dependency_cycle p)
  unfolding test_profile
  test_profile-no_cycle c name p h = elim (>>=-eq-err (require_chart_test c.lifecycle c.name) _ h) [
    | inl e ↦ require_chart_test-no_cycle c.lifecycle c.name p e
    | inr (t, _, e) ↦ require_chart_test_profile-no_cycle t name p e
  ]

  profile_values-no_cycle :
      (c : Chart) (name : Text) (spec : ChartTestProfile) (p : List Key)
      → profile_values k c name spec ≢ err (dependency_cycle p)
  unfolding profile_values
  profile_values-no_cycle c name spec p h = ground arith

  append_entry-no_cycle :
      (key : Key) (c : Chart) (spec : ChartTestProfile) (s : Search) (p : List Key)
      → append_entry k key c spec s ≢ err (dependency_cycle p)
  unfolding append_entry
  append_entry-no_cycle key c spec s p h = elim (>>=-eq-err (profile_values k c key.1 spec) _ h) [
    | inl e ↦ profile_values-no_cycle c key.1 spec p e
    | inr (_, _, e) ↦ ok-is-no-err e
  ]

  requires_each :
      (key : Key) (c : Chart) (spec : ChartTestProfile)
      → k.load_chart key.0 ≡ ok c
      → test_profile k c key.1 ≡ ok spec
      → Every (λ r. Requires k key (ref_key r)) spec.requires
  requires_each key c spec loaded asked =
      Every-of_mem (λ r. Requires k key (ref_key r)) spec.requires
        (λ r m. record {
          chart = c;
          spec = spec;
          loaded = loaded;
          spec_of = asked;
          listed = any_of_mem (λ x. ref_key x == ref_key r) m (beq_refl (ref_key r));
        })

  fuel_gone-is-no-err : {A : Type 0} {m : Result A} {x : ChartError} → m ≡ err x → m ≢ out_of_fuel
  fuel_gone-is-no-err e h = cc

  -- A visit that reports a cycle reports one.
  abbrev Traces : (Key → Search → Result Search) → Type 0
  Traces v =
      (key : Key) (s : Search) (path : List Key)
      → Inv k s
      → Linked k (s.visiting ++ key ∷ [])
      → v key s ≡ err (dependency_cycle path)
      → IsCycle k path

  module _ (v : Key → Search → Result Search) (grows : Visits k v) (traces : Traces v) where
    visit_all-IsCycle :
        (base : List Key) (parent : Key) (rs : List ChartTestRef) (s : Search) (path : List Key)
        → Linked k (base ++ parent ∷ [])
        → Every (λ r. Requires k parent (ref_key r)) rs
        → Inv k s
        → s.visiting ≡ base ++ parent ∷ []
        → visit_all v rs s ≡ err (dependency_cycle path)
        → IsCycle k path
    unfolding visit_all
    visit_all-IsCycle base parent [] s path l q i at_parent h = absurd (ok-is-no-err h)
    visit_all-IsCycle base parent (r ∷ rs) s path l q i at_parent h =
        elim (>>=-eq-err (v (ref_key r) s) _ h) [
          | inl e ↦
              traces (ref_key r) s path i
                (subst (λ (x : List Key). Linked k (x ++ ref_key r ∷ [])) (sym at_parent)
                  (Linked-snoc k base parent (ref_key r) l q.0))
                e
          | inr (s1, e, rest) ↦
              let (g, _) = grows (ref_key r) s s1 i e in
              visit_all-IsCycle base parent rs s1 path l q.1 g.inv (g.visiting_same ∙ at_parent)
                rest
        ]

  -- what `load_chart` raises is never a dependency cycle
  pub record IsQuiet : Type 0 where
    pub no_cycle : (n : Text) (p : List Key) → k.load_chart n ≢ err (dependency_cycle p)

  module _ (quiet : IsQuiet) where
    load_missing-no_cycle :
        (n : Text) (s : Search) (o : Option Chart) (p : List Key)
        → load_missing k n s o ≢ err (dependency_cycle p)
    unfolding load_missing
    load_missing-no_cycle n s (some c) p h = ok-is-no-err h
    load_missing-no_cycle n s none p h = elim (>>=-eq-err (k.load_chart n) _ h) [
      | inl e ↦ quiet.no_cycle n p e
      | inr (_, _, e) ↦ ok-is-no-err e
    ]

    module _ (v : Key → Search → Result Search) (grows : Visits k v) (traces : Traces v) where
      enter-IsCycle :
          (key : Key) (s : Search) (path : List Key)
          → Inv k s
          → contains s.planned key ≡ false
          → Linked k (s.visiting ++ key ∷ [])
          → enter k v key s ≡ err (dependency_cycle path)
          → IsCycle k path
      unfolding enter cached_chart
      enter-IsCycle key s path i absent l h =
          let i1 = entered-Inv key s i absent in
          let s1 : Search = record s { visiting = s.visiting ++ key ∷ [] } in
          elim (>>=-eq-err (cached_chart k key.0 s1) _ h) [
            | inl e ↦ absurd (load_missing-no_cycle key.0 s1 (find_chart key.0 s1.charts) path e)
            | inr (found, c0, h1) ↦
                let c = cached_chart-Cached k key.0 s1 found.0 found.1 i1.loaded c0 in
                let g = Cached-Grown i1 c in
                elim (>>=-eq-err (test_profile k found.0 key.1) _ h1) [
                  | inl e ↦ absurd (test_profile-no_cycle found.0 key.1 path e)
                  | inr (profile, asked, h2) ↦
                      elim (>>=-eq-err (visit_all v profile.requires found.1) _ h2) [
                        | inl e ↦
                            visit_all-IsCycle v grows traces s.visiting key profile.requires found.1
                              path l (requires_each key found.0 profile c.loaded_as asked) g.inv
                              g.visiting_same e
                        | inr (s2, _, e) ↦
                            absurd (append_entry-no_cycle key found.0 profile s2 path e)
                      ]
                ]
          ]

      visit_step-IsCycle :
          (key : Key) (s : Search) (path : List Key)
          → Inv k s
          → Linked k (s.visiting ++ key ∷ [])
          → visit_step k v key s ≡ err (dependency_cycle path)
          → IsCycle k path
      unfolding visit_step
      visit_step-IsCycle key s path i l h = elim (Bool-cases (contains s.planned key)) [
        | inl p ↦ absurd (ok-is-no-err (rw p at h))
        | inr p ↦ elim (Bool-cases (contains s.visiting key)) [
          | inl q ↦
              let same : s.visiting ++ key ∷ [] ≡ path = same_path refl (rw (p, q) at h) in
              record {
                before = s.visiting;
                last = key;
                parts = sym same;
                again = q;
                linked = subst (Linked k) same l;
              }
          | inr q ↦ enter-IsCycle key s path i p l (rw (p, q) at h)
        ]
      ]

    visit-IsCycle : IsNamed k → (depth : ℕ) → Traces (visit k depth)
    unfolding visit
    visit-IsCycle agree zero key s path i l h = absurd (fuel_gone-is-no-err h refl)
    visit-IsCycle agree (suc depth) key s path i l h =
        visit_step-IsCycle (visit k depth) (visit-Grown k agree depth) (visit-IsCycle agree depth)
          key s path i l h

    -- Where `load_chart` gives each chart the name of its directory and raises no cycle itself, the
    -- path of a reported cycle is one: each profile in it requires the next, by what the checkout
    -- says, and the last stands in it before.
    pub install_plan-IsCycle :
        IsNamed k
        → (depth : ℕ) (chart profile : Text) (path : List Key)
        → install_plan k depth chart profile ≡ err (dependency_cycle path)
        → IsCycle k path
    unfolding install_plan
    install_plan-IsCycle agree depth chart profile path h =
        elim (>>=-eq-err (visit k depth (chart, profile) empty_search) _ h) [
          | inl e ↦
              visit-IsCycle agree depth (chart, profile) empty_search path (empty_search-Inv k) tt e
          | inr (_, _, e) ↦ absurd (ok-is-no-err e)
        ]
