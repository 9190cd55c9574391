-- ===== src/Charts/InstallPlan/Depth.antt =====
-- The recursion of `install_plan` (shared/charts/install_plan.py) ends: a visit never goes deeper
-- than there are profiles that it can reach.
use lab_charts.Base.{
  ℕ, zero, suc, ◌<◌, true, false, List, [], ◌∷◌, ◌++◌, all, length, nat_eq, list_eq, pair_eq,
  contains, ◌≡◌, ◌≢◌, refl, sym, arith, Text, and_true, Bool-cases, inl, inr, subst,
}
use lab_charts.Charts.Result.{
  Key, Result, out_of_fuel, >>=-eq-out_of_fuel, ok-is-no-out_of_fuel, err-is-no-out_of_fuel,
}
use lab_charts.Charts.Lifecycle.{ChartTestRef}
use lab_charts.Charts.InstallPlan.{
  ref_key, Search, empty_search, find_chart, Checkout, cached_chart, test_profile, append_entry,
  profile_values, visit_all, enter, visit_step, visit, install_plan,
}
use lab_charts.Charts.InstallPlan.Invariant.{IsNamed, Inv, Visits, cached_chart-Cached}
use lab_charts.Charts.InstallPlan.Reach.{
  IsClosed, remaining, remaining_entered, remaining-length, test_profile-returns,
  profile_values-returns, load_missing-returns,
}
use lab_charts.Charts.InstallPlan.Order.{entered-Inv, Cached-Grown, empty_search-Inv, visit-Grown}

module _ (k : Checkout) (universe : List Key) (bounded : IsClosed k universe) where
  -- A visit that has more fuel than profiles are left does not run out.
  abbrev Returns : ℕ → (Key → Search → Result Search) → Type 0
  Returns depth v =
      (key : Key) (s : Search)
      → Inv k s
      → contains universe key ≡ true
      → remaining universe s.visiting < depth
      → v key s ≢ out_of_fuel

  visit_all-Returns :
      (depth : ℕ) (v : Key → Search → Result Search)
      → Visits k v
      → Returns depth v
      → (rs : List ChartTestRef) (s : Search) → Inv k s
      → all (λ r. contains universe (ref_key r)) rs ≡ true
      → remaining universe s.visiting < depth
      → visit_all v rs s ≢ out_of_fuel
  unfolding visit_all all
  visit_all-Returns depth v grows returns [] s i there few h = ok-is-no-out_of_fuel h
  visit_all-Returns depth v grows returns (r ∷ rs) s i there few h =
      let (first, others) = and_true _ _ there in
      elim (>>=-eq-out_of_fuel (v (ref_key r) s) _ h) [
        | inl e ↦ returns (ref_key r) s i first few e
        | inr (s1, e, rest) ↦
            let (g, _) = grows (ref_key r) s s1 i e in
            visit_all-Returns depth v grows returns rs s1 g.inv others
              (subst (λ (l : List Key). remaining universe l < depth) (sym g.visiting_same) few)
              rest
      ]

  left_after :
      (depth : ℕ) (key : Key) (s : Search)
      → contains universe key ≡ true
      → contains s.visiting key ≡ false
      → remaining universe s.visiting < suc depth
      → remaining universe (s.visiting ++ key ∷ []) < depth
  left_after depth key s there fresh few =
      omega (arith, few, remaining_entered universe s.visiting key there fresh)

  enter-Returns :
      (depth : ℕ) (v : Key → Search → Result Search)
      → Visits k v
      → Returns depth v
      → (key : Key) (s : Search) → Inv k s
      → contains universe key ≡ true
      → contains s.planned key ≡ false
      → contains s.visiting key ≡ false
      → remaining universe s.visiting < suc depth
      → enter k v key s ≢ out_of_fuel
  unfolding enter cached_chart append_entry
  enter-Returns depth v grows returns key s i there absent fresh few h =
      let i1 = entered-Inv key s i absent in
      let s1 : Search = record s { visiting = s.visiting ++ key ∷ [] } in
      elim (>>=-eq-out_of_fuel (cached_chart k key.0 s1) _ h) [
        | inl e ↦ load_missing-returns k universe bounded key.0 s1 (find_chart key.0 s1.charts) e
        | inr (found, c0, h1) ↦
            let c = cached_chart-Cached k key.0 s1 found.0 found.1 i1.loaded c0 in
            let g = Cached-Grown i1 c in
            elim (>>=-eq-out_of_fuel (test_profile k found.0 key.1) _ h1) [
              | inl e ↦ test_profile-returns k found.0 key.1 e
              | inr (profile, asked, h2) ↦
                  elim (>>=-eq-out_of_fuel (visit_all v profile.requires found.1) _ h2) [
                    | inl e ↦
                        visit_all-Returns depth v grows returns profile.requires found.1 g.inv
                          (bounded.closed key.0 key.1 found.0 profile there c.loaded_as asked)
                          (subst (λ (l : List Key). remaining universe l < depth)
                            (sym g.visiting_same) (left_after depth key s there fresh few))
                          e
                    | inr (s2, _, h3) ↦
                        elim (>>=-eq-out_of_fuel (profile_values k found.0 key.1 profile) _ h3) [
                          | inl e ↦ profile_values-returns k found.0 key.1 profile e
                          | inr (_, _, e) ↦ ok-is-no-out_of_fuel e
                        ]
                  ]
            ]
      ]

  visit_step-Returns :
      (depth : ℕ) (v : Key → Search → Result Search)
      → Visits k v
      → Returns depth v
      → Returns (suc depth) (visit_step k v)
  unfolding visit_step
  visit_step-Returns depth v grows returns key s i there few h =
      elim (Bool-cases (contains s.planned key)) [
        | inl p ↦ ok-is-no-out_of_fuel (rw p at h)
        | inr p ↦ elim (Bool-cases (contains s.visiting key)) [
          | inl q ↦ err-is-no-out_of_fuel refl (rw (p, q) at h)
          | inr q ↦ enter-Returns depth v grows returns key s i there p q few (rw (p, q) at h)
        ]
      ]

  visit-Returns : IsNamed k → (depth : ℕ) → Returns depth (visit k depth)
  unfolding visit
  visit-Returns agree zero key s i there few = absurd (omega (arith, few))
  visit-Returns agree (suc depth) key s i there few =
      visit_step-Returns depth (visit k depth) (visit-Grown k agree depth)
        (visit-Returns agree depth) key s i there few

  -- Where `load_chart` gives each chart the name of its directory and ends for every name, fuel
  -- beyond the size of a list that holds the requested profile, and with each profile all that it
  -- requires, is enough: `install_plan` ends with a plan or an error.
  pub install_plan-returns :
      IsNamed k
      → (depth : ℕ) (chart profile : Text) → contains universe (chart, profile) ≡ true
      → length universe < depth
      → install_plan k depth chart profile ≢ out_of_fuel
  unfolding install_plan
  install_plan-returns agree depth chart profile there enough h =
      elim (>>=-eq-out_of_fuel (visit k depth (chart, profile) empty_search) _ h) [
        | inl e ↦
            visit-Returns agree depth (chart, profile) empty_search (empty_search-Inv k) there
              (omega (arith, enough, remaining-length universe [])) e
        | inr (_, _, e) ↦ ok-is-no-out_of_fuel e
      ]
