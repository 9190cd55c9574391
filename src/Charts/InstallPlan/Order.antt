-- ===== src/Charts/InstallPlan/Order.antt =====
-- The order of an install plan (shared/charts/install_plan.py), by induction on the visits' depth.
use lab_charts.Base.{
  ℕ, zero, suc, true, false, none, some, ◌≢◌, List, [], ◌∷◌, ◌++◌, map, all, nat_eq, list_eq,
  pair_eq, contains, ◌≡◌, refl, sym, ap, ◌∙◌, Text, Bool-cases, inl, inr, subst,
}
use lab_charts.Charts.Result.{Key, Result, ok, out_of_fuel, >>=-eq-ok, ok-injective, err-is-no-ok}
use lab_charts.Charts.Lifecycle.{ChartTestProfile, Chart}
use lab_charts.Charts.InstallPlan.{
  InstallPlanEntry, entry_key, ref_key, Search, empty_search, find_chart, Checkout, cached_chart,
  test_profile, append_entry, profile_values, visit_all, enter, visit_step, visit, install_plan,
}
use lab_charts.Charts.InstallPlan.Invariant.{
  IsNamed, WellPlanned, Inv, Grown, Visits, Grown-trans, visit_all-Grown, Cached,
  cached_chart-Cached, contains-snoc_self, contains-snoc_left, absent-snoc, popped, appended-Inv,
}

pub entered-Inv :
    {k : Checkout} (key : Key) (s : Search)
    → Inv k s
    → contains s.planned key ≡ false
    → Inv k (record s { visiting = s.visiting ++ key ∷ [] })
entered-Inv key s i fresh = record {
  keys = i.keys;
  well = i.well;
  apart = absent-snoc s.planned s.visiting key i.apart fresh;
  loaded = i.loaded;
}

pub Cached-Grown :
    {k : Checkout} {name : Text} {s s' : Search} {c : Chart}
    → Inv k s
    → Cached k name s c s'
    → Grown k s s'
Cached-Grown {k} i c = record {
  inv = record {
    keys = c.planned_same ∙ i.keys ∙ ap (map entry_key) (sym c.plan_same);
    well = subst (WellPlanned k []) (sym c.plan_same) i.well;
    apart = λ a h.
        ap (λ (l : List Key). contains l a) c.visiting_same
        ∙ i.apart a (ap (λ (l : List Key). contains l a) (sym c.planned_same) ∙ h);
    loaded = c.loaded;
  };
  visiting_same = c.visiting_same;
  kept = λ a h. ap (λ (l : List Key). contains l a) c.planned_same ∙ h;
}

module _ (k : Checkout) where
  append_entry-Grown :
      (key : Key) (c : Chart) (spec : ChartTestProfile) (s s2 s' : Search)
      → c.name ≡ key.0
      → k.load_chart key.0 ≡ ok c
      → test_profile k c key.1 ≡ ok spec
      → Inv k s2
      → contains s.visiting key ≡ false
      → s2.visiting ≡ s.visiting ++ key ∷ []
      → ((a : Key) → contains s.planned a ≡ true → contains s2.planned a ≡ true)
      → all (λ r. contains s2.planned (ref_key r)) spec.requires ≡ true
      → append_entry k key c spec s2 ≡ ok s'
      → Grown k s s' × (contains s'.planned key ≡ true)
  unfolding append_entry
  append_entry-Grown key c spec s s2 s' named from asked i fresh still kept met h =
      let (values, present, done) = >>=-eq-ok (profile_values k c key.1 spec) _ h in
      subst (λ (x : Search). Grown k s x × (contains x.planned key ≡ true)) (ok-injective done)
        (
          record {
            inv =
                appended-Inv k key s s2 fresh i still _
                  (record {
                    chart_of = ap k.load_chart named ∙ from;
                    spec_of = asked;
                    values_of = present;
                    namespace_of = refl;
                  })
                  (ap (λ (n : Text). (n, key.1)) named) met;
            visiting_same = popped k key s s2 fresh i still;
            kept = λ a p. contains-snoc_left s2.planned key a (kept a p);
          },
          contains-snoc_self s2.planned key,
        )

  module _ (agree : IsNamed k) (v : Key → Search → Result Search) (spec : Visits k v) where
    enter-Grown :
        (key : Key) (s s' : Search)
        → Inv k s
        → contains s.planned key ≡ false
        → contains s.visiting key ≡ false
        → enter k v key s ≡ ok s'
        → Grown k s s' × (contains s'.planned key ≡ true)
    unfolding enter
    enter-Grown key s s' i absent fresh h =
        let i1 = entered-Inv key s i absent in
        let (found, c0, h1) =
          >>=-eq-ok (cached_chart k key.0 (record s { visiting = s.visiting ++ key ∷ [] })) _ h in
        let c = cached_chart-Cached k key.0 _ found.0 found.1 i1.loaded c0 in
        let g1 = Cached-Grown i1 c in
        let (profile, asked, h2) = >>=-eq-ok (test_profile k found.0 key.1) _ h1 in
        let (s2, h3, last) = >>=-eq-ok (visit_all v profile.requires found.1) _ h2 in
        let (g2, met) = visit_all-Grown k v spec profile.requires found.1 s2 g1.inv h3 in
        let g = Grown-trans g1 g2 in
        append_entry-Grown key found.0 profile s s2 s' (agree.named _ _ c.loaded_as) c.loaded_as
          asked g.inv fresh g.visiting_same g.kept met last

    visit_step-Grown :
        (key : Key) (s s' : Search)
        → Inv k s
        → visit_step k v key s ≡ ok s'
        → Grown k s s' × (contains s'.planned key ≡ true)
    unfolding visit_step
    visit_step-Grown key s s' i h = elim (Bool-cases (contains s.planned key)) [
      | inl p ↦
          subst (λ (x : Search). Grown k s x × (contains x.planned key ≡ true))
            (ok-injective (rw p at h))
            (record { inv = i; visiting_same = refl; kept = λ a q. q }, p)
      | inr p ↦ elim (Bool-cases (contains s.visiting key)) [
        | inl q ↦ absurd (err-is-no-ok (rw (p, q) at h))
        | inr q ↦ enter-Grown key s s' i p q (rw (p, q) at h)
      ]
    ]

  none-is-no-some {ℓ} : {A : Type ℓ} {a : A} → none ≢ some a
  none-is-no-some h = cc

  out_of_fuel-is-no-ok {ℓ} : {A : Type ℓ} {a : A} → out_of_fuel ≢ ok a
  out_of_fuel-is-no-ok h = cc

  pub visit-Grown : IsNamed k → (depth : ℕ) → Visits k (visit k depth)
  unfolding visit
  visit-Grown agree zero key s s' i h = absurd (out_of_fuel-is-no-ok h)
  visit-Grown agree (suc depth) key s s' i h =
      visit_step-Grown agree (visit k depth) (visit-Grown agree depth) key s s' i h

  -- the plan ends with the entry of that key
  pub record EndsWith (key : Key) (plan : List InstallPlanEntry) : Type 0 where
    pub before : List InstallPlanEntry
    pub last : InstallPlanEntry
    pub parts : plan ≡ before ++ last ∷ []
    pub asked : entry_key last ≡ key

  append_entry-EndsWith :
      (key : Key) (c : Chart) (spec : ChartTestProfile) (s s' : Search)
      → c.name ≡ key.0
      → append_entry k key c spec s ≡ ok s'
      → EndsWith key s'.plan
  unfolding append_entry
  append_entry-EndsWith key c spec s s' named h =
      let (values, _, done) = >>=-eq-ok (profile_values k c key.1 spec) _ h in
      record {
        before = s.plan;
        last = _;
        parts = ap (λ (x : Search). x.plan) (sym (ok-injective done));
        asked = ap (λ (n : Text). (n, key.1)) named;
      }

  enter-EndsWith :
      IsNamed k
      → (v : Key → Search → Result Search) (key : Key) (s s' : Search) → Inv k s
      → enter k v key s ≡ ok s'
      → EndsWith key s'.plan
  unfolding enter
  enter-EndsWith agree v key s s' i h =
      let (found, c0, h1) =
        >>=-eq-ok (cached_chart k key.0 (record s { visiting = s.visiting ++ key ∷ [] })) _ h in
      let c = cached_chart-Cached k key.0 _ found.0 found.1 i.loaded c0 in
      let (profile, asked, h2) = >>=-eq-ok (test_profile k found.0 key.1) _ h1 in
      let (s2, _, last) = >>=-eq-ok (visit_all v profile.requires found.1) _ h2 in
      append_entry-EndsWith key found.0 profile s2 s' (agree.named _ _ c.loaded_as) last

  pub empty_search-Inv : Inv k empty_search
  unfolding find_chart contains
  empty_search-Inv = record {
    keys = refl;
    well = tt;
    apart = λ a h. refl;
    loaded = λ n c h. absurd (none-is-no-some h);
  }

  top-EndsWith :
      IsNamed k
      → (depth : ℕ) (chart profile : Text) (s : Search)
      → visit k depth (chart, profile) empty_search ≡ ok s
      → EndsWith (chart, profile) s.plan
  unfolding visit visit_step contains
  top-EndsWith agree zero chart profile s h = absurd (out_of_fuel-is-no-ok h)
  top-EndsWith agree (suc depth) chart profile s h =
      enter-EndsWith agree (visit k depth) (chart, profile) empty_search s empty_search-Inv h

  -- Where `load_chart` gives each chart the name of its directory and `install_plan` returns: every
  -- entry holds what the checkout says of its chart and profile, nothing stands twice in the plan,
  -- each profile stands after all that it requires, and the requested profile stands last.
  pub install_plan-order :
      IsNamed k
      → (depth : ℕ) (chart profile : Text) (plan : List InstallPlanEntry)
      → install_plan k depth chart profile ≡ ok plan
      → WellPlanned k [] plan × EndsWith (chart, profile) plan
  unfolding install_plan
  install_plan-order agree depth chart profile plan h =
      let (s, visited, done) = >>=-eq-ok (visit k depth (chart, profile) empty_search) _ h in
      let (g, _) =
        visit-Grown agree depth (chart, profile) empty_search s empty_search-Inv visited in
      subst (λ (p : List InstallPlanEntry). WellPlanned k [] p × EndsWith (chart, profile) p)
        (ok-injective done) (g.inv.well, top-EndsWith agree depth chart profile s visited)
