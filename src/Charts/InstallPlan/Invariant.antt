-- ===== src/Charts/InstallPlan/Invariant.antt =====
-- What a visit of `install_plan` (shared/charts/install_plan.py) keeps true of its locals.
use mathlib.Core.List.{map-append}
use mathlib.Core.Bool.{false≢true}
use lab_charts.Base.{
  true, false, Option, none, some, List, [], ◌∷◌, ◌++◌, map, append_assoc, append-nil, all, nat_eq,
  list_eq, pair_eq, ◌==◌, contains, contains-append, contains-singleton, beq_refl, eq_of_beq, ◌⊎◌,
  ◌≡◌, refl, sym, ap, ◌∙◌, arith, Text, Bool-cases, inl, inr, subst,
}
use lab_charts.Charts.Result.{Key, Result, ok, >>=-eq-ok, ok-injective}
use lab_charts.Charts.Lifecycle.{ChartTestRef, Chart}
use lab_charts.Charts.InstallPlan.{
  InstallPlanEntry, entry_key, ref_key, Search, find_chart, pop, Checkout, load_missing,
  cached_chart, test_profile, profile_values, visit_all,
}

-- `load_chart` checks that a chart's name is that of its directory.
pub record IsNamed (k : Checkout) : Type 0 where
  pub named : (n : Text) (c : Chart) → k.load_chart n ≡ ok c → c.name ≡ n

-- What an entry holds is what the checkout says of its chart and profile.
pub record FromCheckout (k : Checkout) (x : InstallPlanEntry) : Type 0 where
  pub chart_of : k.load_chart x.chart.name ≡ ok x.chart
  pub spec_of : test_profile k x.chart x.profile ≡ ok x.spec
  pub values_of : profile_values k x.chart x.profile x.spec ≡ ok x.values
  pub namespace_of : x.namespace ≡ x.spec.namespace

-- Each entry is the checkout's, is new, and stands after all that it requires.
abbrev pub WellPlanned : Checkout → List Key → List InstallPlanEntry → Type 0
WellPlanned k seen [] = Unit
WellPlanned k seen (x ∷ xs) =
    FromCheckout k x
    × (contains seen (entry_key x) ≡ false)
    × (all (λ r. contains seen (ref_key r)) x.spec.requires ≡ true)
    × WellPlanned k (seen ++ entry_key x ∷ []) xs

WellPlanned-snoc :
    (k : Checkout) (seen : List Key) (xs : List InstallPlanEntry) (x : InstallPlanEntry)
    → WellPlanned k seen xs
    → FromCheckout k x
    → contains (seen ++ map entry_key xs) (entry_key x) ≡ false
    → all (λ r. contains (seen ++ map entry_key xs) (ref_key r)) x.spec.requires ≡ true
    → WellPlanned k seen (xs ++ x ∷ [])
WellPlanned-snoc k seen [] x w f h m = (f, rw append-nil at h, rw append-nil at m, tt)
WellPlanned-snoc k seen (y ∷ ys) x w f h m = (
  w.0,
  w.1,
  w.2,
  WellPlanned-snoc k (seen ++ entry_key y ∷ []) ys x w.3 f
      (rw (append_assoc seen (entry_key y ∷ []) (map entry_key ys)) h)
      (rw (append_assoc seen (entry_key y ∷ []) (map entry_key ys)) m),
)

pop-snoc : (xs : List Key) (x : Key) → pop (xs ++ x ∷ []) ≡ xs
unfolding pop
pop-snoc [] x = refl
pop-snoc (y ∷ []) x = refl
pop-snoc (y ∷ z ∷ r) x = ap (λ (l : List Key). y ∷ l) (pop-snoc (z ∷ r) x)

pub record Inv (k : Checkout) (s : Search) : Type 0 where
  pub keys : s.planned ≡ map entry_key s.plan
  pub well : WellPlanned k [] s.plan
  pub apart : (a : Key) → contains s.planned a ≡ true → contains s.visiting a ≡ false
  pub loaded : (n : Text) (c : Chart) → find_chart n s.charts ≡ some c → k.load_chart n ≡ ok c

-- what a visit that succeeds has done
pub record Grown (k : Checkout) (s s' : Search) : Type 0 where
  pub inv : Inv k s'
  pub visiting_same : s'.visiting ≡ s.visiting
  pub kept : (a : Key) → contains s.planned a ≡ true → contains s'.planned a ≡ true

abbrev pub Visits : Checkout → (Key → Search → Result Search) → Type 0
Visits k v =
    (key : Key) (s s' : Search)
    → Inv k s
    → v key s ≡ ok s'
    → Grown k s s' × (contains s'.planned key ≡ true)

pub Grown-trans : {k : Checkout} {a b c : Search} → Grown k a b → Grown k b c → Grown k a c
Grown-trans p q = record {
  inv = q.inv;
  visiting_same = q.visiting_same ∙ p.visiting_same;
  kept = λ x h. q.kept x (p.kept x h);
}

Grown-all :
    {k : Checkout} {s s' : Search} (rs : List ChartTestRef)
    → Grown k s s'
    → all (λ r. contains s.planned (ref_key r)) rs ≡ true
    → all (λ r. contains s'.planned (ref_key r)) rs ≡ true
unfolding all
Grown-all [] g h = refl
Grown-all {k} {s} {s'} (r ∷ rs) g h = ground (arith, g.kept (ref_key r), Grown-all rs g)

pub visit_all-Grown :
    (k : Checkout) (v : Key → Search → Result Search)
    → Visits k v
    → (rs : List ChartTestRef) (s s' : Search) → Inv k s
    → visit_all v rs s ≡ ok s'
    → Grown k s s' × (all (λ r. contains s'.planned (ref_key r)) rs ≡ true)
unfolding visit_all all
visit_all-Grown k v spec [] s s' i h =
    subst (λ x. Grown k s x × (true ≡ true)) (ok-injective h)
      (record { inv = i; visiting_same = refl; kept = λ a p. p }, refl)
visit_all-Grown k v spec (r ∷ rs) s s' i h =
    let (s1, first, rest) = >>=-eq-ok (v (ref_key r) s) (visit_all v rs) h in
    let (g1, d1) = spec (ref_key r) s s1 i first in
    let (g2, d2) = visit_all-Grown k v spec rs s1 s' g1.inv rest in
    (Grown-trans g1 g2, rw (g2.kept (ref_key r) d1, d2))

same_of_some {ℓ} : {A : Type ℓ} {a b : A} → some a ≡ some b → a ≡ b
same_of_some h = cc

loaded_cons :
    (k : Checkout) (name n : Text) (d x : Chart) (rest : List (Text × Chart))
    → k.load_chart name ≡ ok d
    → (find_chart n rest ≡ some x → k.load_chart n ≡ ok x)
    → find_chart n ((name, d) ∷ rest) ≡ some x
    → k.load_chart n ≡ ok x
unfolding find_chart
loaded_cons k name n d x rest p old q = elim (Bool-cases (name == n)) [
  | inl e ↦
      let same : d ≡ x = same_of_some (rw e at q) in
      ap k.load_chart (sym (eq_of_beq e)) ∙ p ∙ ap ok same
  | inr e ↦ old (rw e at q)
]

-- what looking a chart up changes: only the charts that are kept
pub record Cached (k : Checkout) (name : Text) (s : Search) (c : Chart) (s' : Search) : Type 0 where
  pub loaded_as : k.load_chart name ≡ ok c
  pub plan_same : s'.plan ≡ s.plan
  pub planned_same : s'.planned ≡ s.planned
  pub visiting_same : s'.visiting ≡ s.visiting
  pub loaded : (n : Text) (d : Chart) → find_chart n s'.charts ≡ some d → k.load_chart n ≡ ok d

module _ (k : Checkout) where
  load_missing-Cached :
      (name : Text) (s : Search) (o : Option Chart) (c : Chart) (s' : Search)
      → find_chart name s.charts ≡ o
      → ((n : Text) (d : Chart) → find_chart n s.charts ≡ some d → k.load_chart n ≡ ok d)
      → load_missing k name s o ≡ ok (c, s')
      → Cached k name s c s'
  unfolding load_missing
  load_missing-Cached name s (some d) c s' found known h =
      subst (λ (x : Chart × Search). Cached k name s x.0 x.1) (ok-injective h)
        (record {
          loaded_as = known name d found;
          plan_same = refl;
          planned_same = refl;
          visiting_same = refl;
          loaded = known;
        })
  load_missing-Cached name s none c s' found known h =
      let (d, loaded, rest) = >>=-eq-ok (k.load_chart name) _ h in
      subst (λ (x : Chart × Search). Cached k name s x.0 x.1) (ok-injective rest)
        (record {
          loaded_as = loaded;
          plan_same = refl;
          planned_same = refl;
          visiting_same = refl;
          loaded = λ n x. loaded_cons k name n d x s.charts loaded (known n x);
        })

  pub cached_chart-Cached :
      (name : Text) (s : Search) (c : Chart) (s' : Search)
      → ((n : Text) (d : Chart) → find_chart n s.charts ≡ some d → k.load_chart n ≡ ok d)
      → cached_chart k name s ≡ ok (c, s')
      → Cached k name s c s'
  unfolding cached_chart
  cached_chart-Cached name s c s' known h =
      load_missing-Cached name s (find_chart name s.charts) c s' refl known h

not_contains-snoc :
    (xs : List Key) (x a : Key) → contains (xs ++ x ∷ []) a ≡ false → contains xs a ≡ false
not_contains-snoc xs x a h = ground (arith, contains-append xs (x ∷ []) a)

pub contains-snoc_self : (xs : List Key) (x : Key) → contains (xs ++ x ∷ []) x ≡ true
contains-snoc_self xs x =
    ground (arith, contains-append xs (x ∷ []) x, contains-singleton x x, beq_refl x)

pub contains-snoc_left :
    (xs : List Key) (x a : Key) → contains xs a ≡ true → contains (xs ++ x ∷ []) a ≡ true
contains-snoc_left xs x a h = ground (arith, contains-append xs (x ∷ []) a)

contains-snoc_cases :
    (xs : List Key) (x a : Key)
    → contains (xs ++ x ∷ []) a ≡ true
    → (contains xs a ≡ true) ⊎ (a ≡ x)
contains-snoc_cases xs x a h = elim (Bool-cases (contains xs a)) [
  | inl e ↦ inl e
  | inr e ↦ inr (eq_of_beq (ground (arith, contains-append xs (x ∷ []) a, contains-singleton x a)))
]

-- A key that is planned and one that is not are apart.
pub absent-snoc :
    (planned visiting : List Key) (key : Key)
    → ((a : Key) → contains planned a ≡ true → contains visiting a ≡ false)
    → contains planned key ≡ false
    → (a : Key) → contains planned a ≡ true
    → contains (visiting ++ key ∷ []) a ≡ false
absent-snoc planned visiting key apart fresh a h =
    elim (Bool-cases (contains (visiting ++ key ∷ []) a)) [
      | inr e ↦ e
      | inl e ↦ elim (contains-snoc_cases visiting key a e) [
        | inl v ↦ absurd (false≢true (sym (apart a h) ∙ v))
        | inr p ↦ absurd (false≢true (sym (ap (contains planned) p ∙ fresh) ∙ h))
      ]
    ]

module _ (k : Checkout) (key : Key) (s s2 : Search) (fresh : contains s.visiting key ≡ false)
    (grown_inv : Inv k s2) (still : s2.visiting ≡ s.visiting ++ key ∷ []) where
  not_planned : contains s2.planned key ≡ false
  not_planned = elim (Bool-cases (contains s2.planned key)) [
    | inr e ↦ e
    | inl e ↦
        let there : contains s2.visiting key ≡ true =
          rw still (contains-snoc_self s.visiting key) in
        absurd (false≢true (sym (grown_inv.apart key e) ∙ there))
  ]

  pub popped : pop s2.visiting ≡ s.visiting
  popped = ap pop still ∙ pop-snoc s.visiting key

  apart_after :
      (a : Key) → contains (s2.planned ++ key ∷ []) a ≡ true → contains (pop s2.visiting) a ≡ false
  apart_after a h = rw popped (elim (contains-snoc_cases s2.planned key a h) [
    | inl p ↦ not_contains-snoc s.visiting key a (rw still at (grown_inv.apart a p))
    | inr p ↦ ap (contains s.visiting) p ∙ fresh
  ])

  pub appended-Inv :
      (x : InstallPlanEntry)
      → FromCheckout k x
      → entry_key x ≡ key
      → all (λ r. contains s2.planned (ref_key r)) x.spec.requires ≡ true
      → Inv k (record s2 {
        visiting = pop s2.visiting;
        planned = s2.planned ++ key ∷ [];
        plan = s2.plan ++ x ∷ [];
      })
  appended-Inv x from named met = record {
    keys =
        ap (λ (a : List Key). a ++ key ∷ []) grown_inv.keys
        ∙ ap (λ (b : Key). map entry_key s2.plan ++ b ∷ []) (sym named)
        ∙ sym (map-append entry_key s2.plan (x ∷ []));
    well =
        WellPlanned-snoc k [] s2.plan x grown_inv.well from
          (subst (λ (l : List Key). contains l (entry_key x) ≡ false) grown_inv.keys
            (ap (contains s2.planned) named ∙ not_planned))
          (subst (λ (l : List Key). all (λ r. contains l (ref_key r)) x.spec.requires ≡ true)
            grown_inv.keys met);
    apart = apart_after;
    loaded = grown_inv.loaded;
  }
