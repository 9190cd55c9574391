-- ===== src/Charts/Tests.antt =====
-- The capability gate and an install plan at concrete inputs.
use lab_charts.Base.{
  true, some, List, [], ◌∷◌, keep, all, list_beq, pair_beq, contains, ◌==◌, nat_eq, list_eq,
  pair_eq, ◌≡◌, ◌≢◌, refl, sym, ap, ◌∙◌, arith, Text, text, Bool-cases, eq_of_beq, inl, inr, ◌⊎◌,
  if◌then◌else◌,
}
use lab_charts.Charts.Result.{
  Key, Result, ok, out_of_fuel, ok-injective, err-is-no-ok, err, load_failed, dependency_cycle,
}
use lab_charts.Charts.Lifecycle.{
  ChartTestRef, ChartTestProfile, Chart, require_validation, validation_status, require_chart_test,
  chart_test_status, find_profile, require_chart_test_profile, profile_or_error, require_section,
  succeeds, is_enabled, require-status,
}
use lab_charts.Charts.InstallPlan.{
  Checkout, InstallPlanEntry, test_profile, profile_values, visit_step, install_plan, ref_key,
}
use lab_charts.Charts.InstallPlan.Invariant.{IsNamed, WellPlanned}
use lab_charts.Charts.InstallPlan.Order.{EndsWith, install_plan-order}
use lab_charts.Charts.InstallPlan.Reach.{IsClosed}
use lab_charts.Charts.InstallPlan.Cycles.{IsQuiet, IsCycle, install_plan-IsCycle}
use lab_charts.Charts.InstallPlan.Depth.{install_plan-returns}
use lab_charts.Charts.Samples.{
  sample_profile, sample_lifecycle, sample_chart, db_ref, app_chart, db_chart, sample_load,
  sample_checkout,
}

sample_checkout-IsNamed : IsNamed sample_checkout
unfolding sample_load
sample_checkout-IsNamed = record {
  named = λ n c h. elim (Bool-cases (n == text "app")) [
    | inl e ↦ ap (λ (x : Chart). x.name) (sym (ok-injective (rw e at h))) ∙ sym (eq_of_beq e)
    | inr e ↦ elim (Bool-cases (n == text "db")) [
      | inl f ↦ ap (λ (x : Chart). x.name) (sym (ok-injective (rw (e, f) at h))) ∙ sym (eq_of_beq f)
      | inr f ↦ absurd (err-is-no-ok (rw (e, f) at h))
    ]
  ];
}

abbrev sample_universe : List Key
sample_universe = (text "app", text "default") ∷ (text "db", text "default") ∷ []

sample_load-returns : (n : Text) → sample_load n ≢ out_of_fuel
unfolding sample_load
sample_load-returns n h = ground arith

sample_load_cases : (n : Text) (c : Chart) → sample_load n ≡ ok c → (c ≡ app_chart) ⊎ (c ≡ db_chart)
unfolding sample_load
sample_load_cases n c h = elim (Bool-cases (n == text "app")) [
  | inl e ↦ inl (sym (ok-injective (rw e at h)))
  | inr e ↦ elim (Bool-cases (n == text "db")) [
    | inl f ↦ inr (sym (ok-injective (rw (e, f) at h)))
    | inr f ↦ absurd (err-is-no-ok (rw (e, f) at h))
  ]
]

sample_profile_only :
    (name p : Text) (rs : List ChartTestRef) (spec : ChartTestProfile)
    → test_profile sample_checkout (sample_chart name rs) p ≡ ok spec
    → spec ≡ sample_profile rs
unfolding test_profile require_chart_test require_section require_chart_test_profile find_profile
    profile_or_error
sample_profile_only name p rs spec h = elim (Bool-cases (text "default" == p)) [
  | inl e ↦ sym (ok-injective (rw e at h))
  | inr e ↦ absurd (err-is-no-ok (rw e at h))
]

sample_requires :
    (name p : Text) (rs : List ChartTestRef) (c : Chart) (spec : ChartTestProfile)
    → all (λ r. contains sample_universe (ref_key r)) rs ≡ true
    → c ≡ sample_chart name rs
    → test_profile sample_checkout c p ≡ ok spec
    → all (λ r. contains sample_universe (ref_key r)) spec.requires ≡ true
sample_requires name p rs c spec there same h =
    ap (λ (x : ChartTestProfile). all (λ r. contains sample_universe (ref_key r)) x.requires)
      (sample_profile_only name p rs spec (rw same at h))
    ∙ there

sample_checkout-IsClosed : IsClosed sample_checkout sample_universe
unfolding all contains list_beq pair_beq text
sample_checkout-IsClosed = record {
  returns = sample_load-returns;
  closed = λ n p c spec known loaded asked. elim (sample_load_cases n c loaded) [
    | inl e ↦ sample_requires (text "app") p (db_ref ∷ []) c spec refl e asked
    | inr e ↦ sample_requires (text "db") p [] c spec refl e asked
  ];
}

install_plan-returns_example :
    install_plan sample_checkout 3 (text "app") (text "default") ≢ out_of_fuel
unfolding contains list_beq pair_beq text
install_plan-returns_example =
    install_plan-returns sample_checkout sample_universe sample_checkout-IsClosed
      sample_checkout-IsNamed 3 (text "app") (text "default") refl (omega arith)

sample_plan : Result (List InstallPlanEntry)
sample_plan = install_plan sample_checkout 3 (text "app") (text "default")

abbrev plan_of : Result (List InstallPlanEntry) → List InstallPlanEntry
plan_of (ok p) = p
plan_of _ = []

require-status_example :
    (succeeds (require_validation (some (sample_lifecycle (text "db") [])) (text "db"))
      ≡ is_enabled (validation_status (some (sample_lifecycle (text "db") []))))
    × (succeeds (require_chart_test (some (sample_lifecycle (text "db") [])) (text "db"))
        ≡ is_enabled (chart_test_status (some (sample_lifecycle (text "db") []))))
require-status_example = require-status (some (sample_lifecycle (text "db") [])) (text "db")

install_plan-order_example :
    WellPlanned sample_checkout [] (plan_of sample_plan)
    × EndsWith sample_checkout (text "app", text "default") (plan_of sample_plan)
unfolding sample_plan install_plan visit_step contains sample_load list_beq text test_profile
    require_chart_test require_chart_test_profile pair_beq profile_values keep
install_plan-order_example =
    install_plan-order sample_checkout sample_checkout-IsNamed 3 (text "app") (text "default")
      (plan_of sample_plan) refl

abbrev app_ref : ChartTestRef
app_ref = record { chart = text "app"; profile = text "default" }

cyclic_load : Text → Result Chart
cyclic_load n =
    if n == text "app" then ok (sample_chart (text "app") (app_ref ∷ [])) else err (load_failed n)

abbrev cyclic_checkout : Checkout
cyclic_checkout = record { load_chart = cyclic_load; exists = λ p. true }

cyclic_checkout-IsNamed : IsNamed cyclic_checkout
unfolding cyclic_load
cyclic_checkout-IsNamed = record {
  named = λ n c h. elim (Bool-cases (n == text "app")) [
    | inl e ↦ ap (λ (x : Chart). x.name) (sym (ok-injective (rw e at h))) ∙ sym (eq_of_beq e)
    | inr e ↦ absurd (err-is-no-ok (rw e at h))
  ];
}

cyclic_load-no_cycle : (n : Text) (p : List Key) → cyclic_load n ≢ err (dependency_cycle p)
unfolding cyclic_load
cyclic_load-no_cycle n p h = ground arith

cyclic_checkout-IsQuiet : IsQuiet cyclic_checkout
cyclic_checkout-IsQuiet = record { no_cycle = cyclic_load-no_cycle }

abbrev app_key : Key
app_key = (text "app", text "default")

install_plan-IsCycle_example : IsCycle cyclic_checkout (app_key ∷ app_key ∷ [])
unfolding install_plan visit_step contains cyclic_load list_beq text test_profile require_chart_test
    require_chart_test_profile pair_beq
install_plan-IsCycle_example =
    install_plan-IsCycle cyclic_checkout cyclic_checkout-IsQuiet cyclic_checkout-IsNamed 3
      (text "app") (text "default") (app_key ∷ app_key ∷ []) refl
