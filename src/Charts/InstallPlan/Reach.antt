-- ===== src/Charts/InstallPlan/Reach.antt =====
-- What a visit of `install_plan` (shared/charts/install_plan.py) can reach, and the steps of it that
-- are no recursion.
use lab_charts.Base.{
  ℕ, ◌≤◌, ◌<◌, Bool, true, false, not, Option, none, some, List, [], ◌∷◌, ◌++◌, all, keep, length,
  nat_eq, list_eq, pair_eq, ◌==◌, contains, ◌≡◌, ◌≢◌, refl, ap, arith, Text, Bool-cases,
  Option-cases, inl, inr, eq_of_beq, Eq, contains-append,
}
use lab_charts.Charts.Result.{
  Key, ok, out_of_fuel, >>=-eq-out_of_fuel, ok-is-no-out_of_fuel, err-is-no-out_of_fuel,
}
use lab_charts.Charts.Lifecycle.{
  ChartTestProfile, Chart, ChartLifecycle, ChartTestSpec, require_section, profile_or_error,
  find_profile, require_chart_test, require_chart_test_profile,
}
use lab_charts.Charts.InstallPlan.{
  ref_key, Search, Checkout, load_missing, test_profile, profile_values,
}
use lab_charts.Charts.InstallPlan.Invariant.{contains-snoc_self}

-- `load_chart` returns or raises; and the profiles of `universe` require only one another.
pub record IsClosed (k : Checkout) (universe : List Key) : Type 0 where
  pub returns : (n : Text) → k.load_chart n ≢ out_of_fuel
  pub closed :
      (n p : Text) (c : Chart) (spec : ChartTestProfile)
      → contains universe (n, p) ≡ true
      → k.load_chart n ≡ ok c
      → test_profile k c p ≡ ok spec
      → all (λ r. contains universe (ref_key r)) spec.requires ≡ true

module _ {ℓ} {A : Type ℓ} (p q : A → Bool) (fewer : (a : A) → q a ≡ true → p a ≡ true) where
  length-keep_mono : (xs : List A) → length (keep q xs) ≤ length (keep p xs)
  unfolding keep
  length-keep_mono [] = omega arith
  length-keep_mono (x ∷ xs) = ground (arith, fewer x, length-keep_mono xs)

  length-keep_strict :
      ⦃e : Eq A⦄ (xs : List A) (x : A)
      → contains xs x ≡ true
      → p x ≡ true
      → q x ≡ false
      → length (keep q xs) < length (keep p xs)
  unfolding keep contains
  length-keep_strict [] x h px qx = ground arith
  length-keep_strict (y ∷ ys) x h px qx = elim (Bool-cases (x == y)) [
    | inl same ↦
        let same' : x ≡ y = eq_of_beq same in
        ground (arith, ap p same', ap q same', length-keep_mono ys)
    | inr other ↦ ground (arith, fewer y, length-keep_strict ys x (rw other at h) px qx)
  ]

length-keep {ℓ} : {A : Type ℓ} (p : A → Bool) (xs : List A) → length (keep p xs) ≤ length xs
unfolding keep
length-keep p [] = omega arith
length-keep p (x ∷ xs) = ground (arith, length-keep p xs)

-- how many profiles of the universe are not being visited
abbrev pub remaining : List Key → List Key → ℕ
remaining universe visiting = length (keep (λ u. not (contains visiting u)) universe)

pub remaining_entered :
    (universe visiting : List Key) (key : Key)
    → contains universe key ≡ true
    → contains visiting key ≡ false
    → remaining universe (visiting ++ key ∷ []) < remaining universe visiting
remaining_entered universe visiting key there fresh =
    length-keep_strict (λ u. not (contains visiting u))
      (λ u. not (contains (visiting ++ key ∷ []) u))
      (λ u h. ground (arith, contains-append visiting (key ∷ []) u)) universe key there
      (ap not fresh) (ap not (contains-snoc_self visiting key))

require_chart_test-returns :
    (l : Option ChartLifecycle) (name : Text) → require_chart_test l name ≢ out_of_fuel
unfolding require_chart_test require_section
require_chart_test-returns none name h = cc
require_chart_test-returns (some l) name h = ground arith

require_chart_test_profile-returns :
    (t : ChartTestSpec) (p : Text) → require_chart_test_profile t p ≢ out_of_fuel
unfolding require_chart_test_profile profile_or_error
require_chart_test_profile-returns t p h = elim (Option-cases (find_profile p t.profiles)) [
  | inl e ↦ absurd (err-is-no-out_of_fuel refl (rw e at h))
  | inr (s, e) ↦ absurd (ok-is-no-out_of_fuel (rw e at h))
]

pub test_profile-returns : (k : Checkout) (c : Chart) (p : Text) → test_profile k c p ≢ out_of_fuel
unfolding test_profile
test_profile-returns k c p h =
    elim (>>=-eq-out_of_fuel (require_chart_test c.lifecycle c.name) _ h) [
      | inl e ↦ require_chart_test-returns c.lifecycle c.name e
      | inr (t, _, e) ↦ require_chart_test_profile-returns t p e
    ]

pub profile_values-returns :
    (k : Checkout) (c : Chart) (p : Text) (spec : ChartTestProfile)
    → profile_values k c p spec ≢ out_of_fuel
unfolding profile_values
profile_values-returns k c p spec h = ground arith

pub load_missing-returns :
    (k : Checkout) (universe : List Key)
    → IsClosed k universe
    → (n : Text) (s : Search) (o : Option Chart) → load_missing k n s o ≢ out_of_fuel
unfolding load_missing
load_missing-returns k universe closed n s (some c) h = ok-is-no-out_of_fuel h
load_missing-returns k universe closed n s none h = elim (>>=-eq-out_of_fuel (k.load_chart n) _ h) [
  | inl e ↦ closed.returns n e
  | inr (c, _, e) ↦ ok-is-no-out_of_fuel e
]

pub remaining-length :
    (universe visiting : List Key) → remaining universe visiting ≤ length universe
remaining-length universe visiting = length-keep (λ u. not (contains visiting u)) universe
