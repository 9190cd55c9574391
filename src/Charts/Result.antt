-- ===== src/Charts/Result.antt =====
-- What chart code raises (plumbing/errors.py). A message is kept as the data that it names.
use lab_charts.Base.{◌≡◌, ◌≢◌, ◌⊎◌, inl, inr, refl, List, Text}

-- `chart:profile`
abbrev pub Key : Type 0
Key = Text × Text

pub data ChartError : Type 0 where
  -- ChartNotFoundError or SpecError of a chart that cannot be loaded
  load_failed : Text → ChartError
  -- CapabilityUnavailableError: no section, the lifecycle disabled, the section disabled
  not_configured lifecycle_disabled capability_disabled : Text → ChartError
  -- SpecError
  unknown_profile : Text → List Text → ChartError
  missing_values : Key → List Text → ChartError
  -- DependencyCycleError, with the path that closes the cycle
  dependency_cycle : List Key → ChartError
  -- PlanError: one profile in two namespaces
  two_namespaces : Key → (first second : Text) → ChartError
  -- SpecError of a chart test without profiles, and of a request for tests that there are not
  no_profiles : Text → ChartError
  bad_request : (unknown unavailable : List Text) → ChartError
  -- SpecError of a hook's executable
  bad_hook : Key → (executable : Text) → ChartError

-- `out_of_fuel` has no counterpart in the program
pub data Result {ℓ} (A : Type ℓ) : Type ℓ where
  ok : A → Result A
  err : ChartError → Result A
  out_of_fuel : Result A

infixl 5 ◌>>=◌
abbrev pub ◌>>=◌ {ℓ κ} :
    {A : Type ℓ} {B : Type κ} (first : Result A) (next : A → Result B) → Result B
out_of_fuel >>= next = out_of_fuel
err x >>= next = err x
ok a >>= next = next a

-- A chain that succeeds has succeeded in its first step, and then in the rest.
pub >>=-eq-ok {ℓ κ} :
    {A : Type ℓ} {B : Type κ} (first : Result A) (next : A → Result B) {last : B}
    → (first >>= next) ≡ ok last
    → (a : A) × (first ≡ ok a) × (next a ≡ ok last)
>>=-eq-ok out_of_fuel next done = cc
>>=-eq-ok (err x) next done = cc
>>=-eq-ok (ok a) next done = (a, refl, done)

pub ok-injective {ℓ} : {A : Type ℓ} {a b : A} → ok a ≡ ok b → a ≡ b
ok-injective h = cc

pub err-is-no-ok {ℓ} : {A : Type ℓ} {x : ChartError} {a : A} → err x ≢ ok a
err-is-no-ok h = cc

-- A chain runs out of fuel in its first step or after it.
pub >>=-eq-out_of_fuel {ℓ κ} :
    {A : Type ℓ} {B : Type κ} (m : Result A) (f : A → Result B)
    → (m >>= f) ≡ out_of_fuel
    → (m ≡ out_of_fuel) ⊎ ((a : A) × (m ≡ ok a) × (f a ≡ out_of_fuel))
>>=-eq-out_of_fuel (ok a) f h = inr (a, refl, h)
>>=-eq-out_of_fuel (err x) f h = cc
>>=-eq-out_of_fuel out_of_fuel f h = inl refl

-- A chain raises in its first step or after it.
pub >>=-eq-err {ℓ κ} :
    {A : Type ℓ} {B : Type κ} (m : Result A) (f : A → Result B) {x : ChartError}
    → (m >>= f) ≡ err x
    → (m ≡ err x) ⊎ ((a : A) × (m ≡ ok a) × (f a ≡ err x))
>>=-eq-err (ok a) f h = inr (a, refl, h)
>>=-eq-err (err y) f h = inl cc
>>=-eq-err out_of_fuel f h = cc

pub ok-is-no-out_of_fuel {ℓ} : {A : Type ℓ} {a : A} → ok a ≢ out_of_fuel
ok-is-no-out_of_fuel h = cc

pub err-is-no-out_of_fuel {ℓ} :
    {A : Type ℓ} {m : Result A} {x : ChartError} → m ≡ err x → m ≢ out_of_fuel
err-is-no-out_of_fuel e h = cc

pub ok-is-no-err {ℓ} : {A : Type ℓ} {a : A} {x : ChartError} → ok a ≢ err x
ok-is-no-err h = cc
