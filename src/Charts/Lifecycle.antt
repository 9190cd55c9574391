-- ===== src/Charts/Lifecycle.antt =====
-- shared/charts/lifecycle.py, the capability gate, over the parts of api/v1alpha1/chart_lifecycle.py
-- and shared/charts/chart.py that it and the install plan read.
use lab_charts.Base.{
  Bool, true, false, not, ◌||◌, Option, none, some, List, [], ◌∷◌, map, nat_eq, list_eq, ◌==◌, ◌≡◌,
  refl, arith, sorted, text_leb, if◌then◌else◌, Text,
}
use lab_charts.Charts.Result.{
  not_configured, lifecycle_disabled, capability_disabled, unknown_profile, Result, ok, err,
}

pub record ChartTestRef : Type 0 where
  pub chart : Text
  pub profile : Text

-- an absent hook and an empty argv are the same to every reader
pub record ChartTestHooks : Type 0 where
  pub pre_install : List Text
  pub post_install : List Text
  pub cleanup : List Text

pub record ChartTestProfile : Type 0 where
  pub namespace : Text
  pub requires : List ChartTestRef
  pub values : List Text
  pub helm_test : Bool
  pub timeout : Text
  pub hooks : Option ChartTestHooks

pub record ChartTestSpec : Type 0 where
  pub enabled : Bool
  pub profiles : List (Text × ChartTestProfile)
  pub dependent_tests : List ChartTestRef

-- The validation section is read here only for its switch.
pub record ManifestValidationSpec : Type 0 where
  pub enabled : Bool

pub record ChartLifecycle : Type 0 where
  pub name : Text
  pub enabled : Bool
  pub validation : Option ManifestValidationSpec
  pub chart_test : Option ChartTestSpec

pub record Chart : Type 0 where
  pub name : Text
  pub path : Text
  pub lifecycle : Option ChartLifecycle

pub data CapabilityStatus : Type 0 where
  absent disabled enabled : CapabilityStatus

-- The two capabilities are gated alike: a section, its switch, and the lifecycle's switch.
module _ {S : Type 0} (section : ChartLifecycle → Option S) (switch : S → Bool) where
  section_status : ChartLifecycle → Option S → CapabilityStatus
  section_status l none = absent
  section_status l (some s) = if not l.enabled || not (switch s) then disabled else enabled

  unfoldable pub require_section : Text → ChartLifecycle → Option S → Result S
  require_section chart_name l none = err (not_configured chart_name)
  require_section chart_name l (some s) =
      if not l.enabled
      then err (lifecycle_disabled chart_name)
      else if not (switch s)
      then err (capability_disabled chart_name)
      else ok s

abbrev validation_switch : ManifestValidationSpec → Bool
validation_switch s = s.enabled

abbrev chart_test_switch : ChartTestSpec → Bool
chart_test_switch s = s.enabled

unfoldable pub validation_status : Option ChartLifecycle → CapabilityStatus
unfolding section_status
validation_status none = absent
validation_status (some l) = section_status (λ l. l.validation) validation_switch l l.validation

unfoldable pub chart_test_status : Option ChartLifecycle → CapabilityStatus
unfolding section_status
chart_test_status none = absent
chart_test_status (some l) = section_status (λ l. l.chart_test) chart_test_switch l l.chart_test

unfoldable pub require_validation : Option ChartLifecycle → Text → Result ManifestValidationSpec
unfolding require_section
require_validation none chart_name = err (not_configured chart_name)
require_validation (some l) chart_name =
    require_section (λ l. l.validation) validation_switch chart_name l l.validation

unfoldable pub require_chart_test : Option ChartLifecycle → Text → Result ChartTestSpec
unfolding require_section
require_chart_test none chart_name = err (not_configured chart_name)
require_chart_test (some l) chart_name =
    require_section (λ l. l.chart_test) chart_test_switch chart_name l l.chart_test

-- `spec.profiles[name]`
unfoldable pub find_profile : Text → List (Text × ChartTestProfile) → Option ChartTestProfile
find_profile name [] = none
find_profile name ((n, p) ∷ rest) = if n == name then some p else find_profile name rest

unfoldable pub profile_or_error :
    ChartTestSpec → Text → Option ChartTestProfile → Result ChartTestProfile
profile_or_error spec name (some p) = ok p
profile_or_error spec name none = err (
    unknown_profile name
      (sorted text_leb (map (λ (p : Text × ChartTestProfile). p.0) spec.profiles)))

unfoldable pub require_chart_test_profile : ChartTestSpec → Text → Result ChartTestProfile
unfolding profile_or_error find_profile
require_chart_test_profile spec name = profile_or_error spec name (find_profile name spec.profiles)

abbrev pub succeeds {ℓ} : {A : Type ℓ} → Result A → Bool
succeeds (ok a) = true
succeeds _ = false

abbrev pub is_enabled : CapabilityStatus → Bool
is_enabled enabled = true
is_enabled _ = false

-- Both gates agree with the reported status: a section is handed out exactly when its capability
-- shows as enabled, for validation and for chart tests.
pub require-status :
    (lifecycle : Option ChartLifecycle) (chart_name : Text)
    → (succeeds (require_validation lifecycle chart_name)
        ≡ is_enabled (validation_status lifecycle))
      × (succeeds (require_chart_test lifecycle chart_name)
          ≡ is_enabled (chart_test_status lifecycle))
unfolding require_validation require_chart_test validation_status chart_test_status
require-status none chart_name = (refl, refl)
require-status (some l) chart_name = ground arith
