-- ===== src/Cluster/Bootstrap.antt =====
-- shared/cluster/bootstrap.py: the LocalCluster's releases, installed in order before any chart
-- under test, each behind its readiness gates.
pub mod Install
pub mod Laws
use lab_charts.Base.{
  ℕ, Bool, true, false, Option, none, some, List, [], ◌∷◌, ◌++◌, map, any, nat_eq, list_eq, pair_eq,
  ◌==◌, contains, if◌then◌else◌, Text, text,
}
use lab_charts.Charts.Result as Charts
use lab_charts.Charts.InstallPlan.{InstallPlanEntry, install_plan}
use lab_charts.Test.Plan.{Surroundings, Identity, identity_of}
use lab_charts.Cluster.Effects.{
  spec_error, chart_error, other_error, Try, returned, threw, Act, pure, lift, ◌>>=◌, ◌>>◌,
  for_each,
}
use lab_charts.Cluster.Tools.{
  Tools, Release, ProgressEvent, Severity, severity_step, severity_detail, severity_warn,
  severity_error, severity_info,
}
use lab_charts.Cluster.Converge.{converge}
use lab_charts.Cluster.Releases.{
  Repository, WorkloadsReady, BootstrapReadiness, ReleaseSource, lifecycle_release, local_release,
  oci_release, repo_release, BootstrapRelease, release, helm_release,
}

pub record BootstrapStep : Type 0 where
  pub authored : BootstrapRelease
  pub entries : List InstallPlanEntry

pub record BootstrapOutcome : Type 0 where
  pub name : Text
  pub profile : Text
  pub namespace : Text
  pub status : Text

-- shared/cluster/session.py: the name of a kind cluster and of its context
pub record Session : Type 0 where
  pub name : Text
  pub context : Text

-- `f"{text!r}"` of a name, which holds no quote
unfoldable pub quoted : Text → Text
quoted t = text "'" ++ (t ++ text "'")

-- runtime values go to the last entry only
unfoldable pub lifecycle_releases :
    List (Text × Text) → InstallPlanEntry → List InstallPlanEntry → List (Release × Text)
lifecycle_releases sets e [] = (release e sets, e.profile) ∷ []
lifecycle_releases sets e (f ∷ rest) = (release e [], e.profile) ∷ lifecycle_releases sets f rest

unfoldable pub by_source :
    List (Text × Text)
    → Option (Release × Text)
    → List InstallPlanEntry
    → Try (List (Release × Text))
unfolding lifecycle_releases
by_source sets (some r) entries = returned (r ∷ [])
by_source sets none [] = threw (other_error (text "tuple index out of range"))
by_source sets none (e ∷ entries) = returned (lifecycle_releases sets e entries)

abbrev pub event : Severity → Text → Text → ProgressEvent
event severity label message = record { severity = severity; message = message; label = some label }

-- `facts[value]`
unfoldable pub look_up : Text → List (Text × Text) → Try Text
look_up key [] = threw (other_error key)
look_up key ((k, v) ∷ rest) = if k == key then returned v else look_up key rest

unfoldable pub has_hooks : InstallPlanEntry → Bool
has_hooks e = elim e.spec.hooks [ none ↦ false | some h ↦ true ]

-- the message of a bootstrap chart that declares hooks
unfoldable pub hooks_refused : InstallPlanEntry → Text
hooks_refused e =
    text "bootstrap chart "
    ++ (e.chart.name
        ++ (text ":"
            ++ (e.profile ++ text " declares chart-test hooks, which bootstrap does not run")))

unfoldable pub refuse_hooks : List InstallPlanEntry → Try Unit
unfolding has_hooks hooks_refused
refuse_hooks [] = returned tt
refuse_hooks (e ∷ rest) =
    let others = refuse_hooks rest in
    if has_hooks e then threw (spec_error (hooks_refused e)) else others

-- `owned`
unfoldable pub owned : Surroundings → List BootstrapStep → List Identity
owned r [] = []
owned r (s ∷ rest) = map (identity_of r) s.entries ++ owned r rest

-- the message of a release that is not there
unfoldable pub not_installed : Release → Text
unfolding quoted
not_installed r =
    text "bootstrap release "
    ++ (quoted r.name
        ++ (text " is not installed in namespace "
            ++ (quoted r.namespace ++ text "; rerun without --skip-requires to converge it")))

unfoldable pub require_releases : List (Text × Text) → List (Release × Text) → Try Unit
unfolding not_installed
require_releases present [] = returned tt
require_releases present ((r, label) ∷ rest) =
    let others = require_releases present rest in
    if contains present (r.namespace, r.name) then others else threw (chart_error (not_installed r))

module _ (p : Repository) where
  -- `_releases`
  unfoldable pub releases : BootstrapStep → List (Text × Text) → Try (List (Release × Text))
  unfolding by_source
  releases s sets = by_source sets (helm_release p s.authored.source sets) s.entries

  unfoldable pub require_step : List (Text × Text) → Try (List (Release × Text)) → Try Unit
  unfolding require_releases
  require_step present (returned rs) = require_releases present rs
  require_step present (threw x) = threw x

  unfoldable pub verify_next : Try Unit → Try Unit → Try Unit
  verify_next (threw x) rest = threw x
  verify_next (returned _) rest = rest

  unfoldable pub verify : List BootstrapStep → List (Text × Text) → Try Unit
  unfolding require_step verify_next
  verify [] present = returned tt
  verify (s ∷ rest) present =
      verify_next (require_step present (releases s [])) (verify rest present)

  -- a chart's error, raised
  unfoldable pub raise_error : {A : Type 0} → Charts.Result A → Try A
  raise_error (Charts.ok a) = returned a
  raise_error (Charts.err x) = threw (p.exception_of x)
  raise_error Charts.out_of_fuel = threw (other_error (text "out of fuel"))

  -- the install plan of a lifecycle release
  unfoldable pub plan_of : ℕ → ReleaseSource → Try (List InstallPlanEntry)
  unfolding raise_error
  plan_of depth (lifecycle_release chart profile) =
      raise_error
        (install_plan (p.checkout_at (p.under (p.parent chart))) depth (p.base_name chart) profile)
  plan_of depth (local_release raw chart) = returned []
  plan_of depth (oci_release raw chart version digest) = returned []
  plan_of depth (repo_release raw repo chart version) = returned []

module _ (t : Tools) (p : Repository) where
  abbrev pub Step : Type 0 → Type 0
  Step A = Act t.Outside A

  unfoldable pub tell : ProgressEvent → Step Unit
  tell ev w = (returned tt, t.report ev w)

  unfoldable pub resolve_steps : ℕ → List BootstrapRelease → Step (List BootstrapStep)
  unfolding plan_of refuse_hooks
  resolve_steps depth [] = pure []
  resolve_steps depth (a ∷ rest) = do
    entries ← lift (plan_of p depth a.source)
    lift (refuse_hooks entries)
    steps ← resolve_steps depth rest
    pure (record { authored = a; entries = entries } ∷ steps)

  unfoldable pub lint_entry : InstallPlanEntry → Step Unit
  lint_entry e = do t.ensure_dependencies e.chart.path; t.lint e.chart.path e.values

  unfoldable pub lint_steps : Bool → List BootstrapStep → Step Unit
  unfolding lint_entry
  lint_steps false steps = pure tt
  lint_steps true steps = for_each steps (λ s. for_each s.entries lint_entry)

  unfoldable pub preflight : ℕ → (lint : Bool) → List BootstrapRelease → Step (List BootstrapStep)
  unfolding resolve_steps lint_steps
  preflight depth lint authored = do
    steps ← resolve_steps depth authored
    lint_steps lint steps
    pure steps
