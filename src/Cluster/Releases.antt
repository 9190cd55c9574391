-- ===== src/Cluster/Releases.antt =====
-- shared/cluster/releases.py: authored bootstrap releases (api/v1alpha1/releases.py) as the releases
-- that Helm installs. What a path resolves to is read from the file system, and is a parameter.
use lab_charts.Base.{Bool, Option, none, some, List, [], ◌++◌, map, Text, text}
use lab_charts.Charts.InstallPlan.{InstallPlanEntry, Checkout}
use lab_charts.Charts.Result.{ChartError}
use lab_charts.Cluster.Effects.{Failure}
use lab_charts.Cluster.Tools.{Release, local_chart, remote_chart}

-- The repository that a run works in: `under` is `root / path`, `resolve` is `Path.resolve`, and
-- `exception_of` the exception that carries a chart's error.
pub record Repository : Type 0 where
  pub root : Text
  pub under : Text → Text
  pub resolve : Text → Text
  pub parent : Text → Text
  pub base_name : Text → Text
  pub checkout_at : Text → Checkout
  pub exception_of : ChartError → Failure

pub record WorkloadsReady : Type 0 where
  pub namespace : Text
  pub timeout : Text

pub record BootstrapReadiness : Type 0 where
  pub nodes_ready : Bool
  pub workloads_ready : Option WorkloadsReady

-- what local, OCI and repository releases share
pub record RawHelmRelease : Type 0 where
  pub name : Text
  pub namespace : Text
  pub values : List Text
  pub timeout : Text

pub data ReleaseSource : Type 0 where
  lifecycle_release : (chart profile : Text) → ReleaseSource
  local_release : RawHelmRelease → (chart : Text) → ReleaseSource
  oci_release : RawHelmRelease → (chart : Text) → (version digest : Option Text) → ReleaseSource
  repo_release : RawHelmRelease → (repo chart version : Text) → ReleaseSource

pub record BootstrapRelease : Type 0 where
  pub source : ReleaseSource
  pub runtime_values : List (Text × Text)
  pub readiness : Option BootstrapReadiness

-- `release`
unfoldable pub release : InstallPlanEntry → List (Text × Text) → Release
release e sets = record {
  name = e.chart.name;
  chart = local_chart e.chart.path;
  namespace = e.namespace;
  values = e.values;
  sets = sets;
  timeout = e.spec.timeout;
  version = none;
  repo = none;
}

unfoldable pub oci_chart_ref : Text → Option Text → Text
oci_chart_ref chart none = chart
oci_chart_ref chart (some digest) = chart ++ (text "@" ++ digest)

-- `release.version or release.digest or "pinned"`; neither is ever empty
unfoldable pub oci_identity : (version digest : Option Text) → Text
oci_identity (some version) digest = version
oci_identity none (some digest) = digest
oci_identity none none = text "pinned"

module _ (p : Repository) where
  base_release : RawHelmRelease → List (Text × Text) → Release
  base_release raw sets = record {
    name = raw.name;
    chart = local_chart [];
    namespace = raw.namespace;
    values = map p.under raw.values;
    sets = sets;
    timeout = raw.timeout;
    version = none;
    repo = none;
  }

  unfoldable pub helm_release : ReleaseSource → List (Text × Text) → Option (Release × Text)
  unfolding base_release oci_chart_ref oci_identity
  helm_release (lifecycle_release chart profile) sets = none
  helm_release (oci_release raw chart version digest) sets = some (
    record (base_release raw sets) {
      chart = remote_chart (oci_chart_ref chart digest);
      version = version;
    },
    oci_identity version digest,
  )
  helm_release (repo_release raw repo chart version) sets = some (
    record (base_release raw sets) {
      chart = remote_chart chart;
      version = some version;
      repo = some repo;
    },
    version,
  )
  helm_release (local_release raw chart) sets = some (
    record (base_release raw sets) { chart = local_chart (p.resolve (p.under chart)) },
    text "local",
  )
