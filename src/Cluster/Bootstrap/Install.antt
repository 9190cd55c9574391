-- ===== src/Cluster/Bootstrap/Install.antt =====
-- shared/cluster/bootstrap.py: the installation of the resolved steps, on a session.
use lab_charts.Base.{
  ℕ, Bool, true, false, Option, none, some, List, [], ◌∷◌, ◌++◌, any, nat_eq, list_eq, pair_eq,
  ◌==◌, Text, text,
}
use lab_charts.Cluster.Effects.{pure, lift, ◌>>=◌, ◌>>◌}
use lab_charts.Cluster.Tools.{Tools, Release, severity_step}
use lab_charts.Cluster.Converge.{converge}
use lab_charts.Cluster.Releases.{
  Repository, WorkloadsReady, BootstrapReadiness, ReleaseSource, lifecycle_release, local_release,
  oci_release, repo_release,
}
use lab_charts.Cluster.Bootstrap.{
  BootstrapStep, BootstrapOutcome, Session, event, look_up, releases, Step, tell,
}

module _ (t : Tools) (p : Repository) where
  -- the address is asked for only where it is used
  unfoldable pub host_fact : Session → Bool → Step t p (List (Text × Text))
  host_fact s false = pure []
  host_fact s true = do
    ip ← t.control_plane_ip s.name
    pure ((text "${kind.controlPlaneHost}", ip) ∷ [])

  unfoldable pub fill : List (Text × Text) → List (Text × Text) → Step t p (List (Text × Text))
  unfolding look_up
  fill facts [] = pure []
  fill facts ((key, value) ∷ rest) = do
    v ← lift (look_up value facts)
    others ← fill facts rest
    pure ((key, v) ∷ others)

  -- `_runtime_values`
  unfoldable pub runtime_values : Session → List (Text × Text) → Step t p (List (Text × Text))
  unfolding host_fact fill
  runtime_values s [] = pure []
  runtime_values s (v ∷ vs) = do
    host ←
        host_fact s (any (λ (kv : Text × Text). kv.1 == text "${kind.controlPlaneHost}") (v ∷ vs))
    fill
        ((text "${kind.controlPlanePort}", text "6443")
          ∷ (text "${kind.clusterName}", s.name)
          ∷ (text "${kind.context}", s.context)
          ∷ host)
        (v ∷ vs)

  -- `getattr(release, "timeout", DEFAULT_TIMEOUT)`
  unfoldable pub own_timeout : ReleaseSource → Text
  own_timeout (lifecycle_release chart profile) = text "10m"
  own_timeout (local_release raw chart) = raw.timeout
  own_timeout (oci_release raw chart version digest) = raw.timeout
  own_timeout (repo_release raw repo chart version) = raw.timeout

  unfoldable pub gate_timeout : ReleaseSource → Option WorkloadsReady → Text
  unfolding own_timeout
  gate_timeout source none = own_timeout source
  gate_timeout source (some gate) = gate.timeout

  unfoldable pub wait_nodes : Bool → ℕ → Step t p Unit
  wait_nodes false timeout = pure tt
  wait_nodes true timeout = do
    tell t p (event severity_step (text "Waiting for cluster nodes") [])
    t.wait_nodes_ready timeout

  unfoldable pub wait_gate : Option WorkloadsReady → ℕ → Step t p Unit
  wait_gate none timeout = pure tt
  wait_gate (some gate) timeout = do
    tell t p (event severity_step (text "Waiting for bootstrap workloads") gate.namespace)
    t.wait_workloads_ready gate.namespace timeout

  -- `_wait_ready`
  unfoldable pub wait_ready : ReleaseSource → Option BootstrapReadiness → Step t p Unit
  unfolding gate_timeout wait_nodes wait_gate
  wait_ready source none = pure tt
  wait_ready source (some readiness) = do
    timeout ← lift (t.parse_duration (gate_timeout source readiness.workloads_ready))
    wait_nodes readiness.nodes_ready timeout
    wait_gate readiness.workloads_ready timeout

  unfoldable pub bootstrap_releases : List (Release × Text) → Step t p (List BootstrapOutcome)
  unfolding tell
  bootstrap_releases [] = pure []
  bootstrap_releases ((r, label) ∷ rest) = do
    tell t p (event severity_step (text "Bootstrapping") (r.name ++ (text " -> " ++ r.namespace)))
    status ← converge t r
    outcomes ← bootstrap_releases rest
    pure (
        record { name = r.name; profile = label; namespace = r.namespace; status = status }
        ∷ outcomes)

  -- one turn of the loop of `bootstrap`
  unfoldable pub bootstrap_step : Session → BootstrapStep → Step t p (List BootstrapOutcome)
  unfolding bootstrap_releases wait_ready runtime_values
  bootstrap_step session s = do
    sets ← runtime_values session s.authored.runtime_values
    rs ← lift (releases p s sets)
    outcomes ← bootstrap_releases rs
    wait_ready s.authored.source s.authored.readiness
    pure outcomes

  unfoldable pub bootstrap : Session → List BootstrapStep → Step t p (List BootstrapOutcome)
  unfolding bootstrap_step
  bootstrap session [] = pure []
  bootstrap session (s ∷ rest) = do
    outcomes ← bootstrap_step session s
    others ← bootstrap session rest
    pure (outcomes ++ others)
