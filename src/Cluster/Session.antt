-- ===== src/Cluster/Session.antt =====
-- shared/cluster/session.py: one kind cluster, provisioned or attached to.
use lab_charts.Base.{
  ℕ, Bool, true, false, Option, none, some, List, [], ◌∷◌, ◌++◌, nat_eq, list_eq, contains,
  if◌then◌else◌, Text, text,
}
use lab_charts.Cluster.Effects.{Act, pure, ◌>>=◌, ◌>>◌}
use lab_charts.Cluster.Tools.{Tools, severity_step}
use lab_charts.Cluster.Releases.{Repository, BootstrapRelease}
use lab_charts.Cluster.Bootstrap.{Session, event, tell}

-- api/v1alpha1/local_cluster.py
pub record ProvisioningHooks : Type 0 where
  pub pre_provision : Option (List Text)
  pub post_provision : Option (List Text)

pub record LocalCluster : Type 0 where
  pub config : Text
  pub hooks : Option ProvisioningHooks
  pub releases : List BootstrapRelease

-- APISERVER_READY_TIMEOUT, in milliseconds
abbrev pub apiserver_ready_timeout : ℕ
apiserver_ready_timeout = 60000

-- integrations/kind.py, `kind_context`
unfoldable pub kind_context : Text → Text
kind_context cluster_name = text "kind-" ++ cluster_name

unfoldable pub attach : Text → Session
unfolding kind_context
attach name = record { name = name; context = kind_context name }

unfoldable pub hook_of :
    (ProvisioningHooks → Option (List Text)) → Option ProvisioningHooks → Option (List Text)
hook_of which none = none
hook_of which (some hooks) = which hooks

-- what `provision` is called with
pub record Provisioning : Type 0 where
  pub cluster : LocalCluster
  pub name : Text
  pub run_hooks : Bool
  pub replace : Bool
  pub command_timeout : ℕ

module _ (t : Tools) (p : Repository) where
  abbrev pub Step : Type 0 → Type 0
  Step A = Act t.Outside A

  unfoldable pub find : Text → Step (Option Session)
  unfolding attach
  find name = do names ← t.clusters; pure (if contains names name then some (attach name) else none)

  -- `teardown`
  unfoldable pub delete_session : Session → Step Bool
  delete_session s = t.delete_cluster s.name

  unfoldable pub kind_config_path : LocalCluster → Text
  kind_config_path c = p.resolve (p.under c.config)

  -- the environment that both hooks share
  unfoldable pub hook_env : Provisioning → List (Text × Text)
  unfolding kind_config_path
  hook_env q =
      (text "CHART_MANAGER_ROOT", p.resolve p.root)
      ∷ (text "CHART_MANAGER_CLUSTER_NAME", q.name)
      ∷ (text "CHART_MANAGER_KIND_CONFIG", kind_config_path q.cluster)
      ∷ []

  unfoldable pub run_hook : ℕ → List Text → List (Text × Text) → Step Unit
  run_hook command_timeout argv env =
      t.run_checked
        (record { argv = argv; cwd = p.resolve p.root; timeout = command_timeout; env = env })

  unfoldable pub pre_provision : Provisioning → Option (List Text) → Step Unit
  unfolding run_hook hook_env
  pre_provision q none = pure tt
  pre_provision q (some argv) =
      run_hook q.command_timeout argv
        (hook_env q ++ (text "CHART_MANAGER_HOOK_PHASE", text "preProvision") ∷ [])

  unfoldable pub post_provision : Provisioning → Session → Option (List Text) → Step Unit
  unfolding run_hook hook_env
  post_provision q session none = pure tt
  post_provision q session (some argv) = do
    run_hook q.command_timeout argv (
        hook_env q
        ++ (text "CHART_MANAGER_HOOK_PHASE", text "postProvision")
          ∷ (text "CHART_MANAGER_KUBE_CONTEXT", session.context)
          ∷ (text "CHART_MANAGER_PROVIDER_TYPE", text "kind")
          ∷ [])
    tell t p (event severity_step (text "Waiting for kube-apiserver after post-provision hook") [])
    t.wait_apiserver_ready apiserver_ready_timeout

  unfoldable pub delete_first : Bool → Session → Step Unit
  unfolding delete_session
  delete_first false session = pure tt
  delete_first true session = do
    tell t p (event severity_step (text "Deleting cluster") session.name)
    _ ← delete_session session
    pure tt

  unfoldable pub provision : Provisioning → Step Session
  unfolding hook_of pre_provision post_provision delete_first attach kind_config_path
  provision q = do
    let session = attach q.name
    let hooks = if q.run_hooks then q.cluster.hooks else none
    pre_provision q (hook_of (λ h. h.pre_provision) hooks)
    delete_first q.replace session
    tell t p (event severity_step (text "Ensuring cluster") q.name)
    t.ensure_cluster q.name (kind_config_path q.cluster)
    tell t p (event severity_step (text "Waiting for kube-apiserver") [])
    t.wait_apiserver_ready apiserver_ready_timeout
    post_provision q session (hook_of (λ h. h.post_provision) hooks)
    pure session
