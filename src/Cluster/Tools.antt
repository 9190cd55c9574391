-- ===== src/Cluster/Tools.antt =====
-- What code on a cluster meets outside itself: the tools behind integrations/helm.py,
-- integrations/kubectl.py, integrations/kind.py and plumbing/commands.py, and the callback of
-- plumbing/progress.py. Each call may change `Outside` and may raise; the progress callback does not.
use lab_charts.Base.{◌≡◌, ℕ, Bool, Option, List, Text}
use lab_charts.Cluster.Effects.{Try, Act}

pub data Severity : Type 0 where
  severity_step severity_detail severity_warn severity_error severity_info : Severity

-- plumbing/progress.py
pub record ProgressEvent : Type 0 where
  pub severity : Severity
  pub message : Text
  pub label : Option Text

-- an exit code; that of a process ended by a signal is the signal's number, negated
pub data ExitCode : Type 0 where
  exited : ℕ → ExitCode
  signalled : ℕ → ExitCode

-- plumbing/commands.py
pub record CommandResult : Type 0 where
  pub returncode : ExitCode
  pub stdout : Text
  pub stderr : Text

-- a chart directory, or a remote chart reference
pub data ChartSource : Type 0 where
  local_chart : Text → ChartSource
  remote_chart : Text → ChartSource

pub record Release : Type 0 where
  pub name : Text
  pub chart : ChartSource
  pub namespace : Text
  pub values : List Text
  pub sets : List (Text × Text)
  pub timeout : Text
  pub version : Option Text
  pub repo : Option Text

-- a row of `helm list`
pub record ReleaseInfo : Type 0 where
  pub namespace : Text
  pub name : Text
  pub status : Text

-- What `wait` reads of a YAML document: the text of its kind, and its metadata's name and namespace
-- where they are there and not empty. Any document that is not a mapping is `scalar`.
pub data Document : Type 0 where
  scalar : Document
  mapping : (kind : Text) (namespace name : Option Text) → Document

-- a hook's command: argv, directory, timeout in milliseconds, environment
pub record HookCommand : Type 0 where
  pub argv : List Text
  pub cwd : Text
  pub timeout : ℕ
  pub env : List (Text × Text)

pub record Tools : Type 1 where
  pub Outside : Type 0
  pub report : ProgressEvent → Outside → Outside
  -- plumbing/duration.py, in milliseconds, and plumbing/yaml_files.py
  pub parse_duration : Text → Try ℕ
  pub parse_yaml_documents : Text → Try (List Document)
  pub redact : List Text → Text
  -- helm
  pub ensure_dependencies : Text → Act Outside Unit
  pub lint : Text → List Text → Act Outside Unit
  pub upgrade_install : Release → ℕ → Act Outside Text
  pub manifest : (name namespace : Text) → Act Outside Text
  pub list_releases : Act Outside (List ReleaseInfo)
  pub helm_test : (name namespace : Text) → ℕ → Act Outside CommandResult
  -- kubectl
  pub create_namespace : Text → Act Outside Unit
  pub workload_names : (kind namespace selector : Text) → Act Outside (List Text)
  pub rollout_status : (kind name namespace : Text) → ℕ → Act Outside Unit
  pub wait_established : Text → ℕ → Act Outside Unit
  pub wait_nodes_ready : ℕ → Act Outside Unit
  pub wait_workloads_ready : Text → ℕ → Act Outside Unit
  pub wait_apiserver_ready : ℕ → Act Outside Unit
  pub diagnostics : Text → Act Outside Text
  -- kind
  pub clusters : Act Outside (List Text)
  pub control_plane_ip : Text → Act Outside Text
  pub ensure_cluster : (name config : Text) → Act Outside Unit
  pub delete_cluster : Text → Act Outside Bool
  -- a hook's process: of a chart test, whose exit code is read, and of the cluster, which raises
  pub run_hook : HookCommand → Act Outside CommandResult
  pub run_checked : HookCommand → Act Outside Unit

-- Between these two, the outside was told of an event, and nothing else was done.
abbrev pub Told : (t : Tools) → (w w' : t.Outside) → Type 0
Told t w w' = (ev : ProgressEvent) × (t.report ev w ≡ w')
