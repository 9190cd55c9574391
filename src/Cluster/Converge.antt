-- ===== src/Cluster/Converge.antt =====
-- shared/cluster/converge.py: install one Helm release and wait until it is ready.
pub mod Laws
pub mod Ready
pub mod Failures
use lab_charts.Base.{
  lower, ℕ, ◌+◌, Bool, true, false, ◌&&◌, not, Option, none, some, List, [], ◌∷◌, ◌++◌, map, nat_eq,
  list_eq, pair_eq, ◌==◌, contains, add_once, leb, sorted, if◌then◌else◌, Text, text,
}
use lab_charts.Cluster.Effects.{
  Failure, release_failed, message_of, is_reported, Try, Act, pure, throw, lift, catch, ◌>>=◌, ◌>>◌,
  for_each,
}
use lab_charts.Cluster.Tools.{
  Tools, Release, ReleaseInfo, ChartSource, local_chart, remote_chart, Document, scalar, mapping,
}

-- kind, namespace, name
abbrev pub Workload : Type 0
Workload = Text × (Text × Text)

-- WORKLOAD_KINDS
unfoldable pub workload_kinds : List Text
workload_kinds = text "deployment" ∷ text "statefulset" ∷ text "daemonset" ∷ []

unfoldable pub or_else : Option Text → Text → Text
or_else none t = t
or_else (some s) t = s

-- WORKLOAD_KINDS.index
unfoldable pub kind_index : Text → ℕ
kind_index kind =
    if kind == text "deployment" then 0 else if kind == text "statefulset" then 1 else 2

unfoldable pub kind_leb : Workload → Workload → Bool
unfolding kind_index
kind_leb a b = leb (kind_index a.0) (kind_index b.0)

-- the workloads and the CRDs that `wait` has found
abbrev pub Found : Type 0
Found = List Workload × List Text

module _ (release_namespace : Text) where
  unfoldable pub note_document : Document → Found → Found
  unfolding lower workload_kinds or_else
  note_document scalar found = found
  note_document (mapping kind namespace none) found = found
  note_document (mapping kind namespace (some name)) (ws, crds) =
      if contains workload_kinds (lower kind)
      then (add_once (lower kind, (or_else namespace release_namespace, name)) ws, crds)
      else if lower kind == text "customresourcedefinition"
      then (ws, crds ++ name ∷ [])
      else (ws, crds)

  unfoldable pub note_documents : List Document → Found → Found
  unfolding note_document
  note_documents [] found = found
  note_documents (d ∷ ds) found = note_documents ds (note_document d found)

  unfoldable pub note_names : Text → List Text → List Workload → List Workload
  note_names kind [] ws = ws
  note_names kind (n ∷ ns) ws = note_names kind ns (add_once (kind, (release_namespace, n)) ws)

-- `f"{release.name} -> {release.namespace}: {step} failed: {cause}"`
unfoldable pub release_failed_message : Release → Text → Failure → Text
release_failed_message r step cause =
    r.name
    ++ (text " -> "
        ++ (r.namespace ++ (text ": " ++ (step ++ (text " failed: " ++ message_of cause)))))

module _ (t : Tools) where
  abbrev pub Step : Type 0 → Type 0
  Step A = Act t.Outside A

  -- the workloads labelled with the release's instance, of every kind
  unfoldable pub labelled : Release → List Text → List Workload → Step (List Workload)
  unfolding note_names
  labelled r [] ws = pure ws
  labelled r (kind ∷ kinds) ws = do
    names ← t.workload_names kind r.namespace (text "app.kubernetes.io/instance=" ++ r.name)
    labelled r kinds (note_names r.namespace kind names ws)

  unfoldable pub wait_workload : ℕ → Workload → Step Unit
  wait_workload timeout (kind, (namespace, name)) = t.rollout_status kind name namespace timeout

  unfoldable pub wait_all : ℕ → List Workload → List Text → Step Unit
  unfolding wait_workload
  wait_all timeout ws crds = do
    for_each (sorted kind_leb ws) (wait_workload timeout)
    for_each crds (λ crd. t.wait_established crd timeout)

  -- what `wait` waits for
  unfoldable pub awaited : Release → Step Found
  unfolding note_documents labelled
  awaited r = do
    manifest ← t.manifest r.name r.namespace
    documents ← lift (t.parse_yaml_documents manifest)
    let found = note_documents r.namespace documents ([], [])
    ws ← labelled r workload_kinds found.0
    pure (ws, found.1)

  unfoldable pub wait : Release → Step Unit
  unfolding awaited wait_all
  wait r = do
    found ← awaited r
    timeout ← lift (t.parse_duration r.timeout)
    wait_all timeout found.0 found.1

  -- the `except` clauses of `converge`; `step` is the variable that it sets before each part
  unfoldable pub explain : {A : Type 0} → Release → Text → Failure → Step A
  unfolding release_failed_message
  explain r step cause =
      if is_reported cause
      then (do
        diagnostics ← t.diagnostics r.namespace
        throw (release_failed (release_failed_message r step cause) diagnostics))
      else throw cause

  unfoldable pub update_dependencies : ChartSource → Step Unit
  update_dependencies (local_chart path) = t.ensure_dependencies path
  update_dependencies (remote_chart ref) = pure tt

  unfoldable pub install_release : Release → Step Text
  install_release r = do timeout ← lift (t.parse_duration r.timeout); t.upgrade_install r timeout

  unfoldable pub converge : Release → Step Text
  unfolding explain update_dependencies install_release wait
  converge r = do
    catch (update_dependencies r.chart) (explain r (text "dependency update"))
    status ← catch (install_release r) (explain r (text "install"))
    catch (wait r) (explain r (text "wait"))
    pure status

  -- every release in the cluster, in any state: (namespace, name)
  unfoldable pub installed : Step (List (Text × Text))
  installed = do
    rows ← t.list_releases
    pure (map (λ (i : ReleaseInfo). (i.namespace, i.name)) rows)
