-- ===== src/Test/Plan.antt =====
-- commands/test/plan.py, `compile_plan`, over the types of commands/test/models.py: what a chart test
-- does, in order. What a path resolves to and which executables a hook may name are read from the
-- file system and PATH (`validate_hook_executable`), and are parameters.
pub mod Laws
pub mod Skips
pub mod Merging
pub mod Compiled
use lab_charts.Base.{
  ℕ, Bool, true, false, not, ◌&&◌, ◌||◌, Option, none, some, List, [], ◌∷◌, ◌++◌, map, nat_eq,
  list_eq, pair_eq, ◌==◌, contains, if◌then◌else◌, Text, text, join, sorted, text_leb,
}
use lab_charts.Charts.Result.{Key, Result, ok, err, ◌>>=◌, two_namespaces, bad_hook}
use lab_charts.Charts.Lifecycle.{ChartTestRef, ChartTestHooks, ChartTestSpec, require_chart_test}
use lab_charts.Charts.InstallPlan.{InstallPlanEntry, entry_key, ref_key, Checkout, install_plan}

pub data ActionKind : Type 0 where
  namespace_ensure helm_lint install workload_ready helm_test : ActionKind
  hook_pre_install hook_post_install hook_cleanup : ActionKind

pub record LifecycleAction : Type 0 where
  pub entry : InstallPlanEntry
  pub kind : ActionKind
  pub command : List Text

pub record LifecyclePlan : Type 0 where
  pub chart : Text
  pub profile : Text
  pub actions : List LifecycleAction
  pub warnings : List Text

pub record SkippedRequirement : Type 0 where
  pub chart : Text
  pub profile : Text
  pub release : Text
  pub namespace : Text

pub record CompiledPlan : Type 0 where
  pub plan : LifecyclePlan
  pub skipped : List SkippedRequirement

-- `Requires`
pub data Requires : Type 0 where
  install_all skip install_untested : Requires

-- the fields of a ChartTestRequest that the compiler reads
pub record ChartTestRequest : Type 0 where
  pub chart : Text
  pub profile : Text
  pub namespace : Option Text
  pub include_dependent_tests : Bool
  pub lint : Bool

-- shared/cluster/bootstrap.py, ExternallySatisfiedLifecycle: path, chart, profile, namespace
abbrev pub Identity : Type 0
Identity = Text × (Text × (Text × Text))

pub record Surroundings : Type 0 where
  pub checkout : Checkout
  pub resolve : Text → Text
  pub executable_valid : Text → Bool
  pub bootstrap_owned : List Identity

abbrev pub Entries : Type 0
Entries = List (Key × InstallPlanEntry)

unfoldable pub find_entry : Key → Entries → Option InstallPlanEntry
find_entry key [] = none
find_entry key ((k, e) ∷ rest) = if k == key then some e else find_entry key rest

-- `entries.setdefault(key, entry)`, and the test of the namespaces
unfoldable pub set_default : InstallPlanEntry → Entries → Option InstallPlanEntry → Result Entries
set_default entry entries none = ok (entries ++ (entry_key entry, entry) ∷ [])
set_default entry entries (some first) =
    if first.namespace == entry.namespace
    then ok entries
    else err (two_namespaces (entry_key entry) first.namespace entry.namespace)

unfoldable pub merge_all : List InstallPlanEntry → Entries → Result Entries
unfolding set_default find_entry
merge_all [] entries = ok entries
merge_all (x ∷ xs) entries = do
  merged ← set_default x entries (find_entry (entry_key x) entries)
  merge_all xs merged

-- `plan_entries[-1] = replace(plan_entries[-1], namespace=...)`; a plan is never empty
unfoldable pub relocate_last : Text → List InstallPlanEntry → List InstallPlanEntry
relocate_last namespace [] = []
relocate_last namespace (x ∷ []) = record x { namespace = namespace } ∷ []
relocate_last namespace (x ∷ y ∷ r) = x ∷ relocate_last namespace (y ∷ r)

unfoldable pub relocate : Option Text → List InstallPlanEntry → List InstallPlanEntry
unfolding relocate_last
relocate none xs = xs
relocate (some namespace) xs = relocate_last namespace xs

-- the locals of `compile_plan` that its loop over the entries changes
pub record Steps : Type 0 where
  pub actions : List LifecycleAction
  pub cleanups : List LifecycleAction
  pub owned : List Text
  pub skipped : List SkippedRequirement

abbrev pub no_steps : Steps
no_steps = record { actions = []; cleanups = []; owned = []; skipped = [] }

abbrev pub step : InstallPlanEntry → ActionKind → LifecycleAction
step entry kind = record { entry = entry; kind = kind; command = [] }

-- an action that is there on a condition
unfoldable pub step_if : Bool → LifecycleAction → List LifecycleAction
step_if true a = a ∷ []
step_if false a = []

-- `owned.add`
unfoldable pub add_name : Text → List Text → List Text
add_name name owned = if contains owned name then owned else owned ++ name ∷ []

abbrev pub hook_argv : (ChartTestHooks → List Text) → Option ChartTestHooks → List Text
hook_argv f none = []
hook_argv f (some h) = f h

unfoldable pub reversed : List LifecycleAction → List LifecycleAction
reversed [] = []
reversed (a ∷ rest) = reversed rest ++ a ∷ []

module _ (r : Surroundings) where
  -- `_hook_action`, where there is an argv
  unfoldable pub hook_action :
      InstallPlanEntry → ActionKind → List Text → Result (List LifecycleAction)
  hook_action entry kind [] = ok []
  hook_action entry kind (x ∷ xs) =
      if r.executable_valid x
      then ok (record { entry = entry; kind = kind; command = x ∷ xs } ∷ [])
      else err (bad_hook (entry_key entry) x)

  -- the actions of an installation, around its hooks
  unfoldable pub install_steps :
      InstallPlanEntry
      → (lint test : Bool) → (pre post : List LifecycleAction) → List LifecycleAction
  unfolding step_if
  install_steps entry lint test pre post =
      step entry namespace_ensure
      ∷ (step_if lint (step entry helm_lint)
          ++ (pre
              ++ (step entry install
                  ∷ (post ++ step_if (test && entry.spec.helm_test) (step entry helm_test)))))

  -- `_append_steps`
  unfoldable pub append_steps : InstallPlanEntry → (lint test : Bool) → Steps → Result Steps
  unfolding hook_action install_steps
  append_steps entry lint test s = do
    pre ← hook_action entry hook_pre_install (hook_argv (λ h. h.pre_install) entry.spec.hooks)
    post ← hook_action entry hook_post_install (hook_argv (λ h. h.post_install) entry.spec.hooks)
    cleanup ← hook_action entry hook_cleanup (hook_argv (λ h. h.cleanup) entry.spec.hooks)
    ok (record s {
      actions = s.actions ++ install_steps entry lint test pre post;
      cleanups = s.cleanups ++ cleanup;
    })

  -- ExternallySatisfiedLifecycle.of
  unfoldable pub identity_of : InstallPlanEntry → Identity
  identity_of e = (r.resolve e.chart.path, (e.chart.name, (e.profile, e.namespace)))

  unfoldable pub is_owned : InstallPlanEntry → Bool
  unfolding identity_of
  is_owned e = contains r.bootstrap_owned (identity_of e)

  -- a release that the environment has installed
  unfoldable pub owned_steps : Bool → InstallPlanEntry → Steps → Steps
  unfolding step_if add_name
  owned_steps selected e s = record s {
    owned = add_name e.chart.name s.owned;
    actions =
        s.actions
        ++ (step_if selected (step e workload_ready)
            ++ step_if (selected && e.spec.helm_test) (step e helm_test));
  }

  abbrev pub skipped_of : InstallPlanEntry → SkippedRequirement
  skipped_of e = record {
    chart = e.chart.name;
    profile = e.profile;
    release = e.chart.name;
    namespace = e.namespace;
  }

  -- a required entry
  unfoldable pub required_steps : Requires → Bool → InstallPlanEntry → Steps → Result Steps
  unfolding append_steps
  required_steps install_all lint e s = append_steps e lint true s
  required_steps install_untested lint e s = append_steps e lint false s
  required_steps skip lint e s = ok (record s { skipped = s.skipped ++ skipped_of e ∷ [] })

  unfoldable pub entry_steps :
      Requires → (lint selected : Bool) → InstallPlanEntry → Steps → Result Steps
  unfolding is_owned owned_steps required_steps
  entry_steps requires lint selected e s =
      if is_owned e
      then ok (owned_steps selected e s)
      else if selected
      then append_steps e lint true s
      else required_steps requires lint e s

  unfoldable pub all_steps : Requires → Bool → List Key → Entries → Steps → Result Steps
  unfolding entry_steps
  all_steps requires lint selected [] s = ok s
  all_steps requires lint selected ((key, e) ∷ rest) s = do
    s' ← entry_steps requires lint (contains selected key) e s
    all_steps requires lint selected rest s'

  unfoldable pub merge_requested : ℕ → Option Text → List Key → Entries → Result Entries
  unfolding merge_all relocate
  merge_requested depth namespace [] entries = ok entries
  merge_requested depth namespace ((chart, profile) ∷ rest) entries = do
    plan ← install_plan r.checkout depth chart profile
    merged ← merge_all (relocate namespace plan) entries
    merge_requested depth namespace rest merged

  unfoldable pub requested_keys : ChartTestRequest → Result (List Key)
  requested_keys q =
      if q.include_dependent_tests
      then (do
        chart ← r.checkout.load_chart q.chart
        spec ← require_chart_test chart.lifecycle chart.name
        ok ((q.chart, q.profile) ∷ map ref_key spec.dependent_tests))
      else ok ((q.chart, q.profile) ∷ [])

  owned_warning : List Text → List Text
  owned_warning [] = []
  owned_warning (n ∷ ns) =
      (text "environment bootstrap externally satisfies chart(s): "
        ++ (join (text ", ") (sorted text_leb (n ∷ ns))
            ++ text
                "; environment-owned preparation/install actions were excluded from this executable plan"))
      ∷ []

  skipped_warning : List SkippedRequirement → List Text
  skipped_warning [] = []
  skipped_warning (x ∷ xs) =
      (text "requires assumed installed (--skip-requires): "
        ++ join (text ", ")
            (map (λ (s : SkippedRequirement). s.chart ++ (text ":" ++ s.profile)) (x ∷ xs)))
      ∷ []

  unfoldable pub compiled : ChartTestRequest → Steps → CompiledPlan
  unfolding owned_warning skipped_warning reversed
  compiled q s = record {
    plan = record {
      chart = q.chart;
      profile = q.profile;
      actions = s.actions ++ reversed s.cleanups;
      warnings = owned_warning s.owned ++ skipped_warning s.skipped;
    };
    skipped = s.skipped;
  }

  -- the requested keys, the entries that they come to, and what is done for them
  pub record Compilation : Type 0 where
    pub selected : List Key
    pub entries : Entries
    pub result : CompiledPlan

  unfoldable pub compilation : ℕ → Requires → ChartTestRequest → Result Compilation
  unfolding requested_keys merge_requested all_steps compiled
  compilation depth requires q = do
    selected ← requested_keys q
    entries ← merge_requested depth q.namespace selected []
    s ← all_steps requires q.lint selected entries no_steps
    ok (record { selected = selected; entries = entries; result = compiled q s })

  unfoldable pub compile_plan : ℕ → Requires → ChartTestRequest → Result CompiledPlan
  unfolding compilation
  compile_plan depth requires q = do c ← compilation depth requires q; ok c.result
