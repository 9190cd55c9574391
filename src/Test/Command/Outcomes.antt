-- ===== src/Test/Command/Outcomes.antt =====
-- What has happened when `chart test` returns an outcome.
use lab_charts.Base.{
  Bool, true, false, not, ◌&&◌, List, [], all, nat_eq, list_eq, pair_eq, contains, ◌≡◌, ◌⊎◌, none,
  some, Every, Text,
}
use lab_charts.Cluster.Effects.{returned}
use lab_charts.Cluster.Tools.{Tools, Told}
use lab_charts.Cluster.Converge.{installed}
use lab_charts.Cluster.Bootstrap.{
  BootstrapStep, BootstrapOutcome, Session, releases, raise_error, preflight,
}
use lab_charts.Cluster.Bootstrap.Install.{bootstrap}
use lab_charts.Cluster.Session.{find}
use lab_charts.Cluster.Bootstrap.Laws.{AllPresent, AllBootstrapped}
use lab_charts.Test.Plan.{
  SkippedRequirement, CompiledPlan, ChartTestRequest, Requires, compile_plan,
}
use lab_charts.Test.Run.{ChartTestOutcome}
use lab_charts.Test.Run.Report.{IsReport}
use lab_charts.Test.Command.{
  RunRequest, Setting, surroundings, requires_of, open_session, runner_for,
}

-- whether a requirement is among the releases that are there
abbrev pub is_present : List (Text × Text) → SkippedRequirement → Bool
is_present present s = contains present (s.namespace, s.release)

module _ (t : Tools) (g : Setting) where
  -- Every requirement left out was among the releases that the cluster listed next.
  pub data AllRequired (w w' : t.Outside) : List SkippedRequirement → Type 0 where
    none_skipped : w ≡ w' → AllRequired w w' []
    all_listed :
        (skipped : List SkippedRequirement) (present : List (Text × Text))
        → installed t w ≡ (returned present, w')
        → all (is_present present) skipped ≡ true
        → AllRequired w w' skipped

  -- The environment's releases were found on the cluster, or were installed next and are ready.
  pub data IsMadeReady (session : Session) (steps : List BootstrapStep) (w w' : t.Outside)
      : Bool → Type 0 where
    verified :
        (present : List (Text × Text))
        → installed t w ≡ (returned present, w')
        → Every (λ s. AllPresent present (releases g.repository s [])) steps
        → IsMadeReady session steps w w' true
    bootstrapped :
        (outcomes : List BootstrapOutcome)
        → bootstrap t g.repository session steps w ≡ (returned outcomes, w')
        → AllBootstrapped t g.repository session steps outcomes
        → IsMadeReady session steps w w' false

  -- Whether the cluster is fresh: it is asked for only where requirements are skipped and a cluster is
  -- ensured, and then is fresh exactly where none is found.
  pub data IsFreshness (q : RunRequest) (w w' : t.Outside) : Bool → Type 0 where
    not_asked : (q.skip_requires && q.ensure_cluster) ≡ false → w ≡ w' → IsFreshness q w w' false
    none_found :
        (q.skip_requires && q.ensure_cluster) ≡ true
        → find t g.repository q.cluster_name w ≡ (returned none, w')
        → IsFreshness q w w' true
    one_found :
        (s : Session)
        → (q.skip_requires && q.ensure_cluster) ≡ true
        → find t g.repository q.cluster_name w ≡ (returned (some s), w')
        → IsFreshness q w w' false

  -- A run, in the order of what it does: the cluster is looked for, the environment's steps resolved, the
  -- plan compiled, the session opened, the releases made ready, the requirements looked for, and the
  -- plan's actions performed. `w1` to `w6` are the states of the outside in between.
  pub record IsRun (q : RunRequest) (w : t.Outside) (outcome : ChartTestOutcome) (w' : t.Outside)
      : Type 0 where
    pub fresh : Bool
    pub steps : List BootstrapStep
    pub compiled : CompiledPlan
    pub session : Session
    pub w1 : t.Outside
    pub w2 : t.Outside
    pub w3 : t.Outside
    pub w4 : t.Outside
    pub w5 : t.Outside
    pub w6 : t.Outside
    pub freshness : IsFreshness q w w1 fresh
    pub resolved :
        preflight t g.repository g.depth
          (q.asked.lint && not (q.skip_requires && not fresh))
          g.cluster.releases
          w1
        ≡ (returned steps, w2)
    pub compilation :
        raise_error g.repository
          (compile_plan (surroundings g steps) g.depth (requires_of fresh q.skip_requires) q.asked)
        ≡ returned compiled
    pub warned : ((fresh ≡ false) × (w2 ≡ w3)) ⊎ ((fresh ≡ true) × Told t w2 w3)
    pub opened : open_session t g q w3 ≡ (returned session, w4)
    pub ready : IsMadeReady session steps w4 w5 (q.skip_requires && not fresh)
    pub required : AllRequired w5 w6 compiled.skipped
    pub report :
        IsReport t g.repository
          (runner_for t g session)
          false
          w6
          compiled.plan.actions
          outcome.actions
          w'
    pub chart_is : outcome.chart ≡ q.asked.chart
    pub profile_is : outcome.profile ≡ q.asked.profile
    pub cluster_is : outcome.cluster_name ≡ q.cluster_name

  -- what a compilation that returns has resolved and compiled
  record IsCompilation (q : ChartTestRequest) (lint : Bool) (requires : Requires) (w : t.Outside)
      (found : CompiledPlan × List BootstrapStep) (w' : t.Outside) : Type 0 where
    pub resolved :
        preflight t g.repository g.depth lint g.cluster.releases w ≡ (returned found.1, w')
    pub compiled :
        raise_error g.repository (compile_plan (surroundings g found.1) g.depth requires q)
        ≡ returned found.0
