-- ===== src/Validate/Tests/Runs.antt =====
-- The validation of one chart in one environment, with tools that answer at once.
use lab_charts.Base.{
  ℕ, Bool, true, false, none, some, List, [], ◌∷◌, ◌++◌, ◌≡◌, refl, ap, subst, Text, text, list_beq,
  contains, keep, any, sorted, distinct_of,
}
use lab_charts.Cluster.Effects.{Act, returned, pure, returned-injective, >>=-returned, ◌>>=◌}
use lab_charts.Plumbing.ExitCodes.{Outcome}
use lab_charts.Validate.Check.{CheckSpec, CheckedChart, CheckTools, ReturnCode, not_rendered}
use lab_charts.Validate.Check.InOrder.{IsInspected, check-IsChecked}
use lab_charts.Validate.Check.Steps.{Now, check}
use lab_charts.Validate.Models.{
  CheckName, Checks, Row, Status, ValidateOutcome, outcome, is_failed, is_error, is_failing,
}
use lab_charts.Validate.Models.Outcomes.{IsReason, outcome-IsReason}
use lab_charts.Validate.Run
use lab_charts.Validate.Run.Validated.{IsPaired, IsPool, IsValidated, run-IsValidated}

abbrev answer : {A : Type 0} → A → Act ℕ A
answer a n = (returned a, n)

-- tools that find everything, of a helm that refuses the chart
abbrev lab_tools : CheckTools
lab_tools = record {
  Outside = ℕ;
  now = answer 5;
  seconds = λ n. text "0.0s";
  row_update = λ chart env name status detail. answer tt;
  beside = λ p n. p ++ (text "/" ++ n);
  parent = λ p. p;
  at_root = λ p. p;
  resolve = λ p. p;
  policies_root = text "policies";
  is_file = λ p. answer true;
  is_dir = λ p. answer true;
  is_linked = λ p. answer false;
  clear = λ p. answer tt;
  has_manifests = λ p. answer true;
  mise_where = λ v. answer [];
  ensure_dependencies = λ b p. answer tt;
  template = λ b r p ns out values. answer (not_rendered (some (ReturnCode.exited 1)) (text "bad"));
  load_schemas =
      answer (record { crds = []; locations = []; kubernetes_version = []; skip_kinds = [] });
  validate_schemas = λ out v ls ks. answer [];
  apply_policies = λ out ps. answer [];
}

abbrev lab_spec : CheckSpec
lab_spec = record {
  release_name = text "web";
  namespace_template = none;
  helm_binary = none;
  helm_version = none;
  schema_locations = [];
  ignore_missing_schemas = [];
  environments =
      (text "ci", record { namespace = some (text "lab"); values = [] })
      ∷ ((text "prod", record { namespace = some (text "web"); values = [] }) ∷ []);
  kubeconform = true;
  policy = false;
  extra_policies = [];
}

abbrev lab_chart : CheckedChart
lab_chart = record { name = text "web"; path = text "charts/web"; spec = lab_spec }

abbrev start : Now lab_tools
start = record { memory = record { schemas = none; ready = [] }; world = 0 }

abbrev after : Now lab_tools
after = record { memory = record { schemas = none; ready = text "charts/web" ∷ [] }; world = 0 }

abbrev refused : Checks
refused =
    (CheckName.render, record { status = Status.failed; detail = text "bad"; elapsed = some 0 })
    ∷ ((
      CheckName.schema,
      record { status = Status.skipped; detail = text "render failed"; elapsed = none },
    )
        ∷ [])

abbrev web_row : Text → Text → Checks → Row
web_row env namespace checks = record {
  chart = text "web";
  env = env;
  release = text "web";
  namespace = namespace;
  checks = checks;
}

abbrev asked : List CheckName
asked = CheckName.schema ∷ []

check-IsChecked_example :
    IsInspected lab_tools lab_chart
      (web_row (text "ci") (text "lab") [])
      (text "out")
      asked
      start
      refused
unfolding check list_beq text contains keep is_failed
check-IsChecked_example =
    check-IsChecked lab_tools lab_chart (web_row (text "ci") (text "lab") []) (text "out") asked
      start {checks = refused} {w' = after} refl

outcome-IsReason_example :
    IsReason [] (web_row (text "ci") (text "lab") refused ∷ []) Outcome.failed
unfolding outcome any is_error is_failing
outcome-IsReason_example = outcome-IsReason (record {
  rows = web_row (text "ci") (text "lab") refused ∷ [];
  spec_errors = [];
  warnings = [];
  diagnostics = record {
    requested_charts = [];
    requested_envs = [];
    ignored_changes = [];
    unmatched_changes = [];
    rows_filtered_out = 0;
    charts_unvalidated = 0;
  };
})

-- a pool of one thread
unfoldable one_by_one :
    (Row → Act (Now lab_tools) Run.Checked) → List Row → Act (Now lab_tools) (List Run.Checked)
unfolding ◌>>=◌ pure
one_by_one f [] = pure []
one_by_one f (row ∷ rows) = do r ← f row; rest ← one_by_one f rows; pure (r ∷ rest)

abbrev lab_given : Run.Given lab_tools
lab_given = record {
  select = λ changes w. (
    returned (record {
      rows = [];
      charts = [];
      spec_errors = [];
      warnings = [];
      ignored_changes = [];
      unmatched_changes = [];
      charts_unvalidated = 0;
    }),
    w,
  );
  load_chart =
      λ name w. (returned (Run.loaded (text "web") (text "charts/web") (returned lab_spec)), w);
  safe_substitute = λ template env. template;
  pool_map = one_by_one;
}

abbrev lab_request : Bool → Run.ValidateRequest
lab_request fail_fast = record {
  charts = text "web" ∷ [];
  out = text "out";
  envs = [];
  checks = asked;
  changes = none;
  fail_fast = fail_fast;
  verbose = false;
}

one_by_one-IsPaired :
    (q : Run.ValidateRequest) (f : Row → Act (Now lab_tools) Run.Checked) (rows : List Row)
    (w : Now lab_tools) (results : List Run.Checked) (w' : Now lab_tools)
    → one_by_one f rows w ≡ (returned results, w')
    → IsPaired lab_tools lab_given q f rows results
unfolding one_by_one pure
one_by_one-IsPaired q f [] w results w' h =
    subst (IsPaired lab_tools lab_given q f []) (returned-injective (ap (λ v. v.0) h)) tt
one_by_one-IsPaired q f (row ∷ rows) w results w' h =
    let (r, w1, e1, h1) = >>=-returned (f row) _ w h in
    let (rest, w2, e2, h2) = >>=-returned (one_by_one f rows) _ w1 h1 in
    subst (IsPaired lab_tools lab_given q f (row ∷ rows)) (returned-injective (ap (λ v. v.0) h2))
      (record { before = w; after = w1; run = e1 }, one_by_one-IsPaired q f rows w1 rest w2 e2)

lab_pool : (q : Run.ValidateRequest) → IsPool lab_tools lab_given q
lab_pool q = record { paired = one_by_one-IsPaired q }

abbrev lab_outcome : ValidateOutcome
lab_outcome = record {
  rows =
      web_row (text "ci") (text "lab") refused
      ∷ (web_row (text "prod") (text "web") (
            (
              CheckName.schema,
              record { status = Status.skipped; detail = text "fail-fast"; elapsed = none },
            )
            ∷ [])
          ∷ []);
  spec_errors = [];
  warnings = [];
  diagnostics = record {
    requested_charts = text "web" ∷ [];
    requested_envs = [];
    ignored_changes = [];
    unmatched_changes = [];
    rows_filtered_out = 0;
    charts_unvalidated = 0;
  };
}

-- the second environment is skipped after the first has failed
run-IsValidated_example : IsValidated lab_tools lab_given (lab_request true) lab_outcome
unfolding Run.run sorted distinct_of keep list_beq text contains is_failed any is_failing
run-IsValidated_example =
    run-IsValidated lab_tools lab_given (lab_request true) start {v = lab_outcome} {w' = after}
      (lab_pool (lab_request true)) refl
