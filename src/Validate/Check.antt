-- ===== src/Validate/Check.antt =====
-- commands/validate/run.py, the checks of one row: the rendering of a chart in an environment, and the
-- schema and the policy check of what it renders. The calls of the tools, the files and the clock are
-- given; what the checker remembers between rows is a state of its own.
pub mod Steps
pub mod Rendering
pub mod InOrder
use lab_charts.Base.{
  ℕ, ◌-◌, Bool, true, false, not, ◌&&◌, ◌||◌, Option, none, some, List, [], ◌∷◌, ◌++◌, map, any,
  keep, contains, nat_eq, list_eq, ◌==◌, if◌then◌else◌, Text, text, join, lower, starts_with, strip,
}
use lab_charts.Cluster.Effects.{
  Failure, missing_tool, spec_error, message_of, is_external, is_expected, Try, returned, threw,
  Act, pure, throw, lift, catch, attempt, ◌>>=◌, ◌>>◌,
}
use lab_charts.Validate.Models.{
  CheckName, CheckResult, Checks, PolicyResult, ResourceResult, Row, Status, fails_policy,
  is_failed, is_invalid, is_load_error, warns,
}
use mathlib.Core.List.{reverse}

-- `ManifestValidationEnvironmentSpec`
pub record Environment : Type 0 where
  pub namespace : Option Text
  pub values : List Text

-- the parts of a chart's validation section that a row and its checks read
pub record CheckSpec : Type 0 where
  pub release_name : Text
  pub namespace_template : Option Text
  pub helm_binary : Option Text
  pub helm_version : Option Text
  pub schema_locations : List Text
  pub ignore_missing_schemas : List Text
  pub environments : List (Text × Environment)
  pub kubeconform : Bool
  pub policy : Bool
  pub extra_policies : List Text

pub record CheckedChart : Type 0 where
  pub name : Text
  pub path : Text
  pub spec : CheckSpec

-- the upstream schemas and those generated from CRDs
pub record Schemas : Type 0 where
  pub crds : List Text
  pub locations : List Text
  pub kubernetes_version : Text
  pub skip_kinds : List Text

-- `schemas` and `dependencies_ready` of a checker
pub record Memory : Type 0 where
  pub schemas : Option (Try Schemas)
  pub ready : List Text

pub data ReturnCode : Type 0 where
  -- the process ended by a signal
  signalled : ℕ → ReturnCode
  exited : ℕ → ReturnCode

-- what a call of `helm template` comes to; its MissingToolError, and what is no ExternalCommandError,
-- it raises
pub data Templated : Type 0 where
  rendered : Templated
  not_rendered : (returncode : Option ReturnCode) (message : Text) → Templated

pub record CheckTools : Type 1 where
  pub Outside : Type 0
  pub now : Act Outside ℕ
  pub seconds : ℕ → Text
  pub row_update : (chart env : Text) → CheckName → Status → (detail : Text) → Act Outside Unit
  -- `path / name`, a path's directory, and a path below the repository's root
  pub beside : (path name : Text) → Text
  pub parent : Text → Text
  pub at_root : Text → Text
  pub resolve : Text → Text
  pub policies_root : Text
  pub is_file : Text → Act Outside Bool
  pub is_dir : Text → Act Outside Bool
  -- whether a directory or its parent is a symlink
  pub is_linked : Text → Act Outside Bool
  -- `shutil.rmtree`, where there is such a directory
  pub clear : Text → Act Outside Unit
  -- whether any `*.yaml` stands below a directory
  pub has_manifests : Text → Act Outside Bool
  pub mise_where : Text → Act Outside Text
  pub ensure_dependencies : (binary path : Text) → Act Outside Unit
  pub template :
      (binary release path namespace out : Text) (values : List Text) → Act Outside Templated
  -- the schema store, the schema lock and the schemas of CRDs
  pub load_schemas : Act Outside Schemas
  pub validate_schemas :
      (out version : Text) (locations skip_kinds : List Text) → Act Outside (List ResourceResult)
  pub apply_policies : (out : Text) (policies : List Text) → Act Outside (List PolicyResult)

unfoldable pub is_requested : CheckName → List CheckName → Bool
is_requested name [] = false
is_requested name (c ∷ cs) = is_check name c || is_requested name cs
  where
    is_check : CheckName → CheckName → Bool
    is_check CheckName.render CheckName.render = true
    is_check CheckName.schema CheckName.schema = true
    is_check CheckName.policy CheckName.policy = true
    is_check _ _ = false

unfoldable pub result_of : Status → Text → CheckResult
result_of status detail = record { status = status; detail = detail; elapsed = none }

unfoldable pub check_text : CheckName → Text
check_text CheckName.render = text "render"
check_text CheckName.schema = text "schema"
check_text CheckName.policy = text "policy"

-- the names of the earlier checks that failed
unfoldable pub failed_checks : Checks → List Text
unfolding check_text
failed_checks checks =
    map (λ (c : CheckName × CheckResult). check_text c.0)
      (keep (λ (c : CheckName × CheckResult). is_failed c.1.status) checks)

-- `f"{kind}/{name} ({filename}): {msg or ''}".rstrip(": ")`
unfoldable pub drop_marks : Text → Text
drop_marks [] = []
drop_marks (c ∷ cs) = let rest = drop_marks cs in if c == 58 || c == 32 then rest else c ∷ cs

unfoldable pub rstrip_marks : Text → Text
unfolding drop_marks
rstrip_marks t = reverse (drop_marks (reverse t))

unfoldable pub or_empty : Option Text → Text
or_empty none = []
or_empty (some t) = t

unfoldable pub resource_finding : ResourceResult → Text
unfolding rstrip_marks or_empty
resource_finding r = rstrip_marks (
    r.kind
    ++ (text "/" ++ (r.name ++ (text " (" ++ (r.filename ++ (text "): " ++ or_empty r.msg))))))

-- `_policy_findings`
unfoldable pub policy_findings : List PolicyResult → Text
unfolding rstrip_marks or_empty
policy_findings results = join (text "\n") (map finding results)
  where
    finding : PolicyResult → Text
    finding r = rstrip_marks (
        r.policy_name
        ++ (text "/"
            ++ (r.rule
                ++ (text ": "
                    ++ (r.resource_kind
                        ++ (text "/" ++ (r.resource_name ++ (text ": " ++ or_empty r.message))))))))

-- `_is_schema_unavailable`
unfoldable pub is_schema_unavailable : ResourceResult → Bool
is_schema_unavailable r = unloaded r.msg
  where
    unloaded : Option Text → Bool
    unloaded none = true
    unloaded (some msg) = not (
        starts_with (text "error unmarshalling resource:") (lower msg)
        || (starts_with (text "error while parsing:") (lower msg)
            || starts_with (text "prohibited resource kind ") (lower msg)))

-- _SCHEMA_UNAVAILABLE
abbrev pub schema_unavailable : Text
schema_unavailable =
    text "Schema unavailable or unreadable: check schema JSON and spec.validation.schemaLocations "
    ++ (text "in the chart's chart-lifecycle.yaml. Run `chart-manager schemas sync` for missing "
        ++ (text "upstream snapshots; if the kind is absent from those pins, check the current CRD "
            ++ text "providers or add a chart-local schema."))

-- what a report of kubeconform says of a row
unfoldable pub schema_result : List ResourceResult → CheckResult
unfolding result_of resource_finding is_schema_unavailable
schema_result resources = judged (keep (λ (r : ResourceResult). is_invalid r.status) resources)
  where
    findings : List ResourceResult → Text
    findings rs = join (text "\n") (map resource_finding rs)

    judged : List ResourceResult → CheckResult
    judged [] = result_of Status.passed []
    judged (r ∷ rs) =
        if any is_schema_unavailable
          (keep (λ (x : ResourceResult). is_load_error x.status) resources)
        then result_of Status.error (findings (r ∷ rs) ++ (text "\n" ++ schema_unavailable))
        else result_of Status.failed (findings (r ∷ rs))

unfoldable pub warnings_part : List PolicyResult → List Text
unfolding policy_findings
warnings_part [] = []
warnings_part (r ∷ rs) = (text "warnings:\n" ++ policy_findings (r ∷ rs)) ∷ []

unfoldable pub is_empty : List PolicyResult → Bool
is_empty [] = true
is_empty (r ∷ rs) = false

-- what a report of kyverno says of a row
unfoldable pub policy_result : List PolicyResult → CheckResult
unfolding result_of policy_findings warnings_part is_empty
policy_result results =
    let failures = keep (λ (r : PolicyResult). fails_policy r.status) results in
    result_of (if is_empty failures then Status.passed else Status.failed) (
      join (text "\n\n") (
        keep (λ part. not (part == []))
          (policy_findings failures
            ∷ warnings_part (keep (λ (r : PolicyResult). warns r.status) results))))

-- what a call of helm says of a row: only a chart that helm refuses has failed
unfoldable pub is_rejection : Option ReturnCode → Bool
is_rejection none = false
is_rejection (some (signalled n)) = false
is_rejection (some (exited n)) = not (n == 0)

unfoldable pub render_result : Templated → CheckResult
unfolding result_of is_rejection
render_result rendered = result_of Status.passed []
render_result (not_rendered returncode message) =
    result_of (if is_rejection returncode then Status.failed else Status.error) message

unfoldable pub find_environment : Text → List (Text × Environment) → Option Environment
find_environment env [] = none
find_environment env ((name, found) ∷ rest) =
    let later = find_environment env rest in if name == env then some found else later

-- what stands before the first `{{`, and all of a text without one
unfoldable pub before_braces : Text → Text
before_braces [] = []
before_braces (c ∷ cs) =
    let rest = before_braces cs in if starts_with (text "{{") (c ∷ cs) then [] else c ∷ rest

unfoldable pub ends_with_slash : Text → Bool
ends_with_slash [] = false
ends_with_slash (c ∷ []) = c == 47
ends_with_slash (c ∷ (d ∷ rest)) = ends_with_slash (d ∷ rest)
