-- ===== src/Validate/Check/Steps.antt =====
-- commands/validate/run.py, `_Checker`: the checks of one row as steps on what it remembers and the
-- outside. The rendering of CRDs for the schemas is part of their loading, which is given.
use lab_charts.Base.{
  ◌-◌, Bool, true, false, Option, none, some, List, [], ◌∷◌, ◌++◌, map, contains, nat_eq, list_eq,
  if◌then◌else◌, Text, text, join, strip,
}
use lab_charts.Cluster.Effects.{
  Failure, missing_tool, spec_error, message_of, is_external, is_expected, Try, returned, threw,
  Act, pure, throw, lift, catch, attempt, ◌>>=◌, ◌>>◌,
}
use lab_charts.Validate.Check.{
  CheckSpec, CheckedChart, Environment, Schemas, Memory, CheckTools, is_requested, result_of,
  failed_checks, schema_result, policy_result, render_result, find_environment, before_braces,
  ends_with_slash,
}
use lab_charts.Validate.Models.{CheckName, CheckResult, Checks, Row, Status}

-- `repr` of a name without quotes in it
abbrev quoted : Text → Text
quoted t = text "'" ++ (t ++ text "'")

module _ (t : CheckTools) where
  pub record Now : Type 0 where
    pub memory : Memory
    pub world : t.Outside

  module _ {A : Type 0} where
    -- a call of a tool
    unfoldable pub tool : Act t.Outside A → Act Now A
    tool m w = let (r, o) = m w.world in (r, record w { world = o })

  unfoldable pub remember : Memory → Act Now Unit
  remember m w = (returned tt, record w { memory = m })

  unfoldable pub recall : Act Now Memory
  recall w = (returned w.memory, w)

  unfoldable pub ready : Text → Memory → Memory
  ready key m = record m { ready = key ∷ m.ready }

  -- `_ensure_dependencies`: once for each chart
  unfoldable pub ensure_once : (binary path : Text) → Act Now Unit
  unfolding ◌>>=◌ pure tool remember recall ready
  ensure_once binary path = do
    m ← recall
    if contains m.ready (t.resolve path)
        then pure tt
        else (tool (t.ensure_dependencies binary path) >> remember (ready (t.resolve path) m))

  unfoldable pub keep_schemas : Memory → Try Schemas → Act Now Schemas
  unfolding ◌>>=◌ pure throw remember
  keep_schemas m (returned s) = remember (record m { schemas = some (returned s) }) >> pure s
  keep_schemas m (threw x) =
      if is_expected x then remember (record m { schemas = some (threw x) }) >> throw x else throw x

  unfoldable pub load_once : Memory → Option (Try Schemas) → Act Now Schemas
  unfolding ◌>>=◌ lift attempt keep_schemas tool
  load_once m (some known) = lift known
  load_once m none = attempt (tool t.load_schemas) >>= keep_schemas m

  -- `_schemas`: loaded on first use, and a first error is raised for every row
  unfoldable pub schemas : Act Now Schemas
  unfolding ◌>>=◌ recall load_once
  schemas = do m ← recall; load_once m m.schemas

  -- `except MissingToolError: raise`, and another error that a test covers makes a result
  unfoldable pub or_error : (Failure → Bool) → Failure → Act Now CheckResult
  unfolding throw pure result_of
  or_error covers (missing_tool m) = throw (missing_tool m)
  or_error covers x = if covers x then pure (result_of Status.error (message_of x)) else throw x

  -- `_helm`, the binary
  unfoldable pub helm_binary : CheckSpec → Act Now Text
  unfolding ◌>>=◌ pure tool
  helm_binary spec = chosen spec.helm_binary spec.helm_version
    where
      chosen : Option Text → Option Text → Act Now Text
      chosen (some binary) version = pure binary
      chosen none (some version) = do
        where_is ← tool (t.mise_where (text "helm@" ++ version))
        pure (strip where_is ++ text "/bin/helm")
      chosen none none = pure (text "helm")

  -- those of some paths that a test does not find
  unfoldable pub missing_of : (Text → Act t.Outside Bool) → List Text → Act Now (List Text)
  unfolding ◌>>=◌ pure tool
  missing_of is_there [] = pure []
  missing_of is_there (p ∷ ps) = do
    found ← tool (is_there p)
    rest ← missing_of is_there ps
    pure (if found then rest else p ∷ rest)

  unfoldable pub require_values : CheckedChart → Text → List Text → List Text → Act Now (List Text)
  unfolding throw pure
  require_values chart env values [] = pure values
  require_values chart env values (m ∷ ms) = throw (
      spec_error (
        text "chart "
        ++ (quoted chart.name
            ++ (text " env "
                ++ (quoted env
                    ++ (text ": values file not found: " ++ join (text ", ") (m ∷ ms)))))))

  -- `_values`
  unfoldable pub values_of : CheckedChart → Text → Option Environment → Act Now (List Text)
  unfolding ◌>>=◌ throw missing_of require_values
  values_of chart env none = throw (
      spec_error (
        text "chart "
        ++ (quoted chart.name
            ++ (text " has no validation environment "
                ++ (quoted env
                    ++ (text "; declared: "
                        ++ join (text ", ")
                            (map (λ (e : Text × Environment). e.0) chart.spec.environments)))))))
  values_of chart env (some found) = do
    let paths = map (t.beside chart.path) found.values
    missing ← missing_of t.is_file paths
    require_values chart env paths missing

  unfoldable pub skipped : Row → CheckName → Text → Act Now CheckResult
  unfolding ◌>>=◌ pure tool result_of
  skipped row name reason = do
    tool (t.row_update row.chart row.env name Status.skipped [])
    pure (result_of Status.skipped reason)

  module _ (chart : CheckedChart) (row : Row) (out : Text) where
    unfoldable pub template : Text → List Text → Act Now CheckResult
    unfolding ◌>>=◌ pure tool render_result
    template binary values = do
      answer ← tool (t.template binary row.release chart.path row.namespace out values)
      pure (render_result answer)

    unfoldable pub unless_stale : Text → List Text → Option CheckResult → Act Now CheckResult
    unfolding pure template
    unless_stale binary values (some result) = pure result
    unless_stale binary values none = template binary values

    unfoldable pub render_into : Text → List Text → Bool → Act Now CheckResult
    unfolding ◌>>=◌ throw pure catch tool ensure_once or_error unless_stale
    render_into binary values true =
        throw (spec_error (text "render directory must not be a symlink: " ++ out))
    render_into binary values false = do
      tool (t.clear out)
      stale ←
          catch (ensure_once binary chart.path >> pure none)
            (λ x. or_error is_external x >>= λ r. pure (some r))
      unless_stale binary values stale

    -- `_render`
    unfoldable pub render : Text → Act Now CheckResult
    unfolding ◌>>=◌ tool values_of find_environment render_into
    render binary = do
      values ← values_of chart row.env (find_environment row.env chart.spec.environments)
      linked ← tool (t.is_linked out)
      render_into binary values linked

    -- the directory of a schema template
    unfoldable pub base_of : Text → Text
    unfolding before_braces ends_with_slash
    base_of location =
        let static = before_braces location in
        t.at_root (if ends_with_slash static then static else t.parent static)

    unfoldable pub require_bases : List Text → Act Now Unit
    unfolding ◌>>=◌ throw pure tool base_of
    require_bases [] = pure tt
    require_bases (l ∷ ls) = do
      found ← tool (t.is_dir (base_of l))
      if found
          then require_bases ls
          else throw (
              spec_error (
                text "chart "
                ++ (quoted chart.name
                    ++ (text ": schemaLocations directory not found: " ++ base_of l))))

    -- `_schema_locations`
    unfoldable pub schema_locations : Act Now (List Text)
    unfolding ◌>>=◌ pure require_bases
    schema_locations = do
      require_bases chart.spec.schema_locations
      pure (map t.at_root chart.spec.schema_locations)

    unfoldable pub timed : CheckName → Act Now CheckResult → Act Now CheckResult
    unfolding ◌>>=◌ pure tool
    timed name m = do
      started ← tool t.now
      result ← m
      ended ← tool t.now
      tool (t.row_update row.chart row.env name result.status (t.seconds (ended - started)))
      pure (record result { elapsed = some (ended - started) })

    -- `_schema`
    unfoldable pub run_schema : Schemas → List Text → Act Now CheckResult
    unfolding ◌>>=◌ pure catch tool or_error schema_result
    run_schema s locations =
        catch
          (do
            resources ← tool (
                t.validate_schemas out s.kubernetes_version locations
                  (s.skip_kinds ++ chart.spec.ignore_missing_schemas))
            pure (schema_result resources))
          (or_error is_external)

    unfoldable pub check_schema : Act Now CheckResult
    unfolding ◌>>=◌ schemas schema_locations timed run_schema
    check_schema = do
      s ← schemas
      own ← schema_locations
      timed CheckName.schema (run_schema s (s.crds ++ (own ++ s.locations)))

    unfoldable pub add_extra : List Text → List Text → Act Now (List Text)
    unfolding ◌>>=◌ throw pure tool
    add_extra found [] = pure found
    add_extra found (extra ∷ rest) = do
      let path = t.beside chart.path extra
      is_there ← tool (t.is_dir path)
      if is_there
          then add_extra (if contains found path then found else found ++ path ∷ []) rest
          else throw (
              spec_error (
                text "chart "
                ++ (quoted chart.name ++ (text ": policies.extra is not a directory: " ++ path))))

    -- `_policy_paths`
    unfoldable pub policy_paths : Act Now (List Text)
    unfolding ◌>>=◌ pure tool add_extra
    policy_paths = do
      let own = t.beside chart.path (text "policies")
      of_repository ← tool (t.is_dir t.policies_root)
      of_chart ← tool (t.is_dir own)
      add_extra
          ((if of_repository then t.policies_root ∷ [] else [])
            ++ (if of_chart then own ∷ [] else []))
          chart.spec.extra_policies

    -- `_policy`
    unfoldable pub run_policy : List Text → Act Now CheckResult
    unfolding ◌>>=◌ pure catch tool or_error policy_result result_of
    run_policy [] = pure (result_of Status.skipped (text "no policies discovered"))
    run_policy (p ∷ ps) =
        catch (do results ← tool (t.apply_policies out (p ∷ ps)); pure (policy_result results))
          (or_error is_expected)

    unfoldable pub check_policy : Act Now CheckResult
    unfolding ◌>>=◌ policy_paths timed run_policy
    check_policy = policy_paths >>= λ policies. timed CheckName.policy (run_policy policies)

    unfoldable pub no_manifests : Bool → Option Text
    no_manifests true = none
    no_manifests false = some (text "no manifests")

    unfoldable pub after_failed : List Text → Act Now (Option Text)
    unfolding ◌>>=◌ pure tool no_manifests
    after_failed (name ∷ names) = pure (some (name ++ text " failed"))
    after_failed [] = do found ← tool (t.has_manifests out); pure (no_manifests found)

    -- `_skip_reason`
    unfoldable pub skip_reason : Bool → Checks → Act Now (Option Text)
    unfolding pure after_failed failed_checks
    skip_reason false earlier = pure (some (text "disabled in chart-lifecycle.yaml"))
    skip_reason true earlier = after_failed (failed_checks earlier)

    unfoldable pub unless_skipped :
        CheckName → Act Now CheckResult → Option Text → Act Now CheckResult
    unfolding skipped
    unless_skipped name m none = m
    unless_skipped name m (some reason) = skipped row name reason

    -- a check of the rendered manifests, after the earlier ones
    unfoldable pub and_check : CheckName → Bool → Act Now CheckResult → Checks → Act Now Checks
    unfolding ◌>>=◌ pure skip_reason unless_skipped
    and_check name enabled m earlier = do
      reason ← skip_reason enabled earlier
      result ← unless_skipped name m reason
      pure (earlier ++ (name, result) ∷ [])

    unfoldable pub if_requested :
        List CheckName → CheckName → Bool → Act Now CheckResult → Checks → Act Now Checks
    unfolding pure and_check is_requested
    if_requested requested name enabled m earlier =
        if is_requested name requested then and_check name enabled m earlier else pure earlier

    -- `check`
    unfoldable pub check : List CheckName → Act Now Checks
    unfolding ◌>>=◌ helm_binary timed render if_requested check_schema check_policy
    check requested = do
      binary ← helm_binary chart.spec
      result ← timed CheckName.render (render binary)
      checks ←
          if_requested requested CheckName.schema chart.spec.kubeconform check_schema
            ((CheckName.render, result) ∷ [])
      if_requested requested CheckName.policy chart.spec.policy check_policy checks
