-- ===== src/Promote/PullRequest.antt =====
-- commands/promote/pr.py: one promotion, from the clone of the Flux repository to its pull request.
-- The calls of git and gh, the files of the clone and the operator's answer are given.
pub mod Promoted
use lab_charts.Base.{
  ℕ, Bool, true, false, not, ◌&&◌, ◌||◌, Option, none, some, List, [], ◌∷◌, ◌++◌, map, keep,
  contains, nat_eq, list_eq, option_eq, ◌==◌, if◌then◌else◌, Text, text, join,
}
use lab_charts.Cluster.Effects.{
  Failure, chart_error, command_failed, message_of, is_external, Try, Act, pure, throw, catch,
  for_each, ◌>>=◌, ◌>>◌,
}
use lab_charts.Events.Model.{PromotionPhase, Links, PlatformLifecycleEvent, compose_promote}
use lab_charts.Plumbing.ExitCodes.{Outcome}
use lab_charts.Plumbing.SemVer.{SemVer, parse_semver, precedes}
use lab_charts.Plumbing.Yaml.{Yaml, Entries}
use lab_charts.Promote.Editor.{edit}
use lab_charts.Promote.Scanner.{HelmReleaseMatch, Tree, Scan, found, refused, scan}
use lab_charts.Promote.State.{
  PromoteStatus, no_changes, dry_run, aborted, already_open, pr_opened, pushed, promote_phase,
  promote_outcome,
}
use lab_charts.Promote.Telemetry.{EventWriter, Ledger, emit_promotion}

pub record PromoteRequest : Type 0 where
  pub flux_repo : Text
  pub path : Text
  pub environment : Text
  pub chart_name : Text
  pub version : Text
  pub base_branch : Text
  pub is_dry_run : Bool

-- integrations/github.py, `PullRequest`
pub record PullRequest : Type 0 where
  pub url : Text
  pub number : Option ℕ
  pub branch : Text

pub record PromoteResult : Type 0 where
  pub chart : Text
  pub version : Text
  pub environment : Text
  pub status : PromoteStatus
  pub matches : List HelmReleaseMatch
  pub changed_files : List Text
  pub branch : Option Text
  pub pull_request : Option PullRequest
  pub downgrades : List HelmReleaseMatch

unfoldable pub outcome : PromoteResult → Outcome
outcome r = promote_outcome r.status

pub record Flux : Type 1 where
  pub Outside : Type 0
  pub clone : (url branch : Text) → Act Outside Unit
  -- whether the path stays in the clone, the files there, and a file's path in the clone
  pub is_inside : Text → Bool
  pub tree : Text → Act Outside Tree
  pub relative : Text → Text
  pub show_mapping : Entries → Text
  -- `edit_yaml_documents`, with the message of its YamlError where it raises one
  pub edit_documents : Text → (List Yaml → List Yaml) → Act Outside (Option Text)
  pub confirm_downgrade : List HelmReleaseMatch → Text → Act Outside Bool
  pub find_open_pr_for_branch : (branch base : Text) → Act Outside (Option PullRequest)
  pub checkout_new_branch : (branch base : Text) → Act Outside Unit
  pub add : List Text → Act Outside Unit
  pub commit : (title body : Text) → Act Outside Unit
  pub push : Text → Act Outside Unit
  pub create_pr : (title body head base : Text) → Act Outside PullRequest

unfoldable pub both_precede : Option SemVer → Option SemVer → Bool
both_precede (some current) (some target) = precedes target current
both_precede _ _ = false

-- `_is_downgrade`
unfoldable pub is_downgrade : Option Text → Text → Bool
unfolding both_precede
is_downgrade none target = false
is_downgrade (some current) target = both_precede (parse_semver current) (parse_semver target)

-- `_branch_name`
unfoldable pub branch_name : PromoteRequest → Text
branch_name q =
    text "promote/" ++ (q.environment ++ (text "/" ++ (q.chart_name ++ (text "-" ++ q.version))))

-- `_pr_title`
unfoldable pub pr_title : PromoteRequest → Text
pr_title q =
    text "chore("
    ++ (q.environment ++ (text "): promote " ++ (q.chart_name ++ (text " to " ++ q.version))))

abbrev quoted : Text → Text
quoted t = text "`" ++ (t ++ text "`")

-- `or`: an empty text counts as none
unfoldable pub or_text : Option Text → Text → Text
or_text none default = default
or_text (some []) default = default
or_text (some (c ∷ cs)) default = c ∷ cs

unfoldable pub prefix_of : Option Text → Text
prefix_of none = []
prefix_of (some []) = []
prefix_of (some (c ∷ cs)) = (c ∷ cs) ++ text "/"

-- the files to edit, each once and in the order of the scan
unfoldable pub each_once : List Text → List Text → List Text
each_once seen [] = []
each_once seen (x ∷ xs) =
    let skipped = each_once seen xs in
    let taken = each_once (x ∷ seen) xs in if contains seen x then skipped else x ∷ taken

module _ (f : Flux) (q : PromoteRequest) where
  unfoldable pub body_line : HelmReleaseMatch → Text
  unfolding or_text prefix_of
  body_line m =
      text "- "
      ++ (quoted (prefix_of m.namespace ++ m.name)
          ++ (text " ("
              ++ (f.relative m.path
                  ++ (text "): "
                      ++ (quoted (or_text m.current_version (text "(unset)"))
                          ++ (text " -> " ++ quoted q.version))))))

  -- `_pr_body`
  unfoldable pub pr_body : List HelmReleaseMatch → Text
  unfolding body_line
  pr_body drift =
      join (text "\n") (
        (text "Promote "
          ++ (quoted q.chart_name
              ++ (text " to "
                  ++ (quoted q.version ++ (text " in " ++ (quoted q.environment ++ text "."))))))
        ∷ ([]
            ∷ ((text "- environment: " ++ quoted q.environment)
                ∷ ((text "- path: " ++ quoted q.path)
                    ∷ ((text "- chart: " ++ quoted q.chart_name)
                        ∷ ((text "- target version: " ++ quoted q.version)
                            ∷ ([]
                                ∷ (text "## HelmReleases updated"
                                    ∷ ([] ∷ map body_line drift)))))))))
      ++ text "\n"

  -- a result that names what was promoted, with what stays as the class has it
  unfoldable pub result_of : PromoteStatus → List HelmReleaseMatch → PromoteResult
  result_of status matches = record {
    chart = q.chart_name;
    version = q.version;
    environment = q.environment;
    status = status;
    matches = matches;
    changed_files = [];
    branch = none;
    pull_request = none;
    downgrades = [];
  }

  unfoldable pub drift_of : List HelmReleaseMatch → List HelmReleaseMatch
  drift_of matches = keep (λ m. not (m.current_version == some q.version)) matches

  unfoldable pub downgrades_of : List HelmReleaseMatch → List HelmReleaseMatch
  unfolding is_downgrade
  downgrades_of drift = keep (λ m. is_downgrade m.current_version q.version) drift

  unfoldable pub changed_files_of : List HelmReleaseMatch → List Text
  unfolding each_once
  changed_files_of drift = each_once [] (map (λ (m : HelmReleaseMatch). m.path) drift)

  unfoldable pub edited : Text → Option Text → Act f.Outside Unit
  unfolding pure throw
  edited path none = pure tt
  edited path (some error) =
      throw (chart_error (text "failed to edit " ++ (path ++ (text ": " ++ error))))

  -- `set_version` of commands/promote/editor.py
  unfoldable pub set_version : Text → Act f.Outside Unit
  unfolding edited ◌>>=◌
  set_version path =
      f.edit_documents path (edit f.show_mapping q.chart_name q.version) >>= edited path

  unfoldable pub pr_failed : Failure → Act f.Outside PullRequest
  unfolding throw
  pr_failed x =
      if is_external x
      then throw (
          chart_error (
            text "push succeeded but `gh pr create` failed for branch "
            ++ (branch_name q ++ (text ": " ++ message_of x))))
      else throw x

  -- from the edits to the pull request
  unfoldable pub publish : List HelmReleaseMatch → Act f.Outside PullRequest
  unfolding for_each set_version ◌>>=◌ catch pr_failed pr_body branch_name pr_title changed_files_of
  publish drift = do
    for_each (changed_files_of drift) set_version
    f.checkout_new_branch (branch_name q) q.base_branch
    f.add (changed_files_of drift)
    f.commit (pr_title q) (pr_body drift)
    f.push (branch_name q)
    catch (f.create_pr (pr_title q) (pr_body drift) (branch_name q) q.base_branch) pr_failed

  unfoldable pub opened_result : List HelmReleaseMatch → PullRequest → PromoteResult
  unfolding result_of drift_of downgrades_of changed_files_of branch_name
  opened_result matches pr =
      record (result_of (if pr.url == [] then pushed else pr_opened) matches) {
        changed_files = changed_files_of (drift_of matches);
        branch = some (branch_name q);
        pull_request = some pr;
        downgrades = downgrades_of (drift_of matches);
      }

  unfoldable pub unless_open :
      List HelmReleaseMatch → Option PullRequest → Act f.Outside PromoteResult
  unfolding publish opened_result pure ◌>>=◌ result_of downgrades_of drift_of branch_name
  unless_open matches (some existing) = pure (record (result_of already_open matches) {
    branch = some (branch_name q);
    pull_request = some existing;
    downgrades = downgrades_of (drift_of matches);
  })
  unless_open matches none = do pr ← publish (drift_of matches); pure (opened_result matches pr)

  unfoldable pub if_confirmed : List HelmReleaseMatch → Bool → Act f.Outside PromoteResult
  unfolding unless_open pure ◌>>=◌ result_of downgrades_of drift_of branch_name
  if_confirmed matches false = pure (record (result_of aborted matches) {
    branch = some (branch_name q);
    downgrades = downgrades_of (drift_of matches);
  })
  if_confirmed matches true = do
    existing ← f.find_open_pr_for_branch (branch_name q) q.base_branch
    unless_open matches existing

  unfoldable pub confirmed : List HelmReleaseMatch → Act f.Outside Bool
  unfolding pure
  confirmed downgrades =
      if downgrades_empty downgrades then pure true else f.confirm_downgrade downgrades q.version
    where
      downgrades_empty : List HelmReleaseMatch → Bool
      downgrades_empty [] = true
      downgrades_empty (m ∷ ms) = false

  unfoldable pub dry_result : List HelmReleaseMatch → PromoteResult
  unfolding result_of drift_of downgrades_of changed_files_of branch_name
  dry_result matches = record (result_of dry_run matches) {
    changed_files = changed_files_of (drift_of matches);
    branch = some (branch_name q);
    downgrades = downgrades_of (drift_of matches);
  }

  -- from the drift on
  unfoldable pub promote_drift :
      List HelmReleaseMatch → List HelmReleaseMatch → Act f.Outside PromoteResult
  unfolding if_confirmed confirmed dry_result result_of pure ◌>>=◌ downgrades_of
  promote_drift matches [] = pure (result_of no_changes matches)
  promote_drift matches (m ∷ ms) =
      if q.is_dry_run
      then pure (dry_result matches)
      else confirmed (downgrades_of (m ∷ ms)) >>= if_confirmed matches

  unfoldable pub promote_matches : Scan → Act f.Outside PromoteResult
  unfolding promote_drift drift_of throw
  promote_matches (refused message) = throw (chart_error message)
  promote_matches (found []) = throw (
      chart_error
        (text "chart '" ++ (q.chart_name ++ (text "' not found under '" ++ (q.path ++ text "'")))))
  promote_matches (found (m ∷ ms)) = promote_drift (m ∷ ms) (drift_of (m ∷ ms))

  -- `_promote_in_workdir`
  unfoldable pub promote_in_workdir : Act f.Outside PromoteResult
  unfolding promote_matches throw ◌>>=◌ scan
  promote_in_workdir =
      if not (f.is_inside q.path)
      then throw (chart_error (text "--path escapes the cloned flux repo: " ++ q.path))
      else do tree ← f.tree q.path; promote_matches (scan f.show_mapping q.chart_name q.path tree)

unfoldable pub url_of : Option PullRequest → Option Text
url_of none = none
url_of (some pr) = some pr.url

-- the event of a promotion, where its status has a phase
unfoldable pub emit_for :
    EventWriter → PromoteRequest → PromoteResult → Option PromotionPhase → Ledger → Ledger
unfolding url_of emit_promotion compose_promote
emit_for writer q r none ledger = ledger
emit_for writer q r (some phase) ledger =
    emit_promotion writer
      (compose_promote writer.source q.chart_name q.version q.environment phase (record {
        images = [];
        build_correlation_id = none;
        promotion_correlation_id = url_of r.pull_request;
        pr_url = url_of r.pull_request;
        git_sha = none;
        detail = none;
      }))
      ledger

-- `_emit_promotion`
unfoldable pub emit_result : EventWriter → PromoteRequest → PromoteResult → Ledger → Ledger
unfolding emit_for promote_phase
emit_result writer q r ledger = emit_for writer q r (promote_phase r.status) ledger

-- `run`, with the ledger that its event goes to
unfoldable pub run :
    (f : Flux) → PromoteRequest → EventWriter → Ledger → Act f.Outside (PromoteResult × Ledger)
unfolding promote_in_workdir emit_result pure ◌>>=◌
run f q writer ledger = do
  f.clone q.flux_repo q.base_branch
  r ← promote_in_workdir f q
  pure (r, emit_result writer q r ledger)
