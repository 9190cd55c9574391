-- ===== src/Promote/Tests/Promotions.antt =====
-- A HelmRelease edited and scanned again, and a promotion of it, at concrete inputs.
use lab_charts.Plumbing.SemVer.{parse_semver, precedes}
use lab_charts.Workspace.{path_of, split_slash}
use lab_charts.Validate.Triggers.{stem_or, before_dot, last_name}
use lab_charts.Base.{
  ℕ, false, true, none, some, List, [], ◌∷◌, ◌≡◌, refl, map, Text, text, list_beq, sorted, keep,
  contains, lower, any, starts_with, option_beq,
}
use lab_charts.Cluster.Effects.{returned}
use lab_charts.Plumbing.Yaml.{Yaml, Entries, mapping, no_entries, entry, entries_of, look, str_of}
use lab_charts.Promote.Scanner.{HelmReleaseMatch, documents, matches_from, chart_spec}
use lab_charts.Promote.Editor.{edit}
use lab_charts.Promote.Editor.Rescan.{at_version, matches_from-edit, is_named}
use lab_charts.Promote.PullRequest.{
  PromoteRequest, PullRequest, PromoteResult, Flux, opened_result, promote_in_workdir,
}
use lab_charts.Promote.PullRequest.Promoted.{IsScanned, IsPromoted, promote_in_workdir-IsPromoted}

abbrev no_text : Entries → Text
no_text es = []

abbrev field : Text → Yaml → Entries → Entries
field key value rest = entry key value rest

abbrev release : Yaml
release = mapping (
    field (text "apiVersion") (Yaml.string (text "helm.toolkit.fluxcd.io/v2")) (
      field (text "kind") (Yaml.string (text "HelmRelease")) (
        field (text "spec")
          (mapping (
            field (text "chart")
              (mapping (
                field (text "spec")
                  (mapping (
                    field (text "chart") (Yaml.string (text "db"))
                      (field (text "version") (Yaml.string (text "1.2.0")) no_entries)))
                  no_entries))
              no_entries))
          no_entries)))

matches_from-edit_example :
    matches_from no_text
      (text "db")
      (text "a.yaml")
      0
      (edit no_text (text "db") (text "1.3.0") (release ∷ []))
    ≡ map
        (at_version no_text (text "db") (text "1.3.0"))
        (matches_from no_text (text "db") (text "a.yaml") 0 (release ∷ []))
unfolding list_beq text is_named chart_spec entries_of look
matches_from-edit_example =
    matches_from-edit no_text (text "db") (text "1.3.0") (text "a.yaml") 0 (release ∷ []) refl
      ((λ h. refl), tt)

abbrev lab_pull_request : PullRequest
lab_pull_request = record { url = text "u"; number = some 7; branch = [] }

-- a clone of one file, in which each call counts
abbrev lab_flux : Flux
lab_flux = record {
  Outside = ℕ;
  clone = λ u b n. (returned tt, n);
  is_inside = λ p. true;
  tree = λ p n. (
    returned (record {
      exists = true;
      is_file = false;
      below = text "a.yaml" ∷ [];
      load = λ f. documents (release ∷ []);
    }),
    n,
  );
  relative = λ p. p;
  show_mapping = no_text;
  edit_documents = λ p change n. (returned none, n);
  confirm_downgrade = λ ms v n. (returned false, n);
  find_open_pr_for_branch = λ b base n. (returned none, n);
  checkout_new_branch = λ b base n. (returned tt, n);
  add = λ ps n. (returned tt, n);
  commit = λ t b n. (returned tt, n);
  push = λ b n. (returned tt, n);
  create_pr = λ t b h base n. (returned (lab_pull_request), n);
}

abbrev lab_promotion : PromoteRequest
lab_promotion = record {
  flux_repo = text "git@host:flux";
  path = text "apps";
  environment = text "lab";
  chart_name = text "db";
  version = text "1.3.0";
  base_branch = text "main";
  is_dry_run = false;
}

abbrev lab_result : PromoteResult
lab_result =
    opened_result lab_flux lab_promotion
      (matches_from no_text (text "db") (text "a.yaml") 0 (release ∷ [])) (lab_pull_request)

promote_in_workdir-IsPromoted_example :
    (w1 : ℕ) × (matches : List HelmReleaseMatch) × IsScanned lab_flux lab_promotion 0 w1 matches
    × IsPromoted lab_flux lab_promotion w1 0 matches lab_result
unfolding promote_in_workdir sorted keep contains list_beq lower stem_or before_dot last_name
    path_of split_slash text any look starts_with option_beq chart_spec entries_of str_of
    parse_semver precedes
promote_in_workdir-IsPromoted_example =
    promote_in_workdir-IsPromoted lab_flux lab_promotion 0 {r = lab_result} {w' = 0} refl
