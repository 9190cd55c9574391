-- ===== src/Events/Tests.antt =====
-- Chart references at concrete inputs.
use lab_charts.Base.{none, [], any, contains, list_beq, is_space, strip, ◌≡◌, refl, text}
use lab_charts.Events.Model.{Links}
use lab_charts.Events.Ref.{ChartRef, parsed, make_ref, show_ref, parse_ref}
use lab_charts.Events.Ref.RoundTrip.{parse_ref-show_ref, IsRead, parse_ref-IsRead}

abbrev sample_ref : ChartRef
sample_ref = record { name = text "grafana"; version = text "1.2.3" }

parse_ref-show_ref_example : parse_ref (show_ref sample_ref) ≡ parsed sample_ref
unfolding make_ref text list_beq contains any is_space
parse_ref-show_ref_example = parse_ref-show_ref (text "grafana") (text "1.2.3") sample_ref refl

parse_ref-IsRead_example : IsRead (text " grafana @ 1.2.3") sample_ref
unfolding parse_ref text list_beq strip is_space contains any
parse_ref-IsRead_example = parse_ref-IsRead (text " grafana @ 1.2.3") sample_ref refl

abbrev no_links : Links
no_links = record {
  images = [];
  build_correlation_id = none;
  promotion_correlation_id = none;
  pr_url = none;
  git_sha = none;
  detail = none;
}
