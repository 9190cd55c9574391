-- ===== src/Plumbing/Tests.antt =====
-- Text cut at a concrete limit, and versions read and compared.
use lab_charts.Base.{true, some, [], ◌∷◌, ◌≡◌, refl, text, all, list_beq}
use lab_charts.Plumbing.SemVer.{SemVer, show_version, parse_semver, precedes, is_prerelease_id}
use lab_charts.Plumbing.SemVer.RoundTrip.{bare, parse_semver-show_version}
use lab_charts.Plumbing.Lines.{truncate_bytes}
use lab_charts.Plumbing.Lines.Bounds.{IsTruncation, truncate_bytes-IsTruncation}

truncate_bytes-IsTruncation_example :
    IsTruncation (text "naïve words") 3 (truncate_bytes (text "naïve words") 3)
truncate_bytes-IsTruncation_example = truncate_bytes-IsTruncation (text "naïve words") 3

abbrev candidate : SemVer
candidate = record {
  major = 1;
  minor = 0;
  patch = 10;
  prerelease = text "rc" ∷ (text "2" ∷ []);
  build = text "001" ∷ [];
}

parse_semver-show_version_example : parse_semver (show_version candidate) ≡ some candidate
unfolding all is_prerelease_id text list_beq
parse_semver-show_version_example =
    parse_semver-show_version candidate (record { prerelease = refl; build = refl })

candidate_first : precedes candidate (bare 1 0 10) ≡ true
unfolding precedes list_beq
candidate_first = refl
