-- ===== src/Plumbing/SemVer/RoundTrip.antt =====
-- A version is read back from its own text.
use lab_charts.Base.{
  ℕ, Bool, true, false, some, List, [], ◌∷◌, ◌++◌, all, nat_eq, list_eq, list_beq, ◌==◌, ◌≡◌, refl,
  ap, ◌∙◌, append_assoc, Text, text, show, and_true,
}
use lab_charts.Plumbing.SemVer.{
  SemVer, suffix_of, show_version, is_digit, is_identifier_char, is_build_id, is_prerelease_id,
  split_on, with_core, with_parts, parse_semver, if_bare, parse_bare_version,
}
use lab_charts.Plumbing.SemVer.Pieces.{
  digits_value-show, is_number-show, lacks, split_on-lacks, split_on-append, lacks_of,
  chars_of-is_build_id, chars_of-is_prerelease_id, digits_of-show, cut_at-suffix,
  identifiers-joined, lacks-append, lacks-join,
}

-- a version that the grammar allows
pub record IsVersion (v : SemVer) : Type 0 where
  pub prerelease : all is_prerelease_id v.prerelease ≡ true
  pub build : all is_build_id v.build ≡ true

core_of : SemVer → Text
core_of v = show v.major ++ (46 ∷ (show v.minor ++ (46 ∷ show v.patch)))

show_version-parts :
    (v : SemVer)
    → show_version v
      ≡ (core_of v ++ suffix_of (45 ∷ []) v.prerelease) ++ suffix_of (43 ∷ []) v.build
unfolding show_version core_of text
show_version-parts v = simp append_assoc

show-lacks : (mark n : ℕ) → is_digit mark ≡ false → lacks mark (show n) ≡ true
show-lacks mark n h = lacks_of is_digit mark (show n) h (digits_of-show n)

core-lacks :
    (mark : ℕ) (v : SemVer)
    → is_digit mark ≡ false
    → (46 == mark) ≡ false
    → lacks mark (core_of v) ≡ true
unfolding core_of lacks all
core-lacks mark v h d = lacks-append mark (show v.major) _ (show-lacks mark v.major h) (
    rw d (
      lacks-append mark (show v.minor) _ (show-lacks mark v.minor h)
        (rw d (show-lacks mark v.patch h))))

split_on-core :
    (v : SemVer) → split_on 46 (core_of v) ≡ show v.major ∷ (show v.minor ∷ (show v.patch ∷ []))
unfolding core_of is_digit
split_on-core v =
    split_on-append 46 (show v.major) _ (show-lacks 46 v.major refl)
    ∙ ap (λ l. show v.major ∷ l)
        (split_on-append 46 (show v.minor) _ (show-lacks 46 v.minor refl)
          ∙ ap (λ l. show v.minor ∷ l)
              (split_on-lacks 46 (show v.patch) (show-lacks 46 v.patch refl)))

each_lacks :
    (is_id : Text → Bool) (mark : ℕ) (ids : List Text)
    → ((t : Text) → is_id t ≡ true → all is_identifier_char t ≡ true)
    → is_identifier_char mark ≡ false
    → all is_id ids ≡ true
    → all (lacks mark) ids ≡ true
unfolding all
each_lacks is_id mark [] f m h = refl
each_lacks is_id mark (x ∷ xs) f m h =
    let (hx, rest) = and_true (is_id x) (all is_id xs) h in
    rw (lacks_of is_identifier_char mark x m (f x hx)) (each_lacks is_id mark xs f m rest)

suffix-lacks :
    (mark sign : ℕ) (ids : List Text)
    → (sign == mark) ≡ false
    → (46 == mark) ≡ false
    → all (lacks mark) ids ≡ true
    → lacks mark (suffix_of (sign ∷ []) ids) ≡ true
unfolding suffix_of lacks all
suffix-lacks mark sign [] s d h = refl
suffix-lacks mark sign (x ∷ xs) s d h = rw s (lacks-join mark (x ∷ xs) d h)

with_core-show :
    (v : SemVer)
    → with_core (show v.major ∷ (show v.minor ∷ (show v.patch ∷ []))) v.prerelease v.build ≡ some v
unfolding with_core
with_core-show v =
    rw
      (
        is_number-show v.major,
        is_number-show v.minor,
        is_number-show v.patch,
        digits_value-show v.major,
        digits_value-show v.minor,
        digits_value-show v.patch,
      )
      refl

with_parts-core : (v : SemVer) → with_parts (core_of v) (some v.prerelease) (some v.build) ≡ some v
unfolding with_parts
with_parts-core v = rw (split_on-core v) (with_core-show v)

-- A version that the grammar allows is read back from its own text.
pub parse_semver-show_version : (v : SemVer) → IsVersion v → parse_semver (show_version v) ≡ some v
unfolding parse_semver is_identifier_char is_digit
parse_semver-show_version v h =
    let pre =
      each_lacks is_prerelease_id 43 v.prerelease chars_of-is_prerelease_id refl h.prerelease in
    let dots =
      each_lacks is_prerelease_id 46 v.prerelease chars_of-is_prerelease_id refl h.prerelease in
    let points = each_lacks is_build_id 46 v.build chars_of-is_build_id refl h.build in
    let head =
      lacks-append 43 (core_of v) (suffix_of (45 ∷ []) v.prerelease) (core-lacks 43 v refl refl)
        (suffix-lacks 43 45 v.prerelease refl refl pre) in
    rw
      (
        show_version-parts v,
        cut_at-suffix 43 (core_of v ++ suffix_of (45 ∷ []) v.prerelease) v.build head,
        cut_at-suffix 45 (core_of v) v.prerelease (core-lacks 45 v refl refl),
        identifiers-joined is_prerelease_id v.prerelease dots h.prerelease,
        identifiers-joined is_build_id v.build points h.build,
      )
      (with_parts-core v)

-- a version of three numbers
abbrev pub bare : (major minor patch : ℕ) → SemVer
bare major minor patch = record {
  major = major;
  minor = minor;
  patch = patch;
  prerelease = [];
  build = [];
}

pub parse_bare_version-bare :
    (a b c : ℕ) → parse_bare_version (show_version (bare a b c)) ≡ some (bare a b c)
unfolding parse_bare_version if_bare list_beq all
parse_bare_version-bare a b c =
    ap if_bare (parse_semver-show_version (bare a b c) (record { prerelease = refl; build = refl }))
