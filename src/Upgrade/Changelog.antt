-- ===== src/Upgrade/Changelog.antt =====
-- commands/upgrade/finalize.py: the changelog, whose section for a version is written anew.
pub mod Laws
pub mod Entry
use lab_charts.Base.{
  ℕ, suc, ◌+◌, Bool, true, false, not, ◌&&◌, ◌||◌, Option, none, some, List, [], ◌∷◌, ◌++◌, map,
  nat_eq, list_eq, ◌==◌, sorted, text_leb, if◌then◌else◌, Text, text, join, lower, is_space,
  starts_with,
}
use lab_charts.Plumbing.Lines.{is_break}
use lab_charts.Upgrade.Models.{UpdateMetadata}
use mathlib.Core.List.{reverse}

unfoldable pub onto_line : ℕ → List Text → List Text
onto_line c [] = (c ∷ []) ∷ []
onto_line c (l ∷ ls) = (c ∷ l) ∷ ls

unfoldable pub starts_lf : Text → Bool
starts_lf [] = false
starts_lf (c ∷ cs) = c == 10

-- `t.splitlines(keepends=True)`: a line ends after its break, and a carriage return takes a line
-- feed after it along
unfoldable pub keep_lines : Text → List Text
unfolding onto_line is_break starts_lf
keep_lines [] = []
keep_lines (c ∷ cs) =
    let rest = keep_lines cs in
    if is_break c && not (c == 13 && starts_lf cs) then (c ∷ []) ∷ rest else onto_line c rest

unfoldable pub drop_spaces : Text → Text
drop_spaces [] = []
drop_spaces (c ∷ cs) = let rest = drop_spaces cs in if is_space c then rest else c ∷ cs

-- `line.rstrip()`
unfoldable pub rstrip : Text → Text
unfolding drop_spaces
rstrip t = reverse (drop_spaces (reverse t))

-- `_HEADING.match(line)`
unfoldable pub is_heading : Text → Bool
is_heading (a ∷ (b ∷ (c ∷ rest))) = a == 35 && (b == 35 && is_space c)
is_heading _ = false

unfoldable pub concat_lines : List Text → Text
concat_lines [] = []
concat_lines (l ∷ ls) = l ++ concat_lines ls

-- the lines from the next heading on
unfoldable pub from_heading : List Text → List Text
unfolding is_heading
from_heading [] = []
from_heading (l ∷ ls) = let rest = from_heading ls in if is_heading l then l ∷ ls else rest

unfoldable pub onto_before : Text → Option (List Text × List Text) → Option (List Text × List Text)
onto_before l none = none
onto_before l (some (before, after)) = some (l ∷ before, after)

-- the lines before the first that is the heading, and those after it
unfoldable pub before_line : Text → List Text → Option (List Text × List Text)
unfolding rstrip onto_before
before_line heading [] = none
before_line heading (l ∷ ls) =
    let rest = before_line heading ls in
    if rstrip l == heading then some ([], ls) else onto_before l rest

-- `old.lstrip("\n")`
unfoldable pub drop_line_feeds : Text → Text
drop_line_feeds [] = []
drop_line_feeds (c ∷ cs) = let rest = drop_line_feeds cs in if c == 10 then rest else c ∷ cs

unfoldable pub replace_section : Text → Text → Option (List Text × List Text) → Text
unfolding concat_lines from_heading drop_line_feeds
replace_section old entry none = if old == [] then entry else entry ++ drop_line_feeds old
replace_section old entry (some (before, after)) =
    concat_lines before ++ (entry ++ concat_lines (from_heading after))

-- `_apply_changelog_entry`
unfoldable pub apply_changelog_entry : (old heading entry : Text) → Text
unfolding replace_section keep_lines before_line
apply_changelog_entry old heading entry =
    replace_section old entry (before_line heading (keep_lines old))

-- how updates are sorted: by datasource, manager and dependency in lower case, and the new version
unfoldable pub keys_leb : List Text → List Text → Bool
keys_leb [] ys = true
keys_leb (x ∷ xs) [] = false
keys_leb (x ∷ xs) (y ∷ ys) = let rest = keys_leb xs ys in if x == y then rest else text_leb x y

abbrev pub sort_key : UpdateMetadata → List Text
sort_key u = lower u.datasource ∷ (lower u.manager ∷ (lower u.dependency ∷ (u.new_version ∷ [])))

unfoldable pub update_line : UpdateMetadata → Text
update_line u =
    text "- "
    ++ (u.dependency ++ (text ": " ++ (u.current_version ++ (text " -> " ++ u.new_version))))

-- `_changelog_entry`
unfoldable pub changelog_entry : Text → List UpdateMetadata → Text
unfolding update_line keys_leb
changelog_entry heading updates =
    join (text "\n") (
      heading ∷ ([] ∷ map update_line (sorted (λ a b. keys_leb (sort_key a) (sort_key b)) updates)))
    ++ text "\n\n"
