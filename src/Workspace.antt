-- ===== src/Workspace.antt =====
-- shared/workspace.py: which chart owns a path of the repository, and which paths a pattern covers.
pub mod Matching
mod Tests
use lab_charts.Base.{
  ℕ, Bool, true, false, not, ◌&&◌, ◌||◌, Option, none, some, List, [], ◌∷◌, ◌++◌, any, keep,
  contains, take, drop, length, ltb, nat_eq, list_eq, ◌==◌, if◌then◌else◌, Text, text, join,
  starts_with,
}

-- a character put before the first piece
unfoldable pub onto_first : ℕ → List Text → List Text
onto_first c [] = (c ∷ []) ∷ []
onto_first c (x ∷ xs) = (c ∷ x) ∷ xs

-- `t.split("/")`
unfoldable pub split_slash : Text → List Text
unfolding onto_first
split_slash [] = [] ∷ []
split_slash (c ∷ cs) =
    let pieces = split_slash cs in if c == 47 then [] ∷ pieces else onto_first c pieces

-- a POSIX PurePath: its root (empty, `/` or `//`) and its names
pub record PurePath : Type 0 where
  pub root : Text
  pub names : List Text

unfoldable pub root_of : Text → Text
root_of t =
    if starts_with (text "//") t && not (starts_with (text "///") t)
    then text "//"
    else if starts_with (text "/") t
    then text "/"
    else []

-- `PurePath(t)`
unfoldable pub path_of : Text → PurePath
unfolding root_of
path_of t = record {
  root = root_of t;
  names = keep (λ s. not (s == [] || s == text ".")) (split_slash t);
}

unfoldable pub parts : PurePath → List Text
parts p = if p.root == [] then p.names else p.root ∷ p.names

unfoldable pub as_posix : PurePath → Text
as_posix p = if p.root == [] && p.names == [] then text "." else p.root ++ join (text "/") p.names

unfoldable pub head_part : List Text → Option Text
head_part [] = none
head_part (x ∷ xs) = some x

-- `chart_name_from_repo_path`; `charts_dir` is the workspace's `chartsDir`
unfoldable pub chart_name_from_repo_path : (charts_dir path : PurePath) → Option Text
unfolding head_part
chart_name_from_repo_path charts_dir path =
    let prefix = parts charts_dir in
    if not (ltb (length prefix) (length (parts path)))
      || not (take (length prefix) (parts path) == prefix)
    then none
    else head_part (drop (length prefix) (parts path))

-- Some part of the path, from where it stands to its end, passes.
unfoldable pub skip_any : (List Text → Bool) → List Text → Bool
skip_any here [] = here []
skip_any here (x ∷ xs) = here (x ∷ xs) || skip_any here xs

unfoldable pub has_glob : List Text → Bool
has_glob pattern = any (λ part. contains part 42) pattern

-- how one name is matched with one segment, `fnmatch.fnmatchcase`
module _ (fnmatchcase : (name segment : Text) → Bool) where
  unfoldable pub match_name : (List Text → Bool) → Text → List Text → Bool
  match_name next segment [] = false
  match_name next segment (x ∷ xs) = fnmatchcase x segment && next xs

  -- `match` of pattern_matches, from two positions on
  unfoldable pub match_parts : (pattern path : List Text) → Bool
  unfolding skip_any match_name
  match_parts [] path = path == []
  match_parts (segment ∷ rest) path =
      let next = match_parts rest in
      if segment == text "**" then skip_any next path else match_name next segment path

  unfoldable pub pattern_matches : (pattern : Text) → PurePath → Bool
  unfolding match_parts has_glob
  pattern_matches pattern path =
      let names = split_slash (as_posix path) in
      let segments = split_slash pattern in
      if not (has_glob segments)
      then take (length segments) names == segments
      else match_parts segments names
