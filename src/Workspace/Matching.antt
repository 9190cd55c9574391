-- ===== src/Workspace/Matching.antt =====
-- What it is for a path to match a pattern, described without the search.
use lab_charts.Base.{
  Bool, true, false, ◌∙◌, ◌||◌, List, [], ◌∷◌, take, length, ◌≡◌, ◌≢◌, ◌↔◌, inl, inr, ap, arith,
  and_true, subst, sym, Bool-cases, eq_of_beq, beq_refl, beq_false, nat_eq, list_eq, ◌==◌, Text,
  text,
}
use mathlib.Core.Bool.{false≢true}
use lab_charts.Workspace.{
  split_slash, PurePath, as_posix, skip_any, match_name, match_parts, has_glob, pattern_matches,
}

module _ (fnmatchcase : (name segment : Text) → Bool) where
  -- `**` stands for any run of names, any other segment for one name that it matches.
  pub data Matches : (pattern path : List Text) → Type 0 where
    both_end : Matches [] []
    run_ends : {rest path : List Text} → Matches rest path → Matches (text "**" ∷ rest) path
    run_goes_on :
        {rest path : List Text} (name : Text)
        → Matches (text "**" ∷ rest) path
        → Matches (text "**" ∷ rest) (name ∷ path)
    name_matches :
        {rest path : List Text} (segment name : Text)
        → segment ≢ text "**"
        → fnmatchcase name segment ≡ true
        → Matches rest path
        → Matches (segment ∷ rest) (name ∷ path)

  run_found :
      (rest : List Text)
      → ((path : List Text) → match_parts fnmatchcase rest path ≡ true → Matches rest path)
      → (path : List Text) → skip_any (match_parts fnmatchcase rest) path ≡ true
      → Matches (text "**" ∷ rest) path
  unfolding skip_any
  run_found rest ih [] h = run_ends (ih [] h)
  run_found rest ih (x ∷ xs) h = elim (Bool-cases (match_parts fnmatchcase rest (x ∷ xs))) [
    | inl e ↦ run_ends (ih (x ∷ xs) e)
    | inr e ↦ run_goes_on x (run_found rest ih xs (rw e at h))
  ]

  name_found :
      (segment : Text) (rest : List Text)
      → segment ≢ text "**"
      → ((path : List Text) → match_parts fnmatchcase rest path ≡ true → Matches rest path)
      → (path : List Text)
      → match_name fnmatchcase (match_parts fnmatchcase rest) segment path ≡ true
      → Matches (segment ∷ rest) path
  unfolding match_name
  name_found segment rest one ih [] h = absurd (cc)
  name_found segment rest one ih (x ∷ xs) h =
      let (fits, next) = and_true _ _ h in name_matches segment x one fits (ih xs next)

  match-Matches :
      (pattern path : List Text)
      → match_parts fnmatchcase pattern path ≡ true
      → Matches pattern path
  unfolding match_parts
  match-Matches [] path h = subst (Matches []) (sym (eq_of_beq h)) both_end
  match-Matches (segment ∷ rest) path h = elim (Bool-cases (segment == text "**")) [
    | inl e ↦
        subst (λ s. Matches (s ∷ rest) path) (sym (eq_of_beq e))
          (run_found rest (match-Matches rest) path (rw e at h))
    | inr e ↦
        name_found segment rest
          (λ same.
            absurd (false≢true (sym e ∙ ap (λ s. s == text "**") same ∙ beq_refl (text "**"))))
          (match-Matches rest) path (rw e at h)
  ]

  skip_any-here :
      (next : List Text → Bool) (path : List Text) → next path ≡ true → skip_any next path ≡ true
  unfolding skip_any
  skip_any-here next [] h = h
  skip_any-here next (x ∷ xs) h = ground arith

  or_later : (a b : Bool) → b ≡ true → (a || b) ≡ true
  or_later a b h = ground arith

  match-run :
      (rest : List Text) (name : Text) (path : List Text)
      → match_parts fnmatchcase (text "**" ∷ rest) path ≡ true
      → match_parts fnmatchcase (text "**" ∷ rest) (name ∷ path) ≡ true
  unfolding match_parts skip_any
  match-run rest name path h = rw (beq_refl (text "**")) (
      or_later (match_parts fnmatchcase rest (name ∷ path))
        (skip_any (match_parts fnmatchcase rest) path) (rw (beq_refl (text "**")) at h))

  Matches-match :
      {pattern path : List Text}
      → Matches pattern path
      → match_parts fnmatchcase pattern path ≡ true
  unfolding match_parts match_name
  Matches-match both_end = beq_refl {A = List Text} []
  Matches-match (run_ends {rest = rest} {path = path} m) =
      rw (beq_refl (text "**"))
        (skip_any-here (match_parts fnmatchcase rest) path (Matches-match m))
  Matches-match (run_goes_on {rest = rest} {path = path} name m) =
      match-run rest name path (Matches-match m)
  Matches-match (name_matches {rest = rest} segment name one fits m) =
      rw (beq_false segment (text "**") one, fits) (Matches-match m)

  -- A path is covered: it begins with the parts of a pattern without `*`, or matches it.
  pub data IsCovered (pattern : Text) (path : PurePath) : Type 0 where
    beneath :
        has_glob (split_slash pattern) ≡ false
        → take (length (split_slash pattern)) (split_slash (as_posix path)) ≡ split_slash pattern
        → IsCovered pattern path
    matched :
        has_glob (split_slash pattern) ≡ true
        → Matches (split_slash pattern) (split_slash (as_posix path))
        → IsCovered pattern path

  pub pattern_matches-IsCovered :
      (pattern : Text) (path : PurePath)
      → (pattern_matches fnmatchcase pattern path ≡ true) ↔ IsCovered pattern path
  unfolding pattern_matches
  pattern_matches-IsCovered pattern path = (covers, covered)
    where
      covers : pattern_matches fnmatchcase pattern path ≡ true → IsCovered pattern path
      covers h = elim (Bool-cases (has_glob (split_slash pattern))) [
        | inl e ↦
            matched e
              (match-Matches (split_slash pattern) (split_slash (as_posix path)) (rw e at h))
        | inr e ↦ beneath e (eq_of_beq (rw e at h))
      ]

      covered : IsCovered pattern path → pattern_matches fnmatchcase pattern path ≡ true
      covered (beneath e same) = rw (e, same) (beq_refl (split_slash pattern))
      covered (matched e m) = rw e (Matches-match m)
