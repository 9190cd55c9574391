-- ===== src/Validate/Triggers/Laws.antt =====
-- Which environments the triggers of a chart select for one of its files.
use lab_charts.Base.{
  Bool, true, false, not, ◌&&◌, ◌||◌, List, [], ◌∷◌, any, all, all_of_mem, keep, contains,
  contains_of_mem, and_true, contains-add_once, nat_eq, list_eq, ◌==◌, ◌≡◌, refl, sym, ap, ◌∙◌,
  arith, inl, inr, Bool-cases, eq_of_beq, beq_refl, Text,
}
use lab_charts.Workspace.{PurePath, as_posix}
use lab_charts.Validate.Triggers.{
  match_by_basename, all_environments, some_environments, TriggerValue, TriggerSpec, Trigger,
  merged_triggers, patterns_of, stem, environments_for, union, Triggered, counts, trigger_step,
  trigger_all, with_unmatched, triggered,
}

contains-union :
    (xs ys : List Text) (a : Text) → contains (union xs ys) a ≡ (contains xs a || contains ys a)
unfolding union contains
contains-union [] ys a = refl
contains-union (x ∷ xs) ys a =
    ground (arith, contains-add_once x a (union xs ys), contains-union xs ys a)

-- what is kept of a list stands in it, and the test takes it
pub contains-keep :
    (p : Text → Bool) (xs : List Text) (a : Text)
    → contains (keep p xs) a ≡ true
    → (contains xs a && p a) ≡ true
unfolding keep contains
contains-keep p [] a h = h
contains-keep p (x ∷ xs) a h = kept (contains-keep p xs a)
  where
    kept :
        (contains (keep p xs) a ≡ true → (contains xs a && p a) ≡ true)
        → (contains (x ∷ xs) a && p a) ≡ true
    kept ih = elim (Bool-cases (a == x)) [
      | inl q ↦ elim (Bool-cases (p x)) [
        | inl e ↦ rw (q, ap p (eq_of_beq q), e)
        | inr e ↦ let k = ih (rw e at h) in ground arith
      ]
      | inr q ↦ elim (Bool-cases (p x)) [
        | inl e ↦ let k = ih (rw q at (rw e at h)) in ground arith
        | inr e ↦ let k = ih (rw e at h) in ground arith
      ]
    ]

-- what a trigger's value names of the environments: the one that the file is named for, all, or those
-- that it lists
abbrev pub names_env : PurePath → TriggerValue → Text → Bool
names_env relative match_by_basename env = env == stem relative
names_env relative all_environments env = true
names_env relative (some_environments envs) env = contains envs env

contains-kept :
    (p : Text → Bool) (xs : List Text) (a : Text) → contains (keep p xs) a ≡ (contains xs a && p a)
unfolding keep contains
contains-kept p [] a = refl
contains-kept p (x ∷ xs) a = elim (Bool-cases (a == x)) [
  | inl q ↦
      let same : p a ≡ p x = ap p (eq_of_beq q) in
      elim (Bool-cases (p x)) [
        | inl e ↦ rw e (ground (arith, same, e, q))
        | inr e ↦ rw e (ground (arith, same, e, contains-kept p xs a))
      ]
  | inr q ↦ elim (Bool-cases (p x)) [
    | inl e ↦ rw e (ground (arith, q, contains-kept p xs a))
    | inr e ↦ rw e (ground (arith, q, contains-kept p xs a))
  ]
]

contains-environments_for :
    (spec : TriggerSpec) (relative : PurePath) (value : TriggerValue) (env : Text)
    → contains (environments_for spec relative value) env
      ≡ (contains spec.environments env && names_env relative value env)
unfolding environments_for
contains-environments_for spec relative match_by_basename env =
    contains-kept (λ x. x == stem relative) spec.environments env
contains-environments_for spec relative all_environments env = ground arith
contains-environments_for spec relative (some_environments envs) env =
    contains-kept (contains spec.environments) envs env ∙ ground arith

-- a trigger selects environments of its chart only
environments_for-known :
    (spec : TriggerSpec) (relative : PurePath) (value : TriggerValue) (env : Text)
    → contains (environments_for spec relative value) env ≡ true
    → contains spec.environments env ≡ true
unfolding environments_for
environments_for-known spec relative match_by_basename env h =
    (and_true (contains spec.environments env) (env == stem relative)
      (contains-keep (λ x. x == stem relative) spec.environments env h)).0
environments_for-known spec relative all_environments env h = h
environments_for-known spec relative (some_environments envs) env h =
    (and_true (contains envs env) (contains spec.environments env)
      (contains-keep (contains spec.environments) envs env h)).1

any_of_contains :
    (p : Text → Bool) (known : List Text) (x : Text)
    → contains known x ≡ true
    → p x ≡ true
    → any p known ≡ true
unfolding contains any
any_of_contains p [] x c h = c
any_of_contains p (k ∷ ks) x c h = elim (Bool-cases (x == k)) [
  | inl q ↦ let same : p x ≡ p k = ap p (eq_of_beq q) in ground arith
  | inr q ↦ let later = any_of_contains p ks x (rw q at c) h in ground arith
]

contains_of_any :
    (p : Text → Bool) (known : List Text)
    → any p known ≡ true
    → (x : Text) × (contains known x ≡ true) × (p x ≡ true)
unfolding contains any
contains_of_any p [] h = absurd (cc)
contains_of_any p (k ∷ ks) h = elim (Bool-cases (p k)) [
  | inl e ↦ (k, rw (beq_refl k) refl, e)
  | inr e ↦ let (x, c, q) = contains_of_any p ks (rw e at h) in (x, ground arith, q)
]

any_nonempty :
    (xs known : List Text) (p : Text → Bool)
    → ((a : Text) → contains xs a ≡ (contains known a && p a))
    → not (xs == []) ≡ any p known
unfolding contains lab_charts.Base.list_beq
any_nonempty [] known p same = elim (Bool-cases (any p known)) [
  | inl e ↦ let (x, c, q) = contains_of_any p known e in let s = same x in ground arith
  | inr e ↦ sym e
]
any_nonempty (x ∷ xs) known p same =
    let s : (contains known x && p x) ≡ true = sym (same x) ∙ rw (beq_refl x) refl in
    let (c, q) = and_true (contains known x) (p x) s in sym (any_of_contains p known x c q)

contains-patterns :
    (ts : List Trigger) (p : Text)
    → contains (patterns_of ts) p ≡ any (λ (own : Trigger). p == own.0) ts
unfolding contains any
contains-patterns [] p = refl
contains-patterns (t ∷ ts) p = ap (λ b. (p == t.0) || b) (contains-patterns ts p)

module _ (fnmatchcase : (name pattern : Text) → Bool) (spec : TriggerSpec)
    (relative : PurePath) where
  -- a trigger covers the file
  abbrev covers : Trigger → Bool
  covers t = fnmatchcase (as_posix relative) t.0

  -- a trigger covers the file and names an environment of the chart
  unfoldable pub calls_for : Text → Trigger → Bool
  calls_for env t = covers t && (contains spec.environments env && names_env relative t.1 env)

  -- a trigger was authored: one of the chart's own has its pattern
  abbrev is_authored : Trigger → Bool
  is_authored t = any (λ (own : Trigger). t.0 == own.0) spec.triggers

  -- a trigger covers the file, and was authored or names some environment of the chart
  unfoldable pub matches : Trigger → Bool
  matches t = covers t && (is_authored t || any (names_env relative t.1) spec.environments)

  counts-matches : (t : Trigger) → (covers t && counts fnmatchcase spec relative t) ≡ matches t
  unfolding counts matches
  counts-matches t =
      ap (λ b. covers t && b)
        (ap (λ b. contains (patterns_of spec.triggers) t.0 || b)
            (any_nonempty (environments_for spec relative t.1) spec.environments
              (names_env relative t.1) (contains-environments_for spec relative t.1))
          ∙ ap (λ b. b || any (names_env relative t.1) spec.environments)
              (contains-patterns spec.triggers t.0))

  contains-trigger_step :
      (t : Trigger) (found : Triggered) (env : Text)
      → contains (trigger_step fnmatchcase spec relative t found).envs env
        ≡ (calls_for env t || contains found.envs env)
  unfolding trigger_step calls_for
  contains-trigger_step t found env = elim (Bool-cases (covers t)) [
    | inl e ↦ rw e (
        contains-union (environments_for spec relative t.1) found.envs env
        ∙ ap (λ b. b || contains found.envs env) (contains-environments_for spec relative t.1 env))
    | inr e ↦ rw e refl
  ]

  matched-if_covers :
      (t : Trigger) (found : Triggered)
      → (trigger_step fnmatchcase spec relative t found).matched
        ≡ (found.matched || (covers t && counts fnmatchcase spec relative t))
  unfolding trigger_step
  matched-if_covers t found = elim (Bool-cases (covers t)) [
    | inl e ↦ rw e refl
    | inr e ↦ rw e (ground arith)
  ]

  matched-trigger_step :
      (t : Trigger) (found : Triggered)
      → (trigger_step fnmatchcase spec relative t found).matched ≡ (found.matched || matches t)
  matched-trigger_step t found =
      matched-if_covers t found ∙ ap (λ b. found.matched || b) (counts-matches t)

  contains-trigger_all :
      (triggers : List Trigger) (found : Triggered) (env : Text)
      → contains (trigger_all fnmatchcase spec relative triggers found).envs env
        ≡ (any (calls_for env) triggers || contains found.envs env)
  unfolding trigger_all any
  contains-trigger_all [] found env = refl
  contains-trigger_all (t ∷ rest) found env = ground (
    arith,
    contains-trigger_all rest (trigger_step fnmatchcase spec relative t found) env,
    contains-trigger_step t found env,
  )

  matched-trigger_all :
      (triggers : List Trigger) (found : Triggered)
      → (trigger_all fnmatchcase spec relative triggers found).matched
        ≡ (found.matched || any matches triggers)
  unfolding trigger_all any
  matched-trigger_all [] found = ground arith
  matched-trigger_all (t ∷ rest) found = ground (
    arith,
    matched-trigger_all rest (trigger_step fnmatchcase spec relative t found),
    matched-trigger_step t found,
  )

  calls_for-known :
      (triggers : List Trigger) (env : Text)
      → any (calls_for env) triggers ≡ true
      → contains spec.environments env ≡ true
  unfolding any calls_for
  calls_for-known [] env h = cc
  calls_for-known (t ∷ rest) env h = elim (Bool-cases (any (calls_for env) rest)) [
    | inl e ↦ calls_for-known rest env e
    | inr e ↦ ground arith
  ]

  -- what the triggers, merged with the default ones, come to for a file
  pub record IsTriggered (found : Triggered) : Type 0 where
    pub matched : found.matched ≡ any matches (merged_triggers spec.triggers)
    pub selected :
        (env : Text)
        → contains found.envs env ≡ (
            any (calls_for env) (merged_triggers spec.triggers)
            || (not (any matches (merged_triggers spec.triggers))
                && (spec.all_unmatched && contains spec.environments env)))
    pub known : all (contains spec.environments) found.envs ≡ true

  with_unmatched-contains :
      (found : Triggered) (env : Text)
      → (contains found.envs env ≡ true → contains spec.environments env ≡ true)
      → contains (with_unmatched fnmatchcase spec relative found).envs env ≡ (
          contains found.envs env
          || (not found.matched && (spec.all_unmatched && contains spec.environments env)))
  unfolding with_unmatched
  with_unmatched-contains found env k =
      elim (Bool-cases (not found.matched && spec.all_unmatched)) [
        | inl e ↦ rw e (elim (Bool-cases (contains found.envs env)) [
          | inl c ↦ let q = k c in ground arith
          | inr c ↦ ground arith
        ])
        | inr e ↦ rw e (ground arith)
      ]

  with_unmatched-matched :
      (found : Triggered) → (with_unmatched fnmatchcase spec relative found).matched ≡ found.matched
  unfolding with_unmatched
  with_unmatched-matched found = elim (Bool-cases (not found.matched && spec.all_unmatched)) [
    | inl e ↦ rw e (ground arith)
    | inr e ↦ rw e refl
  ]

  abbrev none_found : Triggered
  none_found = record { envs = []; matched = false }

  called :
      (ts : List Trigger) (env : Text)
      → contains (trigger_all fnmatchcase spec relative ts none_found).envs env
        ≡ any (calls_for env) ts
  unfolding contains
  called ts env = ground (arith, contains-trigger_all ts none_found env)

  chosen_of :
      (ts : List Trigger) (env : Text)
      → contains
          (with_unmatched fnmatchcase spec relative
            (trigger_all fnmatchcase spec relative ts none_found)).envs
          env
        ≡ (any (calls_for env) ts
            || (not (any matches ts) && (spec.all_unmatched && contains spec.environments env)))
  chosen_of ts env =
      with_unmatched-contains (trigger_all fnmatchcase spec relative ts none_found) env
        (λ c. calls_for-known ts env (sym (called ts env) ∙ c))
      ∙ ground (arith, called ts env, matched-trigger_all ts none_found)

  only_known :
      (ts : List Trigger) (env : Text)
      → (any (calls_for env) ts
          || (not (any matches ts) && (spec.all_unmatched && contains spec.environments env)))
        ≡ true
      → contains spec.environments env ≡ true
  only_known ts env h = elim (Bool-cases (any (calls_for env) ts)) [
    | inl e ↦ calls_for-known ts env e
    | inr e ↦ ground arith
  ]

  -- Of the triggers merged with the default ones: a file selects an environment of the chart exactly
  -- when one that covers the file names it, or when none is a match and unmatched changes select
  -- all; the file is matched exactly when one that covers it has a pattern of the chart's own
  -- triggers, or names some environment of the chart; and it selects environments of its chart only.
  pub triggered-IsTriggered : IsTriggered (triggered fnmatchcase spec relative)
  unfolding triggered
  triggered-IsTriggered =
      let ts = merged_triggers spec.triggers in
      record {
        matched =
            with_unmatched-matched (trigger_all fnmatchcase spec relative ts none_found)
            ∙ matched-trigger_all ts none_found;
        selected = λ env. chosen_of ts env;
        known =
            all_of_mem (contains spec.environments) (triggered fnmatchcase spec relative).envs
              (λ env m. only_known ts env (sym (chosen_of ts env) ∙ contains_of_mem m));
      }
