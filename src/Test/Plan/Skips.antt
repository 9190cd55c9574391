-- ===== src/Test/Plan/Skips.antt =====
-- Which entries `compile_plan` (commands/test/plan.py) leaves out.
use lab_charts.Base.{
  Bool, true, false, not, ◌&&◌, List, [], ◌∷◌, ◌++◌, map, append_assoc, append-nil, keep, contains,
  nat_eq, list_eq, pair_eq, ◌≡◌, refl, sym, ap, ◌∙◌, arith, if◌then◌else◌, Bool-cases, inl, inr,
}
use lab_charts.Charts.Result.{Key, ok, >>=-eq-ok, ok-injective}
use lab_charts.Charts.InstallPlan.{InstallPlanEntry}
use lab_charts.Test.Plan.{
  hook_pre_install, hook_post_install, hook_cleanup, Requires, install_all, skip, install_untested,
  SkippedRequirement, Surroundings, Entries, Steps, hook_argv, hook_action, append_steps, is_owned,
  owned_steps, skipped_of, required_steps, entry_steps, all_steps,
}

abbrev pub is_skip : Requires → Bool
is_skip skip = true
is_skip _ = false

abbrev pub skipped_entry : Surroundings → Key × InstallPlanEntry → SkippedRequirement
skipped_entry r x = skipped_of r x.1

module _ (r : Surroundings) where
  -- what was left out before, and now one more or none
  abbrev then_skipped : Bool → InstallPlanEntry → Steps → List SkippedRequirement
  then_skipped left e s = s.skipped ++ (if left then skipped_of r e ∷ [] else [])

  append_steps-skipped :
      (e : InstallPlanEntry) (lint test : Bool) (s s' : Steps)
      → append_steps r e lint test s ≡ ok s'
      → s'.skipped ≡ then_skipped false e s
  unfolding append_steps
  append_steps-skipped e lint test s s' h =
      let (_, _, rest1) =
        >>=-eq-ok (hook_action r e hook_pre_install (hook_argv (λ x. x.pre_install) e.spec.hooks)) _
          h in
      let (_, _, rest2) =
        >>=-eq-ok (hook_action r e hook_post_install (hook_argv (λ x. x.post_install) e.spec.hooks))
          _ rest1 in
      let (_, _, done) =
        >>=-eq-ok (hook_action r e hook_cleanup (hook_argv (λ x. x.cleanup) e.spec.hooks)) _
          rest2 in
      ap (λ (x : Steps). x.skipped) (sym (ok-injective done)) ∙ sym (append-nil s.skipped)

  required_steps-skipped :
      (requires : Requires) (lint : Bool) (e : InstallPlanEntry) (s s' : Steps)
      → required_steps r requires lint e s ≡ ok s'
      → s'.skipped ≡ then_skipped (is_skip requires) e s
  unfolding required_steps
  required_steps-skipped install_all lint e s s' h = append_steps-skipped e lint true s s' h
  required_steps-skipped install_untested lint e s s' h = append_steps-skipped e lint false s s' h
  required_steps-skipped skip lint e s s' h = ap (λ (x : Steps). x.skipped) (sym (ok-injective h))

  module _ (requires : Requires) (lint : Bool) (selected : List Key) where
    -- what the loop leaves out
    abbrev pub left_out : Key × InstallPlanEntry → Bool
    left_out x = is_skip requires && (not (is_owned r x.1) && not (contains selected x.0))

    owned_kept : (a b : Bool) {o : Bool} → o ≡ true → (a && (not o && b)) ≡ false
    owned_kept a b h = ground arith

    selected_kept : (a b : Bool) {c : Bool} → c ≡ true → (a && (b && not c)) ≡ false
    selected_kept a b h = ground arith

    required_left : (a : Bool) {o c : Bool} → o ≡ false → c ≡ false → (a && (not o && not c)) ≡ a
    required_left a h k = ground arith

    entry_steps-skipped :
        (key : Key) (e : InstallPlanEntry) (s s' : Steps)
        → entry_steps r requires lint (contains selected key) e s ≡ ok s'
        → s'.skipped ≡ then_skipped (left_out (key, e)) e s
    unfolding entry_steps owned_steps
    entry_steps-skipped key e s s' h = elim (Bool-cases (is_owned r e)) [
      | inl o ↦
          ap (λ (x : Steps). x.skipped) (sym (ok-injective (rw o at h)))
          ∙ sym (append-nil s.skipped)
          ∙ ap (λ b. then_skipped b e s)
              (sym (owned_kept (is_skip requires) (not (contains selected key)) o))
      | inr o ↦ elim (Bool-cases (contains selected key)) [
        | inl c ↦
            append_steps-skipped e lint true s s' (rw (o, c) at h)
            ∙ ap (λ b. then_skipped b e s)
                (sym (selected_kept (is_skip requires) (not (is_owned r e)) c))
        | inr c ↦
            required_steps-skipped requires lint e s s' (rw (o, c) at h)
            ∙ ap (λ b. then_skipped b e s) (sym (required_left (is_skip requires) o c))
      ]
    ]

    cons_kept :
        (left : Bool) (key : Key) (e : InstallPlanEntry) (rest : Entries)
        → (if left then skipped_of r e ∷ [] else []) ++ map (skipped_entry r) (keep left_out rest)
          ≡ map
              (skipped_entry r)
              (if left then (key, e) ∷ keep left_out rest else keep left_out rest)
    cons_kept true key e rest = refl
    cons_kept false key e rest = refl

    pub all_steps-skipped :
        (entries : Entries) (s s' : Steps)
        → all_steps r requires lint selected entries s ≡ ok s'
        → s'.skipped ≡ s.skipped ++ map (skipped_entry r) (keep left_out entries)
    unfolding all_steps keep
    all_steps-skipped [] s s' h =
        ap (λ (x : Steps). x.skipped) (sym (ok-injective h)) ∙ sym (append-nil s.skipped)
    all_steps-skipped ((key, e) ∷ rest) s s' h =
        let (s1, first, last) =
          >>=-eq-ok (entry_steps r requires lint (contains selected key) e s) _ h in
        all_steps-skipped rest s1 s' last
        ∙ ap (λ l. l ++ map (skipped_entry r) (keep left_out rest))
            (entry_steps-skipped key e s s1 first)
        ∙ append_assoc s.skipped _ _
        ∙ ap (λ l. s.skipped ++ l) (cons_kept (left_out (key, e)) key e rest)
