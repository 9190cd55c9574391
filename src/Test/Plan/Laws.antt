-- ===== src/Test/Plan/Laws.antt =====
-- Which actions `compile_plan` (commands/test/plan.py) gives to which entries.
use lab_charts.Base.{
  Bool, true, false, not, ◌&&◌, ◌||◌, List, [], ◌∷◌, ◌++◌, all, all-append, contains, ◌==◌, nat_eq,
  list_eq, pair_eq, ◌≡◌, refl, ◌∙◌, subst, arith, Text, Bool-cases, inl, inr, eq_of_beq, and_true,
}
use lab_charts.Charts.Result.{Key, ok, >>=-eq-ok, ok-injective, err-is-no-ok}
use lab_charts.Charts.InstallPlan.{InstallPlanEntry, entry_key}
use lab_charts.Test.Plan.{
  ActionKind, helm_lint, install, workload_ready, helm_test, hook_pre_install, hook_post_install,
  hook_cleanup, LifecycleAction, Requires, install_all, skip, install_untested, Surroundings,
  Entries, Steps, step, step_if, hook_argv, hook_action, install_steps, append_steps, is_owned,
  owned_steps, required_steps, entry_steps, all_steps,
}

abbrev pub is_cleanup : ActionKind → Bool
is_cleanup hook_cleanup = true
is_cleanup _ = false

-- What is done for an entry that is required only.
abbrev pub permitted : Requires → ActionKind → Bool
permitted install_all workload_ready = false
permitted install_all _ = true
permitted install_untested workload_ready = false
permitted install_untested helm_test = false
permitted install_untested _ = true
permitted skip _ = false

module _ (r : Surroundings) (requires : Requires) (selected : List Key) where
  abbrev pub allowed : LifecycleAction → Bool
  allowed a = contains selected (entry_key a.entry) || permitted requires a.kind

  abbrev pub in_body : LifecycleAction → Bool
  in_body a = not (is_cleanup a.kind) && allowed a

  abbrev pub in_tail : LifecycleAction → Bool
  in_tail a = is_cleanup a.kind && allowed a

  -- the steps so far
  pub record Proper (s : Steps) : Type 0 where
    pub body : all in_body s.actions ≡ true
    pub tail : all in_tail s.cleanups ≡ true

  hook_action-all :
      (p : LifecycleAction → Bool) (e : InstallPlanEntry) (kind : ActionKind) (argv : List Text)
      (l : List LifecycleAction)
      → hook_action r e kind argv ≡ ok l
      → ((command : List Text) → p (record { entry = e; kind = kind; command = command }) ≡ true)
      → all p l ≡ true
  unfolding hook_action all
  hook_action-all p e kind [] l h fits = subst (λ x. all p x ≡ true) (ok-injective h) refl
  hook_action-all p e kind (x ∷ xs) l h fits = elim (Bool-cases (r.executable_valid x)) [
    | inl t ↦ subst (λ y. all p y ≡ true) (ok-injective (rw t at h)) (rw (fits (x ∷ xs)))
    | inr f ↦ absurd (err-is-no-ok (rw f at h))
  ]

  -- A full or an untested installation is allowed for a selected entry or by `requires`.
  abbrev installs : InstallPlanEntry → Bool → Bool
  installs e test =
      contains selected (entry_key e)
      || (permitted requires install && (not test || permitted requires helm_test))

  install_steps-all :
      (e : InstallPlanEntry) (lint test : Bool) (pre post : List LifecycleAction)
      → installs e test ≡ true
      → all in_body pre ≡ true
      → all in_body post ≡ true
      → all in_body (install_steps r e lint test pre post) ≡ true
  unfolding install_steps step_if all
  install_steps-all e lint test pre post fits a b = ground (
    arith,
    all-append in_body (step_if lint (step e helm_lint))
        (pre ++ (step e install ∷ (post ++ step_if (test && e.spec.helm_test) (step e helm_test)))),
    all-append in_body pre
        (step e install ∷ (post ++ step_if (test && e.spec.helm_test) (step e helm_test))),
    all-append in_body post (step_if (test && e.spec.helm_test) (step e helm_test)),
  )

  grown :
      (s : Steps) (more : List LifecycleAction)
      → all in_body s.actions ≡ true
      → all in_body more ≡ true
      → all in_body (s.actions ++ more) ≡ true
  grown s more a b = all-append in_body s.actions more ∙ rw (a, b)

  pub append_steps-Proper :
      (e : InstallPlanEntry) (lint test : Bool) (s s' : Steps)
      → Proper s
      → installs e test ≡ true
      → append_steps r e lint test s ≡ ok s'
      → Proper s'
  unfolding append_steps
  append_steps-Proper e lint test s s' p fits h =
      let (pre, h1, rest1) =
        >>=-eq-ok (hook_action r e hook_pre_install (hook_argv (λ x. x.pre_install) e.spec.hooks)) _
          h in
      let (post, h2, rest2) =
        >>=-eq-ok (hook_action r e hook_post_install (hook_argv (λ x. x.post_install) e.spec.hooks))
          _ rest1 in
      let (cleanup, h3, done) =
        >>=-eq-ok (hook_action r e hook_cleanup (hook_argv (λ x. x.cleanup) e.spec.hooks)) _
          rest2 in
      let pre_fits =
        hook_action-all in_body e hook_pre_install _ pre h1 (λ c. ground (arith, fits)) in
      let post_fits =
        hook_action-all in_body e hook_post_install _ post h2 (λ c. ground (arith, fits)) in
      let cleanup_fits =
        hook_action-all in_tail e hook_cleanup _ cleanup h3 (λ c. ground (arith, fits)) in
      subst Proper (ok-injective done) (record {
        body = grown s _ p.body (install_steps-all e lint test pre post fits pre_fits post_fits);
        tail = all-append in_tail s.cleanups cleanup ∙ rw (p.tail, cleanup_fits);
      })

  pub owned_steps-Proper :
      (e : InstallPlanEntry) (s : Steps)
      → Proper s
      → Proper (owned_steps r (contains selected (entry_key e)) e s)
  unfolding owned_steps step_if all
  owned_steps-Proper e s p = record { body = grown s _ p.body (ground arith); tail = p.tail }

module _ (r : Surroundings) where
  required_steps-Proper :
      (requires : Requires) (selected : List Key) (lint : Bool) (e : InstallPlanEntry)
      (s s' : Steps)
      → Proper r requires selected s
      → required_steps r requires lint e s ≡ ok s'
      → Proper r requires selected s'
  unfolding required_steps
  required_steps-Proper install_all selected lint e s s' p h =
      append_steps-Proper r install_all selected e lint true s s' p (ground arith) h
  required_steps-Proper install_untested selected lint e s s' p h =
      append_steps-Proper r install_untested selected e lint false s s' p (ground arith) h
  required_steps-Proper skip selected lint e s s' p h =
      subst (Proper r skip selected) (ok-injective h) (record { body = p.body; tail = p.tail })

  module _ (requires : Requires) (lint : Bool) (selected : List Key) where
    entry_steps-Proper :
        (e : InstallPlanEntry) (s s' : Steps)
        → Proper r requires selected s
        → entry_steps r requires lint (contains selected (entry_key e)) e s ≡ ok s'
        → Proper r requires selected s'
    unfolding entry_steps
    entry_steps-Proper e s s' p h = elim (Bool-cases (is_owned r e)) [
      | inl o ↦
          subst (Proper r requires selected) (ok-injective (rw o at h))
            (owned_steps-Proper r requires selected e s p)
      | inr o ↦ elim (Bool-cases (contains selected (entry_key e))) [
        | inl c ↦ append_steps-Proper r requires selected e lint true s s' p (rw c) (rw (o, c) at h)
        | inr c ↦ required_steps-Proper requires selected lint e s s' p (rw (o, c) at h)
      ]
    ]

    pub all_steps-Proper :
        (entries : Entries) (s s' : Steps)
        → all (λ (x : Key × InstallPlanEntry). x.0 == entry_key x.1) entries ≡ true
        → Proper r requires selected s
        → all_steps r requires lint selected entries s ≡ ok s'
        → Proper r requires selected s'
    unfolding all_steps all
    all_steps-Proper [] s s' keyed p h = subst (Proper r requires selected) (ok-injective h) p
    all_steps-Proper ((key, e) ∷ rest) s s' keyed p h =
        let (same, others) = and_true _ _ keyed in
        let (s1, first, last) =
          >>=-eq-ok (entry_steps r requires lint (contains selected key) e s) _ h in
        all_steps-Proper rest s1 s' others
          (entry_steps-Proper e s s1 p (
            subst (λ (k : Key). entry_steps r requires lint (contains selected k) e s ≡ ok s1)
              (eq_of_beq same) first))
          last
