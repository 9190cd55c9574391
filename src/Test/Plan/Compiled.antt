-- ===== src/Test/Plan/Compiled.antt =====
-- What a compiled plan of commands/test/plan.py holds.
use lab_charts.Base.{
  ℕ, Bool, true, List, [], ◌∷◌, ◌++◌, map, all, all-append, keep, nat_eq, list_eq, pair_eq, ◌≡◌,
  refl, sym, ap, ◌∙◌, subst, arith,
}
use lab_charts.Charts.Result.{ok, >>=-eq-ok, ok-injective}
use lab_charts.Test.Plan.{
  LifecycleAction, Requires, ChartTestRequest, Surroundings, Steps, no_steps, reversed,
  requested_keys, merge_requested, all_steps, compiled, Compilation, compilation,
}
use lab_charts.Test.Plan.Laws.{in_body, in_tail, all_steps-Proper}
use lab_charts.Test.Plan.Skips.{skipped_entry, left_out, all_steps-skipped}
use lab_charts.Test.Plan.Merging.{distinct, keys_of, merge_requested-IsMerged, no_entries-IsMerged}

all-reversed :
    (p : LifecycleAction → Bool) (xs : List LifecycleAction)
    → all p xs ≡ true
    → all p (reversed xs) ≡ true
unfolding reversed all
all-reversed p [] h = refl
all-reversed p (x ∷ xs) h = ground (arith, all-append p (reversed xs) (x ∷ []), all-reversed p xs)

module _ (r : Surroundings) (depth : ℕ) (requires : Requires) (q : ChartTestRequest) where
  -- The parts of a compilation that succeeds.
  record Parts (c : Compilation r) : Type 0 where
    steps : Steps
    merging : merge_requested r depth q.namespace c.selected [] ≡ ok c.entries
    walking : all_steps r requires q.lint c.selected c.entries no_steps ≡ ok steps
    result_is : compiled r q steps ≡ c.result

  compilation-Parts : (c : Compilation r) → compilation r depth requires q ≡ ok c → Parts c
  unfolding compilation
  compilation-Parts c h =
      let (selected, _, h1) = >>=-eq-ok (requested_keys r q) _ h in
      let (entries, merging, h2) =
        >>=-eq-ok (merge_requested r depth q.namespace selected []) _ h1 in
      let (s, walking, done) =
        >>=-eq-ok (all_steps r requires q.lint selected entries no_steps) _ h2 in
      subst Parts (ok-injective done)
        (record { steps = s; merging = merging; walking = walking; result_is = refl })

  -- The actions of a compiled plan: its body has no cleanup hook, its tail nothing else, and each
  -- action belongs to a selected entry or is one that `requires` grants a required entry.
  pub record IsCompiled (c : Compilation r) : Type 0 where
    pub body : List LifecycleAction
    pub tail : List LifecycleAction
    pub actions_are : c.result.plan.actions ≡ body ++ tail
    pub body_fits : all (in_body r requires c.selected) body ≡ true
    pub tail_fits : all (in_tail r requires c.selected) tail ≡ true

  -- Every compiled plan runs its cleanup hooks last, and does nothing for a required entry that
  -- `requires` does not grant: nothing at all where requirements are skipped, no helm test where
  -- they are installed untested, and no wait for the workloads of a release that the environment
  -- owns.
  pub compilation-IsCompiled :
      (c : Compilation r) → compilation r depth requires q ≡ ok c → IsCompiled c
  unfolding compiled
  compilation-IsCompiled c h =
      let parts = compilation-Parts c h in
      let m =
        merge_requested-IsMerged r depth q.namespace c.selected [] c.entries no_entries-IsMerged
          parts.merging in
      let p =
        all_steps-Proper r requires q.lint c.selected c.entries no_steps parts.steps m.keyed
          (record { body = unfold all in refl; tail = unfold all in refl }) parts.walking in
      record {
        body = parts.steps.actions;
        tail = reversed parts.steps.cleanups;
        actions_are = ap (λ x. x.plan.actions) (sym parts.result_is);
        body_fits = p.body;
        tail_fits = all-reversed _ parts.steps.cleanups p.tail;
      }

  -- A compiled plan leaves out exactly the merged entries that are skipped by request, not selected
  -- and not the environment's, in their order; and no profile is compiled twice.
  pub compilation-skipped :
      (c : Compilation r)
      → compilation r depth requires q ≡ ok c
      → (c.result.skipped
          ≡ map (skipped_entry r) (keep (left_out r requires q.lint c.selected) c.entries))
        × (distinct (keys_of c.entries) ≡ true)
  unfolding compiled
  compilation-skipped c h =
      let parts = compilation-Parts c h in
      let m =
        merge_requested-IsMerged r depth q.namespace c.selected [] c.entries no_entries-IsMerged
          parts.merging in
      (
        ap (λ x. x.skipped) (sym parts.result_is)
            ∙ all_steps-skipped r requires q.lint c.selected c.entries no_steps parts.steps
                parts.walking,
        m.apart,
      )
