-- ===== src/Promote/State/Verdicts.antt =====
-- How `run_verdict` of commands/promote/state.py folds the verdicts of a run, and what the tables
-- of reasons and phases say of one another.
use lab_charts.Base.{
  ℕ, ◌≤◌, true, not, ◌&&◌, List, [], ◌∷◌, ◌≡◌, refl, sym, ◌⊎◌, inl, inr, arith, ◌==◌, all,
  Bool-cases, Memᴰ, contains, contains_of_mem, leb, le→leb, all_of_mem, mem_of_contains,
  if◌then◌else◌, Text, list_beq, nat_eq, list_eq, and_true, eq_of_beq,
}
use lab_charts.Promote.State.{
  Verdict, verdict_beq, verdict_eq, is_passing, run_verdict, without_severe, Reason, member,
  reason_value, reason_of, reason_text, reasons, coerce_reason,
}

-- How bad a verdict is, apart from the order of the program's table.
abbrev pub severity : Verdict → ℕ
severity Verdict.failed = 4
severity Verdict.timed_out = 3
severity Verdict.no_match = 2
severity Verdict.skipped_not_ready = 1
severity _ = 0

-- The four tests of the loop decide the fold.
pub run_verdict_cases :
    (vs : List Verdict) (s : Verdict)
    → run_verdict vs s ≡ (
        if contains vs Verdict.failed
        then Verdict.failed
        else if contains vs Verdict.timed_out
        then Verdict.timed_out
        else if contains vs Verdict.no_match
        then Verdict.no_match
        else if contains vs Verdict.skipped_not_ready
        then Verdict.skipped_not_ready
        else without_severe vs s)
unfolding run_verdict
run_verdict_cases vs s = ground arith

pub all_passing_eq :
    (vs : List Verdict)
    → all is_passing vs ≡ (
        not (contains vs Verdict.failed)
        && (not (contains vs Verdict.timed_out)
            && (not (contains vs Verdict.no_match) && not (contains vs Verdict.skipped_not_ready))))
unfolding all contains is_passing verdict_beq
all_passing_eq [] = refl
all_passing_eq (v ∷ vs) = ground (arith, all_passing_eq vs)

pub without_severe_eq :
    (v : Verdict) (vs : List Verdict) (s : Verdict)
    → without_severe (v ∷ vs) s ≡ (
        if all (λ w. w == Verdict.skipped_suspended) (v ∷ vs) then Verdict.skipped_suspended else s)
unfolding without_severe
without_severe_eq v vs s = refl

without_severe_cases :
    (vs : List Verdict) (s : Verdict)
    → (without_severe vs s ≡ s)
      ⊎ (Memᴰ Verdict.skipped_suspended vs × (without_severe vs s ≡ Verdict.skipped_suspended))
unfolding without_severe verdict_beq
without_severe_cases [] s = inl refl
without_severe_cases (v ∷ vs) s =
    elim (Bool-cases
      (v == Verdict.skipped_suspended && all (λ w. w == Verdict.skipped_suspended) vs)) [
        | inl e ↦ inr (Memᴰ.head (sym (eq_of_beq (and_true _ _ e).0)), rw e)
        | inr e ↦ inl (rw e)
      ]

passing_cases :
    (vs : List Verdict) (s : Verdict)
    → is_passing s ≡ true
    → is_passing (without_severe vs s) ≡ true
unfolding is_passing
passing_cases vs s h = elim (without_severe_cases vs s) [ inl e ↦ rw e h | inr (_, e) ↦ rw e ]

severity-le_of_contains :
    (vs : List Verdict) (s v : Verdict)
    → contains vs v ≡ true
    → severity v ≤ severity (run_verdict vs s)
severity-le_of_contains vs s Verdict.failed h = ground (arith, run_verdict_cases vs s)
severity-le_of_contains vs s _ h = ground (arith, run_verdict_cases vs s)

-- A run passes as a whole exactly when every verdict in it passes, for a success that passes.
pub run_verdict_passing :
    (verdicts : List Verdict) (success : Verdict)
    → is_passing success ≡ true
    → is_passing (run_verdict verdicts success) ≡ all is_passing verdicts
unfolding is_passing
run_verdict_passing vs s h =
    ground (arith, run_verdict_cases vs s, all_passing_eq vs, passing_cases vs s)

run_verdict_seen :
    (vs : List Verdict) (s : Verdict) → Memᴰ (run_verdict vs s) vs ⊎ (run_verdict vs s ≡ s)
run_verdict_seen vs s = ground (
  arith,
  run_verdict_cases vs s,
  without_severe_cases vs s,
  mem_of_contains Verdict.failed vs,
  mem_of_contains Verdict.timed_out vs,
  mem_of_contains Verdict.no_match vs,
  mem_of_contains Verdict.skipped_not_ready vs,
)

-- No verdict of the run is worse than the folded one, which the run has seen unless it is the
-- success.
pub run_verdict_worst :
    (verdicts : List Verdict) (success : Verdict)
    → is_passing success ≡ true
    → (all (λ v. leb (severity v) (severity (run_verdict verdicts success))) verdicts ≡ true)
      × (Memᴰ (run_verdict verdicts success) verdicts ⊎ (run_verdict verdicts success ≡ success))
run_verdict_worst vs s h = (
  all_of_mem _ vs (λ v m. le→leb _ _ (severity-le_of_contains vs s v (contains_of_mem m))),
  run_verdict_seen vs s,
)

reason_text-reason_of : (value : Text) (rs : List Reason) → reason_text (reason_of value rs) ≡ value
unfolding reason_text reason_of
reason_text-reason_of value [] = refl
reason_text-reason_of value (r ∷ rs) = elim (Bool-cases (value == reason_value r)) [
  | inl e ↦ rw e (sym (eq_of_beq e))
  | inr e ↦ rw e (reason_text-reason_of value rs)
]

-- Reading a text as a reason never changes what it compares and prints as.
pub reason_text-coerce_reason : (value : Text) → reason_text (coerce_reason value) ≡ value
unfolding coerce_reason reason_of
reason_text-coerce_reason value = reason_text-reason_of value reasons

-- Every member is read back from its own value.
pub coerce_reason-reason_value : (r : Reason) → coerce_reason (reason_value r) ≡ member r
unfolding coerce_reason reason_value list_beq
coerce_reason-reason_value Reason.ready = refl
coerce_reason-reason_value _ = refl
