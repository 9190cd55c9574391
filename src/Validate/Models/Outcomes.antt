-- ===== src/Validate/Models/Outcomes.antt =====
-- What the exit reason of a validation says.
use lab_charts.Base.{
  Bool, true, false, List, [], ◌∷◌, Every, any, ◌≡◌, ◌≢◌, ◌↔◌, inl, inr, refl, arith, Bool-cases,
  Text,
}
use lab_charts.Plumbing.ExitCodes.{Outcome}
use lab_charts.Validate.Models.{
  CheckName, CheckResult, Row, Status, ValidateOutcome, is_failing, is_error, has_status,
  outcome_for, outcome,
}

-- each check of each row has a status that does not fail it
abbrev pub IsClean : List Row → Type 0
IsClean rows =
    Every
      (λ (r : Row). Every (λ (c : CheckName × CheckResult). is_failing c.1.status ≡ false) r.checks)
      rows

any_none :
    {A : Type 0} (p : A → Bool) (P : A → Type 0) (xs : List A)
    → ((x : A) → (p x ≡ false) ↔ P x)
    → (any p xs ≡ false) ↔ Every P xs
unfolding any
any_none p P [] each = (λ h. tt, λ h. refl)
any_none p P (x ∷ xs) each =
    let ih = any_none p P xs each in
    (
      (λ h. ((each x).0 (ground arith), ih.0 (ground arith))),
      λ h. let e = (each x).1 h.0 in let r = ih.1 h.1 in ground arith,
    )

error_is_failing : (s : Status) → is_failing s ≡ false → is_error s ≡ false
unfolding is_failing is_error
error_is_failing Status.passed h = refl
error_is_failing Status.failed h = absurd (cc)
error_is_failing Status.skipped h = refl
error_is_failing Status.error h = absurd (cc)

-- no check of a row has been broken off by its tool
abbrev pub IsUnbroken : List Row → Type 0
IsUnbroken rows =
    Every
      (λ (r : Row). Every (λ (c : CheckName × CheckResult). is_error c.1.status ≡ false) r.checks)
      rows

-- what each exit reason says of the errors and the rows
abbrev pub IsReason : List Text → List Row → Outcome → Type 0
IsReason es rows Outcome.spec = es ≢ []
IsReason es rows Outcome.tool = (es ≡ []) × (IsUnbroken rows → false ≡ true)
IsReason es rows Outcome.failed = (es ≡ []) × IsUnbroken rows × (IsClean rows → false ≡ true)
IsReason es rows Outcome.success = (es ≡ []) × IsClean rows
IsReason es rows other = false ≡ true

rows_none :
    (test : Status → Bool) (rows : List Row)
    → (any (has_status test) rows ≡ false)
      ↔ Every
          (λ (r : Row). Every (λ (c : CheckName × CheckResult). test c.1.status ≡ false) r.checks)
          rows
unfolding has_status
rows_none test rows = any_none (has_status test) _ rows λ r.
    any_none (λ (c : CheckName × CheckResult). test c.1.status) _ r.checks λ c. (λ h. h, λ h. h)

not_both : {b : Bool} → b ≡ true → b ≡ false → false ≡ true
not_both h k = cc

outcome_for-IsReason :
    (es : List Text) (rows : List Row)
    → IsReason es rows
        (outcome_for es (any (has_status is_error) rows) (any (has_status is_failing) rows))
unfolding outcome_for
outcome_for-IsReason (e ∷ es) rows = λ h. cc
outcome_for-IsReason [] rows = elim (Bool-cases (any (has_status is_error) rows)) [
  | inl e ↦ rw e (refl, λ u. not_both e ((rows_none is_error rows).1 u))
  | inr e ↦ rw e (elim (Bool-cases (any (has_status is_failing) rows)) [
    | inl f ↦
        rw f
          (refl, (rows_none is_error rows).0 e, λ u. not_both f ((rows_none is_failing rows).1 u))
    | inr f ↦ rw f (refl, (rows_none is_failing rows).0 f)
  ])
]

-- The exit reason of a validation: spec exactly where a chart's configuration kept it out; else tool
-- exactly where a tool broke off a check; else failed exactly where a check did not pass; else success,
-- with every check of every row passed or skipped.
pub outcome-IsReason : (v : ValidateOutcome) → IsReason v.spec_errors v.rows (outcome v)
unfolding outcome
outcome-IsReason v = outcome_for-IsReason v.spec_errors v.rows
