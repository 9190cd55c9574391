-- ===== src/Promote/Request.antt =====
-- plumbing/duration.py, `require_positive_seconds`, and commands/promote/fanout.py,
-- `check_request`: what a monitor or test run may be asked for. A number of seconds is kept in
-- milliseconds beside the float values that the rule rejects.
use lab_charts.Base.{
  ℕ, zero, suc, ◌≤◌, Bool, true, false, [], ◌≡◌, ◌≢◌, ltb, Text, nat_eq, list_eq, ◌==◌, arith,
  list_beq,
}

pub data Seconds : Type 0 where
  millis : ℕ → Seconds
  negative infinite nan : Seconds

pub data Field : Type 0 where
  per_poll_timeout_seconds per_hr_timeout_seconds total_timeout_seconds : Field

pub data RequestError : Type 0 where
  empty_chart_name empty_version : RequestError
  bad_concurrency : ℕ → RequestError
  not_positive_finite : Field → RequestError
  per_hr_too_small total_below_per_hr : RequestError

pub data Checked (A : Type 0) : Type 0 where
  ok : A → Checked A
  err : RequestError → Checked A

infixl 5 ◌>>=◌ ◌>>◌
abbrev pub ◌>>=◌ : {A B : Type 0} (first : Checked A) (next : A → Checked B) → Checked B
err e >>= next = err e
ok a >>= next = next a

-- `if refused: raise error`, then the rest
abbrev pub ◌>>◌ : {B : Type 0} → Checked (Unit {0}) → Checked B → Checked B
err e >> rest = err e
ok _ >> rest = rest

abbrev reject_if : (refused : Bool) (error : RequestError) → Checked (Unit {0})
reject_if false error = ok tt
reject_if true error = err error

-- The milliseconds of a positive, finite number of seconds. (A Boolean or a text is no `Seconds`.)
unfoldable pub require_positive_seconds : Field → Seconds → Checked ℕ
require_positive_seconds name (millis zero) = err (not_positive_finite name)
require_positive_seconds name (millis (suc n)) = ok (suc n)
require_positive_seconds name _ = err (not_positive_finite name)

-- the three budgets of an accepted request
pub record Budgets : Type 0 where
  pub per_poll : ℕ
  pub per_hr : ℕ
  pub total : ℕ

pub record Limits : Type 0 where
  pub chart_name : Text
  pub version : Text
  pub concurrency : ℕ
  pub per_poll_timeout_seconds : Seconds
  pub per_hr_timeout_seconds : Seconds
  pub total_timeout_seconds : Seconds
  pub min_per_hr : ℕ

unfoldable pub check_request : Limits → Checked Budgets
unfolding require_positive_seconds
check_request r = do
  reject_if (r.chart_name == []) empty_chart_name
  reject_if (r.version == []) empty_version
  reject_if (ltb r.concurrency 1) (bad_concurrency r.concurrency)
  poll ← require_positive_seconds per_poll_timeout_seconds r.per_poll_timeout_seconds
  hr ← require_positive_seconds per_hr_timeout_seconds r.per_hr_timeout_seconds
  total ← require_positive_seconds total_timeout_seconds r.total_timeout_seconds
  reject_if (ltb hr r.min_per_hr) per_hr_too_small
  reject_if (ltb total hr) total_below_per_hr
  ok (record { per_poll = poll; per_hr = hr; total = total })

-- What an accepted request promises.
pub record IsSound (r : Limits) (b : Budgets) : Type 0 where
  pub named : r.chart_name ≢ []
  pub versioned : r.version ≢ []
  pub workers : 1 ≤ r.concurrency
  pub poll : r.per_poll_timeout_seconds ≡ millis b.per_poll
  pub hr : r.per_hr_timeout_seconds ≡ millis b.per_hr
  pub whole : r.total_timeout_seconds ≡ millis b.total
  pub poll_positive : 1 ≤ b.per_poll
  pub hr_positive : 1 ≤ b.per_hr
  pub hr_enough : r.min_per_hr ≤ b.per_hr
  pub ordered : b.per_hr ≤ b.total

-- A request is accepted only if it is sound: names, workers, and budgets that are positive, finite
-- and in order.
pub check_request-IsSound : (r : Limits) (b : Budgets) → check_request r ≡ ok b → IsSound r b
unfolding check_request list_beq
check_request-IsSound r b h = ground arith

-- Every sound request is accepted, with its own budgets.
pub check_request_accepts : (r : Limits) (b : Budgets) → IsSound r b → check_request r ≡ ok b
unfolding check_request list_beq
check_request_accepts r b h = ground arith
