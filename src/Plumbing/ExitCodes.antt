-- ===== src/Plumbing/ExitCodes.antt =====
-- plumbing/exit_codes.py: how a run ended, and the number that the process exits with.
use lab_charts.Base.{ℕ}

pub data Outcome : Type 0 where
  success failed usage spec tool environment missing_binary : Outcome

-- `exit_code_for` and its table EXIT_CODE
unfoldable pub exit_code_for : Outcome → ℕ
exit_code_for success = 0
exit_code_for failed = 1
exit_code_for usage = 2
exit_code_for spec = 3
exit_code_for tool = 4
exit_code_for environment = 5
exit_code_for missing_binary = 127
