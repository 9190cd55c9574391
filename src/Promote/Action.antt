-- ===== src/Promote/Action.antt =====
-- Statements that change a state and may raise; what was written before a raise stays written.
pub mod Triples
use lab_charts.Base.{Text}

-- `out_of_fuel` has no counterpart in the program
pub data Result (A : Type 0) : Type 0 where
  ok : A → Result A
  raised : Text → Result A
  out_of_fuel : Result A

abbrev pub Action : Type 0 → Type 0 → Type 0
Action S A = S → Result A × S

module _ {S A : Type 0} where
  unfoldable pub pure : A → Action S A
  pure a s = (ok a, s)

  unfoldable pub raise : Text → Action S A
  raise x s = (raised x, s)

  unfoldable pub fuel_gone : Action S A
  fuel_gone s = (out_of_fuel, s)

module _ {S A B : Type 0} where
  abbrev pub continue : Result A → (A → Action S B) → Action S B
  continue (ok a) f s = f a s
  continue (raised x) f s = (raised x, s)
  continue out_of_fuel f s = (out_of_fuel, s)

  infixl 5 ◌>>=◌ ◌>>◌
  unfoldable pub ◌>>=◌ : Action S A → (A → Action S B) → Action S B
  unfolding pure raise fuel_gone
  ◌>>=◌ m f s = let (r, s') = m s in continue r f s'

  abbrev pub ◌>>◌ : Action S A → Action S B → Action S B
  m >> k = m >>= λ _. k
