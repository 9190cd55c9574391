-- ===== src/Promote/Action/Triples.antt =====
-- Postconditions of actions. `F` is what running out of fuel has to prove: `⊥` where the fuel is
-- known to be enough.
use lab_charts.Base.{Bool, true, false, ◌≡◌, refl, if◌then◌else◌, Text}
use lab_charts.Promote.Action.{
  Result, ok, raised, out_of_fuel, Action, pure, raise, continue, ◌>>=◌,
}

module _ {S A : Type 0} where
  abbrev pub Holds : Type 0 → (A → S → Type 0) → Result A → S → Type 0
  Holds F Q (ok a) s = Q a s
  Holds F Q (raised x) s = Unit
  Holds F Q out_of_fuel s = F

-- From a state with `P`, `m` ends in one with `Q` of its result, or raises.
pub record Triple {S A : Type 0} (F : Type 0) (P : S → Type 0) (m : Action S A) (Q : A → S → Type 0)
    : Type 0 where
  pub at : (s : S) → P s → Holds F Q (m s).0 (m s).1

module _ {S A : Type 0} {F : Type 0} {P : S → Type 0} where
  pub Triple-pure : {Q : A → S → Type 0} (a : A) → ((s : S) → P s → Q a s) → Triple F P (pure a) Q
  unfolding pure
  Triple-pure a h = record { at = h }

  pub Triple-raise : {Q : A → S → Type 0} (x : Text) → Triple F P (raise x) Q
  unfolding raise
  Triple-raise x = record { at = λ s h. tt }

  pub Triple-if :
      {Q : A → S → Type 0} (b : Bool) {m n : Action S A}
      → (b ≡ true → Triple F P m Q)
      → (b ≡ false → Triple F P n Q)
      → Triple F P (if b then m else n) Q
  Triple-if true hm hn = hm refl
  Triple-if false hm hn = hn refl

  pub Triple-weaken :
      {P' : S → Type 0} {Q : A → S → Type 0} {m : Action S A}
      → ((s : S) → P' s → P s)
      → Triple F P m Q
      → Triple F P' m Q
  Triple-weaken h t = record { at = λ s p. t.at s (h s p) }

module _ {S A B : Type 0} {F : Type 0} {R : A → S → Type 0} {Q : B → S → Type 0} where
  continue-Holds :
      (r : Result A) (s : S) (f : A → Action S B)
      → Holds F R r s
      → ((a : A) → Triple F (R a) (f a) Q)
      → let end = continue r f s in Holds F Q end.0 end.1
  continue-Holds (ok a) s f h k = (k a).at s h
  continue-Holds (raised x) s f h k = tt
  continue-Holds out_of_fuel s f h k = h

  pub Triple-bind :
      {P : S → Type 0} {m : Action S A} {f : A → Action S B}
      → Triple F P m R
      → ((a : A) → Triple F (R a) (f a) Q)
      → Triple F P (m >>= f) Q
  unfolding ◌>>=◌
  Triple-bind {m = m} {f = f} t k = record {
    at = λ s p. let (r, s') = m s in continue-Holds r s' f (t.at s p) k;
  }
