-- ===== src/Base/Sorting.antt =====
-- Python's `sorted`: stable, and by any order that is given as a test.
use mathlib.Core.Path.{◌≡◌, refl, ap, ◌∙◌}
use mathlib.Core.Logic.{◌≢◌, inl, inr}
use mathlib.Core.Bool.{Bool, true, false, ◌||◌}
use mathlib.Core.List.{List, [], ◌∷◌, Perm}
use mathlib.Core.List.Perm
use Prim.Native.Nat.{ℕ, suc}
use native.Mathlib.Omega.{arith}
use lab_charts.Base.Tests.{ltb, nat_beq, if◌then◌else◌, Bool-cases}
use lab_charts.Base.Lists.{length, Every}
use lab_charts.Base.Equality.{Eq, ◌==◌, contains}

module _ {ℓ} {A : Type ℓ} (le : A → A → Bool) where
  unfoldable pub insert_sorted : A → List A → List A
  insert_sorted x [] = x ∷ []
  insert_sorted x (y ∷ ys) =
      let rest = insert_sorted x ys in if le x y then x ∷ y ∷ ys else y ∷ rest

  -- The last element is inserted first, and an equal one stays behind what came before it.
  unfoldable pub sorted : List A → List A
  unfolding insert_sorted
  sorted [] = []
  sorted (x ∷ xs) = insert_sorted x (sorted xs)

  insert_sorted-perm : (x : A) (ys : List A) → Perm (insert_sorted x ys) (x ∷ ys)
  unfolding insert_sorted
  insert_sorted-perm x [] = Perm.rfl
  insert_sorted-perm x (y ∷ ys) =
      let swapped = Perm.trans (Perm.cons y (insert_sorted-perm x ys)) (Perm.swap x y ys) in
      ground (arith, swapped, Perm.refl (x ∷ y ∷ ys))

  pub sorted-perm : (xs : List A) → Perm (sorted xs) xs
  unfolding sorted
  sorted-perm [] = Perm.rfl
  sorted-perm (x ∷ xs) =
      Perm.trans (insert_sorted-perm x (sorted xs)) (Perm.cons x (sorted-perm xs))

  Every-insert_sorted {κ} :
      (P : A → Type κ) (x : A) (ys : List A) → P x → Every P ys → Every P (insert_sorted x ys)
  unfolding insert_sorted
  Every-insert_sorted P x [] p h = (p, tt)
  Every-insert_sorted P x (y ∷ ys) p h = elim (Bool-cases (le x y)) [
    | inl e ↦ rw e (p, h)
    | inr e ↦ rw e (h.0, Every-insert_sorted P x ys p h.1)
  ]

  pub Every-sorted {κ} : (P : A → Type κ) (xs : List A) → Every P xs → Every P (sorted xs)
  unfolding sorted
  Every-sorted P [] h = tt
  Every-sorted P (x ∷ xs) h = Every-insert_sorted P x (sorted xs) h.0 (Every-sorted P xs h.1)

  length-insert_sorted : (x : A) (ys : List A) → length (insert_sorted x ys) ≡ suc (length ys)
  unfolding insert_sorted
  length-insert_sorted x [] = refl
  length-insert_sorted x (y ∷ ys) = ground (arith, length-insert_sorted x ys)

  pub length-sorted : (xs : List A) → length (sorted xs) ≡ length xs
  unfolding sorted
  length-sorted [] = refl
  length-sorted (x ∷ xs) = omega (arith, length-insert_sorted x (sorted xs), length-sorted xs)

-- `a <= b` of two texts: by code points, and a prefix comes first
unfoldable pub text_leb : List ℕ → List ℕ → Bool
text_leb [] ys = true
text_leb (x ∷ xs) [] = false
text_leb (x ∷ xs) (y ∷ ys) =
    let rest = text_leb xs ys in if ltb x y then true else if nat_beq x y then rest else false

module _ {ℓ} {A : Type ℓ} (le : A → A → Bool) where
  insert_sorted-ne-nil : (x : A) (ys : List A) → insert_sorted le x ys ≢ []
  unfolding insert_sorted
  insert_sorted-ne-nil x [] = λ h. cc
  insert_sorted-ne-nil x (y ∷ ys) = ground arith

  pub sorted-ne-nil : (x : A) (xs : List A) → sorted le (x ∷ xs) ≢ []
  unfolding sorted
  sorted-ne-nil x xs = insert_sorted-ne-nil x (sorted le xs)

module _ {ℓ} {A : Type ℓ} ⦃e : Eq A⦄ (le : A → A → Bool) where
  contains-insert_sorted :
      (x : A) (ys : List A) (v : A) → contains (insert_sorted le x ys) v ≡ (v == x || contains ys v)
  unfolding insert_sorted contains
  contains-insert_sorted x [] v = refl
  contains-insert_sorted x (y ∷ ys) v = ground (arith, contains-insert_sorted x ys v)

  pub contains-sorted : (xs : List A) (v : A) → contains (sorted le xs) v ≡ contains xs v
  unfolding sorted contains
  contains-sorted [] v = refl
  contains-sorted (x ∷ xs) v =
      contains-insert_sorted x (sorted le xs) v ∙ ap (λ b. v == x || b) (contains-sorted xs v)
