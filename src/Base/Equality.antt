-- ===== src/Base/Equality.antt =====
-- Decidable equality as an interface, the `==` of the source at every type that has an instance.
use Prim.Native.Nat.{ℕ}
use mathlib.Core.Path.{◌≡◌, refl, ap, subst, sym, ◌∙◌}
use mathlib.Core.Logic.{◌↔◌, ◌≢◌, inl, inr}
use mathlib.Core.Bool.{false≢true, Bool, true, false, ◌&&◌, ◌||◌}
use mathlib.Core.Option.{Option, none, some}
use mathlib.Core.List.{List, [], ◌∷◌, ◌++◌, Memᴰ}
use native.Mathlib.Omega.{arith}
use lab_charts.Base.Tests.{nat_beq, nat_beq_iff, Bool-cases, if◌then◌else◌}

pub record Eq {ℓ} (A : Type ℓ) : Type ℓ where
  pub beq : (x y : A) → Bool
  -- a test that decides the equality of its arguments
  pub reflects : (x y : A) → (beq x y ≡ true) ↔ (x ≡ y)

instance abbrev pub nat_eq : Eq ℕ
nat_eq = record { beq = nat_beq; reflects = nat_beq_iff }

infix 50 ◌==◌
abbrev pub ◌==◌ {ℓ} : {A : Type ℓ} ⦃e : Eq A⦄ → A → A → Bool
◌==◌ ⦃e⦄ = e.beq

module _ {ℓ} {A : Type ℓ} ⦃e : Eq A⦄ where
  unfoldable pub list_beq : List A → List A → Bool
  list_beq [] [] = true
  list_beq (x ∷ xs) (y ∷ ys) = x == y && list_beq xs ys
  list_beq _ _ = false

  pub list_beq_iff : (xs ys : List A) → (list_beq xs ys ≡ true) ↔ (xs ≡ ys)
  unfolding list_beq
  list_beq_iff [] [] = (λ _. refl, λ _. refl)
  list_beq_iff [] (y ∷ ys) = (λ h. cc, λ h. cc)
  list_beq_iff (x ∷ xs) [] = (λ h. cc, λ h. cc)
  list_beq_iff (x ∷ xs) (y ∷ ys) =
      let ih = list_beq_iff xs ys in
      let head = e.reflects x y in (λ h. ground arith, λ h. ground arith)

  instance abbrev pub list_eq : Eq (List A)
  list_eq = record { beq = list_beq; reflects = list_beq_iff }

  -- Two values that are not equal compare as `false`.
  pub beq_false : (a b : A) → a ≢ b → (a == b) ≡ false
  beq_false a b h = elim (Bool-cases (a == b)) [
    | inl t ↦ absurd (h ((e.reflects a b).0 t))
    | inr f ↦ f
  ]

  pub beq_refl : (a : A) → (a == a) ≡ true
  beq_refl a = (e.reflects a a).1 refl

  pub eq_of_beq : {a b : A} → (a == b) ≡ true → a ≡ b
  eq_of_beq {a} {b} = (e.reflects a b).0

  pub beq_comm : (a b : A) → (a == b) ≡ (b == a)
  beq_comm a b = elim (Bool-cases (a == b)) [
    | inl t ↦ ap (λ x. x == b) (eq_of_beq t) ∙ ap (λ x. b == x) (sym (eq_of_beq t))
    | inr f ↦
        f ∙ sym (beq_false b a (λ p. absurd (false≢true (sym f ∙ ap (λ x. a == x) p ∙ beq_refl a))))
  ]

  -- Python's `a in xs`
  unfoldable pub contains : List A → A → Bool
  contains [] a = false
  contains (x ∷ xs) a = a == x || contains xs a

  pub contains_of_mem : {a : A} {xs : List A} → Memᴰ a xs → contains xs a ≡ true
  unfolding contains
  contains_of_mem {a} (Memᴰ.head {x = x} h) = rw ((e.reflects a x).1 h)
  contains_of_mem (Memᴰ.tail m) = ground (arith, contains_of_mem m)

  pub mem_of_contains : (a : A) (xs : List A) → contains xs a ≡ true → Memᴰ a xs
  unfolding contains
  mem_of_contains a [] h = absurd (cc)
  mem_of_contains a (x ∷ xs) h = elim (Bool-cases (a == x)) [
    | inl t ↦ Memᴰ.head (eq_of_beq t)
    | inr f ↦ Memᴰ.tail (mem_of_contains a xs (rw f at h))
  ]

  pub contains-append :
      (xs ys : List A) (a : A) → contains (xs ++ ys) a ≡ (contains xs a || contains ys a)
  unfolding contains
  contains-append [] ys a = refl
  contains-append (x ∷ xs) ys a = ground (arith, contains-append xs ys a)

  pub contains-singleton : (x a : A) → contains (x ∷ []) a ≡ (a == x)
  unfolding contains
  contains-singleton x a = ground arith

  -- a key put into a dict or a set, which stays where it was first put
  unfoldable pub add_once : A → List A → List A
  add_once a xs = if contains xs a then xs else xs ++ a ∷ []

  -- the set of the elements, each once
  unfoldable pub distinct_of : List A → List A
  unfolding add_once
  distinct_of [] = []
  distinct_of (x ∷ xs) = add_once x (distinct_of xs)

  pub contains-add_once :
      (a b : A) (xs : List A) → contains (add_once a xs) b ≡ (b == a || contains xs b)
  unfolding add_once
  contains-add_once a b xs = elim (Bool-cases (contains xs a)) [
    | inl h ↦ elim (Bool-cases (b == a)) [
      | inl e ↦ rw (h, e) (subst (λ c. contains xs c ≡ true) (sym (eq_of_beq e)) h)
      | inr e ↦ rw (h, e) refl
    ]
    | inr h ↦ rw h (ground (arith, contains-append xs (a ∷ []) b, contains-singleton a b))
  ]

  pub contains-distinct_of : (xs : List A) (a : A) → contains (distinct_of xs) a ≡ contains xs a
  unfolding distinct_of contains
  contains-distinct_of [] a = refl
  contains-distinct_of (x ∷ xs) a =
      contains-add_once x a (distinct_of xs) ∙ ap (λ b. a == x || b) (contains-distinct_of xs a)

  unfoldable pub option_beq : Option A → Option A → Bool
  option_beq none none = true
  option_beq (some x) (some y) = x == y
  option_beq _ _ = false

  pub option_beq_iff : (a b : Option A) → (option_beq a b ≡ true) ↔ (a ≡ b)
  unfolding option_beq
  option_beq_iff none none = (λ _. refl, λ _. refl)
  option_beq_iff none (some y) = (λ h. cc, λ h. cc)
  option_beq_iff (some x) none = (λ h. cc, λ h. cc)
  option_beq_iff (some x) (some y) =
      (λ h. ap some ((e.reflects x y).0 h), λ h. (e.reflects x y).1 (cc))

  instance abbrev pub option_eq : Eq (Option A)
  option_eq = record { beq = option_beq; reflects = option_beq_iff }

module _ {ℓ κ} {A : Type ℓ} {B : Type κ} ⦃e : Eq A⦄ ⦃f : Eq B⦄ where
  unfoldable pub pair_beq : A × B → A × B → Bool
  pair_beq p q = p.0 == q.0 && p.1 == q.1

  pub pair_beq_iff : (p q : A × B) → (pair_beq p q ≡ true) ↔ (p ≡ q)
  unfolding pair_beq
  pair_beq_iff p q =
      let first = e.reflects p.0 q.0 in
      let second = f.reflects p.1 q.1 in (λ h. ground arith, λ h. ground arith)

  instance abbrev pub pair_eq : Eq (A × B)
  pair_eq = record { beq = pair_beq; reflects = pair_beq_iff }
