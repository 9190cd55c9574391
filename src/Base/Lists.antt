-- ===== src/Base/Lists.antt =====
-- Lists measured by native numbers, under the library's names, and Boolean quantifiers that run.
use Prim.Native.Nat.{ℕ, zero, suc, ◌+◌, ◌-◌, min}
use mathlib.Core.Path.{◌≡◌, refl, sym, ap, subst, ◌∙◌}
use mathlib.Core.Logic.{inl, inr}
use mathlib.Core.Bool.{Bool, true, false, ◌&&◌, ◌||◌}
use mathlib.Core.List.{List, [], ◌∷◌, ◌++◌, Memᴰ}
use native.Mathlib.Omega.{arith}
use lab_charts.Base.Tests.{if◌then◌else◌, Bool-cases, and_true}

module _ {ℓ} {A : Type ℓ} where
  abbrev pub length : List A → ℕ
  length [] = 0
  length (x ∷ xs) = suc (length xs)

  abbrev pub take : ℕ → List A → List A
  take zero xs = []
  take (suc n) [] = []
  take (suc n) (x ∷ xs) = x ∷ take n xs

  abbrev pub drop : ℕ → List A → List A
  drop zero xs = xs
  drop (suc n) [] = []
  drop (suc n) (x ∷ xs) = drop n xs

  pub length-append : (xs ys : List A) → length (xs ++ ys) ≡ length xs + length ys
  length-append [] ys = omega arith
  length-append (x ∷ xs) ys = omega (arith, length-append xs ys)

  pub length-take : (n : ℕ) (xs : List A) → length (take n xs) ≡ min n (length xs)
  length-take zero xs = omega arith
  length-take (suc n) [] = omega arith
  length-take (suc n) (x ∷ xs) = omega (arith, length-take n xs)

  pub length-drop : (n : ℕ) (xs : List A) → length (drop n xs) ≡ length xs - n
  length-drop zero xs = omega arith
  length-drop (suc n) [] = omega arith
  length-drop (suc n) (x ∷ xs) = omega (arith, length-drop n xs)

  -- Python's `any(p(x) for x in xs)`, `all(…)` and `[x for x in xs if p(x)]`.
  unfoldable pub any : (A → Bool) → List A → Bool
  any p [] = false
  any p (x ∷ xs) = p x || any p xs

  unfoldable pub all : (A → Bool) → List A → Bool
  all p [] = true
  all p (x ∷ xs) = p x && all p xs

  unfoldable pub keep : (A → Bool) → List A → List A
  keep p [] = []
  keep p (x ∷ xs) = let rest = keep p xs in if p x then x ∷ rest else rest

  -- A predicate of every element; it computes to a tuple.
  abbrev pub Every {κ} : (A → Type κ) → List A → Type κ
  Every P [] = Unit
  Every P (x ∷ xs) = P x × Every P xs

  pub all-mem : (p : A → Bool) {a : A} {xs : List A} → all p xs ≡ true → Memᴰ a xs → p a ≡ true
  unfolding all
  all-mem p h (Memᴰ.head {x = x} {xs = xs} e) = ap p e ∙ (and_true (p x) (all p xs) h).0
  all-mem p h (Memᴰ.tail {x = x} {xs = xs} m) = all-mem p (and_true (p x) (all p xs) h).1 m

  pub all_of_mem :
      (p : A → Bool) (xs : List A) → ((a : A) → Memᴰ a xs → p a ≡ true) → all p xs ≡ true
  unfolding all
  all_of_mem p [] h = refl
  all_of_mem p (x ∷ xs) h = rw (h x (Memᴰ.head refl), all_of_mem p xs (λ a m. h a (Memᴰ.tail m)))

  pub any_of_mem : (p : A → Bool) {a : A} {xs : List A} → Memᴰ a xs → p a ≡ true → any p xs ≡ true
  unfolding any
  any_of_mem p (Memᴰ.head {x = x} {xs = xs} e) h = rw (sym (ap p e) ∙ h)
  any_of_mem p (Memᴰ.tail {x = x} {xs = xs} m) h = ground (arith, any_of_mem p m h)

  pub mem_of_any :
      (p : A → Bool) (xs : List A) → any p xs ≡ true → (a : A) × Memᴰ a xs × (p a ≡ true)
  unfolding any
  mem_of_any p [] h = cc
  mem_of_any p (x ∷ xs) h = elim (Bool-cases (p x)) [
    | inl e ↦ (x, Memᴰ.head refl, e)
    | inr e ↦ let (a, m, q) = mem_of_any p xs (ground arith) in (a, Memᴰ.tail m, q)
  ]

  pub all-append : (p : A → Bool) (xs ys : List A) → all p (xs ++ ys) ≡ (all p xs && all p ys)
  unfolding all
  all-append p [] ys = refl
  all-append p (x ∷ xs) ys = ground (arith, all-append p xs ys)

  pub Every-mem {κ} : (P : A → Type κ) {a : A} (xs : List A) → Every P xs → Memᴰ a xs → P a
  Every-mem P [] h m = elim m [ ]
  Every-mem P (y ∷ xs) h (Memᴰ.head e) = subst P (sym e) h.0
  Every-mem P (y ∷ xs) h (Memᴰ.tail m) = Every-mem P xs h.1 m

  pub Every-of_mem {κ} : (P : A → Type κ) (xs : List A) → ((a : A) → Memᴰ a xs → P a) → Every P xs
  Every-of_mem P [] h = tt
  Every-of_mem P (x ∷ xs) h = (h x (Memᴰ.head refl), Every-of_mem P xs (λ a m. h a (Memᴰ.tail m)))

  pub Every-map {κ μ} :
      {P : A → Type κ} {Q : A → Type μ} (xs : List A)
      → ((a : A) → P a → Q a)
      → Every P xs
      → Every Q xs
  Every-map [] f h = tt
  Every-map (x ∷ xs) f h = (f x h.0, Every-map xs f h.1)
