-- ===== src/Plumbing/SemVer/Pieces.antt =====
-- The digits of a number, and a text cut and split at a mark.
use lab_charts.Base.{
  ℕ, zero, suc, ◌+◌, ◌/◌, ◌%◌, ◌≤◌, ◌<◌, Bool, true, false, not, ◌&&◌, Option, none, some, List, [],
  ◌∷◌, ◌++◌, all, ltb, leb, nat_eq, list_eq, ◌==◌, ◌≡◌, refl, sym, ap, subst, ◌∙◌, inl, inr, arith,
  Bool-cases, append-nil, Text, text, join, show, digits_below, and_true, all-append, eq_of_beq,
}
use mathlib.Core.Bool.{false≢true}
use lab_charts.Plumbing.SemVer.{
  suffix_of, is_digit, is_identifier_char, is_number, is_build_id, is_prerelease_id, digits_value,
  onto_head, split_on, cons_first, cut_at, identifiers,
}

digits_value-digits_below :
    (fuel n : ℕ) (acc : Text)
    → n < fuel
    → digits_value 0 (digits_below fuel n acc) ≡ digits_value n acc
unfolding digits_value digits_below
digits_value-digits_below zero n acc h = absurd (omega arith)
digits_value-digits_below (suc fuel) n acc h = elim (Bool-cases (ltb n 10)) [
  | inl e ↦ rw e (ap (λ k. digits_value k acc) (omega arith))
  | inr e ↦
      let ge : 10 ≤ n = ground arith in
      let ih = digits_value-digits_below fuel (n / 10) ((48 + n % 10) ∷ acc) (omega arith) in
      rw e (ih ∙ ap (λ k. digits_value k acc) (omega arith))
]

pub digits_value-show : (n : ℕ) → digits_value 0 (show n) ≡ n
unfolding show digits_value
digits_value-show n = digits_value-digits_below (suc n) n [] (omega arith)

-- a number's text has no zero before its other digits
lead : Text → Bool
lead [] = false
lead (c ∷ cs) = is_digit c && (not (c == 48) && all is_digit cs)

lead-digits_below :
    (fuel n : ℕ) (acc : Text)
    → n < fuel
    → 0 < n
    → all is_digit acc ≡ true
    → lead (digits_below fuel n acc) ≡ true
unfolding digits_below lead is_digit all
lead-digits_below zero n acc h p d = absurd (omega arith)
lead-digits_below (suc fuel) n acc h p d = elim (Bool-cases (ltb n 10)) [
  | inl e ↦ rw e (ground arith)
  | inr e ↦
      let ge : 10 ≤ n = ground arith in
      let small : n % 10 < 10 = omega arith in
      let digit : (leb 48 (48 + n % 10) && leb (48 + n % 10) 57) ≡ true = ground arith in
      rw e (
        lead-digits_below fuel (n / 10) ((48 + n % 10) ∷ acc) (omega arith) (omega arith)
          (rw digit d))
]

is_number-lead : (t : Text) → lead t ≡ true → is_number t ≡ true
unfolding lead is_number all
is_number-lead [] h = h
is_number-lead (c ∷ []) h = ground arith
is_number-lead (c ∷ (d ∷ rest)) h = h

pub is_number-show : (n : ℕ) → is_number (show n) ≡ true
unfolding show is_number is_digit digits_below all
is_number-show zero = refl
is_number-show (suc n) =
    is_number-lead (show (suc n))
      (lead-digits_below (suc (suc n)) (suc n) [] (omega arith) (omega arith) refl)

-- a text without a mark
unfoldable pub lacks : ℕ → Text → Bool
lacks mark t = all (λ c. not (c == mark)) t

pub split_on-lacks : (mark : ℕ) (t : Text) → lacks mark t ≡ true → split_on mark t ≡ t ∷ []
unfolding split_on lacks all onto_head
split_on-lacks mark [] h = refl
split_on-lacks mark (c ∷ cs) h =
    let (n, k) = and_true (not (c == mark)) (lacks mark cs) h in
    elim (Bool-cases (c == mark)) [
      | inl e ↦ absurd (cc)
      | inr e ↦ rw (e, split_on-lacks mark cs k) refl
    ]

pub split_on-append :
    (mark : ℕ) (t rest : Text)
    → lacks mark t ≡ true
    → split_on mark (t ++ mark ∷ rest) ≡ t ∷ split_on mark rest
unfolding split_on lacks all onto_head
split_on-append mark [] rest h = ground arith
split_on-append mark (c ∷ cs) rest h =
    let (n, k) = and_true (not (c == mark)) (lacks mark cs) h in
    elim (Bool-cases (c == mark)) [
      | inl e ↦ absurd (cc)
      | inr e ↦ rw (e, split_on-append mark cs rest k) refl
    ]

cut_at-lacks : (mark : ℕ) (t : Text) → lacks mark t ≡ true → cut_at mark t ≡ (t, none)
unfolding cut_at lacks all cons_first
cut_at-lacks mark [] h = refl
cut_at-lacks mark (c ∷ cs) h =
    let (n, k) = and_true (not (c == mark)) (lacks mark cs) h in
    elim (Bool-cases (c == mark)) [
      | inl e ↦ absurd (cc)
      | inr e ↦ rw (e, cut_at-lacks mark cs k) refl
    ]

cut_at-append :
    (mark : ℕ) (t rest : Text)
    → lacks mark t ≡ true
    → cut_at mark (t ++ mark ∷ rest) ≡ (t, some rest)
unfolding cut_at lacks all cons_first
cut_at-append mark [] rest h = ground arith
cut_at-append mark (c ∷ cs) rest h =
    let (n, k) = and_true (not (c == mark)) (lacks mark cs) h in
    elim (Bool-cases (c == mark)) [
      | inl e ↦ absurd (cc)
      | inr e ↦ rw (e, cut_at-append mark cs rest k) refl
    ]

pub lacks_of :
    (p : ℕ → Bool) (mark : ℕ) (t : Text) → p mark ≡ false → all p t ≡ true → lacks mark t ≡ true
unfolding lacks all
lacks_of p mark [] n h = refl
lacks_of p mark (c ∷ cs) n h =
    let (pc, rest) = and_true (p c) (all p cs) h in
    let ih = lacks_of p mark cs n rest in
    elim (Bool-cases (c == mark)) [
      | inl e ↦ absurd (false≢true (sym n ∙ subst (λ v. p v ≡ true) (eq_of_beq e) pc))
      | inr e ↦ rw e ih
    ]

all_mono :
    (p q : ℕ → Bool) (t : Text)
    → ((c : ℕ) → p c ≡ true → q c ≡ true)
    → all p t ≡ true
    → all q t ≡ true
unfolding all
all_mono p q [] f h = refl
all_mono p q (c ∷ cs) f h =
    let (pc, rest) = and_true (p c) (all p cs) h in rw (f c pc) (all_mono p q cs f rest)

digits_of-is_number : (t : Text) → is_number t ≡ true → all is_digit t ≡ true
unfolding is_number all
digits_of-is_number [] h = refl
digits_of-is_number (c ∷ []) h = ground arith
digits_of-is_number (c ∷ (d ∷ rest)) h = ground arith

pub chars_of-is_build_id : (t : Text) → is_build_id t ≡ true → all is_identifier_char t ≡ true
unfolding is_build_id
chars_of-is_build_id t h = (and_true (not (t == [])) (all is_identifier_char t) h).1

digit_is_char : (c : ℕ) → is_digit c ≡ true → is_identifier_char c ≡ true
unfolding is_identifier_char
digit_is_char c h = rw h refl

pub chars_of-is_prerelease_id :
    (t : Text) → is_prerelease_id t ≡ true → all is_identifier_char t ≡ true
unfolding is_prerelease_id
chars_of-is_prerelease_id t h = elim (Bool-cases (is_number t)) [
  | inl e ↦ all_mono is_digit is_identifier_char t digit_is_char (digits_of-is_number t e)
  | inr e ↦ chars_of-is_build_id t (and_true (is_build_id t) (not (all is_digit t)) (rw e at h)).0
]

pub digits_of-show : (n : ℕ) → all is_digit (show n) ≡ true
digits_of-show n = digits_of-is_number (show n) (is_number-show n)

-- the text of a part, where it is not left out
unfoldable pub joined : List Text → Option Text
joined [] = none
joined (x ∷ xs) = some (join (text ".") (x ∷ xs))

pub cut_at-suffix :
    (mark : ℕ) (t : Text) (ids : List Text)
    → lacks mark t ≡ true
    → cut_at mark (t ++ suffix_of (mark ∷ []) ids) ≡ (t, joined ids)
unfolding suffix_of joined
cut_at-suffix mark t [] h = rw append-nil (cut_at-lacks mark t h)
cut_at-suffix mark t (x ∷ xs) h = cut_at-append mark t (join (text ".") (x ∷ xs)) h

split_on-join :
    (x : Text) (xs : List Text)
    → all (lacks 46) (x ∷ xs) ≡ true
    → split_on 46 (join (text ".") (x ∷ xs)) ≡ x ∷ xs
unfolding join text all
split_on-join x [] h = split_on-lacks 46 x (and_true (lacks 46 x) true h).0
split_on-join x (y ∷ ys) h =
    let (hx, rest) = and_true (lacks 46 x) (all (lacks 46) (y ∷ ys)) h in
    split_on-append 46 x (join (text ".") (y ∷ ys)) hx ∙ ap (λ l. x ∷ l) (split_on-join y ys rest)

pub identifiers-joined :
    (is_id : Text → Bool) (ids : List Text)
    → all (lacks 46) ids ≡ true
    → all is_id ids ≡ true
    → identifiers is_id (joined ids) ≡ some ids
unfolding identifiers joined
identifiers-joined is_id [] l h = refl
identifiers-joined is_id (x ∷ xs) l h = rw (split_on-join x xs l, h) refl

pub lacks-append :
    (mark : ℕ) (a b : Text) → lacks mark a ≡ true → lacks mark b ≡ true → lacks mark (a ++ b) ≡ true
unfolding lacks
lacks-append mark a b h k = all-append (λ c. not (c == mark)) a b ∙ (rw (h, k) refl)

pub lacks-join :
    (mark : ℕ) (ids : List Text)
    → (46 == mark) ≡ false
    → all (lacks mark) ids ≡ true
    → lacks mark (join (text ".") ids) ≡ true
unfolding join text all lacks
lacks-join mark [] d h = refl
lacks-join mark (x ∷ []) d h = (and_true (lacks mark x) true h).0
lacks-join mark (x ∷ (y ∷ ys)) d h =
    let (hx, rest) = and_true (lacks mark x) (all (lacks mark) (y ∷ ys)) h in
    lacks-append mark x (46 ∷ join (text ".") (y ∷ ys)) hx (rw d (lacks-join mark (y ∷ ys) d rest))
