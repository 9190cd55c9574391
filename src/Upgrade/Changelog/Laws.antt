-- ===== src/Upgrade/Changelog/Laws.antt =====
-- The lines of a text that is put together from lines.
pub mod Again
use lab_charts.Base.{
  ℕ, suc, Bool, true, false, not, ◌&&◌, ◌||◌, Option, none, some, List, [], ◌∷◌, ◌++◌, all, nat_eq,
  list_eq, ◌==◌, ◌≡◌, ◌≢◌, refl, sym, ap, subst, ◌∙◌, ◌⊎◌, inl, inr, arith, Bool-cases,
  append_assoc, append-nil, and_true, eq_of_beq, if◌then◌else◌, Text, text,
}
use lab_charts.Plumbing.Lines.{is_break}
use lab_charts.Upgrade.Changelog.{
  onto_line, starts_lf, keep_lines, rstrip, is_heading, concat_lines, from_heading, onto_before,
  before_line, drop_line_feeds, replace_section, apply_changelog_entry,
}

-- a line with its break
pub is_line : Text → Bool
is_line [] = false
is_line (c ∷ []) = is_break c
is_line (c ∷ (d ∷ [])) = if is_break c then c == 13 && d == 10 else is_break d
is_line (c ∷ (d ∷ (x ∷ xs))) = not (is_break c) && is_line (d ∷ (x ∷ xs))

ends_cr : Text → Bool
ends_cr [] = false
ends_cr (c ∷ []) = c == 13
ends_cr (c ∷ (d ∷ cs)) = ends_cr (d ∷ cs)

-- the break of a line is not the first half of another one
pub parted : Text → Text → Bool
parted l rest = not (ends_cr l && starts_lf rest)

pub inner_char :
    (c : ℕ) (cs : Text) → is_break c ≡ false → keep_lines (c ∷ cs) ≡ onto_line c (keep_lines cs)
unfolding keep_lines
inner_char c cs h = rw h refl

pub break_char :
    (c : ℕ) (cs : Text)
    → is_break c ≡ true
    → (c == 13 && starts_lf cs) ≡ false
    → keep_lines (c ∷ cs) ≡ (c ∷ []) ∷ keep_lines cs
unfolding keep_lines
break_char c cs h k = rw (h, k) refl

pub carriage_return :
    (c : ℕ) (cs : Text)
    → (c == 13 && starts_lf cs) ≡ true
    → keep_lines (c ∷ cs) ≡ onto_line c (keep_lines cs)
unfolding keep_lines
carriage_return c cs k = elim (Bool-cases (is_break c)) [
  | inl e ↦ rw (e, k) refl
  | inr e ↦ rw e refl
]

break_of_lf : (d : ℕ) → (d == 10) ≡ true → is_break d ≡ true
unfolding is_break
break_of_lf d h = ground arith

no_cr_of_lf : (d : ℕ) (b : Bool) → (d == 10) ≡ true → (d == 13 && b) ≡ false
no_cr_of_lf d b h = ground arith

not-true : (b : Bool) → not b ≡ true → b ≡ false
not-true b h = ground arith

keep_lines-line :
    (l rest : Text)
    → is_line l ≡ true
    → parted l rest ≡ true
    → keep_lines (l ++ rest) ≡ l ∷ keep_lines rest
unfolding is_line ends_cr parted onto_line starts_lf
keep_lines-line [] rest h p = absurd (cc)
keep_lines-line (c ∷ []) rest h p = break_char c rest h (not-true (c == 13 && starts_lf rest) p)
keep_lines-line (c ∷ (d ∷ [])) rest h p = elim (Bool-cases (is_break c)) [
  | inl e ↦
      let both : (c == 13 && d == 10) ≡ true = rw e at h in
      let (cr, lf) = and_true (c == 13) (d == 10) both in
      carriage_return c (d ∷ rest) both
      ∙ ap (onto_line c) (break_char d rest (break_of_lf d lf) (no_cr_of_lf d (starts_lf rest) lf))
  | inr e ↦
      inner_char c (d ∷ rest) e
      ∙ ap (onto_line c) (break_char d rest (rw e at h) (not-true (d == 13 && starts_lf rest) p))
]
keep_lines-line (c ∷ (d ∷ (x ∷ xs))) rest h p =
    let (n, k) = and_true (not (is_break c)) (is_line (d ∷ (x ∷ xs))) h in
    inner_char c (d ∷ (x ∷ (xs ++ rest))) (not-true (is_break c) n)
    ∙ ap (onto_line c) (keep_lines-line (d ∷ (x ∷ xs)) rest k p)

concat-onto_line : (c : ℕ) (ls : List Text) → concat_lines (onto_line c ls) ≡ c ∷ concat_lines ls
unfolding concat_lines onto_line
concat-onto_line c [] = refl
concat-onto_line c (l ∷ ls) = refl

pub concat-keep_lines : (t : Text) → concat_lines (keep_lines t) ≡ t
unfolding concat_lines keep_lines
concat-keep_lines [] = refl
concat-keep_lines (c ∷ cs) = elim (Bool-cases (is_break c && not (c == 13 && starts_lf cs))) [
  | inl e ↦ rw e (ap (λ x. c ∷ x) (concat-keep_lines cs))
  | inr e ↦ rw e (concat-onto_line c (keep_lines cs) ∙ ap (λ x. c ∷ x) (concat-keep_lines cs))
]

-- lines each of which ends where the next one starts
pub IsChain : List Text → Type 0
IsChain [] = Unit
IsChain (l ∷ []) = keep_lines l ≡ l ∷ []
IsChain (l ∷ (m ∷ ls)) = (is_line l ≡ true) × (parted l m ≡ true) × IsChain (m ∷ ls)

onto_line-IsChain :
    (c : ℕ) (ls : List Text) → is_break c ≡ false → IsChain ls → IsChain (onto_line c ls)
unfolding IsChain onto_line is_line ends_cr parted keep_lines
onto_line-IsChain c [] e h = inner_char c [] e
onto_line-IsChain c (l ∷ []) e h = inner_char c l e ∙ ap (onto_line c) h
onto_line-IsChain c ([] ∷ (m ∷ ls)) e h = let z : false ≡ true = h.0 in absurd (cc)
onto_line-IsChain c ((d ∷ []) ∷ (m ∷ ls)) e h = (rw e h.0, h.1, h.2)
onto_line-IsChain c ((d ∷ (x ∷ xs)) ∷ (m ∷ ls)) e h = (rw e h.0, h.1, h.2)

cr-IsChain :
    (c d : ℕ) (ls : List Text)
    → is_break c ≡ true
    → (c == 13 && d == 10) ≡ true
    → IsChain ((d ∷ []) ∷ ls)
    → IsChain ((c ∷ (d ∷ [])) ∷ ls)
unfolding IsChain is_line ends_cr parted onto_line starts_lf
cr-IsChain c d [] b e h = carriage_return c (d ∷ []) e ∙ ap (onto_line c) h
cr-IsChain c d (m ∷ ls) b e h = (rw b e, h.1, h.2)

-- the first line starts as the text does
pub head-keep_lines :
    (d : ℕ) (ds : Text) → (l : Text) × (ls : List Text) × (keep_lines (d ∷ ds) ≡ (d ∷ l) ∷ ls)
unfolding keep_lines
head-keep_lines d ds = elim (Bool-cases (is_break d && not (d == 13 && starts_lf ds))) [
  | inl e ↦ ([], keep_lines ds, rw e refl)
  | inr e ↦ let (l, ls, q) = onto (keep_lines ds) in (l, ls, rw e q)
]
  where
    onto : (ls : List Text) → (l : Text) × (r : List Text) × (onto_line d ls ≡ (d ∷ l) ∷ r)
    onto [] = ([], [], refl)
    onto (l ∷ ls) = (l, ls, refl)

break-IsChain :
    (c : ℕ) (cs : Text)
    → is_break c ≡ true
    → (c == 13 && starts_lf cs) ≡ false
    → IsChain (keep_lines cs)
    → IsChain ((c ∷ []) ∷ keep_lines cs)
unfolding IsChain is_line ends_cr parted keep_lines starts_lf
break-IsChain c [] b e h = break_char c [] b e
break-IsChain c (d ∷ ds) b e h =
    let (l, ls, q) = head-keep_lines d ds in
    subst (λ k. IsChain ((c ∷ []) ∷ k)) (sym q) (b, rw e refl, subst IsChain q h)

crlf-IsChain :
    (c : ℕ) (cs : Text)
    → is_break c ≡ true
    → (c == 13 && starts_lf cs) ≡ true
    → IsChain (keep_lines cs)
    → IsChain (onto_line c (keep_lines cs))
unfolding starts_lf onto_line
crlf-IsChain c [] b e h = let z = (and_true (c == 13) false e).1 in absurd (cc)
crlf-IsChain c (d ∷ ds) b e h =
    let (cr, lf) = and_true (c == 13) (d == 10) e in
    let q = break_char d ds (break_of_lf d lf) (no_cr_of_lf d (starts_lf ds) lf) in
    subst (λ k. IsChain (onto_line c k)) (sym q)
      (cr-IsChain c d (keep_lines ds) b e (subst IsChain q h))

pub keep_lines-IsChain : (t : Text) → IsChain (keep_lines t)
unfolding IsChain keep_lines
keep_lines-IsChain [] = tt
keep_lines-IsChain (c ∷ cs) = elim (Bool-cases (is_break c)) [
  | inl b ↦ elim (Bool-cases (c == 13 && starts_lf cs)) [
    | inl e ↦
        subst IsChain (sym (carriage_return c cs e)) (crlf-IsChain c cs b e (keep_lines-IsChain cs))
    | inr e ↦
        subst IsChain (sym (break_char c cs b e)) (break-IsChain c cs b e (keep_lines-IsChain cs))
  ]
  | inr b ↦
      subst IsChain (sym (inner_char c cs b))
        (onto_line-IsChain c (keep_lines cs) b (keep_lines-IsChain cs))
]

-- a line of a chain is not empty
starts-IsChain :
    (m : Text) (ls : List Text) (rest : Text)
    → IsChain (m ∷ ls)
    → starts_lf (m ++ rest) ≡ starts_lf m
unfolding IsChain is_line keep_lines starts_lf
starts-IsChain (c ∷ cs) ls rest h = refl
starts-IsChain [] [] rest h = cc
starts-IsChain [] (l ∷ ls) rest h = let z : false ≡ true = h.0 in absurd (cc)

pub tail-IsChain : (l : Text) (ls : List Text) → IsChain (l ∷ ls) → IsChain ls
unfolding IsChain
tail-IsChain l [] h = tt
tail-IsChain l (m ∷ ls) h = h.2

pub keep_lines-concat : (ls : List Text) → IsChain ls → keep_lines (concat_lines ls) ≡ ls
unfolding concat_lines IsChain parted keep_lines
keep_lines-concat [] h = refl
keep_lines-concat (l ∷ []) h = ap keep_lines (append-nil l) ∙ h
keep_lines-concat (l ∷ (m ∷ ls)) h =
    keep_lines-line l (m ++ concat_lines ls) h.0
      (ap (λ b. not (ends_cr l && b)) (starts-IsChain m ls (concat_lines ls) h.2) ∙ h.1)
    ∙ ap (λ k. l ∷ k) (keep_lines-concat (m ∷ ls) h.2)

-- other text in place of what follows some lines
pub keep_lines-before :
    (before : List Text) (m : Text) (after : List Text) (rest : Text)
    → IsChain (before ++ m ∷ after)
    → starts_lf rest ≡ false
    → keep_lines (concat_lines before ++ rest) ≡ before ++ keep_lines rest
unfolding concat_lines IsChain parted
keep_lines-before [] m after rest h s = refl
keep_lines-before (l ∷ []) m after rest h s =
    ap (λ t. keep_lines (t ++ rest)) (append-nil l)
    ∙ keep_lines-line l rest h.0 (rw s (ground arith))
keep_lines-before (l ∷ (k ∷ ls)) m after rest h s =
    ap keep_lines (append_assoc l (concat_lines (k ∷ ls)) rest)
    ∙ keep_lines-line l (concat_lines (k ∷ ls) ++ rest) h.0 (
        ap (λ b. not (ends_cr l && b))
          (ap starts_lf (append_assoc k (concat_lines ls) rest)
            ∙ starts-IsChain k (ls ++ m ∷ after) (concat_lines ls ++ rest) h.2)
        ∙ h.1)
    ∙ ap (λ x. l ∷ x) (keep_lines-before (k ∷ ls) m after rest h.2 s)
