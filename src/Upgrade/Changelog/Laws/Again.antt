-- ===== src/Upgrade/Changelog/Laws/Again.antt =====
-- A section that is written twice.
use lab_charts.Base.{
  ℕ, Bool, true, false, not, ◌&&◌, Option, none, some, List, [], ◌∷◌, ◌++◌, all, nat_eq, list_eq,
  ◌==◌, ◌≡◌, ◌≢◌, refl, sym, ap, subst, ◌∙◌, inl, inr, Bool-cases, append-nil, and_true, Text,
}
use lab_charts.Plumbing.Lines.{is_break}
use lab_charts.Upgrade.Changelog.{
  onto_line, starts_lf, keep_lines, rstrip, is_heading, concat_lines, from_heading, onto_before,
  before_line, drop_line_feeds, replace_section, apply_changelog_entry,
}
use lab_charts.Upgrade.Changelog.Laws.{
  IsChain, keep_lines-IsChain, keep_lines-concat, keep_lines-before, concat-keep_lines,
  tail-IsChain, break_char, inner_char, carriage_return, head-keep_lines,
}

-- no line is the heading
abbrev misses : Text → List Text → Bool
misses heading ls = all (λ l. not (rstrip l == heading)) ls

-- what `before_line` finds: the line, those before it and those after
record IsSplit (heading : Text) (ls before after : List Text) : Type 0 where
  pub line : Text
  pub split : ls ≡ before ++ line ∷ after
  pub first : misses heading before ≡ true

some_pair :
    (a b c d : List Text)
    → ◌≡◌ {A = Option (List Text × List Text)} (some (a, b)) (some (c, d))
    → (a ≡ c) × (b ≡ d)
some_pair a b c d h = (cc, cc)

before_line-IsSplit :
    (heading : Text) (ls before after : List Text)
    → before_line heading ls ≡ some (before, after)
    → IsSplit heading ls before after
unfolding before_line onto_before all
before_line-IsSplit heading [] before after h = absurd (cc)
before_line-IsSplit heading (l ∷ ls) before after h = elim (Bool-cases (rstrip l == heading)) [
  | inl e ↦ at_head (rw e at h)
  | inr e ↦
      further (before_line heading ls) (λ b a q. before_line-IsSplit heading ls b a q) e (rw e at h)
]
  where
    at_head :
        ◌≡◌ {A = Option (List Text × List Text)} (some ([], ls)) (some (before, after))
        → IsSplit heading (l ∷ ls) before after
    at_head q =
        let (p, r) = some_pair [] ls before after q in
        record {
          line = l;
          split = ap (λ x. x ++ l ∷ ls) p ∙ ap (λ x. before ++ l ∷ x) r;
          first = subst (λ x. misses heading x ≡ true) p refl;
        }

    further :
        (o : Option (List Text × List Text))
        → ((b a : List Text) → o ≡ some (b, a) → IsSplit heading ls b a)
        → (rstrip l == heading) ≡ false
        → onto_before l o ≡ some (before, after)
        → IsSplit heading (l ∷ ls) before after
    further none f e q = absurd (cc)
    further (some (b, a)) f e q =
        let (p, r) = some_pair (l ∷ b) a before after q in
        let s = f b a refl in
        record {
          line = s.line;
          split =
              ap (λ x. l ∷ x) s.split
              ∙ (ap (λ x. x ++ s.line ∷ a) p ∙ ap (λ x. before ++ s.line ∷ x) r);
          first = subst (λ x. misses heading x ≡ true) p (rw e s.first);
        }

-- the heading is found where no line before it is the heading
before_line-found :
    (heading line : Text) (before after : List Text)
    → misses heading before ≡ true
    → (rstrip line == heading) ≡ true
    → before_line heading (before ++ line ∷ after) ≡ some (before, after)
unfolding before_line onto_before all
before_line-found heading line [] after m h = rw h refl
before_line-found heading line (l ∷ ls) after m h =
    let (n, k) = and_true (not (rstrip l == heading)) (misses heading ls) m in
    elim (Bool-cases (rstrip l == heading)) [
      | inl e ↦ absurd (cc)
      | inr e ↦ rw (e, before_line-found heading line ls after k h) refl
    ]

abbrev pub no_heading : List Text → Bool
no_heading ls = all (λ l. not (is_heading l)) ls

from_heading-append :
    (body rest : List Text)
    → no_heading body ≡ true
    → from_heading (body ++ rest) ≡ from_heading rest
unfolding from_heading all
from_heading-append [] rest h = refl
from_heading-append (l ∷ ls) rest h =
    let (n, k) = and_true (not (is_heading l)) (no_heading ls) h in
    elim (Bool-cases (is_heading l)) [
      | inl e ↦ absurd (cc)
      | inr e ↦ rw e (from_heading-append ls rest k)
    ]

from_heading-again : (ls : List Text) → from_heading (from_heading ls) ≡ from_heading ls
unfolding from_heading
from_heading-again [] = refl
from_heading-again (l ∷ ls) = elim (Bool-cases (is_heading l)) [
  | inl e ↦ rw e (rw e refl)
  | inr e ↦ rw e (from_heading-again ls)
]

from_heading-IsChain : (ls : List Text) → IsChain ls → IsChain (from_heading ls)
unfolding from_heading
from_heading-IsChain [] h = h
from_heading-IsChain (l ∷ ls) h = elim (Bool-cases (is_heading l)) [
  | inl e ↦ rw e h
  | inr e ↦ rw e (from_heading-IsChain ls (tail-IsChain l ls h))
]

after-IsChain :
    (before : List Text) (line : Text) (after : List Text)
    → IsChain (before ++ line ∷ after)
    → IsChain after
after-IsChain [] line after h = tail-IsChain line after h
after-IsChain (l ∷ ls) line after h =
    after-IsChain ls line after (tail-IsChain l (ls ++ line ∷ after) h)

onto_line-append :
    (c : ℕ) (xs ys : List Text) → xs ≢ [] → onto_line c (xs ++ ys) ≡ onto_line c xs ++ ys
unfolding onto_line
onto_line-append c [] ys h = absurd (h refl)
onto_line-append c (x ∷ xs) ys h = refl

cons-ne-nil : {l : Text} {ls : List Text} → (l ∷ ls) ≢ []
cons-ne-nil h = cc

step_ended :
    (c : ℕ) (t rest : Text)
    → starts_lf (t ++ rest) ≡ starts_lf t
    → keep_lines t ≢ []
    → keep_lines (t ++ rest) ≡ keep_lines t ++ keep_lines rest
    → keep_lines (c ∷ (t ++ rest)) ≡ keep_lines (c ∷ t) ++ keep_lines rest
step_ended c t rest s n ih = elim (Bool-cases (is_break c)) [
  | inl b ↦ elim (Bool-cases (c == 13 && starts_lf t)) [
    | inl e ↦
        carriage_return c (t ++ rest) (ap (λ x. c == 13 && x) s ∙ e)
        ∙ (joined ∙ sym (ap (λ k. k ++ keep_lines rest) (carriage_return c t e)))
    | inr e ↦
        break_char c (t ++ rest) b (ap (λ x. c == 13 && x) s ∙ e)
        ∙ (ap (λ k. (c ∷ []) ∷ k) ih ∙ sym (ap (λ k. k ++ keep_lines rest) (break_char c t b e)))
  ]
  | inr b ↦
      inner_char c (t ++ rest) b
      ∙ (joined ∙ sym (ap (λ k. k ++ keep_lines rest) (inner_char c t b)))
]
  where
    joined : onto_line c (keep_lines (t ++ rest)) ≡ onto_line c (keep_lines t) ++ keep_lines rest
    joined = ap (onto_line c) ih ∙ onto_line-append c (keep_lines t) (keep_lines rest) n

starts_lf-ended : (t rest : Text) → starts_lf ((t ++ 10 ∷ []) ++ rest) ≡ starts_lf (t ++ 10 ∷ [])
unfolding starts_lf
starts_lf-ended [] rest = refl
starts_lf-ended (c ∷ cs) rest = refl

keep_lines-ne-nil : (t : Text) → keep_lines (t ++ 10 ∷ []) ≢ []
keep_lines-ne-nil [] = nonempty 10 []
  where
    nonempty : (d : ℕ) (ds : Text) → keep_lines (d ∷ ds) ≢ []
    nonempty d ds h = let (l, ls, q) = head-keep_lines d ds in absurd (cons-ne-nil (sym q ∙ h))
keep_lines-ne-nil (c ∷ cs) =
    λ h. let (l, ls, q) = head-keep_lines c (cs ++ 10 ∷ []) in absurd (cons-ne-nil (sym q ∙ h))

-- text after a line feed starts a line
keep_lines-ended :
    (t rest : Text)
    → keep_lines ((t ++ 10 ∷ []) ++ rest) ≡ keep_lines (t ++ 10 ∷ []) ++ keep_lines rest
unfolding is_break keep_lines
keep_lines-ended [] rest = refl
keep_lines-ended (c ∷ cs) rest = continue (keep_lines-ended cs rest)
  where
    continue :
        keep_lines ((cs ++ 10 ∷ []) ++ rest) ≡ keep_lines (cs ++ 10 ∷ []) ++ keep_lines rest
        → keep_lines (c ∷ ((cs ++ 10 ∷ []) ++ rest))
          ≡ keep_lines (c ∷ (cs ++ 10 ∷ [])) ++ keep_lines rest
    continue ih =
        step_ended c (cs ++ 10 ∷ []) rest (starts_lf-ended cs rest) (keep_lines-ne-nil cs) ih

-- an entry: its first line is the heading, no other line is one, and it ends with a line feed
pub record IsEntry (heading entry : Text) : Type 0 where
  pub line : Text
  pub body : List Text
  pub lines : keep_lines entry ≡ line ∷ body
  pub is_titled : (rstrip line == heading) ≡ true
  pub is_one_section : no_heading body ≡ true
  pub text : Text
  pub ended : entry ≡ text ++ 10 ∷ []
  pub starts : (rest : Text) → starts_lf (entry ++ rest) ≡ false

module _ (heading entry : Text) (w : IsEntry heading entry) where
  keep_lines-entry :
      (rest : Text) → keep_lines (entry ++ rest) ≡ w.line ∷ (w.body ++ keep_lines rest)
  keep_lines-entry rest =
      ap (λ t. keep_lines (t ++ rest)) w.ended
      ∙ (keep_lines-ended w.text rest
          ∙ ap (λ k. k ++ keep_lines rest) (ap keep_lines (sym w.ended) ∙ w.lines))

  -- a text in which the section stands already
  section_again :
      (before tail : List Text)
      → misses heading before ≡ true
      → from_heading tail ≡ tail
      → IsChain tail
      → keep_lines (concat_lines before ++ (entry ++ concat_lines tail))
        ≡ before ++ keep_lines (entry ++ concat_lines tail)
      → apply_changelog_entry (concat_lines before ++ (entry ++ concat_lines tail)) heading entry
        ≡ concat_lines before ++ (entry ++ concat_lines tail)
  unfolding apply_changelog_entry replace_section
  section_again before tail m f c k =
      rw
        (
          k,
          keep_lines-entry (concat_lines tail),
          keep_lines-concat tail c,
          before_line-found heading w.line before (w.body ++ tail) m w.is_titled,
          from_heading-append w.body tail w.is_one_section,
          f,
        )
        refl

  replaced_again :
      (old : Text) (found : Option (List Text × List Text))
      → before_line heading (keep_lines old) ≡ found
      → (found ≡ none
          → from_heading (keep_lines (drop_line_feeds old)) ≡ keep_lines (drop_line_feeds old))
      → apply_changelog_entry (replace_section old entry found) heading entry
        ≡ replace_section old entry found
  unfolding replace_section all IsChain
  replaced_again old none e h = elim (Bool-cases (old == [])) [
    | inl z ↦ rw z (
        subst (λ t. apply_changelog_entry t heading entry ≡ t) (append-nil entry)
          (section_again [] [] refl refl tt refl))
    | inr z ↦ rw z (
        let k = concat-keep_lines (drop_line_feeds old) in
        subst (λ t. apply_changelog_entry (entry ++ t) heading entry ≡ entry ++ t) k
          (section_again [] (keep_lines (drop_line_feeds old)) refl (h refl)
            (keep_lines-IsChain (drop_line_feeds old)) refl))
  ]
  replaced_again old (some (before, after)) e h =
      let s = before_line-IsSplit heading (keep_lines old) before after e in
      let chain = subst IsChain s.split (keep_lines-IsChain old) in
      let tail = from_heading after in
      section_again before tail s.first (from_heading-again after)
        (from_heading-IsChain after (after-IsChain before s.line after chain))
        (keep_lines-before before s.line after (entry ++ concat_lines tail) chain
          (w.starts (concat_lines tail)))

  -- Writing the section of a version a second time changes nothing, where the changelog has that
  -- section already or holds nothing but sections.
  pub apply_changelog_entry-again :
      (old : Text)
      → (before_line heading (keep_lines old) ≡ none
          → from_heading (keep_lines (drop_line_feeds old)) ≡ keep_lines (drop_line_feeds old))
      → apply_changelog_entry (apply_changelog_entry old heading entry) heading entry
        ≡ apply_changelog_entry old heading entry
  unfolding apply_changelog_entry
  apply_changelog_entry-again old h =
      replaced_again old (before_line heading (keep_lines old)) refl h
