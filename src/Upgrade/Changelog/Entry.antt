-- ===== src/Upgrade/Changelog/Entry.antt =====
-- The entry that is written for a version is one section.
use lab_charts.Base.{
  ℕ, Bool, true, false, not, ◌&&◌, List, [], ◌∷◌, ◌++◌, all, all-append, map, nat_eq, list_eq, ◌≡◌,
  refl, sym, ap, ◌∙◌, arith, append_assoc, and_true, Text, text, join, Every-sorted, is_space,
  Every,
}
use lab_charts.Plumbing.Lines.{is_break}
use lab_charts.Upgrade.Models.{UpdateMetadata}
use lab_charts.Upgrade.Changelog.{
  onto_line, starts_lf, keep_lines, rstrip, drop_spaces, is_heading, update_line, changelog_entry,
}
use lab_charts.Upgrade.Changelog.Laws.{break_char, inner_char}
use lab_charts.Upgrade.Changelog.Laws.Again.{IsEntry, no_heading}
use mathlib.Core.List.{reverse, reverse-append, reverse-cons, reverse-reverse}

-- a text on one line
unfoldable pub unbroken : Text → Bool
unbroken t = all (λ c. not (is_break c)) t

-- a line with its line feed
abbrev fed : Text → Text
fed l = l ++ 10 ∷ []

keep_lines-fed :
    (l rest : Text) → unbroken l ≡ true → keep_lines (l ++ 10 ∷ rest) ≡ fed l ∷ keep_lines rest
unfolding unbroken all is_break onto_line
keep_lines-fed [] rest h = break_char 10 rest refl refl
keep_lines-fed (c ∷ cs) rest h =
    let (n, k) = and_true (not (is_break c)) (unbroken cs) h in
    inner_char c (cs ++ 10 ∷ rest) (no_break c n) ∙ ap (onto_line c) (keep_lines-fed cs rest k)
  where
    no_break : (c : ℕ) → not (is_break c) ≡ true → is_break c ≡ false
    no_break c n = ground arith

keep_lines-join :
    (l : Text) (ls : List Text) (rest : Text)
    → all unbroken (l ∷ ls) ≡ true
    → keep_lines (join (text "\n") (l ∷ ls) ++ 10 ∷ rest) ≡ map fed (l ∷ ls) ++ keep_lines rest
unfolding all join text
keep_lines-join l [] rest h = keep_lines-fed l rest (and_true (unbroken l) true h).0
keep_lines-join l (m ∷ ms) rest h =
    let (n, k) = and_true (unbroken l) (all unbroken (m ∷ ms)) h in
    ap keep_lines (append_assoc l (10 ∷ join (text "\n") (m ∷ ms)) (10 ∷ rest))
    ∙ (keep_lines-fed l (join (text "\n") (m ∷ ms) ++ 10 ∷ rest) n
        ∙ ap (λ x. fed l ∷ x) (keep_lines-join m ms rest k))

rstrip-fed :
    (t : Text) (c : ℕ) → is_space c ≡ false → rstrip ((t ++ c ∷ []) ++ 10 ∷ []) ≡ t ++ c ∷ []
unfolding rstrip drop_spaces is_space
rstrip-fed t c h =
    ap (λ x. reverse (drop_spaces x)) (reverse-append (t ++ c ∷ []) (10 ∷ []))
    ∙ (ap (λ x. reverse (drop_spaces x)) (reverse-append t (c ∷ [])) ∙ last_kept)
  where
    last_kept : reverse (drop_spaces (c ∷ reverse t)) ≡ t ++ c ∷ []
    last_kept = rw h (reverse-cons c (reverse t) ∙ ap (λ x. x ++ c ∷ []) (reverse-reverse t))

-- a heading: on one line, it starts with a number sign and ends with no space
pub record IsHeading (heading : Text) : Type 0 where
  pub rest : Text
  pub first : heading ≡ 35 ∷ rest
  pub front : Text
  pub last : ℕ
  pub ends : heading ≡ front ++ last ∷ []
  pub is_visible : is_space last ≡ false
  pub on_one_line : unbroken heading ≡ true

-- an update whose texts hold no line break
unfoldable pub is_plain : UpdateMetadata → Bool
is_plain u = unbroken u.dependency && (unbroken u.current_version && unbroken u.new_version)

pub unbroken-append :
    (a b : Text) → unbroken a ≡ true → unbroken b ≡ true → unbroken (a ++ b) ≡ true
unfolding unbroken
unbroken-append a b h k = all-append (λ c. not (is_break c)) a b ∙ (rw (h, k) refl)

update_line-unbroken : (u : UpdateMetadata) → is_plain u ≡ true → unbroken (update_line u) ≡ true
unfolding is_plain update_line text unbroken all is_break
update_line-unbroken u h =
    let (d, r) = and_true (unbroken u.dependency) _ h in
    let (c, n) = and_true (unbroken u.current_version) (unbroken u.new_version) r in
    unbroken-append u.dependency _ d (unbroken-append u.current_version _ c n)

each-unbroken :
    (updates : List UpdateMetadata)
    → Every (λ u. is_plain u ≡ true) updates
    → all unbroken (map update_line updates) ≡ true
unfolding all
each-unbroken [] h = refl
each-unbroken (u ∷ us) h = rw (update_line-unbroken u h.0) (each-unbroken us h.1)

dash_is_no_heading : (t : Text) → is_heading (45 ∷ t) ≡ false
unfolding is_heading
dash_is_no_heading [] = refl
dash_is_no_heading (b ∷ []) = refl
dash_is_no_heading (b ∷ (c ∷ t)) = refl

lines_no_heading :
    (updates : List UpdateMetadata) → no_heading (map fed (map update_line updates)) ≡ true
unfolding all update_line text
lines_no_heading [] = refl
lines_no_heading (u ∷ us) = rw (dash_is_no_heading _) (lines_no_heading us)

all-unbroken :
    (heading : Text) (updates : List UpdateMetadata)
    → unbroken heading ≡ true
    → all unbroken (map update_line updates) ≡ true
    → all unbroken (heading ∷ ([] ∷ map update_line updates)) ≡ true
unfolding all unbroken
all-unbroken heading updates h k = rw (h, k) refl

body_no_heading :
    (updates : List UpdateMetadata)
    → no_heading (map fed ([] ∷ map update_line updates) ++ keep_lines (10 ∷ [])) ≡ true
unfolding all is_heading keep_lines is_break
body_no_heading updates =
    all-append (λ l. not (is_heading l)) (map fed (map update_line updates)) ((10 ∷ []) ∷ [])
    ∙ (rw (lines_no_heading updates) refl)

joined_starts :
    (heading more : Text) (ls : List Text) (rest : Text)
    → heading ≡ 35 ∷ more
    → starts_lf ((join (text "\n") (heading ∷ ls) ++ text "\n\n") ++ rest) ≡ false
unfolding join starts_lf
joined_starts heading more [] rest h = ap (λ t. starts_lf ((t ++ text "\n\n") ++ rest)) h
joined_starts heading more (l ∷ ls) rest h =
    ap (λ t. starts_lf (((t ++ (text "\n" ++ join (text "\n") (l ∷ ls))) ++ text "\n\n") ++ rest)) h

-- the entry over update lines that are sorted already
join-IsEntry :
    (heading : Text) (updates : List UpdateMetadata)
    → IsHeading heading
    → Every (λ u. is_plain u ≡ true) updates
    → IsEntry heading (join (text "\n") (heading ∷ ([] ∷ map update_line updates)) ++ text "\n\n")
unfolding text
join-IsEntry heading updates h plain = record {
  line = fed heading;
  body = map fed ([] ∷ map update_line updates) ++ keep_lines (10 ∷ []);
  lines = keep_lines-join heading ([] ∷ map update_line updates) (10 ∷ []) broken_nowhere;
  is_titled = (list_eq.reflects (rstrip (fed heading)) heading).1 titled;
  is_one_section = one_section;
  text = join (text "\n") (heading ∷ ([] ∷ map update_line updates)) ++ 10 ∷ [];
  ended = sym (
      append_assoc (join (text "\n") (heading ∷ ([] ∷ map update_line updates))) (10 ∷ [])
        (10 ∷ []));
  starts = λ rest. starts_so rest;
}
  where
    broken_nowhere : all unbroken (heading ∷ ([] ∷ map update_line updates)) ≡ true
    broken_nowhere = all-unbroken heading updates h.on_one_line (each-unbroken updates plain)

    titled : rstrip (fed heading) ≡ heading
    titled = ap (λ t. rstrip (fed t)) h.ends ∙ (rstrip-fed h.front h.last h.is_visible ∙ sym h.ends)

    one_section : no_heading (map fed ([] ∷ map update_line updates) ++ keep_lines (10 ∷ [])) ≡ true
    one_section = body_no_heading updates

    starts_so :
        (rest : Text)
        → starts_lf
            ((join (text "\n") (heading ∷ ([] ∷ map update_line updates)) ++ text "\n\n") ++ rest)
          ≡ false
    starts_so rest = joined_starts heading h.rest ([] ∷ map update_line updates) rest h.first

-- The entry of a version is one section: a heading and lines none of which is a heading.
pub changelog_entry-IsEntry :
    (heading : Text) (updates : List UpdateMetadata)
    → IsHeading heading
    → Every (λ u. is_plain u ≡ true) updates
    → IsEntry heading (changelog_entry heading updates)
unfolding changelog_entry
changelog_entry-IsEntry heading updates h plain =
    join-IsEntry heading _ h (Every-sorted _ (λ u. is_plain u ≡ true) updates plain)
