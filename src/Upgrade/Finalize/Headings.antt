-- ===== src/Upgrade/Finalize/Headings.antt =====
-- The heading of a version's section is one line that ends in a digit.
use lab_charts.Base.{
  ℕ, true, false, [], ◌∷◌, ◌++◌, all, nat_eq, list_eq, ◌≡◌, refl, ap, ◌∙◌, arith, and_true,
  append_assoc, append-nil, Text, text, show, is_space,
}
use lab_charts.Plumbing.Lines.{is_break}
use lab_charts.Plumbing.SemVer.{SemVer, is_digit, is_number, show_version, suffix_of}
use lab_charts.Plumbing.SemVer.RoundTrip.{bare}
use lab_charts.Plumbing.SemVer.Pieces.{digits_of-show, is_number-show}
use lab_charts.Upgrade.Changelog.Entry.{unbroken, unbroken-append, IsHeading}
use lab_charts.Upgrade.Finalize.{heading_of}
use lab_charts.Upgrade.Finalize.Decisions.{IsBare}

-- a text of digits that is not empty has a last one
record IsEnded (t : Text) : Type 0 where
  pub front : Text
  pub last : ℕ
  pub ends : t ≡ front ++ last ∷ []
  pub is_last_digit : is_digit last ≡ true

last_digit : (c : ℕ) (cs : Text) → all is_digit (c ∷ cs) ≡ true → IsEnded (c ∷ cs)
unfolding all
last_digit c [] h = record {
  front = [];
  last = c;
  ends = refl;
  is_last_digit = (and_true (is_digit c) true h).0;
}
last_digit c (d ∷ ds) h =
    let r = last_digit d ds (and_true (is_digit c) (all is_digit (d ∷ ds)) h).1 in
    record {
      front = c ∷ r.front;
      last = r.last;
      ends = ap (λ t. c ∷ t) r.ends;
      is_last_digit = r.is_last_digit;
    }

is_number-IsEnded : (t : Text) → is_number t ≡ true → all is_digit t ≡ true → IsEnded t
unfolding is_number
is_number-IsEnded [] n h = absurd (cc)
is_number-IsEnded (c ∷ cs) n h = last_digit c cs h

digit_is_visible : (c : ℕ) → is_digit c ≡ true → is_space c ≡ false
unfolding is_digit is_space
digit_is_visible c h = ground arith

digit_is_no_break : (x : ℕ) → is_digit x ≡ true → is_break x ≡ false
unfolding is_digit is_break
digit_is_no_break x h = ground arith

digits-unbroken : (t : Text) → all is_digit t ≡ true → unbroken t ≡ true
unfolding all unbroken
digits-unbroken [] h = refl
digits-unbroken (c ∷ cs) h =
    let (d, rest) = and_true (is_digit c) (all is_digit cs) h in
    rw (digit_is_no_break c d) (digits-unbroken cs rest)

bare_text : ℕ → ℕ → Text → Text
bare_text a b last = text "## " ++ (show a ++ (46 ∷ (show b ++ (46 ∷ last))))

heading_of-bare : (a b c : ℕ) → heading_of (bare a b c) ≡ bare_text a b (show c)
unfolding heading_of show_version suffix_of text bare_text
heading_of-bare a b c = simp append-nil

bare_text-append : (a b : ℕ) (x y : Text) → bare_text a b (x ++ y) ≡ bare_text a b x ++ y
unfolding bare_text text
bare_text-append a b x y = simp append_assoc

bare_text-unbroken : (a b : ℕ) (t : Text) → unbroken t ≡ true → unbroken (bare_text a b t) ≡ true
unfolding bare_text text unbroken all is_break
bare_text-unbroken a b t h =
    unbroken-append (show a) _ (digits-unbroken (show a) (digits_of-show a))
      (unbroken-append (show b) _ (digits-unbroken (show b) (digits_of-show b)) h)

bare_text-first : (a b : ℕ) (t : Text) → (r : Text) × (bare_text a b t ≡ 35 ∷ r)
unfolding bare_text text
bare_text-first a b t = (_, refl)

pub heading_of-IsHeading : (v : SemVer) → IsBare v → IsHeading (heading_of v)
heading_of-IsHeading v h =
    let e = is_number-IsEnded (show h.patch) (is_number-show h.patch) (digits_of-show h.patch) in
    let same = ap heading_of h.is ∙ heading_of-bare h.major h.minor h.patch in
    let (r, first) = bare_text-first h.major h.minor (show h.patch) in
    record {
      rest = r;
      first = same ∙ first;
      front = bare_text h.major h.minor e.front;
      last = e.last;
      ends =
          same
          ∙ (ap (bare_text h.major h.minor) e.ends
              ∙ bare_text-append h.major h.minor e.front (e.last ∷ []));
      is_visible = digit_is_visible e.last e.is_last_digit;
      on_one_line =
          ap unbroken same
          ∙ bare_text-unbroken h.major h.minor (show h.patch)
              (digits-unbroken (show h.patch) (digits_of-show h.patch));
    }
