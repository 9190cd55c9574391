-- ===== src/Events/Ref/RoundTrip.antt =====
-- Printing and parsing of a chart reference (shared/events/ref.py).
use lab_charts.Base.{
  ℕ, Bool, true, false, not, ◌&&◌, ◌||◌, Option, none, some, List, [], ◌∷◌, ◌++◌, any, nat_eq,
  list_eq, list_beq, ◌==◌, contains, ◌≡◌, ◌≢◌, refl, sym, ap, ◌∙◌, arith, eq_of_beq, Bool-cases,
  Text, is_space, lstrip, strip, beq_comm, if◌then◌else◌, text, ◌⊎◌, inl, inr,
}
use mathlib.Core.List.{reverse, reverse_aux}
use lab_charts.Events.Model.{PromotionPhase, Links, correlation, compose_promote}
use lab_charts.Events.Ref.{
  ChartRefError, no_chart, Parsed, parsed, rejected, separator, ChartRef, ChartSelector, validate,
  make_ref, show_ref, make_selector, on_first, split, select_parts, parse_selector, with_version,
  parse_ref,
}

-- what a component of a reference must be
abbrev pub fits : Text → Bool
fits value = not (value == []) && (not (contains value separator) && not (any is_space value))

make_ref-fits :
    (n v : Text) (r : ChartRef)
    → make_ref n v ≡ parsed r
    → (fits n ≡ true) × (fits v ≡ true) × (r ≡ record { name = n; version = v })
unfolding make_ref validate
make_ref-fits n v r h = (ground arith, ground arith, ground arith)

or_false : (a b : Bool) → (a || b) ≡ false → (a ≡ false) × (b ≡ false)
or_false a b h = ground arith

any-append : (p : ℕ → Bool) (xs ys : Text) → any p (xs ++ ys) ≡ (any p xs || any p ys)
unfolding any
any-append p [] ys = refl
any-append p (x ∷ xs) ys = ground (arith, any-append p xs ys)

lstrip_same : (t : Text) → any is_space t ≡ false → lstrip t ≡ t
unfolding lstrip any
lstrip_same [] h = refl
lstrip_same (c ∷ cs) h = ground arith

head_differs :
    (c : ℕ) (cs : Text)
    → contains (c ∷ cs) separator ≡ false
    → ((c == separator) ≡ false) × (contains cs separator ≡ false)
unfolding contains
head_differs c cs h = (beq_comm c separator ∙ (or_false _ _ h).0, (or_false _ _ h).1)

split_whole : (v : Text) → contains v separator ≡ false → split v ≡ v ∷ []
unfolding split on_first
split_whole [] h = refl
split_whole (c ∷ cs) h = let (other, rest) = head_differs c cs h in rw (other, split_whole cs rest)

split_two :
    (n v : Text)
    → contains n separator ≡ false
    → contains v separator ≡ false
    → split (n ++ (separator ∷ v)) ≡ n ∷ v ∷ []
unfolding split on_first
split_two [] v h k = rw (split_whole v k)
split_two (c ∷ cs) v h k =
    let (other, rest) = head_differs c cs h in rw (other, split_two cs v rest k)

any-reverse_aux :
    (p : ℕ → Bool) (xs acc : Text) → any p (reverse_aux xs acc) ≡ (any p xs || any p acc)
unfolding any
any-reverse_aux p [] acc = refl
any-reverse_aux p (x ∷ xs) acc = ground (arith, any-reverse_aux p xs (x ∷ acc))

reverse_aux-reverse_aux : (xs acc : Text) → reverse (reverse_aux xs acc) ≡ reverse_aux acc xs
reverse_aux-reverse_aux [] acc = refl
reverse_aux-reverse_aux (x ∷ xs) acc = reverse_aux-reverse_aux xs (x ∷ acc)

strip_same : (t : Text) → any is_space t ≡ false → strip t ≡ t
unfolding strip any
strip_same t h =
    ap (λ x. reverse (lstrip (reverse x))) (lstrip_same t h)
    ∙ ap reverse (lstrip_same (reverse t) (any-reverse_aux is_space t [] ∙ rw h))
    ∙ reverse_aux-reverse_aux t []

-- what a fitting component gives
fits_parts :
    (t : Text)
    → fits t ≡ true
    → ((t == []) ≡ false) × (contains t separator ≡ false) × (any is_space t ≡ false)
fits_parts t h = (ground arith, ground arith, ground arith)

validate-fits : (t : Text) → fits t ≡ true → validate t ≡ parsed tt
unfolding validate
validate-fits t h = let (a, b, c) = fits_parts t h in rw (a, b, c)

ref_made :
    (n v : Text)
    → fits n ≡ true
    → fits v ≡ true
    → make_ref n v ≡ parsed (record { name = n; version = v })
unfolding make_ref
ref_made n v h k = rw (validate-fits n h, validate-fits v k)

nonempty-append : (n rest : Text) → (n == []) ≡ false → ((n ++ rest) == []) ≡ false
unfolding list_beq
nonempty-append [] rest h = cc
nonempty-append (c ∷ cs) rest h = refl

token_whole :
    (n v : Text)
    → any is_space n ≡ false
    → any is_space v ≡ false
    → strip (n ++ (separator ∷ v)) ≡ n ++ (separator ∷ v)
unfolding any is_space
token_whole n v h k =
    strip_same (n ++ (separator ∷ v)) (any-append is_space n (separator ∷ v) ∙ rw (h, k))

parse_selector-fits :
    (n v : Text)
    → fits n ≡ true
    → fits v ≡ true
    → parse_selector (n ++ (separator ∷ v)) ≡ parsed (record { name = n; version = some v })
unfolding parse_selector select_parts make_selector
parse_selector-fits n v h k =
    let (ne, ns, nw) = fits_parts n h in
    let (ve, vs, vw) = fits_parts v k in
    rw (
      token_whole n v nw vw,
      nonempty-append n (separator ∷ v) ne,
      split_two n v ns vs,
      strip_same n nw,
      strip_same v vw,
      ne,
      ns,
      nw,
      ve,
      vs,
      vw,
    )

parse_ref-fits :
    (n v : Text)
    → fits n ≡ true
    → fits v ≡ true
    → parse_ref (n ++ (separator ∷ v)) ≡ parsed (record { name = n; version = v })
unfolding parse_ref with_version
parse_ref-fits n v h k = rw (parse_selector-fits n v h k, ref_made n v h k)

-- Every reference that can be built is read back from its own text.
pub parse_ref-show_ref :
    (name version : Text) (r : ChartRef)
    → make_ref name version ≡ parsed r
    → parse_ref (show_ref r) ≡ parsed r
unfolding show_ref
parse_ref-show_ref name version r h =
    let (n, v, same) = make_ref-fits name version r h in rw same (parse_ref-fits name version n v)

parsed_cases :
    {A : Type 0} (m : Parsed A)
    → ((a : A) × (m ≡ parsed a)) ⊎ ((x : ChartRefError) × (m ≡ rejected x))
parsed_cases (parsed a) = inl (a, refl)
parsed_cases (rejected x) = inr (x, refl)

rejected-is-no-parsed : {A : Type 0} {x : ChartRefError} {a : A} → rejected x ≢ parsed a
rejected-is-no-parsed h = cc

-- parts with a separator between each two
unfoldable glue : List Text → Text
glue [] = []
glue (a ∷ []) = a
glue (a ∷ b ∷ rest) = a ++ (separator ∷ glue (b ∷ rest))

split-nonempty : (t : Text) → (p : Text) × (ps : List Text) × (split t ≡ p ∷ ps)
unfolding split on_first
split-nonempty [] = ([], [], refl)
split-nonempty (c ∷ cs) = elim (Bool-cases (c == separator)) [
  | inl e ↦ ([], split cs, rw e refl)
  | inr e ↦ let (p, ps, same) = split-nonempty cs in (c ∷ p, ps, rw (e, same) refl)
]

glue-on_first : (c : ℕ) (p : Text) (ps : List Text) → glue ((c ∷ p) ∷ ps) ≡ c ∷ glue (p ∷ ps)
unfolding glue
glue-on_first c p [] = refl
glue-on_first c p (q ∷ qs) = refl

-- Splitting loses nothing.
glue-split : (t : Text) → glue (split t) ≡ t
unfolding split on_first glue
glue-split [] = refl
glue-split (c ∷ cs) =
    let (p, ps, same) = split-nonempty cs in
    let tail : glue (p ∷ ps) ≡ cs = ap glue (sym same) ∙ glue-split cs in
    elim (Bool-cases (c == separator)) [
      | inl e ↦ rw (e, same) (ap (λ l. separator ∷ l) tail ∙ ap (λ x. x ∷ cs) (sym (eq_of_beq e)))
      | inr e ↦ rw (e, same) (glue-on_first c p ps ∙ ap (λ l. c ∷ l) tail)
    ]

make_selector-same :
    (n : Text) (o : Option Text) (s : ChartSelector)
    → make_selector n o ≡ parsed s
    → s ≡ record { name = n; version = o }
unfolding make_selector validate
make_selector-same n none s h = ground arith
make_selector-same n (some v) s h = ground arith

parsed-unless :
    {A : Type 0} (x : ChartRefError) (m : Parsed A) {a : A} (b : Bool)
    → (if b then rejected x else m) ≡ parsed a
    → m ≡ parsed a
parsed-unless x m true h = absurd (rejected-is-no-parsed h)
parsed-unless x m false h = h

-- A selector with a version was made of two parts.
select_parts-two :
    (token : Text) (parts : List Text) (s : ChartSelector) (v : Text)
    → select_parts token parts ≡ parsed s
    → s.version ≡ some v
    → (a : Text) × (b : Text) × (parts ≡ a ∷ b ∷ []) × (s.name ≡ strip a) × (strip b ≡ v)
unfolding select_parts
select_parts-two token [] s v h k = absurd (ground (arith, make_selector-same token none s h))
select_parts-two token (a ∷ []) s v h k = absurd (ground (arith, make_selector-same token none s h))
select_parts-two token (a ∷ b ∷ []) s v h k =
    let made = parsed-unless no_chart _ (strip a == []) h in
    let same = make_selector-same (strip a) (some (strip b)) s made in
    (a, b, refl, ap (λ (x : ChartSelector). x.name) same, ground arith)
select_parts-two token (a ∷ b ∷ c ∷ more) s v h k = absurd (rejected-is-no-parsed h)

parse_selector-two :
    (t : Text) (s : ChartSelector) (v : Text)
    → parse_selector t ≡ parsed s
    → s.version ≡ some v
    → (a : Text) × (b : Text) × (strip t ≡ a ++ (separator ∷ b))
      × (s.name ≡ strip a)
      × (strip b ≡ v)
unfolding parse_selector glue
parse_selector-two t s v h k = elim (Bool-cases (strip t == [])) [
  | inl e ↦ absurd (rejected-is-no-parsed (rw e at h))
  | inr e ↦
      let (a, b, parts, name, version) =
        select_parts-two (strip t) (split (strip t)) s v (rw e at h) k in
      (a, b, sym (glue-split (strip t)) ∙ ap glue parts, name, version)
]

-- what a reference read from a text has to do with it
pub record IsRead (t : Text) (r : ChartRef) : Type 0 where
  pub name_part : Text
  pub version_part : Text
  pub parts : strip t ≡ name_part ++ (separator ∷ version_part)
  pub name : r.name ≡ strip name_part
  pub version : r.version ≡ strip version_part
  pub name_fits : fits r.name ≡ true
  pub version_fits : fits r.version ≡ true

with_version-IsRead :
    (t : Text) (s : ChartSelector) (version : Option Text) (r : ChartRef)
    → parse_selector t ≡ parsed s
    → s.version ≡ version
    → with_version s version ≡ parsed r
    → IsRead t r
unfolding with_version
with_version-IsRead t s none r h k g = absurd (rejected-is-no-parsed g)
with_version-IsRead t s (some v) r h k g =
    let (a, b, parts, name, version) = parse_selector-two t s v h k in
    let (n_fits, v_fits, same) = make_ref-fits s.name v r g in
    record {
      name_part = a;
      version_part = b;
      parts = parts;
      name = ap (λ (x : ChartRef). x.name) same ∙ name;
      version = ap (λ (x : ChartRef). x.version) same ∙ sym version;
      name_fits = ap (λ (x : ChartRef). fits x.name) same ∙ n_fits;
      version_fits = ap (λ (x : ChartRef). fits x.version) same ∙ v_fits;
    }

-- A text that parses is, without the space around it, a name and a version with the separator between
-- them; the reference has these two, without the space around them, and each of them is not empty
-- and holds neither a separator nor whitespace.
pub parse_ref-IsRead : (t : Text) (r : ChartRef) → parse_ref t ≡ parsed r → IsRead t r
unfolding parse_ref
parse_ref-IsRead t r h = elim (parsed_cases (parse_selector t)) [
  | inl (s, e) ↦ with_version-IsRead t s s.version r e refl (rw e at h)
  | inr (x, e) ↦ absurd (rejected-is-no-parsed (rw e at h))
]

-- The correlation id of a composed promotion event reads back as the chart and the version that it
-- was composed for, where these make a reference.
pub parse_ref-compose_promote :
    (source name version environment : Text) (phase : PromotionPhase) (links : Links) (r : ChartRef)
    → make_ref name version ≡ parsed r
    → parse_ref (compose_promote source name version environment phase links).correlation_id
      ≡ parsed r
unfolding compose_promote correlation text
parse_ref-compose_promote source name version environment phase links r h =
    let (n, v, same) = make_ref-fits name version r h in rw same (parse_ref-fits name version n v)
