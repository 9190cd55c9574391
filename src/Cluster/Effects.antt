-- ===== src/Cluster/Effects.antt =====
-- Code that calls external tools: it changes what lies outside of it and may raise, and what it did
-- before a raise stays done. The exceptions are those of plumbing/errors.py that some code here
-- tells apart; of their attributes only those that it reads are kept.
use lab_charts.Base.{
  Bool, true, false, ◌≡◌, ◌≢◌, refl, ap, ◌∙◌, ◌⊎◌, inl, inr, List, [], ◌∷◌, Every, Text,
  if◌then◌else◌,
}

-- `command_timeout` and `command_failed`, any other ExternalCommandError, carry their stderr, and
-- `release_failed` its diagnostics. `chart_error` is any other ChartManagerError, `other_error` an
-- exception of another class.
pub data Failure : Type 0 where
  missing_tool : Text → Failure
  spec_error : Text → Failure
  command_timeout : (message stderr : Text) → Failure
  release_failed : (message diagnostics : Text) → Failure
  command_failed : (message stderr : Text) → Failure
  chart_error : Text → Failure
  other_error : Text → Failure

-- `str(exc)`
unfoldable pub message_of : Failure → Text
message_of (missing_tool t) = t
message_of (spec_error t) = t
message_of (command_timeout t stderr) = t
message_of (release_failed t diagnostics) = t
message_of (command_failed t stderr) = t
message_of (chart_error t) = t
message_of (other_error t) = t

-- `isinstance(exc, ExternalCommandError)`
unfoldable pub is_external : Failure → Bool
is_external (missing_tool t) = true
is_external (command_timeout t stderr) = true
is_external (release_failed t diagnostics) = true
is_external (command_failed t stderr) = true
is_external _ = false

-- `exc.stderr`; a tool that is not there wrote nothing
unfoldable pub stderr_of : Failure → Text
stderr_of (command_timeout t stderr) = stderr
stderr_of (command_failed t stderr) = stderr
stderr_of _ = []

-- `isinstance(exc, ChartManagerError)`
unfoldable pub is_expected : Failure → Bool
is_expected (other_error t) = false
is_expected _ = true

-- a ChartManagerError that `except (MissingToolError, SpecError): raise` lets through
unfoldable pub is_reported : Failure → Bool
is_reported (missing_tool t) = false
is_reported (spec_error t) = false
is_reported (other_error t) = false
is_reported _ = true

pub data Try (A : Type 0) : Type 0 where
  returned : A → Try A
  threw : Failure → Try A

module _ {A : Type 0} where
  pub returned-injective : {a b : A} → returned a ≡ returned b → a ≡ b
  returned-injective h = cc

  pub threw-injective : {x y : Failure} → ◌≡◌ {A = Try A} (threw x) (threw y) → x ≡ y
  threw-injective h = cc

  pub threw-is-no-returned : {x : Failure} {a : A} → threw x ≢ returned a
  threw-is-no-returned h = cc

  pub Try-cases : (t : Try A) → ((a : A) × (t ≡ returned a)) ⊎ ((x : Failure) × (t ≡ threw x))
  Try-cases (returned a) = inl (a, refl)
  Try-cases (threw x) = inr (x, refl)

abbrev pub Act : Type 0 → Type 0 → Type 0
Act S A = S → Try A × S

module _ {S A : Type 0} where
  unfoldable pub pure : A → Act S A
  pure a w = (returned a, w)

  unfoldable pub throw : Failure → Act S A
  throw x w = (threw x, w)

  -- a computation without effects
  unfoldable pub lift : Try A → Act S A
  lift t w = (t, w)

  abbrev pub on_failure : (Failure → Act S A) → Try A → Act S A
  on_failure handle (returned a) w = (returned a, w)
  on_failure handle (threw x) w = handle x w

  -- `try: m except …: handle`
  unfoldable pub catch : Act S A → (Failure → Act S A) → Act S A
  catch m handle w = let (t, w') = m w in on_failure handle t w'

module _ {S A : Type 0} where
  -- what came of `m`, for a caller that handles its exceptions
  unfoldable pub attempt : Act S A → Act S (Try A)
  attempt m w = let (t, w') = m w in (returned t, w')

module _ {S A B : Type 0} where
  abbrev pub continue : Try A → (A → Act S B) → Act S B
  continue (returned a) f w = f a w
  continue (threw x) f w = (threw x, w)

  infixl 5 ◌>>=◌ ◌>>◌
  unfoldable pub ◌>>=◌ : Act S A → (A → Act S B) → Act S B
  ◌>>=◌ m f w = let (t, w') = m w in continue t f w'

  abbrev pub ◌>>◌ : Act S A → Act S B → Act S B
  m >> k = m >>= λ _. k

module _ {S A : Type 0} where
  -- a `for` loop whose body returns nothing
  unfoldable pub for_each : List A → (A → Act S Unit) → Act S Unit
  unfolding pure ◌>>=◌
  for_each [] f = pure tt
  for_each (x ∷ xs) f = f x >> for_each xs f

module _ {S : Type 0} where
  -- `m`, at some point, returned `a`.
  pub record Returned {A : Type 0} (m : Act S A) (a : A) : Type 0 where
    pub before : S
    pub after : S
    pub run : m before ≡ (returned a, after)

module _ {S A B : Type 0} where
  continue-returned :
      (t : Try A) (f : A → Act S B) (w : S) {b : B} {w' : S}
      → continue t f w ≡ (returned b, w')
      → (a : A) × (t ≡ returned a) × (f a w ≡ (returned b, w'))
  continue-returned (returned a) f w h = (a, refl, h)
  continue-returned (threw x) f w h = absurd (cc)

  -- A chain that returns has returned in its first part, and then in the rest.
  pub >>=-returned :
      (m : Act S A) (f : A → Act S B) (w : S) {b : B} {w' : S}
      → (m >>= f) w ≡ (returned b, w')
      → (a : A) × (w1 : S) × (m w ≡ (returned a, w1)) × (f a w1 ≡ (returned b, w'))
  unfolding ◌>>=◌
  >>=-returned m f w h =
      let (a, e, g) = continue-returned (m w).0 f (m w).1 h in
      (a, (m w).1, ap (λ t. (t, (m w).1)) e, g)

  continue-threw :
      (t : Try A) (f : A → Act S B) (w : S) {x : Failure} {w' : S}
      → continue t f w ≡ (threw x, w')
      → ((t ≡ threw x) × (w ≡ w')) ⊎ ((a : A) × (t ≡ returned a) × (f a w ≡ (threw x, w')))
  continue-threw (returned a) f w h = inr (a, refl, h)
  continue-threw (threw x) f w h = inl (cc, cc)

  -- A chain that raises has raised in its first part or in the rest.
  pub >>=-threw :
      (m : Act S A) (f : A → Act S B) (w : S) {x : Failure} {w' : S}
      → (m >>= f) w ≡ (threw x, w')
      → (m w ≡ (threw x, w'))
        ⊎ ((a : A) × (w1 : S) × (m w ≡ (returned a, w1)) × (f a w1 ≡ (threw x, w')))
  unfolding ◌>>=◌
  >>=-threw m f w {x} h = elim (continue-threw (m w).0 f (m w).1 h) [
    | inl (e, g) ↦ inl (ap (λ t. (t, (m w).1)) e ∙ ap (λ v. (threw x, v)) g)
    | inr (a, e, g) ↦ inr (a, (m w).1, ap (λ t. (t, (m w).1)) e, g)
  ]

module _ {S : Type 0} where
  -- `m` returns nothing.
  pub record Raises {A : Type 0} (m : Act S A) : Type 0 where
    pub never : (w : S) (a : A) → (m w).0 ≢ returned a

module _ {S A : Type 0} where
  pub throw-Raises : (x : Failure) → Raises {S = S} {A = A} (throw x)
  unfolding throw
  throw-Raises x = record { never = λ w a h. cc }

  pub if-Raises : (b : Bool) {m n : Act S A} → Raises m → Raises n → Raises (if b then m else n)
  if-Raises true hm hn = hm
  if-Raises false hm hn = hn

module _ {S A B : Type 0} where
  continue-Raises :
      (t : Try A) (f : A → Act S B) (w : S) (b : B)
      → ((a : A) → Raises (f a))
      → (continue t f w).0 ≢ returned b
  continue-Raises (returned a) f w b h = (h a).never w b
  continue-Raises (threw x) f w b h = λ e. cc

  pub >>=-Raises : (m : Act S A) (f : A → Act S B) → ((a : A) → Raises (f a)) → Raises (m >>= f)
  unfolding ◌>>=◌
  >>=-Raises m f h = record { never = λ w b. continue-Raises (m w).0 f (m w).1 b h }

module _ {S A : Type 0} where
  -- A loop that returns has returned for each element.
  pub for_each-returned :
      (xs : List A) (f : A → Act S Unit) (w : S) {w' : S}
      → for_each xs f w ≡ (returned tt, w')
      → Every (λ x. Returned (f x) tt) xs
  unfolding for_each
  for_each-returned [] f w h = tt
  for_each-returned (x ∷ xs) f w h =
      let (a, w1, e, g) = >>=-returned (f x) (λ _. for_each xs f) w h in
      (record { before = w; after = w1; run = e }, for_each-returned xs f w1 g)

  on_failure-returned :
      (handle : Failure → Act S A) (t : Try A) (w : S) {a : A} {w' : S}
      → ((x : Failure) → Raises (handle x))
      → on_failure handle t w ≡ (returned a, w')
      → (t ≡ returned a) × (w ≡ w')
  on_failure-returned handle (returned a) w raises h = (ap (λ p. p.0) h, ap (λ p. p.1) h)
  on_failure-returned handle (threw x) w raises h = absurd ((raises x).never w _ (ap (λ p. p.0) h))

  -- A part whose handler always raises returns only what it returns itself.
  pub catch-returned :
      (m : Act S A) (handle : Failure → Act S A) (w : S) {a : A} {w' : S}
      → ((x : Failure) → Raises (handle x))
      → catch m handle w ≡ (returned a, w')
      → m w ≡ (returned a, w')
  unfolding catch
  catch-returned m handle w raises h =
      let (e, g) = on_failure-returned handle (m w).0 (m w).1 raises h in cc

  on_failure-threw :
      (handle : Failure → Act S A) (t : Try A) (w : S) {y : Failure} {w' : S}
      → on_failure handle t w ≡ (threw y, w')
      → (x : Failure) × (t ≡ threw x) × (handle x w ≡ (threw y, w'))
  on_failure-threw handle (returned a) w h = absurd (cc)
  on_failure-threw handle (threw x) w h = (x, refl, h)

  -- What comes out of a guarded part was raised by its handler.
  pub catch-threw :
      (m : Act S A) (handle : Failure → Act S A) (w : S) {y : Failure} {w' : S}
      → catch m handle w ≡ (threw y, w')
      → (x : Failure) × (v : S) × (m w ≡ (threw x, v)) × (handle x v ≡ (threw y, w'))
  unfolding catch
  catch-threw m handle w h =
      let (x, e, g) = on_failure-threw handle (m w).0 (m w).1 h in
      (x, (m w).1, ap (λ t. (t, (m w).1)) e, g)

  -- What an attempt reports is what `m` came to.
  pub attempt-run :
      (m : Act S A) (w : S) {t : Try A} {w' : S} → attempt m w ≡ (returned t, w') → m w ≡ (t, w')
  unfolding attempt
  attempt-run m w {t} h =
      let e = returned-injective (ap (λ v. v.0) h) in
      let g = ap (λ v. v.1) h in ap (λ r. (r, (m w).1)) e ∙ ap (λ v. (t, v)) g
