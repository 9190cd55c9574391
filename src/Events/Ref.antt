-- ===== src/Events/Ref.antt =====
-- shared/events/ref.py: `CHART@VERSION`, the name of a chart release. An error is kept without the
-- words around it.
pub mod RoundTrip
use lab_charts.Base.{
  ℕ, Bool, true, false, Option, none, some, List, [], ◌∷◌, ◌++◌, any, nat_eq, list_eq, ◌==◌,
  contains, if◌then◌else◌, Text, is_space, strip,
}

pub data ChartRefError : Type 0 where
  empty_token too_many_separators no_chart no_version : ChartRefError
  empty_component separator_inside whitespace_inside : ChartRefError

pub data Parsed (A : Type 0) : Type 0 where
  parsed : A → Parsed A
  rejected : ChartRefError → Parsed A

infixl 5 ◌>>=◌
abbrev pub ◌>>=◌ : {A B : Type 0} → Parsed A → (A → Parsed B) → Parsed B
◌>>=◌ (rejected x) next = rejected x
◌>>=◌ (parsed a) next = next a

-- SEPARATOR, the code of `@`
abbrev pub separator : ℕ
separator = 64

pub record ChartRef : Type 0 where
  pub name : Text
  pub version : Text

pub record ChartSelector : Type 0 where
  pub name : Text
  pub version : Option Text

-- `_validate`
unfoldable pub validate : Text → Parsed (Unit {0})
validate value =
    if value == []
    then rejected empty_component
    else if contains value separator
    then rejected separator_inside
    else if any is_space value
    then rejected whitespace_inside
    else parsed tt

-- a ChartRef as its constructor leaves it
unfoldable pub make_ref : Text → Text → Parsed ChartRef
unfolding validate
make_ref name version = do
  _ ← validate name
  _ ← validate version
  parsed (record { name = name; version = version })

-- `str(ref)`
unfoldable pub show_ref : ChartRef → Text
show_ref r = r.name ++ (separator ∷ r.version)

unfoldable pub make_selector : Text → Option Text → Parsed ChartSelector
unfolding validate
make_selector name none = do _ ← validate name; parsed (record { name = name; version = none })
make_selector name (some version) = do
  _ ← validate name
  _ ← validate version
  parsed (record { name = name; version = some version })

on_first : ℕ → List Text → List Text
on_first c [] = (c ∷ []) ∷ []
on_first c (part ∷ parts) = (c ∷ part) ∷ parts

-- `token.split(SEPARATOR)`
unfoldable pub split : Text → List Text
unfolding on_first
split [] = [] ∷ []
split (c ∷ cs) = let rest = split cs in if c == separator then [] ∷ rest else on_first c rest

unfoldable pub select_parts : Text → List Text → Parsed ChartSelector
unfolding make_selector
select_parts token [] = make_selector token none
select_parts token (part ∷ []) = make_selector token none
select_parts token (name ∷ version ∷ []) =
    if strip name == []
    then rejected no_chart
    else make_selector (strip name) (some (strip version))
select_parts token (a ∷ b ∷ c ∷ more) = rejected too_many_separators

unfoldable pub parse_selector : Text → Parsed ChartSelector
unfolding select_parts split
parse_selector t =
    let token = strip t in
    if token == [] then rejected empty_token else select_parts token (split token)

unfoldable pub with_version : ChartSelector → Option Text → Parsed ChartRef
unfolding make_ref
with_version s none = rejected no_version
with_version s (some version) = make_ref s.name version

unfoldable pub parse_ref : Text → Parsed ChartRef
unfolding parse_selector with_version
parse_ref t = do s ← parse_selector t; with_version s s.version
