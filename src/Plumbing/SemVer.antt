-- ===== src/Plumbing/SemVer.antt =====
-- plumbing/semver.py: versions, their grammar, their text and their precedence.
pub mod Pieces
pub mod RoundTrip
use lab_charts.Base.{
  ℕ, suc, ◌+◌, ◌-◌, ◌*◌, Bool, true, false, not, ◌&&◌, ◌||◌, Option, none, some, List, [], ◌∷◌,
  ◌++◌, map, all, any, ltb, leb, nat_eq, list_eq, Eq, ◌==◌, ◌≡◌, ◌↔◌, ap, eq_of_beq, if◌then◌else◌,
  Text, text, join, show,
}

pub record SemVer : Type 0 where
  pub major : ℕ
  pub minor : ℕ
  pub patch : ℕ
  pub prerelease : List Text
  pub build : List Text

unfoldable pub suffix_of : Text → List Text → Text
suffix_of mark [] = []
suffix_of mark (x ∷ xs) = mark ++ join (text ".") (x ∷ xs)

-- `SemVer.__str__`
unfoldable pub show_version : SemVer → Text
unfolding suffix_of
show_version v =
    show v.major
    ++ (text "."
        ++ (show v.minor
            ++ (text "."
                ++ (show v.patch
                    ++ (suffix_of (text "-") v.prerelease ++ suffix_of (text "+") v.build)))))

unfoldable pub is_digit : ℕ → Bool
is_digit c = leb 48 c && leb c 57

-- `[0-9A-Za-z-]`
unfoldable pub is_identifier_char : ℕ → Bool
unfolding is_digit
is_identifier_char c =
    is_digit c || ((leb 65 c && leb c 90) || ((leb 97 c && leb c 122) || c == 45))

-- `0|[1-9][0-9]*`
unfoldable pub is_number : Text → Bool
unfolding is_digit
is_number [] = false
is_number (c ∷ []) = is_digit c
is_number (c ∷ (d ∷ rest)) = is_digit c && (not (c == 48) && all is_digit (d ∷ rest))

-- `_BUILD_ID`
unfoldable pub is_build_id : Text → Bool
unfolding is_identifier_char
is_build_id t = not (t == []) && all is_identifier_char t

-- `_PRERELEASE_ID`
unfoldable pub is_prerelease_id : Text → Bool
unfolding is_number is_build_id is_digit
is_prerelease_id t = is_number t || (is_build_id t && not (all is_digit t))

-- `int` of digits
unfoldable pub digits_value : ℕ → Text → ℕ
digits_value n [] = n
digits_value n (c ∷ cs) = digits_value (n * 10 + (c - 48)) cs

-- a character put before the first piece
unfoldable pub onto_head : ℕ → List Text → List Text
onto_head c [] = (c ∷ []) ∷ []
onto_head c (x ∷ xs) = (c ∷ x) ∷ xs

-- `t.split(mark)`
unfoldable pub split_on : ℕ → Text → List Text
unfolding onto_head
split_on mark [] = [] ∷ []
split_on mark (c ∷ cs) =
    let pieces = split_on mark cs in if c == mark then [] ∷ pieces else onto_head c pieces

unfoldable pub cons_first : ℕ → Text × Option Text → Text × Option Text
cons_first c (head, rest) = (c ∷ head, rest)

-- what stands before the first mark, and what stands after it where there is one
unfoldable pub cut_at : ℕ → Text → Text × Option Text
unfolding cons_first
cut_at mark [] = ([], none)
cut_at mark (c ∷ cs) =
    let rest = cut_at mark cs in if c == mark then ([], some cs) else cons_first c rest

-- the identifiers of a part that may be left out, where each is one
unfoldable pub identifiers : (Text → Bool) → Option Text → Option (List Text)
unfolding split_on
identifiers is_id none = some []
identifiers is_id (some t) = if all is_id (split_on 46 t) then some (split_on 46 t) else none

unfoldable pub with_core : List Text → List Text → List Text → Option SemVer
unfolding is_number digits_value
with_core (a ∷ (b ∷ (c ∷ []))) prerelease build =
    if is_number a && (is_number b && is_number c)
    then some (record {
      major = digits_value 0 a;
      minor = digits_value 0 b;
      patch = digits_value 0 c;
      prerelease = prerelease;
      build = build;
    })
    else none
with_core _ prerelease build = none

unfoldable pub with_parts : Text → Option (List Text) → Option (List Text) → Option SemVer
unfolding with_core
with_parts core none build = none
with_parts core (some prerelease) none = none
with_parts core (some prerelease) (some build) = with_core (split_on 46 core) prerelease build

-- `parse_semver`, of a text: a build part follows the first plus sign, a prerelease the first dash
-- before it; none where it raises a ValueError
unfoldable pub parse_semver : Text → Option SemVer
unfolding cut_at identifiers with_parts is_prerelease_id is_build_id
parse_semver t =
    let (head, build) = cut_at 43 t in
    let (core, prerelease) = cut_at 45 head in
    with_parts core (identifiers is_prerelease_id prerelease) (identifiers is_build_id build)

unfoldable pub if_bare : Option SemVer → Option SemVer
if_bare none = none
if_bare (some v) = if v.prerelease == [] && v.build == [] then some v else none

-- `parse_bare_version`
unfoldable pub parse_bare_version : Text → Option SemVer
unfolding if_bare
parse_bare_version t = if_bare (parse_semver t)

-- `(0, int(p)) if p.isdigit() else (1, p)`
pub data Identifier : Type 0 where
  numeric : ℕ → Identifier
  alphanumeric : Text → Identifier

unfoldable pub identifier_of : Text → Identifier
identifier_of p = if all is_digit p then numeric (digits_value 0 p) else alphanumeric p

-- how two tuples compare: by the first place where they differ, and a prefix comes first
unfoldable pub lex_lt {ℓ} : {A : Type ℓ} ⦃e : Eq A⦄ → (A → A → Bool) → List A → List A → Bool
lex_lt lt [] [] = false
lex_lt lt [] (y ∷ ys) = true
lex_lt lt (x ∷ xs) [] = false
lex_lt lt (x ∷ xs) (y ∷ ys) = let rest = lex_lt lt xs ys in if x == y then rest else lt x y

unfoldable pub identifier_lt : Identifier → Identifier → Bool
identifier_lt (numeric a) (numeric b) = ltb a b
identifier_lt (numeric a) (alphanumeric b) = true
identifier_lt (alphanumeric a) (numeric b) = false
identifier_lt (alphanumeric a) (alphanumeric b) = lex_lt ltb a b

unfoldable pub identifier_beq : Identifier → Identifier → Bool
identifier_beq (numeric a) (numeric b) = a == b
identifier_beq (alphanumeric a) (alphanumeric b) = a == b
identifier_beq _ _ = false

pub identifier_beq_iff : (a b : Identifier) → (identifier_beq a b ≡ true) ↔ (a ≡ b)
unfolding identifier_beq
identifier_beq_iff (numeric a) (numeric b) =
    (λ h. ap numeric (eq_of_beq h), λ h. (nat_eq.reflects a b).1 cc)
identifier_beq_iff (numeric a) (alphanumeric b) = (λ h. cc, λ h. cc)
identifier_beq_iff (alphanumeric a) (numeric b) = (λ h. cc, λ h. cc)
identifier_beq_iff (alphanumeric a) (alphanumeric b) =
    (λ h. ap alphanumeric (eq_of_beq h), λ h. (list_eq.reflects a b).1 cc)

instance abbrev pub identifier_eq : Eq Identifier
identifier_eq = record { beq = identifier_beq; reflects = identifier_beq_iff }

-- `SemVer.precedence`: the three numbers and whether the version is a release, then its identifiers
pub record Precedence : Type 0 where
  pub numbers : List ℕ
  pub ids : List Identifier

unfoldable pub precedence : SemVer → Precedence
unfolding identifier_of
precedence v = record {
  numbers = v.major ∷ (v.minor ∷ (v.patch ∷ ((if v.prerelease == [] then 1 else 0) ∷ [])));
  ids = map identifier_of v.prerelease;
}

unfoldable pub precedence_lt : Precedence → Precedence → Bool
unfolding lex_lt identifier_lt
precedence_lt a b =
    if a.numbers == b.numbers
    then lex_lt identifier_lt a.ids b.ids
    else lex_lt ltb a.numbers b.numbers

-- `a.precedence < b.precedence`
unfoldable pub precedes : SemVer → SemVer → Bool
unfolding precedence precedence_lt
precedes a b = precedence_lt (precedence a) (precedence b)
