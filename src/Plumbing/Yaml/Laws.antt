-- ===== src/Plumbing/Yaml/Laws.antt =====
-- Lookups in a mapping that has been changed.
use lab_charts.Base.{
  false, Option, none, some, list_eq, nat_eq, ◌==◌, ◌≡◌, refl, ap, ◌∙◌, beq_refl, eq_of_beq, inl,
  inr, Bool-cases, Text,
}
use lab_charts.Plumbing.Yaml.{
  Yaml, Entries, mapping, no_entries, entry, look, put, modify, entries_of, inside,
}

pub look-put : (key : Text) (value : Yaml) (es : Entries) → look key (put key value es) ≡ some value
unfolding look put
look-put key value no_entries = rw (beq_refl key) refl
look-put key value (entry k v rest) = elim (Bool-cases (k == key)) [
  | inl e ↦ rw (e, e) refl
  | inr e ↦ rw (e, e) (look-put key value rest)
]

pub look-put_other :
    (other key : Text) (value : Yaml) (es : Entries)
    → (key == other) ≡ false
    → look other (put key value es) ≡ look other es
unfolding look put
look-put_other other key value no_entries h = rw h refl
look-put_other other key value (entry k v rest) h = elim (Bool-cases (k == key)) [
  | inl e ↦ let q = ap (λ x. x == other) (eq_of_beq e) ∙ h in rw e (rw q refl)
  | inr e ↦ rw e (rw (look-put_other other key value rest h) refl)
]

abbrev pub mapped : (Yaml → Yaml) → Option Yaml → Option Yaml
mapped f none = none
mapped f (some v) = some (f v)

pub look-modify :
    (key : Text) (f : Yaml → Yaml) (es : Entries)
    → look key (modify key f es) ≡ mapped f (look key es)
unfolding look modify
look-modify key f no_entries = refl
look-modify key f (entry k v rest) = elim (Bool-cases (k == key)) [
  | inl e ↦ rw (e, e) refl
  | inr e ↦ rw (e, e) (look-modify key f rest)
]

pub look-modify_other :
    (other key : Text) (f : Yaml → Yaml) (es : Entries)
    → (key == other) ≡ false
    → look other (modify key f es) ≡ look other es
unfolding look modify
look-modify_other other key f no_entries h = refl
look-modify_other other key f (entry k v rest) h = elim (Bool-cases (k == key)) [
  | inl e ↦ let q = ap (λ x. x == other) (eq_of_beq e) ∙ h in rw e (rw q refl)
  | inr e ↦ rw e (rw (look-modify_other other key f rest h) refl)
]

abbrev pub mapped_entries : (Entries → Entries) → Option Entries → Option Entries
mapped_entries f none = none
mapped_entries f (some es) = some (f es)

pub entries_of-inside :
    (f : Entries → Entries) (v : Option Yaml)
    → entries_of (mapped (inside f) v) ≡ mapped_entries f (entries_of v)
unfolding entries_of inside
entries_of-inside f none = refl
entries_of-inside f (some (mapping es)) = refl
entries_of-inside f (some (Yaml.string t)) = refl
entries_of-inside f (some (Yaml.scalar t)) = refl
entries_of-inside f (some Yaml.null) = refl
