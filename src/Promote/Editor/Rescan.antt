-- ===== src/Promote/Editor/Rescan.antt =====
-- What a scan finds in a file that has been edited.
use lab_charts.Base.{
  ℕ, suc, Bool, true, false, ◌&&◌, Option, none, some, List, [], ◌∷◌, map, Every, nat_eq, list_eq,
  option_eq, option_beq, ◌==◌, ◌≡◌, refl, ap, ◌∙◌, arith, inl, inr, Bool-cases, eq_of_beq, and_true,
  list_beq, false, Text, text,
}
use lab_charts.Plumbing.Yaml.{
  Yaml, Entries, null, string, scalar, mapping, str_of, look, put, modify, entries_of, inside,
}
use lab_charts.Plumbing.Yaml.Laws.{
  look-put, look-put_other, look-modify, look-modify_other, mapped_entries, entries_of-inside,
}
use lab_charts.Promote.Scanner.{
  HelmReleaseMatch, is_string, is_release_kind, is_helmrelease, or_nothing, chart_spec, shown,
  fields_of, chart_fields, metadata_of, match_of, is_match, matches_from,
}
use lab_charts.Promote.Editor.{write_version, version_text, needs_edit, edit_document, edit}

below-modify :
    (key : Text) (f : Entries → Entries) (es : Entries)
    → entries_of (look key (modify key (inside f) es)) ≡ mapped_entries f (entries_of (look key es))
below-modify key f es =
    ap entries_of (look-modify key (inside f) es) ∙ entries_of-inside f (look key es)

-- a change below a key, read through the key
through :
    (key : Text) (f : Entries → Entries) (next : Entries → Option Entries) (g : Entries → Entries)
    (o : Option Entries)
    → ((p : Option Entries)
        → or_nothing (mapped_entries f p) next ≡ mapped_entries g (or_nothing p next))
    → or_nothing
        (mapped_entries (modify key (inside f)) o)
        (λ e. or_nothing (entries_of (look key e)) next)
      ≡ mapped_entries g (or_nothing o (λ e. or_nothing (entries_of (look key e)) next))
unfolding or_nothing
through key f next g none h = refl
through key f next g (some es) h =
    ap (λ x. or_nothing x next) (below-modify key f es) ∙ h (entries_of (look key es))

last_level :
    (key : Text) (g : Entries → Entries) (o : Option Entries)
    → or_nothing (mapped_entries (modify key (inside g)) o) (λ e. entries_of (look key e))
      ≡ mapped_entries g (or_nothing o (λ e. entries_of (look key e)))
unfolding or_nothing
last_level key g none = refl
last_level key g (some es) = below-modify key g es

chart_spec-write_version :
    (version : Text) (doc : Yaml)
    → chart_spec (write_version version doc)
      ≡ mapped_entries (put (text "version") (string version)) (chart_spec doc)
unfolding chart_spec write_version inside entries_of or_nothing
chart_spec-write_version version (mapping es) =
    through (text "spec") _ _ _ (some es)
      (λ p. through (text "chart") _ _ _ p (λ q. last_level (text "spec") _ q))
chart_spec-write_version version null = refl
chart_spec-write_version version (string t) = refl
chart_spec-write_version version (scalar t) = refl

is_helmrelease-write_version :
    (version : Text) (doc : Yaml) → is_helmrelease (write_version version doc) ≡ is_helmrelease doc
unfolding is_helmrelease write_version inside is_release_kind text list_beq
is_helmrelease-write_version version (mapping es) =
    rw
      (
        look-modify_other (text "kind") (text "spec") _ es refl,
        look-modify_other (text "apiVersion") (text "spec") _ es refl,
      )
      refl
is_helmrelease-write_version version null = refl
is_helmrelease-write_version version (string t) = refl
is_helmrelease-write_version version (scalar t) = refl

metadata_of-write_version :
    (version : Text) (doc : Yaml) → metadata_of (write_version version doc) ≡ metadata_of doc
unfolding metadata_of write_version inside text list_beq
metadata_of-write_version version (mapping es) =
    ap entries_of (look-modify_other (text "metadata") (text "spec") _ es refl)
metadata_of-write_version version null = refl
metadata_of-write_version version (string t) = refl
metadata_of-write_version version (scalar t) = refl

module _ (show_mapping : Entries → Text) (chart_name new_version : Text) where
  -- the chart is named by a text, where it is there
  unfoldable pub is_named : Option Entries → Bool
  unfolding is_string
  is_named none = true
  is_named (some inner) = is_string (λ t. t == chart_name) (look (text "chart") inner)

  -- a document of the chart names it by a text, and not by a value that prints as its name
  abbrev pub IsPlain : Yaml → Type 0
  IsPlain doc = is_match show_mapping chart_name doc ≡ true → is_named (chart_spec doc) ≡ true

  fields_of-put :
      (o : Option Entries)
      → (fields_of show_mapping (mapped_entries (put (text "version") (string new_version)) o)).0
        ≡ (fields_of show_mapping o).0
  unfolding fields_of text list_beq
  fields_of-put none = refl
  fields_of-put (some inner) =
      ap (shown show_mapping)
        (look-put_other (text "chart") (text "version") (string new_version) inner refl)

  version_of-put :
      (o : Option Entries)
      → needs_edit show_mapping chart_name new_version o ≡ true
      → (fields_of show_mapping (mapped_entries (put (text "version") (string new_version)) o)).1
        ≡ some new_version
  unfolding fields_of needs_edit shown str_of
  version_of-put none h = absurd (cc)
  version_of-put (some inner) h =
      ap (shown show_mapping) (look-put (text "version") (string new_version) inner)

  version_of-unchanged :
      (v : Option Yaml)
      → (text "None" == new_version) ≡ false
      → (version_text show_mapping chart_name new_version v == new_version) ≡ true
      → shown show_mapping v ≡ some new_version
  unfolding version_text shown str_of
  version_of-unchanged none n h = absurd (cc)
  version_of-unchanged (some null) n h = absurd (cc)
  version_of-unchanged (some (string t)) n h = ap some (eq_of_beq h)
  version_of-unchanged (some (scalar t)) n h = ap some (eq_of_beq h)
  version_of-unchanged (some (mapping es)) n h = ap some (eq_of_beq h)

  -- what an edit leaves of a document and what it writes
  abbrev IsEdited : Yaml → Yaml → Type 0
  IsEdited doc after =
      (is_match show_mapping chart_name after ≡ is_match show_mapping chart_name doc)
      × (metadata_of after ≡ metadata_of doc)
      × (is_match show_mapping chart_name doc ≡ true
          → (chart_fields show_mapping after).1 ≡ some new_version)

  write_version-IsEdited :
      (doc : Yaml)
      → needs_edit show_mapping chart_name new_version (chart_spec doc) ≡ true
      → IsEdited doc (write_version new_version doc)
  unfolding is_match chart_fields
  write_version-IsEdited doc h = (
    rw
        (
          is_helmrelease-write_version new_version doc,
          chart_spec-write_version new_version doc,
          fields_of-put (chart_spec doc),
        )
        refl,
    metadata_of-write_version new_version doc,
    λ _.
        ap (λ o. (fields_of show_mapping o).1) (chart_spec-write_version new_version doc)
        ∙ version_of-put (chart_spec doc) h,
  )

  version_of-kept :
      (o : Option Entries)
      → (text "None" == new_version) ≡ false
      → ((fields_of show_mapping o).0 == some chart_name) ≡ true
      → is_named o ≡ true
      → needs_edit show_mapping chart_name new_version o ≡ false
      → (fields_of show_mapping o).1 ≡ some new_version
  unfolding fields_of is_named needs_edit option_beq
  version_of-kept none n m p h = absurd (cc)
  version_of-kept (some inner) n m p h =
      version_of-unchanged (look (text "version") inner) n (ground arith)

  is_match-true :
      (doc : Yaml)
      → is_match show_mapping chart_name doc ≡ true
      → (is_helmrelease doc ≡ true)
        × (((fields_of show_mapping (chart_spec doc)).0 == some chart_name) ≡ true)
  unfolding is_match chart_fields
  is_match-true doc h = and_true (is_helmrelease doc) _ h

  edit_document-IsEdited :
      (doc : Yaml)
      → (text "None" == new_version) ≡ false
      → IsPlain doc
      → IsEdited doc (edit_document show_mapping chart_name new_version doc)
  unfolding edit_document chart_fields
  edit_document-IsEdited doc n plain =
      elim (Bool-cases
        (is_helmrelease doc && needs_edit show_mapping chart_name new_version (chart_spec doc))) [
          | inl e ↦ rw e (write_version-IsEdited doc (and_true (is_helmrelease doc) _ e).1)
          | inr e ↦ rw e (refl, refl, λ m. kept e m)
        ]
    where
      kept :
          (is_helmrelease doc && needs_edit show_mapping chart_name new_version (chart_spec doc))
            ≡ false
          → is_match show_mapping chart_name doc ≡ true
          → (chart_fields show_mapping doc).1 ≡ some new_version
      kept e m =
          let (r, q) = is_match-true doc m in
          version_of-kept (chart_spec doc) n q (plain m) (rw r at e)

  -- a match at the new version
  abbrev pub at_version : HelmReleaseMatch → HelmReleaseMatch
  at_version m = record m { current_version = some new_version }

  -- Where the new version is not the text None, and a chart value prints as the chart's name
  -- only if it is that text, a scan of the edited documents finds the matches that a scan of the
  -- documents found, each at the new version.
  pub matches_from-edit :
      (path : Text) (index : ℕ) (docs : List Yaml)
      → (text "None" == new_version) ≡ false
      → Every IsPlain docs
      → matches_from show_mapping chart_name path index
          (edit show_mapping chart_name new_version docs)
        ≡ map at_version (matches_from show_mapping chart_name path index docs)
  unfolding matches_from edit match_of
  matches_from-edit path index [] n plain = refl
  matches_from-edit path index (doc ∷ docs) n plain =
      let (same, metadata, version) = edit_document-IsEdited doc n plain.0 in
      let ih = matches_from-edit path (suc index) docs n plain.1 in
      elim (Bool-cases (is_match show_mapping chart_name doc)) [
        | inl e ↦ rw (same, e, metadata, version e, ih) refl
        | inr e ↦ rw (same, e) ih
      ]
