-- ===== src/Validate/Select/Rows.antt =====
-- The rows that changed files select: they exist, and each reason is one of the changed files.
use lab_charts.Base.{
  true, not, List, [], ◌∷◌, map, contains, contains_of_mem, Every, Every-of_mem, nat_eq, list_eq,
  pair_eq, ◌==◌, ◌≡◌, sym, ◌∙◌, keep, and_true, contains-sorted, contains-distinct_of, distinct_of,
  Every-sorted, text_leb, Text,
}
use lab_charts.Charts.Result.{Key}
use lab_charts.Workspace.{path_of, as_posix}
use lab_charts.Validate.Triggers.Laws.{contains-keep}
use lab_charts.Validate.Select.{
  Reason, RowSource, Files, ByFile, Specs, sorted_raws, in_file_order, reasons_for,
}
use lab_charts.Validate.Select.Noted.{
  known_row, IsFile, IsCalled, examine_all-IsSeen, fanout_all-Every,
}

contains-sorted_raws :
    (w : RowSource) (specs : Specs) (changes : List Text) (raw : Text)
    → contains (sorted_raws w specs changes) raw ≡ true
    → contains changes raw ≡ true
unfolding sorted_raws
contains-sorted_raws w specs changes raw h =
    (and_true (contains changes raw) (not (raw == [])) (
      contains-keep (λ r. not (r == [])) changes raw
        (sym (
            contains-sorted text_leb (distinct_of (keep (λ r. not (r == [])) changes)) raw
            ∙ contains-distinct_of (keep (λ r. not (r == [])) changes) raw)
          ∙ h))).0

module _ (w : RowSource) (specs : Specs) (changes : List Text) where
  -- a reason is about a changed file
  pub record IsChange (reason : Reason) : Type 0 where
    pub raw : Text
    pub is_changed : contains changes raw ≡ true
    pub is_of : reason.changed_file ≡ as_posix (path_of raw)

  -- a row is an environment that its chart has, and its reasons are about changed files
  pub record IsRow (row : Key × List Reason) : Type 0 where
    pub known : known_row specs row.0 ≡ true
    pub changed : Every IsChange row.1

  reasons-IsChange :
      (files : Files)
      → Every (IsFile w specs (sorted_raws w specs changes)) files
      → Every IsChange (map (λ (f : Text × Reason). f.1) files)
  reasons-IsChange [] h = tt
  reasons-IsChange ((raw, reason) ∷ rest) h = (
    record {
      raw = raw;
      is_changed = contains-sorted_raws w specs changes raw h.0.0;
      is_of = h.0.1;
    },
    reasons-IsChange rest h.1,
  )

  rows-IsRow :
      (by_file : ByFile)
      → Every (IsCalled w specs (sorted_raws w specs changes)) by_file
      → Every IsRow (map (in_file_order w specs) by_file)
  unfolding in_file_order
  rows-IsRow [] h = tt
  rows-IsRow ((key, files) ∷ rest) h = (
    record {
      known = h.0.0;
      changed = reasons-IsChange _ (
          Every-sorted (λ f g. text_leb f.0 g.0) (IsFile w specs (sorted_raws w specs changes))
            files h.0.1);
    },
    rows-IsRow rest h.1,
  )

  -- Every row that changed files select is an environment that its chart has, and each of its
  -- reasons is about one of the changed files.
  pub reasons_for-EveryRow : Every IsRow (reasons_for w specs changes).reasons
  unfolding reasons_for
  reasons_for-EveryRow =
      let raws = sorted_raws w specs changes in
      let seen = examine_all-IsSeen w specs raws raws _ (contained_each raws) (tt, tt) in
      rows-IsRow _ (fanout_all-Every w specs raws _ _ seen.1 seen.0)
    where
      contained_each : (xs : List Text) → Every (λ x. contains xs x ≡ true) xs
      contained_each xs = Every-of_mem (λ x. contains xs x ≡ true) xs (λ x m. contains_of_mem m)
