-- ===== src/Test/Plan/Merging.antt =====
-- How `compile_plan` (commands/test/plan.py) merges the requested install plans into one list.
use mathlib.Core.List.{map-append}
use lab_charts.Base.{
  ℕ, Bool, true, false, not, ◌&&◌, Option, none, List, [], ◌∷◌, ◌++◌, map, all, all-append,
  contains, contains-append, contains-singleton, beq_comm, beq_refl, ◌==◌, nat_eq, list_eq, pair_eq,
  ◌≡◌, refl, ap, ◌∙◌, subst, arith, Text, Bool-cases, Option-cases, inl, inr,
}
use lab_charts.Charts.Result.{Key, ok, >>=-eq-ok, ok-injective, err-is-no-ok}
use lab_charts.Charts.InstallPlan.{InstallPlanEntry, entry_key, install_plan}
use lab_charts.Test.Plan.{
  Surroundings, Entries, find_entry, set_default, merge_all, relocate, merge_requested,
}

-- No key stands twice.
abbrev pub distinct : List Key → Bool
distinct [] = true
distinct (x ∷ xs) = not (contains xs x) && distinct xs

abbrev pub keys_of : Entries → List Key
keys_of entries = map (λ (x : Key × InstallPlanEntry). x.0) entries

-- Each entry stands under its own key, and no key stands twice.
pub record IsMerged (entries : Entries) : Type 0 where
  pub keyed : all (λ (x : Key × InstallPlanEntry). x.0 == entry_key x.1) entries ≡ true
  pub apart : distinct (keys_of entries) ≡ true

find_entry-none :
    (key : Key) (entries : Entries)
    → find_entry key entries ≡ none
    → contains (keys_of entries) key ≡ false
unfolding find_entry contains
find_entry-none key [] h = refl
find_entry-none key ((k, e) ∷ rest) h = elim (Bool-cases (k == key)) [
  | inl t ↦ absurd (cc (rw t at h))
  | inr f ↦ rw (beq_comm key k, f) (find_entry-none key rest (rw f at h))
]

distinct-snoc :
    (xs : List Key) (k : Key)
    → distinct xs ≡ true
    → contains xs k ≡ false
    → distinct (xs ++ k ∷ []) ≡ true
unfolding contains
distinct-snoc [] k d h = refl
distinct-snoc (x ∷ xs) k d h =
    ground (
      arith,
      contains-append xs (k ∷ []) x,
      contains-singleton k x,
      beq_comm k x,
      distinct-snoc xs k,
    )

set_default-IsMerged :
    (x : InstallPlanEntry) (entries merged : Entries)
    → IsMerged entries
    → set_default x entries (find_entry (entry_key x) entries) ≡ ok merged
    → IsMerged merged
unfolding set_default all
set_default-IsMerged x entries merged m h = elim (Option-cases (find_entry (entry_key x) entries)) [
  | inl e ↦ subst IsMerged (ok-injective (rw e at h)) (record {
    keyed = all-append _ entries ((entry_key x, x) ∷ []) ∙ rw (m.keyed, beq_refl (entry_key x));
    apart =
        ap distinct
          (map-append (λ (y : Key × InstallPlanEntry). y.0) entries ((entry_key x, x) ∷ []))
        ∙ distinct-snoc (keys_of entries) (entry_key x) m.apart
            (find_entry-none (entry_key x) entries e);
  })
  | inr (first, e) ↦ elim (Bool-cases (first.namespace == x.namespace)) [
    | inl t ↦ subst IsMerged (ok-injective (rw (e, t) at h)) m
    | inr f ↦ absurd (err-is-no-ok (rw (e, f) at h))
  ]
]

merge_all-IsMerged :
    (xs : List InstallPlanEntry) (entries merged : Entries)
    → IsMerged entries
    → merge_all xs entries ≡ ok merged
    → IsMerged merged
unfolding merge_all
merge_all-IsMerged [] entries merged m h = subst IsMerged (ok-injective h) m
merge_all-IsMerged (x ∷ xs) entries merged m h =
    let (next, first, rest) =
      >>=-eq-ok (set_default x entries (find_entry (entry_key x) entries)) _ h in
    merge_all-IsMerged xs next merged (set_default-IsMerged x entries next m first) rest

module _ (r : Surroundings) where
  pub merge_requested-IsMerged :
      (depth : ℕ) (namespace : Option Text) (keys : List Key) (entries merged : Entries)
      → IsMerged entries
      → merge_requested r depth namespace keys entries ≡ ok merged
      → IsMerged merged
  unfolding merge_requested
  merge_requested-IsMerged depth namespace [] entries merged m h = subst IsMerged (ok-injective h) m
  merge_requested-IsMerged depth namespace ((chart, profile) ∷ rest) entries merged m h =
      let (plan, _, h1) = >>=-eq-ok (install_plan r.checkout depth chart profile) _ h in
      let (next, first, last) = >>=-eq-ok (merge_all (relocate namespace plan) entries) _ h1 in
      merge_requested-IsMerged depth namespace rest next merged
        (merge_all-IsMerged (relocate namespace plan) entries next m first) last

pub no_entries-IsMerged : IsMerged []
unfolding all
no_entries-IsMerged = record { keyed = refl; apart = refl }
