-- ===== src/Upgrade/Finalize/Again.antt =====
-- A wrapper chart that is finalized twice.
use lab_charts.Base.{
  Bool, true, false, ◌||◌, Option, none, some, List, [], ◌∷◌, keep, nat_eq, list_eq, ◌≡◌, refl, sym,
  ap, subst, ◌∙◌, inl, inr, Bool-cases, beq_refl, Every, Text,
}
use lab_charts.Plumbing.SemVer.{SemVer, show_version}
use lab_charts.Plumbing.Yaml.{Entries}
use lab_charts.Upgrade.Changelog.{
  keep_lines, from_heading, drop_line_feeds, apply_changelog_entry, changelog_entry,
}
use lab_charts.Upgrade.Changelog.Entry.{is_plain, changelog_entry-IsEntry}
use lab_charts.Upgrade.Changelog.Laws.Again.{apply_changelog_entry-again}
use lab_charts.Upgrade.Models.{UpdateMetadata, qualifies}
use lab_charts.Upgrade.Finalize.{
  done, ◌>>=◌, >>=-done, Array, ChartFile, ChartFiles, wrapper_version, version_beq, Bump, decide,
  FinalizeResult, heading_of, write, conclude, updates_for, run,
}
use lab_charts.Upgrade.Finalize.Decisions.{
  IsBare, wrapper_version-target, version_beq_refl, version_beq-eq, decide-target,
}
use lab_charts.Upgrade.Finalize.Headings.{heading_of-IsHeading}

keep-Every :
    (p : UpdateMetadata → Bool) (us : List UpdateMetadata)
    → Every (λ u. is_plain u ≡ true) us
    → Every (λ u. is_plain u ≡ true) (keep p us)
unfolding keep
keep-Every p [] h = tt
keep-Every p (u ∷ us) h = elim (Bool-cases (p u)) [
  | inl e ↦ rw e (h.0, keep-Every p us h.1)
  | inr e ↦ rw e (keep-Every p us h.1)
]

-- what a bump writes into the changelog
abbrev written : Bump → Text → Text
written bump changelog =
    apply_changelog_entry changelog (heading_of bump.target)
      (changelog_entry (heading_of bump.target) bump.updates)

-- a changelog that holds nothing but sections, after any line feeds
abbrev pub HoldsSections : Text → Type 0
HoldsSections changelog =
    from_heading (keep_lines (drop_line_feeds changelog)) ≡ keep_lines (drop_line_feeds changelog)

changelog-write :
    (current : SemVer) (bump : Bump) (files : ChartFiles)
    → (write current bump files).2.changelog ≡ written bump files.changelog
unfolding write
changelog-write current bump files = refl

write-unchanged :
    (bump : Bump) (files : ChartFiles)
    → written bump files.changelog ≡ files.changelog
    → write bump.target bump files ≡ (false, false, files)
unfolding write
write-unchanged bump files h = rw (version_beq_refl bump.target, h, beq_refl files.changelog) refl

write-again :
    (current : SemVer) (bump : Bump) (files : ChartFiles)
    → IsBare bump.target
    → Every (λ u. is_plain u ≡ true) bump.updates
    → HoldsSections files.changelog
    → write bump.target bump (write current bump files).2
      ≡ (false, false, (write current bump files).2)
write-again current bump files b plain sections =
    let w = changelog-write current bump files in
    let entry =
      changelog_entry-IsEntry (heading_of bump.target) bump.updates
        (heading_of-IsHeading bump.target b) plain in
    write-unchanged bump (write current bump files).2 (
      ap (written bump) w
      ∙ (apply_changelog_entry-again (heading_of bump.target)
            (changelog_entry (heading_of bump.target) bump.updates) entry files.changelog
            (λ _. sections)
          ∙ sym w))

-- the version that a write leaves reads as the target
version-write :
    (current : SemVer) (bump : Bump) (files : ChartFiles)
    → wrapper_version files.chart.version ≡ done current
    → IsBare bump.target
    → wrapper_version (write current bump files).2.chart.version ≡ done bump.target
unfolding write
version-write current bump files h b = elim (Bool-cases (version_beq current bump.target)) [
  | inl e ↦ rw e (h ∙ ap done (version_beq-eq current bump.target e))
  | inr e ↦ rw e (wrapper_version-target bump.target b)
]

dependencies-write :
    (current : SemVer) (bump : Bump) (files : ChartFiles)
    → (write current bump files).2.chart.dependencies ≡ files.chart.dependencies
unfolding write
dependencies-write current bump files = elim (Bool-cases (version_beq current bump.target)) [
  | inl e ↦ rw e refl
  | inr e ↦ rw e refl
]

-- a result, with nothing changed
abbrev pub unchanged : FinalizeResult → FinalizeResult
unchanged r = record r { changed = false }

-- a bump whose writing changes nothing
conclude-unchanged :
    (baseline current : SemVer) (bump : Bump) (files : ChartFiles)
    → write bump.target bump (write current bump files).2
      ≡ (false, false, (write current bump files).2)
    → conclude baseline bump.target (some bump) (conclude baseline current (some bump) files).1 ≡ (
      unchanged (conclude baseline current (some bump) files).0,
      (conclude baseline current (some bump) files).1,
    )
unfolding conclude
conclude-unchanged baseline current bump files h = ap (λ (w : Bool × Bool × ChartFiles). result w) h
  where
    result : Bool × Bool × ChartFiles → FinalizeResult × ChartFiles
    result w = (
      record {
        previous_version = show_version bump.previous;
        version = show_version bump.target;
        changed = w.0 || w.1;
      },
      w.2,
    )

done_injective : {A : Type 0} {a b : A} → done a ≡ done b → a ≡ b
done_injective h = cc

module _ (show_mapping : Entries → Text) (head : ChartFile) (data_updates : Array) where
  run_steps :
      (baseline current : SemVer) (us : List UpdateMetadata) (bump : Option Bump)
      (files : ChartFiles)
      → wrapper_version head.version ≡ done baseline
      → wrapper_version files.chart.version ≡ done current
      → updates_for show_mapping head data_updates files.chart.dependencies ≡ done us
      → decide baseline current us ≡ done bump
      → run show_mapping head data_updates files ≡ done (conclude baseline current bump files)
  unfolding run ◌>>=◌
  run_steps baseline current us bump files hb hc hu hd = rw (hb, hc, hu, hd) refl

  conclude_again :
      (baseline current : SemVer) (us : List UpdateMetadata) (bump : Option Bump)
      (files : ChartFiles)
      → wrapper_version head.version ≡ done baseline
      → wrapper_version files.chart.version ≡ done current
      → updates_for show_mapping head data_updates files.chart.dependencies ≡ done us
      → decide baseline current us ≡ done bump
      → Every (λ u. is_plain u ≡ true) us
      → HoldsSections files.changelog
      → run show_mapping head data_updates (conclude baseline current bump files).1
        ≡ done (
          unchanged (conclude baseline current bump files).0,
          (conclude baseline current bump files).1,
        )
  unfolding conclude
  conclude_again baseline current us none files hb hc hu hd plain sections =
      run_steps baseline current us none files hb hc hu hd
  conclude_again baseline current us (some bump) files hb hc hu hd plain sections =
      let (b, q, again) = decide-target baseline current us hd in
      let ps = subst (λ x. Every (λ u. is_plain u ≡ true) x) q (keep-Every qualifies us plain) in
      run_steps baseline bump.target us (some bump) (write current bump files).2 hb
        (version-write current bump files hc b)
        (ap (updates_for show_mapping head data_updates) (dependencies-write current bump files)
          ∙ hu)
        again
      ∙ ap done (
          conclude-unchanged baseline current bump files
            (write-again current bump files b ps sections))

  -- Finalizing a chart that has been finalized succeeds, reports the same versions and no change, and
  -- leaves its files as they are, where no update's text breaks a line and the changelog was made of
  -- sections.
  pub run-again :
      (files : ChartFiles) {r : FinalizeResult} {after : ChartFiles} (us : List UpdateMetadata)
      → run show_mapping head data_updates files ≡ done (r, after)
      → updates_for show_mapping head data_updates files.chart.dependencies ≡ done us
      → Every (λ u. is_plain u ≡ true) us
      → HoldsSections files.changelog
      → run show_mapping head data_updates after ≡ done (unchanged r, after)
  unfolding run
  run-again files us h hu plain sections =
      let (baseline, eb, h1) = >>=-done (wrapper_version head.version) _ h in
      let (current, ec, h2) = >>=-done (wrapper_version files.chart.version) _ h1 in
      let (vs, eu, h3) =
        >>=-done (updates_for show_mapping head data_updates files.chart.dependencies) _ h2 in
      let (bump, ed, h4) = >>=-done (decide baseline current vs) _ h3 in
      let same : vs ≡ us = done_injective (sym eu ∙ hu) in
      subst
        (λ (p : FinalizeResult × ChartFiles).
          run show_mapping head data_updates p.1 ≡ done (unchanged p.0, p.1))
        (done_injective h4)
        (conclude_again baseline current vs bump files eb ec eu ed
          (subst (λ x. Every (λ u. is_plain u ≡ true) x) (sym same) plain) sections)
