-- ===== src/Upgrade/Finalize/Decisions.antt =====
-- The bump that finalize decides on, and that it decides on it again at its target.
use lab_charts.Base.{
  ℕ, suc, Bool, true, false, ◌||◌, Option, none, some, List, [], ◌∷◌, any, keep, nat_eq, list_eq,
  ◌==◌, ◌≡◌, ◌≢◌, refl, sym, ap, subst, ◌∙◌, inl, inr, arith, Bool-cases, beq_refl, eq_of_beq,
  and_true,
}
use lab_charts.Plumbing.SemVer.{SemVer, show_version, parse_bare_version}
use lab_charts.Plumbing.SemVer.RoundTrip.{bare, parse_bare_version-bare}
use lab_charts.Plumbing.Yaml.{Yaml}
use lab_charts.Upgrade.Models.{UpdateMetadata, qualifies}
use lab_charts.Upgrade.Finalize.{
  Final, UpgradeError, done, failed, if_strict, wrapper_version, is_major, version_beq, Bump,
  is_incomplete, target_of, bump_for, decide_qualifying, decide,
}

-- a version that finalize moves to has three numbers
pub record IsBare (v : SemVer) : Type 0 where
  pub major : ℕ
  pub minor : ℕ
  pub patch : ℕ
  pub is : v ≡ bare major minor patch

target_of-IsBare : (baseline : SemVer) (major : Bool) → IsBare (target_of baseline major)
unfolding target_of
target_of-IsBare baseline true = record {
  major = suc baseline.major;
  minor = 0;
  patch = 0;
  is = refl;
}
target_of-IsBare baseline false = record {
  major = baseline.major;
  minor = baseline.minor;
  patch = suc baseline.patch;
  is = refl;
}

pub wrapper_version-target :
    (v : SemVer) → IsBare v → wrapper_version (some (Yaml.string (show_version v))) ≡ done v
unfolding wrapper_version if_strict
wrapper_version-target v b =
    ap (λ x. if_strict (parse_bare_version (show_version x))) b.is
    ∙ (ap if_strict (parse_bare_version-bare b.major b.minor b.patch) ∙ ap done (sym b.is))

pub version_beq_refl : (v : SemVer) → version_beq v v ≡ true
unfolding version_beq
version_beq_refl v =
    rw
      (
        beq_refl v.major,
        beq_refl v.minor,
        beq_refl v.patch,
        beq_refl v.prerelease,
        beq_refl v.build,
      )
      refl

none_is_no_some : {b : Bump} → ◌≢◌ {A = Final (Option Bump)} (done none) (done (some b))
none_is_no_some h = cc

failed_is_not_done : {A : Type 0} {x : UpgradeError} {a : A} → failed x ≢ done a
failed_is_not_done h = cc

some_injective :
    {a b : Bump} → ◌≡◌ {A = Final (Option Bump)} (done (some a)) (done (some b)) → a ≡ b
some_injective h = cc

bump_for-IsBare :
    (baseline : SemVer) (us : List UpdateMetadata) → IsBare (bump_for baseline us).target
unfolding bump_for
bump_for-IsBare baseline us = target_of-IsBare baseline (any is_major us)

bump_for-updates :
    (baseline : SemVer) (us : List UpdateMetadata) → us ≡ (bump_for baseline us).updates
unfolding bump_for
bump_for-updates baseline us = refl

bump_for-decided :
    (baseline : SemVer) (u : UpdateMetadata) (us : List UpdateMetadata)
    → decide_qualifying baseline (bump_for baseline (u ∷ us)).target (u ∷ us)
      ≡ done (some (bump_for baseline (u ∷ us)))
unfolding decide_qualifying
bump_for-decided baseline u us =
    let t = (bump_for baseline (u ∷ us)).target in
    rw (any_true (version_beq t baseline) (version_beq t t) (version_beq_refl t)) refl
  where
    any_true : (a b : Bool) → b ≡ true → (a || b) ≡ true
    any_true a b h = ground arith

pub version_beq-eq : (a b : SemVer) → version_beq a b ≡ true → a ≡ b
unfolding version_beq
version_beq-eq a b h =
    let (p, h1) = and_true (a.major == b.major) _ h in
    let (q, h2) = and_true (a.minor == b.minor) _ h1 in
    let (r, h3) = and_true (a.patch == b.patch) _ h2 in
    let (s, t) = and_true (a.prerelease == b.prerelease) (a.build == b.build) h3 in
    fields (eq_of_beq p) (eq_of_beq q) (eq_of_beq r) (eq_of_beq s) (eq_of_beq t)
  where
    fields :
        a.major ≡ b.major
        → a.minor ≡ b.minor
        → a.patch ≡ b.patch
        → a.prerelease ≡ b.prerelease
        → a.build ≡ b.build
        → a ≡ b
    fields p q r s t i = record {
      major = p i;
      minor = q i;
      patch = r i;
      prerelease = s i;
      build = t i;
    }

-- what a decision for a bump says of it, and that it stands at the bump's target
decide_qualifying-target :
    (baseline current : SemVer) (us : List UpdateMetadata) {bump : Bump}
    → decide_qualifying baseline current us ≡ done (some bump)
    → IsBare bump.target
      × (us ≡ bump.updates)
      × (decide_qualifying baseline bump.target us ≡ done (some bump))
unfolding decide_qualifying
decide_qualifying-target baseline current [] h = elim (Bool-cases (version_beq current baseline)) [
  | inl e ↦ absurd (none_is_no_some (rw e at h))
  | inr e ↦ absurd (failed_is_not_done (rw e at h))
]
decide_qualifying-target baseline current (u ∷ us) h =
    elim (Bool-cases
      (version_beq current baseline || version_beq current (bump_for baseline (u ∷ us)).target)) [
        | inl e ↦
            let b = some_injective (rw e at h) in
            (
              subst (λ (x : Bump). IsBare x.target) b (bump_for-IsBare baseline (u ∷ us)),
              bump_for-updates baseline (u ∷ us) ∙ ap (λ (x : Bump). x.updates) b,
              subst (λ (x : Bump). decide_qualifying baseline x.target (u ∷ us) ≡ done (some x)) b
                  (bump_for-decided baseline u us),
            )
        | inr e ↦ absurd (failed_is_not_done (rw e at h))
      ]

pub decide-target :
    (baseline current : SemVer) (us : List UpdateMetadata) {bump : Bump}
    → decide baseline current us ≡ done (some bump)
    → IsBare bump.target
      × (keep qualifies us ≡ bump.updates)
      × (decide baseline bump.target us ≡ done (some bump))
unfolding decide
decide-target baseline current us h = elim (Bool-cases (any is_incomplete (keep qualifies us))) [
  | inl e ↦ absurd (failed_is_not_done (rw e at h))
  | inr e ↦ rw e (decide_qualifying-target baseline current (keep qualifies us) (rw e at h))
]
