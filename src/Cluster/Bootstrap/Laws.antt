-- ===== src/Cluster/Bootstrap/Laws.antt =====
-- When bootstrap's check of a cluster passes, and what has been installed when bootstrap returns.
use lab_charts.Base.{
  ℕ, true, List, [], ◌∷◌, ◌++◌, all, nat_eq, list_eq, pair_eq, contains, ◌≡◌, refl, ◌↔◌, inl, inr,
  Bool-cases, Every, Text,
}
use lab_charts.Cluster.Effects.{Try, returned, threw, Returned}
use lab_charts.Cluster.Tools.{Tools, Release}
use lab_charts.Cluster.Converge.Ready.{IsReady}
use lab_charts.Cluster.Releases.{Repository}
use lab_charts.Cluster.Bootstrap.{
  BootstrapStep, BootstrapOutcome, Session, releases, require_releases, require_step, verify_next,
  verify,
}
use lab_charts.Cluster.Bootstrap.Install.{runtime_values, wait_ready}

abbrev pub AllPresent : List (Text × Text) → Try (List (Release × Text)) → Type 0
AllPresent present (returned rs) =
    all (λ (r : Release × Text). contains present (r.0.namespace, r.0.name)) rs ≡ true
AllPresent present (threw x) = ⊥

require_releases_iff :
    (present : List (Text × Text)) (rs : List (Release × Text))
    → (require_releases present rs ≡ returned tt) ↔ AllPresent present (returned rs)
unfolding require_releases all
require_releases_iff present [] = (λ h. refl, λ h. refl)
require_releases_iff present ((r, label) ∷ rs) =
    let rest = require_releases_iff present rs in
    elim (Bool-cases (contains present (r.namespace, r.name))) [
      | inl e ↦ rw (e) rest
      | inr e ↦ rw (e) (λ h. cc, λ h. cc)
    ]

require_step_iff :
    (p : Repository) (present : List (Text × Text)) (found : Try (List (Release × Text)))
    → (require_step p present found ≡ returned tt) ↔ AllPresent present found
unfolding require_step
require_step_iff p present (returned rs) = require_releases_iff present rs
require_step_iff p present (threw x) = (λ h. cc, λ h. absurd h)

verify_next_iff :
    (p : Repository) (first rest : Try Unit)
    → (verify_next p first rest ≡ returned tt) ↔ (first ≡ returned tt) × (rest ≡ returned tt)
unfolding verify_next
verify_next_iff p (returned tt) rest = (λ h. (refl, h), λ h. h.1)
verify_next_iff p (threw x) rest = (λ h. cc, λ h. cc)

-- The check of a cluster passes exactly when each release of each step, as it is installed without
-- runtime values, is among those present, and each step's releases can be told.
pub verify_iff :
    (p : Repository) (steps : List BootstrapStep) (present : List (Text × Text))
    → (verify p steps present ≡ returned tt)
      ↔ Every (λ s. AllPresent present (releases p s [])) steps
unfolding verify
verify_iff p [] present = (λ h. tt, λ h. refl)
verify_iff p (s ∷ rest) present =
    let (split, both) =
      verify_next_iff p (require_step p present (releases p s [])) (verify p rest present) in
    let (fst, snd) = require_step_iff p present (releases p s []) in
    let (down, up) = verify_iff p rest present in
    (λ h. let (a, b) = split h in (fst a, down b), λ h. both (snd h.0, up h.1))

module _ (t : Tools) (p : Repository) where
  -- the release was applied, at some point, with the status
  pub record IsApplied (r : Release) (status : Text) : Type 0 where
    pub timeout : ℕ
    pub limited : t.parse_duration r.timeout ≡ returned timeout
    pub upgraded : Returned (t.upgrade_install r timeout) status

  -- what `bootstrap` reports of a release that it has installed: it was applied with the status that
  -- is reported, and is ready
  abbrev pub Installed : Release × Text → BootstrapOutcome → Type 0
  Installed (r, label) o =
      IsApplied r o.status
      × IsReady t r
      × (o.name ≡ r.name)
      × (o.profile ≡ label)
      × (o.namespace ≡ r.namespace)

  -- two lists that correspond, element by element
  abbrev pub Pairwise : List (Release × Text) → List BootstrapOutcome → Type 0
  Pairwise [] [] = Unit
  Pairwise (r ∷ rs) (o ∷ os) = Installed r o × Pairwise rs os
  Pairwise _ _ = ⊥

  -- Runtime values were read, the step's releases installed, and its gates passed.
  pub record IsBootstrapped (session : Session) (s : BootstrapStep)
      (outcomes : List BootstrapOutcome) : Type 0 where
    pub sets : List (Text × Text)
    pub installs : List (Release × Text)
    pub read : Returned (runtime_values t p session s.authored.runtime_values) sets
    pub planned : releases p s sets ≡ returned installs
    pub ready : Pairwise installs outcomes
    pub gated : Returned (wait_ready t p s.authored.source s.authored.readiness) tt

  -- The outcomes of a bootstrap are those of its steps, one after the other.
  abbrev pub AllBootstrapped : Session → List BootstrapStep → List BootstrapOutcome → Type 0
  AllBootstrapped session [] outcomes = [] ≡ outcomes
  AllBootstrapped session (s ∷ steps) outcomes =
      (own others : List BootstrapOutcome) × IsBootstrapped session s own
      × AllBootstrapped session steps others
      × (own ++ others ≡ outcomes)
