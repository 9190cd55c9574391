-- ===== src/Cluster/Converge/Failures.antt =====
-- What `converge` raises.
use lab_charts.Base.{true, false, ◌≡◌, Text, text}
use lab_charts.Cluster.Effects.{Failure, release_failed, is_reported, returned, threw}
use lab_charts.Cluster.Tools.{Tools, Release}
use lab_charts.Cluster.Converge.{update_dependencies, install_release, wait, release_failed_message}

module _ (t : Tools) (r : Release) where
  -- Which of the three parts of `converge`, begun at `w`, raised, and where the outside stood then: the
  -- parts before it have returned.
  pub data PartRaised (w : t.Outside) : Text → Failure → t.Outside → Type 0 where
    in_dependencies :
        (x : Failure) (v : t.Outside)
        → update_dependencies t r.chart w ≡ (threw x, v)
        → PartRaised w (text "dependency update") x v
    in_install :
        (w1 : t.Outside) (x : Failure) (v : t.Outside)
        → update_dependencies t r.chart w ≡ (returned tt, w1)
        → install_release t r w1 ≡ (threw x, v)
        → PartRaised w (text "install") x v
    in_wait :
        (w1 w2 : t.Outside) (status : Text) (x : Failure) (v : t.Outside)
        → update_dependencies t r.chart w ≡ (returned tt, w1)
        → install_release t r w1 ≡ (returned status, w2)
        → wait t r w2 ≡ (threw x, v)
        → PartRaised w (text "wait") x v

  -- An exception of `converge` is one that a part raised and it lets through, or a ReleaseFailed that
  -- names the release, the part that raised and the cause, with the diagnostics read next, or what
  -- reading these raised.
  pub data IsExplained (w w' : t.Outside) : Failure → Type 0 where
    passed_on :
        (step : Text) (x : Failure)
        → PartRaised w step x w'
        → is_reported x ≡ false
        → IsExplained w w' x
    step_named :
        (step : Text) (cause : Failure) (v : t.Outside) (diagnostics : Text)
        → PartRaised w step cause v
        → is_reported cause ≡ true
        → t.diagnostics r.namespace v ≡ (returned diagnostics, w')
        → IsExplained w w' (release_failed (release_failed_message r step cause) diagnostics)
    no_diagnostics :
        (step : Text) (cause : Failure) (v : t.Outside) (x : Failure)
        → PartRaised w step cause v
        → is_reported cause ≡ true
        → t.diagnostics r.namespace v ≡ (threw x, w')
        → IsExplained w w' x
