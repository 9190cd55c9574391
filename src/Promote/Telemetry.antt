-- ===== src/Promote/Telemetry.antt =====
-- commands/promote/telemetry.py: the promotion events of one run. The ledger is the list of the
-- events that the store took; `accepts` says which it takes. A refused write is swallowed
-- (shared/events/failure.py, `emit_non_fatal` without `strict`).
pub mod Laws
use lab_charts.Base.{ℕ, Bool, Option, none, some, List, [], ◌∷◌, ◌++◌, if◌then◌else◌, Text, text}
use lab_charts.Events.Model.{
  PromotionPhase, word, number, Detail, PlatformLifecycleEvent, Links, compose_promote,
}
use lab_charts.Promote.State.{
  Verdict, verdict_value, Stage, stage_value, start_phase, terminal_phases,
}

pub record EventWriter : Type 0 where
  pub source : Text
  pub accepts : PlatformLifecycleEvent → Bool

abbrev pub Ledger : Type 0
Ledger = List PlatformLifecycleEvent

-- `EventWriter.promote` under `emit_non_fatal`
unfoldable pub emit_promotion : EventWriter → PlatformLifecycleEvent → Ledger → Ledger
emit_promotion writer event ledger = if writer.accepts event then ledger ++ event ∷ [] else ledger

pub record PromotionTelemetry : Type 0 where
  pub writer : EventWriter
  pub chart_name : Text
  pub version : Text
  pub environment : Option Text

-- the event that a run records for a phase in an environment
unfoldable pub promotion_event :
    PromotionTelemetry → Text → PromotionPhase → Detail → PlatformLifecycleEvent
unfolding compose_promote
promotion_event t environment phase detail =
    compose_promote t.writer.source t.chart_name t.version environment phase (record {
      images = [];
      build_correlation_id = none;
      promotion_correlation_id = none;
      pr_url = none;
      git_sha = none;
      detail = some detail;
    })

-- `_emit`: nothing without an environment
emit_in : PromotionTelemetry → Option Text → PromotionPhase → Detail → Ledger → Ledger
emit_in t none phase detail ledger = ledger
emit_in t (some environment) phase detail ledger =
    emit_promotion t.writer (promotion_event t environment phase detail) ledger

unfoldable pub emit : PromotionTelemetry → PromotionPhase → Detail → Ledger → Ledger
unfolding emit_in emit_promotion
emit t phase detail ledger = emit_in t t.environment phase detail ledger

unfoldable pub emit_all : PromotionTelemetry → List PromotionPhase → Detail → Ledger → Ledger
unfolding emit
emit_all t [] detail ledger = ledger
emit_all t (phase ∷ phases) detail ledger = emit_all t phases detail (emit t phase detail ledger)

unfoldable pub started_detail : Stage → ℕ → Detail
started_detail stage matched =
    (text "stage", word (stage_value stage)) ∷ (text "matched", number matched) ∷ []

unfoldable pub finished_detail : Stage → Verdict → ℕ → ℕ → Detail
finished_detail stage verdict total failures =
    (text "stage", word (stage_value stage))
    ∷ (text "verdict", word (verdict_value verdict))
    ∷ (text "total", number total)
    ∷ (text "failures", number failures)
    ∷ []

unfoldable pub started : PromotionTelemetry → Stage → ℕ → Ledger → Ledger
unfolding emit
started t stage matched ledger = emit t (start_phase stage) (started_detail stage matched) ledger

unfoldable pub finished : PromotionTelemetry → Stage → Verdict → ℕ → ℕ → Ledger → Ledger
unfolding emit_all
finished t stage verdict total failures ledger =
    emit_all t (terminal_phases stage verdict) (finished_detail stage verdict total failures) ledger
