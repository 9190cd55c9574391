-- ===== src/Promote/Telemetry/Laws.antt =====
-- What the events of commands/promote/telemetry.py add to the ledger.
use mathlib.Core.List.{map-append}
use lab_charts.Base.{
  ℕ, true, Option, some, List, [], ◌∷◌, ◌++◌, map, append_assoc, append-nil, ◌≡◌, sym, ap, ◌∙◌,
  Text,
}
use lab_charts.Events.Model.{PromotionPhase, Detail, PlatformLifecycleEvent}
use lab_charts.Promote.State.{Verdict, Stage, start_phase, terminal_phases}
use lab_charts.Promote.Telemetry.{
  PromotionTelemetry, Ledger, emit, emit_all, promotion_event, started, finished,
}

abbrev pub phases : Ledger → List (Option PromotionPhase)
phases ledger = map (λ (e : PlatformLifecycleEvent). e.promotion_phase) ledger

-- A telemetry that records: it has an environment, and the store takes every event.
pub record IsRecording (t : PromotionTelemetry) : Type 0 where
  pub environment : Text
  pub set : t.environment ≡ some environment
  pub accepting : (e : PlatformLifecycleEvent) → t.writer.accepts e ≡ true

module _ {t : PromotionTelemetry} (r : IsRecording t) where
  phases-emit :
      (p : PromotionPhase) (d : Detail) (l : Ledger)
      → phases (emit t p d l) ≡ phases l ++ some p ∷ []
  unfolding emit promotion_event
  phases-emit p d l =
      rw (r.set, r.accepting) (map-append (λ (e : PlatformLifecycleEvent). e.promotion_phase) l _)

  pub phases-emit_all :
      (ps : List PromotionPhase) (d : Detail) (l : Ledger)
      → phases (emit_all t ps d l) ≡ phases l ++ map some ps
  unfolding emit_all
  phases-emit_all [] d l = sym (append-nil (phases l))
  phases-emit_all (p ∷ ps) d l =
      phases-emit_all ps d (emit t p d l)
      ∙ ap (λ (x : List (Option PromotionPhase)). x ++ map some ps) (phases-emit p d l)
      ∙ append_assoc (phases l) (some p ∷ []) (map some ps)

  pub phases-started :
      (s : Stage) (n : ℕ) (l : Ledger)
      → phases (started t s n l) ≡ phases l ++ some (start_phase s) ∷ []
  unfolding started
  phases-started s n l = phases-emit _ _ l

  pub phases-finished :
      (s : Stage) (v : Verdict) (n m : ℕ) (l : Ledger)
      → phases (finished t s v n m l) ≡ phases l ++ map some (terminal_phases s v)
  unfolding finished
  phases-finished s v n m l = phases-emit_all _ _ l
