-- ===== src/Promote/Monitor/Explained.antt =====
-- Every verdict of a watch is explained by what the watcher last saw (commands/promote/monitor.py,
-- `_evaluate` and the loop around it).
use lab_charts.Base.{
  ℕ, ◌≤◌, ◌<◌, true, false, Option, none, some, List, length, ◌≡◌, refl, ◌⊎◌, inl, inr, arith, Text,
  subst,
}
use lab_charts.Promote.State.{Verdict, Reason, member, ReasonLike}
use lab_charts.Promote.Status.{HelmReleaseStatus, WorkloadRollout}
use lab_charts.Promote.Classify.{Decision, terminal, waiting, classify}
use lab_charts.Promote.Classify.Laws.{verdict_of, has_failed, rolled_out, classify_verdict}
use lab_charts.Promote.Fanout.{transitions_max}
use lab_charts.Promote.Action.Triples.{Triple, Triple-pure, Triple-bind, Triple-if}
use lab_charts.Promote.World.{World, Context, IsMonotonic}
use lab_charts.Promote.Monitor.{Target, End, decide, redecide, settle, evaluate}
use lab_charts.Promote.Monitor.Steps.{
  At, record_phase-Quiet, record_new-Quiet, list_workloads-Quiet, set_workloads-Triple,
}

-- What the last status and the last workloads have to show for a verdict that `classify` gives.
abbrev pub Cause : Text → HelmReleaseStatus → List WorkloadRollout → Verdict → Type 0
Cause version s ws Verdict.ready =
    (s.suspended ≡ false) × (has_failed s ≡ false) × (rolled_out s version (some ws) ≡ true)
Cause version s ws Verdict.failed = (s.suspended ≡ false) × (has_failed s ≡ true)
Cause version s ws Verdict.skipped_suspended = s.suspended ≡ true
Cause version s ws _ = ⊥

classify-Cause :
    (version : Text) (s : HelmReleaseStatus) (ws : List WorkloadRollout) (v : Verdict)
    → verdict_of (classify s version (some ws)) ≡ some v
    → Cause version s ws v
classify-Cause version s ws Verdict.ready h = ground (arith, classify_verdict s version (some ws))
classify-Cause version s ws _ h = ground (arith, classify_verdict s version (some ws))

pub classify-none-Cause :
    (version : Text) (s : HelmReleaseStatus) (ws : List WorkloadRollout) (v : Verdict)
    → verdict_of (classify s version none) ≡ some v
    → Cause version s ws v
classify-none-Cause version s ws Verdict.ready h = ground (arith, classify_verdict s version none)
classify-none-Cause version s ws _ h = ground (arith, classify_verdict s version none)

module _ (e : World) (mono : IsMonotonic e) (g : Target) where
  -- the run was cancelled, in a state not after the context `c`
  abbrev pub WasCancelled : Context e → Type 0
  WasCancelled c = (w : e.Outside) × ((e.cancel_is_set w).0 ≡ true) × (e.now w ≤ e.now c.outside)

  -- a state not after the context `c` had its clock at the per-HR deadline, but before the total one
  abbrev pub OverOwnBudget : Context e → Type 0
  OverOwnBudget c =
      (w : e.Outside) × (g.hr_deadline ≤ e.now w)
      × (e.now w < g.total_deadline)
      × (e.now w ≤ e.now c.outside)

  -- The verdict of a watch that ends in the context `c`: a timeout names the budget that has run
  -- out, or the run was cancelled; a failure shows in the last status, or the release is gone.
  abbrev pub Explained : Verdict → ReasonLike → Context e → Type 0
  Explained Verdict.timed_out reason c =
      ((reason ≡ member Reason.total_budget_exhausted)
        × (WasCancelled c ⊎ (g.total_deadline ≤ e.now c.outside)))
      ⊎ ((reason ≡ member Reason.per_hr_budget_exhausted) × OverOwnBudget c)
  Explained v reason c =
      ((v ≡ Verdict.failed) × (reason ≡ member Reason.disappeared))
      ⊎ ((s : HelmReleaseStatus) × (c.last_status ≡ some s) × Cause g.version s c.last_workloads v)

  -- an end that is explained, with the transitions within their cap
  pub record Done (end : End) (c : Context e) : Type 0 where
    pub why : Explained end.0 end.1 c
    pub bounded : length c.transitions ≤ transitions_max

  pub caused :
      {t : ℕ} {s : HelmReleaseStatus} {ws : List WorkloadRollout} {c : Context e} (v : Verdict)
      (reason : ReasonLike)
      → At e mono g t (some s) ws c
      → Cause g.version s ws v
      → Done (v, reason) c
  caused Verdict.ready reason h k = record {
    why = inr (_, h.status_is, rw h.workloads_are k);
    bounded = h.bounded;
  }
  caused Verdict.failed reason h k = record { why = inr (_, h.status_is, k); bounded = h.bounded }
  caused Verdict.skipped_suspended reason h k = record {
    why = inr (_, h.status_is, k);
    bounded = h.bounded;
  }
  caused _ reason h k = absurd k

  -- after a decision: it was made from the status alone, or with the workloads now kept
  record Decided (t : ℕ) (s : HelmReleaseStatus) (d : Decision) (c : Context e) : Type 0 where
    ws : List WorkloadRollout
    at : At e mono g t (some s) ws c
    made : (d ≡ classify s g.version none) ⊎ (d ≡ classify s g.version (some ws))

  made-Cause :
      (s : HelmReleaseStatus) (ws : List WorkloadRollout) (d : Decision) (v : Verdict)
      → (d ≡ classify s g.version none) ⊎ (d ≡ classify s g.version (some ws))
      → verdict_of d ≡ some v
      → Cause g.version s ws v
  made-Cause s ws d v (inl p) h =
      classify-none-Cause g.version s ws v (subst (λ x. verdict_of x ≡ some v) p h)
  made-Cause s ws d v (inr p) h =
      classify-Cause g.version s ws v (subst (λ x. verdict_of x ≡ some v) p h)

  -- what `_evaluate` leaves: an explained end, or a watch that goes on
  abbrev pub Evaluated : ℕ → HelmReleaseStatus → Option End → Context e → Type 0
  Evaluated t s none c = (ws : List WorkloadRollout) × At e mono g t (some s) ws c
  Evaluated t s (some end) c = Done end c

  module _ (F : Type 0) (t : ℕ) (s : HelmReleaseStatus) (ws : List WorkloadRollout) where
    redecide-Decided :
        (d : Decision) (found : Option (List WorkloadRollout))
        → d ≡ classify s g.version none
        → Triple F (At e mono g t (some s) ws) (redecide e g s d found) (Decided t s)
    unfolding redecide
    redecide-Decided d none p = Triple-pure d (λ c h. record { ws = ws; at = h; made = inl p })
    redecide-Decided d (some ws') p =
        Triple-bind (set_workloads-Triple e mono g F ws' t (some s) ws)
          (λ _. Triple-pure _ (λ c h. record { ws = ws'; at = h; made = inr refl }))

    decide-Decided :
        (d : Decision)
        → d ≡ classify s g.version none
        → Triple F (At e mono g t (some s) ws) (decide e g s d) (Decided t s)
    unfolding decide
    decide-Decided (terminal x) p = Triple-pure _ (λ c h. record { ws = ws; at = h; made = inl p })
    decide-Decided (waiting w) p =
        Triple-if w.needs_workloads
          (λ _.
            Triple-bind ((list_workloads-Quiet e mono g).quiet F t (some s) ws)
              (λ found. redecide-Decided (waiting w) found p))
          (λ _. Triple-pure _ (λ c h. record { ws = ws; at = h; made = inl p }))

  module _ (F : Type 0) (t : ℕ) (s : HelmReleaseStatus) where
    settle-Evaluated : (d : Decision) → Triple F (Decided t s d) (settle e g d) (Evaluated t s)
    unfolding settle
    settle-Evaluated (terminal x) = record {
      at = λ c h.
          let recorded = (record_phase-Quiet e mono g x.phase x.detail).quiet F t (some s) h.ws in
          let ends : Triple F (At e mono g t (some s) h.ws) (settle e g (terminal x))
              (Evaluated t s) =
            Triple-bind recorded (λ _. Triple-pure _ (λ c' k.
              caused x.verdict x.reason k
                (made-Cause s h.ws (terminal x) x.verdict h.made refl))) in
          ends.at c h.at;
    }
    settle-Evaluated (waiting w) = record {
      at = λ c h.
          let recorded =
            (record_new-Quiet e mono g w.signature w.phase w.detail).quiet F t (some s) h.ws in
          let goes_on : Triple F (At e mono g t (some s) h.ws) (settle e g (waiting w))
              (Evaluated t s) =
            Triple-bind recorded (λ _. Triple-pure _ (λ c' k. (h.ws, k))) in
          goes_on.at c h.at;
    }

    pub evaluate-Evaluated :
        (ws : List WorkloadRollout)
        → Triple F (At e mono g t (some s) ws) (evaluate e g s) (Evaluated t s)
    unfolding evaluate
    evaluate-Evaluated ws =
        Triple-bind (decide-Decided F t s ws (classify s g.version none) refl) settle-Evaluated
