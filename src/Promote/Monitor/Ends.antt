-- ===== src/Promote/Monitor/Ends.antt =====
-- The loop of `_poll_until_terminal` (commands/promote/monitor.py) ends within its budget, and its
-- verdict is explained.
use lab_charts.Base.{
  ℕ, zero, suc, ◌+◌, ◌*◌, ◌≤◌, ◌<◌, Bool, true, false, Option, none, some, List, leb, ◌≡◌, refl, ap,
  sym, ◌⊎◌, inl, inr, arith, Text, text, if◌then◌else◌, leb→le, leb→lt, ◌==◌,
}
use native.Mathlib.Nat.{le_trans}
use lab_charts.Promote.State.{Verdict, verdict_eq, Reason, member, cut}
use lab_charts.Promote.Status.{HelmReleaseStatus, WorkloadRollout}
use lab_charts.Promote.Classify.{Decision, terminal, waiting, classify}
use lab_charts.Promote.Action.{Action}
use lab_charts.Promote.Action.Triples.{
  Triple, Triple-pure, Triple-bind, Triple-raise, Triple-if, Triple-weaken,
}
use lab_charts.Promote.World.{
  World, Context, IsMonotonic, Answer, answered, command_failed, other_error,
}
use lab_charts.Promote.Monitor.{
  Target, End, Polled, fresh, gone, flaked, is_not_found, gone_terminal, disappeared, poll_failed,
  poll_interval, check_budget, which_budget, poll, poll_answer, cancelled_end, after_poll,
  after_budget, after_evaluate, turn, poll_loop, begin, skip_or_begin, poll_until_terminal,
  error_text,
}
use lab_charts.Promote.Monitor.Steps.{
  At, record_phase-Quiet, record_deduped-Quiet, fetch_status-Quiet, IfSet, is_cancelled-Triple,
  read_clock-Read, jitter-Quiet, read_clock-Triple, do_sleep-Triple, set_status-Triple,
}
use lab_charts.Promote.Monitor.Explained.{
  Done, Explained, Evaluated, evaluate-Evaluated, caused, classify-none-Cause,
}
use lab_charts.Promote.Classify.Laws.{verdict_of}

module _ (e : World) (mono : IsMonotonic e) (g : Target) where
  module _ (t : ℕ) (s : Option HelmReleaseStatus) (ws : List WorkloadRollout) where
    cancelled_end-Done :
        (w : e.Outside)
        → (e.cancel_is_set w).0 ≡ true
        → Triple ⊥ (At e mono g (e.now w) s ws) (cancelled_end e g) (Done e mono g)
    unfolding cancelled_end
    cancelled_end-Done w set =
        Triple-bind ((record_phase-Quiet e mono g _ _).quiet ⊥ (e.now w) s ws) (λ _.
          Triple-pure _
            (λ c h. record { why = inl (refl, inl (w, set, h.later)); bounded = h.bounded }))

    -- after a look at the flag: the cancelled end, or what goes on
    unless_cancelled-Done :
        (stopped : Bool) {m : Action (Context e) End}
        → Triple ⊥ (At e mono g t s ws) m (Done e mono g)
        → Triple ⊥
            (λ c. At e mono g t s ws c × IfSet e mono g s ws stopped c)
            (if stopped then cancelled_end e g else m)
            (Done e mono g)
    unless_cancelled-Done true goes_on = record {
      at = λ c h. let (w, set, k) = h.1 refl in (cancelled_end-Done w set).at c k;
    }
    unless_cancelled-Done false goes_on = Triple-weaken (λ c h. h.0) goes_on

    -- which budget a reading of the clock has used up
    abbrev Names : Reason → e.Outside → Type 0
    Names reason w =
        ((reason ≡ Reason.total_budget_exhausted) × (g.total_deadline ≤ e.now w))
        ⊎ ((reason ≡ Reason.per_hr_budget_exhausted)
            × (g.hr_deadline ≤ e.now w)
            × (e.now w < g.total_deadline))

    -- a budget that ran out is named; otherwise the deadline has not passed
    abbrev Spent : Option Reason → Context e → Type 0
    Spent none c = (n : ℕ) × (t ≤ n) × (n < g.hr_deadline) × At e mono g n s ws c
    Spent (some reason) c = (w : e.Outside) × At e mono g (e.now w) s ws c × Names reason w

    which-Names :
        (w : e.Outside) (b : Bool)
        → leb g.total_deadline (e.now w) ≡ b
        → g.hr_deadline ≤ e.now w
        → Names (if b then Reason.total_budget_exhausted else Reason.per_hr_budget_exhausted) w
    which-Names w true p late = inl (refl, leb→le g.total_deadline (e.now w) p)
    which-Names w false p late = inr (refl, late, leb→lt g.total_deadline (e.now w) p)

    which_budget-Spent :
        (n : ℕ) (b : Bool)
        → leb g.hr_deadline n ≡ b
        → Triple ⊥ (λ c. At e mono g n s ws c × (t ≤ n)) (which_budget e g b) Spent
    unfolding which_budget
    which_budget-Spent n true p =
        Triple-weaken
          (λ c h. record {
            later = omega (arith, leb→le g.hr_deadline n p, h.0.later);
            status_is = h.0.status_is;
            workloads_are = h.0.workloads_are;
            bounded = h.0.bounded;
          })
          (Triple-bind (read_clock-Read e mono g ⊥ g.hr_deadline s ws) (λ later.
            Triple-pure _ (λ c (w, same, h, late). (
              w,
              h,
              which-Names w (leb g.total_deadline later) (ap (leb g.total_deadline) same)
                  (omega (arith, same, late)),
            ))))
    which_budget-Spent n false p = Triple-pure _ (λ c h. (n, h.1, leb→lt g.hr_deadline n p, h.0))

    check_budget-Spent : Triple ⊥ (At e mono g t s ws) (check_budget e g) Spent
    unfolding check_budget
    check_budget-Spent =
        Triple-bind (read_clock-Triple e mono g ⊥ t s ws)
          (λ n. which_budget-Spent n (leb g.hr_deadline n) refl)

    -- a poll gives a status or nothing, and the watch goes on; or the release is gone
    abbrev Fetched : Polled → Context e → Type 0
    Fetched (gone x) c = Done e mono g (x.verdict, x.reason) c
    Fetched _ c = At e mono g t s ws c

    disappeared-Fetched : (x : Text) → Triple ⊥ (At e mono g t s ws) (disappeared e g x) Fetched
    unfolding disappeared
    disappeared-Fetched x =
        Triple-bind ((record_phase-Quiet e mono g (text "Disappeared") (cut x)).quiet ⊥ t s ws)
          (λ _.
            Triple-pure (gone (gone_terminal x))
              (λ c h. record { why = inl (refl, refl); bounded = h.bounded }))

    poll_failed-Fetched : (x : Text) → Triple ⊥ (At e mono g t s ws) (poll_failed e g x) Fetched
    unfolding poll_failed
    poll_failed-Fetched x =
        Triple-bind ((record_deduped-Quiet e mono g _ _ _).quiet ⊥ t s ws)
          (λ _. Triple-pure flaked (λ c h. h))

    poll_answer-Fetched :
        (a : Answer HelmReleaseStatus) → Triple ⊥ (At e mono g t s ws) (poll_answer e g a) Fetched
    unfolding poll_answer
    poll_answer-Fetched (answered x) = Triple-pure _ (λ c h. h)
    poll_answer-Fetched (command_failed x) =
        Triple-if (is_not_found (error_text x)) (λ _. disappeared-Fetched (error_text x))
          (λ _. poll_failed-Fetched (error_text x))
    poll_answer-Fetched (other_error x) = Triple-raise x

    poll-Fetched : Triple ⊥ (At e mono g t s ws) (poll e g) Fetched
    unfolding poll
    poll-Fetched = Triple-bind ((fetch_status-Quiet e mono g).quiet ⊥ t s ws) poll_answer-Fetched

  -- The next turns of a loop with fuel for `left` more: they are called with the clock past a
  -- reading below the deadline and one poll interval.
  abbrev Again : ℕ → (Option HelmReleaseStatus → Action (Context e) End) → Type 0
  Again left again =
      (n : ℕ) (s : Option HelmReleaseStatus) (ws : List WorkloadRollout)
      (next : Option HelmReleaseStatus)
      → n < g.hr_deadline
      → g.hr_deadline ≤ n + poll_interval * left
      → Triple ⊥ (At e mono g (n + poll_interval) s ws) (again next) (Done e mono g)

  module _ (left : ℕ) (again : Option HelmReleaseStatus → Action (Context e) End)
      (rest : Again left again) (s : Option HelmReleaseStatus) (ws : List WorkloadRollout) where
    after_poll-Done :
        (n : ℕ) (p : Polled)
        → n < g.hr_deadline
        → g.hr_deadline ≤ n + poll_interval * left
        → Triple ⊥ (Fetched (n + poll_interval) s ws p) (after_poll e g again p) (Done e mono g)
    unfolding after_poll
    after_poll-Done n (fresh x) below enough = rest n s ws (some x) below enough
    after_poll-Done n (gone x) below enough = Triple-pure _ (λ c h. h)
    after_poll-Done n flaked below enough = rest n s ws none below enough

    after_sleep-Done :
        (n : ℕ)
        → n < g.hr_deadline
        → g.hr_deadline ≤ n + poll_interval * left
        → Triple ⊥ (At e mono g n s ws) (after_budget e g again none) (Done e mono g)
    unfolding after_budget
    after_sleep-Done n below enough =
        Triple-bind (do_sleep-Triple e mono g ⊥ poll_interval n s ws) (λ _.
          Triple-bind (is_cancelled-Triple e mono g ⊥ (n + poll_interval) s ws) (λ stopped.
            unless_cancelled-Done (n + poll_interval) s ws stopped (
              Triple-bind (poll-Fetched (n + poll_interval) s ws)
                (λ p. after_poll-Done n p below enough))))

    after_budget-Done :
        (t : ℕ) (spent : Option Reason)
        → g.hr_deadline ≤ t + poll_interval * left
        → Triple ⊥ (Spent t s ws spent) (after_budget e g again spent) (Done e mono g)
    unfolding after_budget
    after_budget-Done t none enough = record {
      at = λ c (n, later, below, h). (after_sleep-Done n below (omega arith)).at c h;
    }
    after_budget-Done t (some reason) enough = record {
      at = λ c (w, h, named).
          let ends : Triple ⊥ (At e mono g (e.now w) s ws) (after_budget e g again (some reason))
              (Done e mono g) =
            Triple-bind ((record_phase-Quiet e mono g _ _).quiet ⊥ (e.now w) s ws) (λ _.
              Triple-pure _
                (λ c' k. record { why = out_of_time reason w named k; bounded = k.bounded })) in
          ends.at c h;
    }
      where
        out_of_time :
            (r : Reason) (w : e.Outside)
            → Names t s ws r w
            → {c : Context e} → At e mono g (e.now w) s ws c
            → Explained e mono g Verdict.timed_out (member r) c
        out_of_time r w (inl (p, late)) k = inl (ap member p, inr (le_trans late k.later))
        out_of_time r w (inr (p, late, early)) k = inr (ap member p, (w, late, early, k.later))

    after_evaluate-none-Done :
        (t : ℕ)
        → g.hr_deadline ≤ t + poll_interval * left
        → Triple ⊥ (At e mono g t s ws) (after_evaluate e g again none) (Done e mono g)
    unfolding after_evaluate
    after_evaluate-none-Done t enough =
        Triple-bind (is_cancelled-Triple e mono g ⊥ t s ws) (λ stopped.
          unless_cancelled-Done t s ws stopped
            (Triple-bind (check_budget-Spent t s ws) (λ spent. after_budget-Done t spent enough)))

  module _ (left : ℕ) (again : Option HelmReleaseStatus → Action (Context e) End)
      (rest : Again left again) where
    after_evaluate-Done :
        (t : ℕ) (x : HelmReleaseStatus) (end : Option End)
        → g.hr_deadline ≤ t + poll_interval * left
        → Triple ⊥ (Evaluated e mono g t x end) (after_evaluate e g again end) (Done e mono g)
    unfolding after_evaluate
    after_evaluate-Done t x (some end) enough = Triple-pure end (λ c h. h)
    after_evaluate-Done t x none enough = record {
      at = λ c (seen, h). (after_evaluate-none-Done left again rest (some x) seen t enough).at c h;
    }

    turn-Done :
        (t : ℕ) (s : Option HelmReleaseStatus) (ws : List WorkloadRollout)
        (next : Option HelmReleaseStatus)
        → g.hr_deadline ≤ t + poll_interval * left
        → Triple ⊥ (At e mono g t s ws) (turn e g again next) (Done e mono g)
    unfolding turn
    turn-Done t s ws none enough = after_evaluate-none-Done left again rest s ws t enough
    turn-Done t s ws (some x) enough = Triple-bind (set_status-Triple e mono g ⊥ x t s ws) (λ _.
        Triple-bind (evaluate-Evaluated e mono g ⊥ t x ws)
          (λ end. after_evaluate-Done t x end enough))

  -- One turn for each poll interval up to the deadline is enough fuel, and one more.
  poll_loop-Done :
      (fuel t : ℕ) (s : Option HelmReleaseStatus) (ws : List WorkloadRollout)
      (next : Option HelmReleaseStatus)
      → g.hr_deadline ≤ t + poll_interval * fuel
      → Triple ⊥ (At e mono g t s ws) (poll_loop e g (suc fuel) next) (Done e mono g)
  unfolding poll_loop
  poll_loop-Done zero t s ws next enough =
      turn-Done zero (poll_loop e g zero) (λ n s' ws' next' below left. absurd (omega arith)) t s ws
        next enough
  poll_loop-Done (suc fuel) t s ws next enough =
      turn-Done (suc fuel) (poll_loop e g (suc fuel))
        (λ n s' ws' next' below left.
          poll_loop-Done fuel (n + poll_interval) s' ws' next' (omega arith))
        t s ws next enough

  module _ (fuel t : ℕ) (initial : HelmReleaseStatus) (ws : List WorkloadRollout)
      (enough : g.hr_deadline ≤ t + poll_interval * fuel) where
    begin-Done :
        Triple ⊥ (At e mono g t (some initial) ws) (begin e g (suc fuel) initial) (Done e mono g)
    unfolding begin
    begin-Done = Triple-bind ((jitter-Quiet e mono g).quiet ⊥ t (some initial) ws) (λ d.
        Triple-bind (do_sleep-Triple e mono g ⊥ d t (some initial) ws) (λ _.
          Triple-bind (is_cancelled-Triple e mono g ⊥ (t + d) (some initial) ws) (λ stopped.
            unless_cancelled-Done (t + d) (some initial) ws stopped
              (poll_loop-Done fuel (t + d) (some initial) ws (some initial) (omega arith)))))

    skip_or_begin-Done :
        (d : Decision)
        → d ≡ classify initial g.version none
        → Triple ⊥
            (At e mono g t (some initial) ws)
            (skip_or_begin e g (suc fuel) initial d)
            (Done e mono g)
    unfolding skip_or_begin
    skip_or_begin-Done (waiting w) p = begin-Done
    skip_or_begin-Done (terminal x) p =
        Triple-if (x.verdict == Verdict.skipped_suspended)
          (λ _.
            Triple-bind ((record_phase-Quiet e mono g x.phase x.detail).quiet ⊥ t (some initial) ws)
              (λ _.
                Triple-pure (x.verdict, x.reason)
                  (λ c h.
                    caused e mono g x.verdict x.reason h (
                      classify-none-Cause g.version initial ws x.verdict (sym (ap verdict_of p))))))
          (λ _. begin-Done)

    -- With that fuel a watch that is not broken off by an unexpected exception ends, and its verdict
    -- is explained.
    pub poll_until_terminal-Done :
        Triple ⊥
          (At e mono g t (some initial) ws)
          (poll_until_terminal e g (suc fuel) initial)
          (Done e mono g)
    unfolding poll_until_terminal
    poll_until_terminal-Done = skip_or_begin-Done (classify initial g.version none) refl
