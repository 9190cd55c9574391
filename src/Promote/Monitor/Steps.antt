-- ===== src/Promote/Monitor/Steps.antt =====
-- What the single steps of a watcher keep: its time only grows, the transitions stay within their
-- cap, and only `set_status` and `set_workloads` change what was last seen.
use lab_charts.Base.{
  ℕ, ◌+◌, ◌-◌, ◌≤◌, Option, some, List, [], ◌∷◌, ◌++◌, length, length-drop, ◌≡◌, refl, arith, Text,
  Bool, true, Bool-cases, inl, inr,
}
use native.Mathlib.Nat.{le_trans}
use lab_charts.Promote.State.{Transition, cut}
use lab_charts.Promote.Status.{HelmReleaseStatus, WorkloadRollout}
use lab_charts.Promote.Classify.{Signature}
use lab_charts.Promote.Fanout.{push, transitions_max}
use lab_charts.Promote.Action.{Action, pure, raise, ◌>>=◌}
use lab_charts.Promote.Action.Triples.{Triple, Triple-pure, Triple-bind, Triple-raise}
use lab_charts.Promote.World.{
  World, Context, IsMonotonic, Answer, answered, command_failed, other_error,
}
use lab_charts.Promote.Monitor.{
  Target, read_clock, do_sleep, jitter, is_cancelled, fetch_status, fetch_workloads, record_phase,
  record_new, record_deduped, workloads_answer, list_workloads, set_signature, set_status,
  set_workloads, same_signature,
}

length-push-le : (ts : List Transition) (t : Transition) → length (push ts t) ≤ transitions_max
unfolding push
length-push-le ts t =
    omega (arith, length-drop (length (ts ++ t ∷ []) - transitions_max) (ts ++ t ∷ []))

module _ (e : World) (mono : IsMonotonic e) (g : Target) where
  -- not before `t`, with these last seen
  pub record At (t : ℕ) (status : Option HelmReleaseStatus) (workloads : List WorkloadRollout)
      (c : Context e) : Type 0 where
    pub later : t ≤ e.now c.outside
    pub status_is : c.last_status ≡ status
    pub workloads_are : c.last_workloads ≡ workloads
    pub bounded : length c.transitions ≤ transitions_max

  -- A step that leaves all this as it is, and does not run out of fuel.
  pub record Quiet {A : Type 0} (m : Action (Context e) A) : Type 1 where
    pub quiet :
        (F : Type 0) (t : ℕ) (s : Option HelmReleaseStatus) (ws : List WorkloadRollout)
        → Triple F (At t s ws) m (λ _. At t s ws)

  pub Quiet-pure : {A : Type 0} (a : A) → Quiet (pure a)
  Quiet-pure a = record { quiet = λ F t s ws. Triple-pure a (λ c h. h) }

  pub Quiet-raise : {A : Type 0} (x : Text) → Quiet (raise {A = A} x)
  Quiet-raise x = record { quiet = λ F t s ws. Triple-raise x }

  pub Quiet-bind :
      {A B : Type 0} {m : Action (Context e) A} {f : A → Action (Context e) B}
      → Quiet m
      → ((a : A) → Quiet (f a))
      → Quiet (m >>= f)
  Quiet-bind q k = record {
    quiet = λ F t s ws. Triple-bind (q.quiet F t s ws) (λ a. (k a).quiet F t s ws);
  }

  pub record_phase-Quiet : (phase detail : Text) → Quiet (record_phase e g phase detail)
  unfolding record_phase
  record_phase-Quiet phase detail = record {
    quiet = λ F t s ws. record {
      at = λ c h. record {
        later = le_trans h.later (le_trans (mono.wall_later c.outside) (mono.report_later _ _));
        status_is = h.status_is;
        workloads_are = h.workloads_are;
        bounded = length-push-le _ _;
      };
    };
  }

  set_signature-Quiet : (x : Signature) → Quiet (set_signature e g x)
  unfolding set_signature
  set_signature-Quiet x = record {
    quiet = λ F t s ws. record {
      at = λ c h. record {
        later = h.later;
        status_is = h.status_is;
        workloads_are = h.workloads_are;
        bounded = h.bounded;
      };
    };
  }

  outside_moves :
      {t : ℕ} {s : Option HelmReleaseStatus} {ws : List WorkloadRollout} {c : Context e}
      {w : e.Outside}
      → At t s ws c
      → e.now c.outside ≤ e.now w
      → At t s ws (record c { outside = w })
  outside_moves h le = record {
    later = le_trans h.later le;
    status_is = h.status_is;
    workloads_are = h.workloads_are;
    bounded = h.bounded;
  }

  pub jitter-Quiet : Quiet (jitter e g)
  unfolding jitter
  jitter-Quiet = record {
    quiet = λ F t s ws. record { at = λ c h. outside_moves h (mono.rand_later _ _ c.outside) };
  }

  pub is_cancelled-Quiet : Quiet (is_cancelled e g)
  unfolding is_cancelled
  is_cancelled-Quiet = record {
    quiet = λ F t s ws. record { at = λ c h. outside_moves h (mono.cancel_later c.outside) };
  }

  -- When the flag is found set, it was set in a state not after the one that is left.
  abbrev pub IfSet : Option HelmReleaseStatus → List WorkloadRollout → Bool → Context e → Type 0
  IfSet s ws stopped c =
      stopped ≡ true → (w : e.Outside) × ((e.cancel_is_set w).0 ≡ true) × At (e.now w) s ws c

  pub is_cancelled-Triple :
      (F : Type 0) (t : ℕ) (s : Option HelmReleaseStatus) (ws : List WorkloadRollout)
      → Triple F (At t s ws) (is_cancelled e g) (λ b c. At t s ws c × IfSet s ws b c)
  unfolding is_cancelled
  is_cancelled-Triple F t s ws = record {
    at = λ c h. (
      outside_moves h (mono.cancel_later c.outside),
      λ set. (
        c.outside,
        set,
        record {
          later = mono.cancel_later c.outside;
          status_is = h.status_is;
          workloads_are = h.workloads_are;
          bounded = h.bounded;
        },
      ),
    );
  }

  pub fetch_status-Quiet : Quiet (fetch_status e g)
  unfolding fetch_status
  fetch_status-Quiet = record {
    quiet = λ F t s ws. record { at = λ c h. outside_moves h (mono.status_later _ _ c.outside) };
  }

  pub fetch_workloads-Quiet : Quiet (fetch_workloads e g)
  unfolding fetch_workloads
  fetch_workloads-Quiet = record {
    quiet = λ F t s ws. record { at = λ c h. outside_moves h (mono.workloads_later _ _ c.outside) };
  }

  -- The clock shows at least `t`, and at most what it shows afterwards.
  pub read_clock-Triple :
      (F : Type 0) (t : ℕ) (s : Option HelmReleaseStatus) (ws : List WorkloadRollout)
      → Triple F (At t s ws) (read_clock e g) (λ n c. At n s ws c × (t ≤ n))
  unfolding read_clock
  read_clock-Triple F t s ws = record {
    at = λ c h. (
      record {
        later = mono.clock_later c.outside;
        status_is = h.status_is;
        workloads_are = h.workloads_are;
        bounded = h.bounded;
      },
      h.later,
    );
  }

  -- A reading is the clock of a state not after the one that is left.
  pub read_clock-Read :
      (F : Type 0) (t : ℕ) (s : Option HelmReleaseStatus) (ws : List WorkloadRollout)
      → Triple F
          (At t s ws)
          (read_clock e g)
          (λ n c. (w : e.Outside) × (e.now w ≡ n) × At (e.now w) s ws c × (t ≤ n))
  unfolding read_clock
  read_clock-Read F t s ws = record {
    at = λ c h. (
      c.outside,
      refl,
      record {
        later = mono.clock_later c.outside;
        status_is = h.status_is;
        workloads_are = h.workloads_are;
        bounded = h.bounded;
      },
      h.later,
    );
  }

  pub do_sleep-Triple :
      (F : Type 0) (d t : ℕ) (s : Option HelmReleaseStatus) (ws : List WorkloadRollout)
      → Triple F (At t s ws) (do_sleep e g d) (λ _. At (t + d) s ws)
  unfolding do_sleep
  do_sleep-Triple F d t s ws = record {
    at = λ c h. record {
      later = omega (arith, h.later, mono.sleep_long d c.outside);
      status_is = h.status_is;
      workloads_are = h.workloads_are;
      bounded = h.bounded;
    };
  }

  pub set_status-Triple :
      (F : Type 0) (x : HelmReleaseStatus) (t : ℕ) (s : Option HelmReleaseStatus)
      (ws : List WorkloadRollout)
      → Triple F (At t s ws) (set_status e g x) (λ _. At t (some x) ws)
  unfolding set_status
  set_status-Triple F x t s ws = record {
    at = λ c h. record {
      later = h.later;
      status_is = refl;
      workloads_are = h.workloads_are;
      bounded = h.bounded;
    };
  }

  pub set_workloads-Triple :
      (F : Type 0) (x : List WorkloadRollout) (t : ℕ) (s : Option HelmReleaseStatus)
      (ws : List WorkloadRollout)
      → Triple F (At t s ws) (set_workloads e g x) (λ _. At t s x)
  unfolding set_workloads
  set_workloads-Triple F x t s ws = record {
    at = λ c h. record {
      later = h.later;
      status_is = h.status_is;
      workloads_are = refl;
      bounded = h.bounded;
    };
  }

  pub record_new-Quiet :
      (x : Signature) (phase detail : Text) → Quiet (record_new e g x phase detail)
  unfolding record_new
  record_new-Quiet x phase detail = record {
    quiet = λ F t s ws. record {
      at = λ c h. elim (Bool-cases (same_signature x c.prev_signature)) [
        | inl p ↦ rw p h
        | inr p ↦ rw p (
            ((Quiet-bind (record_phase-Quiet phase detail) (λ _. set_signature-Quiet x)).quiet F t s
                ws).at
              c h)
      ];
    };
  }

  pub record_deduped-Quiet :
      (x : Signature) (phase stderr : Text) → Quiet (record_deduped e g x phase stderr)
  unfolding record_deduped
  record_deduped-Quiet x phase stderr = record_new-Quiet x phase (cut stderr)

  workloads_answer-Quiet : (a : Answer (List WorkloadRollout)) → Quiet (workloads_answer e g a)
  unfolding workloads_answer
  workloads_answer-Quiet (answered ws) = Quiet-pure _
  workloads_answer-Quiet (command_failed x) =
      Quiet-bind (record_deduped-Quiet _ _ _) (λ _. Quiet-pure _)
  workloads_answer-Quiet (other_error x) = Quiet-raise x

  pub list_workloads-Quiet : Quiet (list_workloads e g)
  unfolding list_workloads
  list_workloads-Quiet = Quiet-bind fetch_workloads-Quiet workloads_answer-Quiet
