-- ===== src/Control/Shutdown/Handling.antt =====
-- The steps of the control thread keep what holds of the server.
use mo_session_server.Base.{Bool, List, [], ap, arith, refl, true, ℕ, ◌∷◌, ◌≡◌, ◌≢◌}
use mo_session_server.Control.Shutdown.{
  CtrlAt, ControlType, Threads, allocates, awake, deregisters, ended, frees, handle_request, in_use,
  rank,
}
use mo_session_server.Control.Shutdown.Queue.{allocs, late, late_of_none, head_facts}
use mo_session_server.Control.Shutdown.Invariant.{Inv, not_ended}
use mo_session_server.Control.{match_deregistered, control_stopped}

module _ {connected : ℕ} {s : Threads} (i : Inv connected s) where
  pub ctrl-Inv : (c : CtrlAt) → c ≢ ended → s.ctrl ≢ ended → Inv connected (record s { ctrl = c })
  ctrl-Inv c n m = record {
    ledger = record { matches = i.ledger.matches; frees_queued = i.ledger.frees_queued };
    shape = i.shape;
    over = record {
      nothing_used = λ e. absurd (n e);
      nothing_queued = λ e. absurd (n e);
      stop_asked = λ e. absurd (n e);
    };
    stages = record {
      control_over = λ h. absurd (m (i.stages.control_over h));
      workers_over = i.stages.workers_over;
      db_told = i.stages.db_told;
    };
    drained = record {
      threads = i.drained.threads;
      none_left = i.drained.none_left;
      gone_told = i.drained.gone_told;
      joined_all = i.drained.joined_all;
    };
  }

  pub handle_allocates-Inv :
      (kept : Bool)
      → (rest : List ControlType) → s.ctrl ≡ awake
      → s.queue ≡ allocates ∷ rest
      → Inv connected (handle_request kept allocates rest s)
  unfolding handle_request
  handle_allocates-Inv kept rest a e =
      let f = head_facts e in
      record {
        ledger = record {
          matches = omega (arith, i.ledger.matches);
          frees_queued = omega (arith, i.ledger.frees_queued, f);
        };
        shape = record {
          late_none = omega (arith, i.shape.late_none, ap late e);
          asked = λ h. i.shape.asked (omega (arith, f));
          left_asked = i.shape.left_asked;
          left_none = λ h. omega (arith, i.shape.left_none h, f);
        };
        over = record {
          nothing_used = λ e. not_ended a e;
          nothing_queued = λ e. not_ended a e;
          stop_asked = λ e. not_ended a e;
        };
        stages = i.stages;
        drained = record {
          threads = i.drained.threads;
          none_left = i.drained.none_left;
          gone_told = i.drained.gone_told;
          joined_all = i.drained.joined_all;
        };
      }

  pub handle_frees-Inv :
      (kept : Bool)
      → (rest : List ControlType) → s.ctrl ≡ awake
      → s.queue ≡ frees ∷ rest
      → Inv connected (handle_request kept frees rest s)
  unfolding handle_request
  handle_frees-Inv kept rest a e =
      let f = head_facts e in
      record {
        ledger = record {
          matches = i.ledger.matches;
          frees_queued = omega (arith, i.ledger.frees_queued, f);
        };
        shape = record {
          late_none = omega (arith, i.shape.late_none, ap late e);
          asked = λ h. i.shape.asked (omega (arith, f));
          left_asked = i.shape.left_asked;
          left_none = λ h. omega (arith, i.shape.left_none h, f);
        };
        over = record {
          nothing_used = λ e. not_ended a e;
          nothing_queued = λ e. not_ended a e;
          stop_asked = λ e. not_ended a e;
        };
        stages = i.stages;
        drained = record {
          threads = i.drained.threads;
          none_left = i.drained.none_left;
          gone_told = i.drained.gone_told;
          joined_all = i.drained.joined_all;
        };
      }

  pub handle_deregisters-Inv :
      (kept : Bool)
      → (rest : List ControlType) → s.ctrl ≡ awake
      → s.queue ≡ deregisters ∷ rest
      → Inv connected (handle_request kept deregisters rest s)
  unfolding handle_request
  handle_deregisters-Inv kept rest a e =
      let f = head_facts e in
      let n : allocs rest ≡ 0 = omega (arith, i.shape.late_none, ap late e) in
      let asked : s.stop_requested ≡ true = i.shape.asked (omega (arith, f)) in
      record {
        ledger = record {
          matches = i.ledger.matches;
          frees_queued = omega (arith, i.ledger.frees_queued, f);
        };
        shape = record {
          late_none = late_of_none rest n;
          asked = λ h. asked;
          left_asked = λ h. asked;
          left_none = λ h. n;
        };
        over = record {
          nothing_used = λ e. not_ended a e;
          nothing_queued = λ e. not_ended a e;
          stop_asked = λ e. not_ended a e;
        };
        stages = i.stages;
        drained = record {
          threads = i.drained.threads;
          none_left = i.drained.none_left;
          gone_told = i.drained.gone_told;
          joined_all = i.drained.joined_all;
        };
      }

  pub return-Inv :
      s.queue ≡ []
      → in_use s ≡ 0
      → s.state ≡ match_deregistered
      → Inv connected (record s { ctrl = ended; state = control_stopped })
  return-Inv q u m =
      let r : rank s.state ≡ 3 = ap rank m in
      record {
        ledger = record { matches = i.ledger.matches; frees_queued = i.ledger.frees_queued };
        shape = record {
          late_none = i.shape.late_none;
          asked = i.shape.asked;
          left_asked = λ h. i.shape.left_asked (omega arith);
          left_none = λ h. ap allocs q;
        };
        over = record {
          nothing_used = λ e. u;
          nothing_queued = λ e. ap allocs q;
          stop_asked = λ e. i.shape.left_asked (omega arith);
        };
        stages = record {
          control_over = λ h. refl;
          workers_over = i.stages.workers_over;
          db_told = i.stages.db_told;
        };
        drained = record {
          threads = i.drained.threads;
          none_left = i.drained.none_left;
          gone_told = i.drained.gone_told;
          joined_all = i.drained.joined_all;
        };
      }
