-- ===== src/Control/Shutdown/Stopping.antt =====
-- The steps of Stop keep what holds of the server.
use mo_session_server.Base.{ap, arith, refl, ℕ, ◌+◌, ◌≡◌}
use mo_session_server.Control.Shutdown.{
  not_called, waits_match, stops_control, notifies_control, joins_control, stops_scheduler,
  joins_workers, stops_db, joins_db, Threads, call_stop, clear_ctrl_run, clear_db_run,
  control_joined, db_joined, ended, go_on, notify_stop, stop_phase,
}
use mo_session_server.Control.Shutdown.Invariant.{Inv, wake-ended}

module _ {connected : ℕ} {s : Threads} (i : Inv connected s) where
  pub call_stop-Inv : s.stop_at ≡ not_called → Inv connected (call_stop s)
  unfolding call_stop
  call_stop-Inv e = record {
    ledger = record { matches = i.ledger.matches; frees_queued = i.ledger.frees_queued };
    shape = record {
      late_none = i.shape.late_none;
      asked = i.shape.asked;
      left_asked = λ h. absurd (omega arith);
      left_none = λ h. absurd (omega arith);
    };
    over = record {
      nothing_used = i.over.nothing_used;
      nothing_queued = i.over.nothing_queued;
      stop_asked = i.over.stop_asked;
    };
    stages = record {
      control_over = λ h. absurd (omega arith);
      workers_over = λ h. absurd (omega arith);
      db_told = λ f. absurd (omega (arith, i.stages.db_told f, ap stop_phase e));
    };
    drained = record {
      threads = i.drained.threads;
      none_left = i.drained.none_left;
      gone_told = i.drained.gone_told;
      joined_all = λ h. absurd (omega arith);
    };
  }

  pub match_left-Inv : s.stop_at ≡ waits_match → Inv connected (go_on stops_control s)
  match_left-Inv e = record {
    ledger = record { matches = i.ledger.matches; frees_queued = i.ledger.frees_queued };
    shape = i.shape;
    over = record {
      nothing_used = i.over.nothing_used;
      nothing_queued = i.over.nothing_queued;
      stop_asked = i.over.stop_asked;
    };
    stages = record {
      control_over = λ h. absurd (omega arith);
      workers_over = λ h. absurd (omega arith);
      db_told = λ f. absurd (omega (arith, i.stages.db_told f, ap stop_phase e));
    };
    drained = record {
      threads = i.drained.threads;
      none_left = i.drained.none_left;
      gone_told = i.drained.gone_told;
      joined_all = λ h. absurd (omega arith);
    };
  }

  pub clear_ctrl_run-Inv : s.stop_at ≡ stops_control → Inv connected (clear_ctrl_run s)
  unfolding clear_ctrl_run
  clear_ctrl_run-Inv e = record {
    ledger = record { matches = i.ledger.matches; frees_queued = i.ledger.frees_queued };
    shape = i.shape;
    over = record {
      nothing_used = i.over.nothing_used;
      nothing_queued = i.over.nothing_queued;
      stop_asked = i.over.stop_asked;
    };
    stages = record {
      control_over = λ h. absurd (omega arith);
      workers_over = λ h. absurd (omega arith);
      db_told = λ f. absurd (omega (arith, i.stages.db_told f, ap stop_phase e));
    };
    drained = record {
      threads = i.drained.threads;
      none_left = i.drained.none_left;
      gone_told = i.drained.gone_told;
      joined_all = λ h. absurd (omega arith);
    };
  }

  pub notify_stop-Inv : s.stop_at ≡ notifies_control → Inv connected (notify_stop s)
  unfolding notify_stop
  notify_stop-Inv e = record {
    ledger = record { matches = i.ledger.matches; frees_queued = i.ledger.frees_queued };
    shape = i.shape;
    over = record {
      nothing_used = λ e. i.over.nothing_used (wake-ended s.ctrl e);
      nothing_queued = λ e. i.over.nothing_queued (wake-ended s.ctrl e);
      stop_asked = λ e. i.over.stop_asked (wake-ended s.ctrl e);
    };
    stages = record {
      control_over = λ h. absurd (omega arith);
      workers_over = λ h. absurd (omega arith);
      db_told = λ f. absurd (omega (arith, i.stages.db_told f, ap stop_phase e));
    };
    drained = record {
      threads = i.drained.threads;
      none_left = i.drained.none_left;
      gone_told = i.drained.gone_told;
      joined_all = λ h. absurd (omega arith);
    };
  }

  pub control_joined-Inv :
      s.stop_at ≡ joins_control → s.ctrl ≡ ended → Inv connected (control_joined s)
  unfolding control_joined
  control_joined-Inv e c = record {
    ledger = record { matches = i.ledger.matches; frees_queued = i.ledger.frees_queued };
    shape = record {
      late_none = i.shape.late_none;
      asked = i.shape.asked;
      left_asked = λ h. i.over.stop_asked c;
      left_none = λ h. i.over.nothing_queued c;
    };
    over = record {
      nothing_used = i.over.nothing_used;
      nothing_queued = i.over.nothing_queued;
      stop_asked = i.over.stop_asked;
    };
    stages = record {
      control_over = λ h. c;
      workers_over = λ h. absurd (omega arith);
      db_told = λ f. absurd (omega (arith, i.stages.db_told f, ap stop_phase e));
    };
    drained = record {
      threads = i.drained.threads;
      none_left = i.drained.none_left;
      gone_told = i.drained.gone_told;
      joined_all = λ h. absurd (omega arith);
    };
  }

  pub scheduler_left-Inv : s.stop_at ≡ stops_scheduler → Inv connected (go_on joins_workers s)
  scheduler_left-Inv e = record {
    ledger = record { matches = i.ledger.matches; frees_queued = i.ledger.frees_queued };
    shape = i.shape;
    over = record {
      nothing_used = i.over.nothing_used;
      nothing_queued = i.over.nothing_queued;
      stop_asked = i.over.stop_asked;
    };
    stages = record {
      control_over = λ h. i.stages.control_over (omega (arith, ap stop_phase e));
      workers_over = λ h. absurd (omega arith);
      db_told = λ f. absurd (omega (arith, i.stages.db_told f, ap stop_phase e));
    };
    drained = record {
      threads = i.drained.threads;
      none_left = i.drained.none_left;
      gone_told = i.drained.gone_told;
      joined_all = λ h. absurd (omega arith);
    };
  }

  pub workers_left-Inv :
      s.stop_at ≡ joins_workers → s.worker_threads ≡ 0 → Inv connected (go_on stops_db s)
  workers_left-Inv e w = record {
    ledger = record { matches = i.ledger.matches; frees_queued = i.ledger.frees_queued };
    shape = i.shape;
    over = record {
      nothing_used = i.over.nothing_used;
      nothing_queued = i.over.nothing_queued;
      stop_asked = i.over.stop_asked;
    };
    stages = record {
      control_over = λ h. i.stages.control_over (omega (arith, ap stop_phase e));
      workers_over = λ h. w;
      db_told = λ f. absurd (omega (arith, i.stages.db_told f, ap stop_phase e));
    };
    drained = record {
      threads = i.drained.threads;
      none_left = i.drained.none_left;
      gone_told = i.drained.gone_told;
      joined_all = λ h. absurd (omega arith);
    };
  }

  pub clear_db_run-Inv : s.stop_at ≡ stops_db → Inv connected (clear_db_run s)
  unfolding clear_db_run
  clear_db_run-Inv e = record {
    ledger = record { matches = i.ledger.matches; frees_queued = i.ledger.frees_queued };
    shape = i.shape;
    over = record {
      nothing_used = i.over.nothing_used;
      nothing_queued = i.over.nothing_queued;
      stop_asked = i.over.stop_asked;
    };
    stages = record {
      control_over = λ h. i.stages.control_over (omega (arith, ap stop_phase e));
      workers_over = λ h. i.stages.workers_over (omega (arith, ap stop_phase e));
      db_told = λ f. omega arith;
    };
    drained = record {
      threads = i.drained.threads;
      none_left = i.drained.none_left;
      gone_told = λ h. refl;
      joined_all = λ h. absurd (omega arith);
    };
  }

  pub db_joined-Inv : s.stop_at ≡ joins_db → s.db_idle + s.db_busy ≡ 0 → Inv connected (db_joined s)
  unfolding db_joined
  db_joined-Inv e z = record {
    ledger = record { matches = i.ledger.matches; frees_queued = i.ledger.frees_queued };
    shape = record {
      late_none = i.shape.late_none;
      asked = i.shape.asked;
      left_asked = λ h. i.over.stop_asked (i.stages.control_over (omega (arith, ap stop_phase e)));
      left_none =
          λ h. i.over.nothing_queued (i.stages.control_over (omega (arith, ap stop_phase e)));
    };
    over = record {
      nothing_used = i.over.nothing_used;
      nothing_queued = i.over.nothing_queued;
      stop_asked = i.over.stop_asked;
    };
    stages = record {
      control_over = λ h. i.stages.control_over (omega (arith, ap stop_phase e));
      workers_over = λ h. i.stages.workers_over (omega (arith, ap stop_phase e));
      db_told = λ f. omega arith;
    };
    drained = record {
      threads = i.drained.threads;
      none_left = i.drained.none_left;
      gone_told = i.drained.gone_told;
      joined_all = λ h. z;
    };
  }
