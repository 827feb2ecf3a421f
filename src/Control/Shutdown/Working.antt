-- ===== src/Control/Shutdown/Working.antt =====
-- The steps of the worker threads keep what holds of the server.
use mo_session_server.Base.{
  [], ap, arith, false, inl, inr, length-append, refl, true, zero_or_positive, ℕ, ◌-◌, ◌<◌, ◌∙◌,
  ◌∷◌, ◌≡◌,
}
use mo_session_server.Control.Shutdown.{
  Threads, allocates, deregisters, drop_fight, ended, enqueue_request, enqueue_fight_free,
  finish_fight, frees, notify, wake,
}
use mo_session_server.Control.Shutdown.Queue.{
  counts-append, late-allocates, late-deregisters, late-frees, deregs,
}
use mo_session_server.Control.Shutdown.Invariant.{Inv, not_both, wake-ended}
use mo_session_server.Battle.{BattleResult}
use mo_session_server.Control.{push_db_request}

module _ {connected : ℕ} {s : Threads} (i : Inv connected s) where
  -- Once a database thread has returned, the control thread has.
  told_over : 0 < s.db_gone → s.ctrl ≡ ended
  told_over g = i.stages.control_over (omega (arith, i.stages.db_told (i.drained.gone_told g)))

  pub allocates-Inv : s.stop_requested ≡ false → Inv connected (enqueue_request allocates s)
  unfolding enqueue_request
  allocates-Inv e =
      let c = counts-append s.queue allocates in
      record {
        ledger = record {
          matches = i.ledger.matches;
          frees_queued = omega (arith, i.ledger.frees_queued, c);
        };
        shape = record {
          late_none = elim (zero_or_positive (deregs s.queue)) [
            | inl z ↦ late-allocates s.queue z ∙ i.shape.late_none
            | inr h ↦ not_both (i.shape.asked h) e
          ];
          asked = λ h. i.shape.asked (omega (arith, c));
          left_asked = i.shape.left_asked;
          left_none = λ h. not_both (i.shape.left_asked h) e;
        };
        over = record {
          nothing_used = i.over.nothing_used;
          nothing_queued = λ f. not_both (i.over.stop_asked f) e;
          stop_asked = i.over.stop_asked;
        };
        stages = i.stages;
        drained = record {
          threads = i.drained.threads;
          none_left = i.drained.none_left;
          gone_told = i.drained.gone_told;
          joined_all = i.drained.joined_all;
        };
      }

  pub deregisters-Inv : s.stop_requested ≡ true → Inv connected (enqueue_request deregisters s)
  unfolding enqueue_request
  deregisters-Inv e =
      let c = counts-append s.queue deregisters in
      record {
        ledger = record {
          matches = i.ledger.matches;
          frees_queued = omega (arith, i.ledger.frees_queued, c);
        };
        shape = record {
          late_none = late-deregisters s.queue ∙ i.shape.late_none;
          asked = λ h. e;
          left_asked = i.shape.left_asked;
          left_none = λ h. omega (arith, i.shape.left_none h, c);
        };
        over = record {
          nothing_used = i.over.nothing_used;
          nothing_queued = λ f. omega (arith, i.over.nothing_queued f, c);
          stop_asked = i.over.stop_asked;
        };
        stages = i.stages;
        drained = record {
          threads = i.drained.threads;
          none_left = i.drained.none_left;
          gone_told = i.drained.gone_told;
          joined_all = i.drained.joined_all;
        };
      }

  pub stop_requested-Inv :
      Inv connected (record s { shut_down_posted = false; stop_requested = true })
  stop_requested-Inv = record {
    ledger = record { matches = i.ledger.matches; frees_queued = i.ledger.frees_queued };
    shape = record {
      late_none = i.shape.late_none;
      asked = λ h. refl;
      left_asked = λ h. refl;
      left_none = i.shape.left_none;
    };
    over = record {
      nothing_used = i.over.nothing_used;
      nothing_queued = i.over.nothing_queued;
      stop_asked = λ e. refl;
    };
    stages = i.stages;
    drained = record {
      threads = i.drained.threads;
      none_left = i.drained.none_left;
      gone_told = i.drained.gone_told;
      joined_all = i.drained.joined_all;
    };
  }

  pub finish_fight-Inv :
      (r : BattleResult) → 0 < s.playing → 0 < s.worker_threads → Inv connected (finish_fight r s)
  unfolding finish_fight push_db_request
  finish_fight-Inv r h w = record {
    ledger = record {
      matches = omega (arith, h, i.ledger.matches, length-append s.db.requests (r ∷ []));
      frees_queued = i.ledger.frees_queued;
    };
    shape = i.shape;
    over = record {
      nothing_used = λ e. omega (arith, i.over.nothing_used e);
      nothing_queued = i.over.nothing_queued;
      stop_asked = i.over.stop_asked;
    };
    stages = i.stages;
    drained = record {
      threads = i.drained.threads;
      none_left = λ g. absurd (omega (arith, h, i.over.nothing_used (told_over g)));
      gone_told = i.drained.gone_told;
      joined_all = i.drained.joined_all;
    };
  }

  pub enqueue_fight_free-Inv : 0 < s.saving → Inv connected (enqueue_fight_free s)
  unfolding enqueue_fight_free enqueue_request
  enqueue_fight_free-Inv h =
      let c = counts-append s.queue frees in
      record {
        ledger = record {
          matches = i.ledger.matches;
          frees_queued = omega (arith, i.ledger.frees_queued, c);
        };
        shape = record {
          late_none = late-frees s.queue ∙ i.shape.late_none;
          asked = λ g. i.shape.asked (omega (arith, c));
          left_asked = i.shape.left_asked;
          left_none = λ g. omega (arith, i.shape.left_none g, c);
        };
        over = record {
          nothing_used = λ e. omega (arith, h, i.over.nothing_used e);
          nothing_queued = λ e. omega (arith, i.over.nothing_queued e, c);
          stop_asked = i.over.stop_asked;
        };
        stages = i.stages;
        drained = record {
          threads = i.drained.threads;
          none_left = i.drained.none_left;
          gone_told = i.drained.gone_told;
          joined_all = i.drained.joined_all;
        };
      }

  pub drop_fight-Inv : Inv connected (drop_fight s)
  unfolding drop_fight
  drop_fight-Inv = record {
    ledger = record { matches = i.ledger.matches; frees_queued = i.ledger.frees_queued };
    shape = i.shape;
    over = record {
      nothing_used = λ e. omega (arith, i.over.nothing_used e);
      nothing_queued = i.over.nothing_queued;
      stop_asked = i.over.stop_asked;
    };
    stages = i.stages;
    drained = record {
      threads = i.drained.threads;
      none_left = i.drained.none_left;
      gone_told = i.drained.gone_told;
      joined_all = i.drained.joined_all;
    };
  }

  pub notify-Inv : Inv connected (notify s)
  unfolding notify
  notify-Inv = record {
    ledger = record { matches = i.ledger.matches; frees_queued = i.ledger.frees_queued };
    shape = i.shape;
    over = record {
      nothing_used = λ e. i.over.nothing_used (wake-ended s.ctrl e);
      nothing_queued = λ e. i.over.nothing_queued (wake-ended s.ctrl e);
      stop_asked = λ e. i.over.stop_asked (wake-ended s.ctrl e);
    };
    stages = record {
      control_over = λ h. ap wake (i.stages.control_over h);
      workers_over = i.stages.workers_over;
      db_told = i.stages.db_told;
    };
    drained = record {
      threads = i.drained.threads;
      none_left = i.drained.none_left;
      gone_told = i.drained.gone_told;
      joined_all = i.drained.joined_all;
    };
  }

  pub exit-Inv : Inv connected (record s { worker_threads = s.worker_threads - 1 })
  exit-Inv = record {
    ledger = record { matches = i.ledger.matches; frees_queued = i.ledger.frees_queued };
    shape = i.shape;
    over = record {
      nothing_used = i.over.nothing_used;
      nothing_queued = i.over.nothing_queued;
      stop_asked = i.over.stop_asked;
    };
    stages = record {
      control_over = i.stages.control_over;
      workers_over = λ h. omega (arith, i.stages.workers_over h);
      db_told = i.stages.db_told;
    };
    drained = record {
      threads = i.drained.threads;
      none_left = i.drained.none_left;
      gone_told = i.drained.gone_told;
      joined_all = i.drained.joined_all;
    };
  }

  pub lobby_goes-Inv : Inv connected (record s { lobby_open = false })
  lobby_goes-Inv = record {
    ledger = record { matches = i.ledger.matches; frees_queued = i.ledger.frees_queued };
    shape = i.shape;
    over = record {
      nothing_used = i.over.nothing_used;
      nothing_queued = i.over.nothing_queued;
      stop_asked = i.over.stop_asked;
    };
    stages = i.stages;
    drained = record {
      threads = i.drained.threads;
      none_left = i.drained.none_left;
      gone_told = i.drained.gone_told;
      joined_all = i.drained.joined_all;
    };
  }
