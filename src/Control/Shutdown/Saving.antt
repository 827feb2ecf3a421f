-- ===== src/Control/Shutdown/Saving.antt =====
-- The steps of the database threads keep what holds of the server.
use mo_session_server.Base.{List, [], ap, arith, false, length, sym, ℕ, ◌<◌, ◌∙◌, ◌∷◌, ◌≡◌}
use mo_session_server.Control.Shutdown.{Threads, leave_db, save_request, take_request}
use mo_session_server.Control.Shutdown.Invariant.{Inv}
use mo_session_server.Battle.{BattleResult}

module _ {connected : ℕ} {s : Threads} (i : Inv connected s) where
  pub take_request-Inv :
      (r : BattleResult)
      → (rs : List BattleResult) → 0 < s.db_idle
      → s.db.requests ≡ r ∷ rs
      → Inv connected (take_request (record s.db { requests = rs }) s)
  unfolding take_request
  take_request-Inv r rs h e = record {
    ledger = record {
      matches = omega (arith, i.ledger.matches, ap length e);
      frees_queued = i.ledger.frees_queued;
    };
    shape = i.shape;
    over = record {
      nothing_used = i.over.nothing_used;
      nothing_queued = i.over.nothing_queued;
      stop_asked = i.over.stop_asked;
    };
    stages = i.stages;
    drained = record {
      threads = omega (arith, i.drained.threads);
      none_left = λ g.
          absurd (
            let z : length (r ∷ rs) ≡ 0 = ap length (sym e ∙ i.drained.none_left g) in omega arith);
      gone_told = i.drained.gone_told;
      joined_all = λ g. absurd (omega (arith, h, i.drained.joined_all g));
    };
  }

  pub save_request-Inv : 0 < s.db_busy → Inv connected (save_request s)
  unfolding save_request
  save_request-Inv h = record {
    ledger = record {
      matches = omega (arith, i.ledger.matches);
      frees_queued = i.ledger.frees_queued;
    };
    shape = i.shape;
    over = record {
      nothing_used = i.over.nothing_used;
      nothing_queued = i.over.nothing_queued;
      stop_asked = i.over.stop_asked;
    };
    stages = i.stages;
    drained = record {
      threads = omega (arith, i.drained.threads);
      none_left = i.drained.none_left;
      gone_told = i.drained.gone_told;
      joined_all = λ g. absurd (omega (arith, h, i.drained.joined_all g));
    };
  }

  pub leave_db-Inv :
      0 < s.db_idle → s.db.requests ≡ [] → s.db.running ≡ false → Inv connected (leave_db s)
  unfolding leave_db
  leave_db-Inv h e t = record {
    ledger = record { matches = i.ledger.matches; frees_queued = i.ledger.frees_queued };
    shape = i.shape;
    over = record {
      nothing_used = i.over.nothing_used;
      nothing_queued = i.over.nothing_queued;
      stop_asked = i.over.stop_asked;
    };
    stages = i.stages;
    drained = record {
      threads = omega (arith, i.drained.threads);
      none_left = λ g. e;
      gone_told = λ g. t;
      joined_all = λ g. absurd (omega (arith, h, i.drained.joined_all g));
    };
  }
