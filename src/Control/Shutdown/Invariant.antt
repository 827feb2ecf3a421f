-- ===== src/Control/Shutdown/Invariant.antt =====
-- What holds in every state that the server comes to while it runs and stops.
use mo_session_server.Control.{ServerState}
use mo_session_server.Control.Shutdown.{
  Threads, CtrlAt, ControlType, StopAt, ended, in_use, stop_phase, rank, started_server, unlocked,
  awake, waiting, wake,
}
use mo_session_server.Base.{
  Bool, true, false, ℕ, arith, length, ◌≡◌, ◌≤◌, ◌<◌, ◌+◌, List, [], refl, sym, ◌∙◌,
}
use mo_session_server.Control.Shutdown.Queue.{allocs, frees_in, deregs, late}

-- Every match that was started is played, or its result waits, is being saved or is saved; and the
-- fights that have asked to be freed are those of the queue.
pub record Ledger (s : Threads) : Type 0 where
  pub matches : s.started ≡ s.playing + length s.db.requests + s.db_busy + s.saved
  pub frees_queued : s.leaving ≡ frees_in s.queue

-- Nothing asks for a match behind a request that takes the lobby away, or after it.
pub record Shape (stop_requested : Bool) (queue : List ControlType) (state : ServerState)
    : Type 0 where
  pub late_none : late queue ≡ 0
  pub asked : 0 < deregs queue → stop_requested ≡ true
  pub left_asked : 3 ≤ rank state → stop_requested ≡ true
  pub left_none : 3 ≤ rank state → allocs queue ≡ 0

-- What the control thread leaves behind
pub record Over (s : Threads) : Type 0 where
  pub nothing_used : s.ctrl ≡ ended → in_use s ≡ 0
  pub nothing_queued : s.ctrl ≡ ended → allocs s.queue ≡ 0
  pub stop_asked : s.ctrl ≡ ended → s.stop_requested ≡ true

-- What Stop has waited for
pub record Stages (stop_at : StopAt) (ctrl : CtrlAt) (worker_threads : ℕ) (running : Bool)
    : Type 0 where
  pub control_over : 5 ≤ stop_phase stop_at → ctrl ≡ ended
  pub workers_over : 7 ≤ stop_phase stop_at → worker_threads ≡ 0
  pub db_told : running ≡ false → 8 ≤ stop_phase stop_at

-- The database threads that have returned have left nothing.
pub record Drained (connected : ℕ) (s : Threads) : Type 0 where
  pub threads : s.db_idle + s.db_busy + s.db_gone ≡ connected
  pub none_left : 0 < s.db_gone → s.db.requests ≡ []
  pub gone_told : 0 < s.db_gone → s.db.running ≡ false
  pub joined_all : 9 ≤ stop_phase s.stop_at → s.db_idle + s.db_busy ≡ 0

pub record Inv (connected : ℕ) (s : Threads) : Type 0 where
  pub ledger : Ledger s
  pub shape : Shape s.stop_requested s.queue s.state
  pub over : Over s
  pub stages : Stages s.stop_at s.ctrl s.worker_threads s.db.running
  pub drained : Drained connected s

pub Inv-start : (workers connected : ℕ) → Inv connected (started_server workers connected)
Inv-start workers connected = record {
  ledger = record { matches = omega arith; frees_queued = refl };
  shape = record {
    late_none = refl;
    asked = λ h. absurd (omega arith);
    left_asked = λ h. absurd (omega arith);
    left_none = λ h. refl;
  };
  over = record {
    nothing_used = λ e. omega arith;
    nothing_queued = λ e. refl;
    stop_asked = λ e. absurd (let z : unlocked ≡ ended = e in cc);
  };
  stages = record {
    control_over = λ h. absurd (omega arith);
    workers_over = λ h. absurd (omega arith);
    db_told = λ e. absurd (let z : true ≡ false = e in cc);
  };
  drained = record {
    threads = omega arith;
    none_left = λ h. absurd (omega arith);
    gone_told = λ h. absurd (omega arith);
    joined_all = λ h. absurd (omega arith);
  };
}

pub not_both {ℓ} : {A : Type ℓ} {b : Bool} → b ≡ true → b ≡ false → A
not_both p q = absurd (let z : true ≡ false = sym p ∙ q in cc)

pub not_ended {ℓ} : {A : Type ℓ} {c : CtrlAt} → c ≡ awake → c ≡ ended → A
not_ended a e = absurd (let z : awake ≡ ended = sym a ∙ e in cc)

pub wake-ended : (c : CtrlAt) → wake c ≡ ended → c ≡ ended
wake-ended unlocked e = e
wake-ended waiting e = not_ended refl e
wake-ended awake e = e
wake-ended ended e = e
