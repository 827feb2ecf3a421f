-- ===== src/Control/Shutdown/Examples.antt =====
-- A server with one worker thread and one database thread that plays one match and is stopped.
use mo_session_server.Base.{[], arith, false, refl, Bool, if◌then◌else◌, true, ◌∷◌, ◌≡◌, ◌≢◌}
use mo_session_server.Control.Shutdown.{
  Reach, Threads, allocates, begin, controls, enqueue_request, finds_empty, groups, handle_request,
  handles, later, locks, notifies, notify, queue_empty, started_server, waiting, works, asks_free,
  awake, call_stop, calls, clear_ctrl_run, deregisters, drop_fight, drops, ended,
  enqueue_fight_free, finish_fight, finishes, frees, lobby_goes, match_left, notifies_stop,
  notify_stop, shut_down_lobby, shuts_down, stop, stores,
}
use mo_session_server.Control.{should_stop_control_thread, push_db_request}
use mo_session_server.Control.Shutdown.Asleep.{Asleep-stays, Runs, still, more}
use mo_session_server.Control.{match_deregistered, db_stopped}
use mo_session_server.Control.Shutdown.{joins_control, returned, waits_match}
use mo_session_server.Control.Shutdown.Order.{Forward, Reach-Forward}
use mo_session_server.Battle.{BattleResult}

abbrev result : BattleResult
result = record {
  match_id = 7;
  red_team = record { slot0 = 1; slot1 = 2; slot2 = 3 };
  blue_team = record { slot0 = 4; slot1 = 5; slot2 = 6 };
  winner_team = 1;
}

abbrev begun : Threads
begun = started_server 1 1

-- Six sessions meet, and the control thread starts their match and waits again.
abbrev playing_one : Threads
playing_one = record begun { ctrl = waiting; playing = 1; started = 1 }

played : Reach 1 1 playing_one
unfolding enqueue_request notify handle_request queue_empty should_stop_control_thread
played =
    let r1 : Reach 1 1 (record begun { ctrl = waiting }) = later begin (controls (locks refl)) in
    let r2 = later r1 (works (omega arith) (groups refl refl)) in
    let r3 = later r2 (works (omega arith) (notifies (omega arith))) in
    let r4 = later r3 (controls (handles false allocates [] refl refl)) in
    let r5 = later r4 (controls (finds_empty refl refl)) in later r5 (controls (locks refl))

-- The match ends and Stop is called; the lobby is empty. The control thread has taken the match out of
-- the map while the worker thread is still in its handler.
abbrev match_out : Bool → Threads
match_out kept = record begun {
  state = match_deregistered;
  stop_at = waits_match;
  stop_requested = true;
  lobby_open = false;
  ctrl = waiting;
  held = if kept then 1 else 0;
  db = record { requests = result ∷ []; running = true };
  started = 1;
}

taking_out : (kept : Bool) → Reach 1 1 (record (match_out kept) { ctrl = awake })
unfolding enqueue_request notify handle_request finish_fight enqueue_fight_free push_db_request
    call_stop shut_down_lobby
taking_out kept =
    let r1 = later played (works (omega arith) (finishes result (omega arith))) in
    let r2 = later r1 (works (omega arith) (asks_free (omega arith))) in
    let r3 = later r2 (stop (calls refl)) in
    let r4 = later r3 (works (omega arith) (shuts_down true refl refl)) in
    let r5 = later r4 (works (omega arith) (notifies (omega arith))) in
    let r6 = later r5 (works (omega arith) (notifies (omega arith))) in
    let r7 = later r6 (controls (handles kept frees (deregisters ∷ []) refl refl)) in
    let r8 = later r7 (controls (handles kept deregisters [] refl refl)) in
    later r8 (works (omega arith) (lobby_goes (omega arith)))

taken_out : (kept : Bool) → Reach 1 1 (match_out kept)
unfolding queue_empty should_stop_control_thread
taken_out true =
    let r = later (taking_out true) (controls (finds_empty refl refl)) in
    later r (controls (locks refl))
taken_out false =
    let r = later (taking_out false) (controls (finds_empty refl refl)) in
    later r (controls (locks refl))

-- Stop has set `_ctrlThreadRun` and notified the control thread.
abbrev told : Bool → Threads
told kept = record (match_out kept) { stop_at = joins_control; ctrl = awake; ctrl_run = false }

told_stop : (kept : Bool) → Reach 1 1 (told kept)
unfolding clear_ctrl_run notify_stop
told_stop kept =
    let r1 = later (taken_out kept) (stop (match_left refl (omega arith))) in
    let r2 = later r1 (stop (stores refl (λ e. cc))) in later r2 (stop (notifies_stop refl))

-- The worker thread still has the match: the control thread goes back to its wait.
abbrev asleep : Threads
asleep = record (told true) { ctrl = waiting }

fell_asleep : Reach 1 1 asleep
unfolding queue_empty should_stop_control_thread
fell_asleep =
    let r = later (told_stop true) (controls (finds_empty refl refl)) in
    later r (controls (locks refl))

dropped : Runs asleep (drop_fight asleep)
dropped = more (works (omega arith) (drops (omega arith))) still

-- No fight is in use any more, but the control thread sleeps.
Asleep-stays_example :
    ((drop_fight asleep).ctrl ≡ waiting)
    × ((drop_fight asleep).stop_at ≡ joins_control)
    × ((drop_fight asleep).stop_at ≢ returned)
Asleep-stays_example = Asleep-stays (refl, refl, refl, refl, omega arith, refl) dropped

-- When nobody holds the match, Stop goes through to its end.
abbrev all_stopped : Threads
all_stopped = record (told false) {
  state = db_stopped;
  stop_at = returned;
  ctrl = ended;
  worker_threads = 0;
  db = record { requests = []; running = false };
  db_idle = 0;
  db_gone = 1;
  saved = 1;
}

Reach-Forward_example : Forward asleep (drop_fight asleep)
Reach-Forward_example = Reach-Forward fell_asleep (works (omega arith) (drops (omega arith)))
