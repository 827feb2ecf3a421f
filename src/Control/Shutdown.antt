-- ===== src/Control/Shutdown.antt =====
-- FighterServer::Stop, with the threads that it stops: the lobby and the fights on the worker threads, the
-- control thread and the database threads (Servers/BattleSessionServer/FighterServer.cpp and
-- FighterContents.cpp). A step is what one thread does while no other one can see the middle of it,
-- and the steps come in any order. A fight is counted, by where it is; a request of `_ctrlQ` is its type.
pub mod Queue
pub mod Invariant
pub mod Working
pub mod Saving
pub mod Handling
pub mod Stopping
pub mod Saved
pub mod Order
pub mod Asleep
mod Examples
use mo_session_server.Base.{
  Bool, List, [], ◌∷◌, ◌++◌, true, false, if◌then◌else◌, ℕ, ◌+◌, ◌-◌, ◌≡◌, ◌≢◌, ◌<◌, ◌≤◌,
}
use mo_session_server.Battle.{BattleResult}
use mo_session_server.Control.{
  ServerState, server_created, server_running, accept_stopped, match_deregistered, control_stopped,
  db_stopped, DbQueue, push_db_request, takes, stops, wait_and_pop_db_request,
  should_stop_control_thread,
}

-- `CONTROLTYPE`
pub data ControlType : Type 0 where
  allocates frees deregisters : ControlType

-- Where Stop is
pub data StopAt : Type 0 where
  not_called waits_match stops_control notifies_control joins_control stops_scheduler
        joins_workers :
      StopAt
  stops_db joins_db returned : StopAt

-- Where the control thread is: it does not hold `_ctrlMtx`, it waits on `_ctrlCv`, it has the mutex and
-- takes requests, or it has returned.
pub data CtrlAt : Type 0 where
  unlocked waiting awake ended : CtrlAt

-- The members that the threads share. A fight goes on (`playing`), or has asked for its result to be
-- saved (`saving`), or has asked to be freed (`leaving`), or is no longer in the map while a thread still
-- holds its pointer (`held`). `lobby_open` is false once no thread can call the lobby. `to_notify` counts requests that are queued and whose notify_one is to come.
pub record Threads : Type 0 where
  pub state : ServerState
  pub stop_at : StopAt
  pub shut_down_posted : Bool
  pub stop_requested : Bool
  pub lobby_open : Bool
  pub ctrl : CtrlAt
  pub ctrl_run : Bool
  pub queue : List ControlType
  pub to_notify : ℕ
  pub playing : ℕ
  pub saving : ℕ
  pub leaving : ℕ
  pub held : ℕ
  pub worker_threads : ℕ
  pub db : DbQueue
  pub db_idle : ℕ
  pub db_busy : ℕ
  pub db_gone : ℕ
  pub started : ℕ
  pub saved : ℕ

-- The numbers of `enum ServerState` and of the places of Stop
abbrev pub rank : ServerState → ℕ
rank server_created = 0
rank server_running = 1
rank accept_stopped = 2
rank match_deregistered = 3
rank control_stopped = 4
rank db_stopped = 5

abbrev pub stop_phase : StopAt → ℕ
stop_phase not_called = 0
stop_phase waits_match = 1
stop_phase stops_control = 2
stop_phase notifies_control = 3
stop_phase joins_control = 4
stop_phase stops_scheduler = 5
stop_phase joins_workers = 6
stop_phase stops_db = 7
stop_phase joins_db = 8
stop_phase returned = 9

-- `_fightPool.GetUseCount()`
abbrev pub in_use : Threads → ℕ
in_use s = s.playing + s.saving + s.leaving + s.held

-- A server that runs, with its worker threads and the database threads that have connected
abbrev pub started_server : ℕ → ℕ → Threads
started_server workers connected = record {
  state = server_running;
  stop_at = not_called;
  shut_down_posted = false;
  stop_requested = false;
  lobby_open = true;
  ctrl = unlocked;
  ctrl_run = true;
  queue = [];
  to_notify = 0;
  playing = 0;
  saving = 0;
  leaving = 0;
  held = 0;
  worker_threads = workers;
  db = record { requests = []; running = true };
  db_idle = connected;
  db_busy = 0;
  db_gone = 0;
  started = 0;
  saved = 0;
}

-- `_ctrlQ.Enqueue`, after which the thread goes on to notify_one
unfoldable pub enqueue_request : ControlType → Threads → Threads
enqueue_request r s = record s { queue = s.queue ++ (r ∷ []); to_notify = s.to_notify + 1 }

-- What a notification does: it is lost on a thread that does not wait.
abbrev pub wake : CtrlAt → CtrlAt
wake waiting = awake
wake c = c

unfoldable pub notify : Threads → Threads
notify s = record s { to_notify = s.to_notify - 1; ctrl = wake s.ctrl }

-- MatchContents::OnShutDown; `empty` says whether nobody waits in the lobby.
unfoldable pub shut_down_lobby : Bool → Threads → Threads
unfolding enqueue_request
shut_down_lobby empty s =
    let t = record s { shut_down_posted = false; stop_requested = true } in
    if empty then enqueue_request deregisters t else t

-- FightContents::FinishFightAndRelease up to RequestSaveBattleResult, and its EnqueueFightFree
unfoldable pub finish_fight : BattleResult → Threads → Threads
finish_fight r s = record s {
  playing = s.playing - 1;
  saving = s.saving + 1;
  db = push_db_request r s.db;
}

unfoldable pub enqueue_fight_free : Threads → Threads
unfolding enqueue_request
enqueue_fight_free s =
    enqueue_request frees (record s { saving = s.saving - 1; leaving = s.leaving + 1 })

-- A thread lets go of the last pointer to a fight, whose deleter gives the object to the pool.
unfoldable pub drop_fight : Threads → Threads
drop_fight s = record s { held = s.held - 1 }

-- One request of the inner loop of CtrlThread; `kept` says whether a thread still holds the fight that
-- HandleFightFree takes out of the map.
unfoldable pub handle_request : Bool → ControlType → List ControlType → Threads → Threads
handle_request kept allocates rest s = record s {
  queue = rest;
  playing = s.playing + 1;
  started = s.started + 1;
}
handle_request kept frees rest s = record s {
  queue = rest;
  leaving = s.leaving - 1;
  held = if kept then s.held + 1 else s.held;
}
handle_request kept deregisters rest s = record s { queue = rest; state = match_deregistered }

-- CtrlThread on an empty queue: it returns, or it goes back to the wait.
unfoldable pub queue_empty : Threads → Threads
queue_empty s =
    if should_stop_control_thread (in_use s) s.ctrl_run s.state
    then record s { ctrl = ended; state = control_stopped }
    else record s { ctrl = unlocked }

-- FighterServer::Stop: StopAcceptThread and RequestStopMatchContents
unfoldable pub call_stop : Threads → Threads
call_stop s = record s { state = accept_stopped; stop_at = waits_match; shut_down_posted = true }

-- StopControlThread: the store under the mutex, notify_one, and what follows the join
unfoldable pub clear_ctrl_run : Threads → Threads
clear_ctrl_run s = record s { ctrl_run = false; stop_at = notifies_control }

unfoldable pub notify_stop : Threads → Threads
notify_stop s = record s { ctrl = wake s.ctrl; stop_at = joins_control }

unfoldable pub control_joined : Threads → Threads
control_joined s = record s { state = control_stopped; stop_at = stops_scheduler }

-- StopDBWorkers: the store under the mutex with notify_all, and what follows the joins
unfoldable pub clear_db_run : Threads → Threads
clear_db_run s = record s { db = record s.db { running = false }; stop_at = joins_db }

unfoldable pub db_joined : Threads → Threads
db_joined s = record s { state = db_stopped; stop_at = returned }

-- A database thread in DBThread: it takes a request, it has saved it, or it returns.
unfoldable pub take_request : DbQueue → Threads → Threads
take_request q s = record s { db = q; db_idle = s.db_idle - 1; db_busy = s.db_busy + 1 }

unfoldable pub save_request : Threads → Threads
save_request s = record s { db_idle = s.db_idle + 1; db_busy = s.db_busy - 1; saved = s.saved + 1 }

unfoldable pub leave_db : Threads → Threads
leave_db s = record s { db_idle = s.db_idle - 1; db_gone = s.db_gone + 1 }

-- A place of Stop that needs no more than the step to the next one
abbrev pub go_on : StopAt → Threads → Threads
go_on a s = record s { stop_at = a }

-- The steps of the worker threads; a fight ends once, and whether the lobby is empty is left open.
pub data Works (s : Threads) : Threads → Type 0 where
  groups : s.lobby_open ≡ true → s.stop_requested ≡ false → Works s (enqueue_request allocates s)
  shuts_down :
      (empty : Bool)
      → s.lobby_open ≡ true
      → s.shut_down_posted ≡ true
      → Works s (shut_down_lobby empty s)
  empties : s.lobby_open ≡ true → s.stop_requested ≡ true → Works s (enqueue_request deregisters s)
  lobby_goes : 3 ≤ rank s.state → Works s (record s { lobby_open = false })
  finishes : (r : BattleResult) → 0 < s.playing → Works s (finish_fight r s)
  asks_free : 0 < s.saving → Works s (enqueue_fight_free s)
  drops : 0 < s.held → Works s (drop_fight s)
  notifies : 0 < s.to_notify → Works s (notify s)
  exits : s.stop_at ≡ joins_workers → Works s (record s { worker_threads = s.worker_threads - 1 })

-- The steps of the control thread
pub data Controls (s : Threads) : Threads → Type 0 where
  locks : s.ctrl ≡ unlocked → Controls s (record s { ctrl = waiting })
  handles :
      (kept : Bool) (r : ControlType) (rest : List ControlType)
      → s.ctrl ≡ awake
      → s.queue ≡ r ∷ rest
      → Controls s (handle_request kept r rest s)
  finds_empty : s.ctrl ≡ awake → s.queue ≡ [] → Controls s (queue_empty s)

-- The steps of Stop. The store of StopControlThread needs the mutex.
pub data StopSteps (s : Threads) : Threads → Type 0 where
  calls : s.stop_at ≡ not_called → StopSteps s (call_stop s)
  match_left : s.stop_at ≡ waits_match → 3 ≤ rank s.state → StopSteps s (go_on stops_control s)
  stores : s.stop_at ≡ stops_control → s.ctrl ≢ awake → StopSteps s (clear_ctrl_run s)
  notifies_stop : s.stop_at ≡ notifies_control → StopSteps s (notify_stop s)
  joins_ctrl : s.stop_at ≡ joins_control → s.ctrl ≡ ended → StopSteps s (control_joined s)
  scheduler_left : s.stop_at ≡ stops_scheduler → StopSteps s (go_on joins_workers s)
  workers_left : s.stop_at ≡ joins_workers → s.worker_threads ≡ 0 → StopSteps s (go_on stops_db s)
  stores_db : s.stop_at ≡ stops_db → StopSteps s (clear_db_run s)
  joins_all : s.stop_at ≡ joins_db → s.db_idle + s.db_busy ≡ 0 → StopSteps s (db_joined s)

-- The steps of the database threads
pub data Saves (s : Threads) : Threads → Type 0 where
  takes_request :
      (r : BattleResult) (q : DbQueue)
      → 0 < s.db_idle
      → wait_and_pop_db_request s.db ≡ (takes r, q)
      → Saves s (take_request q s)
  saves_request : 0 < s.db_busy → Saves s (save_request s)
  leaves :
      (q : DbQueue)
      → 0 < s.db_idle
      → wait_and_pop_db_request s.db ≡ (stops, q)
      → Saves s (leave_db s)

-- A step of any thread, but for a wait that ends without a notification
pub data Step (s : Threads) : Threads → Type 0 where
  works : {t : Threads} → 0 < s.worker_threads → Works s t → Step s t
  controls : {t : Threads} → Controls s t → Step s t
  stop : {t : Threads} → StopSteps s t → Step s t
  saves : {t : Threads} → Saves s t → Step s t

-- What the server comes to; here the wait of the control thread may also end by itself.
pub data Reach (workers connected : ℕ) : Threads → Type 0 where
  begin : Reach workers connected (started_server workers connected)
  later : {s t : Threads} → Reach workers connected s → Step s t → Reach workers connected t
  wakes :
      {s : Threads}
      → Reach workers connected s
      → s.ctrl ≡ waiting
      → Reach workers connected (record s { ctrl = awake })
