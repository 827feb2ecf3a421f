-- ===== src/Control.antt =====
-- FighterServer of Servers/BattleSessionServer/FighterServer.cpp: the control thread with the matches that
-- it registers, the players of the server, and the queue and the counters of the database threads.
pub mod Matches
pub mod Saves
pub mod Shutdown
mod Examples
use mo_session_server.Base.Int.{inc32, ltb_ℤ, pos, ℤ}
use mo_session_server.Base.{
  ℕ, Bool, List, Option, [], ◌∷◌, ◌++◌, ◌+◌, ◌-◌, ◌%◌, ◌^◌, none, some, true, false, not, ◌&&◌,
  if◌then◌else◌, ltb, ◌==◌,
}
use mo_session_server.Base.Table.{find, insert, erase}
use mo_session_server.Battle.{
  Control, fight_alloc, fight_free, match_deregister, Group, Slots, Player, Roster, BattleResult,
}
use mo_session_server.Battle.Fight.{Fight, init, clear}
use mo_session_server.Save.{
  DbSaveResult, duplicate_key, deadlock, lock_timeout, connection_lost, query_format_error,
}

-- `MATCH` and `ROOM`
abbrev pub match_contents : ℕ
match_contents = 1000000001

abbrev pub room : ℕ
room = 1000000000

-- `enum ServerState`
pub data ServerState : Type 0 where
  server_created server_running accept_stopped match_deregistered control_stopped db_stopped :
      ServerState

-- What `_contentsMap` holds
pub data Contents : Type 0 where
  lobby : Contents
  fight : Fight → Contents

-- The members of `class FighterServer` that the control thread writes, with `cnum`
pub record ControlState : Type 0 where
  pub contents_map : List (ℕ × Contents)
  pub next_contents_num : ℕ
  pub state : ServerState
  pub fight_alloc_count : ℕ
  pub fight_free_count : ℕ

-- `InsertToContents`: the session and the contents that it is sent to
abbrev pub Posts : Type 0
Posts = List (ℕ × ℕ)

-- `AdvanceContentsNum`
unfoldable pub advance_contents_num : ℕ → ℕ
advance_contents_num n = let k = (n + 1) % room in if k == 0 then k + 1 else k

unfoldable pub insert_slots : Slots → ℕ → Posts
insert_slots s n = (s.slot0, n) ∷ (s.slot1, n) ∷ (s.slot2, n) ∷ []

-- `HandleFightAlloc`: `pooled` is the object that the pool gives, `id` the match's ID.
unfoldable pub handle_fight_alloc : Fight → ℕ → Group → ControlState → ControlState × Posts
unfolding insert_slots
handle_fight_alloc pooled id group s =
    let n = s.next_contents_num in
    (
      record s {
        contents_map = insert n (fight (init (clear pooled) n id group)) s.contents_map;
        next_contents_num = advance_contents_num n;
      },
      insert_slots group.red_slots n ++ insert_slots group.blue_slots n,
    )

-- `HandleFightFree`
unfoldable pub handle_fight_free : ℕ → ControlState → ControlState
handle_fight_free n s = record s { contents_map = erase n s.contents_map }

-- `HandleMatchDeregister`
unfoldable pub handle_match_deregister : ControlState → ControlState
handle_match_deregister s = record s {
  contents_map = erase match_contents s.contents_map;
  state = match_deregistered;
}

-- The `switch` of `CtrlThread`; the counters are 32-bit patterns.
unfoldable pub handle_control : Fight → ℕ → Control → ControlState → ControlState × Posts
handle_control pooled id (fight_alloc group) s =
    let (s', posts) = handle_fight_alloc pooled id group s in
    (record s' { fight_alloc_count = inc32 s'.fight_alloc_count }, posts)
handle_control pooled id (fight_free n) s =
    let s' = handle_fight_free n s in
    (record s' { fight_free_count = inc32 s'.fight_free_count }, [])
handle_control pooled id match_deregister s = (handle_match_deregister s, [])

-- `ShouldStopControlThread`, from the pool's use count and `_ctrlThreadRun`
unfoldable pub should_stop_control_thread : ℕ → Bool → ServerState → Bool
should_stop_control_thread in_use run state =
    in_use == 0 && not run && elim state [ match_deregistered ↦ true | _ ↦ false ]

-- `StartDBWorkers`: the number of workers, where it is accepted
unfoldable pub start_db_workers : ℤ → Option ℤ
start_db_workers count = if ltb_ℤ (pos 0) count && ltb_ℤ count (pos 5) then some count else none

-- `_dbQ` and `_dbThreadRun`
pub record DbQueue : Type 0 where
  pub requests : List BattleResult
  pub running : Bool

-- `PushDBRequest`
unfoldable pub push_db_request : BattleResult → DbQueue → DbQueue
push_db_request r q = record q { requests = q.requests ++ (r ∷ []) }

-- What a worker finds in `WaitAndPopDBRequest`: it waits on, it stops, or it takes a request.
pub data Popped : Type 0 where
  waits stops : Popped
  takes : BattleResult → Popped

unfoldable pub wait_and_pop_db_request : DbQueue → Popped × DbQueue
wait_and_pop_db_request q = elim q.requests [
  | [] ↦ (if q.running then waits else stops, q)
  | r ∷ rs ↦ (takes r, record q { requests = rs })
]

-- The counters of `RecordDBSaveCounters`
pub record SaveCounters : Type 0 where
  pub save_count : ℕ
  pub success_total : ℕ
  pub failure_total : ℕ
  pub duplicate_key_total : ℕ
  pub deadlock_total : ℕ
  pub lock_timeout_total : ℕ
  pub connection_lost_total : ℕ
  pub query_format_error_total : ℕ
  pub unknown_error_total : ℕ
  pub retry_total : ℕ
  pub retry_exhausted_total : ℕ

inc64 : ℕ → ℕ
inc64 n = (n + 1) % 2 ^ 64

-- The `switch` on the category
unfoldable pub count_failure : SaveCounters → DbSaveResult → SaveCounters
unfolding inc64
count_failure c r = elim r.error.category [
  | duplicate_key ↦ record c { duplicate_key_total = inc64 c.duplicate_key_total }
  | deadlock ↦ record c { deadlock_total = inc64 c.deadlock_total }
  | lock_timeout ↦ record c { lock_timeout_total = inc64 c.lock_timeout_total }
  | connection_lost ↦ record c { connection_lost_total = inc64 c.connection_lost_total }
  | query_format_error ↦ record c { query_format_error_total = inc64 c.query_format_error_total }
  | _ ↦ record c { unknown_error_total = inc64 c.unknown_error_total }
]

-- The part of `RecordDBSaveCounters` before its `return`
count_attempts : SaveCounters → DbSaveResult → SaveCounters
unfolding inc64
count_attempts c r = record c {
  save_count = inc32 c.save_count;
  retry_total =
      if ltb 1 r.attempt_count
      then (c.retry_total + (r.attempt_count - 1)) % 2 ^ 64
      else c.retry_total;
  retry_exhausted_total =
      if r.retry_exhausted then inc64 c.retry_exhausted_total else c.retry_exhausted_total;
}

-- `RecordDBSaveCounters`
unfoldable pub record_db_save_counters : SaveCounters → DbSaveResult → SaveCounters
unfolding count_attempts inc64
record_db_save_counters c r =
    let d = count_attempts c r in
    if r.succeeded
    then record d { success_total = inc64 d.success_total }
    else count_failure (record d { failure_total = inc64 d.failure_total }) r

-- `_playerMap` and `_banSet`; an address is any number.
pub record Sessions : Type 0 where
  pub player_map : Roster
  pub ban_set : List (ℕ × ℕ)

-- `OnConnectionRequest`
unfoldable pub on_connection_request : Sessions → ℕ → Bool
on_connection_request s addr = elim (find addr s.ban_set) [ some _ ↦ false | none ↦ true ]

-- `OnAccept`: `pooled` is the object that the pool gives.
unfoldable pub on_accept : Sessions → Player → ℕ → Sessions
on_accept s pooled session = record s {
  player_map = insert session (record pooled { session_id = session }) s.player_map;
}

-- `OnRelease`
unfoldable pub on_release : Sessions → ℕ → Sessions
on_release s session = record s { player_map = erase session s.player_map }

-- `OnUnusual`
unfoldable pub on_unusual : Sessions → ℕ → Sessions
on_unusual s addr = record s { ban_set = insert addr addr s.ban_set }
