-- ===== src/Battle.antt =====
-- Servers/BattleSessionServer/FighterStructure.h, with the messages of RPC_Fighter: the data of a
-- match, and what the handlers hand to the rest of the server.
pub mod Movement
pub mod Actions
pub mod Fight
mod Examples
use mo_session_server.Base.{ℕ, List}
use mo_session_server.Base.Int.{ℤ}

-- `enum class Team`
pub data Team : Type 0 where
  red blue : Team

-- `dfRANGE_MOVE_*`
abbrev pub range_move_top : ℕ
range_move_top = 50

abbrev pub range_move_left : ℕ
range_move_left = 10

abbrev pub range_move_right : ℕ
range_move_right = 630

abbrev pub range_move_bottom : ℕ
range_move_bottom = 470

-- `dfERROR_RANGE`
abbrev pub error_range : ℕ
error_range = 50

abbrev pub move_request_interval_ms : ℕ
move_request_interval_ms = 20

abbrev pub attack_request_interval_ms : ℕ
attack_request_interval_ms = 200

abbrev pub red_x : ℕ
red_x = 40

abbrev pub blue_x : ℕ
blue_x = 600

abbrev pub team_y : ℕ
team_y = 180

-- `dfPACKET_MOVE_DIR_*`, numbered from 0 in this order.
pub data Direction : Type 0 where
  ll lu uu ru rr rd dd ld : Direction

-- `dfPACKET_MOVE_DIR_LL` and `dfPACKET_MOVE_DIR_RR`, which `_direction` is compared with
abbrev pub dir_ll : ℕ
dir_ll = 0

abbrev pub dir_rr : ℕ
dir_rr = 4

-- `struct Player`. `hp` and `move` are `int8_t`, the other numbers unsigned; the client's address
-- is not modelled.
pub record Player : Type 0 where
  pub session_id : ℕ
  pub id : ℕ
  pub direction : ℕ
  pub x : ℕ
  pub y : ℕ
  pub hp : ℤ
  pub move : ℤ
  pub team : Team
  pub last_move_request_at : ℕ
  pub last_attack_request_at : ℕ
  pub contents : ℕ

-- `SessionID _red[3]`
pub record Slots : Type 0 where
  pub slot0 : ℕ
  pub slot1 : ℕ
  pub slot2 : ℕ

-- `struct Group`
pub record Group : Type 0 where
  pub red_slots : Slots
  pub blue_slots : Slots

-- `struct Control` with its `CONTROLTYPE`; each type carries the fields that its handler reads. The
-- `_contents` pointer of FIGHTFREE is the number of the contents that it points to.
pub data Control : Type 0 where
  fight_alloc : Group → Control
  fight_free : ℕ → Control
  match_deregister : Control

-- `struct BattleResult`
pub record BattleResult : Type 0 where
  pub match_id : ℕ
  pub winner_team : ℕ
  pub red_team : Slots
  pub blue_team : Slots

-- The server's messages, one for each function of `FightProxy`, with its arguments.
pub data Message : Type 0 where
  sc_create_me sc_create_other : (id dir x y hp : ℕ) → Message
  sc_delete : (id : ℕ) → Message
  sc_move_start sc_move_stop : (id dir x y : ℕ) → Message
  sc_attack1 sc_attack2 sc_attack3 : (id dir x y : ℕ) → Message
  sc_damage : (atk tgt hp : ℕ) → Message

-- The calls that a handler makes on the server, in order.
pub data Effect : Type 0 where
  disconnect : ℕ → Effect
  send : List ℕ → Message → Effect
  move_session : ℕ → ℤ → Effect
  enqueue_control : Control → Effect
  save_result : BattleResult → Effect

-- `_playerMap` of the contents, with the objects that it points to: while a session is in a fight,
-- only that fight writes its player.
abbrev pub Roster : Type 0
Roster = List (ℕ × Player)
