-- ===== src/Battle/Actions.antt =====
-- StubForFight of Servers/BattleSessionServer/FighterSubStub.cpp: the handlers of the clients'
-- requests. A handler takes the time that `timeGetTime` gives it, and returns the players and the
-- calls that it makes on the server.
pub mod Damage
pub mod Keeping
pub mod Requests
use mo_session_server.Base.{
  ℕ, Bool, List, Option, [], false, if◌then◌else◌, leb, ltb, none, not, some, true, ◌%◌, ◌&&◌, ◌++◌,
  ◌-◌, ◌==◌, ◌||◌, ◌∷◌,
}
use mo_session_server.Base.Int.{abs_diff, eqb_ℤ, ltb_ℤ, negsuc, pos, signed8, sub32, u8, ◌-ℤ◌}
use mo_session_server.Base.Table.{find, assign, keys}
use mo_session_server.Battle.{
  Player, Effect, Message, Roster, Team, attack_request_interval_ms, blue, dir_ll, dir_rr,
  disconnect, error_range, ld, ll, lu, move_request_interval_ms, rd, red, rr, ru, sc_attack1,
  sc_attack2, sc_attack3, sc_damage, sc_move_start, sc_move_stop, send,
}
use mo_session_server.Battle.Movement.{direction_of}

abbrev pub Outcome : Type 0
Outcome = Roster × List Effect

-- The attack types CSATTACK1, CSATTACK2 and CSATTACK3.
pub data Attack : Type 0 where
  attack1 attack2 attack3 : Attack

unfoldable pub is_valid_move_direction : ℕ → Bool
unfolding direction_of
is_valid_move_direction dir = elim (direction_of dir) [ none ↦ false | some _ ↦ true ]

unfoldable pub is_position_sync_valid : Player → ℕ → ℕ → Bool
is_position_sync_valid p x y = leb (abs_diff p.x x) error_range && leb (abs_diff p.y y) error_range

unfoldable pub can_handle_move_request : Player → ℕ → Bool
can_handle_move_request p now =
    p.last_move_request_at == 0 || leb move_request_interval_ms (sub32 now p.last_move_request_at)

unfoldable pub can_handle_attack : Player → ℕ → Bool
can_handle_attack p now = not (
    not (p.last_attack_request_at == 0)
    && ltb (sub32 now p.last_attack_request_at) attack_request_interval_ms)

-- `CollectOtherSessions`, in the map's order
unfoldable pub collect_other_sessions : ℕ → Roster → List ℕ
collect_other_sessions s [] = []
collect_other_sessions s ((j, p) ∷ m) =
    if j == s then collect_other_sessions s m else j ∷ collect_other_sessions s m

unfoldable pub collect_all_sessions : Roster → List ℕ
collect_all_sessions m = keys m

-- The `switch` on the direction in ProcCSMoveStart and ProcCSMoveStop: up and down keep the facing.
unfoldable pub facing : ℕ → ℕ → ℕ
unfolding direction_of
facing dir old = elim (direction_of dir) [
  | some ll ↦ dir_ll
  | some lu ↦ dir_ll
  | some ld ↦ dir_ll
  | some rr ↦ dir_rr
  | some ru ↦ dir_rr
  | some rd ↦ dir_rr
  | _ ↦ old
]

started : Player → ℕ → ℕ → ℕ → ℕ → Player
unfolding facing
started p dir x y now = record p {
  last_move_request_at = now;
  direction = facing dir p.direction;
  move = signed8 (dir % 256);
  x = x;
  y = y;
}

stopped : Player → ℕ → ℕ → ℕ → Player
unfolding facing
stopped p dir x y = record p { direction = facing dir p.direction; move = negsuc 0; x = x; y = y }

-- `ProcCSMoveStart`
unfoldable pub proc_cs_move_start : Roster → ℕ → ℕ → ℕ → ℕ → ℕ → Outcome
unfolding started
proc_cs_move_start m s dir x y now =
    if not (is_valid_move_direction dir) then (m, disconnect s ∷ []) else elim (find s m) [
      | none ↦ (m, [])
      | some p ↦
          if not (is_position_sync_valid p x y)
          then (m, disconnect s ∷ [])
          else if eqb_ℤ p.move (pos dir)
          then (m, [])
          else if not (can_handle_move_request p now)
          then (m, [])
          else (
            assign s (started p dir x y now) m,
            send (collect_other_sessions s m) (sc_move_start p.id dir x y) ∷ [],
          )
    ]

-- `ProcCSMoveStop`
unfoldable pub proc_cs_move_stop : Roster → ℕ → ℕ → ℕ → ℕ → Outcome
unfolding stopped
proc_cs_move_stop m s dir x y =
    if not (is_valid_move_direction dir) then (m, disconnect s ∷ []) else elim (find s m) [
      | none ↦ (m, [])
      | some p ↦
          if not (is_position_sync_valid p x y)
          then (m, disconnect s ∷ [])
          else if eqb_ℤ p.move (negsuc 0)
          then (m, [])
          else (
            assign s (stopped p dir x y) m,
            send (collect_other_sessions s m) (sc_move_stop p.id dir x y) ∷ [],
          )
    ]

unfoldable pub get_attack_damage : Attack → ℕ
get_attack_damage attack1 = 10
get_attack_damage attack2 = 30
get_attack_damage attack3 = 50

abbrev pub range_x : Attack → ℕ
range_x attack1 = 80
range_x attack2 = 90
range_x attack3 = 100

abbrev pub range_y : Attack → ℕ
range_y attack1 = 10
range_y attack2 = 10
range_y attack3 = 20

-- `IsTargetInAttackRange`
unfoldable pub is_target_in_attack_range : Player → Player → Attack → Bool
is_target_in_attack_range a t k =
    if a.direction == dir_ll
    then if ltb a.x t.x
      then false
      else ltb (a.x - t.x) (range_x k) && ltb (abs_diff a.y t.y) (range_y k)
    else if a.direction == dir_rr
    then if ltb t.x a.x
      then false
      else ltb (t.x - a.x) (range_x k) && ltb (abs_diff t.y a.y) (range_y k)
    else false

-- `target._hp -= damage` on an `int8_t`
unfoldable pub damaged : Player → ℕ → Player
damaged t d = record t { hp = signed8 (u8 (t.hp -ℤ pos d)) }

-- `ApplyDamage`: a player with no health left is disconnected.
unfoldable pub apply_damage : Player → ℕ → Player × List Effect
unfolding damaged
apply_damage t d =
    let t' = damaged t d in (t', if ltb_ℤ (pos 0) t'.hp then [] else disconnect t.session_id ∷ [])

abbrev pub same_team : Team → Team → Bool
same_team red red = true
same_team blue blue = true
same_team _ _ = false

-- The test in the loop of `AttackPlayer`
unfoldable pub is_hit : Player → Attack → Player → Bool
unfolding is_target_in_attack_range
is_hit a k t = not (same_team a.team t.team) && is_target_in_attack_range a t k

-- The player at which the loop of `AttackPlayer` stops
unfoldable pub first_hit : Player → Attack → Roster → Option (ℕ × Player)
unfolding is_hit
first_hit a k [] = none
first_hit a k ((j, t) ∷ m) = if is_hit a k t then some (j, t) else first_hit a k m

-- `AttackPlayer`, with `BroadcastDamage`
unfoldable pub attack_player : Player → Attack → Roster → Outcome
unfolding first_hit apply_damage collect_all_sessions
attack_player a k m = elim (first_hit a k m) [
  | none ↦ (m, [])
  | some (j, t) ↦
      let (t', effects) = apply_damage t (get_attack_damage k) in
      (
        assign j t' m,
        effects ++ (send (collect_all_sessions m) (sc_damage a.id t'.id (u8 t'.hp)) ∷ []),
      )
]

attack_message : Attack → ℕ → ℕ → ℕ → ℕ → Message
attack_message attack1 = sc_attack1
attack_message attack2 = sc_attack2
attack_message attack3 = sc_attack3

-- `_lastAttackRequestAt = now` and `UpdateActionState`
unfoldable pub update_action_state : Player → ℕ → ℕ → ℕ → ℕ → Player
update_action_state p dir x y now = record p {
  last_attack_request_at = now;
  direction = dir;
  x = x;
  y = y;
}

-- `ProcCSAttack1`, `ProcCSAttack2` and `ProcCSAttack3` differ in the attack type alone.
unfoldable pub proc_cs_attack : Attack → Roster → ℕ → ℕ → ℕ → ℕ → ℕ → Outcome
unfolding attack_message update_action_state
proc_cs_attack k m s dir x y now =
    if not (is_valid_move_direction dir) then (m, disconnect s ∷ []) else elim (find s m) [
      | none ↦ (m, [])
      | some p ↦
          if not (is_position_sync_valid p x y)
          then (m, disconnect s ∷ [])
          else if not (can_handle_attack p now)
          then (m, [])
          else let a = update_action_state p dir x y now in
            let (m', effects) = attack_player a k (assign s a m) in
            (m', send (collect_other_sessions s m) (attack_message k a.id dir x y) ∷ effects)
    ]

unfoldable pub proc_cs_attack1 : Roster → ℕ → ℕ → ℕ → ℕ → ℕ → Outcome
unfolding proc_cs_attack
proc_cs_attack1 = proc_cs_attack attack1

unfoldable pub proc_cs_attack2 : Roster → ℕ → ℕ → ℕ → ℕ → ℕ → Outcome
unfolding proc_cs_attack
proc_cs_attack2 = proc_cs_attack attack2

unfoldable pub proc_cs_attack3 : Roster → ℕ → ℕ → ℕ → ℕ → ℕ → Outcome
unfolding proc_cs_attack
proc_cs_attack3 = proc_cs_attack attack3

-- `ProcFightDefault` and `ProcMatchDefault`: an unknown request ends the session.
unfoldable pub proc_default : Roster → ℕ → Outcome
proc_default m s = (m, disconnect s ∷ [])

-- What FightStub::ProcMessage reads from a packet (RPC_Fighter/FighterStub.cpp): the type, and for
-- a known type its arguments.
pub data Request : Type 0 where
  move_start move_stop : (dir x y : ℕ) → Request
  attack : Attack → (dir x y : ℕ) → Request
  unknown : Request

-- The dispatch of FightStub::ProcMessage
unfoldable pub handle : Roster → ℕ → ℕ → Request → Outcome
unfolding proc_default
handle m s now (move_start dir x y) = proc_cs_move_start m s dir x y now
handle m s now (move_stop dir x y) = proc_cs_move_stop m s dir x y
handle m s now (attack attack1 dir x y) = proc_cs_attack1 m s dir x y now
handle m s now (attack attack2 dir x y) = proc_cs_attack2 m s dir x y now
handle m s now (attack attack3 dir x y) = proc_cs_attack3 m s dir x y now
handle m s now unknown = proc_default m s
