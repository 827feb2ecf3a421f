-- ===== src/Battle/Fight.antt =====
-- FightContents of Servers/BattleSessionServer/FighterContents.cpp: one match of six players. The
-- counters are 32-bit patterns. `moved` is what TryMoveSessionToContents answers, which depends on
-- what other threads do to the session; `players` is FighterServer::_playerMap.
pub mod WellFormed
pub mod Counts
pub mod Spending
pub mod Ending
pub mod Winner
use mo_session_server.Base.Int.{dec32, inc32, negsuc, pos, u8}
use mo_session_server.Base.Table.{assign, erase, find, insert}
use mo_session_server.Battle.{
  BattleResult, Effect, Group, Player, Roster, Slots, Team, blue_x, dir_ll, dir_rr, disconnect,
  enqueue_control, fight_free, range_move_top, red_x, save_result, sc_create_me, sc_create_other,
  sc_delete, send, team_y, blue, red,
}
use mo_session_server.Battle.Movement.{advance_tick, move_players, elapsed_frames}
use mo_session_server.Base.{
  ℕ, Bool, List, Option, [], false, if◌then◌else◌, ltb, none, some, true, ◌&&◌, ◌*◌, ◌++◌, ◌+◌,
  ◌==◌, ◌∷◌,
}

-- `class FightContents`
pub record Fight : Type 0 where
  pub contents_num : ℕ
  pub player_map : Roster
  pub red_slots : Slots
  pub blue_slots : Slots
  pub match_id : ℕ
  pub matched : ℕ
  pub red_count : ℕ
  pub blue_count : ℕ
  pub win_loss : ℕ
  pub old_tick : ℕ
  pub end : Bool

abbrev no_slots : Slots
no_slots = record { slot0 = 0; slot1 = 0; slot2 = 0 }

-- `Clear`
unfoldable pub clear : Fight → Fight
clear f = record f {
  player_map = [];
  match_id = 0;
  matched = 0;
  red_count = 0;
  blue_count = 0;
  old_tick = 0;
  end = true;
  red_slots = no_slots;
  blue_slots = no_slots;
  win_loss = 0;
}

-- `Init`
unfoldable pub init : Fight → ℕ → ℕ → Group → Fight
init f num id group = record f {
  contents_num = num;
  match_id = id;
  red_slots = group.red_slots;
  blue_slots = group.blue_slots;
}

-- `CheckGameEnd`
unfoldable pub check_game_end : Fight → Bool × Fight
check_game_end f =
    if f.red_count == 0
    then (true, record f { win_loss = 1 })
    else if f.blue_count == 0
    then (true, record f { win_loss = 2 })
    else (false, f)

-- `BuildBattleResult`
unfoldable pub build_battle_result : Fight → BattleResult
build_battle_result f = record {
  match_id = f.match_id;
  winner_team = f.win_loss;
  red_team = f.red_slots;
  blue_team = f.blue_slots;
}

-- `DisconnectRemainingPlayers`
unfoldable pub disconnect_remaining_players : Roster → List Effect
disconnect_remaining_players [] = []
disconnect_remaining_players ((s, p) ∷ m) = disconnect p.session_id ∷ disconnect_remaining_players m

-- `FinishFightAndRelease`, with RequestSaveBattleResult and EnqueueFightFree
unfoldable pub finish_fight_and_release : Fight → Fight × List Effect
unfolding build_battle_result
finish_fight_and_release f = (
  record f { end = false },
  disconnect_remaining_players f.player_map
      ++ (save_result (build_battle_result f) ∷ enqueue_control (fight_free f.contents_num) ∷ []),
)

-- The start of a player in slot `i` of its team
unfoldable pub placed : Team → ℕ → Player → Player
placed red i p = record p {
  id = i;
  hp = pos 100;
  move = negsuc 0;
  x = red_x;
  y = range_move_top + 40 + team_y * i;
  direction = dir_rr;
}
placed blue i p = record p {
  id = i + 3;
  hp = pos 100;
  move = negsuc 0;
  x = blue_x;
  y = range_move_top + 40 + team_y * i;
  direction = dir_ll;
}

-- The placement of one slot in `OnEnter`: the player of session `s`, if it is in the map.
unfoldable pub place_slot : Team → ℕ → ℕ → Roster → Roster × List Effect
unfolding placed
place_slot team i s m = elim (find s m) [
  | none ↦ (m, [])
  | some p ↦
      let q = placed team i p in
      (
        assign s q m,
        send (q.session_id ∷ []) (sc_create_me q.id q.direction q.x q.y (u8 q.hp)) ∷ [],
      )
]

-- One round of the placement loop
unfoldable pub place_pair : ℕ → ℕ → ℕ → Roster → Roster × List Effect
unfolding place_slot
place_pair i r b m =
    let (m1, e1) = place_slot red i r m in let (m2, e2) = place_slot blue i b m1 in (m2, e1 ++ e2)

-- `sessionA` in the second loop: everyone but the player itself
unfoldable pub others : ℕ → Roster → List ℕ
others s [] = []
others s ((j, p) ∷ m) = if p.session_id == s then others s m else p.session_id ∷ others s m

-- The second loop: each player is shown to the others.
unfoldable pub announce : Roster → Roster → List Effect
announce all [] = []
announce all ((s, p) ∷ m) =
    send (others p.session_id all) (sc_create_other p.id p.direction p.x p.y (u8 p.hp))
    ∷ announce all m

-- The start of the match in `OnEnter`
unfoldable pub start_match : Fight → Fight × List Effect
unfolding place_pair
start_match f =
    let (m0, e0) = place_pair 0 f.red_slots.slot0 f.blue_slots.slot0 f.player_map in
    let (m1, e1) = place_pair 1 f.red_slots.slot1 f.blue_slots.slot1 m0 in
    let (m2, e2) = place_pair 2 f.red_slots.slot2 f.blue_slots.slot2 m1 in
    (record f { player_map = m2 }, e0 ++ (e1 ++ (e2 ++ announce m2 m2)))

-- A player that was moved here is counted in its team and put into the map.
unfoldable pub admit : Fight → ℕ → Player → Fight
admit f s p =
    let q = record p { contents = f.contents_num } in
    let m = insert s q f.player_map in
    elim p.team [
      | red ↦ record f { player_map = m; red_count = inc32 f.red_count }
      | blue ↦ record f { player_map = m; blue_count = inc32 f.blue_count }
    ]

-- The first part of `OnEnter`, up to `++_matched`
unfoldable pub enter : Roster → Bool → Fight → ℕ → Fight
enter players moved f s =
    let g : Fight = elim (find s players) [
      | none ↦ f
      | some p ↦ if moved then admit f s p else f
    ] in
    record g { matched = inc32 g.matched }

-- `if (CheckGameEnd() && _end) FinishFightAndRelease();`
unfoldable pub finish_if_ended : Fight → Option (Fight × List Effect) × Fight
finish_if_ended f = (
  if (check_game_end f).0 && (check_game_end f).1.end
      then some (finish_fight_and_release (check_game_end f).1)
      else none,
  (check_game_end f).1,
)

-- The rest of `OnEnter`, after `++_matched`
unfoldable pub settle : Fight → Fight × List Effect
settle f =
    if ltb f.matched 6
    then (f, [])
    else let (over, g) = finish_if_ended f in elim over [ some done ↦ done | none ↦ start_match g ]

-- `OnEnter`
unfoldable pub on_enter : Roster → Bool → Fight → ℕ → Fight × List Effect
on_enter players moved f s = settle (enter players moved f s)

-- `OnLeave` up to the erasure: the count of the team, the message and the map without the player
unfoldable pub depart : Fight → ℕ → Player → Fight × List Effect
depart f s p =
    let m = erase s f.player_map in
    let effects = send (others p.session_id f.player_map) (sc_delete p.id) ∷ [] in
    elim p.team [
      | red ↦ (record f { player_map = m; red_count = dec32 f.red_count }, effects)
      | blue ↦ (record f { player_map = m; blue_count = dec32 f.blue_count }, effects)
    ]

-- The end of `OnLeave`
unfoldable pub close : Fight → List Effect → Fight × List Effect
close f effects =
    let (over, g) = finish_if_ended f in
    elim over [ some (h, more) ↦ (h, effects ++ more) | none ↦ (g, effects) ]

-- `OnLeave`
unfoldable pub on_leave : Fight → ℕ → Fight × List Effect
on_leave f s = elim (find s f.player_map) [
  | none ↦ (f, [])
  | some p ↦ close (depart f s p).0 (depart f s p).1
]

-- `OnUpdate` at time `now`
unfoldable pub on_update : ℕ → Fight → Fight
on_update now f = record f {
  old_tick = advance_tick now f.old_tick;
  player_map = move_players (pos (elapsed_frames now f.old_tick)) f.player_map;
}
