-- ===== src/Match.antt =====
-- MatchContents of Servers/BattleSessionServer/FighterContents.cpp: the lobby where sessions wait until
-- six are there. `players` is FighterServer::_playerMap; what `_playerMap` of the lobby points to is
-- written there.
pub mod Groups
pub mod Waiting
pub mod Teams
pub mod Stop
mod Examples
use mo_session_server.Base.{
  ℕ, Bool, List, [], ◌∷◌, ◌++◌, true, false, ◌&&◌, none, some, if◌then◌else◌, leb, length,
}
use mo_session_server.Base.Int.{negsuc}
use mo_session_server.Base.Table.{find, insert, erase, assign}
use mo_session_server.Battle.{
  Team, red, blue, Player, Slots, Effect, Roster, disconnect, move_session, enqueue_control,
  fight_alloc, match_deregister,
}

-- `class MatchContents`, with the players of the server that it writes
pub record Lobby : Type 0 where
  pub stop_requested : Bool
  pub waiting : Roster
  pub players : Roster

-- `_playerMap.empty()`
abbrev pub is_empty : Roster → Bool
is_empty [] = true
is_empty (e ∷ m) = false

-- `CheckStopRequested`
unfoldable pub check_stop_requested : Lobby → Bool
check_stop_requested l = is_empty l.waiting && l.stop_requested

-- The request that `OnLeave` and `DisconnectAllPlayer` make once the lobby is empty and stopped
unfoldable pub request_deregister : Lobby → List Effect
unfolding check_stop_requested
request_deregister l = if check_stop_requested l then enqueue_control match_deregister ∷ [] else []

unfoldable pub disconnects : Roster → List Effect
disconnects [] = []
disconnects ((s, p) ∷ m) = disconnect p.session_id ∷ disconnects m

-- `DisconnectAllPlayer`
unfoldable pub disconnect_all_player : Lobby → List Effect
unfolding disconnects request_deregister
disconnect_all_player l = disconnects l.waiting ++ request_deregister l

abbrev pub with_team : Team → Player → Player
with_team t p = record p { team = t }

-- One round of the loop of `AssignTeamAndMovePlayers`: the slot, the lobby and the moved session. On an
-- empty map the source's `begin()` may not be read; the model takes session 0.
unfoldable pub take_player : Team → Lobby → ℕ × Lobby × List Effect
take_player t l = elim l.waiting [
  | [] ↦ (0, l, [])
  | (s, p) ∷ m ↦ (
    p.session_id,
    record l { waiting = m; players = assign s (with_team t p) l.players },
    move_session p.session_id (negsuc 0) ∷ [],
  )
]

-- `AssignTeamAndMovePlayers`
unfoldable pub assign_team_and_move_players : Team → Lobby → Slots × Lobby × List Effect
unfolding take_player
assign_team_and_move_players t l =
    let (a, l1, e1) = take_player t l in
    let (b, l2, e2) = take_player t l1 in
    let (c, l3, e3) = take_player t l2 in
    (record { slot0 = a; slot1 = b; slot2 = c }, l3, e1 ++ (e2 ++ e3))

-- The group that `OnEnter` forms when six are there
unfoldable pub form_group : Lobby → Lobby × List Effect
unfolding assign_team_and_move_players
form_group l =
    let (r, l1, e1) = assign_team_and_move_players red l in
    let (b, l2, e2) = assign_team_and_move_players blue l1 in
    (
      l2,
      e1 ++ (e2 ++ (enqueue_control (fight_alloc (record { red_slots = r; blue_slots = b })) ∷ [])),
    )

unfoldable pub admit : Lobby → ℕ → Player → Lobby
admit l s p = record l { waiting = insert s p l.waiting }

-- `OnEnter`
unfoldable pub on_enter : Lobby → ℕ → Lobby × List Effect
on_enter l s = if l.stop_requested then (l, disconnect s ∷ []) else elim (find s l.players) [
  | none ↦ (l, [])
  | some p ↦
      if leb 6 (length (admit l s p).waiting) then form_group (admit l s p) else (admit l s p, [])
]

-- `OnLeave`
unfoldable pub on_leave : Lobby → ℕ → Lobby × List Effect
on_leave l s = let l' = record l { waiting = erase s l.waiting } in (l', request_deregister l')

-- `OnShutDown`
unfoldable pub on_shut_down : Lobby → Lobby × List Effect
on_shut_down l = let l' = record l { stop_requested = true } in (l', disconnect_all_player l')
