-- ===== src/Battle/Examples.antt =====
-- A match with two players, tests of its handlers, and the theorems about them there.
use mo_session_server.Battle.{Player, Roster, Slots, Team, blue, dir_rr, red, BattleResult}
use mo_session_server.Base.{ℕ, [], ◌∷◌, ◌≡◌, ◌+◌, ◌⊎◌, some, refl, true, arith, ◌≢◌}
use mo_session_server.Base.Int.{u16, ◌+ℤ◌, scale, min_ℤ, div_trunc, ◌-ℤ◌, pos, negsuc}
use mo_session_server.Base.Table.{find, IsMap}
use mo_session_server.Battle.Movement.{apply_movement, move_direction, new_position}
use mo_session_server.Battle.Movement.Frames.{InArena}
use mo_session_server.Battle.Movement.Bounds.{apply_movement-InArena}
use mo_session_server.Battle.Actions.{
  attack1, attack2, attack_player, damaged, get_attack_damage, proc_cs_move_start,
  proc_cs_move_stop, proc_cs_attack,
}
use mo_session_server.Battle.Actions.Damage.{InReach, attack_player-find}
use mo_session_server.Battle.Actions.Keeping.{Near}
use mo_session_server.Battle.Actions.Requests.{requests-Near}
use mo_session_server.Battle.Fight.{Fight, on_enter, on_leave}
use mo_session_server.Save.{records_query}
use mo_session_server.Battle.Fight.Winner.{results, flags_of, on_leave_winner}
use mo_session_server.Battle.Fight.WellFormed.{Inv}
use mo_session_server.Battle.Fight.Counts.{on_enter-Inv, on_leave-Inv}
use mo_session_server.Battle.Fight.Spending.{saves, releases, budget}
use mo_session_server.Battle.Fight.Ending.{enters, leaves, run, run_ends_once}

abbrev slots : ℕ → ℕ → ℕ → Slots
slots a b c = record { slot0 = a; slot1 = b; slot2 = c }

abbrev fresh : ℕ → Team → Player
fresh s t = record {
  session_id = s;
  id = 0;
  direction = 0;
  x = 0;
  y = 0;
  hp = pos 0;
  move = negsuc 0;
  team = t;
  last_move_request_at = 0;
  last_attack_request_at = 0;
  contents = 0;
}

-- Two opponents who stand close to each other, and the red one's second in the corner
abbrev first_red : Player
first_red = record (fresh 1 red) { direction = dir_rr; x = 600; y = 90; hp = pos 100 }

abbrev first_blue : Player
first_blue = record (fresh 4 blue) { id = 3; x = 610; y = 90; hp = pos 20 }

abbrev pair : Roster
pair = (1, first_red) ∷ (4, first_blue) ∷ []

pair-IsMap : IsMap pair
pair-IsMap = (refl, (refl, tt))

abbrev match : Fight
match = record {
  contents_num = 7;
  player_map = pair;
  red_slots = slots 1 2 3;
  blue_slots = slots 4 5 6;
  match_id = 9;
  matched = 5;
  red_count = 1;
  blue_count = 1;
  win_loss = 0;
  old_tick = 0;
  end = true;
}

match-Inv : Inv match
match-Inv = record {
  unique = pair-IsMap;
  reds = refl;
  blues = refl;
  few = omega arith;
  at_most = omega arith;
}

abbrev runner : Player
runner = record first_red { move = pos dir_rr }

apply_movement-InArena_example :
    InArena (apply_movement runner (pos 50)).x (apply_movement runner (pos 50)).y
apply_movement-InArena_example = apply_movement-InArena runner (pos 50) (omega arith)

ran : (apply_movement runner (pos 15)).x ≡ 630
unfolding apply_movement move_direction u16 new_position ◌+ℤ◌ scale min_ℤ div_trunc ◌-ℤ◌
ran = refl

attack_player-find_example :
    let m' = (attack_player first_red attack2 pair).0 in
    (find 4 m' ≡ some first_blue)
    ⊎ (find 4 m' ≡ some (damaged first_blue (get_attack_damage attack2)))
      × (first_red.team ≢ first_blue.team)
      × InReach first_red attack2 first_blue
attack_player-find_example = attack_player-find first_red attack2 pair 4 first_blue pair-IsMap refl

abbrev beaten : Player
beaten = record first_blue { hp = negsuc 99 }

abbrev looks_up : Player
looks_up = record first_red { direction = 2 }

requests-Near_example :
    ((q : Player) × (find 4 (proc_cs_move_start pair 1 4 620 90 30).0 ≡ some q) × Near first_blue q)
    × ((q : Player) × (find 4 (proc_cs_move_stop pair 1 4 620 90).0 ≡ some q) × Near first_blue q)
    × ((q : Player) × (find 4 (proc_cs_attack attack1 pair 1 4 620 90 30).0 ≡ some q)
        × Near first_blue q)
requests-Near_example = requests-Near attack1 pair 1 4 620 90 30 4 first_blue pair-IsMap refl

-- The sixth player starts the match.
abbrev server_players : Roster
server_players = (5, fresh 5 blue) ∷ []

on_enter-Inv_example : Inv (on_enter server_players true match 5).0
on_enter-Inv_example = on_enter-Inv server_players true match 5 match-Inv (omega arith) refl

on_leave-Inv_example : Inv (on_leave match 1).0
on_leave-Inv_example = on_leave-Inv match 1 match-Inv

run_ends_once_example :
    let r = run match (enters server_players true 5 ∷ leaves 1 ∷ leaves 4 ∷ []) in
    (saves r.1 + budget r.0 ≡ budget match) × (releases r.1 + budget r.0 ≡ budget match)
run_ends_once_example =
    run_ends_once match (enters server_players true 5 ∷ leaves 1 ∷ leaves 4 ∷ [])

on_leave_winner_example :
    (r : BattleResult) × (results (on_leave match 1).1 ≡ r ∷ [])
    × (r.winner_team ≡ 1)
    × (flags_of 0 (records_query r) ≡ 1 ∷ 1 ∷ 1 ∷ [])
    × (flags_of 1 (records_query r) ≡ 0 ∷ 0 ∷ 0 ∷ [])
on_leave_winner_example = on_leave_winner match 1 first_red refl refl refl (λ e. cc e)
