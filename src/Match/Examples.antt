-- ===== src/Match/Examples.antt =====
-- A lobby with five sessions, a test of it, and the theorems about it there.
use mo_session_server.Base.{[], arith, false, refl, true, ℕ, ◌∷◌, ◌≡◌}
use mo_session_server.Base.Int.{negsuc, pos}
use mo_session_server.Base.Table.{keys}
use mo_session_server.Match.{Lobby, on_enter}
use mo_session_server.Match.Groups.{Inv, members, moved_out, sixth_enters}
use mo_session_server.Match.Waiting.{enters, leaves, shuts_down, run, lobby_run-Inv}
use mo_session_server.Battle.{red, Player, Group}

abbrev player : ℕ → Player
player s = record {
  session_id = s;
  id = 0;
  direction = 0;
  x = 0;
  y = 0;
  hp = pos 0;
  move = negsuc 0;
  team = red;
  last_move_request_at = 0;
  last_attack_request_at = 0;
  contents = 0;
}

abbrev entry : ℕ → ℕ × Player
entry s = (s, player s)

abbrev five : Lobby
five = record {
  stop_requested = false;
  waiting = entry 1 ∷ entry 2 ∷ entry 3 ∷ entry 4 ∷ entry 5 ∷ [];
  players = entry 6 ∷ entry 1 ∷ entry 2 ∷ entry 3 ∷ entry 4 ∷ entry 5 ∷ [];
}

five-Inv : Inv five
five-Inv = record {
  unique = (refl, (refl, (refl, (refl, (refl, tt)))));
  owns = (refl, (refl, (refl, (refl, (refl, tt)))));
  players_own = (refl, (refl, (refl, (refl, (refl, (refl, tt))))));
  few = omega arith;
}

sixth_enters_example :
    (g : Group) × ((on_enter five 6).1 ≡ moved_out g)
    × (members g ≡ 6 ∷ keys five.waiting)
    × ((on_enter five 6).0.waiting ≡ [])
sixth_enters_example = sixth_enters five 6 (player 6) five-Inv refl refl refl refl

lobby_run-Inv_example : Inv (run five (leaves 3 ∷ enters 6 ∷ enters 3 ∷ shuts_down ∷ [])).0
lobby_run-Inv_example =
    lobby_run-Inv five (leaves 3 ∷ enters 6 ∷ enters 3 ∷ shuts_down ∷ []) five-Inv

abbrev stopping : Lobby
stopping = record five { stop_requested = true }
