-- ===== src/Battle/Fight/Winner.antt =====
-- Who wins: what OnLeave hands to the database, and what the database writes then.
use mo_session_server.Base.Table.{find}
use mo_session_server.Battle.{
  BattleResult, Effect, Roster, Team, blue, disconnect, enqueue_control, fight_free, move_session,
  red, save_result, send, Player,
}
use mo_session_server.Base.{
  ℕ, List, [], ◌∷◌, ◌++◌, ◌≡◌, ◌≢◌, some, refl, true, arith, ap, if◌then◌else◌, sym, ◌==◌, ◌∙◌,
}
use mo_session_server.Battle.Fight.{
  Fight, build_battle_result, check_game_end, close, disconnect_remaining_players,
  finish_fight_and_release, finish_if_ended, depart, on_leave,
}
use mo_session_server.Save.{RecordRow, Query, records_query, player_battle_record}

-- `_winLoss` by FighterContents.h: 1 stands for red and 2 for blue.
abbrev pub win_code : Team → ℕ
win_code red = 1
win_code blue = 2

-- The `team` column of PlayerBattleRecord
abbrev pub team_column : Team → ℕ
team_column red = 0
team_column blue = 1

abbrev pub results : List Effect → List BattleResult
results [] = []
results (save_result r ∷ es) = r ∷ results es
results (enqueue_control c ∷ es) = results es
results (disconnect s ∷ es) = results es
results (send l g ∷ es) = results es
results (move_session s n ∷ es) = results es

results-append : (xs ys : List Effect) → results (xs ++ ys) ≡ results xs ++ results ys
results-append [] ys = refl
results-append (save_result r ∷ xs) ys = ap (λ l. r ∷ l) (results-append xs ys)
results-append (enqueue_control c ∷ xs) ys = results-append xs ys
results-append (disconnect s ∷ xs) ys = results-append xs ys
results-append (send l g ∷ xs) ys = results-append xs ys
results-append (move_session s n ∷ xs) ys = results-append xs ys

results-disconnects : (m : Roster) → results (disconnect_remaining_players m) ≡ []
unfolding disconnect_remaining_players
results-disconnects [] = refl
results-disconnects ((s, p) ∷ m) = results-disconnects m

results-finish : (f : Fight) → results (finish_fight_and_release f).1 ≡ build_battle_result f ∷ []
unfolding finish_fight_and_release
results-finish f = rw (
  results-append (disconnect_remaining_players f.player_map)
      (save_result (build_battle_result f) ∷ enqueue_control (fight_free f.contents_num) ∷ []),
  results-disconnects f.player_map,
)

-- The result of the match `f` that names the team `t` as its winner
abbrev pub won_by : Team → Fight → BattleResult
won_by t f = record {
  match_id = f.match_id;
  winner_team = win_code t;
  red_team = f.red_slots;
  blue_team = f.blue_slots;
}

abbrev pub players_of : Team → Fight → ℕ
players_of red f = f.red_count
players_of blue f = f.blue_count

abbrev pub other_team : Team → Team
other_team red = blue
other_team blue = red

finish_if_ended-won :
    (f : Fight) (t : Team)
    → f.end ≡ true
    → players_of t f ≡ 0
    → players_of (other_team t) f ≢ 0
    → (g : Fight) × ((finish_if_ended f).0 ≡ some (finish_fight_and_release g))
      × (build_battle_result g ≡ won_by t f)
unfolding finish_if_ended check_game_end build_battle_result
finish_if_ended-won f red e z o = (record f { win_loss = 1 }, ground arith, refl)
finish_if_ended-won f blue e z o = (record f { win_loss = 2 }, ground arith, refl)

close-won :
    (f : Fight) (es : List Effect) (t : Team)
    → results es ≡ []
    → f.end ≡ true
    → players_of t f ≡ 0
    → players_of (other_team t) f ≢ 0
    → results (close f es).1 ≡ won_by t f ∷ []
unfolding close
close-won f es t q e z o =
    let (g, over, r) = finish_if_ended-won f t e z o in
    rw (over, close, results-append es (finish_fight_and_release g).1, q, results-finish g, r)

depart-won :
    (f : Fight) (s : ℕ) (p : Player)
    → players_of p.team f ≡ 1
    → (players_of p.team (depart f s p).0 ≡ 0)
      × (players_of (other_team p.team) (depart f s p).0 ≡ players_of (other_team p.team) f)
      × (won_by p.team (depart f s p).0 ≡ won_by p.team f)
      × ((depart f s p).0.end ≡ f.end)
      × (results (depart f s p).1 ≡ [])
unfolding depart
depart-won f s p one = departs p.team one
  where
    departs :
        (t : Team)
        → players_of t f ≡ 1
        → let r = depart f s (record p { team = t }) in
          (players_of t r.0 ≡ 0)
          × (players_of (other_team t) r.0 ≡ players_of (other_team t) f)
          × (won_by t r.0 ≡ won_by t f)
          × (r.0.end ≡ f.end)
          × (results r.1 ≡ [])
    departs red h = (rw h refl, refl, refl, refl, refl)
    departs blue h = (rw h refl, refl, refl, refl, refl)

-- The `is_win` column of the rows of one team
abbrev pub win_flags : ℕ → List RecordRow → List ℕ
win_flags n [] = []
win_flags n (r ∷ rows) = if r.team == n then r.is_win ∷ win_flags n rows else win_flags n rows

abbrev pub flags_of : ℕ → Query → List ℕ
flags_of n (player_battle_record rows) = win_flags n rows
flags_of n _ = []

won_by-flags :
    (t : Team) (f : Fight)
    → (flags_of (team_column t) (records_query (won_by t f)) ≡ 1 ∷ 1 ∷ 1 ∷ [])
      × (flags_of (team_column (other_team t)) (records_query (won_by t f)) ≡ 0 ∷ 0 ∷ 0 ∷ [])
unfolding records_query
won_by-flags red f = (refl, refl)
won_by-flags blue f = (refl, refl)

on_leave-close :
    (f : Fight) (s : ℕ) (p : Player)
    → find s f.player_map ≡ some p
    → on_leave f s ≡ close (depart f s p).0 (depart f s p).1
unfolding on_leave
on_leave-close f s p e = rw (e, on_leave)

-- When the last player of a team leaves a match that has not ended, and the other team still has
-- players, exactly one result goes to the database. It names as the winner the team whose last player
-- left, and its query gives the three players of that team `is_win` 1 and the others 0.
pub on_leave_winner :
    (f : Fight) (s : ℕ) (p : Player)
    → find s f.player_map ≡ some p
    → f.end ≡ true
    → players_of p.team f ≡ 1
    → players_of (other_team p.team) f ≢ 0
    → (r : BattleResult) × (results (on_leave f s).1 ≡ r ∷ [])
      × (r.winner_team ≡ win_code p.team)
      × (flags_of (team_column p.team) (records_query r) ≡ 1 ∷ 1 ∷ 1 ∷ [])
      × (flags_of (team_column (other_team p.team)) (records_query r) ≡ 0 ∷ 0 ∷ 0 ∷ [])
on_leave_winner f s p here e one more =
    let (z, o, w, k, q) = depart-won f s p one in
    let c =
      close-won (depart f s p).0 (depart f s p).1 p.team q (k ∙ e) z (λ n. more (sym o ∙ n)) in
    let (mine, theirs) = won_by-flags p.team f in
    (
      won_by p.team f,
      ap (λ q. results q.1) (on_leave-close f s p here) ∙ c ∙ ap (λ q. q ∷ []) w,
      refl,
      mine,
      theirs,
    )
