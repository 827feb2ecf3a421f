-- ===== src/Battle/Fight/Counts.antt =====
-- _redCount and _blueCount of FightContents, over its handlers.
use mo_session_server.Battle.Fight.WellFormed.{
  Inv, count, count-assign, count-erase, count-le, length-assign,
}
use mo_session_server.Base.Int.{ℤ, inc32, pos}
use mo_session_server.Base.{
  [], arith, length, none, refl, some, ℕ, ◌+◌, ◌<◌, ◌∷◌, ◌≡◌, Bool, List, Option-cases, inl, inr,
  sym, ◌∙◌, Bool-cases, false, if◌then◌else◌, ltb, true,
}
use mo_session_server.Base.Table.{IsMap, find, assign-IsMap, erase-IsMap}
use mo_session_server.Battle.Fight.{
  Fight, admit, depart, enter, finish_fight_and_release, finish_if_ended, on_enter, on_leave,
  on_update, place_pair, place_slot, placed, start_match, close, settle, check_game_end,
}
use mo_session_server.Battle.{Player, Roster, Team, blue, red, Effect}
use mo_session_server.Battle.Movement.{move_players, apply_movement, elapsed_frames}

-- No counter wraps: the match has at most six players.
depart-Inv :
    (f : Fight) (s : ℕ) (p : Player) → Inv f → find s f.player_map ≡ some p → Inv (depart f s p).0
unfolding depart
depart-Inv f s p v e =
    ground
      (arith, count-erase s p f.player_map e, erase-IsMap s f.player_map, count-le f.player_map)

admit-Inv :
    (f : Fight) (s : ℕ) (p : Player)
    → Inv f
    → f.matched < 6
    → find s f.player_map ≡ none
    → Inv (record (admit f s p) { matched = f.matched + 1 })
unfolding admit
admit-Inv f s p v h e = ground (arith, count-le f.player_map)

finish_if_ended-Inv :
    (f : Fight)
    → Inv f
    → Inv (finish_if_ended f).1
      × ((g : Fight) (es : List Effect) → (finish_if_ended f).0 ≡ some (g, es) → Inv g)
unfolding finish_if_ended finish_fight_and_release check_game_end
finish_if_ended-Inv f v = (ground arith, λ g es e. ground arith)

-- A map is as good for the invariant as another with the same keys and teams.
abbrev Same : Roster → Roster → Type 0
Same m n =
    (IsMap m → IsMap n)
    × (count red n ≡ count red m)
    × (count blue n ≡ count blue m)
    × (length n ≡ length m)

Same-trans : (l m n : Roster) → Same l m → Same m n → Same l n
Same-trans l m n h k = (λ u. k.0 (h.0 u), k.1 ∙ h.1, k.2 ∙ h.2, k.3 ∙ h.3)

place_slot-Same : (t : Team) (i s : ℕ) (m : Roster) → Same m (place_slot t i s m).0
unfolding place_slot
place_slot-Same t i s m = elim (Option-cases (find s m)) [
  | inl e ↦ rw (e, place_slot) (λ u. u, refl, refl, refl)
  | inr (p, e) ↦
      rw (e, place_slot)
        (
          λ u. assign-IsMap s (placed t i p) m u,
          (count-assign s (placed t i p) p m e (placed-team t i p)).0,
          (count-assign s (placed t i p) p m e (placed-team t i p)).1,
          length-assign s (placed t i p) m,
        )
]
  where
    placed-team : (t : Team) (i : ℕ) (p : Player) → (placed t i p).team ≡ p.team
    placed-team red i p = refl
    placed-team blue i p = refl

place_pair-Same : (i r b : ℕ) (m : Roster) → Same m (place_pair i r b m).0
unfolding place_pair
place_pair-Same i r b m =
    Same-trans m (place_slot red i r m).0 (place_slot blue i b (place_slot red i r m).0).0
      (place_slot-Same red i r m) (place_slot-Same blue i b (place_slot red i r m).0)

Same-Inv :
    (f : Fight) (n : Roster) → Inv f → Same f.player_map n → Inv (record f { player_map = n })
Same-Inv f n v h = record {
  unique = h.0 v.unique;
  reds = v.reds ∙ sym h.1;
  blues = v.blues ∙ sym h.2;
  few = rw h.3 v.few;
  at_most = v.at_most;
}

start_match-Inv : (f : Fight) → Inv f → Inv (start_match f).0
unfolding start_match
start_match-Inv f v =
    let m0 = (place_pair 0 f.red_slots.slot0 f.blue_slots.slot0 f.player_map).0 in
    let m1 = (place_pair 1 f.red_slots.slot1 f.blue_slots.slot1 m0).0 in
    let m2 = (place_pair 2 f.red_slots.slot2 f.blue_slots.slot2 m1).0 in
    Same-Inv f m2 v (
      Same-trans f.player_map m1 m2
        (Same-trans f.player_map m0 m1
          (place_pair-Same 0 f.red_slots.slot0 f.blue_slots.slot0 f.player_map)
          (place_pair-Same 1 f.red_slots.slot1 f.blue_slots.slot1 m0))
        (place_pair-Same 2 f.red_slots.slot2 f.blue_slots.slot2 m1))

matched-admit : (f : Fight) (s : ℕ) (p : Player) → (admit f s p).matched ≡ f.matched
unfolding admit
matched-admit f s p = ground arith

enter-Inv :
    (players : Roster) (moved : Bool) (f : Fight) (s : ℕ)
    → Inv f
    → f.matched < 6
    → find s f.player_map ≡ none
    → Inv (enter players moved f s)
unfolding enter
enter-Inv players moved f s v h e = elim (Option-cases (find s players)) [
  | inl none_found ↦ rw (none_found, enter) (ground arith)
  | inr (p, found) ↦ rw (found, enter) (enters p moved)
]
  where
    enters :
        (p : Player) (b : Bool)
        → let g = if b then admit f s p else f in Inv (record g { matched = inc32 g.matched })
    enters p true = rw (matched-admit f s p) (ground (arith, admit-Inv f s p v h e))
    enters p false = ground arith

settle-Inv : (f : Fight) → Inv f → Inv (settle f).0
unfolding settle
settle-Inv f v = elim (Bool-cases (ltb f.matched 6)) [
  | inl few ↦ rw (few, settle) v
  | inr full ↦
      rw (full, settle)
        (elim (Option-cases (finish_if_ended f).0) [
          | inl open_still ↦
              rw (open_still, settle)
                (start_match-Inv (finish_if_ended f).1 (finish_if_ended-Inv f v).0)
          | inr ((g, es), over) ↦ rw (over, settle) ((finish_if_ended-Inv f v).1 g es over)
        ])
]

close-Inv : (f : Fight) (es : List Effect) → Inv f → Inv (close f es).0
unfolding close
close-Inv f es v = elim (Option-cases (finish_if_ended f).0) [
  | inl open_still ↦ rw (open_still, close) (finish_if_ended-Inv f v).0
  | inr ((g, es'), over) ↦ rw (over, close) ((finish_if_ended-Inv f v).1 g es' over)
]

-- A match that is well formed, that fewer than six have entered and whose map does not have the session
-- is well formed after the session enters, also when it starts or ends with it: its map has distinct
-- sessions, at most as many as have entered, and its counters count the players of each team there.
pub on_enter-Inv :
    (players : Roster) (moved : Bool) (f : Fight) (s : ℕ)
    → Inv f
    → f.matched < 6
    → find s f.player_map ≡ none
    → Inv (on_enter players moved f s).0
unfolding on_enter
on_enter-Inv players moved f s v h e =
    settle-Inv (enter players moved f s) (enter-Inv players moved f s v h e)

-- A match that is well formed is so after a session leaves: its counters still count the players of
-- each team in its map, so none has gone below zero.
pub on_leave-Inv : (f : Fight) (s : ℕ) → Inv f → Inv (on_leave f s).0
unfolding on_leave
on_leave-Inv f s v = elim (Option-cases (find s f.player_map)) [
  | inl gone ↦ rw (gone, on_leave) v
  | inr (p, e) ↦
      rw (e, on_leave) (close-Inv (depart f s p).0 (depart f s p).1 (depart-Inv f s p v e))
]

team-apply_movement : (p : Player) (n : ℤ) → (apply_movement p n).team ≡ p.team
unfolding apply_movement
team-apply_movement p n = ground arith

find-move_players-none :
    (k : ℕ) (n : ℤ) (m : Roster) → find k m ≡ none → find k (move_players n m) ≡ none
unfolding move_players
find-move_players-none k n [] e = refl
find-move_players-none k n ((j, p) ∷ m) e = ground (arith, find-move_players-none k n m)

move_players-Same : (n : ℤ) (m : Roster) → Same m (move_players n m)
unfolding move_players
move_players-Same n [] = (λ u. u, refl, refl, refl)
move_players-Same n ((j, p) ∷ m) = (
  λ u. (find-move_players-none j n m u.0, (move_players-Same n m).0 u.1),
  ground (arith, team-apply_movement p n, (move_players-Same n m).1),
  ground (arith, team-apply_movement p n, (move_players-Same n m).2),
  ground (arith, (move_players-Same n m).3),
)

-- A frame update keeps a match well formed: the map, the counters and the number of entries still agree.
pub on_update-Inv : (now : ℕ) (f : Fight) → Inv f → Inv (on_update now f)
unfolding on_update
on_update-Inv now f v =
    let n = move_players (pos (elapsed_frames now f.old_tick)) f.player_map in
    let w = Same-Inv f n v (move_players-Same (pos (elapsed_frames now f.old_tick)) f.player_map) in
    record { unique = w.unique; reds = w.reds; blues = w.blues; few = w.few; at_most = w.at_most }
