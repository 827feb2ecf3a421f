-- ===== src/Battle/Fight/Spending.antt =====
-- How often a list of effects ends a match, for the lists that the handlers build.
use mo_session_server.Base.{List, [], arith, if◌then◌else◌, suc, ℕ, ◌++◌, ◌+◌, ◌∷◌, ◌≡◌, refl}
use mo_session_server.Battle.Fight.{
  Fight, announce, disconnect_remaining_players, place_pair, place_slot, start_match,
}
use mo_session_server.Battle.{
  Effect, Roster, disconnect, enqueue_control, move_session, save_result, send, Team, blue, red,
}

-- How often the result is handed to the database, and the match to the control thread
abbrev pub saves : List Effect → ℕ
saves [] = 0
saves (save_result r ∷ es) = suc (saves es)
saves (enqueue_control c ∷ es) = saves es
saves (disconnect s ∷ es) = saves es
saves (send l g ∷ es) = saves es
saves (move_session s n ∷ es) = saves es

abbrev pub releases : List Effect → ℕ
releases [] = 0
releases (enqueue_control c ∷ es) = suc (releases es)
releases (save_result r ∷ es) = releases es
releases (disconnect s ∷ es) = releases es
releases (send l g ∷ es) = releases es
releases (move_session s n ∷ es) = releases es

abbrev pub budget : Fight → ℕ
budget f = if f.end then 1 else 0

-- How often a list of effects ends the match, which is both.
abbrev pub Ends : ℕ → List Effect → Type 0
Ends n es = (saves es ≡ n) × (releases es ≡ n)

pub saves-append : (xs ys : List Effect) → saves (xs ++ ys) ≡ saves xs + saves ys
saves-append [] ys = omega arith
saves-append (save_result r ∷ xs) ys = omega (arith, saves-append xs ys)
saves-append (enqueue_control c ∷ xs) ys = saves-append xs ys
saves-append (disconnect s ∷ xs) ys = saves-append xs ys
saves-append (send l g ∷ xs) ys = saves-append xs ys
saves-append (move_session s n ∷ xs) ys = saves-append xs ys

pub releases-append : (xs ys : List Effect) → releases (xs ++ ys) ≡ releases xs + releases ys
releases-append [] ys = omega arith
releases-append (save_result r ∷ xs) ys = releases-append xs ys
releases-append (enqueue_control c ∷ xs) ys = omega (arith, releases-append xs ys)
releases-append (disconnect s ∷ xs) ys = releases-append xs ys
releases-append (send l g ∷ xs) ys = releases-append xs ys
releases-append (move_session s n ∷ xs) ys = releases-append xs ys

pub Ends-append : (a b : ℕ) (xs ys : List Effect) → Ends a xs → Ends b ys → Ends (a + b) (xs ++ ys)
Ends-append a b xs ys h k = omega (arith, saves-append xs ys, releases-append xs ys)

pub disconnects-Ends : (m : Roster) → Ends 0 (disconnect_remaining_players m)
unfolding disconnect_remaining_players
disconnects-Ends [] = (refl, refl)
disconnects-Ends ((s, p) ∷ m) = disconnects-Ends m

announce-Ends : (all m : Roster) → Ends 0 (announce all m)
unfolding announce
announce-Ends all [] = (refl, refl)
announce-Ends all ((s, p) ∷ m) = announce-Ends all m

place_slot-Ends : (t : Team) (i s : ℕ) (m : Roster) → Ends 0 (place_slot t i s m).1
unfolding place_slot
place_slot-Ends t i s m = ground arith

place_pair-Ends : (i r b : ℕ) (m : Roster) → Ends 0 (place_pair i r b m).1
unfolding place_pair
place_pair-Ends i r b m =
    Ends-append 0 0 (place_slot red i r m).1 (place_slot blue i b (place_slot red i r m).0).1
      (place_slot-Ends red i r m) (place_slot-Ends blue i b (place_slot red i r m).0)

pub start_match-Ends : (f : Fight) → Ends 0 (start_match f).1 × ((start_match f).0.end ≡ f.end)
unfolding start_match
start_match-Ends f =
    let (m0, e0) = place_pair 0 f.red_slots.slot0 f.blue_slots.slot0 f.player_map in
    let (m1, e1) = place_pair 1 f.red_slots.slot1 f.blue_slots.slot1 m0 in
    let (m2, e2) = place_pair 2 f.red_slots.slot2 f.blue_slots.slot2 m1 in
    (
      Ends-append 0 0 e0 (e1 ++ (e2 ++ announce m2 m2))
          (place_pair-Ends 0 f.red_slots.slot0 f.blue_slots.slot0 f.player_map)
          (Ends-append 0 0 e1 (e2 ++ announce m2 m2)
            (place_pair-Ends 1 f.red_slots.slot1 f.blue_slots.slot1 m0)
            (Ends-append 0 0 e2 (announce m2 m2)
              (place_pair-Ends 2 f.red_slots.slot2 f.blue_slots.slot2 m1) (announce-Ends m2 m2))),
      refl,
    )
