-- ===== src/Battle/Movement.antt =====
-- FightContents::ApplyMovement of Servers/BattleSessionServer/FighterContents.cpp, and the part of
-- OnUpdate that turns elapsed time into frames.
pub mod Frames
pub mod Bounds
use mo_session_server.Base.{
  ℕ, ◌+◌, ◌-◌, ◌/◌, ◌%◌, ◌==◌, Option, none, some, if◌then◌else◌, List, [], ◌∷◌, ◌^◌,
}
use mo_session_server.Base.Int.{
  ℤ, pos, negsuc, ◌+ℤ◌, ◌-ℤ◌, scale, div_trunc, min_ℤ, ltb_ℤ, u16, sub32, eqb_ℤ,
}
use mo_session_server.Battle.{
  Direction, ll, lu, uu, ru, rr, rd, dd, ld, Player, range_move_top, range_move_left,
  range_move_right, range_move_bottom,
}

-- The `case` labels of the direction constants.
unfoldable pub direction_of : ℕ → Option Direction
direction_of d =
    if d == 0
    then some ll
    else if d == 1
    then some lu
    else if d == 2
    then some uu
    else if d == 3
    then some ru
    else if d == 4
    then some rr
    else if d == 5
    then some rd
    else if d == 6
    then some dd
    else if d == 7
    then some ld
    else none

unfoldable pub move_direction : ℤ → Option Direction
unfolding direction_of
move_direction (pos d) = direction_of d
move_direction (negsuc _) = none

-- How many frames fit before each edge: `maxFrameX` and `maxFrameY`.
unfoldable pub frames_left : ℤ → ℤ
frames_left x = div_trunc (x -ℤ pos range_move_left) 3

unfoldable pub frames_right : ℤ → ℤ
frames_right x = div_trunc (pos range_move_right -ℤ x) 3

unfoldable pub frames_up : ℤ → ℤ
frames_up y = div_trunc (y -ℤ pos range_move_top) 2

unfoldable pub frames_down : ℤ → ℤ
frames_down y = div_trunc (pos range_move_bottom -ℤ y) 2

-- The `switch`: the new position, computed in `int`.
unfoldable pub new_position : Direction → ℤ → ℤ → ℤ → ℤ × ℤ
unfolding frames_left frames_right frames_up frames_down
new_position ll frame x y = (x -ℤ scale 3 (min_ℤ frame (frames_left x)), y)
new_position uu frame x y = (x, y -ℤ scale 2 (min_ℤ frame (frames_up y)))
new_position rr frame x y = (x +ℤ scale 3 (min_ℤ frame (frames_right x)), y)
new_position dd frame x y = (x, y +ℤ scale 2 (min_ℤ frame (frames_down y)))
new_position lu frame x y =
    let m = min_ℤ frame (min_ℤ (frames_left x) (frames_up y)) in (x -ℤ scale 3 m, y -ℤ scale 2 m)
new_position ru frame x y =
    let m = min_ℤ frame (min_ℤ (frames_right x) (frames_up y)) in (x +ℤ scale 3 m, y -ℤ scale 2 m)
new_position rd frame x y =
    let m = min_ℤ frame (min_ℤ (frames_right x) (frames_down y)) in (x +ℤ scale 3 m, y +ℤ scale 2 m)
new_position ld frame x y =
    let m = min_ℤ frame (min_ℤ (frames_left x) (frames_down y)) in (x -ℤ scale 3 m, y +ℤ scale 2 m)

place : Player → ℤ × ℤ → Player
place p q = record p { x = u16 q.0; y = u16 q.1 }

-- `ApplyMovement`
unfoldable pub apply_movement : Player → ℤ → Player
unfolding place
apply_movement p frame =
    if ltb_ℤ (pos 0) frame
    then elim (move_direction p.move) [
      | none ↦ p
      | some d ↦ place p (new_position d frame (pos p.x) (pos p.y))
    ]
    else p

-- `static_cast<int>(frame)`: at most 2^32 / 20 frames, so the cast changes nothing.
unfoldable pub elapsed_frames : ℕ → ℕ → ℕ
elapsed_frames now old = sub32 now old / 20

-- `_oldTick += deltatime - remain`
unfoldable pub advance_tick : ℕ → ℕ → ℕ
advance_tick now old = (old + (sub32 now old - sub32 now old % 20)) % (2 ^ 32)

-- The loop of `OnUpdate` over the players.
unfoldable pub move_players : ℤ → List (ℕ × Player) → List (ℕ × Player)
move_players frames [] = []
move_players frames ((s, p) ∷ m) =
    (s, if eqb_ℤ p.move (negsuc 0) then p else apply_movement p frames) ∷ move_players frames m
