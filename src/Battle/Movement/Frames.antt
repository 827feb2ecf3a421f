-- ===== src/Battle/Movement/Frames.antt =====
-- Where a player of the arena gets to in some frames, in natural numbers.
use mo_session_server.Base.{ℕ, ◌+◌, ◌-◌, ◌*◌, ◌/◌, ◌≤◌, ◌≡◌, min, arith, ◌<◌, ◌^◌}
use mo_session_server.Base.Int.{pos, ◌+ℤ◌, ◌-ℤ◌, scale, div_trunc, min_ℤ, u16}
use mo_session_server.Battle.{
  Direction, ll, lu, uu, ru, rr, rd, dd, ld, range_move_top, range_move_left, range_move_right,
  range_move_bottom,
}
use mo_session_server.Battle.Movement.{
  new_position, frames_left, frames_right, frames_up, frames_down,
}

abbrev pub InArena : ℕ → ℕ → Type 0
InArena x y =
    (range_move_left ≤ x) × (x ≤ range_move_right) × (range_move_top ≤ y) × (y ≤ range_move_bottom)

frames_left_in : (x : ℕ) → 10 ≤ x → frames_left (pos x) ≡ pos ((x - 10) / 3)
unfolding frames_left ◌-ℤ◌ div_trunc
frames_left_in x h = ground arith

frames_right_in : (x : ℕ) → x ≤ 630 → frames_right (pos x) ≡ pos ((630 - x) / 3)
unfolding frames_right ◌-ℤ◌ div_trunc
frames_right_in x h = ground arith

frames_up_in : (y : ℕ) → 50 ≤ y → frames_up (pos y) ≡ pos ((y - 50) / 2)
unfolding frames_up ◌-ℤ◌ div_trunc
frames_up_in y h = ground arith

frames_down_in : (y : ℕ) → y ≤ 470 → frames_down (pos y) ≡ pos ((470 - y) / 2)
unfolding frames_down ◌-ℤ◌ div_trunc
frames_down_in y h = ground arith

min_pos : (a b : ℕ) → min_ℤ (pos a) (pos b) ≡ pos (min a b)
unfolding min_ℤ
min_pos a b = ground arith

sub_scaled : (k m x : ℕ) → k * m ≤ x → x < 2 ^ 16 → u16 (pos x -ℤ scale k (pos m)) ≡ x - k * m
unfolding u16 ◌-ℤ◌ scale
sub_scaled k m x h b = ground arith

add_scaled : (k m x : ℕ) → x + k * m < 2 ^ 16 → u16 (pos x +ℤ scale k (pos m)) ≡ x + k * m
unfolding u16 ◌+ℤ◌ scale
add_scaled k m x b = ground arith

-- In the arena every case of the `switch` is arithmetic on unsigned numbers.
unfoldable pub steps : Direction → ℕ → ℕ → ℕ
steps ll x y = (x - 10) / 3
steps uu x y = (y - 50) / 2
steps rr x y = (630 - x) / 3
steps dd x y = (470 - y) / 2
steps lu x y = min ((x - 10) / 3) ((y - 50) / 2)
steps ru x y = min ((630 - x) / 3) ((y - 50) / 2)
steps rd x y = min ((630 - x) / 3) ((470 - y) / 2)
steps ld x y = min ((x - 10) / 3) ((470 - y) / 2)

unfoldable pub go_x : Direction → ℕ → ℕ → ℕ
go_x ll m x = x - 3 * m
go_x uu m x = x
go_x rr m x = x + 3 * m
go_x dd m x = x
go_x lu m x = x - 3 * m
go_x ru m x = x + 3 * m
go_x rd m x = x + 3 * m
go_x ld m x = x - 3 * m

unfoldable pub go_y : Direction → ℕ → ℕ → ℕ
go_y ll m y = y
go_y uu m y = y - 2 * m
go_y rr m y = y
go_y dd m y = y + 2 * m
go_y lu m y = y - 2 * m
go_y ru m y = y - 2 * m
go_y rd m y = y + 2 * m
go_y ld m y = y + 2 * m

u16_pos : (x : ℕ) → x < 2 ^ 16 → u16 (pos x) ≡ x
unfolding u16
u16_pos x h = omega arith

pub new_position_in :
    (d : Direction) (n x y : ℕ)
    → InArena x y
    → let q = new_position d (pos n) (pos x) (pos y) in
      (u16 q.0 ≡ go_x d (min n (steps d x y)) x) × (u16 q.1 ≡ go_y d (min n (steps d x y)) y)
unfolding new_position steps go_x go_y
new_position_in ll n x y h =
    rw (frames_left_in x h.0, min_pos n ((x - 10) / 3))
      (sub_scaled 3 (min n ((x - 10) / 3)) x (omega arith) (omega arith), u16_pos y (omega arith))
new_position_in uu n x y h =
    rw (frames_up_in y h.2, min_pos n ((y - 50) / 2))
      (u16_pos x (omega arith), sub_scaled 2 (min n ((y - 50) / 2)) y (omega arith) (omega arith))
new_position_in rr n x y h =
    rw (frames_right_in x h.1, min_pos n ((630 - x) / 3))
      (add_scaled 3 (min n ((630 - x) / 3)) x (omega arith), u16_pos y (omega arith))
new_position_in dd n x y h =
    rw (frames_down_in y h.3, min_pos n ((470 - y) / 2))
      (u16_pos x (omega arith), add_scaled 2 (min n ((470 - y) / 2)) y (omega arith))
new_position_in lu n x y h =
    rw
      (
        frames_left_in x h.0,
        frames_up_in y h.2,
        min_pos ((x - 10) / 3) ((y - 50) / 2),
        min_pos n (min ((x - 10) / 3) ((y - 50) / 2)),
      )
      (
        sub_scaled 3 (min n (min ((x - 10) / 3) ((y - 50) / 2))) x (omega arith) (omega arith),
        sub_scaled 2 (min n (min ((x - 10) / 3) ((y - 50) / 2))) y (omega arith) (omega arith),
      )
new_position_in ru n x y h =
    rw
      (
        frames_right_in x h.1,
        frames_up_in y h.2,
        min_pos ((630 - x) / 3) ((y - 50) / 2),
        min_pos n (min ((630 - x) / 3) ((y - 50) / 2)),
      )
      (
        add_scaled 3 (min n (min ((630 - x) / 3) ((y - 50) / 2))) x (omega arith),
        sub_scaled 2 (min n (min ((630 - x) / 3) ((y - 50) / 2))) y (omega arith) (omega arith),
      )
new_position_in rd n x y h =
    rw
      (
        frames_right_in x h.1,
        frames_down_in y h.3,
        min_pos ((630 - x) / 3) ((470 - y) / 2),
        min_pos n (min ((630 - x) / 3) ((470 - y) / 2)),
      )
      (
        add_scaled 3 (min n (min ((630 - x) / 3) ((470 - y) / 2))) x (omega arith),
        add_scaled 2 (min n (min ((630 - x) / 3) ((470 - y) / 2))) y (omega arith),
      )
new_position_in ld n x y h =
    rw
      (
        frames_left_in x h.0,
        frames_down_in y h.3,
        min_pos ((x - 10) / 3) ((470 - y) / 2),
        min_pos n (min ((x - 10) / 3) ((470 - y) / 2)),
      )
      (
        sub_scaled 3 (min n (min ((x - 10) / 3) ((470 - y) / 2))) x (omega arith) (omega arith),
        add_scaled 2 (min n (min ((x - 10) / 3) ((470 - y) / 2))) y (omega arith),
      )
