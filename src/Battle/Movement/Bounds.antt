-- ===== src/Battle/Movement/Bounds.antt =====
-- FightContents::ApplyMovement on players inside the arena.
use mo_session_server.Battle.Movement.Frames.{InArena, go_x, go_y, new_position_in, steps}
use mo_session_server.Base.{
  ℕ, ◌+◌, ◌-◌, ◌≤◌, ◌≡◌, min, arith, some, suc, zero, Option-cases, inl, inr, none, sym,
}
use mo_session_server.Base.Int.{pos, ℤ, negsuc}
use mo_session_server.Battle.{Direction, ll, Player}
use mo_session_server.Battle.Movement.{apply_movement, move_direction}

-- Inside the arena.
walk : Direction → ℕ → Player → Player
walk d m p = record p { x = go_x d m p.x; y = go_y d m p.y }

walk_zero : (d : Direction) (p : Player) → walk d (min 0 (steps d p.x p.y)) p ≡ p
unfolding walk go_x go_y
walk_zero ll p = ground arith
walk_zero _ p = ground arith

apply_movement-walk :
    (p : Player) (d : Direction) (n : ℕ)
    → InArena p.x p.y
    → move_direction p.move ≡ some d
    → apply_movement p (pos n) ≡ walk d (min n (steps d p.x p.y)) p
unfolding apply_movement walk
apply_movement-walk p d zero h e = sym (walk_zero d p)
apply_movement-walk p d (suc n) h e =
    rw (e, apply_movement) (ground (arith, new_position_in d (suc n) p.x p.y h))

walk-InArena :
    (d : Direction) (n x y : ℕ)
    → InArena x y
    → InArena (go_x d (min n (steps d x y)) x) (go_y d (min n (steps d x y)) y)
unfolding steps go_x go_y
walk-InArena ll n x y h = omega arith
walk-InArena _ n x y h = omega arith

steps-walk :
    (d : Direction) (a x y : ℕ)
    → InArena x y
    → a ≤ steps d x y
    → steps d (go_x d a x) (go_y d a y) ≡ steps d x y - a
unfolding steps go_x go_y
steps-walk ll a x y h k = omega arith
steps-walk _ a x y h k = omega arith

go_add :
    (d : Direction) (a b x y : ℕ)
    → (go_x d b (go_x d a x) ≡ go_x d (a + b) x) × (go_y d b (go_y d a y) ≡ go_y d (a + b) y)
unfolding go_x go_y
go_add ll a b x y = omega arith
go_add _ a b x y = omega arith

min_split : (m n s : ℕ) → min m s + min n (s - min m s) ≡ min (m + n) s
min_split m n s = omega arith

walk_add :
    (p : Player) (d : Direction) (m n : ℕ)
    → InArena p.x p.y
    → let q = walk d (min m (steps d p.x p.y)) p in
      walk d (min n (steps d q.x q.y)) q ≡ walk d (min (m + n) (steps d p.x p.y)) p
unfolding walk
walk_add p d m n h =
    let s = steps d p.x p.y in
    rw (
      steps-walk d (min m s) p.x p.y h (omega arith),
      (go_add d (min m s) (min n (s - min m s)) p.x p.y).0,
      (go_add d (min m s) (min n (s - min m s)) p.x p.y).1,
      min_split m n s,
    )

apply_movement-none :
    (p : Player) (frame : ℤ) → move_direction p.move ≡ none → apply_movement p frame ≡ p
unfolding apply_movement
apply_movement-none p frame e = rw (e, apply_movement) (ground arith)

apply_movement-nonpos : (p : Player) (n : ℕ) → apply_movement p (negsuc n) ≡ p
unfolding apply_movement
apply_movement-nonpos p n = ground arith

-- A player inside the arena stays inside it, whatever its direction and the number of frames.
pub apply_movement-InArena :
    (p : Player) (frame : ℤ)
    → InArena p.x p.y
    → InArena (apply_movement p frame).x (apply_movement p frame).y
apply_movement-InArena p (negsuc n) h = rw (apply_movement-nonpos p n) h
apply_movement-InArena p (pos n) h = elim (Option-cases (move_direction p.move)) [
  | inl e ↦ rw (apply_movement-none p (pos n) e) h
  | inr (d, e) ↦ rw (apply_movement-walk p d n h e) (unfold walk in walk-InArena d n p.x p.y h)
]

-- Moving a player of the arena by `m` frames and then by `n` is moving it by `m + n` at once, so the
-- position does not depend on how the scheduler batches frames.
pub apply_movement-add :
    (p : Player) (m n : ℕ)
    → InArena p.x p.y
    → apply_movement (apply_movement p (pos m)) (pos n) ≡ apply_movement p (pos (m + n))
apply_movement-add p m n h = elim (Option-cases (move_direction p.move)) [
  | inl e ↦ rw (
    apply_movement-none p (pos m) e,
    apply_movement-none p (pos n) e,
    apply_movement-none p (pos (m + n)) e,
  )
  | inr (d, e) ↦
      rw
        (
          apply_movement-walk p d m h e,
          apply_movement-walk p d (m + n) h e,
          apply_movement-walk (walk d (min m (steps d p.x p.y)) p) d n
              (unfold walk in walk-InArena d m p.x p.y h) (unfold walk in e),
        )
        (walk_add p d m n h)
]
