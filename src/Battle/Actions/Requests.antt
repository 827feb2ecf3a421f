-- ===== src/Battle/Actions/Requests.antt =====
-- The guards of the requests: position check, intervals, and what each accepted request changes.
use mo_session_server.Battle.Actions.Keeping.{Near, attack-Keeps, move_start-Keeps, move_stop-Keeps}
use mo_session_server.Base.{ℕ, arith, some, true, ◌∙◌, ◌≡◌, ==_self, false, ◌+◌, ◌<◌}
use mo_session_server.Base.Int.{eqb_ℤ, pos}
use mo_session_server.Base.Table.{find, assign, find-assign, IsMap}
use mo_session_server.Battle.{Player, Roster, error_range, dir_rr, range_move_right}
use mo_session_server.Battle.Actions.{
  is_position_sync_valid, proc_cs_move_start, Attack, can_handle_move_request,
  is_valid_move_direction, proc_cs_attack, proc_cs_move_stop, started,
}

-- Whatever position the client claims, each request leaves every player of the map in the map, and
-- within the error range, on both axes, of where the server had it.
pub requests-Near :
    (k : Attack) (m : Roster) (s dir x y now j : ℕ) (p : Player)
    → IsMap m
    → find j m ≡ some p
    → ((q : Player) × (find j (proc_cs_move_start m s dir x y now).0 ≡ some q) × Near p q)
      × ((q : Player) × (find j (proc_cs_move_stop m s dir x y).0 ≡ some q) × Near p q)
      × ((q : Player) × (find j (proc_cs_attack k m s dir x y now).0 ≡ some q) × Near p q)
requests-Near k m s dir x y now j p u e = (
  move_start-Keeps m s dir x y now j p e,
  move_stop-Keeps m s dir x y j p e,
  attack-Keeps k m s dir x y now u j p e,
)

-- A claimed position is held against the server's position and not against the arena: a player in
-- reach of the right edge can start to move from outside it.
pub move_start_leaves_arena :
    (m : Roster) (s now : ℕ) (p : Player)
    → find s m ≡ some p
    → can_handle_move_request p now ≡ true
    → eqb_ℤ p.move (pos dir_rr) ≡ false
    → range_move_right < p.x + error_range
    → (q : Player) × (find s (proc_cs_move_start m s dir_rr (p.x + error_range) p.y now).0 ≡ some q)
      × (range_move_right < q.x)
unfolding proc_cs_move_start started is_valid_move_direction is_position_sync_valid
move_start_leaves_arena m s now p e ready turn h = (
  started p dir_rr (p.x + error_range) p.y now,
  (let q = started p dir_rr (p.x + error_range) p.y now in
      let r : find s (assign s q m) ≡ some q = find-assign s s q p m e ∙ rw (==_self s) in
      ground (arith, r)),
  h,
)
