-- ===== src/Control/Matches.antt =====
-- The matches that the control thread registers and removes.
use mo_session_server.Control.{
  ControlState, advance_contents_num, fight, handle_fight_alloc, handle_fight_free, match_contents,
  room,
}
use mo_session_server.Base.{ℕ, ◌≡◌, ◌≢◌, ◌≤◌, ◌<◌, none, some, refl, arith, map}
use mo_session_server.Base.Table.{find}
use mo_session_server.Battle.{Group}
use mo_session_server.Battle.Fight.{Fight, init, clear}
use mo_session_server.Battle.Fight.WellFormed.{Inv}
use mo_session_server.Battle.Fight.Spending.{budget}
use mo_session_server.Match.Groups.{members}

-- The number of the next match is never that of the lobby, never 0, and never the last one again.
advance_contents_num-range :
    (n : ℕ)
    → 1 ≤ n
    → n < room
    → let k = advance_contents_num n in (1 ≤ k) × (k < room) × (k ≢ match_contents) × (k ≢ n)
unfolding advance_contents_num
advance_contents_num-range n lo hi = ground arith

init-Inv : (pooled : Fight) (n id : ℕ) (group : Group) → Inv (init (clear pooled) n id group)
unfolding init clear
init-Inv pooled n id group = record {
  unique = tt;
  reds = refl;
  blues = refl;
  few = omega arith;
  at_most = omega arith;
}

-- A request for a match registers one under the next number, when that is free: nobody has entered it,
-- its counters are right, it can end once, and exactly the group's six sessions are sent to it.
handle_fight_alloc-registers :
    (pooled : Fight) (id : ℕ) (group : Group) (s : ControlState)
    → find s.next_contents_num s.contents_map ≡ none
    → let (s', posts) = handle_fight_alloc pooled id group s in
      (f : Fight) × (find s.next_contents_num s'.contents_map ≡ some (fight f))
      × Inv f
      × (f.matched ≡ 0)
      × (budget f ≡ 1)
      × (f.contents_num ≡ s.next_contents_num)
      × (posts ≡ map (λ j. (j, s.next_contents_num)) (members group))
unfolding handle_fight_alloc init clear
handle_fight_alloc-registers pooled id group s free = (
  init (clear pooled) s.next_contents_num id group,
  ground (arith, free),
  init-Inv pooled s.next_contents_num id group,
  refl,
  refl,
  refl,
  refl,
)

-- A match that is registered under a free number and then released leaves the registered contents as
-- they were.
pub fight_free-alloc :
    (pooled : Fight) (id : ℕ) (group : Group) (s : ControlState)
    → find s.next_contents_num s.contents_map ≡ none
    → (handle_fight_free s.next_contents_num (handle_fight_alloc pooled id group s).0).contents_map
      ≡ s.contents_map
unfolding handle_fight_alloc handle_fight_free
fight_free-alloc pooled id group s free = ground (arith, free)
