-- ===== src/Session/Examples.antt =====
-- Histories of a slot: a session that is released, a disconnect that comes late, and a slot that was
-- never accepted.
use mo_session_server.Base.{arith, false, refl, true, ◌+◌, ◌≡◌, ◌≤◌, ◌⊎◌}
use mo_session_server.Session.{
  Drain, Reach, System, begin, clear_release_flag, close, closes, count, counts, drains, elsewhere,
  enter, enters, first_accepted, flag, later, leave, leaves, lower, open_slot, opens, pop, pops,
  raise, release, releases, retire, retires, start, starts, try_release,
}
use mo_session_server.Session.Invariant.{busy, Reach-alone}
use mo_session_server.Session.Draining.{Drains, done, more, work, Reach-Drains}

-- The receive of the session ends, and the release is posted.
abbrev posted_once : System
posted_once = close (leave first_accepted)

Reach-posted : Reach posted_once
unfolding leave lower
Reach-posted = later (later begin (drains (leaves (omega arith)))) (drains (closes (omega arith)))

Reach-alone_example :
    (posted_once.releasing + posted_once.in_pool + busy posted_once.accepting ≤ 1)
    × (posted_once.released ≤ posted_once.accepted)
    × (posted_once.accepted ≤ posted_once.released + 1)
Reach-alone_example = Reach-alone Reach-posted

one_step : Drains 1 first_accepted (leave first_accepted)
one_step = more (leaves (omega arith)) done

Reach-Drains_example :
    (1 ≤ work first_accepted)
    × (((leave first_accepted).in_pool ≡ 1) ⊎ ((u : System) × Drain (leave first_accepted) u))
Reach-Drains_example = Reach-Drains begin refl one_step

-- Two threads bring the count to 0 one after the other. The second one closes and the session is
-- released, and the next one is accepted before the first one sets `_dFlag`: it is the new session's.
abbrev late : System
late = close (
    start
      (open_slot (count (pop (retire (release (close (leave (enter (leave first_accepted))))))))))

late_flag :
    (late.session.d_flag ≡ true)
    × (late.session.io_count ≡ 1)
    × (late.accepted ≡ 2)
    × (late.accepting ≡ elsewhere)
unfolding close leave enter lower raise release try_release retire pop count open_slot
    clear_release_flag start
late_flag = (refl, refl, refl, refl)

Reach-late : Reach late
unfolding close leave enter lower raise release try_release retire pop count open_slot
    clear_release_flag start
Reach-late =
    later
      (later
        (later
          (later
            (later
              (later
                (later
                  (later
                    (later
                      (later (later begin (drains (leaves (omega arith)))) (enters (omega arith)))
                      (drains (leaves (omega arith))))
                    (drains (closes (omega arith))))
                  (drains (releases (omega arith))))
                (drains (retires (omega arith))))
              (pops (omega arith) refl))
            (counts refl))
          (opens refl))
        (starts refl (omega arith)))
      (drains (closes (omega arith)))

-- A slot whose index is in the pool from the start and that was never accepted
abbrev fresh : System
fresh = record first_accepted {
  session = record { io_count = 0; d_flag = false };
  users = 0;
  in_pool = 1;
  accepted = 0;
}

-- A disconnect of it puts its index into the pool a second time.
fresh_twice : (retire (release (close (leave (flag (enter fresh)))))).in_pool ≡ 2
unfolding close leave enter flag lower raise release try_release retire
fresh_twice = refl
