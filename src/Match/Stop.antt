-- ===== src/Match/Stop.antt =====
-- The end of the lobby, from MatchContents::OnShutDown on.
use mo_session_server.Base.{
  List, [], arith, length, refl, subst, sym, true, ℕ, ◌++◌, ◌+◌, ◌∷◌, ◌≡◌, ◌≤◌,
}
use mo_session_server.Base.Table.{erase}
use mo_session_server.Match.{
  Lobby, disconnect_all_player, disconnects, on_leave, on_shut_down, request_deregister,
}
use mo_session_server.Match.Waiting.{Event, enters, leaves, shuts_down, step, run}
use mo_session_server.Battle.{
  Effect, Control, fight_alloc, fight_free, match_deregister, enqueue_control, disconnect, send,
  save_result, move_session, Roster,
}
use mo_session_server.Match.Groups.{on_enter_stopped, length-erase}

abbrev pub is_alloc : Control → ℕ
is_alloc (fight_alloc g) = 1
is_alloc (fight_free n) = 0
is_alloc match_deregister = 0

-- How many matches a list of effects asks for
abbrev pub allocs : List Effect → ℕ
allocs [] = 0
allocs (enqueue_control c ∷ es) = is_alloc c + allocs es
allocs (disconnect s ∷ es) = allocs es
allocs (send l g ∷ es) = allocs es
allocs (save_result r ∷ es) = allocs es
allocs (move_session s n ∷ es) = allocs es

allocs-append : (xs ys : List Effect) → allocs (xs ++ ys) ≡ allocs xs + allocs ys
allocs-append [] ys = omega arith
allocs-append (enqueue_control c ∷ xs) ys = omega (arith, allocs-append xs ys)
allocs-append (disconnect s ∷ xs) ys = allocs-append xs ys
allocs-append (send l g ∷ xs) ys = allocs-append xs ys
allocs-append (save_result r ∷ xs) ys = allocs-append xs ys
allocs-append (move_session s n ∷ xs) ys = allocs-append xs ys

disconnects-allocs : (m : Roster) → allocs (disconnects m) ≡ 0
unfolding disconnects
disconnects-allocs [] = refl
disconnects-allocs ((s, p) ∷ m) = disconnects-allocs m

request-allocs : (l : Lobby) → allocs (request_deregister l) ≡ 0
unfolding request_deregister
request-allocs l = ground arith

step_stopped :
    (l : Lobby) (e : Event)
    → l.stop_requested ≡ true
    → (allocs (step l e).1 ≡ 0)
      × ((step l e).0.stop_requested ≡ true)
      × (length (step l e).0.waiting ≤ length l.waiting)
unfolding step on_leave on_shut_down disconnect_all_player
step_stopped l (enters s) h =
    subst
      (λ r.
        (allocs r.1 ≡ 0) × (r.0.stop_requested ≡ true) × (length r.0.waiting ≤ length l.waiting))
      (sym (on_enter_stopped l s h)) (refl, h, omega arith)
step_stopped l (leaves s) h =
    (request-allocs (record l { waiting = erase s l.waiting }), h, length-erase s l.waiting)
step_stopped l shuts_down h = (
  omega (
    arith,
    allocs-append (disconnects l.waiting) (request_deregister (record l { stop_requested = true })),
    disconnects-allocs l.waiting,
    request-allocs (record l { stop_requested = true }),
  ),
  refl,
  omega arith,
)

-- Once the lobby is told to stop, no history of it asks for a match again, it stays stopped, and it
-- never holds more sessions than before.
pub stopped_run :
    (l : Lobby) (es : List Event)
    → l.stop_requested ≡ true
    → (allocs (run l es).1 ≡ 0)
      × ((run l es).0.stop_requested ≡ true)
      × (length (run l es).0.waiting ≤ length l.waiting)
unfolding run
stopped_run l [] h = (refl, h, omega arith)
stopped_run l (e ∷ es) h =
    let (a, b, c) = step_stopped l e h in
    let (a', b', c') = stopped_run (step l e).0 es b in
    (
      omega (arith, allocs-append (step l e).1 (run (step l e).0 es).1, a, a'),
      b',
      omega (arith, c, c'),
    )
