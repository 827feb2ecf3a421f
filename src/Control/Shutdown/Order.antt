-- ===== src/Control/Shutdown/Order.antt =====
-- The states of the server come in their order.
use mo_session_server.Base.{
  Bool-cases, ap, arith, false, inl, inr, refl, sym, true, ℕ, ◌+◌, ◌∙◌, ◌≡◌, ◌≢◌, ◌≤◌,
}
use mo_session_server.Control.Shutdown.{
  Controls, Reach, Saves, Threads, Step, StopSteps, Works, allocates, asks_free, awake, begin,
  call_stop, calls, clear_ctrl_run, clear_db_run, control_joined, controls, db_joined, deregisters,
  drop_fight, drops, empties, ended, enqueue_request, enqueue_fight_free, exits, finds_empty,
  finish_fight, finishes, frees, groups, handle_request, handles, in_use, joins_all, joins_ctrl,
  later, leave_db, leaves, lobby_goes, locks, match_left, notifies, notifies_stop, notify,
  notify_stop, shut_down_lobby, stop_phase, queue_empty, rank, save_request, saves, saves_request,
  scheduler_left, shuts_down, stop, stores, stores_db, take_request, takes_request, unlocked,
  waiting, wake, wakes, workers_left, works,
}
use mo_session_server.Control.{should_stop_control_thread}
use mo_session_server.Control.Shutdown.Queue.{deregs}
use mo_session_server.Control.Shutdown.Invariant.{Inv, not_ended}
use mo_session_server.Control.Shutdown.Saved.{Reach-Inv, should_stop_facts}

-- The control thread returns only after the lobby is gone, and the lobby is stopped only by Stop.
abbrev Ranked : Threads → Type 0
Ranked s =
    (s.ctrl ≢ ended → rank s.state ≤ 3)
    × (stop_phase s.stop_at ≡ 0 → rank s.state ≤ 2)
    × (s.stop_requested ≡ true → 1 ≤ stop_phase s.stop_at)
    × (s.shut_down_posted ≡ true → 1 ≤ stop_phase s.stop_at)
    × (stop_phase s.stop_at ≤ 8 → rank s.state ≤ 4)

-- The state and the stop_phase of Stop only go forward.
abbrev pub Forward : Threads → Threads → Type 0
Forward s t =
    (rank s.state ≤ rank t.state)
    × (stop_phase s.stop_at ≤ stop_phase t.stop_at)
    × (stop_phase t.stop_at ≤ stop_phase s.stop_at + 1)

abbrev Next : Threads → Threads → Type 0
Next s t = Ranked t × Forward s t

module _ {connected : ℕ} {s : Threads} (i : Inv connected s) (k : Ranked s) where
  same : Forward s s
  same = omega arith

  Works-Next : {t : Threads} → Works s t → Next s t
  unfolding enqueue_request notify shut_down_lobby finish_fight enqueue_fight_free drop_fight
  Works-Next (groups o e) = (k, same)
  Works-Next (shuts_down true o p) = ((k.0, k.1, λ e. k.3 p, λ e. k.3 p, k.4), same)
  Works-Next (shuts_down false o p) = ((k.0, k.1, λ e. k.3 p, λ e. k.3 p, k.4), same)
  Works-Next (empties o e) = (k, same)
  Works-Next (lobby_goes h) = (k, same)
  Works-Next (finishes r h) = (k, same)
  Works-Next (asks_free h) = (k, same)
  Works-Next (drops h) = (k, same)
  Works-Next (notifies h) = ((λ n. k.0 (λ e. n (ap wake e)), k.1, k.2, k.3, k.4), same)
  Works-Next (exits e) = (k, same)

  queue_empty-Next : s.ctrl ≡ awake → Next s (queue_empty s)
  unfolding queue_empty
  queue_empty-Next a =
      elim (Bool-cases (should_stop_control_thread (in_use s) s.ctrl_run s.state)) [
        | inl e ↦
            let m : rank s.state ≡ 3 =
              ap rank (should_stop_facts (in_use s) s.ctrl_run s.state e).1 in
            rw e (
              (
                (
                  λ n. absurd (n refl),
                  λ p. absurd (omega (arith, k.1 p)),
                  k.2,
                  k.3,
                  λ p. omega arith,
                ),
                omega arith,
              ))
        | inr e ↦ rw e ((λ n. k.0 (λ f. not_ended a f), k.1, k.2, k.3, k.4), same)
      ]

  Controls-Next : {t : Threads} → Controls s t → Next s t
  unfolding handle_request
  Controls-Next (locks u) = (
    (λ n. k.0 (λ f. absurd (let z : unlocked ≡ ended = sym u ∙ f in cc)), k.1, k.2, k.3, k.4),
    same,
  )
  Controls-Next (handles kept allocates rest a e) = (k, same)
  Controls-Next (handles kept frees rest a e) = (k, same)
  Controls-Next (handles kept deregisters rest a e) =
      let asked : s.stop_requested ≡ true = i.shape.asked (omega (arith, ap deregs e)) in
      let low : rank s.state ≤ 3 = k.0 (λ f. not_ended a f) in
      (
        (λ n. omega arith, λ p. absurd (omega (arith, k.2 asked, p)), k.2, k.3, λ p. omega arith),
        omega arith,
      )
  Controls-Next (finds_empty a q) = queue_empty-Next a

  StopSteps-Next : {t : Threads} → StopSteps s t → Next s t
  unfolding call_stop clear_ctrl_run notify_stop control_joined clear_db_run db_joined
  StopSteps-Next (calls e) = (
    (λ n. omega arith, λ p. omega arith, λ f. omega arith, λ f. omega arith, λ p. omega arith),
    omega (arith, ap stop_phase e, k.1 (ap stop_phase e)),
  )
  StopSteps-Next (match_left e h) =
      let p : stop_phase s.stop_at ≡ 1 = ap stop_phase e in
      (
        (
          k.0,
          λ h. absurd (omega arith),
          λ f. omega arith,
          λ f. omega arith,
          λ h. omega (arith, k.4 (omega (arith, p))),
        ),
        omega (arith, p),
      )
  StopSteps-Next (stores e n) =
      let p : stop_phase s.stop_at ≡ 2 = ap stop_phase e in
      (
        (
          k.0,
          λ h. absurd (omega arith),
          λ f. omega arith,
          λ f. omega arith,
          λ h. omega (arith, k.4 (omega (arith, p))),
        ),
        omega (arith, p),
      )
  StopSteps-Next (notifies_stop e) =
      let p : stop_phase s.stop_at ≡ 3 = ap stop_phase e in
      (
        (
          λ n. k.0 (λ f. n (ap wake f)),
          λ h. absurd (omega arith),
          λ f. omega arith,
          λ f. omega arith,
          λ h. omega (arith, k.4 (omega (arith, p))),
        ),
        omega (arith, p),
      )
  StopSteps-Next (joins_ctrl e c) =
      let p : stop_phase s.stop_at ≡ 4 = ap stop_phase e in
      (
        (
          λ n. absurd (n c),
          λ h. absurd (omega arith),
          λ f. omega arith,
          λ f. omega arith,
          λ h. omega arith,
        ),
        omega (arith, p, k.4 (omega (arith, p))),
      )
  StopSteps-Next (scheduler_left e) =
      let p : stop_phase s.stop_at ≡ 5 = ap stop_phase e in
      (
        (
          k.0,
          λ h. absurd (omega arith),
          λ f. omega arith,
          λ f. omega arith,
          λ h. omega (arith, k.4 (omega (arith, p))),
        ),
        omega (arith, p),
      )
  StopSteps-Next (workers_left e w) =
      let p : stop_phase s.stop_at ≡ 6 = ap stop_phase e in
      (
        (
          k.0,
          λ h. absurd (omega arith),
          λ f. omega arith,
          λ f. omega arith,
          λ h. omega (arith, k.4 (omega (arith, p))),
        ),
        omega (arith, p),
      )
  StopSteps-Next (stores_db e) =
      let p : stop_phase s.stop_at ≡ 7 = ap stop_phase e in
      (
        (
          k.0,
          λ h. absurd (omega arith),
          λ f. omega arith,
          λ f. omega arith,
          λ h. omega (arith, k.4 (omega (arith, p))),
        ),
        omega (arith, p),
      )
  StopSteps-Next (joins_all e z) =
      let p : stop_phase s.stop_at ≡ 8 = ap stop_phase e in
      (
        (
          λ n. absurd (n (i.stages.control_over (omega (arith, p)))),
          λ h. absurd (omega arith),
          λ f. omega arith,
          λ f. omega arith,
          λ h. absurd (omega arith),
        ),
        omega (arith, p, k.4 (omega (arith, p))),
      )

  Saves-Next : {t : Threads} → Saves s t → Next s t
  unfolding take_request save_request leave_db
  Saves-Next (takes_request r q h e) = (k, same)
  Saves-Next (saves_request h) = (k, same)
  Saves-Next (leaves q h e) = (k, same)

  Step-Next : {t : Threads} → Step s t → Next s t
  Step-Next (works w m) = Works-Next m
  Step-Next (controls m) = Controls-Next m
  Step-Next (stop m) = StopSteps-Next m
  Step-Next (saves m) = Saves-Next m

Reach-Ranked : {workers connected : ℕ} {s : Threads} → Reach workers connected s → Ranked s
Reach-Ranked begin = (
  λ n. omega arith,
  λ p. omega arith,
  λ e. absurd (let z : false ≡ true = e in cc),
  λ e. absurd (let z : false ≡ true = e in cc),
  λ p. omega arith,
)
Reach-Ranked (later r m) = (Step-Next (Reach-Inv r) (Reach-Ranked r) m).0
Reach-Ranked (wakes r e) =
    let k = Reach-Ranked r in
    (λ n. k.0 (λ f. absurd (let z : waiting ≡ ended = sym e ∙ f in cc)), k.1, k.2, k.3, k.4)

-- Whatever thread takes a step: the state of the server never falls back in the order of its numbers,
-- and Stop goes on to the next of its places or stays where it is.
pub Reach-Forward :
    {workers connected : ℕ} {s t : Threads} → Reach workers connected s → Step s t → Forward s t
Reach-Forward r m = (Step-Next (Reach-Inv r) (Reach-Ranked r) m).1
