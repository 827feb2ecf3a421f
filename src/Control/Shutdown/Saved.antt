-- ===== src/Control/Shutdown/Saved.antt =====
-- What Stop has seen to when it returns, and the order of the states of the server.
use mo_session_server.Base.{
  Bool, Bool-cases, [], false, inl, inr, refl, subst, sym, true, ℕ, ◌<◌, ◌∙◌, ◌∷◌, ◌≡◌, arith,
}
use mo_session_server.Control.Shutdown.{
  Controls, Reach, Saves, Threads, Step, StopSteps, Works, allocates, asks_free, awake, begin,
  calls, controls, deregisters, drops, empties, ended, exits, finds_empty, finishes, frees, groups,
  handles, in_use, joins_all, joins_ctrl, later, leaves, lobby_goes, locks, match_left, notifies,
  notifies_stop, shut_down_lobby, queue_empty, saves, saves_request, scheduler_left, shuts_down,
  stop, stores, stores_db, take_request, takes_request, unlocked, waiting, wakes, workers_left,
  works,
}
use mo_session_server.Control.Shutdown.Invariant.{Inv, Inv-start, not_ended}
use mo_session_server.Control.Shutdown.Working.{
  allocates-Inv, deregisters-Inv, stop_requested-Inv, finish_fight-Inv, enqueue_fight_free-Inv,
  drop_fight-Inv, notify-Inv, exit-Inv, lobby_goes-Inv,
}
use mo_session_server.Control.Shutdown.Saving.{take_request-Inv, save_request-Inv, leave_db-Inv}
use mo_session_server.Control.Shutdown.Handling.{
  ctrl-Inv, handle_allocates-Inv, handle_frees-Inv, handle_deregisters-Inv, return-Inv,
}
use mo_session_server.Control.Shutdown.Stopping.{
  call_stop-Inv, match_left-Inv, clear_ctrl_run-Inv, notify_stop-Inv, control_joined-Inv,
  scheduler_left-Inv, workers_left-Inv, clear_db_run-Inv, db_joined-Inv,
}
use mo_session_server.Control.{
  DbQueue, ServerState, match_deregistered, should_stop_control_thread, wait_and_pop_db_request,
  takes, stops,
}
use mo_session_server.Battle.{BattleResult}

-- What `ShouldStopControlThread` has found
pub should_stop_facts :
    (n : ℕ) (run : Bool) (m : ServerState)
    → should_stop_control_thread n run m ≡ true
    → (n ≡ 0) × (m ≡ match_deregistered)
unfolding should_stop_control_thread
should_stop_facts n run m e = ground (arith, e)

takes_facts :
    (d q : DbQueue) (r : BattleResult)
    → wait_and_pop_db_request d ≡ (takes r, q)
    → (d.requests ≡ r ∷ q.requests) × (q ≡ record d { requests = q.requests })
unfolding wait_and_pop_db_request
takes_facts d q r e = ground (arith, e)

stops_facts :
    (d q : DbQueue)
    → wait_and_pop_db_request d ≡ (stops, q)
    → (d.requests ≡ []) × (d.running ≡ false)
unfolding wait_and_pop_db_request
stops_facts d q e = ground (arith, e)

module _ {connected : ℕ} {s : Threads} (i : Inv connected s) where
  Works-Inv : {t : Threads} → 0 < s.worker_threads → Works s t → Inv connected t
  unfolding shut_down_lobby
  Works-Inv w (groups o e) = allocates-Inv i e
  Works-Inv w (shuts_down true o p) = deregisters-Inv (stop_requested-Inv i) refl
  Works-Inv w (shuts_down false o p) = stop_requested-Inv i
  Works-Inv w (empties o e) = deregisters-Inv i e
  Works-Inv w (lobby_goes h) = lobby_goes-Inv i
  Works-Inv w (finishes r h) = finish_fight-Inv i r h w
  Works-Inv w (asks_free h) = enqueue_fight_free-Inv i h
  Works-Inv w (drops h) = drop_fight-Inv i
  Works-Inv w (notifies h) = notify-Inv i
  Works-Inv w (exits e) = exit-Inv i

  queue_empty-Inv : s.ctrl ≡ awake → s.queue ≡ [] → Inv connected (queue_empty s)
  unfolding queue_empty
  queue_empty-Inv a q =
      elim (Bool-cases (should_stop_control_thread (in_use s) s.ctrl_run s.state)) [
        | inl e ↦
            let f = should_stop_facts (in_use s) s.ctrl_run s.state e in
            rw e (return-Inv i q f.0 f.1)
        | inr e ↦ rw e (ctrl-Inv i unlocked (λ f. cc) (λ f. not_ended a f))
      ]

  Controls-Inv : {t : Threads} → Controls s t → Inv connected t
  Controls-Inv (locks u) = ctrl-Inv i waiting (λ f. cc) (λ f. cc)
  Controls-Inv (handles kept allocates rest a e) = handle_allocates-Inv i kept rest a e
  Controls-Inv (handles kept frees rest a e) = handle_frees-Inv i kept rest a e
  Controls-Inv (handles kept deregisters rest a e) = handle_deregisters-Inv i kept rest a e
  Controls-Inv (finds_empty a q) = queue_empty-Inv a q

  StopSteps-Inv : {t : Threads} → StopSteps s t → Inv connected t
  StopSteps-Inv (calls e) = call_stop-Inv i e
  StopSteps-Inv (match_left e h) = match_left-Inv i e
  StopSteps-Inv (stores e n) = clear_ctrl_run-Inv i e
  StopSteps-Inv (notifies_stop e) = notify_stop-Inv i e
  StopSteps-Inv (joins_ctrl e c) = control_joined-Inv i e c
  StopSteps-Inv (scheduler_left e) = scheduler_left-Inv i e
  StopSteps-Inv (workers_left e w) = workers_left-Inv i e w
  StopSteps-Inv (stores_db e) = clear_db_run-Inv i e
  StopSteps-Inv (joins_all e z) = db_joined-Inv i e z

  Saves-Inv : {t : Threads} → Saves s t → Inv connected t
  Saves-Inv (takes_request r q h e) =
      let (f, g) = takes_facts s.db q r e in
      subst (λ d. Inv connected (take_request d s)) (sym g) (take_request-Inv i r q.requests h f)
  Saves-Inv (saves_request h) = save_request-Inv i h
  Saves-Inv (leaves q h e) = let (f, g) = stops_facts s.db q e in leave_db-Inv i h f g

  Step-Inv : {t : Threads} → Step s t → Inv connected t
  Step-Inv (works w m) = Works-Inv w m
  Step-Inv (controls m) = Controls-Inv m
  Step-Inv (stop m) = StopSteps-Inv m
  Step-Inv (saves m) = Saves-Inv m

pub Reach-Inv : {workers connected : ℕ} {s : Threads} → Reach workers connected s → Inv connected s
Reach-Inv {workers} {connected} begin = Inv-start workers connected
Reach-Inv (later r m) = Step-Inv (Reach-Inv r) m
Reach-Inv (wakes r e) =
    ctrl-Inv (Reach-Inv r) awake (λ f. cc) (λ f. absurd (let z : waiting ≡ ended = sym e ∙ f in cc))
