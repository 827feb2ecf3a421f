-- ===== src/Control/Shutdown/Asleep.antt =====
-- The wait of the control thread, which has no condition: when nobody is left to notify it, Stop waits for
-- a thread that sleeps on.
use mo_session_server.Base.{[], ap, arith, false, refl, sym, ◌+◌, ◌∙◌, ◌≡◌, ◌≢◌}
use mo_session_server.Control.Shutdown.Invariant.{not_both}
use mo_session_server.Control.Shutdown.{
  joins_control, returned, Controls, CtrlAt, Saves, Threads, Step, StopAt, StopSteps, Works,
  asks_free, calls, controls, drop_fight, drops, empties, exits, finds_empty, finishes, groups,
  handles, joins_all, joins_ctrl, leave_db, leaves, lobby_goes, locks, match_left, notifies,
  notifies_stop, stop_phase, save_request, saves, saves_request, scheduler_left, shuts_down, stop,
  stores, stores_db, take_request, takes_request, waiting, workers_left, works,
}

-- The control thread waits, nothing is queued or still to notify, no fight goes on and nobody calls the
-- lobby, while Stop joins the thread. A thread may still hold fights that are out of the map.
abbrev pub Asleep : Threads → Type 0
Asleep s =
    (s.ctrl ≡ waiting)
    × (s.stop_at ≡ joins_control)
    × (s.queue ≡ [])
    × (s.to_notify ≡ 0)
    × (s.playing + s.saving ≡ 0)
    × (s.lobby_open ≡ false)

pub data Runs : Threads → Threads → Type 0 where
  still : {s : Threads} → Runs s s
  more : {s t u : Threads} → Step s t → Runs t u → Runs s u

not_there {ℓ} : {B : Type ℓ} {p q : StopAt} → p ≡ joins_control → p ≡ q → stop_phase q ≢ 4 → B
not_there j e n = absurd (n (ap stop_phase (sym e ∙ j)))

not_so {ℓ} : {B : Type ℓ} {c d : CtrlAt} → c ≡ waiting → c ≡ d → d ≢ waiting → B
not_so w e n = absurd (n (sym e ∙ w))

module _ {s : Threads} (a : Asleep s) where
  Works-Asleep : {t : Threads} → Works s t → Asleep t
  unfolding drop_fight
  Works-Asleep (groups o e) = not_both o a.5
  Works-Asleep (shuts_down empty o p) = not_both o a.5
  Works-Asleep (empties o e) = not_both o a.5
  Works-Asleep (lobby_goes h) = (a.0, a.1, a.2, a.3, a.4, refl)
  Works-Asleep (finishes r h) = absurd (omega (arith, h, a.4))
  Works-Asleep (asks_free h) = absurd (omega (arith, h, a.4))
  Works-Asleep (drops h) = a
  Works-Asleep (notifies h) = absurd (omega (arith, h, a.3))
  Works-Asleep (exits e) = not_there a.1 e (λ h. absurd (omega (arith, h)))

  Controls-Asleep : {t : Threads} → Controls s t → Asleep t
  Controls-Asleep (locks e) = not_so a.0 e (λ f. cc)
  Controls-Asleep (handles kept r rest e q) = not_so a.0 e (λ f. cc)
  Controls-Asleep (finds_empty e q) = not_so a.0 e (λ f. cc)

  StopSteps-Asleep : {t : Threads} → StopSteps s t → Asleep t
  StopSteps-Asleep (calls e) = not_there a.1 e (λ h. absurd (omega (arith, h)))
  StopSteps-Asleep (match_left e h) = not_there a.1 e (λ h. absurd (omega (arith, h)))
  StopSteps-Asleep (stores e n) = not_there a.1 e (λ h. absurd (omega (arith, h)))
  StopSteps-Asleep (notifies_stop e) = not_there a.1 e (λ h. absurd (omega (arith, h)))
  StopSteps-Asleep (joins_ctrl e c) = not_so a.0 c (λ f. cc)
  StopSteps-Asleep (scheduler_left e) = not_there a.1 e (λ h. absurd (omega (arith, h)))
  StopSteps-Asleep (workers_left e w) = not_there a.1 e (λ h. absurd (omega (arith, h)))
  StopSteps-Asleep (stores_db e) = not_there a.1 e (λ h. absurd (omega (arith, h)))
  StopSteps-Asleep (joins_all e z) = not_there a.1 e (λ h. absurd (omega (arith, h)))

  Saves-Asleep : {t : Threads} → Saves s t → Asleep t
  unfolding take_request save_request leave_db
  Saves-Asleep (takes_request r q h e) = a
  Saves-Asleep (saves_request h) = a
  Saves-Asleep (leaves q h e) = a

  Step-Asleep : {t : Threads} → Step s t → Asleep t
  Step-Asleep (works w m) = Works-Asleep m
  Step-Asleep (controls m) = Controls-Asleep m
  Step-Asleep (stop m) = StopSteps-Asleep m
  Step-Asleep (saves m) = Saves-Asleep m

-- Once the control thread sleeps while Stop joins it, with nothing queued, nothing to notify, no fight and
-- no lobby, no steps of any threads wake it: Stop is never past the join, also after the last fight that
-- was still held is free. (A wait that ends without a notification is not among the steps.)
pub Asleep-stays :
    {s t : Threads}
    → Asleep s
    → Runs s t
    → (t.ctrl ≡ waiting) × (t.stop_at ≡ joins_control) × (t.stop_at ≢ returned)
Asleep-stays a still = (a.0, a.1, λ e. not_there a.1 e (λ h. absurd (omega (arith, h))))
Asleep-stays a (more m ms) = Asleep-stays (Step-Asleep a m) ms
