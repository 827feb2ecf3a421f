-- ===== src/Sending/Examples.antt =====
-- Two messages that are sent in one box.
use mo_session_server.Base.{[], arith, inr, refl, ◌∷◌, ◌≡◌, ◌≤◌, ◌⊎◌}
use mo_session_server.Sending.{
  Advance, Reach, Sender, advances, begin, fill, fills, idle_sender, post, posts, queues, send_box,
  send_packet, sends, take_flag, takes_flag, test_queue, tests,
}
use mo_session_server.Sending.Progress.{Advances, done, more, work, Reach-Advances}

-- A thread has put two messages into the queue and posted once; another one has taken the flag.
abbrev under_way : Sender
under_way = fill (take_flag (test_queue (post (send_packet 8 (send_packet 7 idle_sender)))))

Reach-under_way : Reach under_way
unfolding fill take_flag test_queue post send_packet
Reach-under_way =
    advances
      (advances
        (advances (advances (queues 8 (queues 7 begin)) (posts (omega arith)))
          (tests (omega arith)))
        (takes_flag (omega arith)))
      (fills refl (omega arith) (omega arith))

under_way_state :
    (under_way.box ≡ 7 ∷ [])
    × (under_way.queue ≡ 8 ∷ [])
    × ((send_box (fill under_way)).sent ≡ 7 ∷ 8 ∷ [])
unfolding fill take_flag test_queue post send_packet send_box
under_way_state = (refl, refl, refl)

two_steps : Advances 2 under_way (send_box (fill under_way))
unfolding fill take_flag test_queue post send_packet send_box
two_steps =
    more (fills refl (omega arith) (omega arith)) (more (sends refl (inr (omega arith))) done)

Reach-Advances_example :
    (2 ≤ work under_way)
    × (((send_box (fill under_way)).sent ≡ (send_box (fill under_way)).queued)
        ⊎ ((u : Sender) × Advance (send_box (fill under_way)) u))
Reach-Advances_example = Reach-Advances Reach-under_way two_steps
