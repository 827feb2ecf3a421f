-- ===== src/Framing/Examples.antt =====
-- A ring of 16 bytes that gets two messages in two receives, and the theorems about it there.
use mo_session_server.Base.{
  All, List, [], arith, map, refl, subst, sym, ℕ, ◌++◌, ◌<◌, ◌∷◌, ◌≡◌, ◌≤◌,
}
use mo_session_server.Framing.{
  contents, disconnect, free, judge, open_frame, recv_completion, recv_loop, take_out, unusual,
}
use mo_session_server.Ring.{Ring, dequeue, enqueue, get_free_size, get_used_size, peek, written}
use mo_session_server.Ring.Fifo.{Inv}
use mo_session_server.Ring.View.{view}
use mo_session_server.Wire.{lan_server, net_server}
use mo_session_server.Wire.Frames.{lan_frame, net_frame}
use mo_session_server.Framing.Refinement.{Agrees, divide, recv_completion-divide}
use mo_session_server.Framing.Streams.{receives, flatten, Fits}
use mo_session_server.Framing.Delivery.{delivered, receives-lan_frames}
use mo_session_server.Framing.Errors.{IsOrderly, recv_completion-IsOrderly}

abbrev idle : Ring ℕ
idle = record {
  buffer = 0 ∷ 0 ∷ 0 ∷ 0 ∷ 0 ∷ 0 ∷ 0 ∷ 0 ∷ 0 ∷ 0 ∷ 0 ∷ 0 ∷ 0 ∷ 0 ∷ 0 ∷ 0 ∷ [];
  front = 12;
  rear = 12;
  size = 16;
}

idle-Inv : Inv idle
idle-Inv = record { holds = refl; front_in = omega arith; rear_in = omega arith }

idle_empty : view idle ≡ []
unfolding view peek get_used_size
idle_empty = refl

-- Two messages, cut in the header of the second
abbrev sent : List (List ℕ)
sent = (12 ∷ 4 ∷ []) ∷ (20 ∷ []) ∷ []

abbrev chunks : List (List ℕ)
chunks = (137 ∷ 1 ∷ 12 ∷ 4 ∷ 137 ∷ []) ∷ (0 ∷ 20 ∷ []) ∷ []

chunks-Fits : Fits lan_server contents 0 0 chunks idle
unfolding recv_completion recv_loop judge open_frame take_out enqueue written dequeue peek
    get_used_size get_free_size
chunks-Fits = (omega arith, (omega arith, tt))

cut_stream : flatten chunks ≡ flatten (map lan_frame sent)
unfolding lan_frame
cut_stream = refl

receives-lan_frames_example :
    ((receives lan_server contents 0 0 chunks idle).1 ≡ delivered sent)
    × (view (receives lan_server contents 0 0 chunks idle).0 ≡ [])
receives-lan_frames_example =
    receives-lan_frames 0 0 sent chunks idle
      ((omega arith, omega arith), ((omega arith, omega arith), tt)) idle-Inv idle_empty chunks-Fits
      cut_stream

abbrev messages : List (ℕ × List ℕ)
messages = (1000, 12 ∷ 255 ∷ []) ∷ []

abbrev net_chunks : List (List ℕ)
net_chunks = net_frame 119 50 1000 (12 ∷ 255 ∷ []) ∷ []

idle_room : 5 ≤ get_free_size idle
unfolding get_free_size get_used_size
idle_room = omega arith

recv_completion-divide_example :
    Agrees
      (recv_completion lan_server contents 0 0 (137 ∷ 1 ∷ 12 ∷ 4 ∷ 137 ∷ []) idle)
      (divide lan_server contents 0 0 (view idle ++ (137 ∷ 1 ∷ 12 ∷ 4 ∷ 137 ∷ [])))
recv_completion-divide_example =
    recv_completion-divide lan_server contents 0 0 (137 ∷ 1 ∷ 12 ∷ 4 ∷ 137 ∷ []) idle idle-Inv
      idle_room

-- Bytes with a wrong code
abbrev noise : List ℕ
noise = 1 ∷ 2 ∷ 0 ∷ 4 ∷ 5 ∷ []

noise_refused : (recv_completion net_server free 119 50 noise idle).1 ≡ unusual ∷ disconnect ∷ []
unfolding recv_completion recv_loop judge open_frame take_out enqueue written dequeue peek
    get_used_size get_free_size
noise_refused = refl

recv_completion-IsOrderly_example :
    IsOrderly net_server free (recv_completion net_server free 119 50 noise idle).1
recv_completion-IsOrderly_example =
    recv_completion-IsOrderly net_server free 119 50 noise idle idle-Inv idle_room (
      subst (λ v. All (λ b. b < 256) (v ++ noise)) (sym idle_empty)
        (omega arith, (omega arith, (omega arith, (omega arith, (omega arith, tt))))))
