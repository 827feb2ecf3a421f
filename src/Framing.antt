-- ===== src/Framing.antt =====
-- RecvCompletion of Libraries/ContentLibB/ContentsServer.cpp: the messages in the receive buffer of a
-- session. The source has a loop for each kind of server and each place of the session; they share
-- the loop here, and differ in what they make of a header and of a message.
pub mod Headers
pub mod Refinement
pub mod Chunks
pub mod Stopped
pub mod Streams
pub mod Delivery
pub mod Errors
pub mod LastByte
pub mod Messages
mod Examples
use mo_session_server.Base.{
  Bool, List, [], drop, false, get_or, if◌then◌else◌, leb, length, ltb, not, suc, true, zero, ℕ,
  ◌++◌, ◌+◌, ◌==◌, ◌∷◌,
}
use mo_session_server.Ring.{Ring, get_used_size, peek, dequeue, move_front, enqueue}
use mo_session_server.Wire.{ServerType, lan_server, net_server, header_size, decode, len_of}
use mo_session_server.Packet.{buffer_default}

-- `_contentsNum`: 0, the number of a contents, one that is not in the map any more, and -1
pub data Place : Type 0 where
  free contents gone moving : Place

-- What the loop calls: `ProcMessage` with the data of a message, `OnUnusual`, `Disconnect`. `overrun`
-- stands for a write behind the end of the message buffer, after which nothing is known.
pub data Event : Type 0 where
  deliver : List ℕ → Event
  unusual disconnect overrun : Event

-- A header: wait for the rest, stop with these calls, or take this many bytes
pub data Verdict : Type 0 where
  incomplete : Verdict
  refused : List Event → Verdict
  whole : ℕ → Verdict

abbrev enough : ℕ → ℕ → Verdict
enough used size = if ltb used size then incomplete else whole size

abbrev check_code : ℕ → ℕ → List ℕ → Verdict
check_code code used h =
    if not (get_or h 0 0 == code)
    then refused (unusual ∷ disconnect ∷ [])
    else enough used (len_of h + 5)

abbrev check_len : ℕ → ℕ → List ℕ → Verdict
check_len code used h =
    if leb buffer_default (len_of h + 5) then refused (disconnect ∷ []) else check_code code used h

-- The tests on the header; a LAN server in a contents alone counts the byte that `_len` leaves out.
unfoldable pub judge : ServerType → Place → ℕ → ℕ → List ℕ → Verdict
judge lan_server free code used h = enough used (get_or h 1 0 + 2)
judge lan_server contents code used h = enough used (get_or h 1 0 + 1 + 2)
judge lan_server moving code used h = enough used (get_or h 1 0 + 2)
judge net_server free code used h = check_len code used h
judge net_server contents code used h = check_code code used h
judge net_server moving code used h = check_len code used h
judge _ gone code used h = incomplete

-- `Decode` and what follows; the memory of the message buffer is the bytes that Dequeue put there.
abbrev decoded : ℕ → List ℕ → List Event × Bool
decoded fixed_key frame =
    let (ok, out) = decode fixed_key frame in
    if ok then (deliver (drop 5 out) ∷ [], true) else (unusual ∷ disconnect ∷ [], false)

-- What is done with the bytes of a message, and whether the loop goes on. `MoveFront` drops them while
-- the session moves. `ClearAtLServer` leaves three bytes before the message.
unfoldable pub open_frame : ServerType → Place → ℕ → List ℕ → List Event × Bool
open_frame lan_server moving fixed_key frame = ([], true)
open_frame net_server moving fixed_key frame = ([], true)
open_frame _ gone fixed_key frame = ([], false)
open_frame lan_server _ fixed_key frame =
    if ltb buffer_default (3 + length frame)
    then (overrun ∷ [], false)
    else (deliver (drop 2 frame) ∷ [], true)
open_frame net_server _ fixed_key frame =
    if ltb buffer_default (length frame) then (overrun ∷ [], false) else decoded fixed_key frame

-- `MoveFront` or `Dequeue`
unfoldable pub take_out : Place → ℕ → Ring ℕ → List ℕ × Ring ℕ
take_out moving n q = ([], (move_front n q).1)
take_out _ n q = ((dequeue n q).0, (dequeue n q).2)

-- The loop, for at most this many messages; `code` and `fixed_key` are the server's.
unfoldable pub recv_loop : ℕ → ServerType → Place → ℕ → ℕ → Ring ℕ → Ring ℕ × List Event
recv_loop zero t p code fixed_key q = (q, [])
recv_loop (suc n) t p code fixed_key q =
    if ltb (get_used_size q) (header_size t)
    then (q, [])
    else elim (judge t p code (get_used_size q) (peek (header_size t) q)) [
      | incomplete ↦ (q, [])
      | refused es ↦ (q, es)
      | whole k ↦
          let (frame, rest) = take_out p k q in
          let (es, goes_on) = open_frame t p fixed_key frame in
          let (last, more) = recv_loop n t p code fixed_key rest in
          if goes_on then (last, es ++ more) else (rest, es)
    ]

-- `RecvCompletion` when these bytes came in: WSARecv wrote them behind what waits, and MoveRear counts
-- them. A message has a byte at least, so there are no more messages than bytes.
unfoldable pub recv_completion : ServerType → Place → ℕ → ℕ → List ℕ → Ring ℕ → Ring ℕ × List Event
recv_completion t p code fixed_key bytes q =
    let q1 = (enqueue bytes q).1 in recv_loop (suc (get_used_size q1)) t p code fixed_key q1
