-- ===== src/Packet/Requests.antt =====
-- Requests and messages as bytes: what goes into a packet is what comes out of it.
use mo_session_server.Base.{
  List, [], ap, arith, length, refl, some, ℕ, ◌++◌, ◌<◌, ◌∷◌, ◌≡◌, ◌≤◌, ◌∙◌,
}
use mo_session_server.Packet.{SBuffer, buffer_default, clear, move_read_pos, payload}
use mo_session_server.Battle.{
  Message, sc_attack1, sc_attack2, sc_attack3, sc_create_me, sc_create_other, sc_damage, sc_delete,
  sc_move_start, sc_move_stop, Roster,
}
use mo_session_server.Battle.Actions.{handle}
use mo_session_server.Packet.Fighter.{fields, proxy_packet, request_of, read_request, proc_message}
use mo_session_server.Packet.Memory.{Inv, get-payload, get-short, length-payload}
use mo_session_server.Packet.Stream.{
  IsFields, bytes_of, size_of, message, write_all-message, message-read,
}

pub fields_fit : (m : Message) → size_of (fields m) ≤ 11
fields_fit (sc_create_me id dir x y hp) = omega arith
fields_fit (sc_create_other id dir x y hp) = omega arith
fields_fit (sc_delete id) = omega arith
fields_fit (sc_move_start id dir x y) = omega arith
fields_fit (sc_move_stop id dir x y) = omega arith
fields_fit (sc_attack1 id dir x y) = omega arith
fields_fit (sc_attack2 id dir x y) = omega arith
fields_fit (sc_attack3 id dir x y) = omega arith
fields_fit (sc_damage atk tgt hp) = omega arith

-- A proxy writes all fields of its message, after the five bytes of a header.
pub proxy_packet-bytes :
    (m : Message) (b : SBuffer)
    → length b.buffer ≡ b.buffer_size
    → b.buffer_size ≡ buffer_default
    → (c : SBuffer) × (proxy_packet m b ≡ some c)
      × Inv c
      × (c.read ≡ 5)
      × (payload c ≡ bytes_of (fields m))
unfolding proxy_packet clear
proxy_packet-bytes m b h k =
    let i : Inv (clear b) = record { holds = h; ends = omega arith; inside = omega arith } in
    let (e, j, f) = write_all-message (fields m) (clear b) i (omega (arith, k, fields_fit m)) in
    (message (fields m) (clear b), e, j, message-read (fields m) (clear b), f)

-- A request whose fields follow one another in the data is handled with the values of these fields,
-- whatever comes after them and whatever the variable of the type holds before.
pub proc_message-request :
    (stale type dir x y : ℕ) (rest : List ℕ) (m : Roster) (s now : ℕ) (b : SBuffer)
    → Inv b
    → IsFields ((1, type) ∷ (1, dir) ∷ (2, x) ∷ (2, y) ∷ [])
    → payload b ≡ bytes_of ((1, type) ∷ (1, dir) ∷ (2, x) ∷ (2, y) ∷ []) ++ rest
    → proc_message stale m s now b ≡ handle m s now (request_of type dir x y)
unfolding proc_message read_request
proc_message-request stale type dir x y rest m s now b i (h, (k, (l, (n, _)))) e =
    let (f1, i1, e1) =
      get-payload 1 stale type (bytes_of ((1, dir) ∷ (2, x) ∷ (2, y) ∷ []) ++ rest) b i h e in
    let (f2, i2, e2) =
      get-payload 1 0 dir (bytes_of ((2, x) ∷ (2, y) ∷ []) ++ rest) (move_read_pos 1 b) i1 k e1 in
    let (f3, i3, e3) =
      get-payload 2 0 x (bytes_of ((2, y) ∷ []) ++ rest) (move_read_pos 1 (move_read_pos 1 b)) i2 l
        e2 in
    let (f4, i4, e4) =
      get-payload 2 0 y rest (move_read_pos 2 (move_read_pos 1 (move_read_pos 1 b))) i3 n e3 in
    rw (f1, f2, f3, f4) refl

-- A packet that ends after its type is handled as a request at direction 0, x 0 and y 0, the values
-- of the variables before they are read.
pub proc_message-short :
    (stale type : ℕ) (m : Roster) (s now : ℕ) (b : SBuffer)
    → Inv b
    → type < 256
    → payload b ≡ type ∷ []
    → proc_message stale m s now b ≡ handle m s now (request_of type 0 0 0)
unfolding proc_message read_request
proc_message-short stale type m s now b i h e =
    let c = move_read_pos 1 b in
    let (f1, i1, e1) =
      get-payload 1 stale type [] b i (omega arith) (e ∙ ap (◌∷ []) (omega arith)) in
    let z : c.data_size ≡ 0 = omega (arith, length-payload c i1, ap length e1) in
    rw
      (
        f1,
        get-short 1 0 c (omega arith),
        get-short 2 0 c (omega arith),
        get-short 2 0 c (omega arith),
      )
      refl
