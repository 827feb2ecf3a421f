-- ===== src/Framing/Messages.antt =====
-- The messages of the fight on their way: FightProxy, SendPacket of a LAN server, RecvCompletion.
use mo_session_server.Base.{ap, arith, length, some, ℕ, ◌∙◌, ◌≡◌}
use mo_session_server.Battle.{Message}
use mo_session_server.Packet.{SBuffer, buffer_default}
use mo_session_server.Packet.Stream.{bytes_of, length-bytes_of}
use mo_session_server.Packet.Fighter.{fields, proxy_packet}
use mo_session_server.Packet.Requests.{fields_fit, proxy_packet-bytes}
use mo_session_server.Wire.{lan_server, wire_bytes}
use mo_session_server.Wire.Frames.{lan_frame, wire_bytes-lan_frame}
use mo_session_server.Framing.Delivery.{IsLanMessage}

-- Every message of the fight is written whole into a buffer of the pool; what is sent for it is the
-- LAN header and then its type and its arguments as bytes, and it is short enough for the length in
-- that header.
proxy_packet-wire_bytes :
    (m : Message) (code key rand : ℕ) (b : SBuffer)
    → length b.buffer ≡ b.buffer_size
    → b.buffer_size ≡ buffer_default
    → (c : SBuffer) × (proxy_packet m b ≡ some c)
      × (wire_bytes lan_server code key rand c ≡ lan_frame (bytes_of (fields m)))
      × IsLanMessage (bytes_of (fields m))
proxy_packet-wire_bytes m code key rand b h k =
    let (c, e, i, r, f) = proxy_packet-bytes m b h k in
    (
      c,
      e,
      wire_bytes-lan_frame code key rand c i r ∙ ap lan_frame f,
      (
        omega (arith, length-bytes_of (fields m)),
        omega (arith, length-bytes_of (fields m), fields_fit m),
      ),
    )
