-- ===== src/Wire/Examples.antt =====
-- A message of three bytes on the wire.
use mo_session_server.Base.{[], arith, drop, false, refl, true, ◌∷◌, ◌≡◌}
use mo_session_server.Wire.{
  checksum, decode, encode, encode_from, header_size, lan_server, net_server, set_buffer_header,
  wire_bytes,
}
use mo_session_server.Packet.{SBuffer, payload}
use mo_session_server.Packet.Memory.{Inv}
use mo_session_server.Wire.Frames.{decode-wire_bytes}

abbrev three : SBuffer
three = record {
  buffer = 9 ∷ 9 ∷ 9 ∷ 9 ∷ 9 ∷ 12 ∷ 255 ∷ 44 ∷ 0 ∷ 0 ∷ [];
  read = 5;
  write = 8;
  buffer_size = 10;
  data_size = 3;
  refcnt = 1;
  e_flag = false;
}

three-Inv : Inv three
three-Inv = record { holds = refl; ends = refl; inside = omega arith }

lan_bytes : wire_bytes lan_server 119 50 1000 three ≡ 137 ∷ 2 ∷ 12 ∷ 255 ∷ 44 ∷ []
unfolding wire_bytes set_buffer_header
lan_bytes = refl

-- The checksum 55 and the data, under the random key 232 and the fixed key 50
net_bytes : wire_bytes net_server 119 50 1000 three ≡ 119 ∷ 3 ∷ 0 ∷ 232 ∷ 237 ∷ 229 ∷ 74 ∷ 144 ∷ []
unfolding wire_bytes set_buffer_header encode encode_from checksum
net_bytes = refl

decode-wire_bytes_example :
    ((decode 50 (wire_bytes net_server 119 50 1000 three)).0 ≡ true)
    × (drop (header_size net_server) (decode 50 (wire_bytes net_server 119 50 1000 three)).1
        ≡ payload three)
decode-wire_bytes_example =
    decode-wire_bytes 119 50 1000 three three-Inv refl (omega arith)
      (omega arith, (omega arith, (omega arith, tt)))
