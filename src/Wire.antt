-- ===== src/Wire.antt =====
-- The form that a message has on the wire: SetBufferHeader, Encode and Decode of
-- Libraries/ContentLibB/ContentsServer.cpp, on the memory of a message buffer. Bytes are numbers below
-- 256. The random key is an argument.
pub mod Cipher
pub mod Frames
mod Examples
use mo_session_server.Base.{Bool, List, [], bit_xor, get_or, suc, ℕ, ◌%◌, ◌*◌, ◌+◌, ◌/◌, ◌==◌, ◌∷◌}
use mo_session_server.Ring.{copy_in, copy_out}
use mo_session_server.Packet.{SBuffer, payload}

pub data ServerType : Type 0 where
  lan_server net_server : ServerType

-- `LanHEADER` and `NetHEADER` are packed.
abbrev pub header_size : ServerType → ℕ
header_size lan_server = 2
header_size net_server = 5

-- The sum of some bytes, as an `unsigned char`
unfoldable pub checksum : List ℕ → ℕ
checksum [] = 0
checksum (b ∷ bs) = (b + checksum bs) % 256

-- `header._len`: a BYTE that is one less than the data for a LAN server, an `unsigned short` for a NET
-- server
abbrev pub lan_len : ℕ → ℕ
lan_len n = (n + 255) % 256

abbrev pub net_len : ℕ → ℕ
net_len n = n % 65536

-- `SetBufferHeader`, with the code of the server and what `rand` returns
unfoldable pub set_buffer_header : ServerType → ℕ → ℕ → SBuffer → SBuffer
set_buffer_header lan_server code rand b = record b {
  buffer = copy_in b.buffer 3 (137 ∷ lan_len b.data_size ∷ []);
  read = 3;
  data_size = b.data_size + 2;
}
set_buffer_header net_server code rand b = record b {
  buffer = copy_in b.buffer 0 (
      code
      ∷ net_len b.data_size % 256
      ∷ net_len b.data_size / 256
      ∷ rand % 256
      ∷ checksum (copy_out b.buffer 5 (net_len b.data_size))
      ∷ []);
  read = 0;
  data_size = b.data_size + 5;
}

-- `buffer[1]` and `buffer[2]`, and `buffer[3]`
abbrev pub len_of : List ℕ → ℕ
len_of buf = get_or buf 1 0 + 256 * get_or buf 2 0

abbrev pub rand_key_of : List ℕ → ℕ
rand_key_of buf = get_or buf 3 0

-- The loop of `Encode` from `i` on, with the `P1` and `E1` of the byte before
unfoldable pub encode_from : ℕ → ℕ → ℕ → ℕ → ℕ → List ℕ → List ℕ
encode_from fixed_key rand_key i p1 e1 [] = []
encode_from fixed_key rand_key i p1 e1 (d ∷ ds) =
    let p2 = bit_xor d ((p1 + rand_key + i + 1) % 256) in
    let e2 = bit_xor p2 ((e1 + fixed_key + i + 1) % 256) in
    e2 ∷ encode_from fixed_key rand_key (suc i) p2 e2 ds

unfoldable pub encode : ℕ → List ℕ → List ℕ
encode fixed_key buf =
    copy_in buf 4 (encode_from fixed_key (rand_key_of buf) 0 0 0 (copy_out buf 4 (len_of buf + 1)))

-- The loop of `Decode`
unfoldable pub decode_from : ℕ → ℕ → ℕ → ℕ → ℕ → List ℕ → List ℕ
decode_from fixed_key rand_key i p1 e1 [] = []
decode_from fixed_key rand_key i p1 e1 (e2 ∷ es) =
    let p2 = bit_xor e2 ((e1 + fixed_key + i + 1) % 256) in
    bit_xor p2 ((p1 + rand_key + i + 1) % 256) ∷ decode_from fixed_key rand_key (suc i) p2 e2 es

-- `Decode`: whether the checksum is right, and the memory
unfoldable pub decode : ℕ → List ℕ → Bool × List ℕ
decode fixed_key buf =
    let len = len_of buf in
    let out =
      copy_in buf 4 (decode_from fixed_key (rand_key_of buf) 0 0 0 (copy_out buf 4 (len + 1))) in
    (get_or out 4 0 == checksum (copy_out out 5 len), out)

-- What SendPacket makes of a packet that was not sent before, and what SendPost gives to WSASend: the
-- data from the read position on
unfoldable pub wire_bytes : ServerType → ℕ → ℕ → ℕ → SBuffer → List ℕ
wire_bytes lan_server code fixed_key rand b = payload (set_buffer_header lan_server code rand b)
wire_bytes net_server code fixed_key rand b =
    let h = set_buffer_header net_server code rand b in
    payload (record h { buffer = encode fixed_key h.buffer })
