-- ===== src/Packet.antt =====
-- SBuffer of Common/SerialBuffer.h, the buffer of one message, and CPacket of Common/CPacket.cpp, which
-- holds one. A value of `w` bytes is written with its lowest byte first, as the machine stores it; a
-- write that would leave the memory of the buffer is `none`.
pub mod Bytes
pub mod Memory
pub mod Blocks
pub mod Counting
pub mod Stream
pub mod Fighter
pub mod Requests
mod Examples
use mo_session_server.Base.{
  Bool, List, Option, [], false, if◌then◌else◌, leb, length, ltb, none, some, suc, take, zero, ℕ,
  ◌%◌, ◌*◌, ◌+◌, ◌-◌, ◌/◌, ◌==◌, ◌||◌, ◌∷◌,
}
use mo_session_server.Ring.{copy_in, copy_out}

-- `SBuffer` without its lock; `read` and `write` are indices into `buffer`.
pub record SBuffer : Type 0 where
  pub buffer : List ℕ
  pub read : ℕ
  pub write : ℕ
  pub buffer_size : ℕ
  pub data_size : ℕ
  pub refcnt : ℕ
  pub e_flag : Bool

abbrev pub buffer_default : ℕ
buffer_default = 300

-- The constructor without arguments, on the memory that `malloc` gives
unfoldable pub make : List ℕ → SBuffer
make memory = record {
  buffer = memory;
  read = 0;
  write = 0;
  buffer_size = buffer_default;
  data_size = 0;
  refcnt = 0;
  e_flag = false;
}

-- `Clear`: the five bytes before the data are for the header of a NET server.
unfoldable pub clear : SBuffer → SBuffer
clear b = record b { read = 5; write = 5; data_size = 0; e_flag = false }

-- `ClearAtLServer`
unfoldable pub clear_at_l_server : SBuffer → SBuffer
clear_at_l_server b = record b { read = 3; write = 3; data_size = 0; e_flag = false }

-- `ClearAtNServer`
unfoldable pub clear_at_n_server : SBuffer → SBuffer
clear_at_n_server b = record b { read = 0; write = 0; data_size = 0; e_flag = false }

-- `MoveWritePos`
unfoldable pub move_write_pos : ℕ → SBuffer → SBuffer
move_write_pos n b = record b { write = b.write + n; data_size = b.data_size + n }

-- `MoveReadPos`
unfoldable pub move_read_pos : ℕ → SBuffer → SBuffer
move_read_pos n b = record b { read = b.read + n; data_size = b.data_size - n }

-- The `w` bytes of a value, and the value of some bytes
abbrev pub le_bytes : ℕ → ℕ → List ℕ
le_bytes zero v = []
le_bytes (suc w) v = v % 256 ∷ le_bytes w (v / 256)

abbrev pub le_value : List ℕ → ℕ
le_value [] = 0
le_value (b ∷ bs) = b + 256 * le_value bs

-- A store through `&buffer[write]`
unfoldable pub store : List ℕ → SBuffer → Option SBuffer
store bytes b =
    if leb (b.write + length bytes) (length b.buffer)
    then some (record b { buffer = copy_in b.buffer b.write bytes })
    else none

-- `BufferSize - DataSize >= sizeof(value)`: the difference is compared as a `size_t`.
unfoldable pub has_room : ℕ → SBuffer → Bool
has_room w b = ltb b.buffer_size b.data_size || leb w (b.buffer_size - b.data_size)

-- `operator<<` of SBuffer and of CPacket, for a value of `w` bytes
unfoldable pub put : ℕ → ℕ → SBuffer → Option SBuffer
put w v b =
    if has_room w b
    then elim (store (le_bytes w v) b) [ none ↦ none | some c ↦ some (move_write_pos w c) ]
    else some b

-- `operator>>`, for a variable of `w` bytes that holds `old`
unfoldable pub get : ℕ → ℕ → SBuffer → ℕ × SBuffer
get w old b =
    if leb w b.data_size
    then (le_value (copy_out b.buffer b.read w), move_read_pos w b)
    else (old, b)

-- `PutData`: the number that it returns, and the buffer. With more data than memory the size of the
-- copy is negative, which `memcpy` takes for a huge one.
unfoldable pub put_data : List ℕ → SBuffer → Option (ℕ × SBuffer)
put_data bytes b =
    let room = b.buffer_size - b.data_size in
    if b.data_size == b.buffer_size
    then some (0, b)
    else if ltb b.buffer_size b.data_size
    then none
    else if leb (length bytes) room
    then elim (store bytes b) [
      | none ↦ none
      | some c ↦ some (length bytes, move_write_pos (length bytes) c)
    ]
    else elim (store (take room bytes) b) [
      | none ↦ none
      | some c ↦ some (room, move_write_pos room c)
    ]

-- `GetData`: the bytes that it copies, the number that it returns, and the buffer. When fewer bytes are
-- there than asked for, `DataSize` is set to 0 before it is returned.
unfoldable pub get_data : ℕ → SBuffer → List ℕ × ℕ × SBuffer
get_data n b =
    if b.data_size == 0
    then ([], 0, b)
    else if leb n b.data_size
    then (copy_out b.buffer b.read n, n, move_read_pos n b)
    else (copy_out b.buffer b.read b.data_size, 0, move_read_pos b.data_size b)

-- The data that a buffer holds
abbrev pub payload : SBuffer → List ℕ
payload b = copy_out b.buffer b.read b.data_size

-- A message's fields, a width and a value each, written one after the other, and read into variables
-- that are given by their width and what they hold
unfoldable pub write_all : List (ℕ × ℕ) → SBuffer → Option SBuffer
write_all [] b = some b
write_all ((w, v) ∷ fs) b = elim (put w v b) [ none ↦ none | some c ↦ write_all fs c ]

unfoldable pub read_all : List (ℕ × ℕ) → SBuffer → List ℕ × SBuffer
read_all [] b = ([], b)
read_all ((w, old) ∷ fs) b = let (v, c) = get w old b in let (vs, d) = read_all fs c in (v ∷ vs, d)
