-- ===== src/Packet/Blocks.antt =====
-- PutData and GetData.
use mo_session_server.Base.{
  List, [], ap, append-nil, arith, false, leb, length, ltb, refl, some, sym, take, true, ℕ, ◌+◌,
  ◌-◌, ◌<◌, ◌==◌, ◌∙◌, ◌≡◌, ◌≤◌, ◌++◌,
}
use mo_session_server.Packet.{
  SBuffer, get_data, move_read_pos, move_write_pos, payload, put_data, store,
}
use mo_session_server.Packet.Memory.{Inv, stored, stored-Inv, move_read_pos-Inv, take-append}
use mo_session_server.Ring.{copy_out}

-- A block of bytes that the memory has space for is put behind the data.
pub put_data-stored :
    (bytes : List ℕ) (b : SBuffer)
    → Inv b
    → 0 < length bytes
    → b.write + length bytes ≤ b.buffer_size
    → put_data bytes b ≡ some (length bytes, stored bytes b)
unfolding put_data store move_write_pos stored
put_data-stored bytes b i some_bytes h =
    let full : (b.data_size == b.buffer_size) ≡ false = ground (arith, i.ends) in
    let over : ltb b.buffer_size b.data_size ≡ false = ground (arith, i.ends) in
    let fits : leb (length bytes) (b.buffer_size - b.data_size) ≡ true = ground (arith, i.ends) in
    let inside : leb (b.write + length bytes) (length b.buffer) ≡ true = ground (arith, i.holds) in
    simp (full, over, fits, inside)

get_data-long :
    (n : ℕ) (b : SBuffer)
    → 0 < n
    → n ≤ b.data_size
    → get_data n b ≡ (copy_out b.buffer b.read n, n, move_read_pos n b)
unfolding get_data
get_data-long n b z h =
    let some_data : (b.data_size == 0) ≡ false = ground arith in
    let fits : leb n b.data_size ≡ true = ground arith in simp (some_data, fits)

stored_size : (bytes : List ℕ) (b : SBuffer) → length bytes ≤ (stored bytes b).data_size
unfolding stored
stored_size bytes b = omega arith

-- A block that is put into a buffer without data and with the space for it is what GetData takes out.
pub get_data-put_data :
    (bytes : List ℕ) (b : SBuffer)
    → Inv b
    → payload b ≡ []
    → 0 < length bytes
    → b.write + length bytes ≤ b.buffer_size
    → (c : SBuffer) × (put_data bytes b ≡ some (length bytes, c))
      × ((get_data (length bytes) c).0 ≡ bytes)
      × ((get_data (length bytes) c).1 ≡ length bytes)
get_data-put_data bytes b i empty z h =
    let (j, e) = stored-Inv bytes b i h in
    let c = stored bytes b in
    let whole : payload c ≡ bytes = e ∙ ap (λ l. l ++ bytes) empty in
    let enough : length bytes ≤ c.data_size = stored_size bytes b in
    let (k, l, m) = move_read_pos-Inv (length bytes) c j enough in
    let g = get_data-long (length bytes) c z enough in
    (
      c,
      put_data-stored bytes b i z h,
      ap (λ q. q.0) g
          ∙ m
          ∙ ap (take (length bytes)) (whole ∙ sym (append-nil bytes))
          ∙ take-append (length bytes) bytes [] refl,
      ap (λ q. q.1) g,
    )
