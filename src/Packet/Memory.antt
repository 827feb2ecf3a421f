-- ===== src/Packet/Memory.antt =====
-- One write to a buffer and one read from it, as what they do to the data that it holds.
use mo_session_server.Base.{
  Bool-cases, List, [], ap, arith, drop, get_or, inl, inr, leb, length, length-append, ltb, refl,
  some, suc, sym, take, true, zero, ℕ, ◌++◌, ◌+◌, ◌-◌, ◌<◌, ◌^◌, ◌||◌, ◌∙◌, ◌∷◌, ◌≡◌, ◌≤◌, false,
  none,
}
use mo_session_server.Packet.{
  SBuffer, get, has_room, le_bytes, move_read_pos, move_write_pos, payload, put, store, le_value,
}
use mo_session_server.Ring.Copy.{
  get_or-copy_in_out, get_or-copy_in_at, length-copy_in, length-copy_out, get_or-copy_out,
  get_or-append_left, get_or-append_right, length-take, get_or-take, get_or-drop, length-drop,
}
use mo_session_server.Ring.{copy_in, copy_out}
use mo_session_server.Ring.Taking.{list_ext}
use mo_session_server.Packet.Bytes.{length-le_bytes, le_value-le_bytes}

pub record Inv (b : SBuffer) : Type 0 where
  pub holds : length b.buffer ≡ b.buffer_size
  pub ends : b.write ≡ b.read + b.data_size
  pub inside : b.write ≤ b.buffer_size

pub length-payload : (b : SBuffer) → Inv b → length (payload b) ≡ b.data_size
length-payload b v =
    length-copy_out b.buffer b.read b.data_size (omega (arith, v.holds, v.ends, v.inside))

-- Bytes written right after a segment make the segment longer.
copy_out-copy_in :
    (buf : List ℕ) (at n : ℕ) (bytes : List ℕ)
    → at + n + length bytes ≤ length buf
    → copy_out (copy_in buf (at + n) bytes) at (n + length bytes) ≡ copy_out buf at n ++ bytes
copy_out-copy_in buf at n bytes h =
    let new = copy_in buf (at + n) bytes in
    let size : length new ≡ length buf = length-copy_in buf (at + n) bytes in
    let old : length (copy_out buf at n) ≡ n = length-copy_out buf at n (omega arith) in
    list_ext (copy_out new at (n + length bytes)) (copy_out buf at n ++ bytes)
      (omega (
        arith,
        length-copy_out new at (n + length bytes) (omega arith),
        length-append (copy_out buf at n) bytes,
      ))
      (λ i d l.
        let l' : i < n + length bytes = omega (arith, length-append (copy_out buf at n) bytes) in
        get_or-copy_out new at (n + length bytes) i d l' ∙ elim (Bool-cases (ltb i n)) [
          | inl lo ↦
              get_or-copy_in_out buf (at + n) bytes (at + i) d h (inl (ground arith))
              ∙ sym (get_or-copy_out buf at n i d (ground arith))
              ∙ sym (get_or-append_left (copy_out buf at n) bytes i d (ground arith))
          | inr hi ↦
              ap (λ k. get_or new k d) {x = at + i} {y = at + n + (i - n)} (ground arith)
              ∙ get_or-copy_in_at buf (at + n) bytes (i - n) d h (ground arith)
              ∙ ap (λ k. get_or bytes (i - k) d) (sym old)
              ∙ sym (get_or-append_right (copy_out buf at n) bytes i d (ground arith))
        ])

-- The buffer after a value that fits
unfoldable pub stored : List ℕ → SBuffer → SBuffer
stored bytes b = record b {
  buffer = copy_in b.buffer b.write bytes;
  write = b.write + length bytes;
  data_size = b.data_size + length bytes;
}

pub stored-Inv :
    (bytes : List ℕ) (b : SBuffer)
    → Inv b
    → b.write + length bytes ≤ b.buffer_size
    → Inv (stored bytes b) × (payload (stored bytes b) ≡ payload b ++ bytes)
unfolding stored
stored-Inv bytes b v h = (
  record {
    holds = length-copy_in b.buffer b.write bytes ∙ v.holds;
    ends = omega (arith, v.ends);
    inside = h;
  },
  ap (λ k. copy_out (copy_in b.buffer k bytes) b.read (b.data_size + length bytes)) v.ends
      ∙ copy_out-copy_in b.buffer b.read b.data_size bytes (omega (arith, v.ends, v.holds)),
)

pub put-stored :
    (w v : ℕ) (b : SBuffer)
    → Inv b
    → b.write + w ≤ b.buffer_size
    → put w v b ≡ some (stored (le_bytes w v) b)
unfolding put store has_room move_write_pos stored
put-stored w v b i h =
    let n : length (le_bytes w v) ≡ w = length-le_bytes w v in
    let fits : leb (b.write + w) (length b.buffer) ≡ true = ground (arith, i.holds) in
    let room : (ltb b.buffer_size b.data_size || leb w (b.buffer_size - b.data_size)) ≡ true =
      ground (arith, i.ends, i.inside) in
    simp (n, room, fits)

-- The guard counts the data alone.
pub put-outside :
    (w v : ℕ) (b : SBuffer)
    → Inv b
    → b.buffer_size < b.write + w
    → b.data_size + w ≤ b.buffer_size
    → put w v b ≡ none
unfolding put store has_room
put-outside w v b i h k =
    let n : length (le_bytes w v) ≡ w = length-le_bytes w v in
    let fits : leb (b.write + w) (length b.buffer) ≡ false = ground (arith, i.holds) in
    let room : (ltb b.buffer_size b.data_size || leb w (b.buffer_size - b.data_size)) ≡ true =
      ground arith in
    simp (n, room, fits)

pub put-full :
    (w v : ℕ) (b : SBuffer) → Inv b → b.buffer_size < b.data_size + w → put w v b ≡ some b
unfolding put has_room
put-full w v b i h =
    let room : (ltb b.buffer_size b.data_size || leb w (b.buffer_size - b.data_size)) ≡ false =
      ground (arith, i.ends, i.inside) in
    simp (room)

pub drop-append : (n : ℕ) (xs ys : List ℕ) → length xs ≡ n → drop n (xs ++ ys) ≡ ys
drop-append zero [] ys h = refl
drop-append zero (x ∷ xs) ys h = absurd (omega arith)
drop-append (suc n) [] ys h = absurd (omega arith)
drop-append (suc n) (x ∷ xs) ys h = drop-append n xs ys (omega arith)

pub take-append : (n : ℕ) (xs ys : List ℕ) → length xs ≡ n → take n (xs ++ ys) ≡ xs
take-append zero [] ys h = refl
take-append zero (x ∷ xs) ys h = absurd (omega arith)
take-append (suc n) [] ys h = absurd (omega arith)
take-append (suc n) (x ∷ xs) ys h = ap (x ∷◌) (take-append n xs ys (omega arith))

-- A read of no more than is there takes the front of the data.
pub move_read_pos-Inv :
    (w : ℕ) (b : SBuffer)
    → Inv b
    → w ≤ b.data_size
    → Inv (move_read_pos w b)
      × (payload (move_read_pos w b) ≡ drop w (payload b))
      × (copy_out b.buffer b.read w ≡ take w (payload b))
unfolding move_read_pos
move_read_pos-Inv w b v h =
    let c = move_read_pos w b in
    let i : Inv c = record {
      holds = v.holds;
      ends = omega (arith, v.ends);
      inside = omega (arith, v.inside);
    } in
    let n : length (payload b) ≡ b.data_size = length-payload b v in
    let l : length (drop w (payload b)) ≡ b.data_size - w =
      omega (arith, length-drop w (payload b)) in
    let t : length (take w (payload b)) ≡ w = length-take w (payload b) (omega arith) in
    let o : length (copy_out b.buffer b.read w) ≡ w =
      length-copy_out b.buffer b.read w (omega (arith, v.holds, v.ends, v.inside)) in
    (
      i,
      list_ext (payload c) (drop w (payload b)) (length-payload c i ∙ sym l) (λ k d q.
          get_or-copy_out b.buffer (b.read + w) (b.data_size - w) k d (omega arith)
          ∙ ap (λ j. get_or b.buffer j d) {x = b.read + w + k} {y = b.read + (w + k)} (omega arith)
          ∙ sym (get_or-copy_out b.buffer b.read b.data_size (w + k) d (omega arith))
          ∙ sym (get_or-drop w (payload b) k d)),
      list_ext (copy_out b.buffer b.read w) (take w (payload b)) (o ∙ sym t) (λ k d q.
          get_or-copy_out b.buffer b.read w k d (omega arith)
          ∙ sym (get_or-copy_out b.buffer b.read b.data_size k d (omega arith))
          ∙ sym (get_or-take w (payload b) k d (omega arith))),
    )

-- A read of more than is there leaves the variable and the buffer as they are.
pub get-short : (w old : ℕ) (b : SBuffer) → b.data_size < w → get w old b ≡ (old, b)
unfolding get
get-short w old b h = ground arith

get-long :
    (w old : ℕ) (b : SBuffer)
    → w ≤ b.data_size
    → get w old b ≡ (le_value (copy_out b.buffer b.read w), move_read_pos w b)
unfolding get
get-long w old b h = ground arith

pub get-payload :
    (w old v : ℕ) (rest : List ℕ) (b : SBuffer)
    → Inv b
    → v < 256 ^ w
    → payload b ≡ le_bytes w v ++ rest
    → (get w old b ≡ (v, move_read_pos w b))
      × Inv (move_read_pos w b)
      × (payload (move_read_pos w b) ≡ rest)
get-payload w old v rest b i h e =
    let n : length (le_bytes w v) ≡ w = length-le_bytes w v in
    let fits : w ≤ b.data_size =
      omega (arith, n, length-payload b i, ap length e, length-append (le_bytes w v) rest) in
    let (j, f, g) = move_read_pos-Inv w b i fits in
    let whole : take w (payload b) ≡ le_bytes w v =
      ap (take w) e ∙ take-append w (le_bytes w v) rest n in
    (
      get-long w old b fits
          ∙ ap (λ z. (z, move_read_pos w b)) (ap le_value (g ∙ whole) ∙ le_value-le_bytes w v h),
      j,
      f ∙ ap (drop w) e ∙ drop-append w (le_bytes w v) rest n,
    )
