-- ===== src/Packet/Stream.antt =====
-- Whole messages: what a sequence of `<<` stores and what the same sequence of `>>` reads back.
use mo_session_server.Base.{
  All, List, [], ap, append-nil, arith, length, map, refl, some, sym, ℕ, ◌++◌, ◌+◌, ◌<◌, ◌^◌, ◌∙◌,
  ◌∷◌, ◌≡◌, ◌≤◌, append_assoc, Bool-cases, inl, inr, leb, none, ◌⊎◌, length-append,
}
use mo_session_server.Packet.{
  SBuffer, le_bytes, move_read_pos, payload, read_all, write_all, get, clear, put,
}
use mo_session_server.Packet.Bytes.{length-le_bytes}
use mo_session_server.Packet.Memory.{
  Inv, stored, stored-Inv, put-stored, get-payload, put-outside, put-full,
}

-- The bytes that a message's fields have in a packet, and how many they are
abbrev pub bytes_of : List (ℕ × ℕ) → List ℕ
bytes_of [] = []
bytes_of ((w, v) ∷ fs) = le_bytes w v ++ bytes_of fs

abbrev pub size_of : List (ℕ × ℕ) → ℕ
size_of [] = 0
size_of ((w, v) ∷ fs) = w + size_of fs

-- Every value fits into its field.
abbrev pub IsFields : List (ℕ × ℕ) → Type 0
IsFields fs = All (λ f. f.1 < 256 ^ f.0) fs

abbrev pub values_of : List (ℕ × ℕ) → List ℕ
values_of fs = map (λ f. f.1) fs

-- Variables of the fields' widths, with whatever they hold before
abbrev pub variables : List (ℕ × ℕ) → ℕ → List (ℕ × ℕ)
variables fs old = map (λ f. (f.0, old)) fs

-- The buffer after a message
pub message : List (ℕ × ℕ) → SBuffer → SBuffer
message [] b = b
message ((w, v) ∷ fs) b = message fs (stored (le_bytes w v) b)

write_all-cons :
    (w v : ℕ) (fs : List (ℕ × ℕ)) (b c : SBuffer)
    → put w v b ≡ some c
    → write_all ((w, v) ∷ fs) b ≡ write_all fs c
unfolding write_all
write_all-cons w v fs b c e = rw (write_all, e) refl

pub length-bytes_of : (fs : List (ℕ × ℕ)) → length (bytes_of fs) ≡ size_of fs
length-bytes_of [] = refl
length-bytes_of ((w, v) ∷ fs) =
    omega
      (arith, length-append (le_bytes w v) (bytes_of fs), length-le_bytes w v, length-bytes_of fs)

pub message-read : (fs : List (ℕ × ℕ)) (b : SBuffer) → (message fs b).read ≡ b.read
unfolding message stored
message-read [] b = refl
message-read ((w, v) ∷ fs) b = message-read fs (stored (le_bytes w v) b)

pub write_all-message :
    (fs : List (ℕ × ℕ)) (b : SBuffer)
    → Inv b
    → b.write + size_of fs ≤ b.buffer_size
    → (write_all fs b ≡ some (message fs b))
      × Inv (message fs b)
      × (payload (message fs b) ≡ payload b ++ bytes_of fs)
unfolding write_all message stored
write_all-message [] b i h = (refl, i, sym (append-nil (payload b)))
write_all-message ((w, v) ∷ fs) b i h =
    let n : length (le_bytes w v) ≡ w = length-le_bytes w v in
    let (j, e) = stored-Inv (le_bytes w v) b i (omega (arith, n)) in
    let (f, k, g) = write_all-message fs (stored (le_bytes w v) b) j (room (le_bytes w v) n) in
    (
      write_all-cons w v fs b (stored (le_bytes w v) b) (put-stored w v b i (omega arith)) ∙ f,
      k,
      g ∙ ap (◌++ bytes_of fs) e ∙ append_assoc (payload b) (le_bytes w v) (bytes_of fs),
    )
  where
    room :
        (bytes : List ℕ)
        → length bytes ≡ w
        → (stored bytes b).write + size_of fs ≤ (stored bytes b).buffer_size
    room bytes n = omega (arith, n, h)

read_all-cons :
    (w old v : ℕ) (fs : List (ℕ × ℕ)) (b c : SBuffer)
    → get w old b ≡ (v, c)
    → read_all ((w, old) ∷ fs) b ≡ (v ∷ (read_all fs c).0, (read_all fs c).1)
unfolding read_all
read_all-cons w old v fs b c e = rw e refl

pub read_all-bytes :
    (fs : List (ℕ × ℕ)) (old : ℕ) (rest : List ℕ) (b : SBuffer)
    → Inv b
    → IsFields fs
    → payload b ≡ bytes_of fs ++ rest
    → ((read_all (variables fs old) b).0 ≡ values_of fs)
      × (payload (read_all (variables fs old) b).1 ≡ rest)
unfolding read_all
read_all-bytes [] old rest b i h e = (refl, e)
read_all-bytes ((w, v) ∷ fs) old rest b i (h, hs) e =
    let (f, j, g) =
      get-payload w old v (bytes_of fs ++ rest) b i h
        (e ∙ append_assoc (le_bytes w v) (bytes_of fs) rest) in
    let (k, l) = read_all-bytes fs old rest (move_read_pos w b) j hs g in
    let c = read_all-cons w old v (variables fs old) b (move_read_pos w b) f in
    (ap (λ q. q.0) c ∙ ap (v ∷◌) k, ap (λ q. payload q.1) c ∙ l)

-- A message of fields that fit, written into a cleared buffer with memory for it and the five bytes
-- of a header, is written whole, and reading the same fields back gives the values, whatever the
-- variables hold before, and leaves no data.
pub read_all-write_all :
    (fs : List (ℕ × ℕ)) (old : ℕ) (b : SBuffer)
    → IsFields fs
    → length b.buffer ≡ b.buffer_size
    → 5 + size_of fs ≤ b.buffer_size
    → (c : SBuffer) × (write_all fs (clear b) ≡ some c)
      × ((read_all (variables fs old) c).0 ≡ values_of fs)
      × (payload (read_all (variables fs old) c).1 ≡ [])
unfolding clear
read_all-write_all fs old b h m room =
    let i : Inv (clear b) = record { holds = m; ends = omega arith; inside = omega arith } in
    let (e, j, f) = write_all-message fs (clear b) i room in
    let (k, l) =
      read_all-bytes fs old [] (message fs (clear b)) j h (f ∙ sym (append-nil (bytes_of fs))) in
    (message fs (clear b), e, k, l)

-- A value of `w` bytes is written after the data where the memory has space for it. Where it has not,
-- the guard lets the value through and the write leaves the memory, as long as the data with it is no
-- longer than the whole memory: the guard does not count the bytes before the data. Else the buffer
-- stays as it is.
pub put-branches :
    (w v : ℕ) (b : SBuffer)
    → Inv b
    → (b.write + w ≤ b.buffer_size)
        × (put w v b ≡ some (stored (le_bytes w v) b))
        × (payload (stored (le_bytes w v) b) ≡ payload b ++ le_bytes w v)
      ⊎ (b.buffer_size < b.write + w) × (b.data_size + w ≤ b.buffer_size) × (put w v b ≡ none)
      ⊎ (b.buffer_size < b.data_size + w) × (put w v b ≡ some b)
put-branches w v b i =
    let n : length (le_bytes w v) ≡ w = length-le_bytes w v in
    elim (Bool-cases (leb (b.write + w) b.buffer_size)) [
      | inl fits ↦
          let h : b.write + w ≤ b.buffer_size = ground arith in
          inl (h, put-stored w v b i h, (stored-Inv (le_bytes w v) b i (omega (arith, n))).1)
      | inr out ↦ elim (Bool-cases (leb (b.data_size + w) b.buffer_size)) [
        | inl through ↦
            let (k, l) : (b.buffer_size < b.write + w) × (b.data_size + w ≤ b.buffer_size) =
              ground arith in
            inr (inl (k, l, put-outside w v b i k l))
        | inr full ↦
            let k : b.buffer_size < b.data_size + w = ground arith in
            inr (inr (k, put-full w v b i k))
      ]
    ]
