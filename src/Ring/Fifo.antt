-- ===== src/Ring/Fifo.antt =====
-- What Enqueue writes into the buffer, position by position.
use mo_session_server.Ring.{Ring, copy_in, enqueue, get_free_size, get_used_size, written}
use mo_session_server.Base.{
  ℕ, List, ◌≡◌, ◌≤◌, ◌<◌, ◌+◌, ◌-◌, ◌%◌, arith, length, get_or, take, drop, if◌then◌else◌, ltb, leb,
  Bool-cases, ap, ap₂, inl, inr, ◌∙◌, ◌⊎◌,
}
use mo_session_server.Ring.Copy.{
  mod_wrap, length-copy_in, get_or-copy_in_out, get_or-copy_in_at, get_or-take, get_or-drop,
  length-take, length-drop,
}

module _ {ℓ} {A : Type ℓ} where
  pub record Inv (r : Ring A) : Type ℓ where
    pub holds : length r.buffer ≡ r.size
    pub front_in : r.front < r.size
    pub rear_in : r.rear < r.size

  -- The `i`-th of the bytes that wait in the ring
  abbrev pub nth : Ring A → ℕ → A → A
  nth r i d =
      get_or r.buffer (if ltb (r.front + i) r.size then r.front + i else r.front + i - r.size) d

  pub free-lt : (r : Ring A) → Inv r → get_used_size r + get_free_size r + 1 ≡ r.size
  unfolding get_free_size get_used_size
  free-lt r v = ground (arith, v.front_in, v.rear_in)

  pub length-written : (bytes : List A) (r : Ring A) → length (written bytes r) ≡ length r.buffer
  unfolding written
  length-written bytes r = ground (
    arith,
    length-copy_in r.buffer r.rear bytes,
    length-copy_in (copy_in r.buffer r.rear (take (r.size - r.rear) bytes)) 0
        (drop (r.size - r.rear) bytes),
    length-copy_in r.buffer r.rear (take (r.size - r.rear) bytes),
  )

  pub enqueue_fits :
      (bytes : List A) (r : Ring A)
      → length bytes ≤ get_free_size r
      → enqueue bytes r ≡ (
        length bytes,
        record r { buffer = written bytes r; rear = (r.rear + length bytes) % r.size },
      )
  unfolding enqueue
  enqueue_fits bytes r h = ground arith

  -- The indices after an enqueue
  pub rear_after :
      (r : Ring A) (n : ℕ)
      → Inv r
      → n ≤ get_free_size r
      → ((r.rear + n) % r.size < r.size)
        × ((if leb r.front ((r.rear + n) % r.size)
              then (r.rear + n) % r.size - r.front
              else r.size - (r.front - (r.rear + n) % r.size))
            ≡ get_used_size r + n)
  unfolding get_used_size get_free_size
  rear_after r n v h =
      rw (mod_wrap (r.rear + n) r.size (ground (arith, v.front_in, v.rear_in)))
        (ground (arith, v.front_in, v.rear_in))

  -- The positions that hold waiting bytes
  abbrev pub IsUsed : Ring A → ℕ → Type 0
  IsUsed r q =
      (r.front ≤ r.rear) × (r.front ≤ q) × (q < r.rear)
      ⊎ (r.rear < r.front) × (q < r.size) × ((q < r.rear) ⊎ (r.front ≤ q))

  written-split :
      (bytes : List A) (r : Ring A)
      → Inv r
      → r.front ≤ r.rear
      → r.size < r.rear + length bytes
      → written bytes r
        ≡ copy_in
            (copy_in r.buffer r.rear (take (r.size - r.rear) bytes))
            0
            (drop (r.size - r.rear) bytes)
  unfolding written
  written-split bytes r v h k = ground (arith, v.rear_in)

  pub written-one :
      (bytes : List A) (r : Ring A)
      → Inv r
      → r.rear + length bytes ≤ r.size
      → written bytes r ≡ copy_in r.buffer r.rear bytes
  unfolding written
  written-one bytes r v h = ground (arith, v.rear_in)

  -- An enqueue leaves the waiting bytes where they are.
  pub get_or-written_old :
      (bytes : List A) (r : Ring A) (q : ℕ) (d : A)
      → Inv r
      → length bytes ≤ get_free_size r
      → IsUsed r q
      → get_or (written bytes r) q d ≡ get_or r.buffer q d
  unfolding get_free_size get_used_size
  get_or-written_old bytes r q d v n u = elim (Bool-cases (leb (r.rear + length bytes) r.size)) [
    | inl one ↦
        ap (λ l. get_or l q d) (written-one bytes r v (ground arith))
        ∙ get_or-copy_in_out r.buffer r.rear bytes q d (ground (arith, v.holds))
            (ground (arith, v.front_in, v.rear_in))
    | inr two ↦
        let m = r.size - r.rear in
        ap (λ l. get_or l q d)
          (written-split bytes r v (ground (arith, v.front_in, v.rear_in)) (ground arith))
        ∙ get_or-copy_in_out (copy_in r.buffer r.rear (take m bytes)) 0 (drop m bytes) q d
            (ground (
              arith,
              v.front_in,
              v.rear_in,
              v.holds,
              length-drop m bytes,
              length-copy_in r.buffer r.rear (take m bytes),
            ))
            (ground (arith, v.front_in, v.rear_in, length-drop m bytes))
        ∙ get_or-copy_in_out r.buffer r.rear (take m bytes) q d
            (ground (arith, v.rear_in, v.holds, length-take m bytes))
            (ground (arith, v.front_in, v.rear_in, length-take m bytes))
  ]

  pub get_or-same : {b c : List A} → b ≡ c → (k l : ℕ) (d : A) → k ≡ l → get_or b k d ≡ get_or c l d
  get_or-same e k l d h = ap₂ (λ b k. get_or b k d) e h

  -- An enqueue writes the new bytes from the rear on.
  pub get_or-written_new :
      (bytes : List A) (r : Ring A) (i : ℕ) (d : A)
      → Inv r
      → length bytes ≤ get_free_size r
      → i < length bytes
      → get_or
          (written bytes r)
          (if ltb (r.rear + i) r.size then r.rear + i else r.rear + i - r.size)
          d
        ≡ get_or bytes i d
  unfolding get_free_size get_used_size
  get_or-written_new bytes r i d v n l = elim (Bool-cases (leb (r.rear + length bytes) r.size)) [
    | inl one ↦
        get_or-same (written-one bytes r v (ground arith))
          (if ltb (r.rear + i) r.size then r.rear + i else r.rear + i - r.size) (r.rear + i) d
          (ground arith)
        ∙ get_or-copy_in_at r.buffer r.rear bytes i d (ground (arith, v.holds)) l
    | inr two ↦
        let m = r.size - r.rear in
        let first = copy_in r.buffer r.rear (take m bytes) in
        let e : written bytes r ≡ copy_in first 0 (drop m bytes) =
          written-split bytes r v (ground (arith, v.front_in, v.rear_in)) (ground arith) in
        let fits : 0 + length (drop m bytes) ≤ length first = ground (
          arith,
          v.front_in,
          v.rear_in,
          v.holds,
          length-drop m bytes,
          length-copy_in r.buffer r.rear (take m bytes),
        ) in
        elim (Bool-cases (ltb i m)) [
          | inl lo ↦
              get_or-same e (if ltb (r.rear + i) r.size then r.rear + i else r.rear + i - r.size)
                (r.rear + i) d (ground arith)
              ∙ get_or-copy_in_out first 0 (drop m bytes) (r.rear + i) d fits
                  (inr (ground (arith, v.front_in, v.rear_in, length-drop m bytes)))
              ∙ get_or-copy_in_at r.buffer r.rear (take m bytes) i d
                  (ground (arith, v.rear_in, v.holds, length-take m bytes))
                  (ground (arith, length-take m bytes))
              ∙ get_or-take m bytes i d (ground arith)
          | inr hi ↦
              get_or-same e (if ltb (r.rear + i) r.size then r.rear + i else r.rear + i - r.size)
                (0 + (i - m)) d (ground (arith, v.rear_in))
              ∙ get_or-copy_in_at first 0 (drop m bytes) (i - m) d fits
                  (ground (arith, length-drop m bytes))
              ∙ get_or-drop m bytes (i - m) d
              ∙ ap (λ k. get_or bytes k d) {x = m + (i - m)} {y = i} (ground arith)
        ]
  ]
