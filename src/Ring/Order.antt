-- ===== src/Ring/Order.antt =====
-- First in: the theorems about Enqueue.
use mo_session_server.Ring.{Ring, enqueue, get_free_size, get_used_size, written}
use mo_session_server.Base.{
  ℕ, List, ◌≡◌, ◌≤◌, ◌<◌, ◌+◌, ◌-◌, ◌%◌, refl, arith, length, get_or, if◌then◌else◌, ltb, ◌∙◌,
  Bool-cases, inl, inr, ap, ◌⊎◌,
}
use mo_session_server.Ring.Fifo.{
  Inv, nth, free-lt, length-written, enqueue_fits, rear_after, IsUsed, get_or-written_old,
  get_or-written_new,
}

module _ {A : Type 0} where
  -- The ring after an enqueue that fits
  abbrev pub after : List A → Ring A → Ring A
  after bytes r = record r { buffer = written bytes r; rear = (r.rear + length bytes) % r.size }

  pub after-Inv :
      (bytes : List A) (r : Ring A)
      → Inv r
      → length bytes ≤ get_free_size r
      → Inv (after bytes r) × (get_used_size (after bytes r) ≡ get_used_size r + length bytes)
  unfolding get_used_size
  after-Inv bytes r v h =
      let (b, u) = rear_after r (length bytes) v h in
      (record { holds = length-written bytes r ∙ v.holds; front_in = v.front_in; rear_in = b }, u)

  enqueue-cases :
      (bytes : List A) (r : Ring A)
      → (length bytes ≤ get_free_size r) × (enqueue bytes r ≡ (length bytes, after bytes r))
        ⊎ (get_free_size r < length bytes) × (enqueue bytes r ≡ (0, r))
  unfolding enqueue
  enqueue-cases bytes r = ground arith

  nth-IsUsed :
      (r : Ring A) (i : ℕ)
      → Inv r
      → i < get_used_size r
      → IsUsed r (if ltb (r.front + i) r.size then r.front + i else r.front + i - r.size)
  unfolding get_used_size
  nth-IsUsed r i v h = ground (arith, v.front_in, v.rear_in)

  -- The place of a new byte, counted from the front and from the rear
  same_place :
      (r : Ring A) (i : ℕ)
      → Inv r
      → get_used_size r ≤ i
      → i < r.size
      → (if ltb (r.front + i) r.size then r.front + i else r.front + i - r.size) ≡ (
          if ltb (r.rear + (i - get_used_size r)) r.size
          then r.rear + (i - get_used_size r)
          else r.rear + (i - get_used_size r) - r.size)
  unfolding get_used_size
  same_place r i v h k = ground (arith, v.front_in, v.rear_in)

  -- Enqueuing keeps the indices in bounds. Bytes that fit in the free space are all taken and counted;
  -- with less space nothing is taken and nothing changes.
  pub enqueue-Inv :
      (bytes : List A) (r : Ring A)
      → Inv r
      → let (n, r') = enqueue bytes r in
        Inv r'
        × (get_used_size r' ≡ get_used_size r + n)
        × ((length bytes ≤ get_free_size r) × (n ≡ length bytes)
            ⊎ (get_free_size r < length bytes) × (n ≡ 0) × (r' ≡ r))
  enqueue-Inv bytes r v = elim (enqueue-cases bytes r) [
    | inl (fits, e) ↦
        rw e ((after-Inv bytes r v fits).0, (after-Inv bytes r v fits).1, inl (fits, refl))
    | inr (full, e) ↦ rw e (v, omega arith, inr (full, refl, refl))
  ]

  pub enqueue-nth :
      (bytes : List A) (r : Ring A) (i : ℕ) (d : A)
      → Inv r
      → length bytes ≤ get_free_size r
      → i < get_used_size r + length bytes
      → nth (enqueue bytes r).1 i d
        ≡ (if ltb i (get_used_size r) then nth r i d else get_or bytes (i - get_used_size r) d)
  enqueue-nth bytes r i d v fits h =
      let e = enqueue_fits bytes r fits in
      ap (λ q. nth q.1 i d) e ∙ elim (Bool-cases (ltb i (get_used_size r))) [
        | inl old ↦
            get_or-written_old bytes r
              (if ltb (r.front + i) r.size then r.front + i else r.front + i - r.size) d v fits
              (nth-IsUsed r i v (ground arith))
            ∙ rw old
        | inr new ↦
            ap (λ k. get_or (written bytes r) k d)
              (same_place r i v (ground arith) (ground (arith, free-lt r v)))
            ∙ get_or-written_new bytes r (i - get_used_size r) d v fits (ground arith)
            ∙ rw new
      ]
