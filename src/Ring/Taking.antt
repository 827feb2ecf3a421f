-- ===== src/Ring/Taking.antt =====
-- First out: the theorems about Peek, Dequeue, MoveRear and MoveFront.
use mo_session_server.Ring.Peeking.{given, given-lt, length-peek, nth-peek}
use mo_session_server.Base.Int.{pos}
use mo_session_server.Ring.{
  Ring, enqueue, get_free_size, get_used_size, peek, dequeue, copy_in, direct_enqueue_size,
  move_front, move_rear,
}
use mo_session_server.Base.{
  ℕ, List, ◌≡◌, ◌≤◌, ◌<◌, ◌+◌, ◌-◌, ◌%◌, refl, arith, length, get_or, if◌then◌else◌, ltb, ◌∙◌,
  Bool-cases, inl, inr, ap, [], leb, sym, min, not, some, ◌&&◌, ◌==◌, ap₂, suc, ◌∷◌,
}
use mo_session_server.Ring.Copy.{mod_wrap}
use mo_session_server.Ring.Fifo.{Inv, nth, enqueue_fits, written-one}
use mo_session_server.Ring.Order.{after, after-Inv, enqueue-nth}

module _ {A : Type 0} where
  -- The ring after `k` bytes were taken
  abbrev pub taken : ℕ → Ring A → Ring A
  taken k r = record r { front = (r.front + k) % r.size }

  pub taken-Inv :
      (k : ℕ) (r : Ring A)
      → Inv r
      → k ≤ get_used_size r
      → Inv (taken k r) × (get_used_size (taken k r) ≡ get_used_size r - k)
  unfolding get_used_size
  taken-Inv k r v h =
      let e = mod_wrap (r.front + k) r.size (ground (arith, v.front_in, v.rear_in)) in
      (
        record {
          holds = v.holds;
          front_in = ground (arith, e, v.front_in, v.rear_in);
          rear_in = v.rear_in;
        },
        ground (arith, e, v.front_in, v.rear_in),
      )

  pub nth-taken :
      (k i : ℕ) (r : Ring A) (d : A)
      → Inv r
      → k + i < get_used_size r
      → nth (taken k r) i d ≡ nth r (k + i) d
  unfolding get_used_size
  nth-taken k i r d v h =
      let e = mod_wrap (r.front + k) r.size (ground (arith, v.front_in, v.rear_in)) in
      let f = (r.front + k) % r.size in
      ap (λ q. get_or r.buffer q d) {x = if ltb (f + i) r.size then f + i else f + i - r.size}
        {y = if ltb (r.front + (k + i)) r.size
          then r.front + (k + i)
          else r.front + (k + i) - r.size}
        (ground (arith, e, v.front_in, v.rear_in))

  taken-same :
      (k j : ℕ) (r : Ring A) → (r.front + k) % r.size ≡ j → taken k r ≡ record r { front = j }
  taken-same k j r e = ap (λ f. record r { front = f }) e

  pub dequeue-taken :
      (n : ℕ) (r : Ring A) → Inv r → dequeue n r ≡ (peek n r, given n r, taken (given n r) r)
  unfolding dequeue
  dequeue-taken n r v = elim (Bool-cases (get_used_size r == 0 && not (leb n (get_used_size r)))) [
    | inl nothing ↦
        let e = mod_wrap (r.front + given n r) r.size (ground (arith, v.front_in)) in
        rw nothing (
          ap (λ q. (peek n r, given n r, q))
            (sym (taken-same (given n r) r.front r (ground (arith, e, v.front_in)))))
    | inr some_left ↦ rw some_left refl
  ]

  -- Dequeuing keeps the indices in bounds, and gives and takes away all the bytes that wait, at most
  -- as many as were asked for.
  pub dequeue-Inv :
      (n : ℕ) (r : Ring A)
      → Inv r
      → let (out, got, r') = dequeue n r in
        Inv r'
        × (got ≡ min n (get_used_size r))
        × (length out ≡ got)
        × (get_used_size r' ≡ get_used_size r - got)
  dequeue-Inv n r v =
      let (w, u) = taken-Inv (given n r) r v (given-lt n r v).1 in
      rw (dequeue-taken n r v) (w, ground arith, length-peek n r v, u)

  -- Each of the bytes that wait is either given by a dequeue, in order, or waits still, in order.
  pub dequeue-nth :
      (n : ℕ) (r : Ring A) (i : ℕ) (d : A)
      → Inv r
      → i < get_used_size r
      → let (out, got, r') = dequeue n r in
        (if ltb i got then get_or out i d else nth r' (i - got) d) ≡ nth r i d
  dequeue-nth n r i d v l =
      let k = given n r in
      ap (λ (q : List A × ℕ × Ring A). if ltb i q.1 then get_or q.0 i d else nth q.2 (i - q.1) d)
        (dequeue-taken n r v)
      ∙ elim (Bool-cases (ltb i k)) [
        | inl lo ↦ rw lo (nth-peek n r i d v (ground arith))
        | inr hi ↦ rw hi (
            nth-taken k (i - k) r d v (ground arith)
            ∙ ap (λ q. nth r q d) {x = k + (i - k)} {y = i} (ground arith))
      ]

  move_rear_fits :
      (n : ℕ) (r : Ring A)
      → n ≤ get_free_size r
      → move_rear n r ≡ (pos n, some (record r { rear = (r.rear + n) % r.size }))
  unfolding move_rear
  move_rear_fits n r h = ground arith

  -- What a receive does, writing at most `DirectEnqueueSize` bytes behind the rear and then moving it,
  -- is an enqueue of those bytes.
  move_rear-enqueue :
      (bytes : List A) (r : Ring A)
      → Inv r
      → length bytes ≤ direct_enqueue_size r
      → move_rear (length bytes) (record r { buffer = copy_in r.buffer r.rear bytes })
        ≡ (pos (length bytes), some (enqueue bytes r).1)
  unfolding direct_enqueue_size
  move_rear-enqueue bytes r v h =
      let fits : length bytes ≤ get_free_size r =
        (unfold get_free_size get_used_size in ground (arith, v.front_in, v.rear_in)) in
      move_rear_fits (length bytes) (record r { buffer = copy_in r.buffer r.rear bytes })
        (unfold get_free_size get_used_size in fits)
      ∙ ap
          (λ b. (
            pos (length bytes),
            some (record r { buffer = b; rear = (r.rear + length bytes) % r.size }),
          ))
          (sym (written-one bytes r v (ground (arith, v.front_in, v.rear_in))))
      ∙ ap (λ q. (pos (length bytes), some q.1)) (sym (enqueue_fits bytes r fits))

  pair_eq : (a b : ℕ) (q s : Ring A) → a ≡ b → q ≡ s → ◌≡◌ {A = ℕ × Ring A} (a, q) (b, s)
  pair_eq a b q s e f = ap₂ (λ x y. (x, y)) e f

  pub move_front-taken :
      (n : ℕ) (r : Ring A) → Inv r → move_front n r ≡ (given n r, taken (given n r) r)
  unfolding move_front
  move_front-taken n r v = elim (Bool-cases (leb n (get_used_size r))) [
    | inl enough ↦ rw enough refl
    | inr short ↦
        let k = get_used_size r in
        let e =
          mod_wrap (r.front + k) r.size
            (unfold get_used_size in ground (arith, v.front_in, v.rear_in)) in
        rw short (
          pair_eq (if leb r.front r.rear then r.rear - r.front else r.size - r.front + r.rear) k
            (record r { front = r.rear }) (taken k r)
            (unfold get_used_size in ground (arith, v.front_in, v.rear_in))
            (sym (
              taken-same k r.rear r
                (unfold get_used_size in ground (arith, e, v.front_in, v.rear_in)))))
  ]

  -- Looking at the bytes and then moving the front past them is a dequeue.
  pub move_front-dequeue :
      (n : ℕ) (r : Ring A)
      → Inv r
      → dequeue n r ≡ (peek n r, (move_front n r).0, (move_front n r).1)
  move_front-dequeue n r v =
      dequeue-taken n r v ∙ ap (λ q. (peek n r, q.0, q.1)) (sym (move_front-taken n r v))

  pub list_ext :
      (xs ys : List A)
      → length xs ≡ length ys
      → ((i : ℕ) (d : A) → i < length ys → get_or xs i d ≡ get_or ys i d)
      → xs ≡ ys
  list_ext [] [] e h = refl
  list_ext [] (y ∷ ys) e h = absurd (omega arith)
  list_ext (x ∷ xs) [] e h = absurd (omega arith)
  list_ext (x ∷ xs) (y ∷ ys) e h =
      ap₂ ◌∷◌ (h 0 x (omega arith))
        (list_ext xs ys (omega arith) (λ i d l. h (suc i) d (omega arith)))

  -- What is enqueued into an empty ring that has the space for it is what comes out of it.
  pub dequeue-enqueue :
      (bytes : List A) (r : Ring A)
      → Inv r
      → get_used_size r ≡ 0
      → length bytes ≤ get_free_size r
      → (dequeue (length bytes) (enqueue bytes r).1).0 ≡ bytes
  dequeue-enqueue bytes r v empty fits =
      let q = after bytes r in
      let (w, u) = after-Inv bytes r v fits in
      let e : (enqueue bytes r).1 ≡ q = ap (λ t. t.1) (enqueue_fits bytes r fits) in
      let n : given (length bytes) q ≡ length bytes = ground (arith, u, empty) in
      let out : (dequeue (length bytes) q).0 ≡ peek (length bytes) q =
        ap (λ t. t.0) (dequeue-taken (length bytes) q w) in
      ap (λ t. (dequeue (length bytes) t).0) e
      ∙ out
      ∙ list_ext (peek (length bytes) q) bytes (length-peek (length bytes) q w ∙ n) (λ i d l.
        nth-peek (length bytes) q i d w (omega (arith, n, l))
        ∙ ap (λ t. nth t i d) (sym e)
        ∙ enqueue-nth bytes r i d v fits (omega (arith, l))
        ∙ ground (arith, empty, l))
