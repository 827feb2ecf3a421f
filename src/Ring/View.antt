-- ===== src/Ring/View.antt =====
-- The bytes that wait in a ring, as a list, and what the operations do to it.
use mo_session_server.Base.{
  ℕ, List, ◌++◌, ◌≡◌, ◌≤◌, ◌<◌, ◌+◌, ◌-◌, arith, length, get_or, take, drop, ltb, ◌∙◌, Bool-cases,
  inl, inr, ap, sym, length-append, subst,
}
use mo_session_server.Ring.{Ring, get_used_size, get_free_size, peek, dequeue, enqueue, move_front}
use mo_session_server.Ring.Copy.{
  get_or-take, get_or-drop, length-take, length-drop, get_or-append_left, get_or-append_right,
}
use mo_session_server.Ring.Fifo.{Inv, nth, enqueue_fits}
use mo_session_server.Ring.Peeking.{given, length-peek, nth-peek}
use mo_session_server.Ring.Order.{after, after-Inv, enqueue-nth}
use mo_session_server.Ring.Taking.{
  taken, taken-Inv, nth-taken, dequeue-taken, move_front-taken, list_ext,
}

module _ {A : Type 0} where
  unfoldable pub view : Ring A → List A
  view r = peek (get_used_size r) r

  pub length-view : (r : Ring A) → Inv r → length (view r) ≡ get_used_size r
  unfolding view
  length-view r v = length-peek (get_used_size r) r v ∙ ground arith

  nth-view :
      (r : Ring A) (i : ℕ) (d : A) → Inv r → i < get_used_size r → get_or (view r) i d ≡ nth r i d
  unfolding view
  nth-view r i d v h = nth-peek (get_used_size r) r i d v (ground arith)

  pub peek-view : (n : ℕ) (r : Ring A) → Inv r → n ≤ get_used_size r → peek n r ≡ take n (view r)
  peek-view n r v h =
      let g : given n r ≡ n = ground arith in
      let t : length (take n (view r)) ≡ n =
        length-take n (view r) (omega (arith, length-view r v)) in
      list_ext (peek n r) (take n (view r)) (length-peek n r v ∙ g ∙ sym t) (λ i d l.
        nth-peek n r i d v (omega (arith, g, t, l))
        ∙ sym (nth-view r i d v (omega (arith, t, l, h)))
        ∙ sym (get_or-take n (view r) i d (omega (arith, t, l))))

  taken-view :
      (n : ℕ) (r : Ring A) → Inv r → n ≤ get_used_size r → view (taken n r) ≡ drop n (view r)
  taken-view n r v h =
      let (w, u) = taken-Inv n r v h in
      let t : length (drop n (view r)) ≡ get_used_size r - n =
        omega (arith, length-drop n (view r), length-view r v) in
      list_ext (view (taken n r)) (drop n (view r)) (length-view (taken n r) w ∙ u ∙ sym t)
        (λ i d l.
          nth-view (taken n r) i d w (omega (arith, u, t, l))
          ∙ nth-taken n i r d v (omega (arith, t, l))
          ∙ sym (nth-view r (n + i) d v (omega (arith, t, l)))
          ∙ sym (get_or-drop n (view r) i d))

  -- A dequeue of no more than waits
  pub dequeue-view :
      (n : ℕ) (r : Ring A)
      → Inv r
      → n ≤ get_used_size r
      → ((dequeue n r).0 ≡ take n (view r))
        × Inv (dequeue n r).2
        × (view (dequeue n r).2 ≡ drop n (view r))
  dequeue-view n r v h =
      let g : given n r ≡ n = ground arith in
      let e = dequeue-taken n r v in
      let f : (dequeue n r).2 ≡ taken n r = ap (λ q. q.2) e ∙ ap (λ k. taken k r) g in
      (
        ap (λ q. q.0) e ∙ peek-view n r v h,
        subst Inv (sym f) (taken-Inv n r v h).0,
        ap view f ∙ taken-view n r v h,
      )

  pub move_front-view :
      (n : ℕ) (r : Ring A)
      → Inv r
      → n ≤ get_used_size r
      → Inv (move_front n r).1 × (view (move_front n r).1 ≡ drop n (view r))
  move_front-view n r v h =
      let g : given n r ≡ n = ground arith in
      let f : (move_front n r).1 ≡ taken n r =
        ap (λ q. q.1) (move_front-taken n r v) ∙ ap (λ k. taken k r) g in
      (subst Inv (sym f) (taken-Inv n r v h).0, ap view f ∙ taken-view n r v h)

  pub enqueue-view :
      (bytes : List A) (r : Ring A)
      → Inv r
      → length bytes ≤ get_free_size r
      → Inv (enqueue bytes r).1 × (view (enqueue bytes r).1 ≡ view r ++ bytes)
  enqueue-view bytes r v h =
      let (w, u) = after-Inv bytes r v h in
      let e : (enqueue bytes r).1 ≡ after bytes r = ap (λ q. q.1) (enqueue_fits bytes r h) in
      let n : length (view r) ≡ get_used_size r = length-view r v in
      (
        subst Inv (sym e) w,
        ap view e
            ∙ list_ext (view (after bytes r)) (view r ++ bytes)
                (length-view (after bytes r) w ∙ u ∙ omega (arith, length-append (view r) bytes, n))
                (λ i d l.
                  nth-view (after bytes r) i d w
                    (omega (arith, u, l, n, length-append (view r) bytes))
                  ∙ ap (λ q. nth q i d) (sym e)
                  ∙ enqueue-nth bytes r i d v h (omega (arith, l, n, length-append (view r) bytes))
                  ∙ elim (Bool-cases (ltb i (get_used_size r))) [
                    | inl old ↦ rw old (
                        sym (nth-view r i d v (ground arith))
                        ∙ sym (get_or-append_left (view r) bytes i d (ground (arith, n))))
                    | inr new ↦ rw new (
                        ap (λ k. get_or bytes (i - k) d) (sym n)
                        ∙ sym (get_or-append_right (view r) bytes i d (ground (arith, n))))
                  ]),
      )
