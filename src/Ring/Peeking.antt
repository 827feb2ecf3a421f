-- ===== src/Ring/Peeking.antt =====
-- What RingBuffer::Peek copies.
use mo_session_server.Ring.{Ring, copy_out, get_used_size, peek}
use mo_session_server.Base.{
  ℕ, ◌++◌, ◌≡◌, ◌≤◌, ◌<◌, ◌+◌, ◌-◌, refl, arith, length, get_or, if◌then◌else◌, ltb, ◌∙◌,
  Bool-cases, inl, inr, ap, ◌⊎◌, [], leb, length-append, sym,
}
use mo_session_server.Ring.Copy.{
  get_or-append_left, get_or-append_right, length-copy_out, get_or-copy_out,
}
use mo_session_server.Ring.Fifo.{Inv, nth, get_or-same}

module _ {A : Type 0} where
  -- The bytes that `Peek` gives: all that wait, at most `n`
  abbrev pub given : ℕ → Ring A → ℕ
  given n r = if leb n (get_used_size r) then n else get_used_size r

  pub peek-branches :
      (n k : ℕ) (r : Ring A)
      → Inv r
      → k ≡ given n r
      → (peek n r ≡ copy_out r.buffer r.front k) × (r.front + k ≤ r.size)
        ⊎ (peek n r
            ≡ copy_out r.buffer r.front (r.size - r.front)
              ++ copy_out r.buffer 0 (k - (r.size - r.front)))
          × (r.size ≤ r.front + k)
        ⊎ (peek n r ≡ []) × (k ≡ 0)
  unfolding peek get_used_size
  peek-branches n k r v e = ground (arith, v.front_in, v.rear_in)

  pub given-lt : (n : ℕ) (r : Ring A) → Inv r → (given n r < r.size) × (given n r ≤ get_used_size r)
  unfolding get_used_size
  given-lt n r v = ground (arith, v.front_in, v.rear_in)

  pub length-peek : (n : ℕ) (r : Ring A) → Inv r → length (peek n r) ≡ given n r
  length-peek n r v =
      let k = given n r in
      elim (peek-branches n k r v refl) [
        | inl (e, h) ↦ ap length e ∙ length-copy_out r.buffer r.front k (omega (arith, v.holds))
        | inr (inl (e, h)) ↦
            ap length e
            ∙ length-append (copy_out r.buffer r.front (r.size - r.front))
                (copy_out r.buffer 0 (k - (r.size - r.front)))
            ∙ omega (
              arith,
              given-lt n r v,
              v.front_in,
              length-copy_out r.buffer r.front (r.size - r.front)
                  (omega (arith, v.holds, v.front_in)),
              length-copy_out r.buffer 0 (k - (r.size - r.front))
                  (omega (arith, v.holds, given-lt n r v)),
            )
        | inr (inr (e, h)) ↦ ap length e ∙ sym h
      ]

  pub nth-peek :
      (n : ℕ) (r : Ring A) (i : ℕ) (d : A)
      → Inv r
      → i < given n r
      → get_or (peek n r) i d ≡ nth r i d
  nth-peek n r i d v l =
      let k = given n r in
      let m = r.size - r.front in
      let place = if ltb (r.front + i) r.size then r.front + i else r.front + i - r.size in
      elim (peek-branches n k r v refl) [
        | inl (e, h) ↦
            get_or-same e i i d refl
            ∙ get_or-copy_out r.buffer r.front k i d l
            ∙ ap (λ q. get_or r.buffer q d) {x = r.front + i} {y = place} (ground arith)
        | inr (inl (e, h)) ↦
            let first : length (copy_out r.buffer r.front m) ≡ m =
              length-copy_out r.buffer r.front m (omega (arith, v.holds, v.front_in)) in
            get_or-same e i i d refl ∙ elim (Bool-cases (ltb i m)) [
              | inl lo ↦
                  get_or-append_left (copy_out r.buffer r.front m) (copy_out r.buffer 0 (k - m)) i d
                    (ground (arith, first))
                  ∙ get_or-copy_out r.buffer r.front m i d (ground arith)
                  ∙ ap (λ q. get_or r.buffer q d) {x = r.front + i} {y = place} (ground arith)
              | inr hi ↦
                  get_or-append_right (copy_out r.buffer r.front m) (copy_out r.buffer 0 (k - m)) i
                    d (ground (arith, first))
                  ∙ ap (λ q. get_or (copy_out r.buffer 0 (k - m)) q d) (ap (λ q. i - q) first)
                  ∙ get_or-copy_out r.buffer 0 (k - m) (i - m) d (ground arith)
                  ∙ ap (λ q. get_or r.buffer q d) {x = 0 + (i - m)} {y = place}
                      (ground (arith, v.front_in))
            ]
        | inr (inr (e, h)) ↦ absurd (omega (arith, l, h))
      ]
