-- ===== src/Framing/Stopped.antt =====
-- A division that stopped stays as it is when more bytes come.
use mo_session_server.Base.{
  Bool, Bool-cases, List, [], ap, append-nil, ap₂, arith, drop, false, if◌then◌else◌, inl, inr,
  length, length-append, ltb, suc, sym, take, true, zero, ℕ, ◌++◌, ◌+◌, ◌<◌, ◌∙◌, ◌∷◌, ◌≡◌,
}
use mo_session_server.Framing.{Event, Place, judge, open_frame}
use mo_session_server.Wire.{ServerType, header_size}
use mo_session_server.Framing.Headers.{judge-refused}
use mo_session_server.Framing.Refinement.{Division, parse, divide, parse-refused, parse-whole}
use mo_session_server.Framing.Chunks.{
  stays, stops, takes, Head-of, take_in, parse-append_whole, prefixed, divide-append,
}
use mo_session_server.Ring.Copy.{length-drop}

module _ (t : ServerType) (p : Place) (code key : ℕ) where
  stopped_if :
      (f : List Event × Bool) (d e : Division) (v w : List ℕ) (whole_v whole_vw : Division)
      → whole_v ≡ (
          if f.1
          then record d { calls = f.0 ++ d.calls }
          else record { left = v; calls = f.0; waiting = false })
      → whole_vw
        ≡ (if f.1 then prefixed f.0 e else record { left = w; calls = f.0; waiting = false })
      → (d.waiting ≡ false → e.waiting ≡ false)
      → whole_v.waiting ≡ false
      → whole_vw.waiting ≡ false
  unfolding prefixed
  stopped_if (es, true) d e v w x y a b ih g =
      ap (λ q. q.waiting) b ∙ ih (sym (ap (λ q. q.waiting) a) ∙ g)
  stopped_if (es, false) d e v w x y a b ih g = ap (λ q. q.waiting) b

  pub parse-stopped :
      (n m : ℕ) (v w : List ℕ)
      → length v < n
      → length (v ++ w) < m
      → (parse n t p code key v).waiting ≡ false
      → (parse m t p code key (v ++ w)).waiting ≡ false
  parse-stopped zero m v w a b g = absurd (omega arith)
  parse-stopped (suc n) zero v w a b g = absurd (omega arith)
  parse-stopped (suc n) (suc m) v w a b g = elim (Head-of t p code key v) [
    | stays e ↦ absurd (let z : true ≡ false = sym (ap (λ d. d.waiting) (e (suc n))) ∙ g in cc)
    | stops es long e f ↦
        let k : length (v ++ w) ≡ length v + length w = length-append v w in
        let longer : ltb (length (v ++ w)) (header_size t) ≡ false = ground (arith, k) in
        ap (λ d. d.waiting)
          (parse-refused m t p code key (v ++ w) longer es (
            ap₂ (judge t p code) k (take_in (header_size t) v w (ground arith))
            ∙ judge-refused t p code (length v) (length w) (take (header_size t) v) es e))
    | takes k some_bytes h long e ↦
        stopped_if (open_frame t p key (take k v)) (parse n t p code key (drop k v))
          (parse m t p code key (drop k v ++ w)) (drop k v) (drop k v ++ w)
          (parse (suc n) t p code key v) (parse (suc m) t p code key (v ++ w))
          (parse-whole n t p code key v long k e) (parse-append_whole t p code key m k v w h long e)
          (parse-stopped n m (drop k v) w (omega (arith, length-drop k v))
            (omega (arith, length-drop k v, length-append v w, length-append (drop k v) w)))
          g
  ]

  -- Bytes that leave a session waiting do so from the first.
  pub divide-waiting :
      (v w : List ℕ)
      → (divide t p code key (v ++ w)).waiting ≡ true
      → (divide t p code key v).waiting ≡ true
  unfolding divide
  divide-waiting v w g = elim (Bool-cases (divide t p code key v).waiting) [
    | inl e ↦ e
    | inr e ↦ absurd (
        let z : false ≡ true =
          sym (
            parse-stopped (suc (length v)) (suc (length (v ++ w))) v w (omega arith) (omega arith)
              e)
          ∙ g in
        cc)
  ]

  no_more : (es fs : List Event) → es ≡ es ++ fs → fs ≡ []
  no_more [] fs e = sym e
  no_more (x ∷ es) fs e = no_more es fs (cc)

  -- What a session waits with holds no message.
  pub divide-left :
      (v : List ℕ)
      → (divide t p code key v).waiting ≡ true
      → divide t p code key (divide t p code key v).left
        ≡ record { left = (divide t p code key v).left; calls = []; waiting = true }
  unfolding prefixed
  divide-left v g =
      let d = divide t p code key v in
      let r = divide t p code key (d.left ++ []) in
      let e : d ≡ prefixed d.calls r =
        ap (divide t p code key) (sym (append-nil v)) ∙ divide-append t p code key v [] g in
      let nothing : r.calls ≡ [] = no_more d.calls r.calls (ap (λ q. q.calls) e) in
      ap (divide t p code key) (sym (append-nil d.left))
      ∙ ap₂ (λ l c. record { left = l; calls = c; waiting = r.waiting }) (sym (ap (λ q. q.left) e))
          nothing
      ∙ ap (λ b. record { left = d.left; calls = []; waiting = b })
          (sym (ap (λ q. q.waiting) e) ∙ g)
