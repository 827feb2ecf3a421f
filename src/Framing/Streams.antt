-- ===== src/Framing/Streams.antt =====
-- Receives one after the other, as a division of all their bytes.
use mo_session_server.Base.{
  List, [], ap, append-nil, append_assoc, ap₂, arith, drop, false, if◌then◌else◌, length, ltb, refl,
  subst, suc, sym, take, true, ℕ, ◌++◌, ◌<◌, ◌∙◌, ◌∷◌, ◌≡◌, ◌≤◌,
}
use mo_session_server.Framing.{Event, Place, judge, open_frame, recv_completion, whole}
use mo_session_server.Ring.{Ring, get_free_size}
use mo_session_server.Ring.Fifo.{Inv}
use mo_session_server.Ring.View.{view}
use mo_session_server.Ring.Copy.{length-drop}
use mo_session_server.Wire.{ServerType, header_size}
use mo_session_server.Framing.Refinement.{
  parse, divide, parse-whole, Agrees, recv_completion-divide,
}
use mo_session_server.Framing.Chunks.{prefixed, divide-append, parse-fuel}
use mo_session_server.Framing.Stopped.{divide-waiting, divide-left}

abbrev pub flatten : List (List ℕ) → List ℕ
flatten [] = []
flatten (x ∷ xs) = x ++ flatten xs

-- The calls of RecvCompletion over several receives, and that each fits into the free space
unfoldable pub receives : ServerType → Place → ℕ → ℕ → List (List ℕ) → Ring ℕ → Ring ℕ × List Event
receives t p code key [] q = (q, [])
receives t p code key (c ∷ cs) q =
    let (q1, es) = recv_completion t p code key c q in
    let (q2, fs) = receives t p code key cs q1 in (q2, es ++ fs)

abbrev pub Fits : ServerType → Place → ℕ → ℕ → List (List ℕ) → Ring ℕ → Type 0
Fits t p code key [] q = Unit
Fits t p code key (c ∷ cs) q =
    (length c ≤ get_free_size q) × Fits t p code key cs (recv_completion t p code key c q).0

module _ (t : ServerType) (p : Place) (code key : ℕ) where
  -- A message at the front of a stream
  pub divide-whole :
      (k : ℕ) (v w : List ℕ) (es : List Event)
      → ltb (length v) (header_size t) ≡ false
      → judge t p code (length v) (take (header_size t) v) ≡ whole k
      → 0 < k
      → k ≤ length v
      → open_frame t p key (take k v) ≡ (es, true)
      → drop k v ≡ w
      → divide t p code key v ≡ prefixed es (divide t p code key w)
  unfolding divide prefixed
  divide-whole k v w es long e pos_k h o r =
      parse-whole (length v) t p code key v long k e
      ∙ ap₂
          (λ f u.
            let rest = parse (length v) t p code key u in
            if f.1
            then record rest { calls = f.0 ++ rest.calls }
            else record { left = u; calls = f.0; waiting = false })
          o r
      ∙ ap (prefixed es) (
          parse-fuel t p code key (length v) (suc (length w)) w
            (omega (arith, ap length r, length-drop k v)) (omega arith))

  -- Several receives are divided as one, when the bytes leave the session waiting.
  pub receives-divide :
      (chunks : List (List ℕ)) (q : Ring ℕ)
      → Inv q
      → Fits t p code key chunks q
      → divide t p code key (view q) ≡ record { left = view q; calls = []; waiting = true }
      → (divide t p code key (view q ++ flatten chunks)).waiting ≡ true
      → Agrees (receives t p code key chunks q) (divide t p code key (view q ++ flatten chunks))
  unfolding receives Agrees prefixed
  receives-divide [] q i _ quiet g =
      subst (Agrees (q, [])) (sym (ap (divide t p code key) (append-nil (view q)) ∙ quiet))
        (i, refl, refl)
  receives-divide (c ∷ cs) q i (fit, fits) quiet g =
      let v = view q ++ c in
      let d = divide t p code key v in
      let q1 = (recv_completion t p code key c q).0 in
      let (j, e, f) : Agrees (recv_completion t p code key c q) d =
        recv_completion-divide t p code key c q i fit in
      let split : view q ++ flatten (c ∷ cs) ≡ v ++ flatten cs =
        sym (append_assoc (view q) c (flatten cs)) in
      let g1 : (divide t p code key (v ++ flatten cs)).waiting ≡ true =
        ap (λ l. (divide t p code key l).waiting) (sym split) ∙ g in
      let g2 : d.waiting ≡ true = divide-waiting t p code key v (flatten cs) g1 in
      let joined : divide t p code key (view q ++ flatten (c ∷ cs))
          ≡ prefixed d.calls (divide t p code key (view q1 ++ flatten cs)) =
        ap (divide t p code key) split
        ∙ divide-append t p code key v (flatten cs) g2
        ∙ ap (λ l. prefixed d.calls (divide t p code key (l ++ flatten cs))) (sym e) in
      let quiet1 : divide t p code key (view q1)
          ≡ record { left = view q1; calls = []; waiting = true } =
        ap (divide t p code key) e
        ∙ divide-left t p code key v g2
        ∙ ap (λ l. record { left = l; calls = []; waiting = true }) (sym e) in
      let g3 : (divide t p code key (view q1 ++ flatten cs)).waiting ≡ true =
        sym (ap (λ r. r.waiting) joined) ∙ g in
      let (j2, e2, f2) = receives-divide cs q1 j fits quiet1 g3 in
      subst (Agrees (receives t p code key (c ∷ cs) q)) (sym joined) (j2, e2, ap₂ ◌++◌ f f2)
