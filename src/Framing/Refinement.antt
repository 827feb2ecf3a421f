-- ===== src/Framing/Refinement.antt =====
-- The loop over the ring as a division of the bytes that wait: the messages are a function of these
-- bytes, wherever they lie in the ring.
use mo_session_server.Base.{
  Bool, List, [], ap, drop, false, if◌then◌else◌, length, ltb, lt→ltb, refl, suc, take, true, zero,
  ℕ, ◌++◌, ◌<◌, ◌≡◌, ◌≤◌, Bool-cases, arith, inl, inr, subst, sym, ap₂, ◌∙◌,
}
use mo_session_server.Framing.{
  Event, Place, contents, free, gone, incomplete, judge, moving, open_frame, refused, take_out,
  whole, recv_loop, recv_completion,
}
use mo_session_server.Ring.{enqueue, get_free_size, Ring, get_used_size, peek}
use mo_session_server.Ring.Fifo.{Inv}
use mo_session_server.Framing.Headers.{judge-whole, Verdict-cases}
use mo_session_server.Ring.View.{
  view, enqueue-view, length-view, peek-view, dequeue-view, move_front-view,
}
use mo_session_server.Wire.{ServerType, lan_server, net_server, header_size}

-- The division of a list of bytes: what is left, the calls, and whether it waits for more
pub record Division : Type 0 where
  pub left : List ℕ
  pub calls : List Event
  pub waiting : Bool

unfoldable pub parse : ℕ → ServerType → Place → ℕ → ℕ → List ℕ → Division
parse zero t p code key v = record { left = v; calls = []; waiting = true }
parse (suc n) t p code key v =
    if ltb (length v) (header_size t)
    then record { left = v; calls = []; waiting = true }
    else elim (judge t p code (length v) (take (header_size t) v)) [
      | incomplete ↦ record { left = v; calls = []; waiting = true }
      | refused es ↦ record { left = v; calls = es; waiting = false }
      | whole k ↦
          let (es, goes_on) = open_frame t p key (take k v) in
          let rest = parse n t p code key (drop k v) in
          if goes_on
          then record rest { calls = es ++ rest.calls }
          else record { left = drop k v; calls = es; waiting = false }
    ]

-- With fuel for the bytes
unfoldable pub divide : ServerType → Place → ℕ → ℕ → List ℕ → Division
divide t p code key v = parse (suc (length v)) t p code key v

pub parse-zero :
    (t : ServerType) (p : Place) (code key : ℕ) (v : List ℕ)
    → parse zero t p code key v ≡ record { left = v; calls = []; waiting = true }
unfolding parse
parse-zero t p code key v = refl

pub parse-short :
    (n : ℕ) (t : ServerType) (p : Place) (code key : ℕ) (v : List ℕ)
    → length v < header_size t
    → parse n t p code key v ≡ record { left = v; calls = []; waiting = true }
unfolding parse
parse-short zero t p code key v h = refl
parse-short (suc n) t p code key v h = rw (lt→ltb (length v) (header_size t) h) refl

module _ (n : ℕ) (t : ServerType) (p : Place) (code key : ℕ) (v : List ℕ)
    (h : ltb (length v) (header_size t) ≡ false) where
  pub parse-incomplete :
      judge t p code (length v) (take (header_size t) v) ≡ incomplete
      → parse (suc n) t p code key v ≡ record { left = v; calls = []; waiting = true }
  unfolding parse
  parse-incomplete e = rw (h, e) refl

  pub parse-refused :
      (es : List Event)
      → judge t p code (length v) (take (header_size t) v) ≡ refused es
      → parse (suc n) t p code key v ≡ record { left = v; calls = es; waiting = false }
  unfolding parse
  parse-refused es e = rw (h, e) refl

  pub parse-whole :
      (k : ℕ)
      → judge t p code (length v) (take (header_size t) v) ≡ whole k
      → parse (suc n) t p code key v ≡ (
          let rest = parse n t p code key (drop k v) in
          if (open_frame t p key (take k v)).1
          then record rest { calls = (open_frame t p key (take k v)).0 ++ rest.calls }
          else record {
            left = drop k v;
            calls = (open_frame t p key (take k v)).0;
            waiting = false;
          })
  unfolding parse
  parse-whole k e = rw (h, e) refl

-- What is taken out of a ring
take_out-view :
    (t : ServerType) (p : Place) (key k : ℕ) (q : Ring ℕ)
    → Inv q
    → k ≤ get_used_size q
    → Inv (take_out p k q).1
      × (view (take_out p k q).1 ≡ drop k (view q))
      × (open_frame t p key (take_out p k q).0 ≡ open_frame t p key (take k (view q)))
unfolding take_out open_frame
take_out-view lan_server moving key k q v h = let (i, e) = move_front-view k q v h in (i, e, refl)
take_out-view net_server moving key k q v h = let (i, e) = move_front-view k q v h in (i, e, refl)
take_out-view t free key k q v h =
    let (o, i, e) = dequeue-view k q v h in (i, e, ap (open_frame t free key) o)
take_out-view t contents key k q v h =
    let (o, i, e) = dequeue-view k q v h in (i, e, ap (open_frame t contents key) o)
take_out-view t gone key k q v h =
    let (o, i, e) = dequeue-view k q v h in (i, e, ap (open_frame t gone key) o)

module _ (n : ℕ) (t : ServerType) (p : Place) (code key : ℕ) (q : Ring ℕ) where
  pub recv_loop-short :
      ltb (get_used_size q) (header_size t) ≡ true → recv_loop (suc n) t p code key q ≡ (q, [])
  unfolding recv_loop
  recv_loop-short h = rw h refl

  module _ (h : ltb (get_used_size q) (header_size t) ≡ false) where
    pub recv_loop-incomplete :
        judge t p code (get_used_size q) (peek (header_size t) q) ≡ incomplete
        → recv_loop (suc n) t p code key q ≡ (q, [])
    unfolding recv_loop
    recv_loop-incomplete e = rw (h, e) refl

    pub recv_loop-refused :
        (es : List Event)
        → judge t p code (get_used_size q) (peek (header_size t) q) ≡ refused es
        → recv_loop (suc n) t p code key q ≡ (q, es)
    unfolding recv_loop
    recv_loop-refused es e = rw (h, e) refl

    pub recv_loop-whole :
        (k : ℕ)
        → judge t p code (get_used_size q) (peek (header_size t) q) ≡ whole k
        → recv_loop (suc n) t p code key q ≡ (
            let (frame, rest) = take_out p k q in
            let (es, goes_on) = open_frame t p key frame in
            let (last, more) = recv_loop n t p code key rest in
            if goes_on then (last, es ++ more) else (rest, es))
    unfolding recv_loop
    recv_loop-whole k e = rw (h, e) refl

-- A ring and the calls agree with a division.
unfoldable pub Agrees : Ring ℕ × List Event → Division → Type 0
Agrees (q, es) d = Inv q × (view q ≡ d.left) × (es ≡ d.calls)

Agrees-same :
    (q : Ring ℕ) (v : List ℕ) (es : List Event) (b : Bool)
    → Inv q
    → view q ≡ v
    → Agrees (q, es) (record { left = v; calls = es; waiting = b })
unfolding Agrees
Agrees-same q v es b i e = (i, e, refl)

Agrees-if :
    (b : Bool) (es : List Event) (m : Ring ℕ × List Event) (rest : Ring ℕ) (d : Division)
    (v : List ℕ)
    → Agrees m d
    → Inv rest
    → view rest ≡ v
    → Agrees (if b then (m.0, es ++ m.1) else (rest, es)) (
        if b
        then record d { calls = es ++ d.calls }
        else record { left = v; calls = es; waiting = false })
unfolding Agrees
Agrees-if true es m rest d v (i, e, f) j g = (i, e, ap (es ++◌) f)
Agrees-if false es m rest d v (i, e, f) j g = (j, g, refl)

Agrees-by :
    {a a' : Ring ℕ × List Event} {d d' : Division} → a ≡ a' → d ≡ d' → Agrees a' d' → Agrees a d
Agrees-by {a} {d' = d'} e f g = subst (Agrees a) (sym f) (subst (λ x. Agrees x d') (sym e) g)

recv_loop-zero :
    (t : ServerType) (p : Place) (code key : ℕ) (q : Ring ℕ)
    → Inv q
    → Agrees (recv_loop zero t p code key q) (parse zero t p code key (view q))
unfolding recv_loop parse
recv_loop-zero t p code key q i = Agrees-same q (view q) [] true i refl

-- With the same fuel, the loop leaves in the ring what the division leaves, and makes its calls.
pub recv_loop-parse :
    (n : ℕ) (t : ServerType) (p : Place) (code key : ℕ) (q : Ring ℕ)
    → Inv q
    → Agrees (recv_loop n t p code key q) (parse n t p code key (view q))
recv_loop-parse zero t p code key q i = recv_loop-zero t p code key q i
recv_loop-parse (suc n) t p code key q i =
    let v = view q in
    let m : length v ≡ get_used_size q = length-view q i in
    elim (Bool-cases (ltb (get_used_size q) (header_size t))) [
      | inl short ↦
          Agrees-by (recv_loop-short n t p code key q short)
            (parse-short (suc n) t p code key v (ground (arith, m)))
            (Agrees-same q v [] true i refl)
      | inr long ↦
          let long' : ltb (length v) (header_size t) ≡ false = rw m long in
          let same : judge t p code (length v) (take (header_size t) v)
              ≡ judge t p code (get_used_size q) (peek (header_size t) q) =
            ap₂ (judge t p code) m (sym (peek-view (header_size t) q i (ground arith))) in
          elim (Verdict-cases (judge t p code (get_used_size q) (peek (header_size t) q))) [
            | inl e ↦
                Agrees-by (recv_loop-incomplete n t p code key q long e)
                  (parse-incomplete n t p code key v long' (same ∙ e))
                  (Agrees-same q v [] true i refl)
            | inr (inl (es, e)) ↦
                Agrees-by (recv_loop-refused n t p code key q long es e)
                  (parse-refused n t p code key v long' es (same ∙ e))
                  (Agrees-same q v es false i refl)
            | inr (inr (k, e)) ↦
                let (j, f, g) =
                  take_out-view t p key k q i
                    (judge-whole t p code (get_used_size q) (peek (header_size t) q) k e).1 in
                Agrees-by (recv_loop-whole n t p code key q long k e)
                  (parse-whole n t p code key v long' k (same ∙ e)
                    ∙ ap₂
                        (λ o r.
                          if o.1
                          then record (parse n t p code key r) {
                            calls = o.0 ++ (parse n t p code key r).calls;
                          }
                          else record { left = r; calls = o.0; waiting = false })
                        (sym g) (sym f))
                  (Agrees-if (open_frame t p key (take_out p k q).0).1
                    (open_frame t p key (take_out p k q).0).0
                    (recv_loop n t p code key (take_out p k q).1) (take_out p k q).1
                    (parse n t p code key (view (take_out p k q).1)) (view (take_out p k q).1)
                    (recv_loop-parse n t p code key (take_out p k q).1 j) j refl)
          ]
    ]

-- The bytes that come in, behind those that wait in the ring, are divided into messages as one list:
-- the calls of RecvCompletion are those of the division, in its order, and the ring keeps what it
-- leaves. The bytes fit into the ring's free space.
pub recv_completion-divide :
    (t : ServerType) (p : Place) (code key : ℕ) (bytes : List ℕ) (q : Ring ℕ)
    → Inv q
    → length bytes ≤ get_free_size q
    → Agrees (recv_completion t p code key bytes q) (divide t p code key (view q ++ bytes))
unfolding recv_completion divide
recv_completion-divide t p code key bytes q i h =
    let (j, e) = enqueue-view bytes q i h in
    let q1 = (enqueue bytes q).1 in
    Agrees-by refl
      (ap₂ (λ n v. parse (suc n) t p code key v) (ap length (sym e) ∙ length-view q1 j) (sym e))
      (recv_loop-parse (suc (get_used_size q1)) t p code key q1 j)
