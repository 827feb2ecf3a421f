-- ===== src/Framing/Chunks.antt =====
-- How the bytes are cut into receives does not matter: a division goes on where it waited.
use mo_session_server.Base.{
  Bool-cases, List, [], ap, arith, drop, false, if◌then◌else◌, inl, inr, length, ltb, ltb→lt, suc,
  sym, take, true, zero, ℕ, ◌++◌, ◌<◌, ◌∙◌, ◌≡◌, ◌≤◌, ap₂, length-append, refl, ◌+◌, ◌∷◌, Bool,
  append_assoc, subst,
}
use mo_session_server.Framing.{Event, Place, incomplete, judge, open_frame, whole, refused}
use mo_session_server.Wire.{ServerType, header_size, lan_server, net_server}
use mo_session_server.Framing.Headers.{judge-whole, judge-more, Verdict-cases}
use mo_session_server.Framing.Refinement.{
  Division, parse, divide, parse-zero, parse-short, parse-incomplete, parse-refused, parse-whole,
}
use mo_session_server.Ring.Copy.{length-drop}

unfoldable pub prefixed : List Event → Division → Division
prefixed es d = record d { calls = es ++ d.calls }

pub take_in : (k : ℕ) (v w : List ℕ) → k ≤ length v → take k (v ++ w) ≡ take k v
take_in zero v w h = refl
take_in (suc k) [] w h = absurd (omega arith)
take_in (suc k) (x ∷ v) w h = ap (x ∷◌) (take_in k v w (omega arith))

pub drop_in : (k : ℕ) (v w : List ℕ) → k ≤ length v → drop k (v ++ w) ≡ drop k v ++ w
drop_in zero v w h = refl
drop_in (suc k) [] w h = absurd (omega arith)
drop_in (suc k) (x ∷ v) w h = drop_in k v w (omega arith)

pub prefixed_none : (d : Division) → prefixed [] d ≡ d
unfolding prefixed
prefixed_none d = refl

pub prefixed_twice :
    (es fs : List Event) (d : Division) → prefixed es (prefixed fs d) ≡ prefixed (es ++ fs) d
unfolding prefixed
prefixed_twice es fs d = ap (λ l. record d { calls = l }) (sym (append_assoc es fs d.calls))

module _ (t : ServerType) (p : Place) (code key : ℕ) where
  -- What the front of some bytes makes of a division
  pub data Head (v : List ℕ) : Type 0 where
    stays :
        ((n : ℕ) → parse n t p code key v ≡ record { left = v; calls = []; waiting = true })
        → Head v
    stops :
        (es : List Event)
        → ltb (length v) (header_size t) ≡ false
        → judge t p code (length v) (take (header_size t) v) ≡ refused es
        → ((n : ℕ)
            → parse (suc n) t p code key v ≡ record { left = v; calls = es; waiting = false })
        → Head v
    takes :
        (k : ℕ)
        → 0 < k
        → k ≤ length v
        → ltb (length v) (header_size t) ≡ false
        → judge t p code (length v) (take (header_size t) v) ≡ whole k
        → Head v

  stays_incomplete :
      (v : List ℕ) (n : ℕ)
      → ltb (length v) (header_size t) ≡ false
      → judge t p code (length v) (take (header_size t) v) ≡ incomplete
      → parse n t p code key v ≡ record { left = v; calls = []; waiting = true }
  stays_incomplete v zero h e = parse-zero t p code key v
  stays_incomplete v (suc n) h e = parse-incomplete n t p code key v h e

  pub Head-of : (v : List ℕ) → Head v
  Head-of v = elim (Bool-cases (ltb (length v) (header_size t))) [
    | inl short ↦
        stays (λ n. parse-short n t p code key v (ltb→lt (length v) (header_size t) short))
    | inr long ↦ elim (Verdict-cases (judge t p code (length v) (take (header_size t) v))) [
      | inl e ↦ stays (λ n. stays_incomplete v n long e)
      | inr (inl (es, e)) ↦ stops es long e (λ n. parse-refused n t p code key v long es e)
      | inr (inr (k, e)) ↦
          let (a, b) = judge-whole t p code (length v) (take (header_size t) v) k e in
          takes k (positive t k a) b long e
    ]
  ]
    where
      positive : (t : ServerType) (k : ℕ) → header_size t ≤ k → 0 < k
      positive lan_server k h = omega arith
      positive net_server k h = omega arith

  -- More fuel than bytes is as good as any.
  pub parse-fuel :
      (n m : ℕ) (v : List ℕ)
      → length v < n
      → length v < m
      → parse n t p code key v ≡ parse m t p code key v
  parse-fuel zero m v h l = absurd (omega arith)
  parse-fuel (suc n) zero v h l = absurd (omega arith)
  parse-fuel (suc n) (suc m) v h l = elim (Head-of v) [
    | stays e ↦ e (suc n) ∙ sym (e (suc m))
    | stops es long _ e ↦ e n ∙ sym (e m)
    | takes k a b long e ↦
        let o = open_frame t p key (take k v) in
        parse-whole n t p code key v long k e
        ∙ ap
            (λ d.
              if o.1
              then record d { calls = o.0 ++ d.calls }
              else record { left = drop k v; calls = o.0; waiting = false })
            (parse-fuel n m (drop k v) (omega (arith, length-drop k v))
              (omega (arith, length-drop k v)))
        ∙ sym (parse-whole m t p code key v long k e)
  ]

  -- The division where a message is taken, on more bytes
  pub parse-append_whole :
      (m k : ℕ) (v w : List ℕ)
      → k ≤ length v
      → ltb (length v) (header_size t) ≡ false
      → judge t p code (length v) (take (header_size t) v) ≡ whole k
      → parse (suc m) t p code key (v ++ w) ≡ (
          let rest = parse m t p code key (drop k v ++ w) in
          if (open_frame t p key (take k v)).1
          then prefixed (open_frame t p key (take k v)).0 rest
          else record {
            left = drop k v ++ w;
            calls = (open_frame t p key (take k v)).0;
            waiting = false;
          })
  unfolding prefixed
  parse-append_whole m k v w h long e =
      let n : length (v ++ w) ≡ length v + length w = length-append v w in
      let longer : ltb (length (v ++ w)) (header_size t) ≡ false = ground (arith, n) in
      let same : judge t p code (length (v ++ w)) (take (header_size t) (v ++ w)) ≡ whole k =
        ap₂ (judge t p code) n (take_in (header_size t) v w (ground arith))
        ∙ judge-more t p code (length v) (length w) (take (header_size t) v) k e in
      parse-whole m t p code key (v ++ w) longer k same
      ∙ ap₂
          (λ f r.
            if (open_frame t p key f).1
            then record (parse m t p code key r) {
              calls = (open_frame t p key f).0 ++ (parse m t p code key r).calls;
            }
            else record { left = r; calls = (open_frame t p key f).0; waiting = false })
          (take_in k v w h) (drop_in k v w h)

  append_taken :
      (m l : ℕ) (f : List Event × Bool) (v : List ℕ) (d : Division) (w : List ℕ)
      (whole_v whole_vw : Division)
      → whole_v ≡ (
          if f.1
          then record d { calls = f.0 ++ d.calls }
          else record { left = v; calls = f.0; waiting = false })
      → whole_vw ≡ (
          if f.1
          then prefixed f.0 (parse m t p code key (v ++ w))
          else record { left = v ++ w; calls = f.0; waiting = false })
      → (length (d.left ++ w) < l
          → d.waiting ≡ true
          → parse m t p code key (v ++ w) ≡ prefixed d.calls (parse l t p code key (d.left ++ w)))
      → length (whole_v.left ++ w) < l
      → whole_v.waiting ≡ true
      → whole_vw ≡ prefixed whole_v.calls (parse l t p code key (whole_v.left ++ w))
  append_taken m l (es, false) v d w x y e f ih c g =
      absurd (let z : true ≡ false = sym g ∙ ap (λ d. d.waiting) e in cc)
  append_taken m l (es, true) v d w x y e f ih c g =
      f
      ∙ ap (prefixed es)
          (ih (subst (λ q. length (q.left ++ w) < l) e c) (sym (ap (λ q. q.waiting) e) ∙ g))
      ∙ prefixed_twice es d.calls (parse l t p code key (d.left ++ w))
      ∙ sym (ap (λ q. prefixed q.calls (parse l t p code key (q.left ++ w))) e)

  pub parse-append :
      (n m l : ℕ) (v w : List ℕ)
      → length v < n
      → length (v ++ w) < m
      → length ((parse n t p code key v).left ++ w) < l
      → (parse n t p code key v).waiting ≡ true
      → parse m t p code key (v ++ w)
        ≡ prefixed
            (parse n t p code key v).calls
            (parse l t p code key ((parse n t p code key v).left ++ w))
  parse-append zero m l v w a b c g = absurd (omega arith)
  parse-append (suc n) zero l v w a b c g = absurd (omega arith)
  parse-append (suc n) (suc m) l v w a b c g = elim (Head-of v) [
    | stays e ↦
        let o = e (suc n) in
        parse-fuel (suc m) l (v ++ w) b (subst (λ d. length (d.left ++ w) < l) o c)
        ∙ sym (prefixed_none (parse l t p code key (v ++ w)))
        ∙ sym (ap (λ d. prefixed d.calls (parse l t p code key (d.left ++ w))) o)
    | stops es long _ e ↦ absurd (let z : true ≡ false = sym g ∙ ap (λ d. d.waiting) (e n) in cc)
    | takes k some_bytes h long e ↦
        let f = open_frame t p key (take k v) in
        let d = parse n t p code key (drop k v) in
        append_taken m l f (drop k v) d w (parse (suc n) t p code key v)
          (parse (suc m) t p code key (v ++ w)) (parse-whole n t p code key v long k e)
          (parse-append_whole m k v w h long e)
          (parse-append n m l (drop k v) w (omega (arith, length-drop k v))
            (omega (arith, length-drop k v, length-append v w, length-append (drop k v) w)))
          c g
  ]

-- When the bytes that came first leave the session waiting, what comes later is divided as if all had
-- come at once: the calls for all the bytes are the calls for the first ones, and then those for what
-- these left together with the later ones; the same bytes are left, and it waits or not alike.
pub divide-append :
    (t : ServerType) (p : Place) (code key : ℕ) (v w : List ℕ)
    → (divide t p code key v).waiting ≡ true
    → divide t p code key (v ++ w)
      ≡ prefixed
          (divide t p code key v).calls
          (divide t p code key ((divide t p code key v).left ++ w))
unfolding divide
divide-append t p code key v w g =
    parse-append t p code key (suc (length v)) (suc (length (v ++ w)))
      (suc (length ((divide t p code key v).left ++ w))) v w (omega arith) (omega arith)
      (omega arith) g
