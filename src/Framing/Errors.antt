-- ===== src/Framing/Errors.antt =====
-- What RecvCompletion does with bytes that are no messages, and with messages that it cuts short.
use mo_session_server.Base.{
  Bool, Bool-cases, List, [], arith, drop, false, get_or, inl, inr, length, ltb, refl, true, ℕ,
  ◌++◌, ◌+◌, ◌<◌, ◌∷◌, ◌≡◌, ◌≤◌, ap, append_assoc, ap₂, if◌then◌else◌, leb, map-append, subst, suc,
  sym, take, zero, ◌∙◌, ◌⊎◌,
}
use mo_session_server.Framing.{
  Event, Place, contents, disconnect, free, gone, judge, moving, open_frame, overrun, refused,
  unusual, whole, check_code, check_len, deliver, recv_completion,
}
use mo_session_server.Ring.{Ring, get_free_size}
use mo_session_server.Ring.Fifo.{Inv}
use mo_session_server.Ring.View.{view}
use mo_session_server.Ring.Copy.{length-take}
use mo_session_server.Packet.{buffer_default}
use mo_session_server.Wire.{ServerType, header_size, lan_server, net_server, len_of, decode}
use mo_session_server.Wire.Cipher.{IsBytes}
use mo_session_server.Framing.Refinement.{
  Division, parse, divide, parse-zero, parse-whole, Agrees, recv_completion-divide,
}
use mo_session_server.Framing.Chunks.{Head-of, stays, stops, takes}
use mo_session_server.Framing.Delivery.{delivered}

-- How the calls of a receive end, besides the messages: a LAN server never refuses bytes, and a write
-- behind the message buffer is possible in a contents of a NET server alone.
pub data IsEnding : ServerType → Place → List Event → Type 0 where
  waits : {t : ServerType} {p : Place} → IsEnding t p []
  too_long : {p : Place} → IsEnding net_server p (disconnect ∷ [])
  no_message : {p : Place} → IsEnding net_server p (unusual ∷ disconnect ∷ [])
  outside : IsEnding net_server contents (overrun ∷ [])

-- Messages, and then an ending
pub IsOrderly : ServerType → Place → List Event → Type 0
IsOrderly t p es =
    (xs : List (List ℕ)) × (end : List Event) × (es ≡ delivered xs ++ end) × IsEnding t p end

code_refusal :
    (code used : ℕ) (h : List ℕ) (es : List Event)
    → check_code code used h ≡ refused es
    → unusual ∷ disconnect ∷ [] ≡ es
code_refusal code used h es e = ground arith

code-IsEnding :
    (p : Place) (code used : ℕ) (h : List ℕ) (es : List Event)
    → check_code code used h ≡ refused es
    → IsEnding net_server p es
code-IsEnding p code used h es e =
    subst (IsEnding net_server p) (code_refusal code used h es e) no_message

len_refusal :
    (code used : ℕ) (h : List ℕ) (es : List Event)
    → check_len code used h ≡ refused es
    → (disconnect ∷ [] ≡ es) ⊎ (check_code code used h ≡ refused es)
len_refusal code used h es e = elim (Bool-cases (leb buffer_default (len_of h + 5))) [
  | inl long ↦ inl (ground arith)
  | inr small ↦
      inr
        (let same : check_len code used h ≡ check_code code used h = rw small refl in sym same ∙ e)
]

len-IsEnding :
    (p : Place) (code used : ℕ) (h : List ℕ) (es : List Event)
    → check_len code used h ≡ refused es
    → IsEnding net_server p es
len-IsEnding p code used h es e = elim (len_refusal code used h es e) [
  | inl f ↦ subst (IsEnding net_server p) f too_long
  | inr f ↦ code-IsEnding p code used h es f
]

refused-IsEnding :
    (t : ServerType) (p : Place) (code used : ℕ) (h : List ℕ) (es : List Event)
    → judge t p code used h ≡ refused es
    → IsEnding t p es
unfolding judge
refused-IsEnding lan_server free code used h es e = ground arith
refused-IsEnding lan_server contents code used h es e = ground arith
refused-IsEnding lan_server moving code used h es e = ground arith
refused-IsEnding lan_server gone code used h es e = ground arith
refused-IsEnding net_server free code used h es e = len-IsEnding free code used h es e
refused-IsEnding net_server contents code used h es e = code-IsEnding contents code used h es e
refused-IsEnding net_server moving code used h es e = len-IsEnding moving code used h es e
refused-IsEnding net_server gone code used h es e = ground arith

-- The size that a message buffer has for a message
abbrev IsSafe : ServerType → Place → ℕ → Type 0
IsSafe lan_server p k = 3 + k ≤ buffer_default
IsSafe net_server free k = k ≤ buffer_default
IsSafe net_server _ k = Unit

whole-IsSafe :
    (t : ServerType) (p : Place) (code used : ℕ) (h : List ℕ) (k : ℕ)
    → get_or h 1 0 < 256
    → judge t p code used h ≡ whole k
    → IsSafe t p k
unfolding judge
whole-IsSafe lan_server free code used h k b e = ground arith
whole-IsSafe lan_server contents code used h k b e = ground arith
whole-IsSafe lan_server moving code used h k b e = ground arith
whole-IsSafe lan_server gone code used h k b e = ground arith
whole-IsSafe net_server free code used h k b e = ground arith
whole-IsSafe net_server contents code used h k b e = tt
whole-IsSafe net_server moving code used h k b e = tt
whole-IsSafe net_server gone code used h k b e = tt

abbrev IsOpened : ServerType → Place → List Event × Bool → Type 0
IsOpened t p (es, true) = (xs : List (List ℕ)) × (es ≡ delivered xs)
IsOpened t p (es, false) = IsEnding t p es

open_frame-IsOpened :
    (t : ServerType) (p : Place) (key : ℕ) (f : List ℕ)
    → IsSafe t p (length f)
    → IsOpened t p (open_frame t p key f)
unfolding open_frame
open_frame-IsOpened lan_server moving key f s = ([], refl)
open_frame-IsOpened net_server moving key f s = ([], refl)
open_frame-IsOpened lan_server gone key f s = waits
open_frame-IsOpened net_server gone key f s = waits
open_frame-IsOpened lan_server free key f s =
    let small : ltb buffer_default (3 + length f) ≡ false = ground arith in
    rw small (drop 2 f ∷ [], refl)
open_frame-IsOpened lan_server contents key f s =
    let small : ltb buffer_default (3 + length f) ≡ false = ground arith in
    rw small (drop 2 f ∷ [], refl)
open_frame-IsOpened net_server free key f s =
    let small : ltb buffer_default (length f) ≡ false = ground arith in
    rw small (elim (Bool-cases (decode key f).0) [
      | inl e ↦ rw e (drop 5 (decode key f).1 ∷ [], refl)
      | inr e ↦ rw e no_message
    ])
open_frame-IsOpened net_server contents key f s =
    elim (Bool-cases (ltb buffer_default (length f))) [
      | inl long ↦ rw long outside
      | inr small ↦ rw small (elim (Bool-cases (decode key f).0) [
        | inl e ↦ rw e (drop 5 (decode key f).1 ∷ [], refl)
        | inr e ↦ rw e no_message
      ])
    ]

get_or-byte : (xs : List ℕ) (i : ℕ) → IsBytes xs → get_or xs i 0 < 256
get_or-byte [] i h = omega arith
get_or-byte (x ∷ xs) zero (h, hs) = h
get_or-byte (x ∷ xs) (suc i) (h, hs) = get_or-byte xs i hs

take-IsBytes : (k : ℕ) (xs : List ℕ) → IsBytes xs → IsBytes (take k xs)
take-IsBytes zero xs h = tt
take-IsBytes (suc k) [] h = tt
take-IsBytes (suc k) (x ∷ xs) (h, hs) = (h, take-IsBytes k xs hs)

drop-IsBytes : (k : ℕ) (xs : List ℕ) → IsBytes xs → IsBytes (drop k xs)
drop-IsBytes zero xs h = h
drop-IsBytes (suc k) [] h = tt
drop-IsBytes (suc k) (x ∷ xs) (h, hs) = drop-IsBytes k xs hs

IsOrderly-if :
    (t : ServerType) (p : Place) (o : List Event × Bool) (d : Division) (v : List ℕ)
    → IsOpened t p o
    → IsOrderly t p d.calls
    → IsOrderly t p
        (if o.1
          then record d { calls = o.0 ++ d.calls }
          else record { left = v; calls = o.0; waiting = false }).calls
unfolding IsOrderly
IsOrderly-if t p (es, true) d v (xs, e) (ys, end, f, g) = (
  xs ++ ys,
  end,
  ap₂ ◌++◌ e f
      ∙ sym (append_assoc (delivered xs) (delivered ys) end)
      ∙ ap (◌++ end) (sym (map-append deliver xs ys)),
  g,
)
IsOrderly-if t p (es, false) d v g h = ([], es, refl, g)

parse-IsOrderly :
    (n : ℕ) (t : ServerType) (p : Place) (code key : ℕ) (v : List ℕ)
    → IsBytes v
    → IsOrderly t p (parse n t p code key v).calls
unfolding IsOrderly
parse-IsOrderly zero t p code key v h =
    ([], [], ap (λ d. d.calls) (parse-zero t p code key v), waits)
parse-IsOrderly (suc n) t p code key v h = elim (Head-of t p code key v) [
  | stays e ↦ ([], [], ap (λ d. d.calls) (e (suc n)), waits)
  | stops es long j e ↦ (
    [],
    es,
    ap (λ d. d.calls) (e n),
    refused-IsEnding t p code (length v) (take (header_size t) v) es j,
  )
  | takes k some_bytes l long e ↦
      subst (λ d. IsOrderly t p d.calls) (sym (parse-whole n t p code key v long k e))
        (IsOrderly-if t p (open_frame t p key (take k v)) (parse n t p code key (drop k v))
          (drop k v)
          (open_frame-IsOpened t p key (take k v) (
            subst (IsSafe t p) (sym (length-take k v l)) (
              whole-IsSafe t p code (length v) (take (header_size t) v) k
                (get_or-byte (take (header_size t) v) 1 (take-IsBytes (header_size t) v h)) e)))
          (parse-IsOrderly n t p code key (drop k v) (drop-IsBytes k v h)))
]

-- Whatever bytes wait and come in, and fit into the free space, the calls of RecvCompletion are
-- messages given to ProcMessage, and after the last of them at most one refusal: a disconnect, or an
-- unusual session and its disconnect, which only a NET server makes. No write leaves the message
-- buffer, except in a contents of a NET server.
pub recv_completion-IsOrderly :
    (t : ServerType) (p : Place) (code key : ℕ) (bytes : List ℕ) (q : Ring ℕ)
    → Inv q
    → length bytes ≤ get_free_size q
    → IsBytes (view q ++ bytes)
    → IsOrderly t p (recv_completion t p code key bytes q).1
unfolding Agrees divide
recv_completion-IsOrderly t p code key bytes q i fits h =
    let (j, e, f) = recv_completion-divide t p code key bytes q i fits in
    subst (IsOrderly t p) (sym f)
      (parse-IsOrderly (suc (length (view q ++ bytes))) t p code key (view q ++ bytes) h)
