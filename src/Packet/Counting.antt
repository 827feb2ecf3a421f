-- ===== src/Packet/Counting.antt =====
-- The reference count of a message buffer, from the `CPacket` of a proxy function over the send queues
-- of the sessions to their completions (Common/SerialBuffer.h, Common/CPacket.cpp, and SendPacket,
-- SendCompletion and ClearSendQ of Libraries/ContentLibB/ContentsServer.cpp).
use mo_session_server.Base.{
  Bool, List, [], ap, arith, false, if◌then◌else◌, refl, suc, true, zero, ℕ, ◌+◌, ◌-◌, ◌==◌, ◌∙◌,
  ◌∷◌, ◌≡◌,
}

-- `refcnt`, how often the buffer was given back to the pool, and whether the count fell below 0, where
-- the source breaks into the debugger
pub record Counted : Type 0 where
  pub refcnt : ℕ
  pub freed : ℕ
  pub broken : Bool

-- `AddRefcnt`
unfoldable pub add_refcnt : ℕ → Counted → Counted
add_refcnt n c = record c { refcnt = c.refcnt + n }

-- `DecRefcnt`
unfoldable pub dec_refcnt : Counted → Counted
dec_refcnt c =
    if c.refcnt == 0
    then record c { broken = true }
    else record c { refcnt = c.refcnt - 1; freed = if c.refcnt == 1 then c.freed + 1 else c.freed }

-- How SendPacket ends: the session is gone or about to be disconnected, its queue is full, or the
-- message is in the queue
pub data Sent : Type 0 where
  not_there queue_full in_queue : Sent

-- SendPacket between the copy of its argument and the end of it
unfoldable pub count_send : Sent → Counted → Counted
count_send not_there c = c
count_send queue_full c = dec_refcnt (dec_refcnt (add_refcnt 1 (add_refcnt 1 c)))
count_send in_queue c = dec_refcnt (add_refcnt 1 (add_refcnt 1 c))

-- SendPacket with the copy constructor and the destructor of its argument
unfoldable pub send_copy : Sent → Counted → Counted
send_copy o c = dec_refcnt (count_send o (add_refcnt 1 c))

-- What happens to the buffer while the proxy sends it: one more SendPacket, or a queue lets it go, by
-- a completion or because its session is released
pub data Happening : Type 0 where
  sends : Sent → Happening
  lets_go : Happening

abbrev queues_after : Sent → ℕ → ℕ
queues_after in_queue n = suc n
queues_after _ n = n

-- The count and how many queues and boxes hold the buffer
unfoldable pub happen : List Happening → Counted × ℕ → Counted × ℕ
happen [] s = s
happen (sends o ∷ hs) (c, n) = happen hs (send_copy o c, queues_after o n)
happen (lets_go ∷ hs) (c, zero) = happen hs (c, zero)
happen (lets_go ∷ hs) (c, suc n) = happen hs (dec_refcnt c, n)

-- The queues that hold the buffer let it go one after the other.
unfoldable pub let_go : ℕ → Counted → Counted
let_go zero c = c
let_go (suc n) c = let_go n (dec_refcnt c)

-- A proxy function, from the constructor of its packet to the destructor, and what the queues do after
unfoldable pub proxy_life : List Happening → Counted → Counted
proxy_life hs c = let (d, n) = happen hs (add_refcnt 1 c, zero) in let_go n (dec_refcnt d)

-- The count of a buffer that the proxy's packet and some queues hold
abbrev held : ℕ → Counted
held n = record { refcnt = suc n; freed = 0; broken = false }

dec-held : (n : ℕ) → dec_refcnt (held (suc n)) ≡ held n
unfolding dec_refcnt
dec-held n =
    let a : (suc (suc n) == 0) ≡ false = ground arith in
    let b : (suc (suc n) == 1) ≡ false = ground arith in
    rw (a, b) (ap (λ k. record { refcnt = k; freed = 0; broken = false }) (omega arith))

add-held : (n : ℕ) → add_refcnt 1 (held n) ≡ held (suc n)
unfolding add_refcnt
add-held n = ap (λ k. record { refcnt = k; freed = 0; broken = false }) (omega arith)

send_copy-held : (o : Sent) (n : ℕ) → send_copy o (held n) ≡ held (queues_after o n)
unfolding send_copy count_send
send_copy-held not_there n = rw (add-held n, dec-held n) refl
send_copy-held queue_full n =
    rw
      (
        add-held n,
        add-held (suc n),
        add-held (suc (suc n)),
        dec-held (suc (suc n)),
        dec-held (suc n),
        dec-held n,
      )
      refl
send_copy-held in_queue n =
    rw
      (
        add-held n,
        add-held (suc n),
        add-held (suc (suc n)),
        dec-held (suc (suc n)),
        dec-held (suc n),
      )
      refl

happen-held : (hs : List Happening) (n : ℕ) → (k : ℕ) × (happen hs (held n, n) ≡ (held k, k))
unfolding happen
happen-held [] n = (n, refl)
happen-held (sends o ∷ hs) n =
    let (k, e) = happen-held hs (queues_after o n) in
    (k, ap (λ c. happen hs (c, queues_after o n)) (send_copy-held o n) ∙ e)
happen-held (lets_go ∷ hs) zero = happen-held hs zero
happen-held (lets_go ∷ hs) (suc n) =
    let (k, e) = happen-held hs n in (k, ap (λ c. happen hs (c, n)) (dec-held n) ∙ e)

abbrev pub freed_once : Counted
freed_once = record { refcnt = 0; freed = 1; broken = false }

dec-last : dec_refcnt (held zero) ≡ freed_once
unfolding dec_refcnt
dec-last = refl

let_go-held : (n : ℕ) → let_go n (dec_refcnt (held n)) ≡ freed_once
unfolding let_go
let_go-held zero = dec-last
let_go-held (suc n) = ap (let_go (suc n)) (dec-held n) ∙ let_go-held n

-- Whatever becomes of the sends of a proxy function, and whenever the queues let the message go, the
-- buffer that it took from the pool is given back exactly once, when the last one that holds it lets
-- it go, and its count is then 0 and was never below.
pub proxy_life-freed_once :
    (hs : List Happening)
    → proxy_life hs (record { refcnt = 0; freed = 0; broken = false }) ≡ freed_once
unfolding proxy_life add_refcnt
proxy_life-freed_once hs =
    let (k, e) = happen-held hs zero in ap (λ s. let_go s.1 (dec_refcnt s.0)) e ∙ let_go-held k
