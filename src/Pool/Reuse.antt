-- ===== src/Pool/Reuse.antt =====
-- That the tag of the head is no version: it goes back when nodes are taken.
use mo_session_server.Base.{
  some, ℕ, ◌+◌, ◌<◌, ◌≡◌, ◌≢◌, ==_self, ap, arith, false, refl, true, ◌%◌, ◌==◌, ◌^◌, ◌∙◌,
}
use mo_session_server.Pool.{Pool, alloc, exchange, free, snapshot, link_to, next_tag, same_link}
use mo_session_server.Pool.Chain.{alloc-taken, same_link_self}

-- The pool after an `Alloc`
abbrev pub after : Pool → Pool
after p = record p { head = p.next p.head.addr; using_count = p.using_count + 1 }

-- What is behind the two nodes, and what the head is when one is put back in the place of two
two_returned :
    (q : Pool) (a b : ℕ)
    → b ≢ a
    → let p = free a (free b q) in
      ((after p).head ≡ record { tag = next_tag q.head; addr = b })
      × ((after (after p)).head ≡ q.head)
      × ((x : ℕ) → (free a (free x (after (after p)))).head ≡ p.head)
unfolding free
two_returned q a b ab =
    let f : (b == a) ≡ false = ground arith in
    let e : link_to (link_to q.next b q.head) a (record { tag = next_tag q.head; addr = b }) a
        ≡ record { tag = next_tag q.head; addr = b } =
      rw (==_self a) refl in
    let g : link_to (link_to q.next b q.head) a (record { tag = next_tag q.head; addr = b }) b
        ≡ q.head =
      rw (f, ==_self b) refl in
    let h =
      ap (link_to (link_to q.next b q.head) a (record { tag = next_tag q.head; addr = b }))
        (ap (λ l. l.addr) e)
      ∙ g in
    (e, h, λ x. ap (λ l. record { tag = ((l.tag + 1) % 2 ^ 16 + 1) % 2 ^ 16; addr = a }) h)

exchanged :
    (p r : Pool)
    → same_link r.head p.head ≡ true
    → exchange (snapshot p) r
      ≡ some (p.head.addr, record r { head = p.next p.head.addr; using_count = r.using_count + 1 })
unfolding exchange snapshot
exchanged p r e = rw e refl

-- A thread in Alloc has read the head of a pool to which b and then a were returned last. Then another
-- thread takes a and b and returns any third node x, and a. The exchange of the first thread succeeds
-- all the same: it is given a, and b, which is still in use, is the head of the pool.
pub exchange-free :
    (q : Pool) (a b x : ℕ)
    → 0 < a
    → 0 < b
    → b ≢ a
    → let p = free a (free b q) in
      (alloc p ≡ some (a, after p))
      × (alloc (after p) ≡ some (b, after (after p)))
      × (r : Pool) × (exchange (snapshot p) (free a (free x (after (after p)))) ≡ some (a, r))
      × (r.head.addr ≡ b)
unfolding free
exchange-free q a b x ha hb ab =
    let p = free a (free b q) in
    let (e, f, g) = two_returned q a b ab in
    let second : (after p).head.addr ≡ b = ap (λ l. l.addr) e in
    let p2 = free a (free x (after (after p))) in
    let same : same_link p2.head p.head ≡ true =
      ap (λ l. same_link l p.head) (g x) ∙ same_link_self p.head in
    (
      alloc-taken p ha,
      alloc-taken (after p) (omega arith) ∙ ap (λ k. some (k, after (after p))) second,
      record p2 { head = (after p).head; using_count = p2.using_count + 1 },
      exchanged p p2 same,
      second,
    )
