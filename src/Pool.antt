-- ===== src/Pool.antt =====
-- MemoryPool of Common/MemoryPool.h: a stack of free nodes, linked through `_next`, whose head carries a
-- tag in the upper 16 bits of the pointer. A node is its address; 0 is the null pointer. A node's
-- `_next` holds the head that it was put on, with that head's tag.
pub mod Chain
pub mod Chunk
pub mod Reuse
mod Examples
use mo_session_server.Base.{
  Bool, Option, if◌then◌else◌, leb, ltb, none, some, ℕ, ◌%◌, ◌&&◌, ◌+◌, ◌-◌, ◌==◌, ◌^◌,
}

pub record Link : Type 0 where
  pub tag : ℕ
  pub addr : ℕ

-- The members that change: `_head`, the `_next` of every node, `_capacity`, `_usingCount`
pub record Pool : Type 0 where
  pub head : Link
  pub next : ℕ → Link
  pub capacity : ℕ
  pub using_count : ℕ

abbrev pub null : Link
null = record { tag = 0; addr = 0 }

-- A write to the `_next` of one node
abbrev pub link_to : (ℕ → Link) → ℕ → Link → ℕ → Link
link_to next a l b = if b == a then l else next b

-- `tag += MAKETAG`
abbrev pub next_tag : Link → ℕ
next_tag l = (l.tag + 1) % 2 ^ 16

abbrev pub same_link : Link → Link → Bool
same_link k l = k.tag == l.tag && k.addr == l.addr

-- What the loop of `Alloc` reads: the head, and the `_next` of its node
unfoldable pub snapshot : Pool → Link × Link
snapshot p = (p.head, p.next p.head.addr)

-- The exchange of `Alloc` with what was read before, and the node that it gives
unfoldable pub exchange : Link × Link → Pool → Option (ℕ × Pool)
exchange (old, new) p =
    if same_link p.head old
    then some (old.addr, record p { head = new; using_count = p.using_count + 1 })
    else none

-- `Alloc` of one thread alone, from a pool with a free node
unfoldable pub alloc : Pool → Option (ℕ × Pool)
unfolding snapshot exchange
alloc p = if p.head.addr == 0 then none else exchange (snapshot p) p

-- `Free`
unfoldable pub free : ℕ → Pool → Pool
free a p = record p {
  head = record { tag = next_tag p.head; addr = a };
  next = link_to p.next a p.head;
  using_count = p.using_count - 1;
}

-- `ChunkAlloc`, for the 100 nodes from an address on
unfoldable pub chunk_alloc : ℕ → Pool → Pool
chunk_alloc base p = record p {
  head = record { tag = next_tag p.head; addr = base + 99 };
  next = λ b.
      if leb base b && ltb b (base + 100)
      then if b == base then p.head else record { tag = 0; addr = b - 1 }
      else p.next b;
  capacity = p.capacity + 100;
}
