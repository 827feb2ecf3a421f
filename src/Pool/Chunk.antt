-- ===== src/Pool/Chunk.antt =====
-- The nodes of a chunk, put on the pool by ChunkAlloc.
use mo_session_server.Base.{
  ==_self, All, List, [], ap, arith, false, leb, length, ltb, refl, subst, suc, sym, true, zero, ℕ,
  ◌&&◌, ◌++◌, ◌+◌, ◌-◌, ◌<◌, ◌==◌, ◌∷◌, ◌≡◌, ◌≤◌, ◌⊎◌,
}
use mo_session_server.Pool.{Link, Pool, chunk_alloc}
use mo_session_server.Pool.Chain.{Chain}

-- The nodes of a chunk from the `i`-th down to the first
abbrev pub nodes_down : ℕ → ℕ → List ℕ
nodes_down base zero = base ∷ []
nodes_down base (suc i) = (base + suc i) ∷ nodes_down base i

length-nodes_down : (base i : ℕ) → length (nodes_down base i) ≡ suc i
length-nodes_down base zero = refl
length-nodes_down base (suc i) = ap suc (length-nodes_down base i)

abbrev pub Outside : ℕ → List ℕ → Type 0
Outside base xs = All (λ x. (x < base) ⊎ (base + 100 ≤ x)) xs

module _ (base : ℕ) (p : Pool) where
  chunk_next :
      (x : ℕ)
      → x < 99
      → (chunk_alloc base p).next (base + suc x) ≡ record { tag = 0; addr = base + suc x - 1 }
  unfolding chunk_alloc
  chunk_next x h =
      let f : (leb base (base + suc x) && ltb (base + suc x) (base + 100)) ≡ true = ground arith in
      let g : (base + suc x == base) ≡ false = ground arith in rw (f, g) refl

  chunk_first : (chunk_alloc base p).next base ≡ p.head
  unfolding chunk_alloc
  chunk_first =
      let f : (leb base base && ltb base (base + 100)) ≡ true = ground arith in
      rw (f, ==_self base) refl

  chunk_outside : (x : ℕ) → (x < base) ⊎ (base + 100 ≤ x) → (chunk_alloc base p).next x ≡ p.next x
  unfolding chunk_alloc
  chunk_outside x o =
      let f : (leb base x && ltb x (base + 100)) ≡ false = ground (arith, o) in rw f refl

  Chain-Outside :
      (l : Link) (xs : List ℕ)
      → Outside base xs
      → Chain p.next l xs
      → Chain (chunk_alloc base p).next l xs
  Chain-Outside l [] o c = c
  Chain-Outside l (x ∷ xs) (o, os) (e, z, c) = (
    e,
    z,
    subst (λ k. Chain (chunk_alloc base p).next k xs) (sym (chunk_outside x o))
        (Chain-Outside (p.next x) xs os c),
  )

  Chain-nodes_down :
      (i : ℕ) (l : Link) (xs : List ℕ)
      → 0 < base
      → i < 100
      → l.addr ≡ base + i
      → Outside base xs
      → Chain p.next p.head xs
      → Chain (chunk_alloc base p).next l (nodes_down base i ++ xs)
  Chain-nodes_down zero l xs z h e o c = (
    omega (arith, e),
    z,
    subst (λ k. Chain (chunk_alloc base p).next k xs) (sym chunk_first)
        (Chain-Outside p.head xs o c),
  )
  Chain-nodes_down (suc i) l xs z h e o c = (
    e,
    omega arith,
    subst (λ k. Chain (chunk_alloc base p).next k (nodes_down base i ++ xs))
        (sym (chunk_next i (omega arith)))
        (Chain-nodes_down i (record { tag = 0; addr = base + suc i - 1 }) xs z (omega arith)
          (omega arith) o c),
  )

-- ChunkAlloc puts the 100 nodes of a chunk, which is apart from the free nodes, in front of them, the
-- last one first, and counts them.
pub chunk_alloc-Chain :
    (base : ℕ) (p : Pool) (xs : List ℕ)
    → 0 < base
    → Outside base xs
    → Chain p.next p.head xs
    → Chain (chunk_alloc base p).next (chunk_alloc base p).head (nodes_down base 99 ++ xs)
      × ((chunk_alloc base p).capacity ≡ p.capacity + length (nodes_down base 99))
unfolding chunk_alloc
chunk_alloc-Chain base p xs z o c = (
  Chain-nodes_down base p 99 (chunk_alloc base p).head xs z (omega arith) refl o c,
  ap (p.capacity +◌) (sym (length-nodes_down base 99)),
)
