-- ===== src/Pool/Chain.antt =====
-- The pool as a stack of nodes.
use mo_session_server.Base.{
  ==_self, All, List, [], arith, false, refl, some, true, ℕ, ◌+◌, ◌<◌, ◌==◌, ◌∷◌, ◌≡◌, ◌≢◌, Option,
  none,
}
use mo_session_server.Pool.{Link, Pool, alloc, exchange, free, same_link, snapshot}

-- The nodes that are linked from a head, in order
abbrev pub Chain : (ℕ → Link) → Link → List ℕ → Type 0
Chain next l [] = l.addr ≡ 0
Chain next l (x ∷ xs) = (l.addr ≡ x) × (0 < x) × Chain next (next x) xs

-- A node that is none of these
abbrev pub Apart : ℕ → List ℕ → Type 0
Apart a xs = All (λ x. x ≢ a) xs

pub same_link_self : (l : Link) → same_link l l ≡ true
same_link_self l = rw (==_self l.tag, ==_self l.addr) refl

pub alloc-taken :
    (p : Pool)
    → 0 < p.head.addr
    → alloc p
      ≡ some (p.head.addr, record p { head = p.next p.head.addr; using_count = p.using_count + 1 })
unfolding alloc snapshot exchange
alloc-taken p h =
    let f : (p.head.addr == 0) ≡ false = ground arith in rw (f, same_link_self p.head) refl

-- A request of the pool's user: a node, or the return of one
pub data PoolRequest : Type 0 where
  takes : PoolRequest
  returns : ℕ → PoolRequest

-- The nodes that are given over a history, by the pool and by a stack of nodes; with no free node the
-- answer is none.
unfoldable pub serve : List PoolRequest → Pool → List (Option ℕ)
serve [] p = []
serve (takes ∷ rs) p = elim (alloc p) [
  | none ↦ none ∷ serve rs p
  | some (a, q) ↦ some a ∷ serve rs q
]
serve (returns a ∷ rs) p = serve rs (free a p)

unfoldable pub stack_serve : List PoolRequest → List ℕ → List (Option ℕ)
stack_serve [] xs = []
stack_serve (takes ∷ rs) [] = none ∷ stack_serve rs []
stack_serve (takes ∷ rs) (x ∷ xs) = some x ∷ stack_serve rs xs
stack_serve (returns a ∷ rs) xs = stack_serve rs (a ∷ xs)

-- No node is returned that is free already.
abbrev pub IsProper : List PoolRequest → List ℕ → Type 0
IsProper [] xs = Unit
IsProper (takes ∷ rs) [] = IsProper rs []
IsProper (takes ∷ rs) (x ∷ xs) = IsProper rs xs
IsProper (returns a ∷ rs) xs = (0 < a) × Apart a xs × IsProper rs (a ∷ xs)
