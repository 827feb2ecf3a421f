-- ===== src/Pool/Examples.antt =====
-- A pool without nodes that gets two, and one whose node is given twice.
use mo_session_server.Base.{List, [], arith, none, refl, some, ◌∷◌, ◌≡◌}
use mo_session_server.Pool.{Pool, alloc, exchange, free, null, snapshot}
use mo_session_server.Pool.Chain.{PoolRequest, takes, returns, stack_serve}
use mo_session_server.Pool.Reuse.{after, exchange-free}

abbrev empty_pool : Pool
empty_pool = record { head = null; next = λ b. null; capacity = 0; using_count = 3 }

abbrev history : List PoolRequest
history = returns 5 ∷ returns 3 ∷ takes ∷ takes ∷ takes ∷ []

served : stack_serve history [] ≡ some 3 ∷ some 5 ∷ none ∷ []
unfolding stack_serve
served = refl

exchange-free_example :
    let p = free 3 (free 5 empty_pool) in
    (alloc p ≡ some (3, after p))
    × (alloc (after p) ≡ some (5, after (after p)))
    × (r : Pool) × (exchange (snapshot p) (free 3 (free 7 (after (after p)))) ≡ some (3, r))
    × (r.head.addr ≡ 5)
exchange-free_example = exchange-free empty_pool 3 5 7 (omega arith) (omega arith) (omega arith)
