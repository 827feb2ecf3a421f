-- ===== src/LfQueue/Examples.antt =====
-- Two threads put their nodes in, and the second one is done before the first one has linked.
use mo_session_server.Base.{[], refl, some, ℕ, ◌∷◌, ◌≡◌, List, false, none, true}
use mo_session_server.LfQueue.{
  Queue, count_node, link_node, new_queue, reserve, swing_tail, take_node,
}
use mo_session_server.LfQueue.Bounded.{Operation, puts, gets, accepts, gives, run_list}

abbrev both_put : Queue ℕ
both_put = swing_tail 20 (swing_tail 10 (new_queue 0))

abbrev second_linked : Queue ℕ
second_linked = count_node (link_node 1 (0 ∷ []) both_put)

-- A thread in Dequeue passes the test of the size, but the node 1 is not linked yet.
abbrev early : Queue ℕ
early = reserve second_linked

abbrev first_taken : Queue ℕ
first_taken = take_node 1 (link_node 0 [] early)

-- 10 was put first and is taken first.
in_order : (first_taken.put ≡ 10 ∷ 20 ∷ []) × (first_taken.taken ≡ 10 ∷ [])
unfolding swing_tail link_node count_node reserve take_node
in_order = (refl, refl)

-- One thread and a maximum of one
abbrev history : List (Operation ℕ)
history = puts 7 ∷ puts 8 ∷ gets ∷ gets ∷ []

second_refused :
    run_list 1 history [] ≡ accepts true ∷ accepts false ∷ gives (some 7) ∷ gives none ∷ []
unfolding run_list
second_refused = refl
