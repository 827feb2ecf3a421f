-- ===== src/LfQueue/Bounded.antt =====
-- A history of MAXLFQueue in the hands of one thread, against a list.
use mo_session_server.Base.{Bool, List, Option, [], ℕ, ◌∷◌}
use mo_session_server.LfQueue.{Queue, dequeue_alone, max_enqueue}
use mo_session_server.LfQueue.Alone.{put_last, take_first}

pub data Operation {ℓ} (D : Type ℓ) : Type ℓ where
  puts : D → Operation D
  gets : Operation D

pub data Answer {ℓ} (D : Type ℓ) : Type ℓ where
  accepts : Bool → Answer D
  gives : Option D → Answer D

module _ {ℓ} {D : Type ℓ} (max_size : ℕ) where
  unfoldable pub run_queue : List (Operation D) → Queue D → List (Answer D)
  run_queue [] q = []
  run_queue (puts x ∷ os) q = let (b, r) = max_enqueue max_size x q in accepts b ∷ run_queue os r
  run_queue (gets ∷ os) q = let (o, r) = dequeue_alone q in gives o ∷ run_queue os r

  unfoldable pub run_list : List (Operation D) → List D → List (Answer D)
  run_list [] l = []
  run_list (puts x ∷ os) l = let (b, m) = put_last max_size x l in accepts b ∷ run_list os m
  run_list (gets ∷ os) l = let (o, m) = take_first l in gives o ∷ run_list os m
