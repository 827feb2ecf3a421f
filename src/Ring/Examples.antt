-- ===== src/Ring/Examples.antt =====
-- A ring of eight bytes whose contents go round, and the theorems about it there.
use mo_session_server.Ring.{Ring, dequeue, enqueue, get_free_size, get_used_size, peek, written}
use mo_session_server.Base.{ℕ, List, [], ◌∷◌, ◌≡◌, ◌-◌, refl, arith, get_or, if◌then◌else◌, ltb}
use mo_session_server.Ring.Fifo.{Inv, nth}
use mo_session_server.Ring.Taking.{dequeue-nth}

abbrev sample : Ring ℕ
sample = record {
  buffer = 10 ∷ 11 ∷ 12 ∷ 13 ∷ 14 ∷ 15 ∷ 16 ∷ 17 ∷ [];
  front = 6;
  rear = 1;
  size = 8;
}

sample-Inv : Inv sample
sample-Inv = record { holds = refl; front_in = omega arith; rear_in = omega arith }

abbrev idle : Ring ℕ
idle = record sample { rear = 6 }

idle-Inv : Inv idle
idle-Inv = record { holds = refl; front_in = omega arith; rear_in = omega arith }

abbrev three : List ℕ
three = 1 ∷ 2 ∷ 3 ∷ []

went_round : (dequeue 5 (enqueue three sample).1).0 ≡ 16 ∷ 17 ∷ 10 ∷ 1 ∷ 2 ∷ []
unfolding dequeue peek enqueue written get_used_size get_free_size
went_round = refl

dequeue-nth_example :
    let (out, got, r') = dequeue 2 sample in
    (if ltb 2 got then get_or out 2 0 else nth r' (2 - got) 0) ≡ nth sample 2 0
unfolding get_used_size
dequeue-nth_example = dequeue-nth 2 sample 2 0 sample-Inv (omega arith)
