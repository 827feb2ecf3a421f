-- ===== src/LfQueue.antt =====
-- LFQueue of Common/LockFree/LockFreeQueue(CAS).h, the queue between the threads. Its nodes form a list
-- from a dummy at the head; Enqueue first exchanges the tail and then links the old tail to its node. A
-- node is named by how many nodes came to the tail before it, so the dummy is 0 and no node has two
-- names: that a node given back is taken anew, against which the pointers are tagged, is not modelled. A
-- step is one atomic operation of one thread that changes something, and the steps come in any order.
pub mod Items
pub mod Chain
pub mod Invariant
pub mod Fifo
pub mod Alone
pub mod Bounded
mod Examples
use mo_session_server.Base.{
  List, Option, [], ◌∷◌, ◌++◌, none, some, ℕ, ◌+◌, ◌-◌, ◌^◌, ◌==◌, ◌<◌, ◌≡◌, if◌then◌else◌, leb,
  Bool, false, ltb, true, ◌||◌,
}
use mo_session_server.Base.Int.{inc32, dec32}

-- `_head`, `_tail`, `_size` as a 32-bit pattern, and `_data` and `_next` of the nodes; the threads by where
-- they are: the old tails that Enqueue is about to link, the threads that go round its loop again with a
-- node that is in the queue already, those that are about to count, those in Dequeue that have found
-- `_size` below 0 or not; and what was put to the tail and what was taken, in order
pub record Queue {ℓ} (D : Type ℓ) : Type ℓ where
  pub head : ℕ
  pub tail : ℕ
  pub size : ℕ
  pub content : ℕ → D
  pub next : ℕ → Option ℕ
  pub linking : List ℕ
  pub retrying : ℕ
  pub counting : ℕ
  pub refusing : ℕ
  pub reserved : ℕ
  pub put : List D
  pub taken : List D

-- A write to one node
abbrev pub write_at {ℓ} : {V : Type ℓ} → ℕ → V → (ℕ → V) → ℕ → V
write_at n v f m = if m == n then v else f m

module _ {ℓ} {D : Type ℓ} where
  -- The constructor; the dummy's `_data` has no value that is read.
  abbrev pub new_queue : D → Queue D
  new_queue d = record {
    head = 0;
    tail = 0;
    size = 0;
    content = λ n. d;
    next = λ n. none;
    linking = [];
    retrying = 0;
    counting = 0;
    refusing = 0;
    reserved = 0;
    put = [];
    taken = [];
  }

  -- Enqueue: the node, and the exchange of the tail that succeeds
  unfoldable pub swing_tail : D → Queue D → Queue D
  swing_tail x q =
      let n = q.tail + 1 in
      record q {
        tail = n;
        content = write_at n x q.content;
        linking = q.tail ∷ q.linking;
        put = q.put ++ (x ∷ []);
      }

  -- The exchange of the old tail's `_next` with null; when it fails, the loop of Enqueue begins again.
  unfoldable pub link_node : ℕ → List ℕ → Queue D → Queue D
  link_node t others q = elim (q.next t) [
    | none ↦ record q {
      next = write_at t (some (t + 1)) q.next;
      linking = others;
      counting = q.counting + 1;
    }
    | some n ↦ record q { linking = others; retrying = q.retrying + 1 }
  ]

  -- `InterlockedIncrement(&_size)` of Enqueue
  unfoldable pub count_node : Queue D → Queue D
  count_node q = record q { size = inc32 q.size; counting = q.counting - 1 }

  -- Dequeue: `InterlockedDecrement(&_size)` and the test of its sign, and the increment before it returns
  -- false
  unfoldable pub reserve : Queue D → Queue D
  reserve q =
      let n = dec32 q.size in
      if leb (2 ^ 31) n
      then record q { size = n; refusing = q.refusing + 1 }
      else record q { size = n; reserved = q.reserved + 1 }

  unfoldable pub refuse : Queue D → Queue D
  refuse q = record q { size = inc32 q.size; refusing = q.refusing - 1 }

  -- The exchange of a tail that Dequeue has read before and that has a `_next`
  unfoldable pub help_tail : ℕ → ℕ → Queue D → Queue D
  help_tail t n q = if q.tail == t then record q { tail = n } else q

  -- The exchange of the head that succeeds, with the data of its next node
  unfoldable pub take_node : ℕ → Queue D → Queue D
  take_node n q = record q {
    head = n;
    reserved = q.reserved - 1;
    taken = q.taken ++ (q.content n ∷ []);
  }

  -- Every step; fewer than 2^31 nodes are in the queue, and fewer than 2^31 threads in Dequeue.
  pub data Step (q : Queue D) : Queue D → Type ℓ where
    swings : (x : D) → q.tail + 1 < q.head + 2 ^ 31 → Step q (swing_tail x q)
    links :
        (before behind : List ℕ) (t : ℕ)
        → q.linking ≡ before ++ (t ∷ behind)
        → Step q (link_node t (before ++ behind) q)
    counts : 0 < q.counting → Step q (count_node q)
    reserves : q.refusing + 1 < 2 ^ 31 → Step q (reserve q)
    refuses : 0 < q.refusing → Step q (refuse q)
    helps : (t n : ℕ) → q.next t ≡ some n → Step q (help_tail t n q)
    takes : (n : ℕ) → 0 < q.reserved → q.next q.head ≡ some n → Step q (take_node n q)

  pub data Reach (d : D) : Queue D → Type ℓ where
    begin : Reach d (new_queue d)
    later : {q r : Queue D} → Reach d q → Step q r → Reach d r

  -- A whole Enqueue while no other thread is in the queue
  unfoldable pub enqueue_alone : D → Queue D → Queue D
  enqueue_alone x q = count_node (link_node q.tail q.linking (swing_tail x q))

  -- A whole Dequeue alone. Where the head has no `_next` the source waits for it.
  unfoldable pub finish_dequeue : Queue D → Option D × Queue D
  finish_dequeue r =
      if r.reserved == 0
      then (none, refuse r)
      else elim (r.next r.head) [ none ↦ (none, r) | some n ↦ (some (r.content n), take_node n r) ]

  unfoldable pub dequeue_alone : Queue D → Option D × Queue D
  dequeue_alone q = finish_dequeue (reserve q)

  -- Enqueue of MAXLFQueue (MaxLockFreeQueue(CAS).h) alone: a test of the signed size before the same steps
  unfoldable pub max_enqueue : ℕ → D → Queue D → Bool × Queue D
  max_enqueue max_size x q =
      if leb (2 ^ 31) q.size || ltb q.size max_size then (true, enqueue_alone x q) else (false, q)
