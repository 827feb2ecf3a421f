-- ===== src/LockFree.antt =====
-- LFStack of Common/LockFree/LockFreeStack.h, which holds the free indices of the session array. A push
-- takes the next value of a 16-bit counter as the tag of its node, whatever the top is, and a pop puts
-- the top back that was below. The nodes from the top down are a list; what a node's `_next` holds is
-- the rest of the list. A step is one atomic operation of one thread, and the steps come in any order.
pub mod Versions
mod Examples
use mo_session_server.Base.{List, [], ℕ, ◌%◌, ◌++◌, ◌+◌, ◌^◌, ◌∷◌, ◌≡◌}

-- A node in the stack: the number of its push, whose lower 16 bits are the tag, its address, its data
pub record Entry : Type 0 where
  pub key : ℕ
  pub addr : ℕ
  pub content : ℕ

-- `_top` and what is below it, how often `_key` was counted up, and the nodes of the pushes under way
pub record Stack : Type 0 where
  pub entries : List Entry
  pub key_count : ℕ
  pub pending : List Entry

abbrev pub tag : Entry → ℕ
tag e = e.key % 2 ^ 16

abbrev pub empty_stack : Stack
empty_stack = record { entries = []; key_count = 0; pending = [] }

-- Push: a node with its data, and `InterlockedIncrement16`
unfoldable pub take_key : ℕ → ℕ → Stack → Stack
take_key a x s = record s {
  key_count = s.key_count + 1;
  pending = record { key = s.key_count + 1; addr = a; content = x } ∷ s.pending;
}

-- The exchange of Push that succeeds, for one of the pushes under way
unfoldable pub push : Entry → List Entry → List Entry → Stack → Stack
push e before behind s = record s { entries = e ∷ s.entries; pending = before ++ behind }

-- The exchange of Pop that succeeds
unfoldable pub pop_top : Entry → List Entry → Stack → Stack
pop_top e rest s = record s { entries = rest }

pub data Step (s : Stack) : Stack → Type 0 where
  takes_key : (a x : ℕ) → Step s (take_key a x s)
  pushes :
      (e : Entry) (before behind : List Entry)
      → s.pending ≡ before ++ (e ∷ behind)
      → Step s (push e before behind s)
  pops : (e : Entry) (rest : List Entry) → s.entries ≡ e ∷ rest → Step s (pop_top e rest s)

-- The steps from one state to another
pub data Steps (s : Stack) : Stack → Type 0 where
  none_yet : Steps s s
  and_then : {t u : Stack} → Steps s t → Step t u → Steps s u
