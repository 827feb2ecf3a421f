-- ===== src/Session.antt =====
-- The I/O count and the release flag of a session (Libraries/ContentLibB/ContentsServer.cpp and .h): how
-- Disconnect, SendPacket, TryMoveSessionToContents, SendPost, RecvPost, the completions of the worker
-- threads, Release and AcceptThread share one slot of the session array. A step is one atomic operation
-- of one thread, and the steps come in any order. The history starts with a session that has just been
-- accepted: its receive holds the count.
pub mod Invariant
pub mod Draining
mod Examples
use mo_session_server.Base.{
  Bool, false, if◌then◌else◌, leb, true, ℕ, ◌%◌, ◌+◌, ◌-◌, ◌<◌, ◌==◌, ◌^◌, ◌≡◌,
}
use mo_session_server.Base.Int.{inc32, dec32}

-- `_ioCount`, whose top bit is the release flag, as a 32-bit pattern, and `_dFlag`
pub record Session : Type 0 where
  pub io_count : ℕ
  pub d_flag : Bool

abbrev pub release_flag : ℕ
release_flag = 2 ^ 31

-- `InterlockedIncrement` of the count, and whether the release flag is in what it returns
unfoldable pub raise : Session → Session × Bool
raise s = let n = inc32 s.io_count in (record s { io_count = n }, leb release_flag n)

-- `InterlockedDecrement` of the count, and whether it returns 0
unfoldable pub lower : Session → Session × Bool
lower s = let n = dec32 s.io_count in (record s { io_count = n }, n == 0)

-- `InterlockedCompareExchange` in Release, and whether it made the exchange
unfoldable pub try_release : Session → Session × Bool
try_release s = if s.io_count == 0 then (record s { io_count = release_flag }, true) else (s, false)

-- `InterlockedAnd` of the count with 0x7fffffff
unfoldable pub clear_release_flag : Session → Session
clear_release_flag s = record s { io_count = s.io_count % release_flag }

-- Where AcceptThread is with the slot: it has popped its index, counted itself, cleared the flag
pub data Accepting : Type 0 where
  elsewhere popped counted opened : Accepting

-- The slot and the threads about it: those that hold its count, with the receive and the send that are
-- under way; those whose decrement gave 0 and that set `_dFlag` next; releases that are posted or about
-- to be called; threads inside Release behind the exchange; how often the index is in `_indexArray`
pub record System : Type 0 where
  pub session : Session
  pub users : ℕ
  pub closing : ℕ
  pub posted : ℕ
  pub releasing : ℕ
  pub in_pool : ℕ
  pub accepting : Accepting
  pub accepted : ℕ
  pub released : ℕ

abbrev pub first_accepted : System
first_accepted = record {
  session = record { io_count = 1; d_flag = false };
  users = 1;
  closing = 0;
  posted = 0;
  releasing = 0;
  in_pool = 0;
  accepting = elsewhere;
  accepted = 1;
  released = 0;
}

-- A thread takes the count: it has read an ID of the slot, of the session there or an earlier one.
unfoldable pub enter : System → System
unfolding raise
enter s = record s { session = (raise s.session).0; users = s.users + 1 }

-- Disconnect of the session that is there: the thread holds the count.
unfoldable pub flag : System → System
flag s = record s { session = record s.session { d_flag = true } }

-- A thread or a completion gives the count back; the one that brings it to 0 closes.
unfoldable pub leave : System → System
unfolding lower
leave s =
    let (t, last) = lower s.session in
    record s {
      session = t;
      users = s.users - 1;
      closing = if last then s.closing + 1 else s.closing;
    }

-- `InterlockedExchange(&_dFlag, 1)`, then the release is posted or called
unfoldable pub close : System → System
close s = record s {
  session = record s.session { d_flag = true };
  closing = s.closing - 1;
  posted = s.posted + 1;
}

-- The exchange of Release; without it Release returns
unfoldable pub release : System → System
unfolding try_release
release s =
    let (t, won) = try_release s.session in
    record s {
      session = t;
      posted = s.posted - 1;
      releasing = if won then s.releasing + 1 else s.releasing;
    }

-- The end of Release: the index goes back.
unfoldable pub retire : System → System
retire s = record s {
  releasing = s.releasing - 1;
  in_pool = s.in_pool + 1;
  released = s.released + 1;
}

-- AcceptThread: `Pop`, `InterlockedIncrement`, `InterlockedAnd`, `InterlockedExchange(&_dFlag, 0)`; from
-- then on the receive that it posts holds the count.
unfoldable pub pop : System → System
pop s = record s { in_pool = s.in_pool - 1; accepting = popped }

unfoldable pub count : System → System
unfolding raise
count s = record s { session = (raise s.session).0; accepting = counted }

unfoldable pub open_slot : System → System
unfolding clear_release_flag
open_slot s = record s { session = clear_release_flag s.session; accepting = opened }

unfoldable pub start : System → System
start s = record s {
  session = record s.session { d_flag = false };
  users = s.users + 1;
  accepting = elsewhere;
  accepted = s.accepted + 1;
}

-- The steps that are left when no thread takes the count any more
pub data Drain (s : System) : System → Type 0 where
  leaves : 0 < s.users → Drain s (leave s)
  closes : 0 < s.closing → Drain s (close s)
  releases : 0 < s.posted → Drain s (release s)
  retires : 0 < s.releasing → Drain s (retire s)

-- Every step; there are fewer threads and operations than the count has room for.
pub data Step (s : System) : System → Type 0 where
  enters : s.users + 2 < release_flag → Step s (enter s)
  flags : 0 < s.users → Step s (flag s)
  drains : {t : System} → Drain s t → Step s t
  pops : 0 < s.in_pool → s.accepting ≡ elsewhere → Step s (pop s)
  counts : s.accepting ≡ popped → Step s (count s)
  opens : s.accepting ≡ counted → Step s (open_slot s)
  starts : s.accepting ≡ opened → s.users + 2 < release_flag → Step s (start s)

pub data Reach : System → Type 0 where
  begin : Reach first_accepted
  later : {s t : System} → Reach s → Step s t → Reach t
