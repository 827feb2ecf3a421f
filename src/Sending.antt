-- ===== src/Sending.antt =====
-- The sending of a session (Libraries/ContentLibB/ContentsServer.cpp): SendPacket puts messages into
-- `_sendQ` and posts, SendPost takes `_sendFlag` and gives a box of messages to WSASend, and the
-- completion frees the box and the flag and calls SendPost again. A step is one access to what the
-- threads share, and the steps come in any order. The session is not disconnected meanwhile: with
-- `_dFlag` set SendPost does nothing, and Release clears the queue. A message is a number.
pub mod Order
pub mod Progress
mod Examples
use mo_session_server.Base.{
  Bool, List, [], if◌then◌else◌, length, ℕ, ◌++◌, ◌+◌, ◌-◌, ◌<◌, ◌∷◌, ◌≡◌, ◌⊎◌, ◌==◌, ◌≤◌,
}

-- `CPACKET_BOX_MAX`
abbrev pub box_max : ℕ
box_max = 500

-- Where the owner of `_sendFlag` is: it fills the box, found nothing to send, waits for WSASend, or
-- handles its completion
pub data Owner : Type 0 where
  nobody filling empty_handed in_flight completing : Owner

-- The queue, the box of the owner, what was given to WSASend, and everything that was ever queued, in
-- order; and how many threads are behind the enqueue of SendPacket, at the start of SendPost (or posted
-- to be there), behind its test of the queue, and before its second test of the queue
pub record Sender : Type 0 where
  pub queue : List ℕ
  pub box : List ℕ
  pub sent : List ℕ
  pub queued : List ℕ
  pub owner : Owner
  pub enqueued : ℕ
  pub posted : ℕ
  pub tested : ℕ
  pub retesting : ℕ

abbrev pub idle_sender : Sender
idle_sender = record {
  queue = [];
  box = [];
  sent = [];
  queued = [];
  owner = nobody;
  enqueued = 0;
  posted = 0;
  tested = 0;
  retesting = 0;
}

abbrev pub is_empty : List ℕ → Bool
is_empty xs = length xs == 0

-- SendPacket: the message goes into the queue, and then the post
unfoldable pub send_packet : ℕ → Sender → Sender
send_packet x s = record s {
  queue = s.queue ++ (x ∷ []);
  queued = s.queued ++ (x ∷ []);
  enqueued = s.enqueued + 1;
}

unfoldable pub post : Sender → Sender
post s = record s { enqueued = s.enqueued - 1; posted = s.posted + 1 }

-- SendPost: `_sendQ.GetUsedSize() > 0`
unfoldable pub test_queue : Sender → Sender
test_queue s = record s {
  posted = s.posted - 1;
  tested = if is_empty s.queue then s.tested else s.tested + 1;
}

-- `InterlockedExchange(&_sendFlag, 1)`: it was 0 if nobody owned it.
unfoldable pub take_flag : Sender → Sender
take_flag s = record s { tested = s.tested - 1; owner = elim s.owner [ nobody ↦ filling | o ↦ o ] }

-- One `Dequeue` of the loop
unfoldable pub fill : Sender → Sender
fill s = elim s.queue [ [] ↦ s | x ∷ xs ↦ record s { queue = xs; box = s.box ++ (x ∷ []) } ]

-- What follows the loop: WSASend of the box, unless it is empty
unfoldable pub send_box : Sender → Sender
send_box s =
    if is_empty s.box
    then record s { owner = empty_handed }
    else record s { sent = s.sent ++ s.box; box = []; owner = in_flight }

-- `InterlockedExchange(&_sendFlag, 0)` with an empty box, and the second test of the queue
unfoldable pub give_up : Sender → Sender
give_up s = record s { owner = nobody; retesting = s.retesting + 1 }

unfoldable pub test_again : Sender → Sender
test_again s = record s {
  retesting = s.retesting - 1;
  posted = if is_empty s.queue then s.posted else s.posted + 1;
}

-- SendCompletion, and the flag that is given back before SendPost is called
unfoldable pub complete : Sender → Sender
complete s = record s { owner = completing }

unfoldable pub send_again : Sender → Sender
send_again s = record s { owner = nobody; posted = s.posted + 1 }

-- The steps besides a new message; the loop ends when the box is full or the queue empty.
pub data Advance (s : Sender) : Sender → Type 0 where
  posts : 0 < s.enqueued → Advance s (post s)
  tests : 0 < s.posted → Advance s (test_queue s)
  takes_flag : 0 < s.tested → Advance s (take_flag s)
  fills : s.owner ≡ filling → length s.box < box_max → 0 < length s.queue → Advance s (fill s)
  sends :
      s.owner ≡ filling → (box_max ≤ length s.box) ⊎ (length s.queue ≡ 0) → Advance s (send_box s)
  gives_up : s.owner ≡ empty_handed → Advance s (give_up s)
  tests_again : 0 < s.retesting → Advance s (test_again s)
  completes : s.owner ≡ in_flight → Advance s (complete s)
  sends_again : s.owner ≡ completing → Advance s (send_again s)

pub data Reach : Sender → Type 0 where
  begin : Reach idle_sender
  queues : {s : Sender} (x : ℕ) → Reach s → Reach (send_packet x s)
  advances : {s t : Sender} → Reach s → Advance s t → Reach t
