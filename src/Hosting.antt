-- ===== src/Hosting.antt =====
-- How the session library runs its contents (Libraries/ContentLibB/ContentsServer.cpp and Contents.h): the
-- requests that are posted to the completion port, FrameScheduler, and what WorkerThread does with a
-- completion. The handlers of a contents are its virtual functions, the interface `Handlers`.
pub mod Frames
pub mod Dispatch
pub mod Updates
pub mod Calls
mod Examples
use mo_session_server.Base.{
  Bool, List, [], ◌∷◌, ◌++◌, true, false, none, some, ℕ, ◌+◌, ◌%◌, ◌^◌, ◌==◌, ◌&&◌, ◌||◌, not,
  if◌then◌else◌, ltb, ◌≡◌,
}
use mo_session_server.Base.Int.{ℤ, pos, negsuc, inc32}
use mo_session_server.Base.Table.{find, assign}

-- The virtual functions of `class Contents`, on its members and with the calls that they make
pub record Handlers (A E : Type 0) : Type 0 where
  pub on_enter : ℕ → A → A × List E
  pub on_leave : ℕ → A → A × List E
  pub on_update : A → A × List E
  pub on_shut_down : A → A × List E

-- `class Contents`: what a derived class adds, and the period and the counts, which are 32-bit patterns
pub record Hosted (A : Type 0) : Type 0 where
  pub member : A
  pub frame : ℤ
  pub fps_count : ℕ
  pub logic_count : ℕ

-- The values 101 to 104 that stand in for the address of an overlapped structure, and the addresses:
-- none, that of a session's receive and that of its send
pub data Ask : Type 0 where
  enter leave update shut_down : Ask

pub data Overlapped : Type 0 where
  null receive send : Overlapped
  asks : Ask → Overlapped

-- What GetQueuedCompletionStatus gives: whether it succeeded, and its three values
pub record Completion : Type 0 where
  pub succeeded : Bool
  pub transferred : ℕ
  pub key : ℕ
  pub overlapped : Overlapped

abbrev pub posted : ℕ → ℕ → Overlapped → Completion
posted transferred key overlapped = record {
  succeeded = true;
  transferred = transferred;
  key = key;
  overlapped = overlapped;
}

-- `InsertToContents`, `DeleteFromContents`, `PostQueueContentsShutDown` and the post of FrameScheduler
abbrev pub insert_to_contents : ℕ → ℕ → Completion
insert_to_contents session n = posted n session (asks enter)

abbrev pub delete_from_contents : ℕ → ℕ → Completion
delete_from_contents session n = posted n session (asks leave)

abbrev pub post_contents_shut_down : ℕ → Completion
post_contents_shut_down n = posted n 0 (asks shut_down)

abbrev pub post_update : ℕ → Completion
post_update n = posted n n (asks update)

-- What WorkerThread calls for a session
pub data Call : Type 0 where
  release send_post recv_post send_completion clear_send_flag give_back : ℕ → Call
  recv_completion : ℕ → ℕ → Call

-- What a round of WorkerThread comes to: the thread returns, or it has made calls for a session and has
-- left the contents, with the calls of their handlers.
pub data Round (A E : Type 0) : Type 0 where
  returns : Round A E
  goes_on : List Call → List (ℕ × Hosted A) → List E → Round A E

module _ {A E : Type 0} (handlers : Handlers A E) where
  -- The handler that is asked for, and the count
  unfoldable pub call_handler : Ask → ℕ → Hosted A → Hosted A × List E
  call_handler enter session h =
      let (a, es) = handlers.on_enter session h.member in
      (record h { member = a; logic_count = inc32 h.logic_count }, es)
  call_handler leave session h =
      let (a, es) = handlers.on_leave session h.member in
      (record h { member = a; logic_count = inc32 h.logic_count }, es)
  call_handler update session h =
      let (a, es) = handlers.on_update h.member in
      (record h { member = a; fps_count = inc32 h.fps_count }, es)
  call_handler shut_down session h =
      let (a, es) = handlers.on_shut_down h.member in
      (record h { member = a; logic_count = inc32 h.logic_count }, es)

  -- A request to a contents that is not in the map is dropped.
  unfoldable pub dispatch : Ask → ℕ → ℕ → List (ℕ × Hosted A) → List (ℕ × Hosted A) × List E
  dispatch a n session m = elim (find n m) [
    | none ↦ (m, [])
    | some h ↦ let (h', es) = call_handler a session h in (assign n h' m, es)
  ]

  -- The posts of a release and of a send
  unfoldable pub session_post : Completion → List Call
  session_post c =
      if c.succeeded && not (c.key == 0)
      then if c.transferred == 1
        then release c.key ∷ []
        else if c.transferred == 2
        then send_post c.key ∷ []
        else []
      else []

  -- A receive or a send that has succeeded
  unfoldable pub completed : Completion → List Call
  completed c = elim c.overlapped [
    | receive ↦ recv_completion c.key c.transferred ∷ recv_post c.key ∷ give_back c.key ∷ []
    | send ↦ send_completion c.key ∷ clear_send_flag c.key ∷ send_post c.key ∷ give_back c.key ∷ []
    | _ ↦ []
  ]

  -- The end of the round, for a completion that is no request to a contents
  unfoldable pub session_work : Completion → List Call
  unfolding completed
  session_work c =
      if not c.succeeded || c.transferred == 0 then give_back c.key ∷ [] else completed c

  -- `WorkerThread`: one round. A post of 101 to 104 never fails.
  unfoldable pub worker : Completion → List (ℕ × Hosted A) → Round A E
  worker c m = elim c.overlapped [
    | asks a ↦ let (m', es) = dispatch a c.transferred c.key m in goes_on [] m' es
    | null ↦
        if c.transferred == 0 && c.key == 0
        then returns
        else goes_on (session_post c ++ session_work c) m []
    | _ ↦ goes_on (session_work c) m []
  ]

-- The test of FrameScheduler for one entry of the map
unfoldable pub is_due : ℕ → ℤ → Bool
is_due count (pos f) = ltb 0 f && (count % f == 0)
is_due count (negsuc f) = false

unfoldable pub due_list : {A : Type 0} → ℕ → List (ℕ × Hosted A) → List Completion
due_list count [] = []
due_list count ((n, h) ∷ m) =
    let rest = due_list count m in if is_due count h.frame then post_update n ∷ rest else rest

-- `_contentsMap`, what is in the completion port, and `frameCount` of FrameScheduler, 64 bits wide
pub record Host (A : Type 0) : Type 0 where
  pub contents_map : List (ℕ × Hosted A)
  pub port : List Completion
  pub frame_count : ℕ

-- One turn of FrameScheduler
unfoldable pub tick : {A : Type 0} → Host A → Host A
tick s =
    let count = (s.frame_count + 10) % 2 ^ 64 in
    record s { frame_count = count; port = s.port ++ due_list count s.contents_map }

-- What a round of WorkerThread leaves of the map
unfoldable pub map_after :
    {A E : Type 0} → Handlers A E → Completion → List (ℕ × Hosted A) → List (ℕ × Hosted A)
map_after handlers c m = elim (worker handlers c m) [ returns ↦ m | goes_on calls m' es ↦ m' ]

abbrev pub is_update : Completion → Bool
is_update c = elim c.overlapped [ asks a ↦ elim a [ update ↦ true | _ ↦ false ] | _ ↦ false ]

-- The steps of the threads other than FrameScheduler, while no contents is registered or taken away: a
-- worker thread takes a completion, and it need not be the oldest; a post or a completion of any other
-- kind comes in.
pub data Step {A E : Type 0} (handlers : Handlers A E) (s : Host A) : Host A → Type 0 where
  takes :
      (before behind : List Completion) (c : Completion)
      → s.port ≡ before ++ (c ∷ behind)
      → Step handlers s
          (record s { port = before ++ behind; contents_map = map_after handlers c s.contents_map })
  comes :
      (c : Completion)
      → is_update c ≡ false
      → Step handlers s (record s { port = s.port ++ (c ∷ []) })

-- The histories, with the number of turns of FrameScheduler
pub data Reach {A E : Type 0} (handlers : Handlers A E) (s : Host A) : ℕ → Host A → Type 0 where
  begin : Reach handlers s 0 s
  ticks : {n : ℕ} {t : Host A} → Reach handlers s n t → Reach handlers s (n + 1) (tick t)
  later : {n : ℕ} {t u : Host A} → Reach handlers s n t → Step handlers t u → Reach handlers s n u
