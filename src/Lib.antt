-- ===== src/Lib.antt =====
-- A model of the battle session server of this repository, and what is proved of it.
--
-- The server (Servers/BattleSessionServer) takes sessions into a lobby, forms groups of six, runs each
-- group's match with frame updates and client requests, and stores the results in MySQL. It stands on
-- the session library (Libraries/ContentLibB), which calls the handlers of a contents one at a time.
--
-- Base: shared names; the signed and the narrow integers of the source over native numbers (Int); maps
-- with numeric keys as association lists, whose order stands for the container's (Table); lists read
-- and written by index (Lists); `|` of bit fields (Bits).
--
-- Battle: the data of Servers/BattleSessionServer/FighterStructure.h. A handler returns the new state
-- and, as `Effect`s in order, the calls it makes on the rest of the server: sends, disconnects, moves,
-- requests to the control thread and to the database. Objects that the source shares by pointer are
-- held in the map of the contents that serves their session, since only that contents writes them.
--   Movement: FightContents::ApplyMovement and the frames of OnUpdate (FighterContents.cpp). Positions
--   are computed in `int` and cast back to 16 bits.
--   Actions: the handlers of StubForFight (FighterSubStub.cpp) and the dispatch of FightStub::ProcMessage
--   (RPC_Fighter/FighterStub.cpp). A request is given by its arguments and a message by the function of
--   FightProxy that sends it; Packet has their bytes. The time is an argument.
--   Fight: FightContents: OnEnter, OnLeave, OnUpdate, Init, Clear and the end of the match. Whether
--   TryMoveSessionToContents succeeds is an argument, as it depends on other threads. Counters are 32-bit
--   patterns.
--
-- Match: MatchContents (FighterContents.cpp), the lobby, with the table of the server's players, whose
-- team it writes.
--
-- Control: FighterServer (FighterServer.cpp): the handlers of the control thread with the map of
-- contents, the players and the banned addresses, the queue of the database threads and its counters.
-- The objects that the pools give are arguments. Shutdown: FighterServer::Stop, with the lobby and the
-- fights on the worker threads, the control thread and the database threads (FighterContents.cpp), as
-- steps of the threads in any order. Fights are counted by where they are, not named; that the lobby is
-- empty, and whether a thread still holds a fight that is taken out of the map, are left open. A fight
-- is put under a number that is free. The monitor threads, which Stop ends last, are left out.
--
-- Save: BattleDB (BattleDB.cpp) over DBConnector (Common/TLS/DBConnector.cpp). The MySQL client library
-- is a parameter, a function from a query and a state to an error number and a state; `IsTransactional`
-- in Save/Transactions states what is relied on of transactions, and Save/Examples has a database that keeps
-- it. The loop over attempts is a recursion on the attempts that are left, three in all, so it needs no
-- other fuel.
--
-- Ring: RingBuffer (Common/RingBuffer.h). Pointers into the buffer are indices; the bytes are of any
-- type.
--
-- MatchId: MatchIDGenerator. The clock is the list of its readings; waiting for the next millisecond
-- takes readings until one is later, and has no result when the list ends first.
--
-- Packet: SBuffer (Common/SerialBuffer.h) and CPacket (Common/CPacket.cpp): the memory of a buffer is a
-- list of bytes, a value of some width is written and read lowest byte first, and a write behind the
-- memory is no result. Stream: whole messages. Fighter: the fields that FightProxy writes and what
-- FightStub::ProcMessage reads (RPC_Fighter), with the handlers of Battle/Actions behind it. The
-- variable of the type, which has no value before it is read, is an argument. Counting: the reference
-- count of a message, from its proxy function over the send queues to the completions.
--
-- Wire: SetBufferHeader, Encode and Decode (Libraries/ContentLibB/ContentsServer.cpp) for both kinds of
-- server. The characters are numbers below 256, and what `rand` returns is an argument.
--
-- Framing: RecvCompletion of the same file over the Ring: its loops for a LAN and a NET server and for
-- the place of a session are one loop with the tests of each. The bytes that WSARecv writes are enqueued
-- before it. The loop is a recursion on fuel, of which one more than the bytes that wait is enough, since
-- each message takes a byte at least (parse-fuel in Chunks). What the loop calls is a list of events in
-- order; that a refused session goes on to have its socket closed is not part of it.
--
-- Session: the I/O count and the release flag of one slot of the session array (ContentsServer.cpp), as
-- atomic steps of any number of threads in any order. Threads in the same place are counted, not named.
-- A thread takes the count only of a slot that was accepted before, and fewer than 2^31 - 2 hold it. The
-- receive and the send that are under way are holders too; when the system gives them back is open.
--
-- Sending: SendPacket, SendPost and the completion of a send (ContentsServer.cpp), as steps of any number
-- of threads on the queue, the box and `_sendFlag`. The queue of the source is a list whose operations
-- are atomic; that it can be full, where SendPacket disconnects, and the disconnected session are left
-- out. That the system completes a send at some time is taken as a step that is there to make.
--
-- Hosting: how the session library runs its contents: FrameScheduler, the requests that are posted to the
-- completion port, and the rounds of WorkerThread (ContentsServer.cpp). The virtual functions of Contents
-- are the record `Handlers`, which Hosting/Examples fills with the lobby's. The completion port gives the
-- completions in any order. A turn of FrameScheduler takes its 10 ms; how late it wakes is left out, and so
-- are contents that come and go meanwhile.
--
-- Pool: MemoryPool (Common/MemoryPool.h). Nodes are addresses and a pointer with its tag is a pair; the
-- address of a new chunk is an argument. Alloc is split where another thread can come in between: what
-- its loop reads, and its exchange. An exchange that fails and starts over is not modelled.
--
-- LockFree: LFStack (Common/LockFree/LockFreeStack.h). The nodes from the top down are a list, and the
-- keys of the pushes are counted without end: the tag is what the 16-bit counter keeps of a key. Only
-- exchanges that succeed are steps, since one that fails changes nothing.
--
-- Parser: Parser (Common/Parser.cpp), which reads the configuration. A pointer is the text that is left at
-- it, and a read behind the text is no result. Its two loops over blocks and entries are recursions on
-- fuel; every round leaves less of the text, so the length of the text is enough. `atoi` is modelled
-- without blanks in front and without overflow.
--
-- LfQueue: LFQueue (Common/LockFree/LockFreeQueue(CAS).h), the queue of the requests and of the messages to
-- send, as atomic steps of any number of threads on its head, tail, links and size. A node is named by
-- how many came to the tail before it; that memory of a node is used again is left out, and the tags with
-- it. Fewer than 2^31 nodes and threads are in it, so that the sign of the size means what it should.
-- Alone: whole calls by one thread, also of MAXLFQueue (Common/LockFree/MaxLockFreeQueue(CAS).h).
--
-- Not modelled: the reference counts of received messages, the sockets, the start of the session library
-- and its counters for the monitor, the thread-local pool, the monitor client, logging and profiling, the
-- redis connector and the copies of cpp_redis and tacopie.
pub mod Base
pub mod Battle
pub mod Save
pub mod Match
pub mod Packet
pub mod Wire
pub mod Framing
pub mod Session
pub mod Sending
pub mod Pool
pub mod Hosting
pub mod LfQueue
pub mod Parser
pub mod LockFree
pub mod Ring
pub mod MatchId
pub mod Control
