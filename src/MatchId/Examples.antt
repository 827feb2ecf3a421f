-- ===== src/MatchId/Examples.antt =====
-- A generator whose millisecond is used up, and the theorems about it.
use mo_session_server.MatchId.{MatchIdGenerator}

abbrev busy : MatchIdGenerator
busy = record { last_timestamp = 1000; server_id = 3; sequence = 4095 }

abbrev after_wait : MatchIdGenerator
after_wait = record { last_timestamp = 1002; server_id = 3; sequence = 0 }
