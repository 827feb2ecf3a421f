-- ===== src/Packet/Examples.antt =====
-- A buffer of 16 bytes with messages in it, and the theorems about it there.
use mo_session_server.Packet.Counting.{
  Happening, sends, lets_go, in_queue, not_there, proxy_life, freed_once, proxy_life-freed_once,
}
use mo_session_server.Base.{List, [], arith, false, refl, some, ℕ, ◌∷◌, ◌≡◌}
use mo_session_server.Packet.{SBuffer, clear, payload, read_all, write_all}
use mo_session_server.Battle.Actions.{handle}
use mo_session_server.Packet.Fighter.{proc_message, request_of}
use mo_session_server.Packet.Memory.{Inv}
use mo_session_server.Packet.Stream.{read_all-write_all, values_of, variables}
use mo_session_server.Packet.Requests.{proc_message-request}

abbrev small : SBuffer
small = record {
  buffer = 0 ∷ 0 ∷ 0 ∷ 0 ∷ 0 ∷ 12 ∷ 4 ∷ 44 ∷ 1 ∷ 7 ∷ 0 ∷ 0 ∷ 0 ∷ 0 ∷ 0 ∷ 0 ∷ [];
  read = 5;
  write = 11;
  buffer_size = 16;
  data_size = 6;
  refcnt = 1;
  e_flag = false;
}

small-Inv : Inv small
small-Inv = record { holds = refl; ends = refl; inside = omega arith }

abbrev sample_fields : List (ℕ × ℕ)
sample_fields = (1, 30) ∷ (4, 70000) ∷ (2, 513) ∷ []

stored_bytes : payload small ≡ 12 ∷ 4 ∷ 44 ∷ 1 ∷ 7 ∷ 0 ∷ []
stored_bytes = refl

read_all-write_all_example :
    (c : SBuffer) × (write_all sample_fields (clear small) ≡ some c)
    × ((read_all (variables sample_fields 9) c).0 ≡ values_of sample_fields)
    × (payload (read_all (variables sample_fields 9) c).1 ≡ [])
read_all-write_all_example =
    read_all-write_all sample_fields 9 small (omega arith, (omega arith, (omega arith, tt))) refl
      (omega arith)

proc_message-request_example :
    proc_message 255 [] 3 1000 small ≡ handle [] 3 1000 (request_of 12 4 300 7)
proc_message-request_example =
    proc_message-request 255 12 4 300 7 [] [] 3 1000 small small-Inv
      (omega arith, (omega arith, (omega arith, (omega arith, tt)))) refl

-- Sent to three sessions, of which one has gone; the first queue lets the message go at once.
abbrev sent_thrice : List Happening
sent_thrice = sends in_queue ∷ lets_go ∷ sends not_there ∷ sends in_queue ∷ []

proxy_life-freed_once_example :
    proxy_life sent_thrice (record { refcnt = 0; freed = 0; broken = false }) ≡ freed_once
proxy_life-freed_once_example = proxy_life-freed_once sent_thrice
