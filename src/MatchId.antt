-- ===== src/MatchId.antt =====
-- MatchIDGenerator of Servers/BattleSessionServer/MatchIDGenerator.h and .cpp. The clock is a parameter:
-- the readings of GetRelativeUnixTimestampMs, in the order in which they are taken.
pub mod Order
mod Examples
use mo_session_server.Base.{
  ℕ, List, Option, [], ◌∷◌, ◌+◌, ◌*◌, ◌%◌, ◌^◌, none, some, if◌then◌else◌, ltb, leb, ◌==◌, bit_or,
}

-- The members of `class MatchIDGenerator`; the sequence is a `uint16_t`.
pub record MatchIdGenerator : Type 0 where
  pub last_timestamp : ℕ
  pub server_id : ℕ
  pub sequence : ℕ

abbrev pub max_server_id : ℕ
max_server_id = 1023

abbrev pub max_sequence : ℕ
max_sequence = 4095

abbrev pub server_id_shift : ℕ
server_id_shift = 12

abbrev pub timestamp_shift : ℕ
timestamp_shift = 22

-- `MakeID`: a shift of a `uint64_t` drops what goes out of it.
unfoldable pub make_id : ℕ → ℕ → ℕ → ℕ
make_id timestamp server sequence =
    bit_or
      (bit_or (timestamp * 2 ^ timestamp_shift % 2 ^ 64) (server * 2 ^ server_id_shift % 2 ^ 64))
      sequence

-- `WaitNextMillisecond` on the readings that follow; `none` when they end before the clock moves on.
unfoldable pub wait_next_millisecond : ℕ → List ℕ → Option (ℕ × List ℕ)
wait_next_millisecond last [] = none
wait_next_millisecond last (now ∷ clock) =
    if leb now last then wait_next_millisecond last clock else some (now, clock)

-- The generator and the ID once the time and the sequence are settled
unfoldable pub issue : MatchIdGenerator → ℕ → ℕ → ℕ × MatchIdGenerator
issue g now sequence =
    (make_id now g.server_id sequence, record g { last_timestamp = now; sequence = sequence })

-- `Create`
unfoldable pub create : MatchIdGenerator → ℕ → List ℕ → Option ((ℕ × MatchIdGenerator) × List ℕ)
create g reading clock =
    let now = if ltb reading g.last_timestamp then g.last_timestamp else reading in
    let next = (g.sequence + 1) % 2 ^ 16 in
    if now == g.last_timestamp
    then if ltb max_sequence next
      then elim (wait_next_millisecond g.last_timestamp clock) [
        | none ↦ none
        | some (later, rest) ↦ some (issue g later 0, rest)
      ]
      else some (issue g now next, clock)
    else some (issue g now 0, clock)
