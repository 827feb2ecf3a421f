-- ===== src/Save.antt =====
-- BattleDB of Servers/BattleSessionServer/BattleDB.cpp, over DBConnector of
-- Common/TLS/DBConnector.cpp. The MySQL client library is a parameter: `query` is `mysql_query`, with
-- the error number that `mysql_errno` gives where it fails; `formats` tells whether
-- `StringCchPrintfW` finds room for the text of a query.
pub mod Transactions
pub mod Atomic
pub mod Attempts
mod Examples
use mo_session_server.Base.{
  ℕ, Bool, List, Option, [], false, if◌then◌else◌, none, not, some, suc, true, zero, ◌&&◌, ◌==◌,
  ◌||◌, ◌∷◌, ◌+◌, ◌-◌,
}
use mo_session_server.Battle.{BattleResult}

-- The rows of the three INSERT statements of BattleDB.cpp
pub record RecordRow : Type 0 where
  pub row_match : ℕ
  pub account_no : ℕ
  pub team : ℕ
  pub slot_no : ℕ
  pub is_win : ℕ

pub record StatRow : Type 0 where
  pub stat_account : ℕ
  pub win_count : ℕ
  pub loss_count : ℕ

-- The texts that are sent to the server, by what they say
pub data Query : Type 0 where
  begin_transaction commit_transaction rollback_transaction : Query
  battle_history : (match_id winner_team : ℕ) → Query
  player_battle_record : List RecordRow → Query
  player_battle_stat : List StatRow → Query

-- `enum class DBErrorCategory`
pub data DbErrorCategory : Type 0 where
  no_error duplicate_key deadlock lock_timeout connection_lost query_format_error unknown_error :
      DbErrorCategory

-- `struct DBErrorInfo`
pub record DbErrorInfo : Type 0 where
  pub category : DbErrorCategory
  pub mysql_error : ℕ

-- `enum class DBSaveStage`
pub data DbSaveStage : Type 0 where
  no_stage begin_stage history_stage record_stage stat_stage commit_stage : DbSaveStage

-- `struct DBSaveResult`
pub record DbSaveResult : Type 0 where
  pub succeeded : Bool
  pub stage : DbSaveStage
  pub error : DbErrorInfo
  pub rollback_attempted : Bool
  pub rollback_succeeded : Bool
  pub commit_outcome_unknown : Bool
  pub attempt_count : ℕ
  pub retry_exhausted : Bool

abbrev pub no_error_info : DbErrorInfo
no_error_info = record { category = no_error; mysql_error = 0 }

-- A `DBSaveResult` with its default member values
abbrev pub default_result : DbSaveResult
default_result = record {
  succeeded = false;
  stage = no_stage;
  error = no_error_info;
  rollback_attempted = false;
  rollback_succeeded = false;
  commit_outcome_unknown = false;
  attempt_count = 1;
  retry_exhausted = false;
}

-- `SetLastMysqlError`: ER_DUP_ENTRY, ER_LOCK_DEADLOCK, ER_LOCK_WAIT_TIMEOUT, CR_SERVER_GONE_ERROR
-- and CR_SERVER_LOST, by the numbers that DBConnector.h gives.
unfoldable pub set_last_mysql_error : ℕ → DbErrorInfo
set_last_mysql_error e =
    if e == 1062
    then record { category = duplicate_key; mysql_error = e }
    else if e == 1213
    then record { category = deadlock; mysql_error = e }
    else if e == 1205
    then record { category = lock_timeout; mysql_error = e }
    else if e == 2006 || e == 2013
    then record { category = connection_lost; mysql_error = e }
    else record { category = unknown_error; mysql_error = e }

-- `IsRetryableSaveError`
unfoldable pub is_retryable_save_error : DbSaveResult → Bool
is_retryable_save_error r =
    if r.commit_outcome_unknown
    then false
    else if r.rollback_attempted && not r.rollback_succeeded
    then false
    else elim r.stage [
      | commit_stage ↦ false
      | _ ↦ elim r.error.category [ deadlock ↦ true | lock_timeout ↦ true | _ ↦ false ]
    ]

-- The two returns of the loop before the test for the last attempt
abbrev pub is_final : DbSaveResult → Bool
is_final s = s.succeeded || not (is_retryable_save_error s)

-- `kMaxSaveAttempts`
abbrev pub max_save_attempts : ℕ
max_save_attempts = 3

-- The query of `InsertBattleHistory`
unfoldable pub history_query : BattleResult → Query
history_query r = battle_history r.match_id r.winner_team

win_flag : ℕ → ℕ → ℕ
win_flag team winner = if winner == team then 1 else 0

loss_flag : ℕ → ℕ → ℕ
loss_flag team winner = if winner == team then 0 else 1

record_row : ℕ → ℕ → ℕ → ℕ → ℕ → RecordRow
record_row m account t slot win = record {
  row_match = m;
  account_no = account;
  team = t;
  slot_no = slot;
  is_win = win;
}

stat_row : ℕ → ℕ → ℕ → StatRow
stat_row account win loss = record { stat_account = account; win_count = win; loss_count = loss }

-- The query of `InsertPlayerBattleRecords`: red is team 0 of the table, blue is team 1.
unfoldable pub records_query : BattleResult → Query
unfolding win_flag record_row
records_query r =
    let red_win = win_flag 1 r.winner_team in
    let blue_win = win_flag 2 r.winner_team in
    player_battle_record (
      record_row r.match_id r.red_team.slot0 0 0 red_win
      ∷ record_row r.match_id r.red_team.slot1 0 1 red_win
      ∷ record_row r.match_id r.red_team.slot2 0 2 red_win
      ∷ record_row r.match_id r.blue_team.slot0 1 0 blue_win
      ∷ record_row r.match_id r.blue_team.slot1 1 1 blue_win
      ∷ record_row r.match_id r.blue_team.slot2 1 2 blue_win
      ∷ [])

-- The query of `UpsertPlayerBattleStats`
unfoldable pub stats_query : BattleResult → Query
unfolding win_flag loss_flag stat_row
stats_query r =
    let red_win = win_flag 1 r.winner_team in
    let red_loss = loss_flag 1 r.winner_team in
    let blue_win = win_flag 2 r.winner_team in
    let blue_loss = loss_flag 2 r.winner_team in
    player_battle_stat (
      stat_row r.red_team.slot0 red_win red_loss
      ∷ stat_row r.red_team.slot1 red_win red_loss
      ∷ stat_row r.red_team.slot2 red_win red_loss
      ∷ stat_row r.blue_team.slot0 blue_win blue_loss
      ∷ stat_row r.blue_team.slot1 blue_win blue_loss
      ∷ stat_row r.blue_team.slot2 blue_win blue_loss
      ∷ [])

-- The client library, and the server behind it
pub record Mysql : Type 1 where
  pub Server : Type 0
  pub formats : Query → Bool
  pub query : Query → Server → Option ℕ × Server

module _ (M : Mysql) where
  open M use {Server, formats, query}

  -- `DBConnector`: the connection with the last error
  abbrev pub Connection : Type 0
  Connection = Server × DbErrorInfo

  -- `ClearLastError`, `mysql_query` and `SetLastMysqlError`, as in BeginTransaction, Commit and
  -- Rollback, and in ExecuteSaveQuery
  unfoldable pub execute : Query → Connection → Bool × Connection
  execute q (s, _) = elim (query q s).0 [
    | none ↦ (true, ((query q s).1, no_error_info))
    | some e ↦ (false, ((query q s).1, set_last_mysql_error e))
  ]

  -- `QuerySave`
  unfoldable pub query_save : Query → Connection → Bool × Connection
  query_save q (s, e) =
      if formats q
      then execute q (s, e)
      else (false, (s, record { category = query_format_error; mysql_error = 0 }))

  -- The three branches of `SaveBattleResultOnce` for a statement that failed
  unfoldable pub abandon : DbSaveStage → Connection → DbSaveResult × Connection
  abandon at c =
      let (undone, c') = execute rollback_transaction c in
      (
        record default_result {
          stage = at;
          error = c.1;
          rollback_attempted = true;
          rollback_succeeded = undone;
        },
        c',
      )

  -- The branch for a failed commit
  unfoldable pub fail_commit : Connection → DbSaveResult × Connection
  fail_commit c =
      let (undone, c') = execute rollback_transaction c in
      (
        record default_result {
          stage = commit_stage;
          error = c.1;
          rollback_attempted = true;
          rollback_succeeded = undone;
          commit_outcome_unknown = elim c.1.category [ connection_lost ↦ true | _ ↦ not undone ];
        },
        c',
      )

  -- From the commit on
  unfoldable pub finish_save : Connection → DbSaveResult × Connection
  finish_save c =
      let (done, c') = execute commit_transaction c in
      if done then (record default_result { succeeded = true }, c') else fail_commit c'

  -- One statement of the transaction and what follows it
  unfoldable pub statement :
      DbSaveStage
      → Query
      → (Connection → DbSaveResult × Connection)
      → Connection
      → DbSaveResult × Connection
  statement at q rest c = let (done, c') = query_save q c in if done then rest c' else abandon at c'

  -- `SaveBattleResultOnce`
  unfoldable pub save_battle_result_once : BattleResult → Connection → DbSaveResult × Connection
  save_battle_result_once r c =
      let (begun, c') = execute begin_transaction c in
      if begun
      then statement history_stage (history_query r)
          (statement record_stage (records_query r)
            (statement stat_stage (stats_query r) finish_save))
          c'
      else (record default_result { stage = begin_stage; error = c'.1 }, c')

  -- One attempt of the loop of `SaveBattleResult`, with `_attemptCount` set
  unfoldable pub numbered_attempt : ℕ → BattleResult → Connection → DbSaveResult × Connection
  numbered_attempt attempt r c =
      let (s, c') = save_battle_result_once r c in (record s { attempt_count = attempt }, c')

  -- The loop of `SaveBattleResult`: `left` attempts remain after the one numbered `attempt`.
  unfoldable pub save_attempts : ℕ → ℕ → BattleResult → Connection → DbSaveResult × Connection
  save_attempts zero attempt r c =
      let (s, c') = numbered_attempt attempt r c in
      if is_final s then (s, c') else (record s { retry_exhausted = true }, c')
  save_attempts (suc left) attempt r c =
      let (s, c') = numbered_attempt attempt r c in
      let rest = save_attempts left (attempt + 1) r c' in if is_final s then (s, c') else rest

  -- `SaveBattleResult`
  unfoldable pub save_battle_result : BattleResult → Connection → DbSaveResult × Connection
  save_battle_result r c = save_attempts (max_save_attempts - 1) 1 r c
