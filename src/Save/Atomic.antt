-- ===== src/Save/Atomic.antt =====
-- What BattleDB::SaveBattleResult leaves in the database, over all its attempts.
use mo_session_server.Save.Transactions.{IsTransactional}
use mo_session_server.Base.{false, none, true, ◌≡◌, ◌⊎◌}
use mo_session_server.Save.{
  Connection, DbSaveResult, Mysql, commit_stage, history_query, is_retryable_save_error,
  stats_query, records_query,
}
use mo_session_server.Battle.{BattleResult}

-- What MySQL documents of transactions. `committed` is what the tables hold for every other session,
-- `working` the copy of an open transaction of this connection, and `apply` what a statement does.
module _ (M : Mysql) (T : IsTransactional M) where
  open T use {Db, apply, committed, working}

  -- The three statements of one result
  abbrev pub saved : BattleResult → Db → Db
  saved r d = apply (stats_query r) (apply (records_query r) (apply (history_query r) d))

  -- What a call may leave behind, where the tables held `d` before it
  data Left (r : BattleResult) (d : Db) (s : DbSaveResult) (c : Connection M) : Type 0 where
    all_saved : s.succeeded ≡ true → committed c.0 ≡ saved r d → Left r d s c
    none_saved :
        s.succeeded ≡ false
        → committed c.0 ≡ d
        → (is_retryable_save_error s ≡ true → working c.0 ≡ none)
        → Left r d s c
    lost_commit :
        s.succeeded ≡ false → s.stage ≡ commit_stage → committed c.0 ≡ saved r d → Left r d s c

  -- The tables after a save: as the result says.
  abbrev pub Outcome : BattleResult → Db → DbSaveResult → Connection M → Type 0
  Outcome r d s c =
      (s.succeeded ≡ true) × (committed c.0 ≡ saved r d)
      ⊎ (s.succeeded ≡ false) × (committed c.0 ≡ d)
      ⊎ (s.succeeded ≡ false) × (s.stage ≡ commit_stage) × (committed c.0 ≡ saved r d)
