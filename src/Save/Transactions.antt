-- ===== src/Save/Transactions.antt =====
-- What is relied on of the database: the laws of transactions.
use mo_session_server.Base.{Option, none, some, ℕ, ◌≡◌, ◌≢◌, ◌⊎◌}
use mo_session_server.Save.{
  Mysql, Query, begin_transaction, commit_transaction, rollback_transaction,
}

pub record IsTransactional (M : Mysql) : Type 1 where
  pub Db : Type 0
  pub apply : Query → Db → Db
  pub committed : M.Server → Db
  pub working : M.Server → Option Db
  pub begin_ok :
      (s : M.Server)
      → working s ≡ none
      → (M.query begin_transaction s).0 ≡ none
      → (working (M.query begin_transaction s).1 ≡ some (committed s))
        × (committed (M.query begin_transaction s).1 ≡ committed s)
  pub begin_err :
      (s : M.Server) (e : ℕ)
      → working s ≡ none
      → (M.query begin_transaction s).0 ≡ some e
      → (working (M.query begin_transaction s).1 ≡ none)
        × (committed (M.query begin_transaction s).1 ≡ committed s)
  pub statement_ok :
      (q : Query) (s : M.Server) (w : Db)
      → working s ≡ some w
      → (M.query q s).0 ≡ none
      → (q ≢ commit_transaction)
      → (q ≢ rollback_transaction)
      → (q ≢ begin_transaction)
      → (working (M.query q s).1 ≡ some (apply q w)) × (committed (M.query q s).1 ≡ committed s)
  pub statement_err :
      (q : Query) (s : M.Server) (e : ℕ)
      → (M.query q s).0 ≡ some e
      → (q ≢ commit_transaction)
      → committed (M.query q s).1 ≡ committed s
  pub rollback_ok :
      (s : M.Server)
      → (M.query rollback_transaction s).0 ≡ none
      → (working (M.query rollback_transaction s).1 ≡ none)
        × (committed (M.query rollback_transaction s).1 ≡ committed s)
  pub commit_ok :
      (s : M.Server) (w : Db)
      → working s ≡ some w
      → (M.query commit_transaction s).0 ≡ none
      → (working (M.query commit_transaction s).1 ≡ none)
        × (committed (M.query commit_transaction s).1 ≡ w)
  pub commit_err :
      (s : M.Server) (w : Db) (e : ℕ)
      → working s ≡ some w
      → (M.query commit_transaction s).0 ≡ some e
      → (committed (M.query commit_transaction s).1 ≡ committed s)
        ⊎ (committed (M.query commit_transaction s).1 ≡ w)
