-- ===== src/Save/Examples.antt =====
-- A database that keeps its promises, whose statements fail as a script says, and the theorems at it.
use mo_session_server.Base.{
  List, Option, [], arith, inl, none, refl, some, true, ℕ, ◌∷◌, ◌≡◌, ◌≢◌, false, ◌≤◌, ◌⊎◌,
}
use mo_session_server.Save.{
  Connection, Mysql, Query, battle_history, begin_transaction, commit_transaction, no_error_info,
  player_battle_record, player_battle_stat, rollback_transaction, abandon, execute, finish_save,
  is_final, is_retryable_save_error, numbered_attempt, query_save, save_attempts,
  save_battle_result, save_battle_result_once, set_last_mysql_error, statement, history_query,
  records_query, stats_query,
}
use mo_session_server.Battle.{BattleResult}
use mo_session_server.Save.Attempts.{save_battle_result-stops}
use mo_session_server.Save.Transactions.{IsTransactional}

record Tables : Type 0 where
  rows : List Query
  copy : Option (List Query)
  script : List (Option ℕ)

abbrev next : List (Option ℕ) → Option ℕ
next [] = none
next (o ∷ os) = o

abbrev rest : List (Option ℕ) → List (Option ℕ)
rest [] = []
rest (o ∷ os) = os

abbrev perform : Query → Tables → Tables
perform begin_transaction t = record t { copy = some t.rows }
perform commit_transaction t = elim t.copy [
  | none ↦ t
  | some w ↦ record t { rows = w; copy = none }
]
perform rollback_transaction t = record t { copy = none }
perform (battle_history m w) t = record t {
  copy = elim t.copy [ none ↦ none | some d ↦ some (battle_history m w ∷ d) ];
}
perform (player_battle_record rs) t = record t {
  copy = elim t.copy [ none ↦ none | some d ↦ some (player_battle_record rs ∷ d) ];
}
perform (player_battle_stat rs) t = record t {
  copy = elim t.copy [ none ↦ none | some d ↦ some (player_battle_stat rs ∷ d) ];
}

abbrev ask : Query → Tables → Option ℕ × Tables
ask q t =
    let u = record t { script = rest t.script } in
    (next t.script, elim (next t.script) [ none ↦ perform q u | some e ↦ u ])

abbrev scripted : Mysql
scripted = record { Server = Tables; formats = λ q. true; query = ask }

scripted-statement :
    (q : Query) (s : Tables) (w : List Query)
    → s.copy ≡ some w
    → (ask q s).0 ≡ none
    → (q ≢ commit_transaction)
    → (q ≢ rollback_transaction)
    → (q ≢ begin_transaction)
    → ((ask q s).1.copy ≡ some (q ∷ w)) × ((ask q s).1.rows ≡ s.rows)
scripted-statement begin_transaction s w e f a b c = absurd (c refl)
scripted-statement commit_transaction s w e f a b c = absurd (a refl)
scripted-statement rollback_transaction s w e f a b c = absurd (b refl)
scripted-statement _ s w e f a b c = ground arith

scripted-error : (q : Query) (s : Tables) (e : ℕ) → (ask q s).0 ≡ some e → (ask q s).1.rows ≡ s.rows
scripted-error q s e f = ground arith

scripted-begin :
    (s : Tables)
    → (ask begin_transaction s).0 ≡ none
    → ((ask begin_transaction s).1.copy ≡ some s.rows) × ((ask begin_transaction s).1.rows ≡ s.rows)
scripted-begin s f = ground arith

scripted-begin_err :
    (s : Tables) (e : ℕ)
    → s.copy ≡ none
    → (ask begin_transaction s).0 ≡ some e
    → ((ask begin_transaction s).1.copy ≡ none) × ((ask begin_transaction s).1.rows ≡ s.rows)
scripted-begin_err s e h f = ground arith

scripted-rollback :
    (s : Tables)
    → (ask rollback_transaction s).0 ≡ none
    → ((ask rollback_transaction s).1.copy ≡ none) × ((ask rollback_transaction s).1.rows ≡ s.rows)
scripted-rollback s f = ground arith

scripted-commit :
    (s : Tables) (w : List Query)
    → s.copy ≡ some w
    → (ask commit_transaction s).0 ≡ none
    → ((ask commit_transaction s).1.copy ≡ none) × ((ask commit_transaction s).1.rows ≡ w)
scripted-commit s w h f = ground arith

abbrev scripted-laws : IsTransactional scripted
scripted-laws = record {
  Db = List Query;
  apply = λ q d. q ∷ d;
  committed = λ t. t.rows;
  working = λ t. t.copy;
  begin_ok = λ s h f. scripted-begin s f;
  begin_err = λ s e h f. scripted-begin_err s e h f;
  statement_ok = scripted-statement;
  statement_err = λ q s e f n. scripted-error q s e f;
  rollback_ok = scripted-rollback;
  commit_ok = scripted-commit;
  commit_err = λ s w e h f. inl (scripted-error commit_transaction s e f);
}

-- The second statement meets a deadlock, and the second attempt goes through.
abbrev deadlock_once : Connection scripted
deadlock_once =
    (record { rows = []; copy = none; script = none ∷ none ∷ some 1213 ∷ [] }, no_error_info)

abbrev sample : BattleResult
sample = record {
  match_id = 5;
  winner_team = 1;
  red_team = record { slot0 = 1; slot1 = 2; slot2 = 3 };
  blue_team = record { slot0 = 4; slot1 = 5; slot2 = 6 };
}

retried : (save_battle_result scripted sample deadlock_once).0.attempt_count ≡ 2
unfolding save_battle_result save_attempts numbered_attempt save_battle_result_once execute
    query_save statement abandon finish_save is_retryable_save_error set_last_mysql_error
    history_query records_query stats_query
retried = refl

save_battle_result-stops_example :
    let s = (save_battle_result scripted sample deadlock_once).0 in
    (1 ≤ s.attempt_count)
    × (s.attempt_count ≤ 3)
    × ((s.retry_exhausted ≡ false) × (is_final s ≡ true)
        ⊎ (s.retry_exhausted ≡ true) × (is_final s ≡ false) × (s.attempt_count ≡ 3))
save_battle_result-stops_example = save_battle_result-stops scripted sample deadlock_once
