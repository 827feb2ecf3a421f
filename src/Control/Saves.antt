-- ===== src/Control/Saves.antt =====
-- The queue of the database threads of FighterServer, and their counters.
use mo_session_server.Control.{
  DbQueue, SaveCounters, count_failure, push_db_request, record_db_save_counters, takes,
  wait_and_pop_db_request, stops, waits,
}
use mo_session_server.Base.{
  ℕ, List, [], ◌∷◌, ◌≡◌, ◌+◌, ◌%◌, ◌^◌, arith, suc, zero, ap, append-nil, append_assoc,
  if◌then◌else◌, length, refl, sym, ◌++◌, ◌∙◌,
}
use mo_session_server.Save.{DbSaveResult}
use mo_session_server.Battle.{BattleResult}

-- The counters agree, as far as their width goes.
pub record Balanced (c : SaveCounters) : Type 0 where
  pub saves_agree : (c.success_total + c.failure_total) % 2 ^ 32 ≡ c.save_count % 2 ^ 32
  pub failures_agree :
      (c.duplicate_key_total + c.deadlock_total + c.lock_timeout_total + c.connection_lost_total
          + c.query_format_error_total + c.unknown_error_total)
        % 2 ^ 64
      ≡ c.failure_total % 2 ^ 64

step-Balanced :
    (c : SaveCounters) (r : DbSaveResult) → Balanced c → Balanced (record_db_save_counters c r)
unfolding record_db_save_counters count_failure
step-Balanced c r v = ground (arith, v.saves_agree, v.failures_agree)

unfoldable pub record_all : SaveCounters → List DbSaveResult → SaveCounters
record_all c [] = c
record_all c (r ∷ rs) = record_all (record_db_save_counters c r) rs

-- However saves end, the successes and the failures add up to the saves, modulo the width of the
-- narrower counter, and the failures by category add up to the failures.
pub record_all-Balanced :
    (c : SaveCounters) (rs : List DbSaveResult) → Balanced c → Balanced (record_all c rs)
unfolding record_all
record_all-Balanced c [] v = v
record_all-Balanced c (r ∷ rs) v =
    record_all-Balanced (record_db_save_counters c r) rs (step-Balanced c r v)

unfoldable push_all : List BattleResult → DbQueue → DbQueue
push_all [] q = q
push_all (r ∷ rs) q = push_all rs (push_db_request r q)

-- Takes requests until the worker has to wait or to stop.
unfoldable pop_all : ℕ → DbQueue → List BattleResult × DbQueue
pop_all zero q = ([], q)
pop_all (suc n) q =
    let (p, q') = wait_and_pop_db_request q in
    let rest = pop_all n q' in elim p [ takes r ↦ (r ∷ rest.0, rest.1) | _ ↦ ([], q') ]

push_all-append :
    (rs : List BattleResult) (q : DbQueue)
    → push_all rs q ≡ record q { requests = q.requests ++ rs }
unfolding push_all push_db_request
push_all-append [] q = ap (λ l. record q { requests = l }) (sym (append-nil q.requests))
push_all-append (r ∷ rs) q =
    push_all-append rs (record q { requests = q.requests ++ (r ∷ []) })
    ∙ ap (λ l. record q { requests = l }) (append_assoc q.requests (r ∷ []) rs)

pop_all-whole :
    (rs : List BattleResult) (q : DbQueue)
    → q.requests ≡ rs
    → pop_all (length rs) q ≡ (rs, record q { requests = [] })
unfolding pop_all wait_and_pop_db_request
pop_all-whole [] q e = ap (λ l. ([], record q { requests = l })) e
pop_all-whole (r ∷ rs) q e =
    ap (λ l. pop_all (length (r ∷ rs)) (record q { requests = l })) e
    ∙ ap (λ p. (r ∷ p.0, p.1)) (pop_all-whole rs (record q { requests = rs }) refl)

-- The workers together take every request that was pushed, in the order of the pushes, also after the
-- threads were told to stop; then a worker waits while they run, and stops when they do not.
push_all-pop_all :
    (rs : List BattleResult) (q : DbQueue)
    → q.requests ≡ []
    → let (taken, left) = pop_all (length rs) (push_all rs q) in
      (taken ≡ rs) × ((wait_and_pop_db_request left).0 ≡ (if q.running then waits else stops))
unfolding wait_and_pop_db_request
push_all-pop_all rs q empty =
    let e : push_all rs q ≡ record q { requests = rs } =
      push_all-append rs q ∙ ap (λ l. record q { requests = l ++ rs }) empty in
    let f : pop_all (length rs) (push_all rs q) ≡ (rs, record q { requests = [] }) =
      ap (pop_all (length rs)) e ∙ pop_all-whole rs (record q { requests = rs }) refl in
    (ap (λ p. p.0) f, ap (λ p. (wait_and_pop_db_request p.1).0) f)
