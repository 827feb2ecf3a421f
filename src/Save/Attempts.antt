-- ===== src/Save/Attempts.antt =====
-- How often a save is attempted, and when it is given up.
use mo_session_server.Base.{
  false, true, ℕ, ◌+◌, ◌≡◌, ◌≤◌, Bool-cases, arith, inl, inr, refl, suc, zero, ◌⊎◌, ◌∙◌, subst, sym,
}
use mo_session_server.Save.{
  Connection, DbSaveResult, Mysql, abandon, fail_commit, finish_save, is_retryable_save_error,
  numbered_attempt, save_attempts, save_battle_result_once, statement, is_final, save_battle_result,
}
use mo_session_server.Battle.{BattleResult}

module _ (M : Mysql) where
  attempt_of :
      (attempt : ℕ) (r : BattleResult) (c : Connection M)
      → ((numbered_attempt M attempt r c).0.attempt_count ≡ attempt)
        × ((numbered_attempt M attempt r c).0.retry_exhausted ≡ false)
  unfolding numbered_attempt save_battle_result_once statement abandon finish_save fail_commit
  attempt_of attempt r c = (refl, ground arith)

  -- The loop stops at an attempt that is final, or gives up at the last one.
  abbrev Stops : ℕ → ℕ → DbSaveResult → Type 0
  Stops lo hi s =
      (lo ≤ s.attempt_count)
      × (s.attempt_count ≤ hi)
      × ((s.retry_exhausted ≡ false) × (is_final s ≡ true)
          ⊎ (s.retry_exhausted ≡ true) × (is_final s ≡ false) × (s.attempt_count ≡ hi))

  widen :
      (s : DbSaveResult) (lo lo' hi hi' : ℕ) → lo' ≤ lo → hi ≡ hi' → Stops lo hi s → Stops lo' hi' s
  widen s lo lo' hi hi' p q h =
      (omega arith, omega arith, elim h.2 [ inl k ↦ inl k | inr k ↦ inr (k.0, k.1, k.2 ∙ q) ])

  save_attempts-final :
      (left attempt : ℕ) (r : BattleResult) (c : Connection M)
      → is_final (numbered_attempt M attempt r c).0 ≡ true
      → save_attempts M left attempt r c ≡ numbered_attempt M attempt r c
  unfolding save_attempts
  save_attempts-final zero attempt r c done = rw done refl
  save_attempts-final (suc left) attempt r c done = rw done refl

  save_attempts-last :
      (attempt : ℕ) (r : BattleResult) (c : Connection M)
      → is_final (numbered_attempt M attempt r c).0 ≡ false
      → (save_attempts M 0 attempt r c).0
        ≡ record (numbered_attempt M attempt r c).0 { retry_exhausted = true }
  unfolding save_attempts
  save_attempts-last attempt r c again = rw again refl

  save_attempts-again :
      (left attempt : ℕ) (r : BattleResult) (c : Connection M)
      → is_final (numbered_attempt M attempt r c).0 ≡ false
      → save_attempts M (suc left) attempt r c
        ≡ save_attempts M left (attempt + 1) r (numbered_attempt M attempt r c).1
  unfolding save_attempts
  save_attempts-again left attempt r c again = rw again refl

  final-Stops :
      (s : DbSaveResult) (lo hi : ℕ)
      → s.attempt_count ≡ lo
      → s.retry_exhausted ≡ false
      → lo ≤ hi
      → is_final s ≡ true
      → Stops lo hi s
  final-Stops s lo hi e f le done = (omega arith, omega arith, inl (f, done))

  exhausted-Stops :
      (s : DbSaveResult) (lo : ℕ)
      → s.attempt_count ≡ lo
      → is_final s ≡ false
      → Stops lo (lo + 0) (record s { retry_exhausted = true })
  unfolding is_retryable_save_error
  exhausted-Stops s lo e again = (omega arith, omega arith, inr (refl, again, omega arith))

  first-Stops :
      (left attempt : ℕ) (r : BattleResult) (c : Connection M)
      → is_final (numbered_attempt M attempt r c).0 ≡ true
      → Stops attempt (attempt + left) (save_attempts M left attempt r c).0
  first-Stops left attempt r c done =
      subst (λ t. Stops attempt (attempt + left) t.0)
        (sym (save_attempts-final left attempt r c done))
        (final-Stops (numbered_attempt M attempt r c).0 attempt (attempt + left)
          (attempt_of attempt r c).0 (attempt_of attempt r c).1 (omega arith) done)

  attempts-Stops :
      (left attempt : ℕ) (r : BattleResult) (c : Connection M)
      → Stops attempt (attempt + left) (save_attempts M left attempt r c).0
  attempts-Stops zero attempt r c =
      elim (Bool-cases (is_final (numbered_attempt M attempt r c).0)) [
        | inl done ↦ first-Stops 0 attempt r c done
        | inr again ↦
            subst (Stops attempt (attempt + 0)) (sym (save_attempts-last attempt r c again)) (
              exhausted-Stops (numbered_attempt M attempt r c).0 attempt (attempt_of attempt r c).0
                again)
      ]
  attempts-Stops (suc left) attempt r c =
      elim (Bool-cases (is_final (numbered_attempt M attempt r c).0)) [
        | inl done ↦ first-Stops (suc left) attempt r c done
        | inr again ↦
            subst (λ t. Stops attempt (attempt + suc left) t.0)
              (sym (save_attempts-again left attempt r c again))
              (widen (save_attempts M left (attempt + 1) r (numbered_attempt M attempt r c).1).0
                (attempt + 1) attempt (attempt + 1 + left) (attempt + suc left) (omega arith)
                (omega arith)
                (attempts-Stops left (attempt + 1) r (numbered_attempt M attempt r c).1))
      ]

  -- A save makes one to three attempts. Either it stops at one that succeeded or must not be repeated,
  -- and does not report the retries as exhausted; or the third attempt failed with an error that could
  -- be retried, and it does.
  pub save_battle_result-stops :
      (r : BattleResult) (c : Connection M)
      → let s = (save_battle_result M r c).0 in
        (1 ≤ s.attempt_count)
        × (s.attempt_count ≤ 3)
        × ((s.retry_exhausted ≡ false) × (is_final s ≡ true)
            ⊎ (s.retry_exhausted ≡ true) × (is_final s ≡ false) × (s.attempt_count ≡ 3))
  unfolding save_battle_result
  save_battle_result-stops r c = attempts-Stops 2 1 r c
