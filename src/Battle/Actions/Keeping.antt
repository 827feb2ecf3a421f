-- ===== src/Battle/Actions/Keeping.antt =====
-- How the request handlers of StubForFight end, branch by branch, and where they leave the players.
use mo_session_server.Battle.Actions.Damage.{attack_player-find}
use mo_session_server.Base.{
  ℕ, ==_iff, Bool-cases, arith, inl, inr, some, subst, true, ◌==◌, ◌∙◌, ◌≡◌, ◌≤◌, Option-cases, not,
  ◌&&◌, ◌⊎◌,
}
use mo_session_server.Base.Int.{abs_diff, eqb_ℤ, negsuc, pos}
use mo_session_server.Base.Table.{find, assign, find-assign, IsMap, assign-IsMap}
use mo_session_server.Battle.{Player, Roster, error_range}
use mo_session_server.Battle.Actions.{
  is_position_sync_valid, proc_cs_move_start, Attack, attack_player, can_handle_attack,
  can_handle_move_request, is_valid_move_direction, proc_cs_attack, proc_cs_move_stop,
  update_action_state, started, stopped, damaged, get_attack_damage,
}

abbrev pub Near : Player → Player → Type 0
Near p q = (abs_diff p.x q.x ≤ error_range) × (abs_diff p.y q.y ≤ error_range)

Near-refl : (p : Player) → Near p p
Near-refl p = ground arith

sync-Near :
    (p : Player) (x y : ℕ)
    → is_position_sync_valid p x y ≡ true
    → (abs_diff p.x x ≤ error_range) × (abs_diff p.y y ≤ error_range)
unfolding is_position_sync_valid
sync-Near p x y h = ground arith

-- A player of the map is still there, and not far from where it was.
abbrev pub Keeps : Roster → Roster → Type 0
Keeps m m' =
    (j : ℕ) (p : Player) → find j m ≡ some p → (q : Player) × (find j m' ≡ some q) × Near p q

Keeps-refl : (m : Roster) → Keeps m m
Keeps-refl m j p e = (p, e, Near-refl p)

Keeps-assign :
    (m : Roster) (s : ℕ) (p q : Player) → find s m ≡ some p → Near p q → Keeps m (assign s q m)
Keeps-assign m s p q e n j r f = elim (Bool-cases (s == j)) [
  | inl same ↦ (
    q,
    find-assign s j q p m e ∙ rw same,
    subst (λ v. Near v q) {x = p} {y = r} (cc (e, f, (==_iff s j).0 same)) n,
  )
  | inr other ↦ (r, find-assign s j q p m e ∙ rw other f, Near-refl r)
]

-- A move start changes nothing, or passes every check and writes the new state of its player.
move_start_cases :
    (m : Roster) (s dir x y now : ℕ)
    → ((proc_cs_move_start m s dir x y now).0 ≡ m)
      ⊎ ((p : Player) × (find s m ≡ some p)
          × (is_position_sync_valid p x y ≡ true)
          × (can_handle_move_request p now ≡ true)
          × ((proc_cs_move_start m s dir x y now).0 ≡ assign s (started p dir x y now) m))
unfolding proc_cs_move_start
move_start_cases m s dir x y now = elim (Option-cases (find s m)) [
  | inl e ↦ inl (ground arith)
  | inr (p, e) ↦
      elim (Bool-cases (
        is_valid_move_direction dir
        && is_position_sync_valid p x y
        && not (eqb_ℤ p.move (pos dir))
        && can_handle_move_request p now)) [
          | inl pass ↦ inr (p, e, ground arith, ground arith, ground arith)
          | inr fail ↦ inl (ground arith)
        ]
]

move_stop_cases :
    (m : Roster) (s dir x y : ℕ)
    → ((proc_cs_move_stop m s dir x y).0 ≡ m)
      ⊎ ((p : Player) × (find s m ≡ some p)
          × (is_position_sync_valid p x y ≡ true)
          × ((proc_cs_move_stop m s dir x y).0 ≡ assign s (stopped p dir x y) m))
unfolding proc_cs_move_stop
move_stop_cases m s dir x y = elim (Option-cases (find s m)) [
  | inl e ↦ inl (ground arith)
  | inr (p, e) ↦
      elim (Bool-cases (
        is_valid_move_direction dir
        && is_position_sync_valid p x y
        && not (eqb_ℤ p.move (negsuc 0)))) [
          | inl pass ↦ inr (p, e, ground arith, ground arith)
          | inr fail ↦ inl (ground arith)
        ]
]

pub attack_cases :
    (k : Attack) (m : Roster) (s dir x y now : ℕ)
    → ((proc_cs_attack k m s dir x y now).0 ≡ m)
      ⊎ ((p : Player) × (find s m ≡ some p)
          × (is_position_sync_valid p x y ≡ true)
          × (can_handle_attack p now ≡ true)
          × ((proc_cs_attack k m s dir x y now).0
              ≡ (attack_player
                  (update_action_state p dir x y now)
                  k
                  (assign s (update_action_state p dir x y now) m)).0))
unfolding proc_cs_attack
attack_cases k m s dir x y now = elim (Option-cases (find s m)) [
  | inl e ↦ inl (ground arith)
  | inr (p, e) ↦
      elim (Bool-cases
        (is_valid_move_direction dir && is_position_sync_valid p x y && can_handle_attack p now)) [
          | inl pass ↦ inr (p, e, ground arith, ground arith, ground arith)
          | inr fail ↦ inl (ground arith)
        ]
]

pub move_start-Keeps :
    (m : Roster) (s dir x y now : ℕ) → Keeps m (proc_cs_move_start m s dir x y now).0
unfolding started
move_start-Keeps m s dir x y now = elim (move_start_cases m s dir x y now) [
  | inl e ↦ rw e (Keeps-refl m)
  | inr (p, e, sync, _, r) ↦
      rw r (Keeps-assign m s p (started p dir x y now) e (sync-Near p x y sync))
]

pub move_stop-Keeps : (m : Roster) (s dir x y : ℕ) → Keeps m (proc_cs_move_stop m s dir x y).0
unfolding stopped
move_stop-Keeps m s dir x y = elim (move_stop_cases m s dir x y) [
  | inl e ↦ rw e (Keeps-refl m)
  | inr (p, e, sync, r) ↦ rw r (Keeps-assign m s p (stopped p dir x y) e (sync-Near p x y sync))
]

-- An attack moves nobody.
attack_player-place :
    (a : Player) (k : Attack) (m : Roster) (j : ℕ) (p q : Player)
    → IsMap m
    → find j m ≡ some p
    → Near q p
    → (r : Player) × (find j (attack_player a k m).0 ≡ some r) × Near q r
unfolding damaged
attack_player-place a k m j p q u e n = elim (attack_player-find a k m j p u e) [
  | inl same ↦ (p, same, n)
  | inr (hurt, _, _) ↦ (damaged p (get_attack_damage k), hurt, n)
]

pub attack-Keeps :
    (k : Attack) (m : Roster) (s dir x y now : ℕ)
    → IsMap m
    → Keeps m (proc_cs_attack k m s dir x y now).0
unfolding update_action_state
attack-Keeps k m s dir x y now u = elim (attack_cases k m s dir x y now) [
  | inl e ↦ rw e (Keeps-refl m)
  | inr (p, e, sync, _, r) ↦ λ j v f.
      let a = update_action_state p dir x y now in
      let (w, g, n) = Keeps-assign m s p a e (sync-Near p x y sync) j v f in
      rw r (attack_player-place a k (assign s a m) j w v (assign-IsMap s a m u) g n)
]
