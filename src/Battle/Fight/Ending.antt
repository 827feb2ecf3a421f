-- ===== src/Battle/Fight/Ending.antt =====
-- The end of a match of FightContents, over all that happens to it.
use mo_session_server.Battle.Fight.Spending.{
  Ends, Ends-append, budget, disconnects-Ends, releases, releases-append, saves, saves-append,
  start_match-Ends,
}
use mo_session_server.Base.Table.{assign, find}
use mo_session_server.Base.{
  Bool, List, [], arith, ℕ, ◌++◌, ◌+◌, ◌∷◌, ◌≡◌, refl, some, Bool-cases, Option-cases, inl, inr,
  ltb, subst, true, ◌&&◌,
}
use mo_session_server.Battle.Fight.{
  Fight, on_enter, on_leave, on_update, build_battle_result, disconnect_remaining_players,
  finish_fight_and_release, finish_if_ended, admit, check_game_end, close, depart, enter, settle,
}
use mo_session_server.Battle.{Effect, Roster, enqueue_control, save_result, fight_free, Player}
use mo_session_server.Battle.Actions.{
  Request, handle, move_start, move_stop, attack, unknown, Attack, attack1, attack2, attack3,
  proc_cs_move_start, proc_cs_move_stop, proc_cs_attack, proc_cs_attack1, update_action_state,
  proc_cs_attack2, proc_cs_attack3, attack_player, apply_damage,
}

-- What happens to a match: the calls that the server makes on it.
pub data Event : Type 0 where
  enters : Roster → Bool → ℕ → Event
  leaves : ℕ → Event
  updates : ℕ → Event
  requests : ℕ → ℕ → Request → Event

unfoldable pub step : Fight → Event → Fight × List Effect
step f (enters players moved s) = on_enter players moved f s
step f (leaves s) = on_leave f s
step f (updates now) = (on_update now f, [])
step f (requests s now r) =
    (record f { player_map = (handle f.player_map s now r).0 }, (handle f.player_map s now r).1)

-- A history of a match, with all its effects in order
unfoldable pub run : Fight → List Event → Fight × List Effect
run f [] = (f, [])
run f (e ∷ es) = ((run (step f e).0 es).0, (step f e).1 ++ (run (step f e).0 es).1)

-- What a step spends of the match's one ending
abbrev Spends : Fight → Fight × List Effect → Type 0
Spends f r = (saves r.1 + budget r.0 ≡ budget f) × (releases r.1 + budget r.0 ≡ budget f)

Spends-of : (f g : Fight) (r : Fight × List Effect) → g.end ≡ f.end → Spends g r → Spends f r
Spends-of f g r e h = ground arith

finish-Ends : (f : Fight) → Ends 1 (finish_fight_and_release f).1
unfolding finish_fight_and_release
finish-Ends f =
    Ends-append 0 1 (disconnect_remaining_players f.player_map)
      (save_result (build_battle_result f) ∷ enqueue_control (fight_free f.contents_num) ∷ [])
      (disconnects-Ends f.player_map) (refl, refl)

end-check_game_end : (f : Fight) → (check_game_end f).1.end ≡ f.end
unfolding check_game_end
end-check_game_end f = ground arith

finish-Spends : (f : Fight) → f.end ≡ true → Spends f (finish_fight_and_release f)
unfolding finish_fight_and_release
finish-Spends f e = ground (arith, e, finish-Ends f)

finish_if_ended-Spends :
    (f : Fight) (r : Fight × List Effect) → (finish_if_ended f).0 ≡ some r → Spends f r
unfolding finish_if_ended
finish_if_ended-Spends f r e =
    elim (Bool-cases ((check_game_end f).0 && (check_game_end f).1.end)) [
      | inl over ↦
          let g = (check_game_end f).1 in
          let ends : g.end ≡ true = ground arith in
          let q : finish_fight_and_release g ≡ r = ground (arith, over) in
          subst (λ t. Spends f t) q
            (Spends-of f g (finish_fight_and_release g) (end-check_game_end f)
              (finish-Spends g ends))
      | inr on ↦ absurd (ground (arith, on))
    ]

end-finish_if_ended : (f : Fight) → (finish_if_ended f).1.end ≡ f.end
unfolding finish_if_ended
end-finish_if_ended f = end-check_game_end f

settle-Spends : (f : Fight) → Spends f (settle f)
unfolding settle
settle-Spends f = elim (Bool-cases (ltb f.matched 6)) [
  | inl few ↦ rw (few, settle) (omega arith)
  | inr full ↦
      rw (full, settle)
        (elim (Option-cases (finish_if_ended f).0) [
          | inl on ↦
              rw (on, settle)
                (ground (arith, start_match-Ends (finish_if_ended f).1, end-finish_if_ended f))
          | inr (r, over) ↦ rw (over, settle) (finish_if_ended-Spends f r over)
        ])
]

close-Spends : (f : Fight) (es : List Effect) → Ends 0 es → Spends f (close f es)
unfolding close
close-Spends f es h = elim (Option-cases (finish_if_ended f).0) [
  | inl on ↦ rw (on, close) (ground (arith, end-finish_if_ended f))
  | inr (r, over) ↦
      rw (over, close)
        (ground
          (arith, finish_if_ended-Spends f r over, saves-append es r.1, releases-append es r.1))
]

end-enter :
    (players : Roster) (moved : Bool) (f : Fight) (s : ℕ) → (enter players moved f s).end ≡ f.end
unfolding enter admit
end-enter players moved f s = ground arith

depart-Ends :
    (f : Fight) (s : ℕ) (p : Player) → Ends 0 (depart f s p).1 × ((depart f s p).0.end ≡ f.end)
unfolding depart
depart-Ends f s p = ground arith

attack_player-Ends : (a : Player) (k : Attack) (m : Roster) → Ends 0 (attack_player a k m).1
unfolding attack_player apply_damage
attack_player-Ends a k m = ground arith

proc_cs_attack-Ends :
    (k : Attack) (m : Roster) (s dir x y now : ℕ) → Ends 0 (proc_cs_attack k m s dir x y now).1
unfolding proc_cs_attack
proc_cs_attack-Ends k m s dir x y now = elim (Option-cases (find s m)) [
  | inl e ↦ rw (e, proc_cs_attack) (ground arith)
  | inr (p, e) ↦
      let a = update_action_state p dir x y now in
      rw (e, proc_cs_attack) (ground (arith, attack_player-Ends a k (assign s a m)))
]

handle-Ends : (m : Roster) (s now : ℕ) (r : Request) → Ends 0 (handle m s now r).1
unfolding handle proc_cs_move_start proc_cs_move_stop proc_cs_attack1 proc_cs_attack2
    proc_cs_attack3
handle-Ends m s now (move_start dir x y) = ground arith
handle-Ends m s now (move_stop dir x y) = ground arith
handle-Ends m s now (attack attack1 dir x y) = proc_cs_attack-Ends attack1 m s dir x y now
handle-Ends m s now (attack attack2 dir x y) = proc_cs_attack-Ends attack2 m s dir x y now
handle-Ends m s now (attack attack3 dir x y) = proc_cs_attack-Ends attack3 m s dir x y now
handle-Ends m s now unknown = (refl, refl)

step-Spends : (f : Fight) (e : Event) → Spends f (step f e)
unfolding step on_enter on_leave on_update
step-Spends f (enters players moved s) =
    Spends-of f (enter players moved f s) (settle (enter players moved f s))
      (end-enter players moved f s) (settle-Spends (enter players moved f s))
step-Spends f (leaves s) = elim (Option-cases (find s f.player_map)) [
  | inl gone ↦ rw (gone, on_leave) (omega arith)
  | inr (p, e) ↦
      rw (e, on_leave)
        (ground (arith, close-Spends (depart f s p).0 (depart f s p).1, depart-Ends f s p))
]
step-Spends f (updates now) = omega arith
step-Spends f (requests s now r) = ground (arith, handle-Ends f.player_map s now r)

-- Over any history of a match, its result goes to the database and the match goes to the control
-- thread equally often: once if the match has ended in it, and not at all if it had ended before
-- or has not ended.
pub run_ends_once :
    (f : Fight) (es : List Event)
    → (saves (run f es).1 + budget (run f es).0 ≡ budget f)
      × (releases (run f es).1 + budget (run f es).0 ≡ budget f)
unfolding run
run_ends_once f [] = omega arith
run_ends_once f (e ∷ es) = ground (
  arith,
  step-Spends f e,
  run_ends_once (step f e).0 es,
  saves-append (step f e).1 (run (step f e).0 es).1,
  releases-append (step f e).1 (run (step f e).0 es).1,
)
