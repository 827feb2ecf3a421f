-- ===== src/Match/Waiting.antt =====
-- The lobby of MatchContents over time.
use mo_session_server.Match.{Lobby, form_group, admit, on_enter, on_leave, on_shut_down}
use mo_session_server.Base.{
  ℕ, List, [], ◌∷◌, ◌++◌, ◌≡◌, ◌<◌, some, arith, length, Option-cases, inl, inr, refl, ◌≤◌,
  if◌then◌else◌, leb, Bool-cases, subst, sym, ◌+◌,
}
use mo_session_server.Base.Table.{find, IsMap, insert, erase-IsMap}
use mo_session_server.Battle.{Player, Effect, Roster}
use mo_session_server.Match.Groups.{
  Inv, Owns, erase-Owns, find-Owns, form_group-Forms, form_group-Owns, insert-keeps, length-erase,
  on_enter-found, on_enter_stopped, on_enter_unknown,
}

admit-Inv :
    (l : Lobby) (s : ℕ) (p : Player)
    → Inv l
    → find s l.players ≡ some p
    → IsMap (admit l s p).waiting × Owns (admit l s p).waiting × Owns (admit l s p).players
unfolding admit
admit-Inv l s p v here =
    let (u, h) =
      insert-keeps s p l.waiting (find-Owns s p l.players v.players_own here) v.unique v.owns in
    (u, h, v.players_own)

length-insert : (s : ℕ) (p : Player) (m : Roster) → length (insert s p m) ≤ length m + 1
length-insert s p m = ground arith

-- The lobby after a session that is known to the server came in
entered-Inv :
    (l : Lobby) (s : ℕ) (p : Player)
    → Inv l
    → find s l.players ≡ some p
    → Inv
        (if leb 6 (length (admit l s p).waiting)
          then form_group (admit l s p)
          else (admit l s p, [])).0
entered-Inv l s p v here =
    let (u, h, k) = admit-Inv l s p v here in
    elim (Bool-cases (leb 6 (length (admit l s p).waiting))) [
      | inl full ↦
          let six : length (admit l s p).waiting ≡ 6 =
            (let le : length (admit l s p).waiting ≤ length l.waiting + 1 =
                unfold admit in length-insert s p l.waiting in
              ground (arith, le, v.few)) in
          let (g, _, _, done) = form_group-Forms (admit l s p) (admit l s p).waiting refl h six in
          rw full (record {
            unique = subst IsMap (sym done) tt;
            owns = subst Owns (sym done) tt;
            players_own = form_group-Owns (admit l s p) h k;
            few = subst (λ m. length m < 6) (sym done) (omega arith);
          })
      | inr room ↦ rw room (record { unique = u; owns = h; players_own = k; few = ground arith })
    ]

-- The handlers of the lobby
pub data Event : Type 0 where
  enters leaves : ℕ → Event
  shuts_down : Event

unfoldable pub step : Lobby → Event → Lobby × List Effect
step l (enters s) = on_enter l s
step l (leaves s) = on_leave l s
step l shuts_down = on_shut_down l

unfoldable pub run : Lobby → List Event → Lobby × List Effect
run l [] = (l, [])
run l (e ∷ es) = ((run (step l e).0 es).0, (step l e).1 ++ (run (step l e).0 es).1)

enter-Inv : (l : Lobby) (s : ℕ) → Inv l → Inv (on_enter l s).0
enter-Inv l s v = elim (Bool-cases l.stop_requested) [
  | inl stopped ↦ subst (λ r. Inv r.0) (sym (on_enter_stopped l s stopped)) v
  | inr open_still ↦ elim (Option-cases (find s l.players)) [
    | inl unknown ↦ subst (λ r. Inv r.0) (sym (on_enter_unknown l s open_still unknown)) v
    | inr (p, here) ↦
        subst (λ r. Inv r.0) (sym (on_enter-found l s p open_still here)) (entered-Inv l s p v here)
  ]
]

step-Inv : (l : Lobby) (e : Event) → Inv l → Inv (step l e).0
unfolding step on_leave on_shut_down
step-Inv l (enters s) v = enter-Inv l s v
step-Inv l (leaves s) v = record {
  unique = erase-IsMap s l.waiting v.unique;
  owns = erase-Owns s l.waiting v.owns;
  players_own = v.players_own;
  few = omega (arith, length-erase s l.waiting, v.few);
}
step-Inv l shuts_down v = record {
  unique = v.unique;
  owns = v.owns;
  players_own = v.players_own;
  few = v.few;
}

-- Over any history of the lobby, from one whose entries hold the players of their sessions and in which
-- fewer than six wait, the same holds: it never holds six.
pub lobby_run-Inv : (l : Lobby) (es : List Event) → Inv l → Inv (run l es).0
unfolding run
lobby_run-Inv l [] v = v
lobby_run-Inv l (e ∷ es) v = lobby_run-Inv (step l e).0 es (step-Inv l e v)
