-- ===== src/Match/Groups.antt =====
-- MatchContents::OnEnter and the groups that it forms.
use mo_session_server.Match.{
  Lobby, form_group, take_player, admit, assign_team_and_move_players, on_enter, with_team,
}
use mo_session_server.Base.{
  ℕ, List, [], ◌∷◌, ◌++◌, ◌≡◌, ◌<◌, some, arith, length, All, map, Option-cases, false, inl, inr,
  none, refl, ◌≤◌, ap, if◌then◌else◌, leb, ◌∙◌, subst, sym, true,
}
use mo_session_server.Base.Int.{negsuc}
use mo_session_server.Base.Table.{find, keys, IsMap, assign, erase, insert}
use mo_session_server.Battle.{
  Team, red, blue, Player, Group, Effect, Roster, move_session, enqueue_control, fight_alloc,
  disconnect,
}

-- Each entry holds the player of its session.
abbrev pub Owns : Roster → Type 0
Owns m = All (λ (e : ℕ × Player). e.1.session_id ≡ e.0) m

-- What holds of the lobby between two of its handlers.
pub record Inv (l : Lobby) : Type 0 where
  pub unique : IsMap l.waiting
  pub owns : Owns l.waiting
  pub players_own : Owns l.players
  pub few : length l.waiting < 6

-- The six sessions of a group, in the order in which they are moved
abbrev pub members : Group → List ℕ
members g =
    g.red_slots.slot0 ∷ g.red_slots.slot1 ∷ g.red_slots.slot2 ∷ g.blue_slots.slot0
    ∷ g.blue_slots.slot1 ∷ g.blue_slots.slot2 ∷ []

abbrev pub moved_out : Group → List Effect
moved_out g =
    map (λ j. move_session j (negsuc 0)) (members g) ++ (enqueue_control (fight_alloc g) ∷ [])

-- What `form_group` makes of a lobby of six
abbrev pub Forms : List ℕ → Lobby × List Effect → Type 0
Forms ks r = (g : Group) × (r.1 ≡ moved_out g) × (members g ≡ ks) × (r.0.waiting ≡ [])

pub find-Owns : (s : ℕ) (p : Player) (m : Roster) → Owns m → find s m ≡ some p → p.session_id ≡ s
find-Owns s p [] h e = cc
find-Owns s p ((j, v) ∷ m) h e = ground (arith, find-Owns s p m h.1)

pub form_group-Forms :
    (l : Lobby) (m : Roster) → l.waiting ≡ m → Owns m → length m ≡ 6 → Forms (keys m) (form_group l)
unfolding form_group
form_group-Forms l [] e h n = absurd (omega arith)
form_group-Forms l (_ ∷ []) e h n = absurd (omega arith)
form_group-Forms l (_ ∷ _ ∷ []) e h n = absurd (omega arith)
form_group-Forms l (_ ∷ _ ∷ _ ∷ []) e h n = absurd (omega arith)
form_group-Forms l (_ ∷ _ ∷ _ ∷ _ ∷ []) e h n = absurd (omega arith)
form_group-Forms l (_ ∷ _ ∷ _ ∷ _ ∷ _ ∷ []) e h n = absurd (omega arith)
form_group-Forms l (_ ∷ _ ∷ _ ∷ _ ∷ _ ∷ _ ∷ _ ∷ m) e h n = absurd (omega arith)
form_group-Forms l ((a, u) ∷ (b, v) ∷ (c, w) ∷ (d, x) ∷ (i, y) ∷ (j, z) ∷ []) e h n = (
  record {
    red_slots = record { slot0 = u.session_id; slot1 = v.session_id; slot2 = w.session_id };
    blue_slots = record { slot0 = x.session_id; slot1 = y.session_id; slot2 = z.session_id };
  },
  rw (e, form_group, take_player),
  rw (h.0, h.1.0, h.1.1.0, h.1.1.1.0, h.1.1.1.1.0, h.1.1.1.1.1.0),
  rw (e, form_group, take_player),
)

pub insert_new : (s : ℕ) (p : Player) (m : Roster) → find s m ≡ none → insert s p m ≡ (s, p) ∷ m
insert_new s p m e = ground arith

insert_old : (s : ℕ) (p q : Player) (m : Roster) → find s m ≡ some q → insert s p m ≡ m
insert_old s p q m e = ground arith

pub insert-keeps :
    (s : ℕ) (p : Player) (m : Roster)
    → p.session_id ≡ s
    → IsMap m
    → Owns m
    → IsMap (insert s p m) × Owns (insert s p m)
insert-keeps s p m e u h = elim (Option-cases (find s m)) [
  | inl new ↦ rw (insert_new s p m new) ((new, u), (e, h))
  | inr (q, old) ↦ rw (insert_old s p q m old) (u, h)
]

pub erase-Owns : (s : ℕ) (m : Roster) → Owns m → Owns (erase s m)
erase-Owns s [] h = tt
erase-Owns s ((j, v) ∷ m) h = ground (arith, erase-Owns s m h.1)

pub length-erase : (s : ℕ) (m : Roster) → length (erase s m) ≤ length m
length-erase s [] = omega arith
length-erase s ((j, v) ∷ m) = ground (arith, length-erase s m)

assign-Owns : (s : ℕ) (p : Player) (m : Roster) → p.session_id ≡ s → Owns m → Owns (assign s p m)
assign-Owns s p [] e h = tt
assign-Owns s p ((j, v) ∷ m) e h = ground (arith, assign-Owns s p m e h.1)

take_player-Owns :
    (t : Team) (l : Lobby)
    → Owns l.waiting
    → Owns l.players
    → Owns (take_player t l).1.waiting × Owns (take_player t l).1.players
unfolding take_player
take_player-Owns t l h k = taken l.waiting refl h
  where
    taken :
        (m : Roster)
        → l.waiting ≡ m
        → Owns m
        → Owns (take_player t l).1.waiting × Owns (take_player t l).1.players
    taken [] e g = rw (e, take_player) (h, k)
    taken ((s, p) ∷ m) e g =
        rw (e, take_player) (g.1, assign-Owns s (with_team t p) l.players g.0 k)

team-Owns :
    (t : Team) (l : Lobby)
    → Owns l.waiting
    → Owns l.players
    → Owns (assign_team_and_move_players t l).1.waiting
      × Owns (assign_team_and_move_players t l).1.players
unfolding assign_team_and_move_players
team-Owns t l h k =
    let l1 = (take_player t l).1 in
    let l2 = (take_player t l1).1 in
    let (h1, k1) = take_player-Owns t l h k in
    let (h2, k2) = take_player-Owns t l1 h1 k1 in take_player-Owns t l2 h2 k2

pub form_group-Owns : (l : Lobby) → Owns l.waiting → Owns l.players → Owns (form_group l).0.players
unfolding form_group
form_group-Owns l h k =
    let l1 = (assign_team_and_move_players red l).1 in
    let (h1, k1) = team-Owns red l h k in (team-Owns blue l1 h1 k1).1

pub on_enter-found :
    (l : Lobby) (s : ℕ) (p : Player)
    → l.stop_requested ≡ false
    → find s l.players ≡ some p
    → on_enter l s ≡ (
        if leb 6 (length (admit l s p).waiting)
        then form_group (admit l s p)
        else (admit l s p, []))
unfolding on_enter
on_enter-found l s p open_still here = simp (open_still, here, on_enter)

pub on_enter_stopped :
    (l : Lobby) (s : ℕ) → l.stop_requested ≡ true → on_enter l s ≡ (l, disconnect s ∷ [])
unfolding on_enter
on_enter_stopped l s e = simp (e, on_enter)

pub on_enter_unknown :
    (l : Lobby) (s : ℕ)
    → l.stop_requested ≡ false
    → find s l.players ≡ none
    → on_enter l s ≡ (l, [])
unfolding on_enter
on_enter_unknown l s e f = simp (e, f, on_enter)

-- A session that is new to the lobby, and the sixth one there, completes a group.
pub on_enter-Forms :
    (l : Lobby) (s : ℕ) (p : Player)
    → Inv l
    → l.stop_requested ≡ false
    → find s l.players ≡ some p
    → find s l.waiting ≡ none
    → length l.waiting ≡ 5
    → (on_enter l s ≡ form_group (admit l s p))
      × Forms (s ∷ keys l.waiting) (form_group (admit l s p))
on_enter-Forms l s p v open_still here new five =
    let m : (admit l s p).waiting ≡ (s, p) ∷ l.waiting =
      unfold admit in insert_new s p l.waiting new in
    (
      on_enter-found l s p open_still here ∙ ground (arith, ap length m, five),
      form_group-Forms (admit l s p) ((s, p) ∷ l.waiting) m
          (find-Owns s p l.players v.players_own here, v.owns) (omega arith),
    )

-- The sixth session that comes into an open lobby completes a group: the group has exactly the
-- sessions that were there, each is told to move, the control thread is told after that, and the lobby
-- is empty.
pub sixth_enters :
    (l : Lobby) (s : ℕ) (p : Player)
    → Inv l
    → l.stop_requested ≡ false
    → find s l.players ≡ some p
    → find s l.waiting ≡ none
    → length l.waiting ≡ 5
    → (g : Group) × ((on_enter l s).1 ≡ moved_out g)
      × (members g ≡ s ∷ keys l.waiting)
      × ((on_enter l s).0.waiting ≡ [])
sixth_enters l s p v open_still here new five =
    let (e, f) = on_enter-Forms l s p v open_still here new five in
    subst (Forms (s ∷ keys l.waiting)) (sym e) f
