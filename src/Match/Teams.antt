-- ===== src/Match/Teams.antt =====
-- The teams that the lobby gives: what AssignTeamAndMovePlayers writes to the server's players.
use mo_session_server.Base.{
  All, List, [], arith, none, refl, some, sym, ℕ, ◌∙◌, ◌∷◌, ◌≡◌, ◌≢◌, false, length, subst,
}
use mo_session_server.Base.Table.{assign, find, IsMap}
use mo_session_server.Match.{with_team, Lobby, admit, form_group, on_enter, take_player}
use mo_session_server.Match.Groups.{Inv, Owns, moved_out, on_enter-Forms, insert_new, find-Owns}
use mo_session_server.Battle.{Effect, Team, red, blue, Player, Roster, Group, Slots}

-- The session is known to the server, as a player of this team.
abbrev pub HasTeam : Team → ℕ → Roster → Type 0
HasTeam t j m = (q : Player) × (find j m ≡ some q) × (q.team ≡ t)

abbrev Given : Type 0
Given = Team × (ℕ × Player)

abbrev assigns : List Given → Roster → Roster
assigns [] m = m
assigns ((t, (s, p)) ∷ ts) m = assigns ts (assign s (with_team t p) m)

find-assign_other : (s j : ℕ) (q : Player) (m : Roster) → s ≢ j → find j (assign s q m) ≡ find j m
find-assign_other s j q [] h = refl
find-assign_other s j q ((k, v) ∷ m) h = ground (arith, find-assign_other s j q m h)

find-assign_self :
    (s : ℕ) (q : Player) (m : Roster) → find s m ≢ none → find s (assign s q m) ≡ some q
find-assign_self s q [] h = absurd (h refl)
find-assign_self s q ((k, v) ∷ m) h = ground (arith, find-assign_self s q m)

abbrev NotIn : ℕ → List Given → Type 0
NotIn j ts = All (λ (e : Given). e.1.0 ≢ j) ts

abbrev Distinct : List Given → Type 0
Distinct [] = Unit
Distinct ((t, (s, p)) ∷ ts) = NotIn s ts × Distinct ts

abbrev Known : List Given → Roster → Type 0
Known ts m = All (λ (e : Given). find e.1.0 m ≢ none) ts

find-assigns_other :
    (j : ℕ) (ts : List Given) (m : Roster) → NotIn j ts → find j (assigns ts m) ≡ find j m
find-assigns_other j [] m h = refl
find-assigns_other j ((t, (s, p)) ∷ ts) m h =
    find-assigns_other j ts (assign s (with_team t p) m) h.1
    ∙ find-assign_other s j (with_team t p) m h.0

assign-Known :
    (s : ℕ) (q : Player) (ts : List Given) (m : Roster)
    → NotIn s ts
    → Known ts m
    → Known ts (assign s q m)
assign-Known s q [] m n k = tt
assign-Known s q ((t, (j, p)) ∷ ts) m n k = (
  λ e. k.0 (sym (find-assign_other s j q m (λ h. n.0 (sym h))) ∙ e),
  assign-Known s q ts m n.1 k.1,
)

assigns-HasTeam :
    (ts : List Given) (m : Roster)
    → Distinct ts
    → Known ts m
    → All (λ (e : Given). HasTeam e.0 e.1.0 (assigns ts m)) ts
assigns-HasTeam [] m d k = tt
assigns-HasTeam ((t, (s, p)) ∷ ts) m d k =
    let m' = assign s (with_team t p) m in
    (
      (
        with_team t p,
        find-assigns_other s ts m' d.0 ∙ find-assign_self s (with_team t p) m k.0,
        refl,
      ),
      assigns-HasTeam ts m' d.1 (assign-Known s (with_team t p) ts m d.0 k.1),
    )

-- The sessions of one team of a group
abbrev pub of_slots : Slots → List ℕ
of_slots s = s.slot0 ∷ s.slot1 ∷ s.slot2 ∷ []

-- What a completed group leaves in the table of the server's players
abbrev pub Teams : Lobby × List Effect → Type 0
Teams r =
    (g : Group) × (r.1 ≡ moved_out g)
    × All (λ j. HasTeam red j r.0.players) (of_slots g.red_slots)
    × All (λ j. HasTeam blue j r.0.players) (of_slots g.blue_slots)

-- Each entry of the map is a session that the server knows.
abbrev pub AllKnown : Roster → Roster → Type 0
AllKnown ps m = All (λ (e : ℕ × Player). find e.0 ps ≢ none) m

not_first : (s j : ℕ) (p : Player) (m : Roster) → find j ((s, p) ∷ m) ≡ none → s ≢ j
not_first s j p m e = ground arith

NotIn_keys : (j : ℕ) (m : Roster) → find j m ≡ none → All (λ (e : ℕ × Player). e.0 ≢ j) m
NotIn_keys j [] e = tt
NotIn_keys j ((s, p) ∷ m) e = (not_first s j p m e, NotIn_keys j m (ground arith))

form_group-Teams :
    (l : Lobby) (m : Roster)
    → l.waiting ≡ m
    → IsMap m
    → Owns m
    → AllKnown l.players m
    → length m ≡ 6
    → Teams (form_group l)
unfolding form_group take_player
form_group-Teams l [] e u h k n = absurd (omega arith)
form_group-Teams l (_ ∷ []) e u h k n = absurd (omega arith)
form_group-Teams l (_ ∷ _ ∷ []) e u h k n = absurd (omega arith)
form_group-Teams l (_ ∷ _ ∷ _ ∷ []) e u h k n = absurd (omega arith)
form_group-Teams l (_ ∷ _ ∷ _ ∷ _ ∷ []) e u h k n = absurd (omega arith)
form_group-Teams l (_ ∷ _ ∷ _ ∷ _ ∷ _ ∷ []) e u h k n = absurd (omega arith)
form_group-Teams l (_ ∷ _ ∷ _ ∷ _ ∷ _ ∷ _ ∷ _ ∷ m) e u h k n = absurd (omega arith)
form_group-Teams l (a ∷ b ∷ c ∷ d ∷ i ∷ j ∷ []) e u h k n =
    let ts : List Given = (red, a) ∷ (red, b) ∷ (red, c) ∷ (blue, d) ∷ (blue, i) ∷ (blue, j) ∷ [] in
    let distinct : Distinct ts = (
      NotIn_keys a.0 (b ∷ c ∷ d ∷ i ∷ j ∷ []) u.0,
      (
        NotIn_keys b.0 (c ∷ d ∷ i ∷ j ∷ []) u.1.0,
        (
          NotIn_keys c.0 (d ∷ i ∷ j ∷ []) u.1.1.0,
          (
            NotIn_keys d.0 (i ∷ j ∷ []) u.1.1.1.0,
            (NotIn_keys i.0 (j ∷ []) u.1.1.1.1.0, (NotIn_keys j.0 [] u.1.1.1.1.1.0, tt)),
          ),
        ),
      ),
    ) in
    let (ta, (tb, (tc, (td, (ti, (tj, _)))))) = assigns-HasTeam ts l.players distinct k in
    subst (λ w. Teams (form_group (record l { waiting = w }))) (sym e)
      (
        record {
          red_slots = record { slot0 = a.0; slot1 = b.0; slot2 = c.0 };
          blue_slots = record { slot0 = d.0; slot1 = i.0; slot2 = j.0 };
        },
        rw (h.0, h.1.0, h.1.1.0, h.1.1.1.0, h.1.1.1.1.0, h.1.1.1.1.1.0) refl,
        (ta, (tb, (tc, tt))),
        (td, (ti, (tj, tt))),
      )

-- The sixth session that comes into an open lobby, where the server knows all who wait, completes a
-- group whose members have in the table of the server's players the team that the group names for them.
sixth_enters-Teams :
    (l : Lobby) (s : ℕ) (p : Player)
    → Inv l
    → l.stop_requested ≡ false
    → find s l.players ≡ some p
    → find s l.waiting ≡ none
    → length l.waiting ≡ 5
    → AllKnown l.players l.waiting
    → let r = on_enter l s in
      (g : Group) × (r.1 ≡ moved_out g)
      × All (λ j. HasTeam red j r.0.players) (of_slots g.red_slots)
      × All (λ j. HasTeam blue j r.0.players) (of_slots g.blue_slots)
unfolding admit
sixth_enters-Teams l s p v open_still here new five known =
    subst Teams (sym (on_enter-Forms l s p v open_still here new five).0) (
      form_group-Teams (admit l s p) ((s, p) ∷ l.waiting)
        (unfold admit in insert_new s p l.waiting new) (new, v.unique)
        (find-Owns s p l.players v.players_own here, v.owns)
        (λ e. here_known e, unfold admit in known) (omega arith))
  where
    here_known : find s l.players ≡ none → ⊥
    here_known e = cc (e, here)
