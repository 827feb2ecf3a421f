-- ===== src/Battle/Fight/WellFormed.antt =====
-- What it is for a match to be well formed: its counters and its map agree.
use mo_session_server.Base.{[], arith, length, refl, some, suc, ℕ, ◌+◌, ◌∷◌, ◌≡◌, ◌≤◌}
use mo_session_server.Base.Table.{IsMap, assign, erase, find}
use mo_session_server.Battle.Fight.{Fight}
use mo_session_server.Battle.{Player, Roster, Team, blue, red}

abbrev pub count : Team → Roster → ℕ
count t [] = 0
count red ((s, p) ∷ m) = elim p.team [ red ↦ suc (count red m) | blue ↦ count red m ]
count blue ((s, p) ∷ m) = elim p.team [ red ↦ count blue m | blue ↦ suc (count blue m) ]

-- What holds of a match between two handlers.
pub record Inv (f : Fight) : Type 0 where
  pub unique : IsMap f.player_map
  pub reds : f.red_count ≡ count red f.player_map
  pub blues : f.blue_count ≡ count blue f.player_map
  pub few : length f.player_map ≤ f.matched
  pub at_most : f.matched ≤ 6

pub count-le : (m : Roster) → count red m + count blue m ≡ length m
count-le [] = omega arith
count-le ((s, p) ∷ m) = ground (arith, count-le m)

pub length-assign : (s : ℕ) (q : Player) (m : Roster) → length (assign s q m) ≡ length m
length-assign s q [] = refl
length-assign s q ((j, p) ∷ m) = ground (arith, length-assign s q m)

pub count-assign :
    (s : ℕ) (q p : Player) (m : Roster)
    → find s m ≡ some p
    → q.team ≡ p.team
    → (count red (assign s q m) ≡ count red m) × (count blue (assign s q m) ≡ count blue m)
count-assign s q p [] e h = cc
count-assign s q p ((j, v) ∷ m) e h = ground (arith, count-assign s q p m)

-- The map without `s`: one player of its team less.
pub count-erase :
    (s : ℕ) (p : Player) (m : Roster)
    → find s m ≡ some p
    → (suc (length (erase s m)) ≡ length m)
      × (count red m ≡ count red (erase s m) + count red ((s, p) ∷ []))
      × (count blue m ≡ count blue (erase s m) + count blue ((s, p) ∷ []))
count-erase s p [] e = cc
count-erase s p ((j, v) ∷ m) e = ground (arith, count-erase s p m)
