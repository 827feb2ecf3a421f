-- ===== src/Battle/Actions/Damage.antt =====
-- Who is hurt by an attack, and by how much: AttackPlayer, IsTargetInAttackRange and ApplyDamage.
use mo_session_server.Base.Int.{pos, signed8, u8, ◌-ℤ◌, negsuc, sub_ℕ}
use mo_session_server.Base.{
  ℕ, [], some, true, ◌+◌, ◌<◌, ◌∷◌, ◌≡◌, ◌≢◌, ◌≤◌, ◌⊎◌, Option-cases, arith, inl, inr, none, refl,
  Bool-cases, ap, ◌==◌, ◌∙◌, ==_iff, if◌then◌else◌, ltb, subst, ◌-◌, false,
}
use mo_session_server.Base.Table.{find, IsMap, assign, find-assign}
use mo_session_server.Battle.{Player, Roster, dir_ll, dir_rr, Team, blue, red, disconnect}
use mo_session_server.Battle.Actions.{
  Attack, range_x, range_y, attack1, attack2, attack3, first_hit, is_hit, apply_damage,
  attack_player, damaged, get_attack_damage, same_team,
}

-- The rectangle in front of the attacker that an attack covers.
abbrev pub InReach : Player → Attack → Player → Type 0
InReach a k t =
    ((a.direction ≡ dir_ll) × (t.x ≤ a.x) × (a.x < t.x + range_x k)
      ⊎ (a.direction ≡ dir_rr) × (a.x ≤ t.x) × (t.x < a.x + range_x k))
    × (a.y < t.y + range_y k)
    × (t.y < a.y + range_y k)

same_team_self : (a : Team) → same_team a a ≡ true
same_team_self red = refl
same_team_self blue = refl

same_team_of : (a t : Player) (k : Attack) → is_hit a k t ≡ true → a.team ≢ t.team
unfolding is_hit
same_team_of a t k h e = ground (arith, same_team_self t.team, ap (λ s. same_team s t.team) e)

is_hit-InReach :
    (a t : Player) (k : Attack) → is_hit a k t ≡ true → (a.team ≢ t.team) × InReach a k t
unfolding is_hit
is_hit-InReach a t attack1 h = (same_team_of a t attack1 h, ground arith)
is_hit-InReach a t attack2 h = (same_team_of a t attack2 h, ground arith)
is_hit-InReach a t attack3 h = (same_team_of a t attack3 h, ground arith)

first_hit-find :
    (a : Player) (k : Attack) (j : ℕ) (t : Player) (m : Roster)
    → IsMap m
    → first_hit a k m ≡ some (j, t)
    → (find j m ≡ some t) × (is_hit a k t ≡ true)
unfolding first_hit
first_hit-find a k j t [] u e = cc
first_hit-find a k j t ((i, p) ∷ m) u e = ground (arith, first_hit-find a k j t m u.1)

-- What an attack does to the player `j` of the map, if it is there: nothing, or, to an opponent in
-- reach, the damage of the attack.
pub attack_player-find :
    (a : Player) (k : Attack) (m : Roster) (j : ℕ) (p : Player)
    → IsMap m
    → find j m ≡ some p
    → let m' = (attack_player a k m).0 in
      (find j m' ≡ some p)
      ⊎ (find j m' ≡ some (damaged p (get_attack_damage k))) × (a.team ≢ p.team) × InReach a k p
unfolding attack_player apply_damage
attack_player-find a k m j p u e = elim (Option-cases (first_hit a k m)) [
  | inl miss ↦ rw (miss, attack_player) (inl e)
  | inr ((i, t), hit) ↦ rw (hit, attack_player) (struck i t (first_hit-find a k i t m u hit))
]
  where
    struck :
        (i : ℕ) (t : Player)
        → (find i m ≡ some t) × (is_hit a k t ≡ true)
        → (find j (assign i (damaged t (get_attack_damage k)) m) ≡ some p)
          ⊎ (find j (assign i (damaged t (get_attack_damage k)) m)
              ≡ some (damaged p (get_attack_damage k)))
            × (a.team ≢ p.team)
            × InReach a k p
    struck i t h = elim (Bool-cases (i == j)) [
      | inl same ↦
          (let q : t ≡ p = cc (h.0, e, (==_iff i j).0 same) in
            let r : (a.team ≢ p.team) × InReach a k p =
              subst (λ v. (a.team ≢ v.team) × InReach a k v) q (is_hit-InReach a t k h.1) in
            inr (
              find-assign i j (damaged t (get_attack_damage k)) t m h.0
                  ∙ rw same (ap (λ v. some (damaged v (get_attack_damage k))) q),
              r.0,
              r.1,
            ))
      | inr other ↦ inl (find-assign i j (damaged t (get_attack_damage k)) t m h.0 ∙ rw other e)
    ]

-- The state of the fight changes only where the loop stops: with no opponent in reach nobody is
-- hurt and nothing is sent.
pub attack_player-none :
    (a : Player) (k : Attack) (m : Roster) → first_hit a k m ≡ none → attack_player a k m ≡ (m, [])
unfolding attack_player
attack_player-none a k m e = rw (e, attack_player)

get_attack_damage-le : (k : Attack) → (get_attack_damage k ≤ 50) × (1 ≤ get_attack_damage k)
unfolding get_attack_damage
get_attack_damage-le attack1 = omega arith
get_attack_damage-le attack2 = omega arith
get_attack_damage-le attack3 = omega arith

-- A player with health left loses exactly the damage, and is disconnected exactly when nothing is
-- left.
pub apply_damage_alive :
    (t : Player) (k : Attack) (w : ℕ)
    → t.hp ≡ pos w
    → w ≤ 127
    → let d = get_attack_damage k in
      ((apply_damage t d).0.hp ≡ sub_ℕ w d)
      × ((apply_damage t d).1 ≡ (if ltb d w then [] else disconnect t.session_id ∷ []))
unfolding apply_damage signed8 u8 ◌-ℤ◌
apply_damage_alive t k w e h = ground (arith, get_attack_damage-le k)

-- The health is an `int8_t`: a player that is hit again before its session is gone, once its health
-- is low enough below zero, comes out with positive health, and is not disconnected for that hit.
pub apply_damage_wraps :
    (t : Player) (k : Attack) (n : ℕ)
    → t.hp ≡ negsuc n
    → n < 128
    → 128 ≤ n + get_attack_damage k
    → let d = get_attack_damage k in
      ((apply_damage t d).0.hp ≡ pos (255 - n - d)) × ((apply_damage t d).1 ≡ [])
unfolding apply_damage signed8 u8 ◌-ℤ◌
apply_damage_wraps t k n e h g = ground (arith, get_attack_damage-le k)

is_hit_sideways :
    (a : Player) (k : Attack) (t : Player)
    → a.direction ≢ dir_ll
    → a.direction ≢ dir_rr
    → is_hit a k t ≡ false
unfolding is_hit
is_hit_sideways a k t h g = ground arith

-- Only left and right are attack directions: towards any other the attack hits nobody.
pub attack_player_sideways :
    (a : Player) (k : Attack) (m : Roster)
    → a.direction ≢ dir_ll
    → a.direction ≢ dir_rr
    → attack_player a k m ≡ (m, [])
unfolding first_hit
attack_player_sideways a k m h g = attack_player-none a k m (misses m)
  where
    misses : (l : Roster) → first_hit a k l ≡ none
    misses [] = refl
    misses ((j, t) ∷ l) = rw (is_hit_sideways a k t h g) (misses l)
