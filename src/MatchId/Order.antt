-- ===== src/MatchId/Order.antt =====
-- The order of the IDs of MatchIDGenerator, and their parts.
use mo_session_server.MatchId.{
  MatchIdGenerator, create, issue, make_id, max_sequence, max_server_id, wait_next_millisecond,
}
use mo_session_server.Base.{
  ℕ, List, [], ◌∷◌, ◌+◌, ◌*◌, ◌%◌, ◌^◌, ◌≡◌, ◌<◌, ◌≤◌, some, arith, ap, ap₂, ◌∙◌, bit_or, ◌⊎◌,
  Bool-cases, if◌then◌else◌, inl, inr, leb, ltb, ◌++◌, ◌/◌, ◌==◌,
}
use mo_session_server.Base.Bits.{bit_or_below}

-- The sequence of the last ID fits 12 bits, the server's number 10, and the last timestamp 42.
pub record Inv (g : MatchIdGenerator) : Type 0 where
  pub server_fits : g.server_id ≤ max_server_id
  pub sequence_fits : g.sequence ≤ max_sequence
  pub time_fits : g.last_timestamp < 2 ^ 42

make_id-sum :
    (t s q : ℕ)
    → t < 2 ^ 42
    → s ≤ max_server_id
    → q ≤ max_sequence
    → make_id t s q ≡ t * 4194304 + s * 4096 + q
unfolding make_id
make_id-sum t s q ht hs hq =
    let shifted : t * 2 ^ 22 % 2 ^ 64 ≡ t * 2 ^ 22 = omega arith in
    let server : s * 2 ^ 12 % 2 ^ 64 ≡ s * 2 ^ 12 = omega arith in
    ap (λ v. bit_or v q)
      (ap₂ bit_or shifted server
        ∙ bit_or_below 22 t (s * 2 ^ 12) (omega arith)
        ∙ (let e : t * 2 ^ 22 + s * 2 ^ 12 ≡ (t * 1024 + s) * 2 ^ 12 = omega arith in e))
    ∙ bit_or_below 12 (t * 1024 + s) q (omega arith)
    ∙ omega arith

-- The ID that the generator made last
abbrev pub last_id : MatchIdGenerator → ℕ
last_id g = make_id g.last_timestamp g.server_id g.sequence

-- An ID within its fields gives back the time, the server and the sequence that it was made of.
make_id-fields :
    (t s q : ℕ)
    → t < 2 ^ 42
    → s ≤ max_server_id
    → q ≤ max_sequence
    → (make_id t s q / 2 ^ 22 ≡ t)
      × (make_id t s q / 2 ^ 12 % 2 ^ 10 ≡ s)
      × (make_id t s q % 2 ^ 12 ≡ q)
make_id-fields t s q ht hs hq = omega (arith, make_id-sum t s q ht hs hq)

wait_ends :
    (last now : ℕ) (before after : List ℕ)
    → last < now
    → (r : ℕ × List ℕ) × (wait_next_millisecond last (before ++ (now ∷ after)) ≡ some r)
unfolding wait_next_millisecond
wait_ends last now [] after h = ((now, after), ground arith)
wait_ends last now (t ∷ before) after h = elim (Bool-cases (leb t last)) [
  | inl early ↦
      let (r, e) = wait_ends last now before after h in (r, rw (early, wait_next_millisecond) e)
  | inr late ↦ ((t, before ++ (now ∷ after)), rw (late, wait_next_millisecond))
]

-- An ID is made as soon as the clock shows a later time than that of the last one, and at once unless
-- the 4096 IDs of a millisecond are used up.
create_returns :
    (g : MatchIdGenerator) (reading now : ℕ) (before after : List ℕ)
    → Inv g
    → (g.sequence < max_sequence) ⊎ (g.last_timestamp < reading) ⊎ (g.last_timestamp < now)
    → (r : (ℕ × MatchIdGenerator) × List ℕ) × (create g reading (before ++ (now ∷ after)) ≡ some r)
unfolding create
create_returns g reading now before after v h =
    let clock = before ++ (now ∷ after) in
    let time = if ltb reading g.last_timestamp then g.last_timestamp else reading in
    let next = (g.sequence + 1) % 2 ^ 16 in
    elim (Bool-cases (time == g.last_timestamp)) [
      | inl same ↦ elim (Bool-cases (ltb max_sequence next)) [
        | inl full ↦
            let later : g.last_timestamp < now = ground (arith, same, full, h, v.sequence_fits) in
            let (r, e) = wait_ends g.last_timestamp now before after later in
            ((issue g r.0 0, r.1), ground (arith, same, full, e))
        | inr room ↦ ((issue g time next, clock), ground (arith, same, room))
      ]
      | inr new ↦ ((issue g time 0, clock), ground (arith, new))
    ]
