-- ===== src/Session/Draining.antt =====
-- That a session that nobody holds is released.
use mo_session_server.Base.{
  arith, inl, inr, refl, suc, zero, ℕ, ◌*◌, ◌+◌, ◌<◌, ◌∙◌, ◌≡◌, ◌≤◌, ◌⊎◌, zero_or_positive,
}
use mo_session_server.Session.{
  Drain, Reach, System, close, closes, elsewhere, leave, leaves, lower, release, releases, retire,
  retires, try_release,
}
use mo_session_server.Session.Invariant.{
  Inv, Drain-Inv, Reach-Inv, flagged, holds_count, busy, phase,
}

-- The work that is left on a slot
pub work : System → ℕ
work s = 4 * s.users + 3 * s.closing + 2 * s.posted + s.releasing

-- So many steps of those that hold or release the slot
pub data Drains : ℕ → System → System → Type 0 where
  done : {s : System} → Drains zero s s
  more : {n : ℕ} {s t u : System} → Drain s t → Drains n t u → Drains (suc n) s u

Drain-work : {s t : System} → Drain s t → work t < work s
unfolding work leave lower close release try_release retire
Drain-work {s} (leaves h) = ground arith
Drain-work {s} (closes h) = omega arith
Drain-work {s} (releases h) = ground arith
Drain-work {s} (retires h) = omega arith

Drains-work : {n : ℕ} {s t : System} → Drains n s t → n + work t ≤ work s
Drains-work done = omega arith
Drains-work (more d ds) = omega (arith, Drain-work d, Drains-work ds)

Drain-accepting : {s t : System} → Drain s t → t.accepting ≡ s.accepting
unfolding leave close release retire
Drain-accepting (leaves h) = refl
Drain-accepting (closes h) = refl
Drain-accepting (releases h) = refl
Drain-accepting (retires h) = refl

Drains-Inv :
    {n : ℕ} {s t : System}
    → Drains n s t
    → Inv s
    → s.accepting ≡ elsewhere
    → Inv t × (t.accepting ≡ elsewhere)
Drains-Inv done i e = (i, e)
Drains-Inv (more d ds) i e = Drains-Inv ds (Drain-Inv d i) (Drain-accepting d ∙ e)

-- A slot that nothing moves any more is in the pool.
in_pool_or_step :
    (t : System) → Inv t → t.accepting ≡ elsewhere → (t.in_pool ≡ 1) ⊎ ((u : System) × Drain t u)
in_pool_or_step t i e = elim (zero_or_positive t.users) [
  | inr h ↦ inr (leave t, leaves h)
  | inl a ↦ elim (zero_or_positive t.closing) [
    | inr h ↦ inr (close t, closes h)
    | inl b ↦ elim (zero_or_positive t.posted) [
      | inr h ↦ inr (release t, releases h)
      | inl c ↦ elim (zero_or_positive t.releasing) [
        | inr h ↦ inr (retire t, retires h)
        | inl d ↦ inl (nothing_moves t i (phase e) a b c d)
      ]
    ]
  ]
]
  where
    nothing_moves :
        (t : System)
        → Inv t
        → (flagged t.accepting ≡ 0) × (holds_count t.accepting ≡ 0) × (busy t.accepting ≡ 0)
        → t.users ≡ 0
        → t.closing ≡ 0
        → t.posted ≡ 0
        → t.releasing ≡ 0
        → t.in_pool ≡ 1
    nothing_moves t i p a b c d = elim (zero_or_positive t.in_pool) [
      | inr h ↦ omega (arith, i.alone, p)
      | inl z ↦
          absurd (let w : 0 < t.closing + t.posted = i.coming (omega (arith, p)) in omega arith)
    ]

-- From every state that a slot comes to while AcceptThread does not have it, the threads and the
-- operations that hold it, and the releases that they bring about, can make no more steps than the
-- work that is left; and after any of their steps either the index is in the pool, once, or one of
-- them has a step to make. So a session that nobody takes any more is released.
pub Reach-Drains :
    {n : ℕ} {s t : System}
    → Reach s
    → s.accepting ≡ elsewhere
    → Drains n s t
    → (n ≤ work s) × ((t.in_pool ≡ 1) ⊎ ((u : System) × Drain t u))
Reach-Drains {n} {s} {t} r e ds =
    let (i, f) = Drains-Inv ds (Reach-Inv r) e in
    (omega (arith, Drains-work ds), in_pool_or_step t i f)
