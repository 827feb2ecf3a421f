-- ===== src/Hosting/Frames.antt =====
-- How often FrameScheduler finds a contents due whose period is a multiple of its own.
use mo_session_server.Base.Int.{pos}
use mo_session_server.Hosting.{is_due}
use native.Mathlib.Nat.{
  mul-add-mod_self_left, mul-add-div, mod-eq_of_lt, div-eq_of_lt, div-add-mod, mod-lt, mul-suc,
  mul_assoc,
}
use mo_session_server.Base.{
  arith, ℕ, suc, ◌*◌, ◌+◌, ◌/◌, ◌%◌, ◌<◌, ◌≡◌, ◌∙◌, Bool, false, inl, inr, true, zero_or_positive,
  ◌-◌, ap, subst,
}

mod_of : (m q r : ℕ) → r < m → (m * q + r) % m ≡ r
mod_of m q r h = mul-add-mod_self_left m q r ∙ mod-eq_of_lt h

div_of : (m q r : ℕ) → 0 < m → r < m → (m * q + r) / m ≡ q
div_of m q r p h = let z : r / m ≡ 0 = div-eq_of_lt h in mul-add-div p q r ∙ omega (arith, z)

abbrev pub one_if : Bool → ℕ
one_if true = 1
one_if false = 0

due_true : (c f : ℕ) → 0 < f → c % f ≡ 0 → is_due c (pos f) ≡ true
unfolding is_due
due_true c f p e = ground (arith, e, p)

due_false : (c f : ℕ) → 0 < c % f → is_due c (pos f) ≡ false
unfolding is_due
due_false c f p = ground (arith, p)

-- With `t` = k q + r turns behind it, the next one either completes k turns or does not.
next_full :
    (k q r : ℕ)
    → r + 1 ≡ k
    → (k * q + r + 1) / k ≡ q + one_if (is_due (10 * (k * q + r + 1)) (pos (10 * k)))
next_full k q r h =
    let t : k * q + r + 1 ≡ k * suc q + 0 = omega (arith, mul-suc k q) in
    let c : 10 * (k * q + r + 1) ≡ 10 * k * suc q + 0 = omega (arith, t, mul_assoc 10 k (suc q)) in
    let d : is_due (10 * (k * q + r + 1)) (pos (10 * k)) ≡ true =
      due_true (10 * (k * q + r + 1)) (10 * k) (omega arith)
        (ap (λ n. n % (10 * k)) c ∙ mod_of (10 * k) (suc q) 0 (omega arith)) in
    rw d (ap (λ n. n / k) t ∙ div_of k (suc q) 0 (omega arith) (omega arith) ∙ omega arith)

next_part :
    (k q r : ℕ)
    → r + 1 < k
    → (k * q + r + 1) / k ≡ q + one_if (is_due (10 * (k * q + r + 1)) (pos (10 * k)))
next_part k q r h =
    let t : k * q + r + 1 ≡ k * q + (r + 1) = omega arith in
    let c : 10 * (k * q + r + 1) ≡ 10 * k * q + 10 * (r + 1) = omega (arith, mul_assoc 10 k q) in
    let m : 10 * (k * q + r + 1) % (10 * k) ≡ 10 * (r + 1) =
      ap (λ n. n % (10 * k)) c ∙ mod_of (10 * k) q (10 * (r + 1)) (omega arith) in
    let d : is_due (10 * (k * q + r + 1)) (pos (10 * k)) ≡ false =
      due_false (10 * (k * q + r + 1)) (10 * k) (omega (arith, m)) in
    rw d (ap (λ n. n / k) t ∙ div_of k q (r + 1) (omega arith) (omega arith) ∙ omega arith)

-- The turns of ten milliseconds at which a period of ten times `k` is due are counted by the quotient.
pub next_turn :
    (k t : ℕ) → 0 < k → (t + 1) / k ≡ t / k + one_if (is_due (10 * (t + 1)) (pos (10 * k)))
next_turn k t p =
    let e : k * (t / k) + t % k ≡ t = div-add-mod t k in
    let l : t % k < k = mod-lt t p in
    subst (λ u. (u + 1) / k ≡ t / k + one_if (is_due (10 * (u + 1)) (pos (10 * k)))) e
      (elim (zero_or_positive (k - (t % k + 1))) [
        | inl z ↦ next_full k (t / k) (t % k) (omega arith)
        | inr h ↦ next_part k (t / k) (t % k) (omega arith)
      ])
