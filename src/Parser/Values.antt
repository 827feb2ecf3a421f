-- ===== src/Parser/Values.antt =====
-- The values of the configuration, as decimal numbers.
use mo_session_server.Parser.{Bytes, atoi, digits_from, number}
use native.Mathlib.Nat.{mul_assoc, add-mul, mul_left_comm}
use mo_session_server.Base.{
  All, [], arith, if◌then◌else◌, length, none, some, ℕ, ◌*◌, ◌+◌, ◌-◌, ◌==◌, ◌^◌, ◌∷◌, ◌≡◌, ◌≤◌, ap,
  suc, ◌∙◌,
}
use mo_session_server.Base.Int.{◌-ℤ◌, pos}

abbrev pub IsDigit : ℕ → Type 0
IsDigit c = (48 ≤ c) × (c ≤ 57)

-- The number that digits stand for
abbrev pub decimal : Bytes → ℕ
decimal [] = 0
decimal (c ∷ r) = (c - 48) * 10 ^ length r + decimal r

digits_from-decimal :
    (acc : ℕ) (ds : Bytes) → All IsDigit ds → digits_from acc ds ≡ acc * 10 ^ length ds + decimal ds
unfolding digits_from
digits_from-decimal acc [] a = omega arith
digits_from-decimal acc (c ∷ r) a =
    let i = digits_from-decimal (10 * acc + (c - 48)) r a.1 in
    let p = 10 ^ length r in
    let e : 10 ^ suc (length r) ≡ 10 * p = omega arith in
    let f : (10 * acc + (c - 48)) * p ≡ 10 * (acc * p) + (c - 48) * p =
      add-mul (10 * acc) (c - 48) p ∙ omega (arith, mul_assoc 10 acc p) in
    let g : acc * 10 ^ suc (length r) ≡ 10 * (acc * p) =
      ap (λ x. acc * x) e ∙ mul_left_comm acc 10 p in
    ground (arith, a.0, i, f, g)

-- A digit is its value; more digits are the number that they stand for, but not when it is 0.
pub number-decimal :
    (d : ℕ) (ds : Bytes)
    → All IsDigit (d ∷ ds)
    → number (d ∷ ds) ≡ (
        if length ds == 0
        then some (pos (d - 48))
        else if decimal (d ∷ ds) == 0
        then none
        else some (pos (decimal (d ∷ ds))))
unfolding number atoi ◌-ℤ◌
number-decimal d [] a = ground (arith, a)
number-decimal d (c ∷ ds) a =
    let i : digits_from 0 (d ∷ c ∷ ds) ≡ decimal (d ∷ c ∷ ds) =
      digits_from-decimal 0 (d ∷ c ∷ ds) a ∙ omega arith in
    ground (arith, a.0, i)
