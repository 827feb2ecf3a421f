-- ===== src/Ring/Copy.antt =====
-- What a position of a buffer holds after a copy, and indices that go round once.
use mo_session_server.Ring.{copy_in, copy_out}
use mo_session_server.Base.{
  ℕ, List, [], ◌∷◌, ◌++◌, ◌≡◌, ◌≤◌, ◌<◌, ◌+◌, ◌-◌, ◌%◌, suc, zero, refl, arith, length, get_or, set,
  take, drop, if◌then◌else◌, ltb, ◌==◌, length-set, ◌∙◌, Bool-cases, ap, inl, inr, ◌⊎◌,
}
use native.Mathlib.Nat.{mod-eq_of_lt, mod-eq-sub-mod}

pub mod_wrap : (k n : ℕ) → k < n + n → k % n ≡ (if ltb k n then k else k - n)
mod_wrap k n h = elim (Bool-cases (ltb k n)) [
  | inl lo ↦ rw lo (mod-eq_of_lt {n = k} {m = n} (ground arith))
  | inr hi ↦ rw hi (
      mod-eq-sub-mod {n = k} {m = n} (ground arith)
      ∙ mod-eq_of_lt {n = k - n} {m = n} (ground arith))
]

module _ {ℓ} {A : Type ℓ} where
  get_or-set :
      (xs : List A) (i j : ℕ) (v d : A)
      → j < length xs
      → get_or (set xs j v) i d ≡ (if i == j then v else get_or xs i d)
  get_or-set [] i j v d h = absurd (omega arith)
  get_or-set (x ∷ xs) zero zero v d h = refl
  get_or-set (x ∷ xs) zero (suc j) v d h = ground arith
  get_or-set (x ∷ xs) (suc i) zero v d h = ground arith
  get_or-set (x ∷ xs) (suc i) (suc j) v d h = ground (arith, get_or-set xs i j v d)

  pub length-copy_in :
      (buf : List A) (at : ℕ) (xs : List A) → length (copy_in buf at xs) ≡ length buf
  length-copy_in buf at [] = refl
  length-copy_in buf at (x ∷ xs) = length-copy_in (set buf at x) (suc at) xs ∙ length-set buf at x

  pub get_or-copy_in_out :
      (buf : List A) (at : ℕ) (xs : List A) (i : ℕ) (d : A)
      → at + length xs ≤ length buf
      → (i < at) ⊎ (at + length xs ≤ i)
      → get_or (copy_in buf at xs) i d ≡ get_or buf i d
  get_or-copy_in_out buf at [] i d h o = refl
  get_or-copy_in_out buf at (x ∷ xs) i d h o =
      get_or-copy_in_out (set buf at x) (suc at) xs i d (omega (arith, length-set buf at x))
        (elim o [ inl l ↦ inl (omega arith) | inr g ↦ inr (omega arith) ])
      ∙ get_or-set buf i at x d (omega arith)
      ∙ ground arith

  pub get_or-copy_in_at :
      (buf : List A) (at : ℕ) (xs : List A) (i : ℕ) (d : A)
      → at + length xs ≤ length buf
      → i < length xs
      → get_or (copy_in buf at xs) (at + i) d ≡ get_or xs i d
  get_or-copy_in_at buf at [] i d h l = absurd (omega arith)
  get_or-copy_in_at buf at (x ∷ xs) zero d h l =
      get_or-copy_in_out (set buf at x) (suc at) xs (at + 0) d (omega (arith, length-set buf at x))
        (inl (omega arith))
      ∙ get_or-set buf (at + 0) at x d (omega arith)
      ∙ ground arith
  get_or-copy_in_at buf at (x ∷ xs) (suc i) d h l =
      ap (λ k. get_or (copy_in (set buf at x) (suc at) xs) k d) {x = at + suc i} {y = suc at + i}
        (omega arith)
      ∙ get_or-copy_in_at (set buf at x) (suc at) xs i d (omega (arith, length-set buf at x))
          (omega arith)

  pub get_or-take :
      (n : ℕ) (xs : List A) (i : ℕ) (d : A) → i < n → get_or (take n xs) i d ≡ get_or xs i d
  get_or-take zero xs i d h = absurd (omega arith)
  get_or-take (suc n) [] i d h = refl
  get_or-take (suc n) (x ∷ xs) zero d h = refl
  get_or-take (suc n) (x ∷ xs) (suc i) d h = get_or-take n xs i d (omega arith)

  pub get_or-drop :
      (n : ℕ) (xs : List A) (i : ℕ) (d : A) → get_or (drop n xs) i d ≡ get_or xs (n + i) d
  get_or-drop zero xs i d = ap (λ k. get_or xs k d) {x = i} {y = 0 + i} (omega arith)
  get_or-drop (suc n) [] i d = refl
  get_or-drop (suc n) (x ∷ xs) i d =
      get_or-drop n xs i d
      ∙ ap (λ k. get_or (x ∷ xs) k d) {x = suc (n + i)} {y = suc n + i} (omega arith)

  pub length-take : (n : ℕ) (xs : List A) → n ≤ length xs → length (take n xs) ≡ n
  length-take zero xs h = refl
  length-take (suc n) [] h = absurd (omega arith)
  length-take (suc n) (x ∷ xs) h = ap suc (length-take n xs (omega arith))

  pub length-drop : (n : ℕ) (xs : List A) → length (drop n xs) ≡ length xs - n
  length-drop zero xs = omega arith
  length-drop (suc n) [] = omega arith
  length-drop (suc n) (x ∷ xs) = omega (arith, length-drop n xs)

  pub get_or-append_left :
      (xs ys : List A) (i : ℕ) (d : A) → i < length xs → get_or (xs ++ ys) i d ≡ get_or xs i d
  get_or-append_left [] ys i d h = absurd (omega arith)
  get_or-append_left (x ∷ xs) ys zero d h = refl
  get_or-append_left (x ∷ xs) ys (suc i) d h = get_or-append_left xs ys i d (omega arith)

  pub get_or-append_right :
      (xs ys : List A) (i : ℕ) (d : A)
      → length xs ≤ i
      → get_or (xs ++ ys) i d ≡ get_or ys (i - length xs) d
  get_or-append_right [] ys i d h = ap (λ k. get_or ys k d) {x = i} {y = i - 0} (omega arith)
  get_or-append_right (x ∷ xs) ys zero d h = absurd (omega arith)
  get_or-append_right (x ∷ xs) ys (suc i) d h =
      get_or-append_right xs ys i d (omega arith)
      ∙ ap (λ k. get_or ys k d) {x = i - length xs} {y = suc i - suc (length xs)} (omega arith)

  pub length-copy_out :
      (buf : List A) (at n : ℕ) → at + n ≤ length buf → length (copy_out buf at n) ≡ n
  length-copy_out buf at n h = length-take n (drop at buf) (omega (arith, length-drop at buf))

  pub get_or-copy_out :
      (buf : List A) (at n i : ℕ) (d : A)
      → i < n
      → get_or (copy_out buf at n) i d ≡ get_or buf (at + i) d
  get_or-copy_out buf at n i d h = get_or-take n (drop at buf) i d h ∙ get_or-drop at buf i d
