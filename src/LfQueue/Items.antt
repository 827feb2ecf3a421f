-- ===== src/LfQueue/Items.antt =====
-- The data of a row of nodes, and how often a node is an old tail that is to be linked.
use mo_session_server.Base.{
  List, Option, [], ap, arith, if◌then◌else◌, none, refl, some, suc, zero, ℕ, ◌++◌, ◌+◌, ◌<◌, ◌==◌,
  ◌∙◌, ◌∷◌, ◌≡◌, ==_iff, ap₂,
}
use mo_session_server.LfQueue.{write_at}

module _ {ℓ} {D : Type ℓ} where
  -- The data of the `k` nodes behind node `a`
  abbrev pub items : (ℕ → D) → ℕ → ℕ → List D
  items f a zero = []
  items f a (suc k) = f (a + 1) ∷ items f (a + 1) k

  pub items-snoc : (f : ℕ → D) (a k : ℕ) → items f a (suc k) ≡ items f a k ++ (f (a + k + 1) ∷ [])
  items-snoc f a zero = ap (λ n. f n ∷ []) (omega arith)
  items-snoc f a (suc k) =
      ap (λ l. f (a + 1) ∷ l)
        (items-snoc f (a + 1) k ∙ ap (λ n. items f (a + 1) k ++ (f n ∷ [])) (omega arith))

  pub items-write_at :
      (f : ℕ → D) (x : D) (a k n : ℕ) → a + k < n → items (write_at n x f) a k ≡ items f a k
  items-write_at f x a zero n h = refl
  items-write_at f x a (suc k) n h = ground (arith, items-write_at f x (a + 1) k n (omega arith))

  -- A node behind the last one
  pub items-put :
      (f : ℕ → D) (x : D) (a k n : ℕ)
      → a + k + 1 ≡ n
      → items (write_at n x f) a (suc k) ≡ items f a k ++ (x ∷ [])
  items-put f x a k n h =
      let own : write_at n x f (a + k + 1) ≡ x = rw ((==_iff (a + k + 1) n).1 h) refl in
      items-snoc (write_at n x f) a k
      ∙ ap₂ (λ l y. l ++ (y ∷ [])) (items-write_at f x a k n (omega arith)) own

abbrev pub wanted : ℕ → List ℕ → ℕ
wanted a [] = 0
wanted a (t ∷ ts) = (if t == a then 1 else 0) + wanted a ts

pub wanted-append : (a : ℕ) (ts us : List ℕ) → wanted a (ts ++ us) ≡ wanted a ts + wanted a us
wanted-append a [] us = omega arith
wanted-append a (t ∷ ts) us = omega (arith, wanted-append a ts us)

abbrev pub linked : Option ℕ → ℕ
linked none = 0
linked (some n) = 1
