-- ===== src/Base/Table.antt =====
-- `std::unordered_map` with numeric keys, as an association list whose order stands for the
-- container's iteration order.
use mo_session_server.Base.Tests.{◌==◌, if◌then◌else◌}
use Prim.Native.Nat.{ℕ}
use mathlib.Core.Path.{◌≡◌, refl}
use mathlib.Core.List.{List, [], ◌∷◌}
use mathlib.Core.Option.{Option, none, some}
use native.Mathlib.Omega.{arith}

module _ {ℓ} {V : Type ℓ} where
  abbrev pub find : ℕ → List (ℕ × V) → Option V
  find k [] = none
  find k ((j, v) ∷ m) = if j == k then some v else find k m

  -- `insert` keeps an entry that is there.
  abbrev pub insert : ℕ → V → List (ℕ × V) → List (ℕ × V)
  insert k v m = elim (find k m) [ none ↦ (k, v) ∷ m | some _ ↦ m ]

  abbrev pub erase : ℕ → List (ℕ × V) → List (ℕ × V)
  erase k [] = []
  erase k ((j, v) ∷ m) = if j == k then m else (j, v) ∷ erase k m

  -- A write through the pointer that the map holds.
  abbrev pub assign : ℕ → V → List (ℕ × V) → List (ℕ × V)
  assign k v [] = []
  assign k v ((j, w) ∷ m) = if j == k then (j, v) ∷ m else (j, w) ∷ assign k v m

  abbrev pub keys : List (ℕ × V) → List ℕ
  keys [] = []
  keys ((j, v) ∷ m) = j ∷ keys m

  pub keys-assign : (k : ℕ) (v : V) (m : List (ℕ × V)) → keys (assign k v m) ≡ keys m
  keys-assign k v [] = refl
  keys-assign k v ((j, w) ∷ m) = ground (arith, keys-assign k v m)

  pub find-assign :
      (k j : ℕ) (v w : V) (m : List (ℕ × V))
      → find k m ≡ some w
      → find j (assign k v m) ≡ (if k == j then some v else find j m)
  find-assign k j v w [] e = ground arith
  find-assign k j v w ((i, u) ∷ m) e = ground (arith, find-assign k j v w m)

-- The keys of a map are distinct.
abbrev pub IsMap {ℓ} : {V : Type ℓ} → List (ℕ × V) → Type ℓ
IsMap [] = Unit
IsMap ((j, v) ∷ m) = (find j m ≡ none) × IsMap m

module _ {ℓ} {V : Type ℓ} where
  pub find-assign-none :
      (k j : ℕ) (v : V) (m : List (ℕ × V)) → find k m ≡ none → find k (assign j v m) ≡ none
  find-assign-none k j v [] e = refl
  find-assign-none k j v ((i, u) ∷ m) e = ground (arith, find-assign-none k j v m)

  pub assign-IsMap : (k : ℕ) (v : V) (m : List (ℕ × V)) → IsMap m → IsMap (assign k v m)
  assign-IsMap k v [] h = tt
  assign-IsMap k v ((j, w) ∷ m) h = ground (arith, assign-IsMap k v m, find-assign-none j k v m)

  pub find-erase-none : (k s : ℕ) (m : List (ℕ × V)) → find k m ≡ none → find k (erase s m) ≡ none
  find-erase-none k s [] e = refl
  find-erase-none k s ((j, v) ∷ m) e = ground (arith, find-erase-none k s m)

  pub erase-IsMap : (s : ℕ) (m : List (ℕ × V)) → IsMap m → IsMap (erase s m)
  erase-IsMap s [] u = tt
  erase-IsMap s ((j, v) ∷ m) u = ground (arith, erase-IsMap s m, find-erase-none j s m)
