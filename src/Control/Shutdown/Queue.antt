-- ===== src/Control/Shutdown/Queue.antt =====
-- The requests of `_ctrlQ` by type, and those that come too late.
use mo_session_server.Control.Shutdown.{ControlType, allocates, frees, deregisters}
use mo_session_server.Base.{ℕ, List, [], ◌∷◌, ◌++◌, ◌+◌, ◌≡◌, refl, arith, suc, ap}

abbrev pub allocs : List ControlType → ℕ
allocs [] = 0
allocs (allocates ∷ q) = suc (allocs q)
allocs (_ ∷ q) = allocs q

abbrev pub frees_in : List ControlType → ℕ
frees_in [] = 0
frees_in (frees ∷ q) = suc (frees_in q)
frees_in (_ ∷ q) = frees_in q

abbrev pub deregs : List ControlType → ℕ
deregs [] = 0
deregs (deregisters ∷ q) = suc (deregs q)
deregs (_ ∷ q) = deregs q

-- How many requests for a match stand behind the first one that takes the lobby away
abbrev pub late : List ControlType → ℕ
late [] = 0
late (deregisters ∷ q) = allocs q
late (_ ∷ q) = late q

pub counts-append :
    (q : List ControlType) (r : ControlType)
    → (allocs (q ++ (r ∷ [])) ≡ allocs q + allocs (r ∷ []))
      × (frees_in (q ++ (r ∷ [])) ≡ frees_in q + frees_in (r ∷ []))
      × (deregs (q ++ (r ∷ [])) ≡ deregs q + deregs (r ∷ []))
counts-append [] r = omega arith
counts-append (allocates ∷ q) r = omega (arith, counts-append q r)
counts-append (frees ∷ q) r = omega (arith, counts-append q r)
counts-append (deregisters ∷ q) r = omega (arith, counts-append q r)

pub late-frees : (q : List ControlType) → late (q ++ (frees ∷ [])) ≡ late q
late-frees [] = refl
late-frees (allocates ∷ q) = late-frees q
late-frees (frees ∷ q) = late-frees q
late-frees (deregisters ∷ q) = omega (arith, counts-append q frees)

pub late-deregisters : (q : List ControlType) → late (q ++ (deregisters ∷ [])) ≡ late q
late-deregisters [] = refl
late-deregisters (allocates ∷ q) = late-deregisters q
late-deregisters (frees ∷ q) = late-deregisters q
late-deregisters (deregisters ∷ q) = omega (arith, counts-append q deregisters)

pub late-allocates : (q : List ControlType) → deregs q ≡ 0 → late (q ++ (allocates ∷ [])) ≡ late q
late-allocates [] h = refl
late-allocates (allocates ∷ q) h = late-allocates q h
late-allocates (frees ∷ q) h = late-allocates q h
late-allocates (deregisters ∷ q) h = absurd (omega arith)

pub late_of_none : (q : List ControlType) → allocs q ≡ 0 → late q ≡ 0
late_of_none [] h = refl
late_of_none (allocates ∷ q) h = absurd (omega arith)
late_of_none (frees ∷ q) h = late_of_none q h
late_of_none (deregisters ∷ q) h = h

pub head_facts :
    {q rest : List ControlType} {r : ControlType}
    → q ≡ r ∷ rest
    → (allocs q ≡ allocs (r ∷ rest))
      × (frees_in q ≡ frees_in (r ∷ rest))
      × (deregs q ≡ deregs (r ∷ rest))
head_facts e = (ap allocs e, ap frees_in e, ap deregs e)
