-- ===== src/LockFree/Versions.antt =====
-- That the exchange of Pop is right about what is below the top.
use mo_session_server.Base.{
  List, [], ap, arith, if◌then◌else◌, refl, ℕ, ◌++◌, ◌+◌, ◌<◌, ◌==◌, ◌∙◌, ◌∷◌, ◌≡◌, ◌≤◌, ==_self,
  Bool-cases, inl, inr, leb, sym, ◌%◌, ◌^◌,
}
use mo_session_server.LockFree.{
  Entry, Stack, Step, Steps, and_then, empty_stack, none_yet, pop_top, pops, push, pushes, take_key,
  takes_key, tag,
}

-- How many of some entries have a key
abbrev pub occurrences : ℕ → List Entry → ℕ
occurrences k [] = 0
occurrences k (e ∷ es) = (if e.key == k then 1 else 0) + occurrences k es

occurrences-append :
    (k : ℕ) (xs ys : List Entry) → occurrences k (xs ++ ys) ≡ occurrences k xs + occurrences k ys
occurrences-append k [] ys = omega arith
occurrences-append k (x ∷ xs) ys = omega (arith, occurrences-append k xs ys)

-- Every key is used once, and none that was not taken.
pub record Inv (s : Stack) : Type 0 where
  pub once : (k : ℕ) → occurrences k s.entries + occurrences k s.pending ≤ 1
  pub taken : (k : ℕ) → s.key_count < k → occurrences k s.entries + occurrences k s.pending ≡ 0

Step-Inv : {s t : Stack} → Step s t → Inv s → Inv t
unfolding take_key push pop_top
Step-Inv {s} (takes_key a x) i = record {
  once = λ k. ground (arith, i.once k, i.taken k);
  taken = λ k h. ground (arith, i.taken k (omega arith));
}
Step-Inv {s} (pushes e before behind f) i = record {
  once = λ k. omega (arith, i.once k, moved k);
  taken = λ k h. omega (arith, i.taken k h, moved k);
}
  where
    moved :
        (k : ℕ)
        → occurrences k s.pending ≡ (if e.key == k then 1 else 0) + occurrences k (before ++ behind)
    moved k =
        ap (occurrences k) f
        ∙ omega
            (arith, occurrences-append k before (e ∷ behind), occurrences-append k before behind)
Step-Inv {s} (pops e rest f) i = record {
  once = λ k. omega (arith, i.once k, ap (occurrences k) f);
  taken = λ k h. omega (arith, i.taken k h, ap (occurrences k) f);
}

Inv-empty : Inv empty_stack
Inv-empty = record { once = λ k. omega arith; taken = λ k h. refl }

pub Steps-Inv : {s t : Stack} → Steps s t → Inv s → Inv t
Steps-Inv none_yet i = i
Steps-Inv (and_then r st) i = Step-Inv st (Steps-Inv r i)

-- An entry is where it was, with the same entries below, or it is gone for good.
data Since (e : Entry) (rest : List Entry) (t : Stack) : Type 0 where
  below : (xs : List Entry) → t.entries ≡ xs ++ (e ∷ rest) → Since e rest t
  gone :
      occurrences e.key t.entries + occurrences e.key t.pending ≡ 0
      → e.key ≤ t.key_count
      → Since e rest t

own_key : (e : Entry) → ◌≡◌ {A = ℕ} (if e.key == e.key then 1 else 0) 1
own_key e = rw (==_self e.key) refl

-- An entry in the stack has a key that was taken.
key_taken :
    (e : Entry) (xs rest : List Entry) (s : Stack)
    → Inv s
    → s.entries ≡ xs ++ (e ∷ rest)
    → e.key ≤ s.key_count
key_taken e xs rest s i f = elim (Bool-cases (leb e.key s.key_count)) [
  | inl h ↦ ground arith
  | inr h ↦ absurd (
      let z : occurrences e.key s.entries + occurrences e.key s.pending ≡ 0 =
        i.taken e.key (ground arith) in
      omega (arith, z, ap (occurrences e.key) f, occurrences-append e.key xs (e ∷ rest), own_key e))
]

tails : {d e : Entry} {xs ys : List Entry} → d ∷ xs ≡ e ∷ ys → xs ≡ ys
tails p = cc

Step-Since :
    (e : Entry) (rest : List Entry) {s t : Stack}
    → Step s t
    → Inv s
    → Since e rest s
    → Since e rest t
unfolding take_key push pop_top
Step-Since e rest (takes_key a x) i (below xs f) = below xs f
Step-Since e rest (pushes d before behind g) i (below xs f) = below (d ∷ xs) (ap (d ∷◌) f)
Step-Since e rest {s} (pops d under g) i (below [] f) =
    gone
      (omega (
        arith,
        i.once e.key,
        ap (occurrences e.key) f,
        ap (occurrences e.key) (tails (sym g ∙ f)),
        own_key e,
      ))
      (key_taken e [] rest s i f)
Step-Since e rest (pops d under g) i (below (x ∷ xs) f) = below xs (tails (sym g ∙ f))
Step-Since e rest {s} (takes_key a x) i (gone z h) = gone (ground (arith, z)) (omega arith)
Step-Since e rest {s} (pushes d before behind g) i (gone z h) =
    gone
      (omega (
        arith,
        z,
        ap (occurrences e.key) g,
        occurrences-append e.key before (d ∷ behind),
        occurrences-append e.key before behind,
      ))
      h
Step-Since e rest {s} (pops d under g) i (gone z h) =
    gone (omega (arith, z, ap (occurrences e.key) g)) h

Steps-Since :
    (e : Entry) (rest : List Entry) {s t : Stack}
    → Steps s t
    → Inv s
    → Since e rest s
    → Since e rest t
Steps-Since e rest none_yet i x = x
Steps-Since e rest (and_then r st) i x =
    Step-Since e rest st (Steps-Inv r i) (Steps-Since e rest r i x)

Steps-keys : {s t : Stack} → Steps s t → s.key_count ≤ t.key_count
unfolding take_key push pop_top
Steps-keys none_yet = omega arith
Steps-keys (and_then r (takes_key a x)) = omega (arith, Steps-keys r)
Steps-keys (and_then r (pushes e before behind f)) = Steps-keys r
Steps-keys (and_then r (pops e rest f)) = Steps-keys r

same_key :
    (a b n : ℕ) → a ≤ n → b ≤ n → n < a + 2 ^ 16 → n < b + 2 ^ 16 → a % 2 ^ 16 ≡ b % 2 ^ 16 → a ≡ b
same_key a b n h k l m e = omega arith

heads : {d e : Entry} {xs ys : List Entry} → d ∷ xs ≡ e ∷ ys → d ≡ e
heads p = cc

counted : (d e : Entry) → d.key ≡ e.key → ◌≡◌ {A = ℕ} (if d.key == e.key then 1 else 0) 1
counted d e k = ground (arith, k)

unchanged :
    (e d : Entry) (rest under : List Entry) (t : Stack)
    → Inv t
    → Since e rest t
    → t.entries ≡ d ∷ under
    → d.key ≡ e.key
    → under ≡ rest
unchanged e d rest under t i (below [] f) g k = tails (sym g ∙ f)
unchanged e d rest under t i (below (x ∷ xs) f) g k =
    let first : x.key ≡ d.key = ap (λ c. c.key) (heads (sym f ∙ g)) in
    absurd (
      omega (
        arith,
        i.once e.key,
        ap (occurrences e.key) f,
        occurrences-append e.key xs (e ∷ rest),
        own_key e,
        counted x e (first ∙ k),
      ))
unchanged e d rest under t i (gone z h) g k =
    absurd (omega (arith, z, ap (occurrences e.key) g, counted d e k))

-- A thread in Pop has read the top, and the stack below it. Later the top has the same tag again, and
-- fewer than 2^16 keys were taken since the keys of the two. Then the stack below is the one that the
-- thread has seen: the exchange that succeeds puts the right node on top, whatever other threads have
-- pushed and popped, and whatever nodes were used again in between.
pub Steps-entries :
    {s t : Stack} (e d : Entry) (rest under : List Entry)
    → Steps empty_stack s
    → Steps s t
    → s.entries ≡ e ∷ rest
    → t.entries ≡ d ∷ under
    → tag d ≡ tag e
    → t.key_count < e.key + 2 ^ 16
    → t.key_count < d.key + 2 ^ 16
    → under ≡ rest
Steps-entries {s} {t} e d rest under r q f g same_tag h k =
    let i = Steps-Inv r Inv-empty in
    let j = Steps-Inv q i in
    let older : e.key ≤ t.key_count = omega (arith, key_taken e [] rest s i f, Steps-keys q) in
    unchanged e d rest under t j (Steps-Since e rest q i (below [] f)) g
      (same_key d.key e.key t.key_count (key_taken d [] under t j g) older k h same_tag)
