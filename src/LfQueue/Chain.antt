-- ===== src/LfQueue/Chain.antt =====
-- The links between the nodes of the queue.
use mo_session_server.LfQueue.{write_at}
use mo_session_server.Base.{
  arith, ℕ, List, Bool-cases, Option, inl, inr, none, some, ◌++◌, ◌+◌, ◌<◌, ◌==◌, ◌∷◌, ◌≡◌, ◌≤◌, ap,
  ◌∙◌, ==_iff,
}
use mo_session_server.LfQueue.Items.{linked, wanted, wanted-append}

-- Every node before the tail is linked to the one behind it, or one thread is about to link it.
pub record Chain (tail : ℕ) (next : ℕ → Option ℕ) (linking : List ℕ) : Type 0 where
  pub below : (a : ℕ) → a < tail → linked (next a) + wanted a linking ≡ 1
  pub above : (a : ℕ) → tail ≤ a → linked (next a) + wanted a linking ≡ 0
  pub follows : (a n : ℕ) → next a ≡ some n → n ≡ a + 1

pub swing-Chain :
    (tail : ℕ) (next : ℕ → Option ℕ) (linking : List ℕ)
    → Chain tail next linking
    → Chain (tail + 1) next (tail ∷ linking)
swing-Chain tail next linking c = record {
  below = λ a h. elim (Bool-cases (tail == a)) [
    | inl e ↦ rw e (ground (arith, c.above a, e))
    | inr e ↦ rw e (ground (arith, c.below a, e))
  ];
  above = λ a h. ground (arith, c.above a);
  follows = c.follows;
}

-- Linking an old tail takes it off those that are to be linked.
same_total :
    (a t : ℕ) (next : ℕ → Option ℕ) (before behind : List ℕ)
    → next t ≡ none
    → linked (write_at t (some (t + 1)) next a) + wanted a (before ++ behind)
      ≡ linked (next a) + wanted a (before ++ (t ∷ behind))
same_total a t next before behind z =
    let u = wanted-append a before behind in
    let w = wanted-append a before (t ∷ behind) in
    elim (Bool-cases (a == t)) [
      | inl e ↦
          let q : a ≡ t = (==_iff a t).0 e in
          let y : next a ≡ none = ap next q ∙ z in rw e (ground (arith, ap linked y, u, w, q))
      | inr e ↦ rw e (ground (arith, u, w, e))
    ]

pub link-Chain :
    (tail t : ℕ) (next : ℕ → Option ℕ) (linking before behind : List ℕ)
    → next t ≡ none
    → linking ≡ before ++ (t ∷ behind)
    → Chain tail next linking
    → Chain tail (write_at t (some (t + 1)) next) (before ++ behind)
link-Chain tail t next linking before behind z e c = record {
  below = λ a h. omega (arith, same_total a t next before behind z, ap (wanted a) e, c.below a h);
  above = λ a h. omega (arith, same_total a t next before behind z, ap (wanted a) e, c.above a h);
  follows = λ a n h. ground (arith, c.follows a n, h);
}
