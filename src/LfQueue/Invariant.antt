-- ===== src/LfQueue/Invariant.antt =====
-- What holds of the queue in every state that the threads bring it to.
use mo_session_server.Base.Int.{dec32}
use mo_session_server.LfQueue.{
  write_at, Queue, count_node, new_queue, refuse, reserve, swing_tail, help_tail, link_node,
  take_node, Reach, Step, begin, counts, helps, later, links, refuses, reserves, swings, takes,
}
use mo_session_server.Base.{
  arith, ℕ, List, Bool-cases, inl, inr, none, some, ◌++◌, ◌+◌, ◌<◌, ◌==◌, ◌∷◌, ◌≡◌, ◌≤◌, ap, ◌∙◌,
  ==_iff, leb, length, refl, ◌%◌, ◌-◌, ◌^◌, ==_self, Option-cases, [], append_assoc, length-append,
  sym, zero_or_positive, subst, suc,
}
use mo_session_server.LfQueue.Items.{items, items-put, linked, wanted, wanted-append}
use mo_session_server.LfQueue.Chain.{Chain, swing-Chain, link-Chain}

module _ {ℓ} {D : Type ℓ} where
  pub record Inv (q : Queue D) : Type ℓ where
    pub chain : Chain q.tail q.next q.linking
    pub spans : q.head ≤ q.tail
    pub fifo : q.put ≡ q.taken ++ items q.content q.head (q.tail - q.head)
    pub no_retry : q.retrying ≡ 0
    pub room : q.tail < q.head + 2 ^ 31
    pub few : q.refusing < 2 ^ 31
    pub found : q.head + q.reserved + length q.linking + q.counting ≤ q.tail
    pub sized :
        (q.size + q.reserved + q.refusing + q.head + length q.linking + q.counting) % 2 ^ 32
        ≡ q.tail % 2 ^ 32
    pub narrow : q.size < 2 ^ 32

  pub Inv-new : (d : D) → Inv (new_queue d)
  Inv-new d = record {
    chain = record {
      below = λ a h. absurd (omega arith);
      above = λ a h. omega arith;
      follows = λ a n e. cc;
    };
    spans = omega arith;
    fifo = refl;
    no_retry = refl;
    room = omega arith;
    few = omega arith;
    found = omega arith;
    sized = omega arith;
    narrow = omega arith;
  }

  pub one_more :
      (q : Queue D) (x : D)
      → q.head ≤ q.tail
      → items q.content q.head (q.tail - q.head) ++ (x ∷ [])
        ≡ items (write_at (q.tail + 1) x q.content) q.head (q.tail + 1 - q.head)
  one_more q x h =
      let e : suc (q.tail - q.head) ≡ q.tail + 1 - q.head = omega arith in
      sym (items-put q.content x q.head (q.tail - q.head) (q.tail + 1) (omega arith))
      ∙ ap (items (write_at (q.tail + 1) x q.content) q.head) e

  Inv-swing_tail :
      (x : D) (q : Queue D) → q.tail + 1 < q.head + 2 ^ 31 → Inv q → Inv (swing_tail x q)
  unfolding swing_tail
  Inv-swing_tail x q h i = record {
    chain = swing-Chain q.tail q.next q.linking i.chain;
    spans = omega (arith, i.spans);
    fifo =
        ap (λ l. l ++ (x ∷ [])) i.fifo
        ∙ append_assoc q.taken (items q.content q.head (q.tail - q.head)) (x ∷ [])
        ∙ ap (◌++◌ q.taken) (one_more q x i.spans);
    no_retry = i.no_retry;
    room = omega arith;
    few = i.few;
    found = omega (arith, i.found);
    sized = omega (arith, i.sized);
    narrow = i.narrow;
  }

  Inv-count_node : (q : Queue D) → 0 < q.counting → Inv q → Inv (count_node q)
  unfolding count_node
  Inv-count_node q h i = record {
    chain = i.chain;
    spans = i.spans;
    fifo = i.fifo;
    no_retry = i.no_retry;
    room = i.room;
    few = i.few;
    found = omega (arith, i.found);
    sized = omega (arith, i.sized);
    narrow = omega arith;
  }

  Inv-reserve : (q : Queue D) → q.refusing + 1 < 2 ^ 31 → Inv q → Inv (reserve q)
  unfolding reserve
  Inv-reserve q h i = elim (Bool-cases (leb (2 ^ 31) (dec32 q.size))) [
    | inl e ↦ rw e (record {
      chain = i.chain;
      spans = i.spans;
      fifo = i.fifo;
      no_retry = i.no_retry;
      room = i.room;
      few = h;
      found = i.found;
      sized = omega (arith, i.sized, i.narrow);
      narrow = omega arith;
    })
    | inr e ↦ rw e (record {
      chain = i.chain;
      spans = i.spans;
      fifo = i.fifo;
      no_retry = i.no_retry;
      room = i.room;
      few = i.few;
      found = ground (arith, e, i.sized, i.narrow, i.found, i.few, i.room);
      sized = omega (arith, i.sized, i.narrow);
      narrow = omega arith;
    })
  ]

  Inv-refuse : (q : Queue D) → 0 < q.refusing → Inv q → Inv (refuse q)
  unfolding refuse
  Inv-refuse q h i = record {
    chain = i.chain;
    spans = i.spans;
    fifo = i.fifo;
    no_retry = i.no_retry;
    room = i.room;
    few = omega (arith, i.few);
    found = i.found;
    sized = omega (arith, i.sized);
    narrow = omega arith;
  }

  -- An old tail that is to be linked has no `_next`.
  pub unlinked :
      (q : Queue D) (before behind : List ℕ) (t : ℕ)
      → q.linking ≡ before ++ (t ∷ behind)
      → Inv q
      → q.next t ≡ none
  unlinked q before behind t e i = elim (Option-cases (q.next t)) [
    | inl z ↦ z
    | inr (n, z) ↦
        let w : wanted t q.linking ≡ wanted t before + (1 + wanted t behind) =
          ap (wanted t) e ∙ wanted-append t before (t ∷ behind) ∙ rw (==_self t) refl in
        elim (zero_or_positive (q.tail - t)) [
          | inl h ↦ absurd (omega (arith, i.chain.above t (omega arith), w))
          | inr h ↦ absurd (omega (arith, i.chain.below t (omega arith), w, ap linked z))
        ]
  ]

  pub link_node-unlinked :
      (q : Queue D) (others : List ℕ) (t : ℕ)
      → q.next t ≡ none
      → link_node t others q ≡ record q {
        next = write_at t (some (t + 1)) q.next;
        linking = others;
        counting = q.counting + 1;
      }
  unfolding link_node
  link_node-unlinked q others t z = rw (link_node, z) refl

  Inv-link_node :
      (q : Queue D) (before behind : List ℕ) (t : ℕ)
      → q.linking ≡ before ++ (t ∷ behind)
      → Inv q
      → Inv (link_node t (before ++ behind) q)
  Inv-link_node q before behind t e i =
      let z = unlinked q before behind t e i in
      let l : length q.linking ≡ length (before ++ behind) + 1 =
        ap length e
        ∙ length-append before (t ∷ behind)
        ∙ omega (arith, length-append before behind) in
      subst Inv (sym (link_node-unlinked q (before ++ behind) t z)) (record {
        chain = link-Chain q.tail t q.next q.linking before behind z e i.chain;
        spans = i.spans;
        fifo = i.fifo;
        no_retry = i.no_retry;
        room = i.room;
        few = i.few;
        found = omega (arith, i.found, l);
        sized = omega (arith, i.sized, l);
        narrow = i.narrow;
      })

  -- The tail has no `_next`, so what Dequeue does to help changes nothing.
  help_tail-same : (q : Queue D) (t n : ℕ) → q.next t ≡ some n → Inv q → help_tail t n q ≡ q
  unfolding help_tail
  help_tail-same q t n e i = elim (Bool-cases (q.tail == t)) [
    | inl f ↦
        absurd (omega (arith, i.chain.above t (omega (arith, (==_iff q.tail t).0 f)), ap linked e))
    | inr f ↦ rw f refl
  ]

  -- The head has a node behind it when its `_next` is set.
  not_last : (q : Queue D) (n : ℕ) → q.next q.head ≡ some n → Inv q → q.head < q.tail
  not_last q n e i = elim (zero_or_positive (q.tail - q.head)) [
    | inl h ↦ absurd (omega (arith, i.chain.above q.head (omega arith), ap linked e))
    | inr h ↦ omega arith
  ]

  pub first_item :
      (q : Queue D) (n : ℕ)
      → n ≡ q.head + 1
      → q.head < q.tail
      → items q.content q.head (q.tail - q.head) ≡ q.content n ∷ items q.content n (q.tail - n)
  first_item q n f l =
      let e : q.tail - q.head ≡ suc (q.tail - n) = omega arith in
      ap (items q.content q.head) e ∙ ap (λ m. q.content m ∷ items q.content m (q.tail - n)) (sym f)

  Inv-take_node :
      (q : Queue D) (n : ℕ) → 0 < q.reserved → q.next q.head ≡ some n → Inv q → Inv (take_node n q)
  unfolding take_node
  Inv-take_node q n h e i =
      let f : n ≡ q.head + 1 = i.chain.follows q.head n e in
      let l : q.head < q.tail = not_last q n e i in
      record {
        chain = i.chain;
        spans = omega arith;
        fifo =
            i.fifo
            ∙ ap (◌++◌ q.taken) (first_item q n f l)
            ∙ sym (append_assoc q.taken (q.content n ∷ []) (items q.content n (q.tail - n)));
        no_retry = i.no_retry;
        room = omega (arith, i.room);
        few = i.few;
        found = omega (arith, i.found);
        sized = omega (arith, i.sized);
        narrow = i.narrow;
      }

  pub Step-Inv : {q r : Queue D} → Step q r → Inv q → Inv r
  Step-Inv {q} (swings x h) i = Inv-swing_tail x q h i
  Step-Inv {q} (links before behind t e) i = Inv-link_node q before behind t e i
  Step-Inv {q} (counts h) i = Inv-count_node q h i
  Step-Inv {q} (reserves h) i = Inv-reserve q h i
  Step-Inv {q} (refuses h) i = Inv-refuse q h i
  Step-Inv {q} (helps t n e) i = subst Inv (sym (help_tail-same q t n e i)) i
  Step-Inv {q} (takes n h e) i = Inv-take_node q n h e i

  pub Reach-Inv : {d : D} {q : Queue D} → Reach d q → Inv q
  Reach-Inv {d} begin = Inv-new d
  Reach-Inv (later r m) = Step-Inv m (Reach-Inv r)
