-- ===== src/LfQueue/Alone.antt =====
-- The queue in the hands of one thread: a first-in first-out list with a maximum.
use mo_session_server.Base.Int.{dec32}
use mo_session_server.Base.{
  List, [], ap, arith, length, some, ◌+◌, ◌-◌, ◌<◌, ◌≡◌, refl, subst, suc, sym, zero, ℕ, ◌++◌, ◌^◌,
  ◌∷◌, Option, Option-cases, false, inl, inr, leb, none, ◌∙◌, ==_iff, Bool, if◌then◌else◌, ltb,
  true, zero_or_positive, ◌==◌, ◌≤◌, Bool-cases, ◌||◌,
}
use mo_session_server.LfQueue.{
  Queue, count_node, enqueue_alone, swing_tail, write_at, counts, link_node, links, swings,
  dequeue_alone, reserve, reserves, take_node, takes, finish_dequeue, max_enqueue, refuse, refuses,
}
use mo_session_server.LfQueue.Items.{items, linked, wanted}
use mo_session_server.LfQueue.Invariant.{
  Inv, Step-Inv, one_more, first_item, link_node-unlinked, unlinked,
}

module _ {ℓ} {D : Type ℓ} where
  -- What is in the queue, in order
  abbrev pub held : Queue D → List D
  held q = items q.content q.head (q.tail - q.head)

  -- No thread is inside.
  pub record AtRest (q : Queue D) : Type ℓ where
    pub inv : Inv q
    pub no_link : q.linking ≡ []
    pub no_count : q.counting ≡ 0
    pub no_refuse : q.refusing ≡ 0
    pub no_reserve : q.reserved ≡ 0

  -- At rest the size is the number of nodes.
  pub size-AtRest : (q : Queue D) → AtRest q → q.size ≡ q.tail - q.head
  size-AtRest q a =
      let l : length q.linking ≡ 0 = ap length a.no_link in
      omega (
        arith, l, a.no_count, a.no_refuse, a.no_reserve, a.inv.sized, a.inv.narrow, a.inv.room,
        a.inv.spans,
      )

  pub length-items : (f : ℕ → D) (a k : ℕ) → length (items f a k) ≡ k
  length-items f a zero = refl
  length-items f a (suc k) = ap suc (length-items f (a + 1) k)

  linked_alone : D → Queue D → Queue D
  linked_alone x q = record (swing_tail x q) {
    next = write_at q.tail (some (q.tail + 1)) q.next;
    linking = q.linking;
    counting = q.counting + 1;
  }

  link-alone :
      (x : D) (q : Queue D)
      → q.tail + 1 < q.head + 2 ^ 31
      → Inv q
      → (link_node q.tail q.linking (swing_tail x q) ≡ linked_alone x q) × Inv (linked_alone x q)
  unfolding swing_tail linked_alone
  link-alone x q h i =
      let j = Step-Inv (swings x h) i in
      let z = unlinked (swing_tail x q) [] q.linking q.tail refl j in
      let e = link_node-unlinked (swing_tail x q) q.linking q.tail z in
      (e, subst Inv e (Step-Inv (links [] q.linking q.tail refl) j))

  -- An Enqueue alone puts its data behind all others.
  enqueue_alone-held :
      (x : D) (q : Queue D)
      → q.tail + 1 < q.head + 2 ^ 31
      → AtRest q
      → AtRest (enqueue_alone x q) × (held (enqueue_alone x q) ≡ held q ++ (x ∷ []))
  unfolding enqueue_alone linked_alone swing_tail count_node
  enqueue_alone-held x q h a =
      let (e, i) = link-alone x q h a.inv in
      subst (λ r. AtRest (count_node r) × (held (count_node r) ≡ held q ++ (x ∷ []))) (sym e)
        (
          record {
            inv = Step-Inv (counts (omega arith)) i;
            no_link = a.no_link;
            no_count = omega (arith, a.no_count);
            no_refuse = a.no_refuse;
            no_reserve = a.no_reserve;
          },
          sym (one_more q x a.inv.spans),
        )

  abbrev pub take_first : List D → Option D × List D
  take_first [] = (none, [])
  take_first (x ∷ xs) = (some x, xs)

  -- What Dequeue alone comes to when it finds data
  reserved_alone : Queue D → Queue D
  reserved_alone q = record q { size = dec32 q.size; reserved = q.reserved + 1 }

  reserve-some : (q : Queue D) → AtRest q → q.head < q.tail → reserve q ≡ reserved_alone q
  unfolding reserve reserved_alone
  reserve-some q a h =
      let n : leb (2 ^ 31) (dec32 q.size) ≡ false =
        ground (arith, size-AtRest q a, a.inv.room, h) in
      rw n refl

  next-head : (q : Queue D) → AtRest q → q.head < q.tail → q.next q.head ≡ some (q.head + 1)
  next-head q a h = elim (Option-cases (q.next q.head)) [
    | inl z ↦
        absurd
          (omega (arith, a.inv.chain.below q.head h, ap linked z, ap (wanted q.head) a.no_link))
    | inr (n, e) ↦ e ∙ ap some (a.inv.chain.follows q.head n e)
  ]

  taken-held :
      (q : Queue D)
      → AtRest q
      → q.head < q.tail
      → let r = take_node (q.head + 1) (reserved_alone q) in
        AtRest r × ((some (q.content (q.head + 1)), held r) ≡ take_first (held q))
  unfolding take_node reserved_alone
  taken-held q a h =
      let room : q.refusing + 1 < 2 ^ 31 = omega (arith, a.no_refuse) in
      let i : Inv (reserved_alone q) =
        subst Inv (reserve-some q a h) (Step-Inv (reserves room) a.inv) in
      (
        record {
          inv = Step-Inv (takes (q.head + 1) (omega arith) (next-head q a h)) i;
          no_link = a.no_link;
          no_count = a.no_count;
          no_refuse = a.no_refuse;
          no_reserve = omega (arith, a.no_reserve);
        },
        sym (ap take_first (first_item q (q.head + 1) refl h)),
      )

  finish-some :
      (q : Queue D)
      → AtRest q
      → q.head < q.tail
      → finish_dequeue (reserved_alone q)
        ≡ (some (q.content (q.head + 1)), take_node (q.head + 1) (reserved_alone q))
  unfolding finish_dequeue reserved_alone
  finish-some q a h =
      let z : (q.reserved + 1 == 0) ≡ false = ground arith in rw (z, next-head q a h) refl

  -- What Dequeue alone comes to when it finds none
  refused_alone : Queue D → Queue D
  refused_alone q = record q { size = dec32 q.size; refusing = q.refusing + 1 }

  reserve-none : (q : Queue D) → AtRest q → q.tail ≤ q.head → reserve q ≡ refused_alone q
  unfolding reserve refused_alone
  reserve-none q a h =
      let n : leb (2 ^ 31) (dec32 q.size) ≡ true = ground (arith, size-AtRest q a, h) in rw n refl

  finish-none :
      (q : Queue D) → AtRest q → finish_dequeue (refused_alone q) ≡ (none, refuse (refused_alone q))
  unfolding finish_dequeue refused_alone
  finish-none q a =
      let z : (q.reserved == 0) ≡ true = (==_iff q.reserved 0).1 a.no_reserve in rw z refl

  refused-held :
      (q : Queue D)
      → AtRest q
      → q.tail ≤ q.head
      → let r = refuse (refused_alone q) in AtRest r × ((none, held r) ≡ take_first (held q))
  unfolding refuse refused_alone
  refused-held q a h =
      let room : q.refusing + 1 < 2 ^ 31 = omega (arith, a.no_refuse) in
      let i : Inv (refused_alone q) =
        subst Inv (reserve-none q a h) (Step-Inv (reserves room) a.inv) in
      let z : q.tail - q.head ≡ 0 = omega arith in
      let e : held q ≡ [] = ap (items q.content q.head) z in
      (
        record {
          inv = Step-Inv (refuses (omega arith)) i;
          no_link = a.no_link;
          no_count = a.no_count;
          no_refuse = omega (arith, a.no_refuse);
          no_reserve = a.no_reserve;
        },
        ap (λ l. (none, l)) e ∙ sym (ap take_first e),
      )

  abbrev pub Gives : Option D × Queue D → List D → Type ℓ
  Gives r l = AtRest r.1 × ((r.0, held r.1) ≡ take_first l)

  -- A Dequeue alone gives the first of the data, or nothing when there is none.
  pub dequeue_alone-held : (q : Queue D) → AtRest q → Gives (dequeue_alone q) (held q)
  unfolding dequeue_alone
  dequeue_alone-held q a = elim (zero_or_positive (q.tail - q.head)) [
    | inl z ↦
        let h : q.tail ≤ q.head = omega arith in
        subst (λ r. Gives r (held q))
          (sym (ap finish_dequeue (reserve-none q a h) ∙ finish-none q a)) (refused-held q a h)
    | inr z ↦
        let h : q.head < q.tail = omega arith in
        subst (λ r. Gives r (held q))
          (sym (ap finish_dequeue (reserve-some q a h) ∙ finish-some q a h)) (taken-held q a h)
  ]

  -- The list that MAXLFQueue stands for, with its maximum
  abbrev pub put_last : ℕ → D → List D → Bool × List D
  put_last max_size x l = if ltb (length l) max_size then (true, l ++ (x ∷ [])) else (false, l)

  size_test :
      (max_size : ℕ) (q : Queue D)
      → AtRest q
      → (leb (2 ^ 31) q.size || ltb q.size max_size) ≡ ltb (length (held q)) max_size
  size_test max_size q a =
      let s = size-AtRest q a in
      let n : leb (2 ^ 31) q.size ≡ false = ground (arith, s, a.inv.room, a.inv.spans) in
      rw n (ap (λ k. ltb k max_size) (s ∙ sym (length-items q.content q.head (q.tail - q.head))))

  abbrev pub Puts : ℕ → D → Bool × Queue D → List D → Type ℓ
  Puts max_size x r l = AtRest r.1 × ((r.0, held r.1) ≡ put_last max_size x l)

  -- An Enqueue of MAXLFQueue alone puts its data behind all others, or is refused at the maximum.
  pub max_enqueue-held :
      (max_size : ℕ) (x : D) (q : Queue D)
      → q.tail + 1 < q.head + 2 ^ 31
      → AtRest q
      → Puts max_size x (max_enqueue max_size x q) (held q)
  unfolding max_enqueue
  max_enqueue-held max_size x q h a =
      let (b, e) = enqueue_alone-held x q h a in
      let t = size_test max_size q a in
      elim (Bool-cases (ltb (length (held q)) max_size)) [
        | inl c ↦
            let r : max_enqueue max_size x q ≡ (true, enqueue_alone x q) =
              rw (max_enqueue, t, c) refl in
            let p : put_last max_size x (held q) ≡ (true, held q ++ (x ∷ [])) = rw c refl in
            subst (λ r. Puts max_size x r (held q)) (sym r) (b, ap (λ l. (true, l)) e ∙ sym p)
        | inr c ↦
            let r : max_enqueue max_size x q ≡ (false, q) = rw (max_enqueue, t, c) refl in
            let p : put_last max_size x (held q) ≡ (false, held q) = rw c refl in
            subst (λ r. Puts max_size x r (held q)) (sym r) (a, sym p)
      ]
