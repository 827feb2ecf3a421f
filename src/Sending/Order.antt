-- ===== src/Sending/Order.antt =====
-- That messages are given to WSASend in the order in which they were queued, each once.
use mo_session_server.Base.{
  Bool, List, [], ap, append_assoc, arith, false, inl, inr, length, refl, subst, sym, true, ℕ, ◌++◌,
  ◌+◌, ◌<◌, ◌∙◌, ◌∷◌, ◌≡◌, ◌⊎◌,
}
use mo_session_server.Sending.{
  Advance, Owner, Reach, Sender, advances, begin, complete, completes, completing, empty_handed,
  fill, filling, fills, give_up, gives_up, idle_sender, in_flight, is_empty, nobody, post, posts,
  queues, send_again, send_box, send_packet, sends, sends_again, take_flag, takes_flag, test_again,
  test_queue, tests, tests_again,
}

abbrev pub fills_box : Owner → Bool
fills_box filling = true
fills_box _ = false

-- 1 for an owner of the flag
abbrev pub owns : Owner → ℕ
owns nobody = 0
owns _ = 1

pub record Inv (s : Sender) : Type 0 where
  pub in_order : s.sent ++ (s.box ++ s.queue) ≡ s.queued
  pub boxed : fills_box s.owner ≡ false → s.box ≡ []
  pub someone :
      0 < length s.queue → 0 < s.enqueued + s.posted + s.tested + s.retesting + owns s.owner

Inv-idle : Inv idle_sender
Inv-idle = record { in_order = refl; boxed = λ e. refl; someone = λ h. absurd (omega arith) }

Inv-send_packet : (x : ℕ) (s : Sender) → Inv s → Inv (send_packet x s)
unfolding send_packet
Inv-send_packet x s i = record {
  in_order =
      ap (s.sent ++◌) (sym (append_assoc s.box s.queue (x ∷ [])))
      ∙ sym (append_assoc s.sent (s.box ++ s.queue) (x ∷ []))
      ∙ ap (◌++ (x ∷ [])) i.in_order;
  boxed = i.boxed;
  someone = λ h. omega arith;
}

Inv-post : (s : Sender) → Inv s → Inv (post s)
unfolding post
Inv-post s i = record { in_order = i.in_order; boxed = i.boxed; someone = λ h. omega arith }

Inv-test_queue : (s : Sender) → Inv s → Inv (test_queue s)
unfolding test_queue
Inv-test_queue s i = record { in_order = i.in_order; boxed = i.boxed; someone = λ h. ground arith }

taken : Owner → Owner
taken o = elim o [ nobody ↦ filling | o ↦ o ]

taken_facts :
    (o : Owner) → (owns (taken o) ≡ 1) × (fills_box (taken o) ≡ false → fills_box o ≡ false)
unfolding taken
taken_facts nobody = (refl, λ e. refl)
taken_facts filling = (refl, λ e. e)
taken_facts empty_handed = (refl, λ e. e)
taken_facts in_flight = (refl, λ e. e)
taken_facts completing = (refl, λ e. e)

Inv-take_flag : (s : Sender) → Inv s → Inv (take_flag s)
unfolding take_flag taken
Inv-take_flag s i =
    let (a, b) = taken_facts s.owner in
    record { in_order = i.in_order; boxed = λ e. i.boxed (b e); someone = λ h. omega (arith, a) }

pub fill-cons :
    (s : Sender) (x : ℕ) (xs : List ℕ)
    → s.queue ≡ x ∷ xs
    → fill s ≡ record s { queue = xs; box = s.box ++ (x ∷ []) }
unfolding fill
fill-cons s x xs e = rw e refl

List-cases : (l : List ℕ) → (l ≡ []) ⊎ ((x : ℕ) × (xs : List ℕ) × (l ≡ x ∷ xs))
List-cases [] = inl refl
List-cases (x ∷ xs) = inr (x, xs, refl)

pub nonempty : (l : List ℕ) → 0 < length l → (x : ℕ) × (xs : List ℕ) × (l ≡ x ∷ xs)
nonempty [] h = absurd (omega arith)
nonempty (x ∷ xs) h = (x, xs, refl)

Inv-fill : (s : Sender) → s.owner ≡ filling → 0 < length s.queue → Inv s → Inv (fill s)
Inv-fill s o h i =
    let (x, xs, e) = nonempty s.queue h in
    subst Inv (sym (fill-cons s x xs e)) (record {
      in_order =
          ap (s.sent ++◌) (append_assoc s.box (x ∷ []) xs ∙ ap (s.box ++◌) (sym e)) ∙ i.in_order;
      boxed = λ f. absurd (let z : true ≡ false = sym (ap fills_box o) ∙ f in cc);
      someone = λ k. omega (arith, ap owns o);
    })

pub send_box-empty : (s : Sender) → s.box ≡ [] → send_box s ≡ record s { owner = empty_handed }
unfolding send_box
send_box-empty s e = rw e refl

pub send_box-cons :
    (s : Sender) (x : ℕ) (xs : List ℕ)
    → s.box ≡ x ∷ xs
    → send_box s ≡ record s { sent = s.sent ++ s.box; box = []; owner = in_flight }
unfolding send_box
send_box-cons s x xs e = let f : is_empty s.box ≡ false = ground (arith, ap length e) in rw f refl

Inv-send_box : (s : Sender) → Inv s → Inv (send_box s)
Inv-send_box s i = elim (List-cases s.box) [
  | inl e ↦
      subst Inv (sym (send_box-empty s e))
        (record { in_order = i.in_order; boxed = λ f. e; someone = λ h. omega arith })
  | inr (x, xs, e) ↦ subst Inv (sym (send_box-cons s x xs e)) (record {
    in_order = append_assoc s.sent s.box s.queue ∙ i.in_order;
    boxed = λ f. refl;
    someone = λ h. omega arith;
  })
]

Inv-give_up : (s : Sender) → s.owner ≡ empty_handed → Inv s → Inv (give_up s)
unfolding give_up
Inv-give_up s o i = record {
  in_order = i.in_order;
  boxed = λ e. i.boxed (ap fills_box o);
  someone = λ h. omega arith;
}

Inv-test_again : (s : Sender) → Inv s → Inv (test_again s)
unfolding test_again
Inv-test_again s i = record { in_order = i.in_order; boxed = i.boxed; someone = λ h. ground arith }

Inv-complete : (s : Sender) → s.owner ≡ in_flight → Inv s → Inv (complete s)
unfolding complete
Inv-complete s o i = record {
  in_order = i.in_order;
  boxed = λ e. i.boxed (ap fills_box o);
  someone = λ h. omega arith;
}

Inv-send_again : (s : Sender) → s.owner ≡ completing → Inv s → Inv (send_again s)
unfolding send_again
Inv-send_again s o i = record {
  in_order = i.in_order;
  boxed = λ e. i.boxed (ap fills_box o);
  someone = λ h. omega arith;
}

pub Advance-Inv : {s t : Sender} → Advance s t → Inv s → Inv t
Advance-Inv {s} (posts h) i = Inv-post s i
Advance-Inv {s} (tests h) i = Inv-test_queue s i
Advance-Inv {s} (takes_flag h) i = Inv-take_flag s i
Advance-Inv {s} (fills o l h) i = Inv-fill s o h i
Advance-Inv {s} (sends o l) i = Inv-send_box s i
Advance-Inv {s} (gives_up o) i = Inv-give_up s o i
Advance-Inv {s} (tests_again h) i = Inv-test_again s i
Advance-Inv {s} (completes o) i = Inv-complete s o i
Advance-Inv {s} (sends_again o) i = Inv-send_again s o i

pub Reach-Inv : {s : Sender} → Reach s → Inv s
Reach-Inv begin = Inv-idle
Reach-Inv (queues {s} x r) = Inv-send_packet x s (Reach-Inv r)
Reach-Inv (advances r a) = Advance-Inv a (Reach-Inv r)
