-- ===== src/Sending/Progress.antt =====
-- That everything that was queued is sent.
use mo_session_server.Base.{
  Bool, ap, arith, false, if◌then◌else◌, length, subst, sym, true, ℕ, ◌*◌, ◌+◌, ◌<◌, ◌≡◌, ◌≤◌, ◌⊎◌,
  Bool-cases, List, [], inl, inr, length-append, refl, ◌∷◌, append-nil, ap₂, ltb, suc, zero, ◌++◌,
  ◌∙◌, zero_or_positive,
}
use mo_session_server.Sending.{
  Owner, Sender, box_max, complete, completing, empty_handed, fill, filling, give_up, in_flight,
  is_empty, nobody, post, send_again, send_box, take_flag, test_again, test_queue, Advance, Reach,
  completes, fills, gives_up, posts, sends, sends_again, takes_flag, tests, tests_again,
}
use mo_session_server.Sending.Order.{
  Inv, Reach-Inv, Advance-Inv, fill-cons, nonempty, send_box-empty, send_box-cons, fills_box, owns,
}

abbrev owner_work : Bool → Owner → ℕ
owner_work none_left nobody = 0
owner_work none_left filling = 3
owner_work true empty_handed = 2
owner_work false empty_handed = 7
owner_work none_left in_flight = 7
owner_work none_left completing = 6

-- The steps that are left at most
pub work : Sender → ℕ
work s =
    6 * length s.queue
    + 5 * length s.box
    + 6 * s.enqueued
    + 5 * s.posted
    + 4 * s.tested
    + (if is_empty s.queue then s.retesting else 6 * s.retesting)
    + owner_work (is_empty s.queue) s.owner

owner_by : (b : Bool) {o p : Owner} → o ≡ p → owner_work b o ≡ owner_work b p
owner_by b e = ap (owner_work b) e

less_owner_work : (o : Owner) → owner_work true o ≤ owner_work false o
less_owner_work nobody = omega arith
less_owner_work filling = omega arith
less_owner_work empty_handed = omega arith
less_owner_work in_flight = omega arith
less_owner_work completing = omega arith

at_most : (b : Bool) (o : Owner) → owner_work b o ≤ owner_work false o
at_most true o = less_owner_work o
at_most false o = omega arith

taken_work :
    (b : Bool) (o : Owner) → owner_work b (elim o [ nobody ↦ filling | o ↦ o ]) ≤ owner_work b o + 3
taken_work b nobody = omega arith
taken_work b filling = omega arith
taken_work true empty_handed = omega arith
taken_work false empty_handed = omega arith
taken_work b in_flight = omega arith
taken_work b completing = omega arith

take_flag-work : (s : Sender) → 0 < s.tested → work (take_flag s) < work s
unfolding work take_flag
take_flag-work s h = omega (arith, taken_work (is_empty s.queue) s.owner)

post-work : (s : Sender) → 0 < s.enqueued → work (post s) < work s
unfolding work post
post-work s h = omega arith

test_queue-work : (s : Sender) → 0 < s.posted → work (test_queue s) < work s
unfolding work test_queue
test_queue-work s h = ground arith

fill-work : (s : Sender) → 0 < length s.queue → work (fill s) < work s
unfolding work
fill-work s h =
    let (x, xs, e) = nonempty s.queue h in
    subst (λ t. work t < work s) (sym (fill-cons s x xs e))
      (let f : is_empty s.queue ≡ false = ground (arith, ap length e) in
        ground (
          arith,
          ap length e,
          length-append s.box (x ∷ []),
          at_most (is_empty xs) s.owner,
          ap (λ b. owner_work b s.owner) f,
        ))

no_elements : (l : List ℕ) → length l ≡ 0 → l ≡ []
no_elements [] h = refl
no_elements (x ∷ l) h = absurd (omega arith)

send_box-work :
    (s : Sender)
    → s.owner ≡ filling
    → (box_max ≤ length s.box) ⊎ (length s.queue ≡ 0)
    → work (send_box s) < work s
unfolding work
send_box-work s o h = elim (Bool-cases (is_empty s.box)) [
  | inl e ↦
      let nothing : s.box ≡ [] = no_elements s.box (ground arith) in
      let q : is_empty s.queue ≡ true = ground (arith, h) in
      subst (λ t. work t < work s) (sym (send_box-empty s nothing))
        (omega (arith, ap (λ b. owner_work b empty_handed) q, owner_by (is_empty s.queue) o))
  | inr e ↦
      let (x, xs, f) = nonempty s.box (ground arith) in
      subst (λ t. work t < work s) (sym (send_box-cons s x xs f))
        (omega (arith, ap length f, owner_by (is_empty s.queue) o))
]

give_up_by :
    (b : Bool) (r : ℕ)
    → (if b then r + 1 else 6 * (r + 1)) < (if b then r else 6 * r) + owner_work b empty_handed
give_up_by true r = omega arith
give_up_by false r = omega arith

give_up-work : (s : Sender) → s.owner ≡ empty_handed → work (give_up s) < work s
unfolding work give_up
give_up-work s o =
    omega (arith, give_up_by (is_empty s.queue) s.retesting, owner_by (is_empty s.queue) o)

test_again-work : (s : Sender) → 0 < s.retesting → work (test_again s) < work s
unfolding work test_again
test_again-work s h = ground arith

complete-work : (s : Sender) → s.owner ≡ in_flight → work (complete s) < work s
unfolding work complete
complete-work s o = omega (arith, owner_by (is_empty s.queue) o)

send_again-work : (s : Sender) → s.owner ≡ completing → work (send_again s) < work s
unfolding work send_again
send_again-work s o = omega (arith, owner_by (is_empty s.queue) o)

Advance-work : {s t : Sender} → Advance s t → work t < work s
Advance-work {s} (posts h) = post-work s h
Advance-work {s} (tests h) = test_queue-work s h
Advance-work {s} (takes_flag h) = take_flag-work s h
Advance-work {s} (fills o l h) = fill-work s h
Advance-work {s} (sends o l) = send_box-work s o l
Advance-work {s} (gives_up o) = give_up-work s o
Advance-work {s} (tests_again h) = test_again-work s h
Advance-work {s} (completes o) = complete-work s o
Advance-work {s} (sends_again o) = send_again-work s o

-- So many steps without a new message
pub data Advances : ℕ → Sender → Sender → Type 0 where
  done : {s : Sender} → Advances zero s s
  more : {n : ℕ} {s t u : Sender} → Advance s t → Advances n t u → Advances (suc n) s u

Advances-work : {n : ℕ} {s t : Sender} → Advances n s t → n + work t ≤ work s
Advances-work done = omega arith
Advances-work (more a rest) = omega (arith, Advance-work a, Advances-work rest)

Advances-Inv : {n : ℕ} {s t : Sender} → Advances n s t → Inv s → Inv t
Advances-Inv done i = i
Advances-Inv (more a rest) i = Advances-Inv rest (Advance-Inv a i)

-- What the owner of the flag does next
owner_step : (o : Owner) (s : Sender) → s.owner ≡ o → (o ≡ nobody) ⊎ ((t : Sender) × Advance s t)
owner_step nobody s e = inl refl
owner_step empty_handed s e = inr (give_up s, gives_up e)
owner_step in_flight s e = inr (complete s, completes e)
owner_step completing s e = inr (send_again s, sends_again e)
owner_step filling s e = elim (zero_or_positive (length s.queue)) [
  | inl z ↦ inr (send_box s, sends e (inr z))
  | inr h ↦ elim (Bool-cases (ltb (length s.box) box_max)) [
    | inl room ↦ inr (fill s, fills e (ground arith) h)
    | inr full ↦ inr (send_box s, sends e (inl (ground arith)))
  ]
]

all_sent :
    (s : Sender)
    → Inv s
    → s.owner ≡ nobody
    → s.enqueued + s.posted + s.tested + s.retesting ≡ 0
    → s.sent ≡ s.queued
all_sent s i o z = elim (zero_or_positive (length s.queue)) [
  | inr h ↦ absurd (let w = i.someone h in omega (arith, ap owns o, w))
  | inl e ↦
      sym (append-nil s.sent)
      ∙ ap (s.sent ++◌) (sym (ap₂ ◌++◌ (i.boxed (ap fills_box o)) (no_elements s.queue e)))
      ∙ i.in_order
]

all_sent_or_step : (s : Sender) → Inv s → (s.sent ≡ s.queued) ⊎ ((t : Sender) × Advance s t)
all_sent_or_step s i = elim (zero_or_positive s.enqueued) [
  | inr h ↦ inr (post s, posts h)
  | inl a ↦ elim (zero_or_positive s.posted) [
    | inr h ↦ inr (test_queue s, tests h)
    | inl b ↦ elim (zero_or_positive s.tested) [
      | inr h ↦ inr (take_flag s, takes_flag h)
      | inl c ↦ elim (zero_or_positive s.retesting) [
        | inr h ↦ inr (test_again s, tests_again h)
        | inl d ↦ elim (owner_step s.owner s refl) [
          | inr step ↦ inr step
          | inl o ↦ inl (all_sent s i o (omega arith))
        ]
      ]
    ]
  ]
]

-- From every such state, the threads make, without a new message, no more steps than the work that is
-- left; and after any of their steps either everything that was queued has been given to WSASend or
-- one of them has a step to make. So no message is left in the queue with nobody to send it.
pub Reach-Advances :
    {n : ℕ} {s t : Sender}
    → Reach s
    → Advances n s t
    → (n ≤ work s) × ((t.sent ≡ t.queued) ⊎ ((u : Sender) × Advance t u))
Reach-Advances r a =
    (omega (arith, Advances-work a), all_sent_or_step _ (Advances-Inv a (Reach-Inv r)))
