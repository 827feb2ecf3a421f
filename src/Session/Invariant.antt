-- ===== src/Session/Invariant.antt =====
-- What holds in every state that a slot comes to.
use mo_session_server.Base.{arith, ℕ, ◌*◌, ◌+◌, ◌<◌, ◌≡◌, ◌≤◌, ap}
use mo_session_server.Session.{
  Accepting, System, close, counted, elsewhere, enter, first_accepted, flag, leave, lower, opened,
  popped, raise, release, release_flag, retire, try_release, Drain, Reach, Step, begin,
  clear_release_flag, closes, count, counts, drains, enters, flags, later, leaves, open_slot, opens,
  pop, pops, releases, retires, start, starts,
}

abbrev pub holds_count : Accepting → ℕ
holds_count elsewhere = 0
holds_count popped = 0
holds_count counted = 1
holds_count opened = 1

-- Whether the release flag is still set, and whether the slot is AcceptThread's
abbrev pub flagged : Accepting → ℕ
flagged elsewhere = 0
flagged popped = 1
flagged counted = 1
flagged opened = 0

abbrev pub busy : Accepting → ℕ
busy elsewhere = 0
busy popped = 1
busy counted = 1
busy opened = 1

pub record Inv (s : System) : Type 0 where
  pub counted_all :
      s.session.io_count
      ≡ s.users
        + holds_count s.accepting
        + release_flag * (s.releasing + s.in_pool + flagged s.accepting)
  pub room : s.users + 1 < release_flag
  pub alone : s.releasing + s.in_pool + busy s.accepting ≤ 1
  pub coming :
      s.users + holds_count s.accepting + s.releasing + s.in_pool + flagged s.accepting ≡ 0
      → 0 < s.closing + s.posted
  pub ledger : s.accepted + s.in_pool + busy s.accepting ≡ s.released + 1

Inv-first : Inv first_accepted
Inv-first = record {
  counted_all = omega arith;
  room = omega arith;
  alone = omega arith;
  coming = λ e. absurd (omega arith);
  ledger = omega arith;
}

pub accepting_facts :
    (a : Accepting)
    → (flagged a ≤ busy a)
      × (holds_count a ≤ busy a)
      × (busy a ≤ flagged a + holds_count a)
      × (busy a ≤ 1)
accepting_facts elsewhere = omega arith
accepting_facts popped = omega arith
accepting_facts counted = omega arith
accepting_facts opened = omega arith

pub Inv-enter : (s : System) → s.users + 2 < release_flag → Inv s → Inv (enter s)
unfolding enter raise
Inv-enter s h i =
    let f = accepting_facts s.accepting in
    record {
      counted_all = omega (arith, i.counted_all, i.alone, f);
      room = omega arith;
      alone = i.alone;
      coming = λ e. absurd (omega arith);
      ledger = i.ledger;
    }

pub Inv-flag : (s : System) → Inv s → Inv (flag s)
unfolding flag
Inv-flag s i = record {
  counted_all = i.counted_all;
  room = i.room;
  alone = i.alone;
  coming = i.coming;
  ledger = i.ledger;
}

pub Inv-leave : (s : System) → 0 < s.users → Inv s → Inv (leave s)
unfolding leave lower
Inv-leave s h i =
    let f = accepting_facts s.accepting in
    record {
      counted_all = omega (arith, i.counted_all, i.alone, f, i.room);
      room = omega (arith, i.room);
      alone = i.alone;
      coming = λ e. ground (arith, i.counted_all, i.alone, f, i.room, e);
      ledger = i.ledger;
    }

pub Inv-close : (s : System) → 0 < s.closing → Inv s → Inv (close s)
unfolding close
Inv-close s h i = record {
  counted_all = i.counted_all;
  room = i.room;
  alone = i.alone;
  coming = λ e. omega (arith, i.coming e);
  ledger = i.ledger;
}

pub Inv-release : (s : System) → 0 < s.posted → Inv s → Inv (release s)
unfolding release try_release
Inv-release s h i =
    let f = accepting_facts s.accepting in
    record {
      counted_all = ground (arith, i.counted_all, i.alone, f, i.room);
      room = i.room;
      alone = ground (arith, i.counted_all, i.alone, f, i.room);
      coming = λ e. ground (arith, i.counted_all, i.alone, f, i.room, e);
      ledger = i.ledger;
    }

pub Inv-retire : (s : System) → 0 < s.releasing → Inv s → Inv (retire s)
unfolding retire
Inv-retire s h i = record {
  counted_all = omega (arith, i.counted_all);
  room = i.room;
  alone = omega (arith, i.alone);
  coming = λ e. absurd (omega arith);
  ledger = omega (arith, i.ledger);
}

pub phase :
    {a b : Accepting}
    → a ≡ b
    → (flagged a ≡ flagged b) × (holds_count a ≡ holds_count b) × (busy a ≡ busy b)
phase e = (ap flagged e, ap holds_count e, ap busy e)

pub Inv-pop : (s : System) → 0 < s.in_pool → s.accepting ≡ elsewhere → Inv s → Inv (pop s)
unfolding pop
Inv-pop s h e i =
    let p = phase e in
    record {
      counted_all = omega (arith, i.counted_all, p);
      room = i.room;
      alone = omega (arith, i.alone, p);
      coming = λ e. absurd (omega arith);
      ledger = omega (arith, i.ledger, p);
    }

pub Inv-count : (s : System) → s.accepting ≡ popped → Inv s → Inv (count s)
unfolding count raise
Inv-count s e i =
    let p = phase e in
    record {
      counted_all = omega (arith, i.counted_all, i.alone, i.room, p);
      room = i.room;
      alone = omega (arith, i.alone, p);
      coming = λ e. absurd (omega arith);
      ledger = omega (arith, i.ledger, p);
    }

pub Inv-open : (s : System) → s.accepting ≡ counted → Inv s → Inv (open_slot s)
unfolding open_slot clear_release_flag
Inv-open s e i =
    let p = phase e in
    record {
      counted_all = omega (arith, i.counted_all, i.alone, i.room, p);
      room = i.room;
      alone = omega (arith, i.alone, p);
      coming = λ e. absurd (omega arith);
      ledger = omega (arith, i.ledger, p);
    }

pub Inv-start :
    (s : System) → s.accepting ≡ opened → s.users + 2 < release_flag → Inv s → Inv (start s)
unfolding start
Inv-start s e h i =
    let p = phase e in
    record {
      counted_all = omega (arith, i.counted_all, p);
      room = omega arith;
      alone = omega (arith, i.alone, p);
      coming = λ e. absurd (omega arith);
      ledger = omega (arith, i.ledger, p);
    }

pub Drain-Inv : {s t : System} → Drain s t → Inv s → Inv t
Drain-Inv {s} (leaves h) i = Inv-leave s h i
Drain-Inv {s} (closes h) i = Inv-close s h i
Drain-Inv {s} (releases h) i = Inv-release s h i
Drain-Inv {s} (retires h) i = Inv-retire s h i

pub Step-Inv : {s t : System} → Step s t → Inv s → Inv t
Step-Inv {s} (enters h) i = Inv-enter s h i
Step-Inv {s} (flags h) i = Inv-flag s i
Step-Inv (drains d) i = Drain-Inv d i
Step-Inv {s} (pops h e) i = Inv-pop s h e i
Step-Inv {s} (counts e) i = Inv-count s e i
Step-Inv {s} (opens e) i = Inv-open s e i
Step-Inv {s} (starts e h) i = Inv-start s e h i

pub Reach-Inv : {s : System} → Reach s → Inv s
Reach-Inv begin = Inv-first
Reach-Inv (later r st) = Step-Inv st (Reach-Inv r)

-- In every state that a slot comes to, at most one of these has it: one thread inside Release, the
-- pool of indices, once, or AcceptThread; and the sessions that were accepted on it are as many as were
-- released, or one more. No session is released twice, and no index is given out twice.
pub Reach-alone :
    {s : System}
    → Reach s
    → (s.releasing + s.in_pool + busy s.accepting ≤ 1)
      × (s.released ≤ s.accepted)
      × (s.accepted ≤ s.released + 1)
Reach-alone {s} r =
    let i = Reach-Inv r in (i.alone, omega (arith, i.ledger, i.alone), omega (arith, i.ledger))
