-- ===== src/Framing/Headers.antt =====
-- What a header's verdict depends on.
use mo_session_server.Wire.{ServerType, lan_server, net_server, header_size}
use mo_session_server.Base.{List, arith, inl, inr, refl, ℕ, ◌+◌, ◌≡◌, ◌≤◌, ◌⊎◌}
use mo_session_server.Framing.{
  Event, Place, Verdict, contents, free, gone, incomplete, judge, moving, refused, whole,
}

-- A message has its header at least, and its bytes are all there.
pub judge-whole :
    (t : ServerType) (p : Place) (code used : ℕ) (h : List ℕ) (k : ℕ)
    → judge t p code used h ≡ whole k
    → (header_size t ≤ k) × (k ≤ used)
unfolding judge
judge-whole lan_server free code used h k e = ground arith
judge-whole lan_server contents code used h k e = ground arith
judge-whole lan_server moving code used h k e = ground arith
judge-whole lan_server gone code used h k e = ground arith
judge-whole net_server free code used h k e = ground arith
judge-whole net_server contents code used h k e = ground arith
judge-whole net_server moving code used h k e = ground arith
judge-whole net_server gone code used h k e = ground arith

-- More bytes after the message do not change it.
pub judge-more :
    (t : ServerType) (p : Place) (code used more : ℕ) (h : List ℕ) (k : ℕ)
    → judge t p code used h ≡ whole k
    → judge t p code (used + more) h ≡ whole k
unfolding judge
judge-more lan_server free code used more h k e = ground arith
judge-more lan_server contents code used more h k e = ground arith
judge-more lan_server moving code used more h k e = ground arith
judge-more lan_server gone code used more h k e = ground arith
judge-more net_server free code used more h k e = ground arith
judge-more net_server contents code used more h k e = ground arith
judge-more net_server moving code used more h k e = ground arith
judge-more net_server gone code used more h k e = ground arith

pub judge-refused :
    (t : ServerType) (p : Place) (code used more : ℕ) (h : List ℕ) (es : List Event)
    → judge t p code used h ≡ refused es
    → judge t p code (used + more) h ≡ refused es
unfolding judge
judge-refused lan_server free code used more h es e = ground arith
judge-refused lan_server contents code used more h es e = ground arith
judge-refused lan_server moving code used more h es e = ground arith
judge-refused lan_server gone code used more h es e = ground arith
judge-refused net_server free code used more h es e = ground arith
judge-refused net_server contents code used more h es e = ground arith
judge-refused net_server moving code used more h es e = ground arith
judge-refused net_server gone code used more h es e = ground arith

pub Verdict-cases :
    (v : Verdict)
    → (v ≡ incomplete) ⊎ ((es : List Event) × (v ≡ refused es)) ⊎ ((k : ℕ) × (v ≡ whole k))
Verdict-cases incomplete = inl refl
Verdict-cases (refused es) = inr (inl (es, refl))
Verdict-cases (whole k) = inr (inr (k, refl))
