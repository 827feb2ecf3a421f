-- ===== src/Hosting/Calls.antt =====
-- What WorkerThread does with the count of a session.
use mo_session_server.Hosting.{
  Call, Completion, Handlers, Hosted, Round, Overlapped, asks, completed, give_back, goes_on, null,
  receive, returns, send, session_post, session_work, worker,
}
use mo_session_server.Base.{
  List, [], ◌∷◌, Bool, arith, false, if◌then◌else◌, refl, true, ℕ, ◌<◌, ◌≡◌, ◌⊎◌,
}

-- The sessions whose count a round gives back
abbrev given : List Call → List ℕ
given [] = []
given (give_back k ∷ cs) = k ∷ given cs
given (_ ∷ cs) = given cs

abbrev pub gives_back : {A E : Type 0} → Round A E → List ℕ
gives_back returns = []
gives_back (goes_on calls m es) = given calls

abbrev pub is_io : Overlapped → Bool
is_io receive = true
is_io send = true
is_io _ = false

-- What the library posts without an overlapped structure: the end of a worker thread, a release and a
-- send of a session, whose address is not null
abbrev IsPosted : Overlapped → Bool → ℕ → ℕ → Type 0
IsPosted null b x y = (b ≡ true) × (((x ≡ 0) × (y ≡ 0)) ⊎ ((0 < x) × (x < 3) × (0 < y)))
IsPosted _ b x y = Unit

abbrev pub IsKnown : Completion → Type 0
IsKnown c = IsPosted c.overlapped c.succeeded c.transferred c.key

module _ {A E : Type 0} (handlers : Handlers A E) where
  parts-give_back :
      (b : Bool) (x y : ℕ) (o : Overlapped) (m : List (ℕ × Hosted A))
      → IsPosted o b x y
      → let c : Completion = record { succeeded = b; transferred = x; key = y; overlapped = o } in
        gives_back (worker handlers c m) ≡ (if is_io o then y ∷ [] else [])
  unfolding worker session_post session_work completed
  parts-give_back b x y null m h = ground (arith, h)
  parts-give_back b x y receive m h = ground arith
  parts-give_back b x y send m h = ground arith
  parts-give_back b x y (asks a) m h = refl

-- Whatever a receive or a send of a session comes to, with success or not, the round that takes its
-- completion gives the count of that session back exactly once and no other count; a round that takes a
-- request to a contents, a posted release, a posted send or the end of the thread gives none back.
pub worker-give_back :
    {A E : Type 0} (handlers : Handlers A E) (c : Completion) (m : List (ℕ × Hosted A))
    → IsKnown c
    → gives_back (worker handlers c m) ≡ (if is_io c.overlapped then c.key ∷ [] else [])
worker-give_back handlers c m h =
    parts-give_back handlers c.succeeded c.transferred c.key c.overlapped m h
