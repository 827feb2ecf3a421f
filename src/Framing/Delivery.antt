-- ===== src/Framing/Delivery.antt =====
-- From the messages that one side sends to the calls at the other side, over receives that cut the
-- stream anywhere.
use mo_session_server.Base.{
  List, [], ap, arith, length, length-append, ℕ, ◌++◌, ◌+◌, ◌<◌, ◌∙◌, ◌∷◌, ◌≡◌, ◌≤◌, All, map, sym,
  true,
}
use mo_session_server.Framing.{contents, deliver, judge, open_frame, Event, Place}
use mo_session_server.Ring.{Ring}
use mo_session_server.Ring.Fifo.{Inv}
use mo_session_server.Ring.View.{view}
use mo_session_server.Packet.{buffer_default}
use mo_session_server.Packet.Memory.{take-append, drop-append}
use mo_session_server.Wire.{ServerType, lan_server, net_server, lan_len}
use mo_session_server.Wire.Cipher.{IsBytes}
use mo_session_server.Wire.Frames.{lan_frame, net_frame}
use mo_session_server.Framing.Refinement.{Division, divide, Agrees, parse-short}
use mo_session_server.Framing.Chunks.{prefixed}
use mo_session_server.Framing.Streams.{flatten, receives, Fits, receives-divide, divide-whole}

-- The messages that a LAN server can send: one byte to 256
abbrev pub IsLanMessage : List ℕ → Type 0
IsLanMessage x = (0 < length x) × (length x ≤ 256)

-- A LAN server's message at the front of a stream, for a session in a contents
divide-lan_frame :
    (code key : ℕ) (x w : List ℕ)
    → IsLanMessage x
    → divide lan_server contents code key (lan_frame x ++ w)
      ≡ prefixed (deliver x ∷ []) (divide lan_server contents code key w)
unfolding lan_frame judge open_frame
divide-lan_frame code key x w (lo, hi) =
    let f = 137 ∷ lan_len (length x) ∷ x in
    let n : length (x ++ w) ≡ length x + length w = length-append x w in
    let k = length x + 2 in
    divide-whole lan_server contents code key k (f ++ w) w (deliver x ∷ []) (ground (arith, n))
      (ground (arith, n)) (omega arith) (omega (arith, n))
      (ap (open_frame lan_server contents key) (take-append k f w (omega arith)) ∙ ground arith)
      (drop-append k f w (omega arith))

abbrev pub delivered : List (List ℕ) → List Event
delivered xs = map deliver xs

abbrev pub net_frames : ℕ → ℕ → List (ℕ × List ℕ) → List (List ℕ)
net_frames code key ms = map (λ m. net_frame code key m.0 m.1) ms

prefix_one :
    (x : List ℕ) (xs : List (List ℕ)) (d e : Division)
    → d ≡ prefixed (deliver x ∷ []) e
    → e ≡ record { left = []; calls = delivered xs; waiting = true }
    → d ≡ record { left = []; calls = delivered (x ∷ xs); waiting = true }
unfolding prefixed
prefix_one x xs d e f g = f ∙ ap (prefixed (deliver x ∷ [])) g

divide-nothing :
    (t : ServerType) (p : Place) (code key : ℕ)
    → divide t p code key [] ≡ record { left = []; calls = []; waiting = true }
unfolding divide
divide-nothing lan_server p code key = parse-short 1 lan_server p code key [] (omega arith)
divide-nothing net_server p code key = parse-short 1 net_server p code key [] (omega arith)

divide-lan_frames :
    (code key : ℕ) (xs : List (List ℕ))
    → All IsLanMessage xs
    → divide lan_server contents code key (flatten (map lan_frame xs))
      ≡ record { left = []; calls = delivered xs; waiting = true }
divide-lan_frames code key [] h = divide-nothing lan_server contents code key
divide-lan_frames code key (x ∷ xs) (h, hs) =
    prefix_one x xs (divide lan_server contents code key (flatten (map lan_frame (x ∷ xs))))
      (divide lan_server contents code key (flatten (map lan_frame xs)))
      (divide-lan_frame code key x (flatten (map lan_frame xs)) h)
      (divide-lan_frames code key xs hs)

-- The bytes of a message that a NET server can take
abbrev pub IsNetMessage : ℕ × List ℕ → Type 0
IsNetMessage m = IsBytes m.1 × (length m.1 + 5 < buffer_default)

receives_whole :
    (t : ServerType) (p : Place) (code key : ℕ) (xs chunks : List (List ℕ)) (stream : List ℕ)
    (q : Ring ℕ)
    → divide t p code key stream ≡ record { left = []; calls = delivered xs; waiting = true }
    → Inv q
    → view q ≡ []
    → Fits t p code key chunks q
    → flatten chunks ≡ stream
    → ((receives t p code key chunks q).1 ≡ delivered xs)
      × (view (receives t p code key chunks q).0 ≡ [])
unfolding Agrees
receives_whole t p code key xs chunks stream q e i empty fits s =
    let together : view q ++ flatten chunks ≡ stream = ap (◌++ flatten chunks) empty ∙ s in
    let quiet : divide t p code key (view q)
        ≡ record { left = view q; calls = []; waiting = true } =
      ap (divide t p code key) empty
      ∙ divide-nothing t p code key
      ∙ ap (λ l. record { left = l; calls = []; waiting = true }) (sym empty) in
    let same : divide t p code key (view q ++ flatten chunks)
        ≡ record { left = []; calls = delivered xs; waiting = true } =
      ap (divide t p code key) together ∙ e in
    let (j, f, g) = receives-divide t p code key chunks q i fits quiet (ap (λ d. d.waiting) same) in
    (g ∙ ap (λ d. d.calls) same, f ∙ ap (λ d. d.left) same)

-- Messages of one to 256 bytes, sent by a LAN server one after the other to a session that is in a
-- contents, are given to ProcMessage whole, each once and in their order, however the network cuts
-- the stream, as long as each receive fits into the ring's free space; nothing is left in the ring.
pub receives-lan_frames :
    (code key : ℕ) (xs chunks : List (List ℕ)) (q : Ring ℕ)
    → All IsLanMessage xs
    → Inv q
    → view q ≡ []
    → Fits lan_server contents code key chunks q
    → flatten chunks ≡ flatten (map lan_frame xs)
    → ((receives lan_server contents code key chunks q).1 ≡ delivered xs)
      × (view (receives lan_server contents code key chunks q).0 ≡ [])
receives-lan_frames code key xs chunks q h i empty fits s =
    receives_whole lan_server contents code key xs chunks (flatten (map lan_frame xs)) q
      (divide-lan_frames code key xs h) i empty fits s
