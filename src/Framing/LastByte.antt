-- ===== src/Framing/LastByte.antt =====
-- The byte that `_len` of a LAN server leaves out.
use mo_session_server.Base.{
  List, [], ap, append_assoc, ap₂, arith, drop, length, length-append, refl, suc, take, ℕ, ◌++◌,
  ◌+◌, ◌<◌, ◌∙◌, ◌∷◌, ◌≡◌,
}
use mo_session_server.Framing.{deliver, free, judge, moving, open_frame}
use mo_session_server.Packet.Memory.{take-append, drop-append}
use mo_session_server.Wire.{lan_server, lan_len}
use mo_session_server.Wire.Frames.{lan_frame}
use mo_session_server.Framing.Refinement.{divide}
use mo_session_server.Framing.Chunks.{prefixed, prefixed_none}
use mo_session_server.Framing.Streams.{divide-whole}

-- A LAN server that takes a message of two to 256 bytes from a session outside a contents cuts it
-- short: the message's last byte stays and is read as the first byte of the next header. While the
-- session moves, nothing is given to ProcMessage; before, the message without this byte is.
divide-lan_last_byte :
    (code key b : ℕ) (x w : List ℕ)
    → length x < 256
    → (divide lan_server moving code key (lan_frame (x ++ (b ∷ [])) ++ w)
        ≡ divide lan_server moving code key (b ∷ w))
      × (divide lan_server free code key (lan_frame (x ++ (b ∷ [])) ++ w)
          ≡ prefixed (deliver x ∷ []) (divide lan_server free code key (b ∷ w)))
unfolding lan_frame judge open_frame
divide-lan_last_byte code key b x w h =
    let l = length x in
    let f = 137 ∷ l ∷ x in
    let n : length (x ++ (b ∷ w)) ≡ l + suc (length w) = length-append x (b ∷ w) in
    let size : lan_len (length (x ++ (b ∷ []))) ≡ l = omega (arith, length-append x (b ∷ [])) in
    let same : lan_frame (x ++ (b ∷ [])) ++ w ≡ f ++ (b ∷ w) =
      ap₂ (λ k r. 137 ∷ k ∷ r) size (append_assoc x (b ∷ []) w) in
    let cut : take (l + 2) (f ++ (b ∷ w)) ≡ f = take-append (l + 2) f (b ∷ w) (omega arith) in
    let left : drop (l + 2) (f ++ (b ∷ w)) ≡ b ∷ w = drop-append (l + 2) f (b ∷ w) (omega arith) in
    (
      ap (divide lan_server moving code key) same
          ∙ divide-whole lan_server moving code key (l + 2) (f ++ (b ∷ w)) (b ∷ w) []
              (ground (arith, n)) (ground (arith, n)) (omega arith) (omega (arith, n)) refl left
          ∙ prefixed_none (divide lan_server moving code key (b ∷ w)),
      ap (divide lan_server free code key) same
          ∙ divide-whole lan_server free code key (l + 2) (f ++ (b ∷ w)) (b ∷ w) (deliver x ∷ [])
              (ground (arith, n)) (ground (arith, n)) (omega arith) (omega (arith, n))
              (ap (open_frame lan_server free key) cut ∙ ground arith) left,
    )
