-- ===== src/Wire/Cipher.antt =====
-- Decode undoes Encode.
use mo_session_server.Base.Xor.{bit_xor-lt, bit_xor_twice}
use mo_session_server.Base.{
  All, List, [], ap, ap₂, arith, bit_xor, length, refl, suc, ℕ, ◌%◌, ◌+◌, ◌<◌, ◌∙◌, ◌∷◌, ◌≡◌,
}
use mo_session_server.Wire.{checksum, decode_from, encode_from}

abbrev pub IsBytes : List ℕ → Type 0
IsBytes = All (λ b. b < 256)

pub length-encode_from :
    (fk rk i p e : ℕ) (ds : List ℕ) → length (encode_from fk rk i p e ds) ≡ length ds
unfolding encode_from
length-encode_from fk rk i p e [] = refl
length-encode_from fk rk i p e (d ∷ ds) =
    let p2 = bit_xor d ((p + rk + i + 1) % 256) in
    ap suc (length-encode_from fk rk (suc i) p2 (bit_xor p2 ((e + fk + i + 1) % 256)) ds)

pub decode_from-encode_from :
    (fk rk i p e : ℕ) (ds : List ℕ)
    → IsBytes ds
    → decode_from fk rk i p e (encode_from fk rk i p e ds) ≡ ds
unfolding decode_from encode_from
decode_from-encode_from fk rk i p e [] h = refl
decode_from-encode_from fk rk i p e (d ∷ ds) (h, hs) =
    let k1 = (p + rk + i + 1) % 256 in
    let k2 = (e + fk + i + 1) % 256 in
    let p2 = bit_xor d k1 in
    let in_byte : p2 < 256 = bit_xor-lt 8 d k1 h (omega arith) in
    let first : bit_xor (bit_xor p2 k2) k2 ≡ p2 = bit_xor_twice 8 p2 k2 in_byte (omega arith) in
    ap₂ (λ q r. bit_xor q k1 ∷ r) first
      (ap
          (λ q.
            decode_from fk rk (suc i) q (bit_xor p2 k2)
              (encode_from fk rk (suc i) p2 (bit_xor p2 k2) ds))
          first
        ∙ decode_from-encode_from fk rk (suc i) p2 (bit_xor p2 k2) ds hs)
    ∙ ap (◌∷ ds) (bit_xor_twice 8 d k1 h (omega arith))

pub checksum-lt : (bs : List ℕ) → checksum bs < 256
unfolding checksum
checksum-lt [] = omega arith
checksum-lt (b ∷ bs) = omega arith
