-- ===== src/Wire/Frames.antt =====
-- The bytes that are sent for a message, written out, and that the other side gets the message back.
use mo_session_server.Base.{
  List, [], ap, arith, length, refl, set, suc, true, ℕ, ◌%◌, ◌++◌, ◌/◌, ◌<◌, ◌∙◌, ◌∷◌, ◌≡◌, ==_self,
  append-nil, drop, get_or, sym, take, ◌*◌, ◌+◌, ◌==◌, zero, ◌≤◌, ap₂,
}
use mo_session_server.Wire.{
  checksum, decode, encode_from, lan_len, decode_from, encode, lan_server, net_server,
  set_buffer_header, wire_bytes, net_len, header_size,
}
use mo_session_server.Ring.{copy_in, copy_out}
use mo_session_server.Packet.{SBuffer, payload}
use mo_session_server.Wire.Cipher.{
  IsBytes, decode_from-encode_from, checksum-lt, length-encode_from,
}
use mo_session_server.Packet.Memory.{Inv, take-append, length-payload}

unfoldable pub lan_frame : List ℕ → List ℕ
lan_frame p = 137 ∷ lan_len (length p) ∷ p

unfoldable pub net_frame : ℕ → ℕ → ℕ → List ℕ → List ℕ
net_frame code fk rand p =
    code
    ∷ length p % 256
    ∷ length p / 256
    ∷ rand % 256
    ∷ encode_from fk (rand % 256) 0 0 0 (checksum p ∷ p)

copy_in-cons :
    (x : ℕ) (buf : List ℕ) (at : ℕ) (xs : List ℕ)
    → copy_in (x ∷ buf) (suc at) xs ≡ x ∷ copy_in buf at xs
copy_in-cons x buf at [] = refl
copy_in-cons x buf at (y ∷ ys) = copy_in-cons x (set buf at y) (suc at) ys

-- A copy over the first bytes
copy_in-over :
    (new old rest : List ℕ) → length new ≡ length old → copy_in (old ++ rest) 0 new ≡ new ++ rest
copy_in-over [] [] rest h = refl
copy_in-over [] (y ∷ ys) rest h = absurd (omega arith)
copy_in-over (x ∷ xs) [] rest h = absurd (omega arith)
copy_in-over (x ∷ xs) (y ∷ ys) rest h =
    copy_in-cons x (ys ++ rest) 0 xs ∙ ap (x ∷◌) (copy_in-over xs ys rest (omega arith))

take_all : (n : ℕ) (xs : List ℕ) → length xs ≡ n → take n xs ≡ xs
take_all n xs h = ap (take n) (sym (append-nil xs)) ∙ take-append n xs [] h

copy_in_four :
    (a b c d : ℕ) (old new : List ℕ)
    → length new ≡ length old
    → copy_in (a ∷ b ∷ c ∷ d ∷ old) 4 new ≡ a ∷ b ∷ c ∷ d ∷ new
copy_in_four a b c d old new h =
    copy_in-cons a (b ∷ c ∷ d ∷ old) 3 new
    ∙ ap (a ∷◌) (copy_in-cons b (c ∷ d ∷ old) 2 new)
    ∙ ap (λ l. a ∷ b ∷ l) (copy_in-cons c (d ∷ old) 1 new)
    ∙ ap (λ l. a ∷ b ∷ c ∷ l) (copy_in-cons d old 0 new)
    ∙ ap (λ l. a ∷ b ∷ c ∷ d ∷ l)
        (ap (λ l. copy_in l 0 new) (sym (append-nil old))
          ∙ copy_in-over new old [] h
          ∙ append-nil new)

-- The four bytes before the checksum stay as they are.
decode-header :
    (fk a b c d : ℕ) (es ds : List ℕ)
    → length es ≡ b + 256 * c + 1
    → length ds ≡ length es
    → decode_from fk d 0 0 0 es ≡ ds
    → decode fk (a ∷ b ∷ c ∷ d ∷ es)
      ≡ (get_or ds 0 0 == checksum (take (b + 256 * c) (drop 1 ds)), a ∷ b ∷ c ∷ d ∷ ds)
unfolding decode
decode-header fk a b c d es ds h k e =
    ap (λ out. (get_or out 4 0 == checksum (copy_out out 5 (b + 256 * c)), out))
      (ap (λ l. copy_in (a ∷ b ∷ c ∷ d ∷ es) 4 (decode_from fk d 0 0 0 l))
          (take_all (b + 256 * c + 1) es h)
        ∙ ap (λ l. copy_in (a ∷ b ∷ c ∷ d ∷ es) 4 l) e
        ∙ copy_in_four a b c d es ds k)

-- Decode on a frame that was made with the same fixed key finds the checksum right and brings back
-- the message, whatever the random key.
pub decode-net_frame :
    (code fk rand : ℕ) (p : List ℕ)
    → IsBytes p
    → length p < 65536
    → decode fk (net_frame code fk rand p)
      ≡ (true, code ∷ length p % 256 ∷ length p / 256 ∷ rand % 256 ∷ checksum p ∷ p)
unfolding net_frame
decode-net_frame code fk rand p h n =
    let ds = checksum p ∷ p in
    let es = encode_from fk (rand % 256) 0 0 0 ds in
    let k : length es ≡ suc (length p) = length-encode_from fk (rand % 256) 0 0 0 ds in
    decode-header fk code (length p % 256) (length p / 256) (rand % 256) es ds (omega arith) (sym k)
      (decode_from-encode_from fk (rand % 256) 0 0 0 ds (checksum-lt p, h))
    ∙ ap (λ t. (t, code ∷ length p % 256 ∷ length p / 256 ∷ rand % 256 ∷ ds))
        (ap (λ l. checksum p == checksum l)
            (take_all (length p % 256 + 256 * (length p / 256)) p (omega arith))
          ∙ ==_self (checksum p))

front_five :
    (buf : List ℕ)
    → 5 ≤ length buf
    → (x y z u v : ℕ) × (tail : List ℕ) × (buf ≡ x ∷ y ∷ z ∷ u ∷ v ∷ tail)
front_five [] h = absurd (omega arith)
front_five (x ∷ []) h = absurd (omega arith)
front_five (x ∷ y ∷ []) h = absurd (omega arith)
front_five (x ∷ y ∷ z ∷ []) h = absurd (omega arith)
front_five (x ∷ y ∷ z ∷ u ∷ []) h = absurd (omega arith)
front_five (x ∷ y ∷ z ∷ u ∷ v ∷ tail) h = (x, y, z, u, v, tail, refl)

take-drop : (n : ℕ) (xs : List ℕ) → take n xs ++ drop n xs ≡ xs
take-drop zero xs = refl
take-drop (suc n) [] = refl
take-drop (suc n) (x ∷ xs) = ap (x ∷◌) (take-drop n xs)

-- The memory of a buffer that `Clear` prepared, as the five bytes of the header and the data
memory_split :
    (b : SBuffer)
    → Inv b
    → b.read ≡ 5
    → (x y z u v : ℕ) × (rest : List ℕ) × (b.buffer ≡ x ∷ y ∷ z ∷ u ∷ v ∷ (payload b ++ rest))
memory_split b i r =
    let (x, y, z, u, v, tail, e) =
      front_five b.buffer (omega (arith, i.holds, i.ends, i.inside, r)) in
    let data_at : payload b ≡ take b.data_size tail =
      ap (λ k. take b.data_size (drop k b.buffer)) r ∙ ap (λ l. take b.data_size (drop 5 l)) e in
    (
      x,
      y,
      z,
      u,
      v,
      drop b.data_size tail,
      e
          ∙ ap (λ l. x ∷ y ∷ z ∷ u ∷ v ∷ l)
              (sym (take-drop b.data_size tail) ∙ ap (◌++ drop b.data_size tail) (sym data_at)),
    )

lan_sent :
    (x y z u v k n : ℕ) (p rest : List ℕ)
    → length p ≡ n
    → copy_out (copy_in (x ∷ y ∷ z ∷ u ∷ v ∷ (p ++ rest)) 3 (137 ∷ k ∷ [])) 3 (n + 2) ≡ 137 ∷ k ∷ p
lan_sent x y z u v k n p rest h =
    ap (λ m. take m (137 ∷ k ∷ (p ++ rest))) {x = n + 2} {y = suc (suc n)} (omega arith)
    ∙ ap (λ l. 137 ∷ k ∷ l) (take-append n p rest h)

-- What a LAN server sends for a packet is the code, the length less one as a byte, and the data.
pub wire_bytes-lan_frame :
    (code fk rand : ℕ) (b : SBuffer)
    → Inv b
    → b.read ≡ 5
    → wire_bytes lan_server code fk rand b ≡ lan_frame (payload b)
unfolding wire_bytes set_buffer_header lan_frame
wire_bytes-lan_frame code fk rand b i r =
    let (x, y, z, u, v, rest, e) = memory_split b i r in
    let k = lan_len b.data_size in
    let n : length (payload b) ≡ b.data_size = length-payload b i in
    ap (λ l. copy_out (copy_in l 3 (137 ∷ k ∷ [])) 3 (b.data_size + 2)) e
    ∙ lan_sent x y z u v k b.data_size (payload b) rest n
    ∙ ap (λ m. 137 ∷ lan_len m ∷ payload b) (sym n)

net_sent :
    (fk a lo hi rk n : ℕ) (p rest : List ℕ)
    → length p ≡ n
    → lo + 256 * hi ≡ n
    → copy_out (encode fk (a ∷ lo ∷ hi ∷ rk ∷ checksum p ∷ (p ++ rest))) 0 (n + 5)
      ≡ a ∷ lo ∷ hi ∷ rk ∷ encode_from fk rk 0 0 0 (checksum p ∷ p)
unfolding encode
net_sent fk a lo hi rk n p rest h e =
    let ds = checksum p ∷ p in
    let es = encode_from fk rk 0 0 0 ds in
    let k : length es ≡ length ds = length-encode_from fk rk 0 0 0 ds in
    let read_back : take (lo + 256 * hi + 1) (checksum p ∷ (p ++ rest)) ≡ ds =
      take-append (lo + 256 * hi + 1) ds rest (omega arith) in
    ap
      (λ l.
        take (n + 5)
          (copy_in (a ∷ lo ∷ hi ∷ rk ∷ checksum p ∷ (p ++ rest)) 4 (encode_from fk rk 0 0 0 l)))
      read_back
    ∙ ap (take (n + 5)) (
        copy_in-cons a (lo ∷ hi ∷ rk ∷ checksum p ∷ (p ++ rest)) 3 es
        ∙ ap (a ∷◌) (copy_in-cons lo (hi ∷ rk ∷ checksum p ∷ (p ++ rest)) 2 es)
        ∙ ap (λ l. a ∷ lo ∷ l) (copy_in-cons hi (rk ∷ checksum p ∷ (p ++ rest)) 1 es)
        ∙ ap (λ l. a ∷ lo ∷ hi ∷ l) (copy_in-cons rk (checksum p ∷ (p ++ rest)) 0 es)
        ∙ ap (λ l. a ∷ lo ∷ hi ∷ rk ∷ l) (copy_in-over es ds rest k))
    ∙ take-append (n + 5) (a ∷ lo ∷ hi ∷ rk ∷ es) rest (omega arith)

net_header :
    (x y z u v a lo hi rk cs : ℕ) (tail : List ℕ)
    → copy_in (x ∷ y ∷ z ∷ u ∷ v ∷ tail) 0 (a ∷ lo ∷ hi ∷ rk ∷ cs ∷ [])
      ≡ a ∷ lo ∷ hi ∷ rk ∷ cs ∷ tail
net_header x y z u v a lo hi rk cs tail = refl

-- What a NET server sends is the code, the length and the random key, and then the checksum and the
-- data as Encode writes them.
pub wire_bytes-net_frame :
    (code fk rand : ℕ) (b : SBuffer)
    → Inv b
    → b.read ≡ 5
    → b.data_size < 65536
    → wire_bytes net_server code fk rand b ≡ net_frame code fk rand (payload b)
unfolding wire_bytes set_buffer_header net_frame
wire_bytes-net_frame code fk rand b i r small =
    let (x, y, z, u, v, rest, e) = memory_split b i r in
    let p = payload b in
    let n : length p ≡ b.data_size = length-payload b i in
    let m : net_len b.data_size ≡ b.data_size = omega arith in
    let sum : copy_out b.buffer 5 (net_len b.data_size) ≡ p =
      ap₂ (λ q l. copy_out b.buffer q l) (sym r) m in
    let lo = length p % 256 in
    let hi = length p / 256 in
    ap₂
      (λ l cs.
        copy_out (encode fk (copy_in b.buffer 0 (code ∷ l % 256 ∷ l / 256 ∷ rand % 256 ∷ cs ∷ [])))
          0 (b.data_size + 5))
      (m ∙ sym n) (ap checksum sum)
    ∙ ap
        (λ l.
          copy_out (encode fk (copy_in l 0 (code ∷ lo ∷ hi ∷ rand % 256 ∷ checksum p ∷ []))) 0
            (b.data_size + 5))
        e
    ∙ net_sent fk code lo hi (rand % 256) b.data_size p rest n (omega arith)

-- A message that is sent by a NET server is what Decode, with the same fixed key, brings back after
-- the header at the other side, whatever the code, the random key and the rest of the memory are.
pub decode-wire_bytes :
    (code fk rand : ℕ) (b : SBuffer)
    → Inv b
    → b.read ≡ 5
    → b.data_size < 65536
    → IsBytes (payload b)
    → ((decode fk (wire_bytes net_server code fk rand b)).0 ≡ true)
      × (drop (header_size net_server) (decode fk (wire_bytes net_server code fk rand b)).1
          ≡ payload b)
decode-wire_bytes code fk rand b i r small h =
    let e =
      ap (decode fk) (wire_bytes-net_frame code fk rand b i r small)
      ∙ decode-net_frame code fk rand (payload b) h (omega (arith, length-payload b i)) in
    (ap (λ q. q.0) e, ap (λ q. drop 5 q.1) e)
