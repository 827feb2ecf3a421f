-- ===== src/Parser/Scanning.antt =====
-- The scans of the parser over the parts of a text.
use mo_session_server.Parser.{
  Bytes, at, find_alpha, find_word, is_it, is_word_end, same_bytes, scan_to, block_from,
  close_block, is_line_end, open_block, block_end,
}
use mo_session_server.Base.{
  All, length-append, ==_self, Bool, [], ap, arith, false, length, refl, some, take, true, ℕ, ◌++◌,
  ◌-◌, ◌<◌, ◌==◌, ◌∷◌, ◌≡◌, ◌||◌,
}

pub scan_to-append :
    (stop : ℕ → Bool) (xs r : Bytes) (c : ℕ)
    → All (λ b. stop b ≡ false) xs
    → stop c ≡ true
    → scan_to stop (xs ++ (c ∷ r)) ≡ some (c ∷ r)
unfolding scan_to
scan_to-append stop [] r c a h = rw h refl
scan_to-append stop (x ∷ xs) r c a h = rw a.0 (scan_to-append stop xs r c a.1 h)

-- The byte is found behind others when the end comes later.
pub find_alpha-append :
    (stop alpha : ℕ) (xs r : Bytes)
    → All (λ b. (b == alpha) ≡ false) xs
    → stop < length (alpha ∷ r)
    → find_alpha stop alpha (xs ++ (alpha ∷ r)) ≡ at (alpha ∷ r)
unfolding find_alpha
find_alpha-append stop alpha [] r a h = ground arith
find_alpha-append stop alpha (x ∷ xs) r a h =
    ground (arith, find_alpha-append stop alpha xs r, length-append xs (alpha ∷ r))

pub take-append : (xs ys : Bytes) → take (length xs) (xs ++ ys) ≡ xs
take-append [] ys = refl
take-append (x ∷ xs) ys = ap (λ l. x ∷ l) (take-append xs ys)

same_bytes_self : (xs : Bytes) → same_bytes xs xs ≡ true
unfolding same_bytes
same_bytes_self [] = refl
same_bytes_self (x ∷ xs) = ground (arith, same_bytes_self xs)

-- A name before a byte that ends words is taken for itself.
find_word-append :
    (name r : Bytes) (c : ℕ)
    → All (λ b. is_word_end b ≡ false) name
    → is_word_end c ≡ true
    → find_word name (name ++ (c ∷ r)) ≡ some (is_it (c ∷ r))
unfolding find_word
find_word-append name r c a h =
    let s = scan_to-append is_word_end name r c a h in
    let n : length (name ++ (c ∷ r)) - length (c ∷ r) ≡ length name =
      omega (arith, length-append name (c ∷ r)) in
    rw (find_word, s, n, take-append name (c ∷ r), same_bytes_self name, ==_self (length name)) refl

abbrev pub is_blank : ℕ → Bool
is_blank c = c == 32 || is_line_end c

blank_ends_word : (c : ℕ) → is_blank c ≡ true → is_word_end c ≡ true
blank_ends_word c h = ground (arith, h)

-- A name before blanks and another byte that ends words
pub find_word-blanks :
    (name gap r : Bytes) (c : ℕ)
    → All (λ b. is_word_end b ≡ false) name
    → All (λ b. is_blank b ≡ true) gap
    → is_word_end c ≡ true
    → find_word name (name ++ (gap ++ (c ∷ r))) ≡ some (is_it (gap ++ (c ∷ r)))
find_word-blanks name [] r c a g h = find_word-append name r c a h
find_word-blanks name (b ∷ gap) r c a g h =
    find_word-append name (gap ++ (c ∷ r)) b a (blank_ends_word b g.0)

pub open_block-append :
    (gap r : Bytes)
    → All (λ b. is_blank b ≡ true) gap
    → open_block (gap ++ (123 ∷ r)) ≡ some (some (123 ∷ r))
unfolding open_block
open_block-append [] r a = refl
open_block-append (b ∷ gap) r a = ground (arith, open_block-append gap r a.1, a.0)

abbrev pub IsInner : ℕ → Type 0
IsInner b = ((b == 123) ≡ false) × ((b == 125) ≡ false)

pub close_block-append :
    (inner r : Bytes)
    → All IsInner inner
    → close_block (inner ++ (125 ∷ r)) ≡ some (some (length (125 ∷ r)))
unfolding close_block
close_block-append [] r a = refl
close_block-append (b ∷ inner) r a = rw (a.0.1, a.0.0) (close_block-append inner r a.1)

block_end-append :
    (inner r : Bytes)
    → All IsInner inner
    → block_end (123 ∷ (inner ++ (125 ∷ r)))
      ≡ some (some (123 ∷ (inner ++ (125 ∷ r)), length (125 ∷ r)))
unfolding block_end
block_end-append inner r a = rw (block_end, close_block-append inner r a) refl

pub block_from-append :
    (gap inner r : Bytes)
    → All (λ b. is_blank b ≡ true) gap
    → All IsInner inner
    → block_from (gap ++ (123 ∷ (inner ++ (125 ∷ r))))
      ≡ some (some (123 ∷ (inner ++ (125 ∷ r)), length (125 ∷ r)))
unfolding block_from
block_from-append gap inner r g a =
    rw (block_from, open_block-append gap (inner ++ (125 ∷ r)) g) (block_end-append inner r a)
