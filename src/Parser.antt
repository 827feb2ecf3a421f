-- ===== src/Parser.antt =====
-- Parser of Common/Parser.cpp, which reads the configuration. A pointer into the text is what the text has
-- from there on, and an end pointer is how many bytes are left at it. A read behind the text is no
-- result. Texts are lists of bytes, and `name` and `block` are not empty.
pub mod Scanning
pub mod Values
pub mod Lookup
pub mod Entries
mod Examples
use mo_session_server.Base.{
  Bool, List, Option, [], ◌∷◌, true, false, none, some, not, ◌&&◌, ◌||◌, ℕ, zero, suc, ◌+◌, ◌-◌,
  ◌*◌, ◌==◌, if◌then◌else◌, leb, length, take, drop, ltb,
}
use mo_session_server.Base.Int.{ℤ, pos, negsuc, ◌-ℤ◌}

abbrev pub Bytes : Type 0
Bytes = List ℕ

-- `while (!stop(*cur)) cur++`
unfoldable pub scan_to : (ℕ → Bool) → Bytes → Option Bytes
scan_to stop [] = none
scan_to stop (c ∷ r) = if stop c then some (c ∷ r) else scan_to stop r

-- `0x0d` and `0x0a`
abbrev pub is_line_end : ℕ → Bool
is_line_end c = c == 13 || c == 10

abbrev pub is_word_end : ℕ → Bool
is_word_end c = c == 32 || c == 58 || is_line_end c || c == 123

abbrev pub is_value_end : ℕ → Bool
is_value_end c = c == 32 || is_line_end c

-- Whether FindAlpha finds the byte before the end, reaches the end, or has begun behind it and runs on
pub data Found : Type 0 where
  at : Bytes → Found
  nowhere : Found
  runs_out : Found

-- `FindAlpha`, with what is left at the end
unfoldable pub find_alpha : ℕ → ℕ → Bytes → Found
find_alpha stop alpha [] = if 0 == stop then nowhere else runs_out
find_alpha stop alpha (c ∷ r) =
    if length (c ∷ r) == stop
    then nowhere
    else if c == alpha
    then at (c ∷ r)
    else find_alpha stop alpha r

-- What FindWord says of the word at a pointer: it is the one, and the text behind it; it has another
-- length, and the pointer stays; it is another one, and the text from its last byte on
pub data Word : Type 0 where
  is_it : Bytes → Word
  other_length : Word
  is_other : Bytes → Word

-- `memcmp`
unfoldable pub same_bytes : Bytes → Bytes → Bool
same_bytes [] [] = true
same_bytes (a ∷ xs) (b ∷ ys) = a == b && same_bytes xs ys
same_bytes _ _ = false

-- `FindWord`
unfoldable pub find_word : Bytes → Bytes → Option Word
find_word tgt first = elim (scan_to is_word_end first) [
  | none ↦ none
  | some stop ↦
      let n = length first - length stop in
      some (
        if not (n == length tgt)
        then other_length
        else if same_bytes (take n first) tgt
        then is_it stop
        else is_other (drop (n - 1) first))
]

-- The two inner loops of SetBlock; `none` inside stands for `false`.
unfoldable pub open_block : Bytes → Option (Option Bytes)
open_block [] = none
open_block (c ∷ r) =
    if c == 123
    then some (some (c ∷ r))
    else if c == 32 || is_line_end c
    then open_block r
    else some none

unfoldable pub close_block : Bytes → Option (Option ℕ)
close_block [] = none
close_block (c ∷ r) =
    if c == 125 then some (some (length (c ∷ r))) else if c == 123 then some none else close_block r

-- What SetBlock does behind the name of the block: the pointer to its brace, and the end
unfoldable pub block_end : Bytes → Option (Option (Bytes × ℕ))
block_end s = elim (close_block (drop 1 s)) [
  | none ↦ none
  | some p ↦ elim p [ none ↦ some none | some e ↦ some (some (s, e)) ]
]

unfoldable pub block_from : Bytes → Option (Option (Bytes × ℕ))
block_from tgt = elim (open_block tgt) [
  | none ↦ none
  | some o ↦ elim o [ none ↦ some none | some s ↦ block_end s ]
]

-- The loop of `SetBlock`, whose end is the last byte of the text; every round goes on by two bytes at
-- least, so as many rounds as the text has bytes are enough.
unfoldable pub set_block : ℕ → ℕ → Bytes → Bytes → Option (Option (Bytes × ℕ))
set_block zero alpha block c = none
set_block (suc fuel) alpha block c =
    if length c == 1 then some none else elim (find_alpha 1 alpha c) [
      | runs_out ↦ none
      | nowhere ↦ some none
      | at d ↦ elim (find_word block d) [
        | none ↦ none
        | some w ↦ elim w [ is_it tgt ↦ block_from tgt | _ ↦ set_block fuel alpha block (drop 2 d) ]
      ]
    ]

-- `atoi` on what has no blank in front
unfoldable pub digits_from : ℕ → Bytes → ℕ
digits_from acc [] = acc
digits_from acc (c ∷ r) = if leb 48 c && leb c 57 then digits_from (10 * acc + (c - 48)) r else acc

unfoldable pub atoi : Bytes → ℤ
atoi [] = pos 0
atoi (c ∷ r) =
    if c == 45
    then pos 0 -ℤ pos (digits_from 0 r)
    else if c == 43
    then pos (digits_from 0 r)
    else pos (digits_from 0 (c ∷ r))

abbrev pub is_zero : ℤ → Bool
is_zero (pos n) = n == 0
is_zero (negsuc n) = false

-- The value that GetValue takes from its bytes
unfoldable pub number : Bytes → Option ℤ
number bytes =
    if length bytes == 1
    then some (elim bytes [ [] ↦ pos 0 | c ∷ r ↦ pos c -ℤ pos 48 ])
    else if is_zero (atoi bytes)
    then none
    else some (atoi bytes)

-- The bytes of the value at a pointer
unfoldable pub value_bytes : Bytes → Option Bytes
value_bytes cur = elim (scan_to is_value_end cur) [
  | none ↦ none
  | some stop ↦ some (take (length cur - length stop) cur)
]

-- What GetValue and GetString make of them; the outer `none` is a read behind the text, the inner one is
-- `false`. `capacity` is the size of the caller's array, which also has to hold the closing zero.
unfoldable pub value_at : Bytes → Option (Option ℤ)
value_at cur = elim (value_bytes cur) [ none ↦ none | some v ↦ some (number v) ]

unfoldable pub string_at : ℕ → Bytes → Option (Option Bytes)
string_at capacity cur = elim (value_bytes cur) [
  | none ↦ none
  | some v ↦ some (if ltb capacity (length v + 1) then none else some v)
]

abbrev pub ends_name : ℕ → Bool
ends_name b = is_line_end b || b == 58

abbrev first_byte : Bytes → ℕ
first_byte [] = 0
first_byte (c ∷ r) = c

-- What GetValue and GetString share, with what they do at the value
module _ {A : Type 0} (read : Bytes → Option (Option A)) where
  -- Behind the `:`
  unfoldable pub value_from : Bytes → Option (Option A)
  value_from [] = none
  value_from (c ∷ r) =
      if is_line_end c
      then some none
      else elim (scan_to (λ b. not (b == 32)) (c ∷ r)) [ none ↦ none | some cur ↦ read cur ]

  -- Behind the name
  unfoldable pub entry_from : Bytes → Option (Option A)
  entry_from cur = elim (scan_to ends_name cur) [
    | none ↦ none
    | some d ↦ elim d [ [] ↦ none | c ∷ r ↦ if c == 58 then value_from r else some none ]
  ]

  -- The loop over the block; every round goes on by a byte at least.
  unfoldable pub find_entry : ℕ → ℕ → ℕ → Bytes → Bytes → Option (Option A)
  find_entry zero stop alpha name cur = none
  find_entry (suc fuel) stop alpha name cur =
      if length cur == stop then some none else elim (find_alpha stop alpha cur) [
        | runs_out ↦ none
        | nowhere ↦ find_entry fuel stop alpha name (drop 1 cur)
        | at d ↦ elim (find_word name d) [
          | none ↦ none
          | some w ↦ elim w [
            | is_it behind ↦ entry_from behind
            | other_length ↦ find_entry fuel stop alpha name (drop 1 d)
            | is_other p ↦ find_entry fuel stop alpha name (drop 1 p)
          ]
        ]
      ]

  -- The whole function, on a text that is loaded
  unfoldable pub look_up : Bytes → Bytes → Bytes → Option (Option A)
  look_up text block name = elim (set_block (length text) (first_byte block) block text) [
    | none ↦ none
    | some b ↦ elim b [
      | none ↦ some none
      | some range ↦ find_entry (length text) range.1 (first_byte name) name range.0
    ]
  ]

-- `GetValue` and `GetString`
unfoldable pub get_value : Bytes → Bytes → Bytes → Option (Option ℤ)
get_value = look_up value_at

unfoldable pub get_string : ℕ → Bytes → Bytes → Bytes → Option (Option Bytes)
get_string capacity = look_up (string_at capacity)

-- `_buffer` and `_used`
pub record Loaded : Type 0 where
  pub buffer : Option Bytes
  pub used : Bool

-- `LoadFile`, on what the file holds if it can be opened; of an empty file nothing can be read.
unfoldable pub load_file : Option Bytes → Loaded → Bool × Loaded
load_file file l = if l.used then (false, l) else elim file [
  | none ↦ (false, l)
  | some bytes ↦ elim bytes [
    | [] ↦ (false, record l { buffer = some [] })
    | c ∷ r ↦ (true, record { buffer = some (c ∷ r); used = true })
  ]
]

-- `GetValue` and `GetString` with their test of `_buffer`
unfoldable pub loaded_value : Loaded → Bytes → Bytes → Option (Option ℤ)
loaded_value l block name = elim l.buffer [
  | none ↦ some none
  | some text ↦ get_value text block name
]

unfoldable pub loaded_string : ℕ → Loaded → Bytes → Bytes → Option (Option Bytes)
loaded_string capacity l block name = elim l.buffer [
  | none ↦ some none
  | some text ↦ get_string capacity text block name
]
