-- ===== src/Parser/Examples.antt =====
-- Small configurations.
use mo_session_server.Base.{[], none, refl, some, ◌∷◌, ◌≡◌}
use mo_session_server.Base.Int.{pos, ◌-ℤ◌}
use mo_session_server.Parser.{
  block_end, block_from, close_block, entry_from, find_alpha, find_entry, find_word, get_value,
  number, open_block, same_bytes, scan_to, set_block, value_at, value_from, look_up, value_bytes,
}
use mo_session_server.Parser.Lookup.{Parts}

-- Net, a line end, `{`, a line end, `Port : 5000`, a line end, `}`, a line end
abbrev port_5000 : Parts
port_5000 = record {
  front = [];
  block0 = 78;
  block = 101 ∷ 116 ∷ [];
  gap = 10 ∷ [];
  before = 10 ∷ [];
  name0 = 80;
  name = 111 ∷ 114 ∷ 116 ∷ [];
  pad = 32 ∷ [];
  space = 32 ∷ [];
  byte0 = 53;
  bytes = 48 ∷ 48 ∷ 48 ∷ [];
  value_end = 10;
  behind = [];
  rest = 10 ∷ [];
}

-- The first byte of the block's name as the last but one of the text, without the block: the search
-- goes past the end and reads on.
runs_over : get_value (97 ∷ 78 ∷ 10 ∷ []) (78 ∷ 101 ∷ 116 ∷ []) (80 ∷ []) ≡ none
unfolding get_value look_up set_block find_alpha find_word scan_to
runs_over = refl

-- `N`, `{`, `xP:1`, a line end, `P:2`, a line end, `}`, a line end: the entry xP is taken for P.
longer_name :
    get_value
      (78 ∷ 123 ∷ 120 ∷ 80 ∷ 58 ∷ 49 ∷ 10 ∷ 80 ∷ 58 ∷ 50 ∷ 10 ∷ 125 ∷ 10 ∷ [])
      (78 ∷ [])
      (80 ∷ [])
    ≡ some (some (pos 1))
unfolding get_value look_up set_block find_alpha find_word scan_to same_bytes block_from open_block
    block_end close_block find_entry entry_from value_from value_at value_bytes number ◌-ℤ◌
longer_name = refl

-- `N`, `{`, `P:x`, a line end, `}`, a line end: a byte that is no digit is taken for a number.
no_digit :
    get_value (78 ∷ 123 ∷ 80 ∷ 58 ∷ 120 ∷ 10 ∷ 125 ∷ 10 ∷ []) (78 ∷ []) (80 ∷ [])
    ≡ some (some (pos 72))
unfolding get_value look_up set_block find_alpha find_word scan_to same_bytes block_from open_block
    block_end close_block find_entry entry_from value_from value_at value_bytes number ◌-ℤ◌
no_digit = refl
