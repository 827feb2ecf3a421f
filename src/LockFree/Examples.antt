-- ===== src/LockFree/Examples.antt =====
-- A stack with two nodes, onto which a third one is put and from which it is taken.
use mo_session_server.Base.{List, [], arith, refl, ◌+◌, ◌<◌, ◌^◌, ◌∷◌, ◌≡◌}
use mo_session_server.LockFree.{
  Entry, Stack, Steps, and_then, empty_stack, none_yet, pop_top, pops, push, pushes, take_key,
  takes_key,
}
use mo_session_server.LockFree.Versions.{Steps-entries}

abbrev low : Entry
low = record { key = 1; addr = 64; content = 7 }

abbrev high : Entry
high = record { key = 2; addr = 128; content = 8 }

abbrev one_entry : Stack
one_entry = push low [] [] (take_key 64 7 empty_stack)

abbrev two_entries : Stack
two_entries = push high [] [] (take_key 128 8 one_entry)

abbrev third : Entry
third = record { key = 3; addr = 192; content = 9 }

abbrev three_entries : Stack
three_entries = push third [] [] (take_key 192 9 two_entries)

abbrev two_again : Stack
two_again = pop_top third (high ∷ low ∷ []) three_entries

reached : Steps empty_stack two_entries
unfolding take_key push
reached =
    and_then
      (and_then (and_then (and_then none_yet (takes_key 64 7)) (pushes low [] [] refl))
        (takes_key 128 8))
      (pushes high [] [] refl)

went_on : Steps two_entries two_again
unfolding take_key push
went_on =
    and_then (and_then (and_then none_yet (takes_key 192 9)) (pushes third [] [] refl))
      (pops third (high ∷ low ∷ []) refl)

entries_before : two_entries.entries ≡ high ∷ low ∷ []
unfolding take_key push
entries_before = refl

entries_after : two_again.entries ≡ high ∷ low ∷ []
unfolding pop_top
entries_after = refl

few_keys : two_again.key_count < high.key + 2 ^ 16
unfolding pop_top take_key push
few_keys = omega arith

Steps-entries_example : ◌≡◌ {A = List Entry} (low ∷ []) (low ∷ [])
Steps-entries_example =
    Steps-entries high high (low ∷ []) (low ∷ []) reached went_on entries_before entries_after refl
      few_keys few_keys
