-- ===== src/Parser/Entries.antt =====
-- GetValue on a whole text.
use mo_session_server.Base.Int.{pos, ℤ}
use mo_session_server.Parser.{Bytes, find_entry, set_block, get_string, look_up, string_at}
use mo_session_server.Base.{
  length-append, Option, [], ap, ap₂, arith, if◌then◌else◌, length, none, some, suc, sym, ℕ, ◌++◌,
  ◌-◌, ◌<◌, ◌==◌, ◌∙◌, ◌∷◌, ◌≡◌, ltb, refl, ◌+◌,
}
use mo_session_server.Parser.Values.{decimal}
use mo_session_server.Parser.Lookup.{
  value_bytes-append, Parts, WellFormed, text_of, entry, entry-append, find_entry-found,
  set_block-found, value_from-append,
}

-- What GetValue makes of the digits
abbrev pub value_of : ℕ → Bytes → Option ℤ
value_of d ds =
    if length ds == 0
    then some (pos (d - 48))
    else if decimal (d ∷ ds) == 0
    then none
    else some (pos (decimal (d ∷ ds)))

module _ (p : Parts) (w : WellFormed p) where
  fuel : length (text_of p) ≡ suc (length (text_of p) - 1)
  fuel = omega (
    arith,
    length-append p.front
        (p.block0 ∷ (p.block ++ (p.gap ++ (123 ∷ (p.before ++ entry p (125 ∷ p.rest)))))),
  )

  finds_block :
      set_block (length (text_of p)) p.block0 (p.block0 ∷ p.block) (text_of p)
      ≡ some (some (123 ∷ (p.before ++ entry p (125 ∷ p.rest)), length (125 ∷ p.rest)))
  finds_block =
      let e = entry-append p (125 ∷ p.rest) in
      ap₂
        (λ n z.
          set_block n p.block0 (p.block0 ∷ p.block)
            (p.front ++ (p.block0 ∷ (p.block ++ (p.gap ++ (123 ∷ z))))))
        fuel e
      ∙ set_block-found (length (text_of p) - 1) p.block0 p.block p.front p.gap
          (p.before ++ entry p []) p.rest w.front_other w.block_word w.gap_blank w.inner
      ∙ ap (λ z. some (some (123 ∷ z, length (125 ∷ p.rest)))) (sym e)

module _ (p : Parts) (w : WellFormed p) {A : Type 0} (read : Bytes → Option (Option A)) where
  finds_entry :
      find_entry read
        (length (text_of p))
        (length (125 ∷ p.rest))
        p.name0
        (p.name0 ∷ p.name)
        (123 ∷ (p.before ++ entry p (125 ∷ p.rest)))
      ≡ read (p.byte0 ∷ (p.bytes ++ (p.value_end ∷ (p.behind ++ (125 ∷ p.rest)))))
  finds_entry =
      let r = p.space ++ (p.byte0 ∷ (p.bytes ++ (p.value_end ∷ (p.behind ++ (125 ∷ p.rest))))) in
      let h : length (125 ∷ p.rest) < length (p.name0 ∷ (p.name ++ (p.pad ++ (58 ∷ r)))) = omega (
        arith,
        length-append p.name (p.pad ++ (58 ∷ r)),
        length-append p.pad (58 ∷ r),
        length-append p.space (p.byte0 ∷ (p.bytes ++ (p.value_end ∷ (p.behind ++ (125 ∷ p.rest))))),
        length-append p.bytes (p.value_end ∷ (p.behind ++ (125 ∷ p.rest))),
        length-append p.behind (125 ∷ p.rest),
      ) in
      ap
        (λ n.
          find_entry read n (length (125 ∷ p.rest)) p.name0 (p.name0 ∷ p.name)
            (123 ∷ (p.before ++ entry p (125 ∷ p.rest))))
        (fuel p w)
      ∙ find_entry-found read (length (text_of p) - 1) (length (125 ∷ p.rest)) p.name0 p.name
          (123 ∷ p.before) p.pad r w.before_other w.name_word w.pad_spaces h
      ∙ value_from-append read p.space (p.bytes ++ (p.value_end ∷ (p.behind ++ (125 ∷ p.rest))))
          p.byte0 w.space_spaces w.value_word.0

  finds :
      look_up read (text_of p) (p.block0 ∷ p.block) (p.name0 ∷ p.name)
      ≡ read (p.byte0 ∷ (p.bytes ++ (p.value_end ∷ (p.behind ++ (125 ∷ p.rest)))))
  unfolding look_up
  finds = rw (look_up, finds_block p w) finds_entry

-- From such a text, with any value, GetString gives the bytes of the value when the array has room for
-- them and for the closing zero, and refuses them otherwise.
get_string-entry :
    (capacity : ℕ) (p : Parts)
    → WellFormed p
    → get_string capacity (text_of p) (p.block0 ∷ p.block) (p.name0 ∷ p.name)
      ≡ some
          (if ltb capacity (length (p.byte0 ∷ p.bytes) + 1) then none else some (p.byte0 ∷ p.bytes))
unfolding get_string string_at
get_string-entry capacity p w =
    let v =
      value_bytes-append (p.byte0 ∷ p.bytes) (p.behind ++ (125 ∷ p.rest)) p.value_end w.value_word
        w.ends in
    finds p w (string_at capacity) ∙ rw (string_at, v) refl
