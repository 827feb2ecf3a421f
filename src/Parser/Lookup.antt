-- ===== src/Parser/Lookup.antt =====
-- A value that stands in a block of the text is what GetValue gives.
use mo_session_server.Parser.{
  Bytes, entry_from, is_value_end, is_word_end, value_from, ends_name, is_line_end, find_entry,
  find_word, is_it, set_block, value_bytes,
}
use mo_session_server.Base.{
  All, [], false, some, true, ℕ, ◌++◌, ◌==◌, ◌∷◌, ◌≡◌, Bool, ap, arith, length, length-append, not,
  refl, take, ◌-◌, ◌∙◌, append-nil, append_assoc, suc, ◌<◌, Option,
}
use mo_session_server.Parser.Scanning.{
  IsInner, is_blank, block_from-append, find_alpha-append, find_word-blanks, scan_to-append,
  take-append,
}

abbrev pub IsSpace : ℕ → Type 0
IsSpace b = b ≡ 32

-- A text by its parts: what stands before the block, the name of the block, blanks and `{`; what stands
-- before the entry, its name, spaces, `:`, spaces, the value, the byte behind it; the other entries,
-- `}` and what stands behind the block
pub record Parts : Type 0 where
  pub front : Bytes
  pub block0 : ℕ
  pub block : Bytes
  pub gap : Bytes
  pub before : Bytes
  pub name0 : ℕ
  pub name : Bytes
  pub pad : Bytes
  pub space : Bytes
  pub byte0 : ℕ
  pub bytes : Bytes
  pub value_end : ℕ
  pub behind : Bytes
  pub rest : Bytes

module _ (p : Parts) where
  abbrev pub entry : Bytes → Bytes
  entry tail =
      p.name0
      ∷ (p.name
          ++ (p.pad
              ++ (58 ∷ (p.space ++ (p.byte0 ∷ (p.bytes ++ (p.value_end ∷ (p.behind ++ tail))))))))

  abbrev pub text_of : Bytes
  text_of =
      p.front ++ (p.block0 ∷ (p.block ++ (p.gap ++ (123 ∷ (p.before ++ entry (125 ∷ p.rest))))))

  -- The first bytes of the names do not stand before them, the names and the braces stand as they should,
  -- and the value has no byte that ends values.
  pub record WellFormed : Type 0 where
    pub front_other : All (λ b. (b == p.block0) ≡ false) p.front
    pub block_word : All (λ b. is_word_end b ≡ false) (p.block0 ∷ p.block)
    pub gap_blank : All (λ b. is_blank b ≡ true) p.gap
    pub inner : All IsInner (p.before ++ entry [])
    pub before_other : All (λ b. (b == p.name0) ≡ false) (123 ∷ p.before)
    pub name_word : All (λ b. is_word_end b ≡ false) (p.name0 ∷ p.name)
    pub pad_spaces : All IsSpace p.pad
    pub space_spaces : All IsSpace p.space
    pub value_word : All (λ b. is_value_end b ≡ false) (p.byte0 ∷ p.bytes)
    pub ends : is_value_end p.value_end ≡ true

spaces-All :
    (f : ℕ → Bool) (v : Bool) (xs : Bytes) → f 32 ≡ v → All IsSpace xs → All (λ b. f b ≡ v) xs
spaces-All f v [] e a = tt
spaces-All f v (x ∷ xs) e a = (ap f a.0 ∙ e, spaces-All f v xs e a.1)

pub value_bytes-append :
    (bs tail : Bytes) (e : ℕ)
    → All (λ b. is_value_end b ≡ false) bs
    → is_value_end e ≡ true
    → value_bytes (bs ++ (e ∷ tail)) ≡ some bs
unfolding value_bytes
value_bytes-append bs tail e a h =
    let s = scan_to-append is_value_end bs tail e a h in
    let n : length (bs ++ (e ∷ tail)) - length (e ∷ tail) ≡ length bs =
      omega (arith, length-append bs (e ∷ tail)) in
    rw (value_bytes, s)
      (ap (λ k. some (take k (bs ++ (e ∷ tail)))) n ∙ ap some (take-append bs (e ∷ tail)))

module _ {A : Type 0} (read : Bytes → Option (Option A)) where
  pub value_from-append :
      (space r : Bytes) (d : ℕ)
      → All IsSpace space
      → is_value_end d ≡ false
      → value_from read (space ++ (d ∷ r)) ≡ read (d ∷ r)
  unfolding value_from
  value_from-append [] r d s a =
      let l : is_line_end d ≡ false = ground (arith, a) in
      let n : not (d == 32) ≡ true = ground (arith, a) in
      rw (l, scan_to-append (λ b. not (b == 32)) [] r d tt n) refl
  value_from-append (c ∷ space) r d s a =
      let l : is_line_end c ≡ false = ap is_line_end s.0 in
      let n : not (d == 32) ≡ true = ground (arith, a) in
      let f = spaces-All (λ b. not (b == 32)) false (c ∷ space) refl s in
      rw (l, scan_to-append (λ b. not (b == 32)) (c ∷ space) r d f n) refl

  entry_from-append :
      (pad r : Bytes) → All IsSpace pad → entry_from read (pad ++ (58 ∷ r)) ≡ value_from read r
  unfolding entry_from
  entry_from-append pad r s =
      rw
        (entry_from, scan_to-append ends_name pad r 58 (spaces-All ends_name false pad refl s) refl)
        refl

  pub find_entry-found :
      (fuel stop a : ℕ) (name before pad r : Bytes)
      → All (λ b. (b == a) ≡ false) before
      → All (λ b. is_word_end b ≡ false) (a ∷ name)
      → All IsSpace pad
      → stop < length (a ∷ (name ++ (pad ++ (58 ∷ r))))
      → find_entry read (suc fuel) stop a (a ∷ name) (before ++ (a ∷ (name ++ (pad ++ (58 ∷ r)))))
        ≡ value_from read r
  unfolding find_entry
  find_entry-found fuel stop a name before pad r o w s h =
      let rest = name ++ (pad ++ (58 ∷ r)) in
      let l : (length (before ++ (a ∷ rest)) == stop) ≡ false =
        ground (arith, length-append before (a ∷ rest), h) in
      let f = find_alpha-append stop a before rest o h in
      let g : find_word (a ∷ name) (a ∷ rest) ≡ some (is_it (pad ++ (58 ∷ r))) =
        find_word-blanks (a ∷ name) pad r 58 w (spaces-All is_blank true pad refl s) refl in
      rw (l, f, g) (entry_from-append pad r s)

pub set_block-found :
    (fuel a : ℕ) (block front gap inner rest : Bytes)
    → All (λ b. (b == a) ≡ false) front
    → All (λ b. is_word_end b ≡ false) (a ∷ block)
    → All (λ b. is_blank b ≡ true) gap
    → All IsInner inner
    → set_block
        (suc fuel)
        a
        (a ∷ block)
        (front ++ (a ∷ (block ++ (gap ++ (123 ∷ (inner ++ (125 ∷ rest)))))))
      ≡ some (some (123 ∷ (inner ++ (125 ∷ rest)), length (125 ∷ rest)))
unfolding set_block
set_block-found fuel a block front gap inner rest o w g n =
    let tail = gap ++ (123 ∷ (inner ++ (125 ∷ rest))) in
    let t : 1 < length (a ∷ (block ++ tail)) =
      omega (arith, length-append block tail, length-append gap (123 ∷ (inner ++ (125 ∷ rest)))) in
    let l : (length (front ++ (a ∷ (block ++ tail))) == 1) ≡ false =
      ground (arith, length-append front (a ∷ (block ++ tail)), t) in
    let f = find_alpha-append 1 a front (block ++ tail) o t in
    let q : find_word (a ∷ block) (a ∷ (block ++ tail)) ≡ some (is_it tail) =
      find_word-blanks (a ∷ block) gap (inner ++ (125 ∷ rest)) 123 w g refl in
    rw (l, f, q) (block_from-append gap inner rest g n)

-- The entry up to the end of the block and from there on
pub entry-append :
    (p : Parts) (tail : Bytes) → p.before ++ entry p tail ≡ (p.before ++ entry p []) ++ tail
entry-append p tail = simp (append_assoc, append-nil)
