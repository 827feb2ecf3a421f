-- ===== src/Hosting/Dispatch.antt =====
-- What a round of a worker thread does to one contents, and the updates that wait for it.
use mo_session_server.Base.Table.{IsMap, find, find-assign, assign-IsMap, assign}
use mo_session_server.Hosting.{
  Ask, Completion, Handlers, Hosted, due_list, enter, is_due, is_update, leave, call_handler,
  shut_down, update, asks, dispatch, posted, map_after, null, receive, send, worker, Overlapped,
}
use mo_session_server.Base.{
  Bool, true, false, List, [], arith, none, refl, some, ℕ, ◌%◌, ◌&&◌, ◌++◌, ◌+◌, ◌==◌, ◌^◌, ◌∷◌,
  ◌≡◌, Option-cases, inl, inr, Bool-cases, if◌then◌else◌, ◌∙◌, ap, subst, sym,
}
use mo_session_server.Hosting.Frames.{one_if}

-- Whether a completion is an update of the contents
abbrev pub updates : ℕ → Completion → Bool
updates n c = is_update c && (c.transferred == n)

abbrev pub waiting : ℕ → List Completion → ℕ
waiting n [] = 0
waiting n (c ∷ cs) = one_if (updates n c) + waiting n cs

pub waiting-append :
    (n : ℕ) (cs ds : List Completion) → waiting n (cs ++ ds) ≡ waiting n cs + waiting n ds
waiting-append n [] ds = omega arith
waiting-append n (c ∷ cs) ds = omega (arith, waiting-append n cs ds)

module _ {A : Type 0} where
  -- What a round keeps of a contents: the period, and the number of updates that are done or that wait
  abbrev pub Served : Hosted A → ℕ → Hosted A → Type 0
  Served h k h' = (h'.frame ≡ h.frame) × (h'.fps_count % 2 ^ 32 ≡ (h.fps_count + k) % 2 ^ 32)

  waiting-due_none :
      (n count : ℕ) (m : List (ℕ × Hosted A)) → find n m ≡ none → waiting n (due_list count m) ≡ 0
  unfolding due_list
  waiting-due_none n count [] e = refl
  waiting-due_none n count ((j, h) ∷ m) e = ground (arith, waiting-due_none n count m)

  -- A contents that is due is posted once.
  pub waiting-due_list :
      (n count : ℕ) (m : List (ℕ × Hosted A)) (h : Hosted A)
      → IsMap m
      → find n m ≡ some h
      → waiting n (due_list count m) ≡ one_if (is_due count h.frame)
  unfolding due_list
  waiting-due_list n count [] h u e = cc
  waiting-due_list n count ((j, g) ∷ m) h u e =
      ground (arith, waiting-due_list n count m h, waiting-due_none j count m)

module _ {A E : Type 0} (handlers : Handlers A E) where
  call_handler-Served :
      (n session : ℕ) (a : Ask) (h : Hosted A)
      → Served h
          (one_if (elim a [ update ↦ true | _ ↦ false ]))
          (call_handler handlers a session h).0
  unfolding call_handler
  call_handler-Served n session enter h = (refl, omega arith)
  call_handler-Served n session leave h = (refl, omega arith)
  call_handler-Served n session update h = (refl, omega arith)
  call_handler-Served n session shut_down h = (refl, omega arith)

  here :
      (n j session : ℕ) (a : Ask)
      → (j == n) ≡ true
      → elim a [ update ↦ true | _ ↦ false ] ≡ updates n (posted j session (asks a))
  here n j session enter t = refl
  here n j session leave t = refl
  here n j session update t = sym t
  here n j session shut_down t = refl

  elsewhere :
      (n j session : ℕ) (a : Ask) → (j == n) ≡ false → updates n (posted j session (asks a)) ≡ false
  elsewhere n j session enter t = refl
  elsewhere n j session leave t = refl
  elsewhere n j session update t = t
  elsewhere n j session shut_down t = refl

  find-dispatch :
      (n j session : ℕ) (a : Ask) (m : List (ℕ × Hosted A)) (h : Hosted A)
      → find n m ≡ some h
      → find n (dispatch handlers a j session m).0
        ≡ (if j == n then some (call_handler handlers a session h).0 else some h)
  unfolding dispatch
  find-dispatch n j session a m h e = elim (Option-cases (find j m)) [
    | inl z ↦ ground (arith, z, e)
    | inr (g, f) ↦ ground (arith, f, e, find-assign j n (call_handler handlers a session g).0 g m f)
  ]

  dispatch-Served :
      (n j session : ℕ) (a : Ask) (m : List (ℕ × Hosted A)) (h : Hosted A)
      → find n m ≡ some h
      → (h' : Hosted A) × (find n (dispatch handlers a j session m).0 ≡ some h')
        × Served h (one_if (updates n (posted j session (asks a)))) h'
  dispatch-Served n j session a m h e =
      let f = find-dispatch n j session a m h e in
      elim (Bool-cases (j == n)) [
        | inl t ↦ (
          (call_handler handlers a session h).0,
          f ∙ rw t refl,
          subst (λ k. Served h k (call_handler handlers a session h).0)
              (ap one_if (here n j session a t)) (call_handler-Served n session a h),
        )
        | inr t ↦ (h, f ∙ rw t refl, (refl, omega (arith, ap one_if (elsewhere n j session a t))))
      ]

  map_after-null :
      (b : Bool) (x y : ℕ) (m : List (ℕ × Hosted A))
      → map_after handlers (record { succeeded = b; transferred = x; key = y; overlapped = null }) m
        ≡ m
  unfolding map_after worker
  map_after-null b x y m = ground arith

  parts-Served :
      (n : ℕ) (b : Bool) (x y : ℕ) (o : Overlapped) (m : List (ℕ × Hosted A)) (h : Hosted A)
      → find n m ≡ some h
      → let c : Completion = record { succeeded = b; transferred = x; key = y; overlapped = o } in
        (h' : Hosted A) × (find n (map_after handlers c m) ≡ some h')
        × Served h (one_if (updates n c)) h'
  unfolding map_after worker
  parts-Served n b x y null m h e =
      (h, ap (find n) (map_after-null b x y m) ∙ e, (refl, omega arith))
  parts-Served n b x y receive m h e = (h, e, (refl, omega arith))
  parts-Served n b x y send m h e = (h, e, (refl, omega arith))
  parts-Served n b x y (asks a) m h e = dispatch-Served n x y a m h e

  -- One round of a worker thread
  pub map_after-Served :
      (n : ℕ) (c : Completion) (m : List (ℕ × Hosted A)) (h : Hosted A)
      → find n m ≡ some h
      → (h' : Hosted A) × (find n (map_after handlers c m) ≡ some h')
        × Served h (one_if (updates n c)) h'
  map_after-Served n c m h e = parts-Served n c.succeeded c.transferred c.key c.overlapped m h e

  missing-dispatch :
      (a : Ask) (j session : ℕ) (m : List (ℕ × Hosted A))
      → find j m ≡ none
      → (dispatch handlers a j session m).0 ≡ m
  unfolding dispatch
  missing-dispatch a j session m z = rw (dispatch, z) refl

  found-dispatch :
      (a : Ask) (j session : ℕ) (m : List (ℕ × Hosted A)) (g : Hosted A)
      → find j m ≡ some g
      → (dispatch handlers a j session m).0 ≡ assign j (call_handler handlers a session g).0 m
  unfolding dispatch
  found-dispatch a j session m g f = rw (dispatch, f) refl

  dispatch-IsMap :
      (a : Ask) (j session : ℕ) (m : List (ℕ × Hosted A))
      → IsMap m
      → IsMap (dispatch handlers a j session m).0
  dispatch-IsMap a j session m u = elim (Option-cases (find j m)) [
    | inl z ↦ subst IsMap (sym (missing-dispatch a j session m z)) u
    | inr (g, f) ↦
        subst IsMap (sym (found-dispatch a j session m g f))
          (assign-IsMap j (call_handler handlers a session g).0 m u)
  ]

  parts-IsMap :
      (b : Bool) (x y : ℕ) (o : Overlapped) (m : List (ℕ × Hosted A))
      → IsMap m
      → IsMap (
          map_after handlers (record { succeeded = b; transferred = x; key = y; overlapped = o }) m)
  unfolding map_after worker
  parts-IsMap b x y null m u = subst IsMap (sym (map_after-null b x y m)) u
  parts-IsMap b x y receive m u = u
  parts-IsMap b x y send m u = u
  parts-IsMap b x y (asks a) m u = dispatch-IsMap a x y m u

  pub map_after-IsMap :
      (c : Completion) (m : List (ℕ × Hosted A)) → IsMap m → IsMap (map_after handlers c m)
  map_after-IsMap c m u = parts-IsMap c.succeeded c.transferred c.key c.overlapped m u
