-- ===== src/CoroutineService/IoServicePool/Turn.antt =====
-- Every context gets its turn.
use boost_learn.Base.{
  ℕ, suc, ◌+◌, ◌<◌, ◌≡◌, refl, sym, ap, ap₂, ◌∙◌, List, [], ◌∷◌, ◌++◌, some, ◌==◌, length, arith,
  append_assoc, append-nil, length-append, ne→==, ==_refl, take, drop, take-append-drop,
  length-take, length-drop, true,
}
use boost_learn.CoroutineService.IoServicePool.{Pool, context_at, get_io_context, get_many}

abbrev at : List ℕ → ℕ → Pool
at cs i = record { io_contexts = cs; next_io_context = i }

context_at-append :
    (pre : List ℕ) (c : ℕ) (post : List ℕ) → context_at (pre ++ c ∷ post) (length pre) ≡ some c
unfolding context_at
context_at-append [] c post = refl
context_at-append (x ∷ pre) c post = context_at-append pre c post

-- A call that finds a context in the middle.
get_middle :
    (pre : List ℕ) (c : ℕ) (post : List ℕ)
    → 0 < length post
    → get_io_context (at (pre ++ c ∷ post) (length pre))
      ≡ some (c, at (pre ++ c ∷ post) (length pre + 1))
unfolding get_io_context
get_middle pre c post more =
    let other =
      ne→== (length pre + 1) (length (pre ++ c ∷ post))
        (λ e. absurd (omega (arith, length-append pre (c ∷ post)))) in
    rw (context_at-append pre c post, other)

-- A call that finds the last context.
get_last :
    (pre : List ℕ) (c : ℕ)
    → get_io_context (at (pre ++ c ∷ []) (length pre)) ≡ some (c, at (pre ++ c ∷ []) 0)
unfolding get_io_context
get_last pre c =
    let size : length (pre ++ c ∷ []) ≡ length pre + 1 =
      omega (arith, length-append pre (c ∷ [])) in
    let same : ((length pre + 1) == length (pre ++ c ∷ [])) ≡ true =
      ap (λ k. (length pre + 1) == k) size ∙ ==_refl (length pre + 1) in
    rw (context_at-append pre c [], same)

get_next :
    (n : ℕ) (p p' q : Pool) (c : ℕ) (cs : List ℕ)
    → get_io_context p ≡ some (c, p')
    → get_many n p' ≡ some (cs, q)
    → get_many (suc n) p ≡ some (c ∷ cs, q)
unfolding get_many
get_next n p p' q c cs e h = rw (e, h)

-- A context in the middle, moved to the ones before it.
shifted :
    (pre : List ℕ) (c : ℕ) (post : List ℕ) (n : ℕ)
    → get_many n (at ((pre ++ c ∷ []) ++ post) (length (pre ++ c ∷ [])))
      ≡ get_many n (at (pre ++ c ∷ post) (length pre + 1))
shifted pre c post n =
    ap₂ (λ cs k. get_many n (at cs k)) (append_assoc pre (c ∷ []) post)
      (omega (arith, length-append pre (c ∷ [])))

-- The calls that hand out the contexts in the middle, and those behind them.
get_run :
    (pre mid post : List ℕ) (k : ℕ) (ys : List ℕ) (q : Pool)
    → 0 < length post
    → get_many k (at (pre ++ (mid ++ post)) (length pre + length mid)) ≡ some (ys, q)
    → get_many (k + length mid) (at (pre ++ (mid ++ post)) (length pre)) ≡ some (mid ++ ys, q)
get_run pre [] post k ys q more h =
    ap₂ (λ n i. get_many n (at (pre ++ post) i)) (omega arith) (omega arith) ∙ h
get_run pre (c ∷ mid) post k ys q more h =
    let one : length (pre ++ c ∷ []) ≡ length pre + 1 = omega (arith, length-append pre (c ∷ [])) in
    let h' : get_many k
          (at ((pre ++ c ∷ []) ++ (mid ++ post)) (length (pre ++ c ∷ []) + length mid))
        ≡ some (ys, q) =
      ap₂ (λ cs i. get_many k (at cs i)) (append_assoc pre (c ∷ []) (mid ++ post))
        (omega (arith, one))
      ∙ h in
    let rest = get_run (pre ++ c ∷ []) mid post k ys q more h' in
    ap (λ n. get_many n (at (pre ++ c ∷ (mid ++ post)) (length pre))) (omega arith)
    ∙ get_next (k + length mid) _ _ q c (mid ++ ys)
        (get_middle pre c (mid ++ post) (omega (arith, length-append mid post)))
        (sym (shifted pre c (mid ++ post) (k + length mid)) ∙ rest)

-- The calls that hand out the contexts up to the last, and those behind them.
get_to_end :
    (pre : List ℕ) (c : ℕ) (post : List ℕ) (k : ℕ) (ys : List ℕ) (q : Pool)
    → get_many k (at (pre ++ c ∷ post) 0) ≡ some (ys, q)
    → get_many (k + suc (length post)) (at (pre ++ c ∷ post) (length pre))
      ≡ some ((c ∷ post) ++ ys, q)
get_to_end pre c [] k ys q h =
    ap (λ n. get_many n (at (pre ++ c ∷ []) (length pre))) (omega arith)
    ∙ get_next k _ _ q c ys (get_last pre c) h
get_to_end pre c (d ∷ post) k ys q h =
    let rest =
      get_to_end (pre ++ c ∷ []) d post k ys q
        (ap (λ cs. get_many k (at cs 0)) (append_assoc pre (c ∷ []) (d ∷ post)) ∙ h) in
    ap (λ n. get_many n (at (pre ++ c ∷ d ∷ post) (length pre))) (omega arith)
    ∙ get_next (k + suc (length post)) _ _ q c _ (get_middle pre c (d ∷ post) (omega arith))
        (sym (shifted pre c (d ∷ post) (k + suc (length post))) ∙ rest)

get_turn :
    (pre : List ℕ) (suf : List ℕ)
    → 0 < length suf
    → get_many (length pre + length suf) (at (pre ++ suf) (length pre))
      ≡ some (suf ++ pre, at (pre ++ suf) (length pre))
unfolding get_many
get_turn pre [] h = elim h [ ]
get_turn pre (c ∷ post) h =
    let last =
      get_run [] pre (c ∷ post) 0 [] (at (pre ++ c ∷ post) (length pre)) (omega arith)
        (ap (λ i. some ([], at (pre ++ c ∷ post) i)) (omega arith)) in
    let front : get_many (length pre) (at (pre ++ c ∷ post) 0)
        ≡ some (pre, at (pre ++ c ∷ post) (length pre)) =
      ap (λ n. get_many n (at (pre ++ c ∷ post) 0)) (omega arith)
      ∙ (last ∙ ap (λ xs. some (xs, at (pre ++ c ∷ post) (length pre))) (append-nil pre)) in
    get_to_end pre c post (length pre) pre _ front

-- As many calls as the pool has contexts, from any place in the turn on, give every context once, in
-- the order of the turn, and come back to that place.
pub get_many_turn :
    (p : Pool)
    → p.next_io_context < length p.io_contexts
    → get_many (length p.io_contexts) p
      ≡ some (drop p.next_io_context p.io_contexts ++ take p.next_io_context p.io_contexts, p)
get_many_turn p h =
    let cs = p.io_contexts in
    let i = p.next_io_context in
    let split = take-append-drop i cs in
    let size : length (take i cs) ≡ i = omega (arith, length-take i cs) in
    let turn = get_turn (take i cs) (drop i cs) (omega (arith, length-drop i cs)) in
    ap₂ (λ n xs. get_many n xs) (omega (arith, size, length-drop i cs))
      (ap₂ (λ xs k. at xs k) (sym split) (sym size))
    ∙ (turn ∙ ap (λ x. some (drop i cs ++ take i cs, x)) (ap₂ (λ xs k. at xs k) split size))
