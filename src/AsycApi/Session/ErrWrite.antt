-- ===== src/AsycApi/Session/ErrWrite.antt =====
-- `writeToSocketErr` and its callback, over a socket that takes as many bytes at a time as it likes.
use boost_learn.Base.{
  ℕ, zero, suc, ◌+◌, ◌-◌, ◌≤◌, ◌<◌, ◌≡◌, refl, sym, ap, ap₂, ◌∙◌, List, [], ◌∷◌, ◌++◌, Option, none,
  some, arith, length, take, drop, set, lt→ltb, le→ltb, drop-drop, take_split, append_assoc,
  append-nil, take_all, take-nil, lt_cases, inl, subst, inr,
}
use boost_learn.Memory.{overwrite, memcpy-overwrite, take-overwrite}
use boost_learn.Platform.{Platform}
use boost_learn.AsycApi.MsgNode.{MsgNode, new_send_node, ◌>>=◌}
use boost_learn.AsycApi.Session.{
  Session, Effect, write_err, node_at, rest_of, write_call_back_err, write_rest_err,
  write_to_socket_err, async_write_some, async_send, async_read_some, async_receive,
}

-- `pending` is the write that is under way, with its bytes and its node.
pub record Run : Type 0 where
  pub session : Session
  pub pending : Option (List ℕ × ℕ)
  pub written : List ℕ

abbrev pub started : List Effect → Option (List ℕ × ℕ)
started [] = none
started (write_err bs id ∷ es) = some (bs, id)
started (async_write_some bs ∷ es) = started es
started (async_send bs ∷ es) = started es
started (async_read_some n ∷ es) = started es
started (async_receive n ∷ es) = started es

-- The socket takes the first bytes of the write that is under way, and calls back.
abbrev pub accept : Run → ℕ → Option (List ℕ × ℕ) → Option Run
accept r k none = some r
accept r k (some (bs, id)) = do
  next ← write_call_back_err r.session k id
  some (record { session = next.0; pending = started next.1; written = r.written ++ take k bs })

unfoldable pub run : Run → List ℕ → Option Run
run r [] = some r
run r (k ∷ ks) = do next ← accept r k r.pending; run next ks

-- `writeToSocketErr`, and then the socket.
unfoldable pub write_by : Platform → Session → List ℕ → List ℕ → Option Run
unfolding run
write_by p s buf ks = do
  begun ← write_to_socket_err p s buf
  run (record { session = begun.0; pending = started begun.1; written = [] }) ks

-- At least one byte at a time, and no more than are left.
abbrev pub Chunks : ℕ → List ℕ → Type 0
Chunks left [] = Unit {0}
Chunks left (k ∷ ks) = (0 < k) × (k ≤ left) × Chunks (left - k) ks

abbrev pub total : List ℕ → ℕ
total [] = 0
total (k ∷ ks) = k + total ks

abbrev pub pending_bytes : Option (List ℕ × ℕ) → List ℕ
pending_bytes none = []
pending_bytes (some (bs, id)) = bs

node_at-append : (ns : List MsgNode) (n : MsgNode) → node_at (ns ++ n ∷ []) (length ns) ≡ some n
unfolding node_at
node_at-append [] n = refl
node_at-append (m ∷ ns) n = node_at-append ns n

set-append : (ns : List MsgNode) (n v : MsgNode) → set (ns ++ n ∷ []) (length ns) v ≡ ns ++ v ∷ []
set-append [] n v = refl
set-append (m ∷ ns) n v = ap (λ t. m ∷ t) (set-append ns n v)

take-drop : (c n : ℕ) (xs : List ℕ) → take (n - c) (drop c xs) ≡ drop c (take n xs)
take-drop zero n xs = ap (λ k. take k xs) {x = n - 0} {y = n} (omega arith)
take-drop (suc c) n [] = take-nil (n - suc c) ∙ sym (ap (drop (suc c)) (take-nil n))
take-drop (suc c) zero (x ∷ xs) = ap (λ k. take k (drop c xs)) {x = 0 - suc c} {y = 0} (omega arith)
take-drop (suc c) (suc n) (x ∷ xs) = ap (λ k. take k (drop c xs)) (omega arith) ∙ take-drop c n xs

drop_all : (n : ℕ) (xs : List ℕ) → length xs ≤ n → drop n xs ≡ []
drop_all zero [] h = refl
drop_all zero (x ∷ xs) h = absurd (omega arith)
drop_all (suc n) [] h = refl
drop_all (suc n) (x ∷ xs) h = drop_all n xs (omega arith)

total-none : (ks : List ℕ) → Chunks 0 ks → total ks ≡ 0
total-none [] v = refl
total-none (k ∷ ks) v = absurd (omega arith)

run_ended :
    (s : Session) (w : List ℕ) (ks : List ℕ)
    → run (record { session = s; pending = none; written = w }) ks
      ≡ some (record { session = s; pending = none; written = w })
unfolding run
run_ended s w [] = refl
run_ended s w (k ∷ ks) = run_ended s w ks

module _ (s : Session) (chars : List ℕ) (n : ℕ) where
  abbrev node : ℕ → MsgNode
  node c = record { msg = chars; total_len = n; cur_len = c }

  abbrev sending : ℕ → Session
  sending c = record s { nodes = s.nodes ++ node c ∷ []; send_node = some (length s.nodes) }

  abbrev midway : ℕ → List ℕ → Run
  midway c w = record {
    session = sending c;
    pending = some (rest_of (node c), length s.nodes);
    written = w;
  }

  accept_part :
      (c k : ℕ) (w : List ℕ)
      → k + c < n
      → accept (midway c w) k (midway c w).pending
        ≡ some (midway (c + k) (w ++ take k (rest_of (node c))))
  unfolding write_call_back_err write_rest_err
  accept_part c k w h = rw (
    node_at-append s.nodes (node c),
    lt→ltb (k + c) n h,
    set-append s.nodes (node c) (node (c + k)),
  )

  accept_whole :
      (c k : ℕ) (w : List ℕ)
      → n ≤ k + c
      → accept (midway c w) k (midway c w).pending
        ≡ some (record {
          session = sending c;
          pending = none;
          written = w ++ take k (rest_of (node c));
        })
  unfolding write_call_back_err
  accept_whole c k w h = rw (node_at-append s.nodes (node c), le→ltb (k + c) n h)

module _ (s : Session) (chars buf : List ℕ) (held : take (length buf) chars ≡ buf) where
  abbrev n : ℕ
  n = length buf

  rest_of-node : (c : ℕ) → rest_of (node s chars n c) ≡ drop c buf
  rest_of-node c = take-drop c n chars ∙ ap (drop c) held

  -- The next piece of the rest.
  take-take :
      (c k : ℕ) (w ks : List ℕ)
      → (w ++ take k (rest_of (node s chars n c))) ++ take (total ks) (drop (c + k) buf)
        ≡ w ++ take (k + total ks) (drop c buf)
  take-take c k w ks =
      ap (λ t. (w ++ take k t) ++ take (total ks) (drop (c + k) buf)) (rest_of-node c)
      ∙ (append_assoc w _ _
          ∙ ap (λ t. w ++ t)
              (sym (
                take_split k (k + total ks) (drop c buf) (omega arith)
                ∙ ap₂ (λ m t. take k (drop c buf) ++ take m t) (omega arith) (drop-drop k c buf))))

  run-midway :
      (ks : List ℕ) (c : ℕ) (w : List ℕ)
      → c ≤ n
      → Chunks (n - c) ks
      → (r : Run) × (run (midway s chars n c w) ks ≡ some r)
        × (r.written ≡ w ++ take (total ks) (drop c buf))
        × (pending_bytes r.pending ≡ drop (c + total ks) buf)
  unfolding run
  run-midway [] c w h v = (
    midway s chars n c w,
    refl,
    sym (append-nil w),
    rest_of-node c ∙ ap (λ k. drop k buf) (omega arith),
  )
  run-midway (k ∷ ks) c w h (pos, fits, v) = elim (lt_cases (k + c) n) [
    | inl more ↦
        let (r, e, wr, pe) =
          run-midway ks (c + k) (w ++ take k (rest_of (node s chars n c))) (omega arith)
            (subst (λ m. Chunks m ks) (omega arith) v) in
        (
          r,
          rw (accept_part s chars n c k w more) e,
          wr ∙ take-take c k w ks,
          pe ∙ ap (λ m. drop m buf) (omega arith),
        )
    | inr whole ↦
        let none_left = total-none ks (subst (λ m. Chunks m ks) (omega arith) v) in
        (
          record {
            session = sending s chars n c;
            pending = none;
            written = w ++ take k (rest_of (node s chars n c));
          },
          rw (accept_whole s chars n c k w whole) (run_ended (sending s chars n c) _ ks),
          ap₂ (λ t m. w ++ take m t) (rest_of-node c) (omega (arith, none_left)),
          sym (drop_all (c + (k + total ks)) buf (omega arith)),
        )
  ]

-- A text of at most 1024 bytes is written in order, however the socket cuts it: after the socket has
-- taken some pieces, what it has is that much of the front of the text, and what is under way is the
-- rest. Errors of the socket are not looked at.
pub write_by_lem :
    (p : Platform) (s : Session) (buf ks : List ℕ)
    → length buf ≤ 1024
    → Chunks (length buf) ks
    → (r : Run) × (write_by p s buf ks ≡ some r)
      × (r.written ≡ take (total ks) buf)
      × (pending_bytes r.pending ≡ drop (total ks) buf)
unfolding write_by write_to_socket_err new_send_node
write_by_lem p s buf ks fits v =
    let n = length buf in
    let room : 0 + n ≤ length (p.new_char 1024) = omega (arith, p.length-new_char 1024) in
    let chars = overwrite (p.new_char 1024) 0 buf 0 n in
    let held : take n chars ≡ buf =
      ap (λ k. take k chars) (omega arith)
      ∙ (take-overwrite (p.new_char 1024) 0 buf 0 n room (omega arith)
          ∙ take_all n buf (omega arith)) in
    let (r, e, wr, pe) =
      run-midway s chars buf held ks 0 [] (omega arith)
        (subst (λ m. Chunks m ks) (omega arith) v) in
    (
      r,
      rw (memcpy-overwrite (p.new_char 1024) 0 buf 0 n room (omega arith)) e,
      wr,
      pe ∙ ap (λ m. drop m buf) (omega arith),
    )
