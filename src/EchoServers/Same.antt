-- ===== src/EchoServers/Same.antt =====
-- The two servers do the same.
use boost_learn.Base.{
  ℕ, ◌≤◌, ◌≡◌, refl, ap, ◌∙◌, List, [], ◌∷◌, Bool, true, false, arith, length, take, take_all,
  replicate, length-replicate, All,
}
use boost_learn.Memory.{
  overwrite, memcpy-overwrite, take-overwrite, length-overwrite, memset_zero, length-memset_zero,
}
use boost_learn.EchoServers.Client.{
  Read, got, eof, failed, Round, Ending, Served, waiting, closed_by_peer, threw, broken,
}
use boost_learn.EchoServers.SyncServer.{session, respond}
use boost_learn.EchoServers.Coroutine.{echo, echo_loop}

abbrev FitsRead : Read → Type 0
FitsRead (got bs) = length bs ≤ 1024
FitsRead eof = Unit
FitsRead failed = Unit

-- A read brings at most the size of the array.
abbrev pub Fits : Round → Type 0
Fits r = FitsRead r.read

-- What is sent back: what the rounds have brought, up to the first that does not come to its end.
abbrev echoed_round : Read → Bool → List (List ℕ) → List (List ℕ)
echoed_round (got bs) false later = bs ∷ later
echoed_round (got bs) true later = []
echoed_round eof throws later = []
echoed_round failed throws later = []

unfoldable pub echoed : List Round → List (List ℕ)
echoed [] = []
echoed (r ∷ rs) = echoed_round r.read r.throws (echoed rs)

-- The coroutine's read throws at the end of the stream too.
abbrev pub as_thrown : Ending → Ending
as_thrown waiting = waiting
as_thrown closed_by_peer = threw
as_thrown threw = threw
as_thrown broken = broken

take-overwrite_front :
    (dst bs : List ℕ)
    → length bs ≤ length dst
    → take (length bs) (overwrite dst 0 bs 0 (length bs)) ≡ bs
take-overwrite_front dst bs h =
    let n = length bs in
    ap (λ k. take k (overwrite dst 0 bs 0 n)) (omega arith)
    ∙ (take-overwrite dst 0 bs 0 n (omega (arith, h)) (omega arith) ∙ take_all n bs (omega arith))

-- The written bytes and the ending of the one, up to the end of the stream, are those of the other.
abbrev pub Agrees : Served → Served → List (List ℕ) → Type 0
Agrees s t bs = (s.written ≡ bs) × (t.written ≡ bs) × (as_thrown s.ending ≡ t.ending)

abbrev round_of : Read → Bool → Round
round_of read throws = record { read = read; throws = throws }

agree_round :
    (array array' : List ℕ) (read : Read) (throws : Bool) (rs : List Round) (later : Served)
    (bs : List (List ℕ))
    → length array ≡ 1024
    → length array' ≡ 1024
    → FitsRead read
    → ((array'' : List ℕ) → length array'' ≡ 1024 → Agrees later (echo_loop array'' rs) bs)
    → Agrees
        (respond array (round_of read throws) later)
        (echo_loop array' (round_of read throws ∷ rs))
        (echoed_round read throws bs)
unfolding respond echo_loop
agree_round array array' eof throws rs later bs size size' fits ih = (refl, refl, refl)
agree_round array array' failed throws rs later bs size size' fits ih = (refl, refl, refl)
agree_round array array' (got xs) true rs later bs size size' fits ih =
    let n = length xs in
    let into = memcpy-overwrite array 0 xs 0 n (omega (arith, size, fits)) (omega arith) in
    let into' = memcpy-overwrite array' 0 xs 0 n (omega (arith, size', fits)) (omega arith) in
    (rw (respond, into) refl, rw (echo_loop, into') refl, rw (respond, echo_loop, into, into') refl)
agree_round array array' (got xs) false rs later bs size size' fits ih =
    let n = length xs in
    let into = memcpy-overwrite array 0 xs 0 n (omega (arith, size, fits)) (omega arith) in
    let into' = memcpy-overwrite array' 0 xs 0 n (omega (arith, size', fits)) (omega arith) in
    let back = take-overwrite_front array xs (omega (arith, size, fits)) in
    let back' = take-overwrite_front array' xs (omega (arith, size', fits)) in
    let filled = overwrite array' 0 xs 0 n in
    let (h, h', e) =
      ih filled
        (length-overwrite array' 0 xs 0 n (omega (arith, size', fits)) (omega arith) ∙ size') in
    (
      rw (respond, into, back) (ap (λ t. xs ∷ t) h),
      rw (echo_loop, into', back') (ap (λ t. xs ∷ t) h'),
      rw (respond, echo_loop, into, into') e,
    )

session-echo_loop :
    (fresh array : List ℕ) (rs : List Round)
    → length fresh ≡ 1024
    → length array ≡ 1024
    → All Fits rs
    → Agrees (session fresh rs) (echo_loop array rs) (echoed rs)
unfolding session echo_loop echoed
session-echo_loop fresh array [] size size' fits = (refl, refl, refl)
session-echo_loop fresh array (r ∷ rs) size size' (f, fits) =
    agree_round (memset_zero fresh 1024) array r.read r.throws rs (session fresh rs) (echoed rs)
      (length-memset_zero fresh 1024 (omega (arith, size)) ∙ size) size' f
      (λ array' size''. session-echo_loop fresh array' rs size size'' fits)

-- When no read brings more than 1024 bytes, the thread and the coroutine send back the same: what each
-- round has brought, as it came, up to the first round that ends the loop; and they end alike, but for
-- the end of the stream, which the coroutine takes for an exception.
pub session-echo :
    (fresh : List ℕ) (rs : List Round)
    → length fresh ≡ 1024
    → All Fits rs
    → Agrees (session fresh rs) (echo rs) (echoed rs)
unfolding echo
session-echo fresh rs size fits =
    session-echo_loop fresh (replicate 1024 0) rs size (length-replicate {A = ℕ} 1024 0) fits
