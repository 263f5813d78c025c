-- ===== src/EndPoint/Whole.antt =====
-- The two loops write the whole message, and read one whole message.
use boost_learn.Base.{
  ◌⊎◌, ap₂, window_split, ℕ, zero, suc, ◌+◌, ◌-◌, ◌==◌, ◌≤◌, ◌<◌, ◌≡◌, refl, sym, ap, ◌∙◌, List,
  ◌++◌, Bool-cases, inl, inr, arith, length, take, drop, take_all, length-drop, length-take,
  append_assoc, append-nil, ==_iff, ◌⊎◌, window_split, ap₂,
}
use boost_learn.Memory.{memcpy-overwrite, overwrite, take-overwrite, length-overwrite}
use boost_learn.EndPoint.Stream.{Stream, Result, threw, done}
use boost_learn.EndPoint.Calls.{
  Ended, returned, thrown, write_loop, write_to_socket, read_loop, read_from_socket, hello_world,
}

-- How a call comes back.
pub Result-cases {ℓ} :
    {A : Type ℓ} (r : Result A) → ((c : ℕ) × (r ≡ threw c)) ⊎ ((a : A) × (r ≡ done a))
Result-cases (threw c) = inl (c, refl)
Result-cases (done a) = inr (a, refl)

take-plus {ℓ} :
    {A : Type ℓ} (a b : ℕ) (xs : List A) → take (a + b) xs ≡ take a xs ++ take b (drop a xs)
take-plus a b xs =
    let behind : 0 + a ≡ a = omega arith in
    let rest : a + b - a ≡ b = omega arith in
    window_split a (a + b) 0 xs (omega arith)
    ∙ ap₂ (λ i n. take a xs ++ take n (drop i xs)) behind rest

module _ (sock : Stream) where
  -- All of `buf` behind what had been written, or an exception behind a part of it.
  pub data IsWritten (before buf : List ℕ) : Ended sock.State Unit → Type 0 where
    all_written :
        (st : sock.State) → sock.written st ≡ before ++ buf → IsWritten before buf (returned tt st)
    part_written :
        (st : sock.State) (code k : ℕ)
        → k < length buf
        → sock.written st ≡ before ++ take k buf
        → IsWritten before buf (thrown code st)

  write_loop-IsWritten :
      (fuel total : ℕ) (buf before : List ℕ) (st : sock.State)
      → total ≤ length buf
      → length buf < fuel + total
      → sock.written st ≡ before ++ take total buf
      → IsWritten before buf (write_loop sock fuel buf total st)
  unfolding write_loop
  write_loop-IsWritten zero total buf before st within more e = absurd (omega arith)
  write_loop-IsWritten (suc fuel) total buf before st within more e =
      elim (Bool-cases (total == length buf)) [
        | inl at_end ↦
            let whole : take total buf ≡ buf =
              take_all total buf (omega (arith, (==_iff total (length buf)).0 at_end)) in
            rw at_end (all_written st (e ∙ ap (λ t. before ++ t) whole))
        | inr under ↦
            let left : total < length buf = ground (arith, under, within) in
            elim (Result-cases (sock.write_some st (drop total buf))) [
              | inl t ↦ rw (under, t.1) (part_written st t.0 total left e)
              | inr d ↦
                  let k = d.0.0 in
                  let (some_gone, in_buf, gone) =
                    sock.write_some-progress st d.0.1 (drop total buf) k
                      (omega (arith, left, length-drop total buf)) d.1 in
                  let longer : sock.written d.0.1 ≡ before ++ take (total + k) buf =
                    gone
                    ∙ (ap (λ t. t ++ take k (drop total buf)) e
                        ∙ (append_assoc before (take total buf) (take k (drop total buf))
                            ∙ ap (λ t. before ++ t) (sym (take-plus total k buf)))) in
                  rw (under, d.1)
                    (write_loop-IsWritten fuel (total + k) buf before d.0.1
                      (omega (arith, in_buf, length-drop total buf, within))
                      (omega (arith, more, some_gone)) longer)
            ]
      ]

  -- With fuel for each byte of the message and one more, the call ends. When each `write_some` that
  -- comes back has written a part of its buffer, then "hello world" has been written once and nothing
  -- else when it returns, and a proper part of it, from its start, when it throws.
  pub write_to_socket-IsWritten :
      (fuel : ℕ) (st : sock.State)
      → length hello_world < fuel
      → IsWritten (sock.written st) hello_world (write_to_socket sock fuel st)
  unfolding write_to_socket
  write_to_socket-IsWritten fuel st more =
      write_loop-IsWritten fuel 0 hello_world (sock.written st) st (omega arith)
        (omega (arith, more)) (sym (append-nil (sock.written st)))

  -- The first seven bytes that the peer has sent, or an exception.
  pub data IsReceived (coming : List ℕ) : Ended sock.State (List ℕ) → Type 0 where
    received :
        (msg : List ℕ) (st : sock.State)
        → length msg ≡ 7
        → coming ≡ msg ++ sock.bytes st
        → IsReceived coming (returned msg st)
    cut_short : (st : sock.State) (code : ℕ) → IsReceived coming (thrown code st)

  read_loop-IsReceived :
      (fuel total : ℕ) (buf coming : List ℕ) (st : sock.State)
      → length buf ≡ 7
      → total ≤ 7
      → 7 < fuel + total
      → coming ≡ take total buf ++ sock.bytes st
      → IsReceived coming (read_loop sock fuel buf total st)
  unfolding read_loop
  read_loop-IsReceived zero total buf coming st size within more e = absurd (omega arith)
  read_loop-IsReceived (suc fuel) total buf coming st size within more e =
      elim (Bool-cases (total == 7)) [
        | inl at_end ↦ rw at_end (
            received (take total buf) st
              (omega (arith, length-take total buf, size, (==_iff total 7).0 at_end)) e)
        | inr under ↦
            let left : total < 7 = ground (arith, under, within) in
            elim (Result-cases (sock.read_some st (7 - total))) [
              | inl t ↦ rw (under, t.1) (cut_short st t.0)
              | inr d ↦
                  let got = d.0.0 in
                  let n = length got in
                  let (some_come, in_buf, come) =
                    sock.read_some-progress st d.0.1 (7 - total) got (omega (arith, left)) d.1 in
                  let fits : total + n ≤ length buf = omega (arith, in_buf, size, left) in
                  let filled = overwrite buf total got 0 n in
                  let front : take (total + n) filled ≡ take total buf ++ got =
                    take-overwrite buf total got 0 n fits (omega arith)
                    ∙ ap (λ t. take total buf ++ t) (take_all n got (omega arith)) in
                  let rest : coming ≡ take (total + n) filled ++ sock.bytes d.0.1 =
                    e
                    ∙ (ap (λ t. take total buf ++ t) come
                        ∙ (sym (append_assoc (take total buf) got (sock.bytes d.0.1))
                            ∙ ap (λ t. t ++ sock.bytes d.0.1) (sym front))) in
                  rw (under, d.1, memcpy-overwrite buf total got 0 n fits (omega arith))
                    (read_loop-IsReceived fuel (total + n) filled coming d.0.1
                      (length-overwrite buf total got 0 n fits (omega arith) ∙ size)
                      (omega (arith, fits, size)) (omega (arith, more, some_come)) rest)
            ]
      ]

  -- With fuel for each of the seven bytes and one more, the call ends. When each `read_some` that comes
  -- back has brought a byte or more, and no more than there was room for, then the string that is
  -- returned is the first seven bytes that the peer has sent, and the rest is left to read.
  pub read_from_socket-IsReceived :
      (fuel : ℕ) (buf : List ℕ) (st : sock.State)
      → length buf ≡ 7
      → 7 < fuel
      → IsReceived (sock.bytes st) (read_from_socket sock fuel buf st)
  unfolding read_from_socket
  read_from_socket-IsReceived fuel buf st size more =
      read_loop-IsReceived fuel 0 buf (sock.bytes st) st size (omega arith) (omega (arith, more))
        refl
