-- ===== src/EndPoint/Stream/Trickle.antt =====
-- A socket that moves one byte at a time, and throws when there is none to read.
use boost_learn.Base.{ℕ, ◌≤◌, ◌<◌, ◌≡◌, sym, ap, ◌∙◌, List, [], ◌∷◌, ◌++◌, arith, length, take}
use boost_learn.EndPoint.Stream.{Stream, Result, threw, done}

-- What has been written, and what is left to read.
abbrev pub Bytes : Type 0
Bytes = List ℕ × List ℕ

abbrev pub write_one : Bytes → List ℕ → Result (ℕ × Bytes)
write_one st [] = done (0, st)
write_one st (b ∷ bs) = done (1, (st.0 ++ b ∷ [], st.1))

abbrev pub read_at : List ℕ → List ℕ → Result (List ℕ × Bytes)
read_at gone [] = threw 2
read_at gone (b ∷ rest) = done (b ∷ [], (gone, rest))

abbrev value_or {ℓ} : {A : Type ℓ} → A → Result A → A
value_or a (threw c) = a
value_or a (done b) = b

pub write_one-progress :
    (st st' : Bytes) (bs : List ℕ) (k : ℕ)
    → 0 < length bs
    → write_one st bs ≡ done (k, st')
    → (0 < k) × (k ≤ length bs) × (st'.0 ≡ st.0 ++ take k bs)
write_one-progress st st' [] k some_left e = absurd (omega arith)
write_one-progress st st' (b ∷ bs) k some_left e =
    let same : ◌≡◌ {A = ℕ × Bytes} (1, (st.0 ++ b ∷ [], st.1)) (k, st') =
      ap (value_or (k, st')) e in
    let one : 1 ≡ k = ap (λ r. r.0) same in
    (
      omega (arith, one),
      omega (arith, one),
      sym (ap (λ r. r.1.0) same) ∙ ap (λ n. st.0 ++ take n (b ∷ bs)) one,
    )

pub read_at-progress :
    (gone coming : List ℕ) (st' : Bytes) (n : ℕ) (got : List ℕ)
    → 0 < n
    → read_at gone coming ≡ done (got, st')
    → (0 < length got) × (length got ≤ n) × (coming ≡ got ++ st'.1)
read_at-progress gone [] st' n got room e = absurd (cc)
read_at-progress gone (b ∷ rest) st' n got room e =
    let same : ◌≡◌ {A = List ℕ × Bytes} (b ∷ [], (gone, rest)) (got, st') =
      ap (value_or (got, st')) e in
    let one : b ∷ [] ≡ got = ap (λ r. r.0) same in
    let size : 1 ≡ length got = ap length one in
    (
      omega (arith, size),
      omega (arith, size, room),
      ap (λ t. b ∷ t) (ap (λ r. r.1.1) same) ∙ ap (λ t. t ++ st'.1) one,
    )

abbrev pub trickle : Stream
trickle = record {
  State = Bytes;
  written = λ st. st.0;
  bytes = λ st. st.1;
  write_some = write_one;
  read_some = λ st n. read_at st.0 st.1;
  write_some-progress = write_one-progress;
  read_some-progress = λ st st' n got room e. read_at-progress st.0 st.1 st' n got room e;
}
