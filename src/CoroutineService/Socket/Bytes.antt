-- ===== src/CoroutineService/Socket/Bytes.antt =====
-- A socket that has received everything from the start.
use boost_learn.Base.{
  ℕ, ◌≡◌, ◌<◌, ◌≤◌, refl, ap, ◌∙◌, List, ◌++◌, Option, none, some, length, take, drop, leb,
  if◌then◌else◌, arith, le→leb, lt→leb, length-append, take-length_append, drop-length_append,
}
use boost_learn.CoroutineService.Socket.{Socket}

abbrev read : List ℕ → ℕ → Option (List ℕ × List ℕ)
read st n = if leb n (length st) then some (take n st, drop n st) else none

pub read_whole :
    (st : List ℕ) (n : ℕ) (front rest : List ℕ)
    → st ≡ front ++ rest
    → length front ≡ n
    → (st' : List ℕ) × (read st n ≡ some (front, st')) × (st' ≡ rest)
read_whole st n front rest e h =
    let enough : n ≤ length (front ++ rest) = omega (arith, length-append front rest) in
    (
      rest,
      ap (λ t. read t n) e
          ∙ rw (
            le→leb n (length (front ++ rest)) enough,
            take-length_append front rest n h,
            drop-length_append front rest n h,
          ),
      refl,
    )

pub read_short : (st : List ℕ) (n : ℕ) → length st < n → read st n ≡ none
read_short st n h = rw (lt→leb n (length st) h)

abbrev pub received : Socket
received = record {
  State = List ℕ;
  bytes = λ st. st;
  async_read = read;
  async_read_whole = read_whole;
  async_read_short = read_short;
}
