-- ===== src/Memory.antt =====
-- The C library's calls on byte arrays that the sources make: `memcpy` and `memset`. An array is
-- the list of its bytes, and an access outside it is a fault (`none`).
use boost_learn.Base.{
  ℕ, ◌+◌, ◌≤◌, ◌≡◌, sym, ap, ◌∙◌, List, ◌++◌, ◌&&◌, Option, none, some, arith, leb, if◌then◌else◌,
  le→leb, length, take, drop, replicate, window, length-append, length-take, length-drop,
  length-window, length-replicate, take-length_append, append_assoc, ◌⊎◌, ◌<◌, Bool-cases, lt→leb,
  inl, inr, leb→le,
}

-- The array after `n` bytes of `src` from `from` on have been written at `at`.
unfoldable pub overwrite : List ℕ → ℕ → List ℕ → ℕ → ℕ → List ℕ
overwrite dst at src from n = take at dst ++ (window src from n ++ drop (at + n) dst)

-- memcpy(dst + at, src + from, n)
unfoldable pub memcpy : List ℕ → ℕ → List ℕ → ℕ → ℕ → Option (List ℕ)
unfolding overwrite
memcpy dst at src from n =
    if leb (from + n) (length src) && leb (at + n) (length dst)
    then some (overwrite dst at src from n)
    else none

-- memset(dst, 0, n), for n within the array
unfoldable pub memset_zero : List ℕ → ℕ → List ℕ
memset_zero dst n = replicate n 0 ++ drop n dst

module _ (dst : List ℕ) (at : ℕ) (src : List ℕ) (from n : ℕ) (fits : at + n ≤ length dst)
    (has : from + n ≤ length src) where
  pub memcpy-overwrite : memcpy dst at src from n ≡ some (overwrite dst at src from n)
  unfolding memcpy
  memcpy-overwrite = rw (le→leb _ _ has, le→leb _ _ fits)

  pub length-overwrite : length (overwrite dst at src from n) ≡ length dst
  unfolding overwrite
  length-overwrite = omega (
    arith,
    length-append (take at dst) (window src from n ++ drop (at + n) dst),
    length-append (window src from n) (drop (at + n) dst),
    length-take at dst,
    length-window src from n has,
    length-drop (at + n) dst,
  )

  length-front : length (take at dst ++ window src from n) ≡ at + n
  length-front = omega (
    arith,
    length-append (take at dst) (window src from n),
    length-take at dst,
    length-window src from n has,
  )

  -- What was before the copy, then the copy.
  pub take-overwrite :
      take (at + n) (overwrite dst at src from n) ≡ take at dst ++ window src from n
  unfolding overwrite
  take-overwrite =
      ap (take (at + n)) (sym (append_assoc (take at dst) (window src from n) (drop (at + n) dst)))
      ∙ take-length_append _ _ (at + n) length-front

  pub overwrite_front :
      overwrite dst at src from n ≡ (take at dst ++ window src from n) ++ drop (at + n) dst
  unfolding overwrite
  overwrite_front = sym (append_assoc (take at dst) (window src from n) (drop (at + n) dst))

pub length-memset_zero :
    (dst : List ℕ) (n : ℕ) → n ≤ length dst → length (memset_zero dst n) ≡ length dst
unfolding memset_zero
length-memset_zero dst n h = omega (
  arith,
  length-append (replicate n 0) (drop n dst),
  length-replicate {A = ℕ} n 0,
  length-drop n dst,
)

pub memcpy_too_long :
    (dst : List ℕ) (at : ℕ) (src : List ℕ) (n : ℕ)
    → length dst < at + n
    → memcpy dst at src 0 n ≡ none
unfolding memcpy
memcpy_too_long dst at src n h = rw (lt→leb (at + n) (length dst) h) (ground arith)

-- A copy fails, or keeps the size of the array.
pub memcpy_cases :
    (dst : List ℕ) (at : ℕ) (src : List ℕ) (from n : ℕ)
    → (memcpy dst at src from n ≡ none)
      ⊎ ((out : List ℕ) × (memcpy dst at src from n ≡ some out) × (length out ≡ length dst))
unfolding memcpy
memcpy_cases dst at src from n = elim (Bool-cases (leb (from + n) (length src))) [
  | inl has ↦ elim (Bool-cases (leb (at + n) (length dst))) [
    | inl fits ↦ inr (
      overwrite dst at src from n,
      rw (has, fits),
      length-overwrite dst at src from n (leb→le _ _ fits) (leb→le _ _ has),
    )
    | inr over ↦ inl (rw (has, over))
  ]
  | inr short ↦ inl (rw short)
]
