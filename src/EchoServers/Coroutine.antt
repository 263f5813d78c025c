-- ===== src/EchoServers/Coroutine.antt =====
-- Coroutine/Coroutine.cpp: `echo`.
use boost_learn.Base.{ℕ, List, [], ◌∷◌, none, some, length, take, replicate, if◌then◌else◌}
use boost_learn.Memory.{memcpy}
use boost_learn.EchoServers.Client.{
  got, eof, failed, Round, Served, waiting, threw, broken, ended, after_write,
}

abbrev pub max_length : ℕ
max_length = 1024

-- The loop, on the array `data`, which no round clears.
unfoldable pub echo_loop : List ℕ → List Round → Served
echo_loop data_array [] = ended waiting
echo_loop data_array (r ∷ rs) = elim r.read [
  | eof ↦ ended threw
  | failed ↦ ended threw
  | got bs ↦ elim (memcpy data_array 0 bs 0 (length bs)) [
    | none ↦ ended broken
    | some filled ↦
        if r.throws
        then ended threw
        else after_write (take (length bs) filled) (echo_loop filled rs)
  ]
]

unfoldable pub echo : List Round → Served
unfolding echo_loop
echo rs = echo_loop (replicate max_length 0) rs
