-- ===== src/EchoServers/SyncServer.antt =====
-- SyncServer/SyncServer.cpp: `session`.
use boost_learn.Base.{ℕ, List, [], ◌∷◌, none, some, length, take, if◌then◌else◌}
use boost_learn.Memory.{memcpy, memset_zero}
use boost_learn.EchoServers.Client.{
  got, eof, failed, Round, Served, waiting, closed_by_peer, threw, broken, ended, after_write,
}

abbrev pub max_length : ℕ
max_length = 1024

-- The round behind `read_some`, with what the later rounds do.
unfoldable pub respond : List ℕ → Round → Served → Served
respond data_array r later = elim r.read [
  | eof ↦ ended closed_by_peer
  | failed ↦ ended threw
  | got bs ↦ elim (memcpy data_array 0 bs 0 (length bs)) [
    | none ↦ ended broken
    | some filled ↦ if r.throws then ended threw else after_write (take (length bs) filled) later
  ]
]

-- `fresh` is what the array of a round holds at first.
unfoldable pub session : List ℕ → List Round → Served
unfolding respond
session fresh [] = ended waiting
session fresh (r ∷ rs) =
    let later = session fresh rs in respond (memset_zero fresh max_length) r later
