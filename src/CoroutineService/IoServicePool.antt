-- ===== src/CoroutineService/IoServicePool.antt =====
-- CoroutineService/AsioIOServicePool.h and AsioIOServicePool.cpp: the contexts are handed out in
-- turn. A context is its index; what runs on it, the threads and the work guards, is not modelled.
pub mod Turn
mod Tests
use boost_learn.Base.{
  ℕ, zero, suc, ◌+◌, List, [], ◌∷◌, Option, none, some, ◌==◌, if◌then◌else◌, length,
}
use boost_learn.AsyncServer.MsgNode.{◌>>=◌}

pub record Pool : Type 0 where
  pub io_contexts : List ℕ
  pub next_io_context : ℕ

-- 0, 1, …, from the given number on
unfoldable pub contexts : ℕ → ℕ → List ℕ
contexts i zero = []
contexts i (suc n) = i ∷ contexts (i + 1) n

-- AsioIOServicePool::AsioIOServicePool
unfoldable pub new_pool : ℕ → Pool
unfolding contexts
new_pool threadnum = record { io_contexts = contexts 0 threadnum; next_io_context = 0 }

-- _io_contexts[i], which is not defined out of range
unfoldable pub context_at : List ℕ → ℕ → Option ℕ
context_at [] i = none
context_at (c ∷ cs) zero = some c
context_at (c ∷ cs) (suc i) = context_at cs i

-- AsioIOServicePool::GetIOContext
unfoldable pub get_io_context : Pool → Option (ℕ × Pool)
unfolding context_at
get_io_context p = do
  service ← context_at p.io_contexts p.next_io_context
  let next = p.next_io_context + 1
  let wrapped = if next == length p.io_contexts then 0 else next
  some (service, record p { next_io_context = wrapped })

-- That many calls, and the contexts that they give.
unfoldable pub get_many : ℕ → Pool → Option (List ℕ × Pool)
unfolding get_io_context
get_many zero p = some ([], p)
get_many (suc n) p = do
  got ← get_io_context p
  more ← get_many n got.1
  some (got.0 ∷ more.0, more.1)
