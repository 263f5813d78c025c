-- ===== src/CoroutineService/Main.antt =====
-- CoroutineService/CoroutineService.cpp, and the threads of AsioIOServicePool.cpp and LogicSystem.cpp: how
-- the program ends. `run` returns when its io_context is stopped or has neither a work guard nor anything
-- else to do; this is all that is used of Boost.Asio here. Of what can throw there are the acceptor, and the
-- callbacks of the logic thread.
pub mod Quit
mod Tests
use boost_learn.Base.{ℕ, ◌≡◌, List, [], ◌∷◌, Bool, true, false, map, replicate, if◌then◌else◌, ◌||◌}

-- A thread of the pool, which runs a context of its own. `work`: the guard `_works[i]` is there.
-- `handlers`: what else the context has to do. `returned`: `run` has returned.
pub record PoolThread : Type 0 where
  pub work : Bool
  pub handlers : ℕ
  pub returned : Bool

pub data MainThread : Type 0 where
  serving : MainThread
  joining : MainThread
  left_main : MainThread
  exited : MainThread
  terminated : MainThread

-- `main` is `serving` in `ioc.run()`, `joining` in the handler of the signals, which calls `pool.stop()`,
-- and `left_main` when it has returned and the objects with static storage are to be destroyed; then the
-- program has `exited`, or `std::terminate` has ended it. `threads`: those of the pool that are not joined.
-- `logic`: the logic thread has been started. `signalled`: the handler waits to be run.
pub record Program : Type 0 where
  pub main : MainThread
  pub signalled : Bool
  pub ioc_stopped : Bool
  pub threads : List PoolThread
  pub logic : Bool

-- AsioIOServicePool::AsioIOServicePool
unfoldable pub new_pool : ℕ → List PoolThread
new_pool threadnum = replicate threadnum (record { work = true; handlers = 0; returned = false })

-- main, up to `ioc.run()`. The server runs on `ioc`: nothing is given to the pool's contexts. `bound`: the
-- acceptor can be made; if not, its exception is caught at the end of main.
unfoldable pub start : ℕ → Bool → Program
unfolding new_pool
start threadnum bound = record {
  main = if bound then serving else left_main;
  signalled = false;
  ioc_stopped = false;
  threads = new_pool threadnum;
  logic = false;
}

-- w.reset()
abbrev pub reset : PoolThread → PoolThread
reset t = record t { work = false }

-- The handler, and AsioIOServicePool::stop up to its joins
unfoldable pub on_signal : Program → Program
on_signal p = record p {
  main = joining;
  signalled = false;
  ioc_stopped = true;
  threads = map reset p.threads;
}

-- One of the threads returns from `run`.
pub data Leaves : List PoolThread → List PoolThread → Type 0 where
  here :
      (t : PoolThread) (ts : List PoolThread)
      → t.work ≡ false
      → t.handlers ≡ 0
      → Leaves (t ∷ ts) (record t { returned = true } ∷ ts)
  there : (t : PoolThread) {ts us : List PoolThread} → Leaves ts us → Leaves (t ∷ ts) (t ∷ us)

abbrev any_left : List PoolThread → Bool
any_left [] = false
any_left (t ∷ ts) = true

-- The destructors of the pool and of the LogicSystem: neither joins a thread, and that of a `std::thread`
-- that is not joined terminates the program.
unfoldable pub destroyed : Program → MainThread
destroyed p = if p.logic || any_left p.threads then terminated else exited

-- The process is there.
abbrev pub IsAlive : MainThread → Type 0
IsAlive serving = Unit
IsAlive joining = Unit
IsAlive left_main = Unit
IsAlive exited = ⊥
IsAlive terminated = ⊥

-- `posts`: a session posts its first message, for which the logic thread is started. `throws`: an exception
-- leaves the logic thread. `joins`: the join of the front thread returns. Behind the last join the handler
-- returns: `ends`, where `ioc` has been stopped, `ioc.run()` returns and main with it; `resumes`, where it
-- has not, it serves on. `destroys`: what follows the return of main. A signal that comes when the handler
-- has run changes nothing.
pub data Step (p : Program) : Program → Type 0 where
  signals : p.main ≡ serving → Step p (record p { signalled = true })
  handles : p.main ≡ serving → p.signalled ≡ true → Step p (on_signal p)
  posts : p.main ≡ serving → Step p (record p { logic = true })
  throws : IsAlive p.main → p.logic ≡ true → Step p (record p { main = terminated })
  leaves :
      {us : List PoolThread}
      → IsAlive p.main
      → Leaves p.threads us
      → Step p (record p { threads = us })
  joins :
      (t : PoolThread) (ts : List PoolThread)
      → p.main ≡ joining
      → p.threads ≡ t ∷ ts
      → t.returned ≡ true
      → Step p (record p { threads = ts })
  ends :
      p.main ≡ joining
      → p.threads ≡ []
      → p.ioc_stopped ≡ true
      → Step p (record p { main = left_main })
  resumes :
      p.main ≡ joining
      → p.threads ≡ []
      → p.ioc_stopped ≡ false
      → Step p (record p { main = serving })
  destroys : p.main ≡ left_main → Step p (record p { main = destroyed p })

pub data Reach (threadnum : ℕ) (bound : Bool) : Program → Type 0 where
  begin : Reach threadnum bound (start threadnum bound)
  next : {p q : Program} → Reach threadnum bound p → Step p q → Reach threadnum bound q

pub data Steps : Program → Program → Type 0 where
  stay : {p : Program} → Steps p p
  go : {p q r : Program} → Step p q → Steps q r → Steps p r
