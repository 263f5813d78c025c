-- ===== src/AsyncServer/Main.antt =====
-- AsyncServer/AsyncServer.cpp and IOThreadPool.cpp: how the program starts, and how a signal is to end
-- it. A handler runs on a thread that is in `run` of its io_context, and `run` returns when the context
-- is stopped; this is all that is used of Boost.Asio here. An exception that nobody catches ends the program:
-- that of an acceptor that cannot be made, since main catches error codes only, and those that leave a
-- thread of the pool or the logic thread.
pub mod Quit
use boost_learn.Base.{ℕ, ◌<◌, ◌≡◌, Bool, true, false, if◌then◌else◌}

-- The pool's io_context is run by its threads, as long as the guard `_works` is there and nobody stops it.
pub record IoThreadPool : Type 0 where
  pub threads : ℕ
  pub works : Bool
  pub stopped : Bool

-- IOThreadPool::IOThreadPool
unfoldable pub new_pool : ℕ → IoThreadPool
new_pool threadnum = record { threads = threadnum; works = true; stopped = false }

-- IOThreadPool::stop, which returns when every thread has left `run`
unfoldable pub stop : IoThreadPool → IoThreadPool
stop pool = record { threads = 0; works = false; stopped = true }

pub data MainThread : Type 0 where
  waiting : MainThread
  finished : MainThread
  terminated : MainThread

-- `ioc_threads`: the threads that are in `run` of main's own `ioc`. `signalled`: a signal has come, and the
-- handler that `signals.async_wait` was given waits to be run on `ioc`.
pub record Program : Type 0 where
  pub main : MainThread
  pub bstop : Bool
  pub signalled : Bool
  pub ioc_threads : ℕ
  pub ioc_stopped : Bool
  pub pool : IoThreadPool

-- The test of `while (!bstop) cond_quit.wait(lock)`, at first and after each wakeup. Behind it `main` ends.
unfoldable pub wait_round : Program → Program
wait_round p = record p { main = if p.bstop then finished else waiting }

-- main, up to the first wait: the pool is made, `async_wait` and the server's accept are started. No thread
-- of the program runs `ioc`. `bound`: the acceptor can be made.
unfoldable pub start : ℕ → Bool → Program
unfolding new_pool wait_round
start threadnum bound =
    let made : Program = record {
      main = waiting;
      bstop = false;
      signalled = false;
      ioc_threads = 0;
      ioc_stopped = false;
      pool = new_pool threadnum;
    } in
    if bound then wait_round made else record made { main = terminated }

-- The handler of the signals. Its notification is one of the wakeups below.
unfoldable pub on_signal : Program → Program
unfolding stop
on_signal p = record p { signalled = false; ioc_stopped = true; pool = stop p.pool; bstop = true }

-- A signal comes, its handler is run, `wait` returns in main, notified or not, or an exception leaves
-- another thread.
pub data Step (p : Program) : Program → Type 0 where
  signals : p.main ≡ waiting → Step p (record p { signalled = true })
  handles :
      p.main ≡ waiting
      → p.signalled ≡ true
      → 0 < p.ioc_threads
      → p.ioc_stopped ≡ false
      → Step p (on_signal p)
  wakes : p.main ≡ waiting → Step p (wait_round p)
  throws : p.main ≡ waiting → Step p (record p { main = terminated })

pub data Reach (threadnum : ℕ) (bound : Bool) : Program → Type 0 where
  begin : Reach threadnum bound (start threadnum bound)
  next : {p q : Program} → Reach threadnum bound p → Step p q → Reach threadnum bound q
