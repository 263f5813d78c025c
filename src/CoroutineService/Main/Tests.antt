-- ===== src/CoroutineService/Main/Tests.antt =====
-- The theorem on the program in the middle of its end: a session has posted a message, a signal has been handled, and the first of two
-- threads has returned.
use boost_learn.Base.{refl, [], ◌∷◌, false, true}
use boost_learn.CoroutineService.Main.{
  Program, PoolThread, start, new_pool, on_signal, here, leaves, signals, posts, handles, Reach,
  begin, next,
}
use boost_learn.CoroutineService.Main.Quit.{CanQuit, Reach-CanQuit}

abbrev stopping : Program
stopping = on_signal (record (start 2 true) { signalled = true; logic = true })

stopping_reached : Reach 2 true stopping
unfolding start new_pool
stopping_reached = next (next (next begin (posts refl)) (signals refl)) (handles refl refl)

abbrev left : PoolThread
left = record { work = false; handlers = 0; returned = true }

abbrev half_way : Program
half_way = record stopping { threads = left ∷ record left { returned = false } ∷ [] }

half_way_reached : Reach 2 true half_way
unfolding start new_pool on_signal
half_way_reached = next stopping_reached (leaves tt (here _ _ refl refl))

Reach-CanQuit_example : CanQuit half_way
unfolding on_signal
Reach-CanQuit_example = Reach-CanQuit half_way_reached tt
