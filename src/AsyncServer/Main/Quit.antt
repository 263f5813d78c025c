-- ===== src/AsyncServer/Main/Quit.antt =====
-- Whether a signal ends the program.
use boost_learn.Base.{ℕ, ◌<◌, ◌≡◌, ◌≢◌, refl, Bool, true, false, arith}
use boost_learn.AsyncServer.Main.{
  Program, waiting, finished, wait_round, start, on_signal, Step, signals, handles, wakes, throws,
  Reach, begin, next,
}

-- What no step changes while nobody runs `ioc`.
record Untold (p : Program) : Type 0 where
  not_finished : p.main ≢ finished
  not_told : p.bstop ≡ false
  unrun : p.ioc_threads ≡ 0

start-Untold : (threadnum : ℕ) (bound : Bool) → Untold (start threadnum bound)
unfolding start wait_round
start-Untold threadnum true = record { not_finished = λ e. cc; not_told = refl; unrun = refl }
start-Untold threadnum false = record { not_finished = λ e. cc; not_told = refl; unrun = refl }

Step-Untold : {p q : Program} → Step p q → Untold p → Untold q
unfolding wait_round
Step-Untold (signals w) v = record {
  not_finished = v.not_finished;
  not_told = v.not_told;
  unrun = v.unrun;
}
Step-Untold (handles w come run live) v = absurd (omega (arith, v.unrun))
Step-Untold (wakes w) v = record {
  not_finished = rw (v.not_told) (λ e. cc);
  not_told = v.not_told;
  unrun = v.unrun;
}
Step-Untold (throws w) v = record { not_finished = λ e. cc; not_told = v.not_told; unrun = v.unrun }

-- However many signals come, and whatever wakes the main thread, main does not come to its end: it
-- waits, unless an exception has ended the program.
Reach-ne-finished :
    {threadnum : ℕ} {bound : Bool} {p : Program} → Reach threadnum bound p → Untold p
Reach-ne-finished {threadnum} {bound} begin = start-Untold threadnum bound
Reach-ne-finished (next r s) = Step-Untold s (Reach-ne-finished r)

-- If a thread ran `ioc`, a signal would end the program: it would be handled, and main would wake.
run-Quits :
    (p : Program)
    → p.main ≡ waiting
    → p.signalled ≡ true
    → 0 < p.ioc_threads
    → p.ioc_stopped ≡ false
    → (q : Program) × (r : Program) × Step p q × Step q r × (r.main ≡ finished)
unfolding on_signal wait_round
run-Quits p w come run live =
    (on_signal p, wait_round (on_signal p), handles w come run live, wakes w, refl)
