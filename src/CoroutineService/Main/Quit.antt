-- ===== src/CoroutineService/Main/Quit.antt =====
-- A signal ends the program.
use boost_learn.Base.{
  ℕ, zero, suc, ◌≡◌, refl, sym, ◌∙◌, List, [], ◌∷◌, true, false, Bool, All, map, subst,
  if◌then◌else◌,
}
use boost_learn.CoroutineService.Main.{
  Program, PoolThread, MainThread, serving, joining, left_main, exited, terminated, IsAlive,
  new_pool, start, reset, on_signal, destroyed, Leaves, here, there, Step, signals, handles, posts,
  throws, leaves, joins, ends, resumes, destroys, Reach, begin, next, Steps, stay, go,
}

abbrev IsIdle : PoolThread → Type 0
IsIdle t = t.handlers ≡ 0

-- Once the handler runs, no thread has anything to do.
abbrev IsFree : PoolThread → Type 0
IsFree t = (t.work ≡ false) × (t.handlers ≡ 0)

-- What holds of the threads, and whether `ioc` has been stopped, by where main is.
abbrev Threads : MainThread → List PoolThread → Bool → Type 0
Threads serving ts stopped = All IsIdle ts
Threads joining ts stopped = All IsFree ts × (stopped ≡ true)
Threads left_main ts stopped = ts ≡ []
Threads exited ts stopped = Unit
Threads terminated ts stopped = Unit

new_pool-IsIdle : (n : ℕ) → All IsIdle (new_pool n)
unfolding new_pool
new_pool-IsIdle zero = tt
new_pool-IsIdle (suc n) = (refl, new_pool-IsIdle n)

reset-IsFree : (ts : List PoolThread) → All IsIdle ts → All IsFree (map reset ts)
reset-IsFree [] h = tt
reset-IsFree (t ∷ ts) (i, h) = ((refl, i), reset-IsFree ts h)

Leaves-Idle : {ts us : List PoolThread} → Leaves ts us → All IsIdle ts → All IsIdle us
Leaves-Idle (here t ts w i) h = h
Leaves-Idle (there t l) (i, h) = (i, Leaves-Idle l h)

Leaves-Free : {ts us : List PoolThread} → Leaves ts us → All IsFree ts → All IsFree us
Leaves-Free (here t ts w i) h = h
Leaves-Free (there t l) (i, h) = (i, Leaves-Free l h)

Leaves-ne-nil : {ts us : List PoolThread} → Leaves ts us → ts ≡ [] → ⊥
Leaves-ne-nil (here t ts w i) e = cc
Leaves-ne-nil (there t l) e = cc

Leaves-Threads :
    (m : MainThread) (b : Bool) {ts us : List PoolThread}
    → Leaves ts us
    → Threads m ts b
    → Threads m us b
Leaves-Threads serving b l h = Leaves-Idle l h
Leaves-Threads joining b l (h, s) = (Leaves-Free l h, s)
Leaves-Threads left_main b l h = absurd (Leaves-ne-nil l h)
Leaves-Threads exited b l h = tt
Leaves-Threads terminated b l h = tt

abbrev Holds : Program → Type 0
Holds p = Threads p.main p.threads p.ioc_stopped

at : (p : Program) (m : MainThread) → p.main ≡ m → Holds p → Threads m p.threads p.ioc_stopped
at p m e h = subst (λ k. Threads k p.threads p.ioc_stopped) e h

back : (p : Program) (m : MainThread) → p.main ≡ m → Threads m p.threads p.ioc_stopped → Holds p
back p m e h = subst (λ k. Threads k p.threads p.ioc_stopped) (sym e) h

destroyed-Threads :
    (b : Bool) (ts : List PoolThread) (s : Bool) → Threads (if b then terminated else exited) ts s
destroyed-Threads true ts s = tt
destroyed-Threads false ts s = tt

Step-Holds : {p q : Program} → Step p q → Holds p → Holds q
unfolding on_signal destroyed
Step-Holds (signals m) h = h
Step-Holds {p} (handles m s) h = (reset-IsFree p.threads (at p serving m h), refl)
Step-Holds (posts m) h = h
Step-Holds (throws a l) h = tt
Step-Holds {p} (leaves a l) h = Leaves-Threads p.main p.ioc_stopped l h
Step-Holds {p} (joins t ts m e r) h =
    let (free, stopped) = at p joining m h in
    back (record p { threads = ts }) joining m ((subst (All IsFree) e free).1, stopped)
Step-Holds (ends m e s) h = e
Step-Holds {p} (resumes m e s) h = subst (All IsIdle) (sym e) tt
Step-Holds {p} (destroys m) h = destroyed-Threads _ p.threads p.ioc_stopped

Reach-Holds : {n : ℕ} {p : Program} → Reach n true p → Holds p
unfolding start
Reach-Holds {n} begin = new_pool-IsIdle n
Reach-Holds (next r s) = Step-Holds s (Reach-Holds r)

-- How the program ends when main has returned and the pool's threads are joined.
abbrev pub end_of : Bool → MainThread
end_of logic = if logic then terminated else exited

-- There is a way for main to return, with the pool's threads joined, and for the program to end then, by
-- itself if the logic thread has not been started, and else by `std::terminate`.
abbrev pub CanQuit : Program → Type 0
CanQuit p =
    (q : Program) × Steps p q
    × (q.main ≡ left_main)
    × (q.threads ≡ [])
    × (q.logic ≡ p.logic)
    × Step q (record q { main = end_of p.logic })

go-CanQuit : {p q : Program} → Step p q → q.logic ≡ p.logic → CanQuit q → CanQuit p
go-CanQuit {p} {q} s e (r, ss, f, none_left, same, last) =
    (r, go s ss, f, none_left, same ∙ e, subst (λ b. Step r (record r { main = end_of b })) e last)

-- main has returned.
left-CanQuit : (p : Program) → p.main ≡ left_main → p.threads ≡ [] → CanQuit p
unfolding destroyed
left-CanQuit p m e =
    (p, stay, m, e, refl, subst (λ k. Step p (record p { main = k })) (ended p.logic) (destroys m))
  where
    ended : (b : Bool) → destroyed (record p { logic = b }) ≡ end_of b
    ended true = refl
    ended false = rw e

-- The front thread is joined, when it has returned, and else it returns first.
front-CanQuit :
    (p : Program) (t : PoolThread) (ts : List PoolThread)
    → p.main ≡ joining
    → p.threads ≡ t ∷ ts
    → IsFree t
    → CanQuit (record p { threads = ts })
    → CanQuit p
front-CanQuit p t ts m e (w, i) rest =
    let t' = record t { returned = true } in
    go-CanQuit
      (leaves (subst IsAlive (sym m) tt)
        (subst (λ us. Leaves us (t' ∷ ts)) (sym e) (here t ts w i)))
      refl (go-CanQuit (joins t' ts m refl refl) refl rest)

join-CanQuit :
    (ts : List PoolThread) (p : Program)
    → p.main ≡ joining
    → p.threads ≡ ts
    → All IsFree ts
    → p.ioc_stopped ≡ true
    → CanQuit p
join-CanQuit [] p m e h s =
    go-CanQuit (ends m e s) refl (left-CanQuit (record p { main = left_main }) refl e)
join-CanQuit (t ∷ ts) p m e (f, h) s =
    front-CanQuit p t ts m e f (join-CanQuit ts (record p { threads = ts }) m refl h s)

handle-CanQuit : (p : Program) → p.main ≡ serving → All IsIdle p.threads → CanQuit p
unfolding on_signal
handle-CanQuit p m h = go-CanQuit (signals m) refl (
    go-CanQuit (handles m refl) refl
      (join-CanQuit (map reset p.threads) _ refl refl (reset-IsFree p.threads h) refl))

from-CanQuit :
    (m : MainThread) (p : Program)
    → p.main ≡ m
    → IsAlive m
    → Threads m p.threads p.ioc_stopped
    → CanQuit p
from-CanQuit serving p e a h = handle-CanQuit p e h
from-CanQuit joining p e a (h, s) = join-CanQuit p.threads p e refl h s
from-CanQuit left_main p e a h = left-CanQuit p e h
from-CanQuit exited p e a h = absurd a
from-CanQuit terminated p e a h = absurd a

-- If the acceptor could be made: in whatever state the program is, unless it has ended, a signal, its
-- handler, and the returns and joins of the pool's threads can lead main to its end, with the pool's threads
-- joined. The program ends then: by itself if no session has posted a message, and by `std::terminate` if
-- the logic thread was started, since nobody joins it.
pub Reach-CanQuit : {n : ℕ} {p : Program} → Reach n true p → IsAlive p.main → CanQuit p
Reach-CanQuit {n} {p} r a = from-CanQuit p.main p refl a (Reach-Holds r)

-- If the acceptor cannot be made, the program is terminated, since the pool's threads are not joined.
unbound-terminates : (n : ℕ) → destroyed (start (suc n) false) ≡ terminated
unfolding destroyed start new_pool
unbound-terminates n = refl
