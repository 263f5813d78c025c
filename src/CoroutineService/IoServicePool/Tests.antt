-- ===== src/CoroutineService/IoServicePool/Tests.antt =====
-- A run of the pool.
use boost_learn.Base.{◌≡◌, refl, [], ◌∷◌, some}
use boost_learn.CoroutineService.IoServicePool.{Pool, get_many, get_io_context}

-- Four contexts, of which the third is next.
abbrev four_contexts : Pool
four_contexts = record { io_contexts = 0 ∷ 1 ∷ 2 ∷ 3 ∷ []; next_io_context = 2 }

get_many_run : get_many 4 four_contexts ≡ some (2 ∷ 3 ∷ 0 ∷ 1 ∷ [], four_contexts)
unfolding get_many get_io_context
get_many_run = refl
