-- ===== src/HttpTest/Accept.antt =====
-- http_server of httptest.cpp, which calls itself at its end.
use boost_learn.Base.{ℕ, zero, suc, ◌≡◌, refl, Option, none, true}
use boost_learn.HttpServer.Accept.{Accepting}

-- On fuel: `none` when that many nested calls have not ended.
unfoldable pub http_server : ℕ → Accepting → Option Accepting
http_server zero a = none
http_server (suc fuel) a = http_server fuel (record a { accepting = true })

-- However deep the stack is, the call does not return.
pub http_server-none : (fuel : ℕ) (a : Accepting) → http_server fuel a ≡ none
unfolding http_server
http_server-none zero a = refl
http_server-none (suc fuel) a = http_server-none fuel (record a { accepting = true })
