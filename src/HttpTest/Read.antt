-- ===== src/HttpTest/Read.antt =====
-- What a connection answers to what it reads: `read_request` hands `response_` to `async_read`, so that
-- `request_` stays as the constructor made it.
use boost_learn.Base.{ℕ, ◌≡◌, refl, [], ◌++◌, Bool, true, false, Option, none, some}
use boost_learn.Base.Text.{codes}
use boost_learn.HttpServer.Message.{other, Request, bad_request, Response, Json}
use boost_learn.HttpServer.Handler.{new_response}
use boost_learn.HttpTest.Handler.{process_request, respond}

-- The members that process_request uses.
pub record HttpConnect : Type 0 where
  pub request_ : Request
  pub response_ : Response

-- http::request's constructor: HTTP/1.1, the verb `unknown`, whose text is empty, no target, no body
abbrev pub new_request : Request
new_request = record { version = 11; method = other ""; target = ""; body = [] }

-- http_connect::http_connect
abbrev pub new_connect : HttpConnect
new_connect = record { request_ = new_request; response_ = new_response }

-- The callback of read_request, with what async_read has made of `response_`. The answer that is
-- written, if one is, and the counter.
unfoldable pub request_read :
    Json → ℕ → ℕ → HttpConnect → Bool → Response → Option (Option Response × ℕ)
unfolding process_request
request_read json count now c true read = some (none, count)
request_read json count now c false read = elim (process_request json count now c.request_ read) [
  | none ↦ none
  | some (r, n) ↦ some (some r, n)
]

-- Whatever a peer sends that Boost.Beast takes for a response, a new connection answers 400 for an
-- empty method: the body is what was read, with the report behind it, and the length is 0 all the same.
-- No request is ever counted.
pub read_is_bad_request :
    (json : Json) (count now : ℕ) (read : Response)
    → (r : Response) × (request_read json count now new_connect false read ≡ some (some r, count))
      × (r.result ≡ bad_request)
      × (r.body ≡ read.body ++ codes "Invalid request method ''")
      × (r.content_length ≡ some 0)
unfolding request_read process_request respond
read_is_bad_request json count now read = (_, refl, refl, refl, refl)
