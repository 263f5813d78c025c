-- ===== src/HttpServer/Tests.antt =====
-- The theorems on the HTTP server at concrete inputs. The small jsoncpp here refuses the empty text,
-- leaving null, takes a text of one char for a number, and any other for an object without members.
use Prim.Native.String.{String}
use boost_learn.Base.{ℕ, ◌≡◌, refl, List, [], ◌∷◌, ◌++◌, Option, none, some, Bool, true, false}
use boost_learn.HttpServer.Message.{Verb, get, post, Request, Response, ok, Json}
use boost_learn.HttpServer.Handler.{process_request}
use boost_learn.HttpServer.Status.{Answers, process_request_lem}
use boost_learn.HttpServer.Email.{failure, success, process_request-twice}
use boost_learn.HttpServer.Connect.{Connect, start, request_read, response_written}
use boost_learn.HttpServer.Deadline.{Reach, begin, next, reads, writes, IsGuarded, Reach-IsGuarded}

data Value : Type 0 where
  null : Value
  int : ℕ → Value
  word : String → Value
  object : Value

abbrev parse : List ℕ → Bool × Value
parse [] = (false, null)
parse (c ∷ []) = (true, int c)
parse (c ∷ d ∷ rest) = (true, object)

abbrev member : Value → String → Option Value
member null key = some null
member (int n) key = none
member (word t) key = none
member object key = some null

abbrev json : Json
json = record {
  Value = Value;
  int = int;
  text = word;
  parse = parse;
  member = member;
  to_styled_string = λ ms. [];
  decimal = λ n. n ∷ [];
}

abbrev request : Verb → String → List ℕ → Request
request method target body = record { version = 11; method = method; target = target; body = body }

process_request_lem_example :
    (r : Response) × (n : ℕ) × (process_request json 4 0 (request get "/count" []) ≡ some (r, n))
    × Answers (request get "/count" []) 4 r n
process_request_lem_example =
    process_request_lem json 4 0 (request get "/count" []) (λ e h. absurd (cc))

process_request-twice_example :
    (r : Response) × (process_request json 3 0 (request post "/email" []) ≡ some (r, 3))
    × (r.result ≡ ok)
    × (r.body ≡ failure json ++ success json null)
process_request-twice_example =
    process_request-twice json 3 0 (request post "/email" []) null refl refl refl refl

-- The shutdown fails.
abbrev answered : Connect
answered = response_written (request_read start false) true

answered_reached : Reach answered
unfolding start request_read
answered_reached = next (next begin (reads false refl)) (writes true refl)

Reach-IsGuarded_example : IsGuarded answered
Reach-IsGuarded_example = Reach-IsGuarded answered_reached
