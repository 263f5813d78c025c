-- ===== src/HttpTest/Tests.antt =====
-- The theorems on the program at concrete inputs, with a jsoncpp that takes every text for null.
use boost_learn.Base.{ℕ, ◌≡◌, [], ◌∷◌, ◌++◌, Option, some, true, false, none}
use boost_learn.Base.Text.{codes}
use boost_learn.HttpServer.Message.{bad_request, Response, Json}
use boost_learn.HttpServer.Handler.{new_response}
use boost_learn.HttpTest.Read.{new_connect, request_read, read_is_bad_request}

abbrev json : Json
json = record {
  Value = Option ℕ;
  int = λ n. some n;
  text = λ t. none;
  parse = λ bs. (true, none);
  member = λ v key. some none;
  to_styled_string = λ ms. b'{' ∷ b'}' ∷ [];
  decimal = λ n. n ∷ [];
}

-- A response with the body "!".
abbrev read : Response
read = record new_response { body = b'!' ∷ [] }

read_is_bad_request_example :
    (r : Response) × (request_read json 4 0 new_connect false read ≡ some (some r, 4))
    × (r.result ≡ bad_request)
    × (r.body ≡ read.body ++ codes "Invalid request method ''")
    × (r.content_length ≡ some 0)
read_is_bad_request_example = read_is_bad_request json 4 0 read
