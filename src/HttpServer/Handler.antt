-- ===== src/HttpServer/Handler.antt =====
-- http_connect::process_request and what it calls. `count` is the static counter of
-- my_program_state::request_count, `now` what `std::time` says. An exception, which nothing catches
-- before `main`, is `none`.
use Prim.Native.String.{String}
use text.Mathlib.Text.{◌==◌}
use boost_learn.Base.{
  ℕ, ◌+◌, List, [], ◌∷◌, ◌++◌, Option, none, some, Bool, true, false, if◌then◌else◌, length,
}
use boost_learn.Base.Text.{codes}
use boost_learn.HttpServer.Message.{
  Verb, get, post, other, Request, ok, bad_request, not_found, Response, Json,
}

-- http::response's constructor
abbrev pub new_response : Response
new_response = record {
  version = 11;
  keep_alive = true;
  result = ok;
  server = none;
  content_type = none;
  body = [];
  content_length = none;
}

-- beast::ostream(response_.body()) << bytes
abbrev pub stream : Response → List ℕ → Response
stream r bytes = record r { body = r.body ++ bytes }

unfoldable pub file_not_found : Response → Response
file_not_found r =
    stream (record r { result = not_found; content_type = some "text/plain" })
      (codes "File not found\r\n")

-- root[key] = value
unfoldable pub set_member {ℓ} : {V : Type ℓ} → List (String × V) → String → V → List (String × V)
set_member [] key value = (key, value) ∷ []
set_member ((k, v) ∷ rest) key value =
    let later = set_member rest key value in
    if k == key then (key, value) ∷ rest else (k, v) ∷ later

abbrev pub with_count : ℕ → Option Response → Option (Response × ℕ)
with_count count none = none
with_count count (some r) = some (r, count)

abbrev pub with_length : Option (Response × ℕ) → Option (Response × ℕ)
with_length none = none
with_length (some (r, count)) = some (record r { content_length = some (length r.body) }, count)

module _ (json : Json) where
  abbrev pub count_page : ℕ → List ℕ
  count_page n =
      codes "<html>\n<head><title>Request count</title></head>\n<body>\n<h1>Request count</h1>\n"
      ++ (codes "<p>There have been "
          ++ (json.decimal n ++ codes " requests so far.</p>\n</body>\n</html>\n"))

  abbrev pub time_page : ℕ → List ℕ
  time_page now =
      codes "<html>\n<head><title>Request time</title></head>\n<body>\n<h1>Current time</h1>\n"
      ++ (codes "<p>The current time is "
          ++ (json.decimal now ++ codes " seconds since the epoch</p>\n</body>\n</html>\n"))

  -- http_connect::create_response, with the counter behind it
  unfoldable pub create_response : ℕ → ℕ → Request → Response → Response × ℕ
  unfolding file_not_found
  create_response count now q r =
      if q.target == "/count"
      then (
        stream (record r { content_type = some "text/html" }) (count_page (count + 1)),
        count + 1,
      )
      else (if q.target == "/time"
          then (stream (record r { content_type = some "text/html" }) (time_page now), count)
          else (file_not_found r, count))

  -- The branch for a body that jsoncpp refuses: the root and the response behind it.
  unfoldable pub report_error :
      Bool → List (String × json.Value) → Response → List (String × json.Value) × Response
  unfolding set_member
  report_error true root r = (root, r)
  report_error false root r =
      let failed = set_member root "error" (json.int 1001) in
      (failed, stream r (json.to_styled_string failed))

  -- The members of the answer.
  unfoldable pub accept_email :
      List (String × json.Value) → Response → Option json.Value → Option Response
  unfolding set_member
  accept_email root r none = none
  accept_email root r (some email) =
      let root' =
        set_member (set_member (set_member root "error" (json.int 0)) "email" email) "msg"
          (json.text "receive email post success") in
      some (stream r (json.to_styled_string root'))

  -- http_connect::create_post_response
  unfoldable pub create_post_response : Request → Response → Option Response
  unfolding file_not_found report_error accept_email
  create_post_response q r =
      if q.target == "/email"
      then (let (parse_success, src_root) = json.parse q.body in
          let typed = record r { content_type = some "text/json" } in
          let (root, r') = report_error parse_success [] typed in
          accept_email root r' (json.member src_root "email"))
      else some (file_not_found r)

  -- The switch of http_connect::process_request.
  unfoldable pub respond : ℕ → ℕ → Verb → Request → Response → Option (Response × ℕ)
  unfolding create_response create_post_response
  respond count now get q r =
      some (create_response count now q (record r { result = ok; server = some "Beast" }))
  respond count now post q r =
      with_count count (create_post_response q (record r { result = ok; server = some "Beast" }))
  respond count now (other method) q r = some (
    stream (record r { content_type = some "text/plain"; result = bad_request })
        (codes "Invalid request method '" ++ (codes method ++ codes "'")),
    count,
  )

  -- http_connect::process_request, and the length that write_response sets
  unfoldable pub process_request : ℕ → ℕ → Request → Option (Response × ℕ)
  unfolding respond
  process_request count now q = with_length (
      respond count now q.method q
        (record new_response { version = q.version; keep_alive = false }))
