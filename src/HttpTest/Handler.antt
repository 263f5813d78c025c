-- ===== src/HttpTest/Handler.antt =====
-- http_connect::process_request and what it calls, with the requests, the pages and the counter of
-- HttpServer. The texts for a target that is not there, the order of the members of an answer, and the
-- length that is set are this program's own.
use Prim.Native.String.{String}
use text.Mathlib.Text.{◌==◌}
use boost_learn.Base.{ℕ, ◌+◌, List, [], ◌++◌, Option, none, some, false, if◌then◌else◌, length}
use boost_learn.Base.Text.{codes}
use boost_learn.HttpServer.Message.{
  Verb, get, post, other, Request, ok, bad_request, not_found, Response, Json,
}
use boost_learn.HttpServer.Handler.{
  stream, set_member, with_count, count_page, time_page, report_error,
}

-- The two branches for a target that is not there, which differ in the end of the line.
unfoldable pub file_not_found : String → Response → Response
file_not_found text r =
    stream (record r { result = not_found; content_type = some "text/plain" }) (codes text)

-- response_.content_length(request_.body().size())
abbrev pub with_request_length : Request → Option (Response × ℕ) → Option (Response × ℕ)
with_request_length q none = none
with_request_length q (some (r, count)) =
    some (record r { content_length = some (length q.body) }, count)

module _ (json : Json) where
  -- http_connect::create_response, with the counter behind it
  unfoldable pub create_response : ℕ → ℕ → Request → Response → Response × ℕ
  unfolding file_not_found
  create_response count now q r =
      if q.target == "/count"
      then (
        stream (record r { content_type = some "text/html" }) (count_page json (count + 1)),
        count + 1,
      )
      else (if q.target == "/time"
          then (stream (record r { content_type = some "text/html" }) (time_page json now), count)
          else (file_not_found "File is not found\n" r, count))

  -- The members of the answer; a look-up that throws is `none`.
  unfoldable pub accept_email :
      List (String × json.Value) → Response → Option json.Value → Option Response
  unfolding set_member
  accept_email root r none = none
  accept_email root r (some email) =
      let root' =
        set_member (set_member (set_member root "email" email) "error" (json.int 0)) "msg"
          (json.text "receive email post success") in
      some (stream r (json.to_styled_string root'))

  -- http_connect::create_post_response
  unfoldable pub create_post_response : Request → Response → Option Response
  unfolding file_not_found report_error accept_email
  create_post_response q r =
      if q.target == "/email"
      then (let (parse_success, src_root) = json.parse q.body in
          let typed = record r { content_type = some "text/json" } in
          let (root, r') = report_error json parse_success [] typed in
          accept_email root r' (json.member src_root "email"))
      else some (file_not_found "File is not found\r\n" r)

  -- The switch of http_connect::process_request.
  unfoldable pub respond : ℕ → ℕ → Verb → Request → Response → Option (Response × ℕ)
  unfolding create_response create_post_response
  respond count now get q r =
      some (create_response count now q (record r { result = ok; server = some "Beast" }))
  respond count now post q r =
      with_count count (create_post_response q (record r { result = ok; server = some "Beast" }))
  respond count now (other method) q r = some (
    stream (record r { content_type = some "text/plain"; result = bad_request })
        (codes "Invalid request method '" ++ (codes method ++ codes "'")),
    count,
  )

  -- http_connect::process_request, and the length that write_response sets. `r` is what response_
  -- holds before.
  unfoldable pub process_request : ℕ → ℕ → Request → Response → Option (Response × ℕ)
  unfolding respond
  process_request count now q r =
      with_request_length q
        (respond count now q.method q (record r { version = q.version; keep_alive = false }))
