-- ===== src/HttpServer/Email.antt =====
-- POST of /email with a body that is no JSON.
use text.Mathlib.Text.{◌==◌}
use boost_learn.Base.{ℕ, ◌≡◌, refl, ap, ◌∙◌, List, [], ◌∷◌, ◌++◌, some, true, false, length, ap₂}
use boost_learn.HttpServer.Message.{post, Request, Response, ok, Json}
use boost_learn.HttpServer.Handler.{
  process_request, respond, create_post_response, accept_email, report_error, set_member,
  with_count, with_length, new_response,
}
use boost_learn.HttpServer.Status.{create_email}

module _ (json : Json) where
  -- The response to a POST before its body is made.
  abbrev begun : Request → Response
  begun q = record new_response {
    version = q.version;
    keep_alive = false;
    result = ok;
    server = some "Beast";
  }

  post_eq :
      (count now : ℕ) (q : Request)
      → q.method ≡ post
      → process_request json count now q
        ≡ with_length (with_count count (create_post_response json q (begun q)))
  unfolding process_request respond
  post_eq count now q m =
      ap
        (λ v. with_length (
          respond json count now v q
            (record new_response { version = q.version; keep_alive = false })))
        m

  -- The two documents that the body holds.
  abbrev pub failure : List ℕ
  failure = json.to_styled_string (("error", json.int 1001) ∷ [])

  abbrev pub success : json.Value → List ℕ
  success email = json.to_styled_string (
      ("error", json.int 0)
      ∷ ("email", email)
      ∷ ("msg", json.text "receive email post success")
      ∷ [])

  -- A body that jsoncpp refuses, where the root that is left has a member "email" to be looked up, is
  -- answered with the status 200 and a body of two documents, the report of the error and behind it
  -- the one that says success.
  pub process_request-twice :
      (count now : ℕ) (q : Request) (email : json.Value)
      → q.method ≡ post
      → (q.target == "/email") ≡ true
      → (json.parse q.body).0 ≡ false
      → json.member (json.parse q.body).1 "email" ≡ some email
      → (r : Response) × (process_request json count now q ≡ some (r, count))
        × (r.result ≡ ok)
        × (r.body ≡ failure ++ success email)
  unfolding accept_email report_error set_member
  process_request-twice count now q email m t refused e =
      let typed = record (begun q) { content_type = some "text/json" } in
      let both = failure ++ success email in
      (
        record typed { body = both; content_length = some (length both) },
        post_eq count now q m
            ∙ (ap (λ o. with_length (with_count count o)) (create_email json q (begun q) t)
                ∙ ap₂
                    (λ b o. with_length (
                      with_count count (
                        accept_email json (report_error json b [] typed).0
                          (report_error json b [] typed).1 o)))
                    refused e),
        refl,
        refl,
      )
