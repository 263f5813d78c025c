-- ===== src/HttpServer/Status.antt =====
-- Which request is answered how.
use Prim.Native.String.{String}
use text.Mathlib.Text.{◌==◌}
use boost_learn.Base.{
  ℕ, ◌+◌, ◌≡◌, refl, ap, ◌∙◌, [], Option, some, Bool, true, false, if◌then◌else◌, length,
  Bool-cases, inl, inr, arith,
}
use boost_learn.HttpServer.Message.{
  Verb, get, post, other, Request, Status, ok, bad_request, not_found, Response, Json,
}
use boost_learn.HttpServer.Handler.{
  process_request, respond, create_response, create_post_response, file_not_found, new_response,
  accept_email, report_error, with_count, with_length,
}

-- The table of what the server offers.
abbrev pub status_of : Verb → String → Status
status_of get target =
    if target == "/count" then ok else (if target == "/time" then ok else not_found)
status_of post target = if target == "/email" then ok else not_found
status_of (other method) target = bad_request

-- Only a GET of /count is counted.
abbrev pub counted : Verb → String → ℕ
counted get target = if target == "/count" then 1 else 0
counted post target = 0
counted (other method) target = 0

-- Where the member "email" of the body is asked for, it can be looked up.
abbrev pub IsReadable : Json → Verb → Request → Type 0
IsReadable json v q =
    v ≡ post
    → (q.target == "/email") ≡ true
    → (email : json.Value) × (json.member (json.parse q.body).1 "email" ≡ some email)

-- What holds of every answer.
pub record Answers (q : Request) (count : ℕ) (r : Response) (count' : ℕ) : Type 0 where
  pub result : r.result ≡ status_of q.method q.target
  pub version : r.version ≡ q.version
  pub closing : r.keep_alive ≡ false
  pub sized : r.content_length ≡ some (length r.body)
  pub tally : count' ≡ count + counted q.method q.target

module _ (json : Json) where
  -- The answer before its length is set.
  abbrev Sent : ℕ → Request → Verb → Option (Response × ℕ) → Type 0
  Sent count q v o =
      (r : Response) × (n : ℕ) × (o ≡ some (r, n))
      × (r.result ≡ status_of v q.target)
      × (r.version ≡ q.version)
      × (r.keep_alive ≡ false)
      × (n ≡ count + counted v q.target)

  get_sent :
      (count now : ℕ) (q : Request) (r : Response)
      → r.version ≡ q.version
      → r.keep_alive ≡ false
      → Sent count q get (respond json count now get q r)
  unfolding respond create_response file_not_found
  get_sent count now q r hv hk = elim (Bool-cases (q.target == "/count")) [
    | inl c ↦ rw c (_, _, refl, refl, hv, hk, refl)
    | inr nc ↦ elim (Bool-cases (q.target == "/time")) [
      | inl t ↦ rw (nc, t) (_, _, refl, refl, hv, hk, omega arith)
      | inr nt ↦ rw (nc, nt) (_, _, refl, refl, hv, hk, omega arith)
    ]
  ]

  -- The answer to an email.
  email_sent :
      (r : Response) (b : Bool) (o : Option json.Value) (email : json.Value)
      → o ≡ some email
      → (r' : Response) × (accept_email json
            (report_error json b [] r).0
            (report_error json b [] r).1
            o
          ≡ some r')
        × (r'.result ≡ r.result)
        × (r'.version ≡ r.version)
        × (r'.keep_alive ≡ r.keep_alive)
  unfolding accept_email report_error
  email_sent r true o email e = (_, ap (accept_email json [] r) e, refl, refl, refl)
  email_sent r false o email e = (
    _,
    ap (accept_email json (report_error json false [] r).0 (report_error json false [] r).1) e,
    refl,
    refl,
    refl,
  )

  pub create_email :
      (q : Request) (r : Response)
      → (q.target == "/email") ≡ true
      → create_post_response json q r ≡ (
          let typed = record r { content_type = some "text/json" } in
          accept_email json
            (report_error json (json.parse q.body).0 [] typed).0
            (report_error json (json.parse q.body).0 [] typed).1
            (json.member (json.parse q.body).1 "email"))
  unfolding create_post_response
  create_email q r c = rw c

  create_missing :
      (q : Request) (r : Response)
      → (q.target == "/email") ≡ false
      → create_post_response json q r ≡ some (file_not_found r)
  unfolding create_post_response
  create_missing q r nc = rw nc

  post_sent :
      (count now : ℕ) (q : Request) (r : Response)
      → IsReadable json post q
      → r.version ≡ q.version
      → r.keep_alive ≡ false
      → Sent count q post (respond json count now post q r)
  unfolding respond file_not_found
  post_sent count now q r h hv hk = elim (Bool-cases (q.target == "/email")) [
    | inl c ↦
        let (email, e) = h refl c in
        let typed = record r {
          result = ok;
          server = some "Beast";
          content_type = some "text/json";
        } in
        let (r', made, hr, hv', hk') =
          email_sent typed (json.parse q.body).0 (json.member (json.parse q.body).1 "email") email
            e in
        (
          r',
          count,
          ap (with_count count)
              (create_email q (record r { result = ok; server = some "Beast" }) c ∙ made),
          hr ∙ rw c,
          hv' ∙ hv,
          hk' ∙ hk,
          omega arith,
        )
    | inr nc ↦
        let started = record r { result = ok; server = some "Beast" } in
        (
          file_not_found started,
          count,
          ap (with_count count) (create_missing q started nc),
          rw nc,
          hv,
          hk,
          omega arith,
        )
  ]

  sent :
      (count now : ℕ) (q : Request) (v : Verb) (r : Response)
      → IsReadable json v q
      → r.version ≡ q.version
      → r.keep_alive ≡ false
      → Sent count q v (respond json count now v q r)
  unfolding respond
  sent count now q get r h hv hk = get_sent count now q r hv hk
  sent count now q post r h hv hk = post_sent count now q r h hv hk
  sent count now q (other method) r h hv hk = (_, _, refl, refl, hv, hk, omega arith)

  -- Every request is answered, a POST of /email if the member "email" of its body can be looked up.
  -- The status is that of
  -- the table: 200 for GET of /count and /time and for POST of /email, 404 for another target, 400 for
  -- another method. The answer has the request's version, closes the connection, and has the length
  -- of its body; and the counter goes up by one just for GET of /count.
  pub process_request_lem :
      (count now : ℕ) (q : Request)
      → IsReadable json q.method q
      → (r : Response) × (n : ℕ) × (process_request json count now q ≡ some (r, n))
        × Answers q count r n
  unfolding process_request
  process_request_lem count now q h =
      let (r, n, made, hr, hv, hk, hn) =
        sent count now q q.method (record new_response { version = q.version; keep_alive = false })
          h refl refl in
      (
        record r { content_length = some (length r.body) },
        n,
        ap with_length made,
        record { result = hr; version = hv; closing = hk; sized = refl; tally = hn },
      )
