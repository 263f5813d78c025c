-- ===== src/HttpTest/Status.antt =====
-- The same answers as those of beast_http_server, but for the length.
use text.Mathlib.Text.{◌==◌}
use boost_learn.Base.{
  ℕ, ◌+◌, ◌≡◌, refl, sym, ap, ◌∙◌, [], Option, some, Bool, true, false, length, Bool-cases, inl,
  inr, arith,
}
use boost_learn.HttpServer.Message.{Verb, get, post, other, Request, ok, Response, Json}
use boost_learn.HttpServer.Handler.{report_error, with_count, new_response}
use boost_learn.HttpServer.Status.{status_of, counted, IsReadable, process_request_lem}
use boost_learn.HttpTest.Handler.{
  process_request, respond, create_response, create_post_response, file_not_found, accept_email,
  with_request_length,
}

-- The answer before its length is set.
record IsAnswer (count : ℕ) (q : Request) (v : Verb) (r : Response) (n : ℕ) : Type 0 where
  result : r.result ≡ status_of v q.target
  version : r.version ≡ q.version
  closing : r.keep_alive ≡ false
  tally : n ≡ count + counted v q.target

module _ (json : Json) where
  abbrev Sent : ℕ → Request → Verb → Option (Response × ℕ) → Type 0
  Sent count q v o = (r : Response) × (n : ℕ) × (o ≡ some (r, n)) × IsAnswer count q v r n

  get_sent :
      (count now : ℕ) (q : Request) (r : Response)
      → r.version ≡ q.version
      → r.keep_alive ≡ false
      → Sent count q get (respond json count now get q r)
  unfolding respond create_response file_not_found
  get_sent count now q r hv hk = elim (Bool-cases (q.target == "/count")) [
    | inl c ↦ rw c (_, _, refl, record { result = rw c; version = hv; closing = hk; tally = rw c })
    | inr nc ↦ elim (Bool-cases (q.target == "/time")) [
      | inl t ↦
          rw (nc, t)
            (
              _,
              _,
              refl,
              record {
                result = rw (nc, t);
                version = hv;
                closing = hk;
                tally = rw nc (omega arith);
              },
            )
      | inr nt ↦
          rw (nc, nt)
            (
              _,
              _,
              refl,
              record {
                result = rw (nc, nt);
                version = hv;
                closing = hk;
                tally = rw nc (omega arith);
              },
            )
    ]
  ]

  email_sent :
      (r : Response) (b : Bool) (o : Option json.Value) (email : json.Value)
      → o ≡ some email
      → (r' : Response) × (accept_email json
            (report_error json b [] r).0
            (report_error json b [] r).1
            o
          ≡ some r')
        × (r'.result ≡ r.result)
        × (r'.version ≡ r.version)
        × (r'.keep_alive ≡ r.keep_alive)
  unfolding accept_email report_error
  email_sent r true o email e = (_, ap (accept_email json [] r) e, refl, refl, refl)
  email_sent r false o email e = (
    _,
    ap (accept_email json (report_error json false [] r).0 (report_error json false [] r).1) e,
    refl,
    refl,
    refl,
  )

  create_email :
      (q : Request) (r : Response)
      → (q.target == "/email") ≡ true
      → create_post_response json q r ≡ (
          let typed = record r { content_type = some "text/json" } in
          accept_email json
            (report_error json (json.parse q.body).0 [] typed).0
            (report_error json (json.parse q.body).0 [] typed).1
            (json.member (json.parse q.body).1 "email"))
  unfolding create_post_response
  create_email q r c = rw c

  create_missing :
      (q : Request) (r : Response)
      → (q.target == "/email") ≡ false
      → create_post_response json q r ≡ some (file_not_found "File is not found\r\n" r)
  unfolding create_post_response
  create_missing q r nc = rw nc

  post_sent :
      (count now : ℕ) (q : Request) (r : Response)
      → IsReadable json post q
      → r.version ≡ q.version
      → r.keep_alive ≡ false
      → Sent count q post (respond json count now post q r)
  unfolding respond file_not_found
  post_sent count now q r h hv hk =
      let started = record r { result = ok; server = some "Beast" } in
      elim (Bool-cases (q.target == "/email")) [
        | inl c ↦
            let (email, e) = h refl c in
            let (r', made, hr, hv', hk') =
              email_sent (record started { content_type = some "text/json" }) (json.parse q.body).0
                (json.member (json.parse q.body).1 "email") email e in
            (
              r',
              count,
              ap (with_count count) (create_email q started c ∙ made),
              record {
                result = hr ∙ rw c;
                version = hv' ∙ hv;
                closing = hk' ∙ hk;
                tally = omega arith;
              },
            )
        | inr nc ↦ (
          file_not_found "File is not found\r\n" started,
          count,
          ap (with_count count) (create_missing q started nc),
          record { result = rw nc; version = hv; closing = hk; tally = omega arith },
        )
      ]

  sent :
      (count now : ℕ) (q : Request) (v : Verb) (r : Response)
      → IsReadable json v q
      → r.version ≡ q.version
      → r.keep_alive ≡ false
      → Sent count q v (respond json count now v q r)
  unfolding respond
  sent count now q get r h hv hk = get_sent count now q r hv hk
  sent count now q post r h hv hk = post_sent count now q r h hv hk
  sent count now q (other method) r h hv hk =
      (_, _, refl, record { result = refl; version = hv; closing = hk; tally = omega arith })

  -- What the two programs answer to the same request.
  record Alike (count now : ℕ) (q : Request) (r : Response) : Type 0 where
    pub mine : Response
    pub theirs : Response
    pub after : ℕ
    pub answers : process_request json count now q r ≡ some (mine, after)
    pub answers_too :
        boost_learn.HttpServer.Handler.process_request json count now q ≡ some (theirs, after)
    pub result : mine.result ≡ theirs.result
    pub version : mine.version ≡ theirs.version
    pub closing : mine.keep_alive ≡ theirs.keep_alive
    pub size_of_request : mine.content_length ≡ some (length q.body)
    pub size_of_answer : theirs.content_length ≡ some (length theirs.body)

  -- `process_request` by itself, on whatever request (a POST of /email if the member "email" of its body can be
  -- looked up), although the program only ever calls it on the empty one: whatever the
  -- response holds before, it answers with the status, the version, the end of
  -- the connection and the counter of beast_http_server. The length that it sets is that of the
  -- request's body, where the other sets the length of the answer's.
  process_request-Alike :
      (count now : ℕ) (q : Request) (r : Response)
      → IsReadable json q.method q
      → Alike count now q r
  unfolding process_request
  process_request-Alike count now q r h =
      let (mine, after, made, a) =
        sent count now q q.method (record r { version = q.version; keep_alive = false }) h refl
          refl in
      let (theirs, after', made', b) = process_request_lem json count now q h in
      let same : after' ≡ after = b.tally ∙ sym a.tally in
      record {
        mine = record mine { content_length = some (length q.body) };
        theirs = theirs;
        after = after;
        answers = ap (with_request_length q) made;
        answers_too = made' ∙ ap (λ n. some (theirs, n)) same;
        result = a.result ∙ sym b.result;
        version = a.version ∙ sym b.version;
        closing = a.closing ∙ sym b.closing;
        size_of_request = refl;
        size_of_answer = b.sized;
      }
