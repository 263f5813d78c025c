-- ===== src/HttpServer/Count.antt =====
-- Requests one after another.
use boost_learn.Base.{
  ℕ, ◌+◌, ◌≡◌, refl, ap, ap₂, List, [], ◌∷◌, Option, none, some, arith, map, All,
}
use boost_learn.HttpServer.Message.{Request, Response, Status, Json}
use boost_learn.HttpServer.Handler.{process_request}
use boost_learn.HttpServer.Status.{status_of, counted, IsReadable, process_request_lem}

infixl 5 ◌>>=◌
abbrev ◌>>=◌ {ℓ κ} : {A : Type ℓ} {B : Type κ} → Option A → (A → Option B) → Option B
none >>= f = none
some a >>= f = f a

-- The requests in the order in which they are processed, each with the time of its processing: the
-- responses, and the counter behind them.
unfoldable pub serve_all : Json → ℕ → List (ℕ × Request) → Option (List Response × ℕ)
serve_all json count [] = some ([], count)
serve_all json count ((now, q) ∷ qs) = do
  first ← process_request json count now q
  rest ← serve_all json first.1 qs
  some (first.0 ∷ rest.0, rest.1)

abbrev pub all_counted : List (ℕ × Request) → ℕ
all_counted [] = 0
all_counted ((now, q) ∷ qs) = counted q.method q.target + all_counted qs

abbrev pub status_of_request : ℕ × Request → Status
status_of_request t = status_of t.1.method t.1.target

-- However many requests come, each is answered with the status of the table, in order, and the
-- counter has gone up by the number of GETs of /count, whatever came between them.
pub serve_all_lem :
    (json : Json) (count : ℕ) (qs : List (ℕ × Request))
    → All (λ (t : ℕ × Request). IsReadable json t.1.method t.1) qs
    → (rs : List Response) × (serve_all json count qs ≡ some (rs, count + all_counted qs))
      × (map (λ r. r.result) rs ≡ map status_of_request qs)
unfolding serve_all
serve_all_lem json count [] h = ([], ap (λ n. some ([], n)) (omega arith), refl)
serve_all_lem json count ((now, q) ∷ qs) (h, hs) =
    let (r, n, made, a) = process_request_lem json count now q h in
    let (rs, rest, same) = serve_all_lem json n qs hs in
    (
      r ∷ rs,
      rw (made, rest) (ap (λ m. some (r ∷ rs, m)) (omega (arith, a.tally))),
      ap₂ (λ x xs. x ∷ xs) a.result same,
    )
