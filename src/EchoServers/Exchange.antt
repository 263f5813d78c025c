-- ===== src/EchoServers/Exchange.antt =====
-- A line of the client at the servers, and what the client reads.
use boost_learn.Base.{
  ℕ, zero, suc, ◌≤◌, ◌≡◌, refl, ap, ◌∙◌, List, [], ◌∷◌, ◌++◌, false, some, arith, length, take,
  take_all, map, All, replicate, length-replicate, length-take,
}
use boost_learn.Memory.{overwrite, memcpy-overwrite, take-overwrite}
use boost_learn.CoroutineService.Socket.{Socket}
use boost_learn.EchoServers.Client.{got, Round}
use boost_learn.EchoServers.SyncServer.{session}
use boost_learn.EchoServers.Coroutine.{echo}
use boost_learn.EchoServers.Same.{Fits, echoed, session-echo}
use boost_learn.EchoServers.TestClient.{sent, strlen, read_reply}

unfoldable pub joined : List (List ℕ) → List ℕ
joined [] = []
joined (bs ∷ rest) = bs ++ joined rest

-- A round that reads `bs` and writes them.
abbrev pub brings : List ℕ → Round
brings bs = record { read = got bs; throws = false }

abbrev pub IsChunk : List ℕ → Type 0
IsChunk bs = length bs ≤ 1024

echoed-brings : (chunks : List (List ℕ)) → echoed (map brings chunks) ≡ chunks
unfolding echoed
echoed-brings [] = refl
echoed-brings (bs ∷ rest) = ap (λ t. bs ∷ t) (echoed-brings rest)

brings-Fits : (chunks : List (List ℕ)) → All IsChunk chunks → All Fits (map brings chunks)
brings-Fits [] h = tt
brings-Fits (bs ∷ rest) (h, hs) = (h, brings-Fits rest hs)

pub strlen_within : (cs : List ℕ) → strlen cs ≤ length cs
unfolding strlen
strlen_within [] = omega arith
strlen_within (zero ∷ cs) = omega arith
strlen_within (suc c ∷ cs) = let ih = strlen_within cs in omega (arith, ih)

length-sent : (request : List ℕ) → length (sent request) ≡ strlen request
unfolding sent
length-sent request = omega (arith, length-take (strlen request) request, strlen_within request)

read_reply-sent :
    (sock : Socket) (request rest : List ℕ) (st : sock.State)
    → strlen request ≤ 1024
    → sock.bytes st ≡ sent request ++ rest
    → (st' : sock.State) × (read_reply sock request st ≡ some (sent request, st'))
      × (sock.bytes st' ≡ rest)
unfolding read_reply
read_reply-sent sock request rest st fits e =
    let n = strlen request in
    let text = sent request in
    let size : length text ≡ n = length-sent request in
    let zeros : List ℕ = replicate 1024 0 in
    let length-zeros : length zeros ≡ 1024 = length-replicate {A = ℕ} 1024 0 in
    let (st', came, left) = sock.async_read_whole st n text rest e size in
    let copied : take n (overwrite zeros 0 text 0 n) ≡ text =
      ap (λ k. take k (overwrite zeros 0 text 0 n)) (omega arith)
      ∙ (take-overwrite zeros 0 text 0 n (omega (arith, length-zeros)) (omega (arith, size))
          ∙ take_all n text (omega (arith, size))) in
    (
      st',
      rw
          (
            came,
            memcpy-overwrite zeros 0 text 0 n (omega (arith, length-zeros)) (omega (arith, size)),
            copied,
          )
          refl,
      left,
    )

-- A line of at most 1024 chars up to its terminator, which comes to a server in pieces of at most 1024
-- bytes, however they are cut. Whether the thread or the coroutine serves the client, from the bytes that
-- the server has written the client reads the line, and no byte behind it.
pub line_echoed :
    (sock : Socket) (request fresh rest : List ℕ) (chunks : List (List ℕ)) (st st₁ : sock.State)
    → strlen request ≤ 1024
    → length fresh ≡ 1024
    → joined chunks ≡ sent request
    → All IsChunk chunks
    → sock.bytes st ≡ joined (session fresh (map brings chunks)).written ++ rest
    → sock.bytes st₁ ≡ joined (echo (map brings chunks)).written ++ rest
    → ((st' : sock.State) × (read_reply sock request st ≡ some (sent request, st'))
        × (sock.bytes st' ≡ rest))
      × ((st' : sock.State) × (read_reply sock request st₁ ≡ some (sent request, st'))
          × (sock.bytes st' ≡ rest))
line_echoed sock request fresh rest chunks st st₁ fits size whole cut by_thread by_coroutine =
    let same = session-echo fresh (map brings chunks) size (brings-Fits chunks cut) in
    let back = echoed-brings chunks in
    (
      read_reply-sent sock request rest st fits
          (by_thread ∙ ap (λ t. joined t ++ rest) (same.0 ∙ back) ∙ ap (λ t. t ++ rest) whole),
      read_reply-sent sock request rest st₁ fits
          (by_coroutine ∙ ap (λ t. joined t ++ rest) (same.1 ∙ back) ∙ ap (λ t. t ++ rest) whole),
    )
