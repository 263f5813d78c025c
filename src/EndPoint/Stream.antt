-- ===== src/EndPoint/Stream.antt =====
-- What endPoint takes from `asio::ip::tcp::socket`. Each call comes back, or throws a system_error with
-- a code.
pub mod Trickle
use boost_learn.Base.{ℕ, ◌≤◌, ◌<◌, ◌≡◌, List, ◌++◌, length, take}

pub data Result {ℓ} (A : Type ℓ) : Type ℓ where
  threw : ℕ → Result A
  done : A → Result A

-- `written` are the bytes that the peer has been sent, `bytes` those that it has sent and that have not
-- been read.
pub record Stream : Type 1 where
  pub State : Type 0
  pub written : State → List ℕ
  pub bytes : State → List ℕ
  pub write_some : State → List ℕ → Result (ℕ × State)
  pub read_some : State → ℕ → Result (List ℕ × State)
  -- A part of the buffer that is not empty is written, from its start.
  pub write_some-progress :
      (st st' : State) (bs : List ℕ) (k : ℕ)
      → 0 < length bs
      → write_some st bs ≡ done (k, st')
      → (0 < k) × (k ≤ length bs) × (written st' ≡ written st ++ take k bs)
  -- At least one byte is read, and no more than are asked for.
  pub read_some-progress :
      (st st' : State) (n : ℕ) (got : List ℕ)
      → 0 < n
      → read_some st n ≡ done (got, st')
      → (0 < length got) × (length got ≤ n) × (bytes st ≡ got ++ bytes st')
