-- ===== src/Platform.antt =====
-- What the sources take from the machine and from Boost.Asio: the layout of a `short` in memory,
-- `socket_ops::host_to_network_short` and its inverse, and what `new char[n]` holds.
-- A `short` is its 16-bit pattern, a number below 65536.
pub mod LittleEndian
pub mod BigEndian
use boost_learn.Base.{ℕ, ◌+◌, ◌*◌, ◌/◌, ◌%◌, ◌<◌, ◌≡◌, List, Bool, not, ◌&&◌, ltb, leb, length}

-- Conversion of an integer to `short`.
abbrev pub to_short : ℕ → ℕ
to_short n = n % 65536

-- The sign of a `short`.
abbrev pub is_negative : ℕ → Bool
is_negative v = leb 32768 v

-- v > k, for a `short` v and a constant k that is not negative
abbrev pub exceeds : ℕ → ℕ → Bool
exceeds v k = not (is_negative v) && ltb k v

abbrev pub IsByte : ℕ → Type 0
IsByte b = b < 256

abbrev pub IsShort : ℕ → Type 0
IsShort v = v < 65536

pub record Platform : Type 0 where
  -- the bytes of a `short`, at its address and one above
  pub store_short : ℕ → ℕ × ℕ
  pub load_short : ℕ → ℕ → ℕ
  pub host_to_network_short : ℕ → ℕ
  pub network_to_host_short : ℕ → ℕ
  -- the indeterminate contents of a new array
  pub new_char : ℕ → List ℕ
  pub length-new_char : (n : ℕ) → length (new_char n) ≡ n
  -- network order puts the high byte first
  pub store_network :
      (v : ℕ) → IsShort v → store_short (host_to_network_short v) ≡ (v / 256, v % 256)
  pub load_network :
      (a b : ℕ) → IsByte a → IsByte b → network_to_host_short (load_short a b) ≡ a * 256 + b
