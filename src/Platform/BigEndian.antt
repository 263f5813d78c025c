-- ===== src/Platform/BigEndian.antt =====
-- A machine in network order.
use boost_learn.Base.{◌+◌, ◌*◌, ◌/◌, ◌%◌, ◌≡◌, ℕ, refl, replicate, length-replicate}
use boost_learn.Platform.{Platform, IsByte, IsShort}

pub store_lem : (v : ℕ) → IsShort v → ◌≡◌ {A = ℕ × ℕ} (v / 256, v % 256) (v / 256, v % 256)
store_lem v h = refl

pub load_lem : (a b : ℕ) → IsByte a → IsByte b → a * 256 + b ≡ a * 256 + b
load_lem a b ha hb = refl

abbrev pub platform : Platform
platform = record {
  store_short = λ v. (v / 256, v % 256);
  load_short = λ a b. a * 256 + b;
  host_to_network_short = λ v. v;
  network_to_host_short = λ v. v;
  new_char = λ n. replicate n 0;
  length-new_char = λ n. length-replicate n 0;
  store_network = store_lem;
  load_network = load_lem;
}
