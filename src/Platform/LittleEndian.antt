-- ===== src/Platform/LittleEndian.antt =====
-- A machine that stores the low byte first, so that the conversion swaps the bytes.
use boost_learn.Base.{◌+◌, ◌*◌, ◌/◌, ◌%◌, ◌≡◌, ℕ, arith, replicate, length-replicate}
use boost_learn.Platform.{Platform, IsByte, IsShort}

abbrev pub swap : ℕ → ℕ
swap v = v % 256 * 256 + v / 256

pub store_swap :
    (v : ℕ) → IsShort v → ◌≡◌ {A = ℕ × ℕ} (swap v % 256, swap v / 256) (v / 256, v % 256)
store_swap v h = ground arith

pub load_swap : (a b : ℕ) → IsByte a → IsByte b → swap (a + b * 256) ≡ a * 256 + b
load_swap a b ha hb = omega arith

abbrev pub platform : Platform
platform = record {
  store_short = λ v. (v % 256, v / 256);
  load_short = λ a b. a + b * 256;
  host_to_network_short = swap;
  network_to_host_short = swap;
  new_char = λ n. replicate n 205;
  length-new_char = λ n. length-replicate n 205;
  store_network = store_swap;
  load_network = load_swap;
}
