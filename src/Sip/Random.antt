-- ===== src/Sip/Random.antt =====
-- src/sip/random.cpp. The generators are the standard library's and the system's: a `Randomness`
-- gives the n-th draw of each.
use ketphone.Base.{ℕ, zero, suc, ◌+◌, ◌/◌, ◌%◌, ◌^◌, Option, [], ◌∷◌, ◌++◌, get_or, Bytes, codes}

pub record Randomness : Type 0 where
  -- The 32-bit numbers of the generator, in order.
  pub generator : ℕ → ℕ
  -- What the system's secure source fills a buffer of a length with, at a draw; nothing if it fails.
  pub secure : ℕ → ℕ → Option Bytes

-- kHex.
abbrev pub hex_digits : Bytes
hex_digits = codes "0123456789abcdef"

unfoldable pub hex_byte : ℕ → Bytes
hex_byte byte = get_or hex_digits (byte / 16) 0 ∷ get_or hex_digits (byte % 16) 0 ∷ []

-- A draw takes the place that it reads, and says how many places it took.
pub random_u32 : Randomness → ℕ → ℕ
random_u32 r at = r.generator at % 2 ^ 32

hex_from : Randomness → ℕ → ℕ → Bytes
unfolding hex_byte
hex_from r at zero = []
hex_from r at (suc bytes) = hex_byte (r.generator at % 256) ++ hex_from r (at + 1) bytes

pub random_hex : Randomness → ℕ → ℕ → Bytes
unfolding hex_from
random_hex r at bytes = hex_from r at bytes

pub secure_random : Randomness → ℕ → ℕ → Option Bytes
secure_random r at size = r.secure at size
