-- ===== src/Media/G711/RoundTrip.antt =====
-- Decoding a byte and encoding it again.
use ketphone.Base.{
  length, length-map, List, ℤ, ℕ, zero, suc, ◌<◌, ◌≡◌, refl, ◌⊎◌, inl, inr, arith, Bool, true, ◌&&◌,
  ◌-ℤ◌, [], ◌∷◌, ◌==◌, ==_iff, Bytes, Bool-cases, All,
}
use ketphone.Media.G711.{alaw_encode, alaw_decode, alaw_encode_all, alaw_decode_all}

all_below : (ℕ → Bool) → ℕ → Bool
all_below test zero = true
all_below test (suc n) = test n && all_below test n

all_below-test : (test : ℕ → Bool) (n i : ℕ) → all_below test n ≡ true → i < n → test i ≡ true
unfolding all_below
all_below-test test zero i all less = ground arith
all_below-test test (suc n) i all less =
    let place : (i < n) ⊎ (i ≡ n) = omega arith in
    elim (Bool-cases (test n)) [
      | inl holds ↦ elim place [
        | inl before ↦ all_below-test test n i (rw holds at all) before
        | inr here ↦ rw here holds
      ]
      | inr fails ↦ ground arith
    ]

every_code : all_below (λ c. alaw_encode (alaw_decode c) == c) 256 ≡ true
unfolding all_below alaw_encode alaw_decode ◌-ℤ◌
every_code = refl

pub alaw_encode-alaw_decode : (code : ℕ) → code < 256 → alaw_encode (alaw_decode code) ≡ code
alaw_encode-alaw_decode code byte =
    (==_iff (alaw_encode (alaw_decode code)) code).0
      (all_below-test (λ c. alaw_encode (alaw_decode c) == c) 256 code every_code byte)

-- Decoding bytes to samples and encoding these gives the bytes back, so transcoding loses nothing.
pub alaw_encode_all-alaw_decode_all :
    (payload : Bytes)
    → All (λ code. code < 256) payload
    → alaw_encode_all (alaw_decode_all payload) ≡ payload
unfolding alaw_encode_all alaw_decode_all
alaw_encode_all-alaw_decode_all [] bytes = refl
alaw_encode_all-alaw_decode_all (c ∷ cs) (byte, bytes) =
    λ i. alaw_encode-alaw_decode c byte i ∷ alaw_encode_all-alaw_decode_all cs bytes i

pub length-alaw_encode_all : (samples : List ℤ) → length (alaw_encode_all samples) ≡ length samples
unfolding alaw_encode_all
length-alaw_encode_all samples = length-map alaw_encode samples
