-- ===== src/Media/G711.antt =====
-- src/media/g711.cpp: A-law, on int16_t samples read as integers and codes as byte values.
pub mod RoundTrip
use ketphone.Base.{
  ℕ, suc, ◌+◌, ◌-◌, ◌*◌, ◌/◌, ◌%◌, ◌^◌, List, [], ◌∷◌, ltb, leb, ◌==◌, if◌then◌else◌, bit_xor, ℤ,
  pos, negsuc, ◌-ℤ◌, map, Bytes,
}

-- kSegmentEnd.
abbrev segment_end : List ℕ
segment_end = 0x1f ∷ 0x3f ∷ 0x7f ∷ 0xff ∷ 0x1ff ∷ 0x3ff ∷ 0x7ff ∷ 0xfff ∷ []

-- The loop that looks for the segment: how many bounds, from the first on, lie below the magnitude.
segment_of : List ℕ → ℕ → ℕ
segment_of [] magnitude = 0
segment_of (bound ∷ bounds) magnitude =
    let next = suc (segment_of bounds magnitude) in if ltb bound magnitude then next else 0

-- The magnitude is that of `sample >> 3`; the two parts that `|=` joins share no bit.
encode_magnitude : ℕ → ℕ → ℕ
unfolding segment_of
encode_magnitude mask magnitude =
    let segment = segment_of segment_end magnitude in
    if leb 8 segment
    then bit_xor 0x7f mask
    else bit_xor
        (segment * 16
          + (if ltb segment 2 then magnitude / 2 % 16 else magnitude / 2 ^ segment % 16))
        mask

-- A negative sample -(n + 1) has `sample >> 3` equal to -(n / 8 + 1), whose magnitude the code
-- takes as n / 8.
pub alaw_encode : ℤ → ℕ
unfolding encode_magnitude
alaw_encode (pos n) = encode_magnitude 0xd5 (n / 8)
alaw_encode (negsuc n) = encode_magnitude 0x55 (n / 8)

decode_magnitude : ℕ → ℕ
decode_magnitude value =
    let low = value % 16 * 16 in
    let segment = value / 16 % 8 in
    if segment == 0 then low + 8 else (low + 0x108) * 2 ^ (segment - 1)

pub alaw_decode : ℕ → ℤ
unfolding decode_magnitude
alaw_decode code =
    let value = bit_xor code 0x55 in
    let magnitude = decode_magnitude value in
    if ltb value 128 then pos 0 -ℤ pos magnitude else pos magnitude

-- The array overloads.
pub alaw_encode_all : List ℤ → Bytes
alaw_encode_all = map alaw_encode

pub alaw_decode_all : Bytes → List ℤ
alaw_decode_all = map alaw_decode
