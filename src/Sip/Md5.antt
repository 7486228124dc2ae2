-- ===== src/Sip/Md5.antt =====
-- src/sip/md5.cpp. A uint32_t is a number below 2 ^ 32; sums wrap by a remainder.
use ketphone.Base.{
  ℕ, zero, suc, ◌+◌, ◌-◌, ◌*◌, ◌/◌, ◌%◌, ◌^◌, List, [], ◌∷◌, ◌++◌, ltb, if◌then◌else◌, length,
  get_or, take, drop, replicate, bit_and, bit_or, bit_xor, Bytes,
}
use ketphone.Sip.Random.{hex_byte}

-- kSine.
sine : List ℕ
sine =
    0xd76aa478 ∷ 0xe8c7b756 ∷ 0x242070db ∷ 0xc1bdceee ∷ 0xf57c0faf ∷ 0x4787c62a ∷ 0xa8304613
    ∷ 0xfd469501 ∷ 0x698098d8 ∷ 0x8b44f7af ∷ 0xffff5bb1 ∷ 0x895cd7be ∷ 0x6b901122 ∷ 0xfd987193
    ∷ 0xa679438e ∷ 0x49b40821 ∷ 0xf61e2562 ∷ 0xc040b340 ∷ 0x265e5a51 ∷ 0xe9b6c7aa ∷ 0xd62f105d
    ∷ 0x02441453 ∷ 0xd8a1e681 ∷ 0xe7d3fbc8 ∷ 0x21e1cde6 ∷ 0xc33707d6 ∷ 0xf4d50d87 ∷ 0x455a14ed
    ∷ 0xa9e3e905 ∷ 0xfcefa3f8 ∷ 0x676f02d9 ∷ 0x8d2a4c8a ∷ 0xfffa3942 ∷ 0x8771f681 ∷ 0x6d9d6122
    ∷ 0xfde5380c ∷ 0xa4beea44 ∷ 0x4bdecfa9 ∷ 0xf6bb4b60 ∷ 0xbebfbc70 ∷ 0x289b7ec6 ∷ 0xeaa127fa
    ∷ 0xd4ef3085 ∷ 0x04881d05 ∷ 0xd9d4d039 ∷ 0xe6db99e5 ∷ 0x1fa27cf8 ∷ 0xc4ac5665 ∷ 0xf4292244
    ∷ 0x432aff97 ∷ 0xab9423a7 ∷ 0xfc93a039 ∷ 0x655b59c3 ∷ 0x8f0ccc92 ∷ 0xffeff47d ∷ 0x85845dd1
    ∷ 0x6fa87e4f ∷ 0xfe2ce6e0 ∷ 0xa3014314 ∷ 0x4e0811a1 ∷ 0xf7537e82 ∷ 0xbd3af235 ∷ 0x2ad7d2bb
    ∷ 0xeb86d391 ∷ []

abbrev four_times : List ℕ → List ℕ
four_times xs = xs ++ (xs ++ (xs ++ xs))

-- kShift.
shift : List ℕ
shift =
    four_times (7 ∷ 12 ∷ 17 ∷ 22 ∷ [])
    ++ (four_times (5 ∷ 9 ∷ 14 ∷ 20 ∷ [])
        ++ (four_times (4 ∷ 11 ∷ 16 ∷ 23 ∷ []) ++ four_times (6 ∷ 10 ∷ 15 ∷ 21 ∷ [])))

abbrev add32 : ℕ → ℕ → ℕ
add32 a b = (a + b) % 2 ^ 32

abbrev not32 : ℕ → ℕ
not32 a = 2 ^ 32 - 1 - a % 2 ^ 32

-- (value << bits) | (value >> (32 - bits)): the two parts share no bit.
rotate_left : ℕ → ℕ → ℕ
rotate_left value bits = value * 2 ^ bits % 2 ^ 32 + value / 2 ^ (32 - bits)

pub record Md5State : Type 0 where
  pub a : ℕ
  pub b : ℕ
  pub c : ℕ
  pub d : ℕ

-- The i-th little-endian word of a block.
word : Bytes → ℕ → ℕ
word block i =
    get_or block (4 * i) 0
    + get_or block (4 * i + 1) 0 * 2 ^ 8
    + get_or block (4 * i + 2) 0 * 2 ^ 16
    + get_or block (4 * i + 3) 0 * 2 ^ 24

mix : ℕ → Md5State → ℕ
mix i s =
    if ltb i 16
    then bit_or (bit_and s.b s.c) (bit_and (not32 s.b) s.d)
    else if ltb i 32
    then bit_or (bit_and s.d s.b) (bit_and (not32 s.d) s.c)
    else if ltb i 48
    then bit_xor (bit_xor s.b s.c) s.d
    else bit_xor s.c (bit_or s.b (not32 s.d))

word_index : ℕ → ℕ
word_index i =
    if ltb i 16
    then i
    else if ltb i 32
    then (5 * i + 1) % 16
    else if ltb i 48
    then (3 * i + 5) % 16
    else 7 * i % 16

-- A round of the loop of transform.
round : Bytes → ℕ → Md5State → Md5State
unfolding sine shift rotate_left word mix word_index
round block i s =
    let sum = add32 (add32 (add32 s.a (mix i s)) (get_or sine i 0)) (word block (word_index i)) in
    record { a = s.d; b = add32 s.b (rotate_left sum (get_or shift i 0)); c = s.b; d = s.c }

-- The rounds from `i` on.
rounds : ℕ → ℕ → Bytes → Md5State → Md5State
rounds zero i block s = s
rounds (suc n) i block s = rounds n (suc i) block (round block i s)

transform : Md5State → Bytes → Md5State
unfolding rounds round
transform s block =
    let t = rounds 64 0 block s in
    record { a = add32 s.a t.a; b = add32 s.b t.b; c = add32 s.c t.c; d = add32 s.d t.d }

abbrev initial_state : Md5State
initial_state = record { a = 0x67452301; b = 0xefcdab89; c = 0x98badcfe; d = 0x10325476 }

-- The 64-bit little-endian length in bits.
abbrev length_bytes : ℕ → Bytes
length_bytes bits =
    (bits % 256)
    ∷ (bits / 2 ^ 8 % 256)
    ∷ (bits / 2 ^ 16 % 256)
    ∷ (bits / 2 ^ 24 % 256)
    ∷ (bits / 2 ^ 32 % 256)
    ∷ (bits / 2 ^ 40 % 256)
    ∷ (bits / 2 ^ 48 % 256)
    ∷ (bits / 2 ^ 56 % 256)
    ∷ []

-- The last one or two blocks, from the bytes that fill no block and the whole length.
tail_blocks : Bytes → ℕ → Bytes
tail_blocks rest total =
    let tail_size = if ltb (length rest) 56 then 64 else 128 in
    rest
    ++ (0x80 ∷ (replicate (tail_size - 9 - length rest) 0 ++ length_bytes (total * 8 % 2 ^ 64)))

-- transform over a number of blocks.
blocks : ℕ → Md5State → Bytes → Md5State
unfolding transform
blocks zero s data_bytes = s
blocks (suc n) s data_bytes = blocks n (transform s (take 64 data_bytes)) (drop 64 data_bytes)

md5_state : Bytes → Md5State
unfolding blocks tail_blocks
md5_state input =
    let full = length input / 64 in
    let last = tail_blocks (drop (full * 64) input) (length input) in
    blocks (length last / 64) (blocks full initial_state input) last

word_hex : ℕ → Bytes
unfolding hex_byte
word_hex w =
    hex_byte (w % 256)
    ++ (hex_byte (w / 2 ^ 8 % 256) ++ (hex_byte (w / 2 ^ 16 % 256) ++ hex_byte (w / 2 ^ 24 % 256)))

unfoldable pub md5_hex : Bytes → Bytes
unfolding md5_state word_hex
md5_hex input =
    let s = md5_state input in word_hex s.a ++ (word_hex s.b ++ (word_hex s.c ++ word_hex s.d))
