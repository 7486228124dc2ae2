-- ===== src/Sip/Base64.antt =====
-- src/sip/base64.cpp. The parts that `|` joins share no bit, so they are added; a uint32_t wraps.
use ketphone.Base.{
  ℕ, suc, ◌+◌, ◌-◌, ◌*◌, ◌/◌, ◌%◌, ◌^◌, Bool, not, ◌&&◌, ◌||◌, [], ◌∷◌, Option, none, some, ltb,
  leb, ◌==◌, if◌then◌else◌, length, get_or, Bytes, codes, is_empty,
}

-- kAlphabet.
abbrev alphabet : Bytes
alphabet = codes "ABCDEFGHIJKLMNOPQRSTUVWXYZabcdefghijklmnopqrstuvwxyz0123456789+/"

letter : ℕ → ℕ
letter v = get_or alphabet v 0

-- value_of; nothing for -1.
value_of : ℕ → Option ℕ
value_of c =
    if leb b'A' c && leb c b'Z'
    then some (c - b'A')
    else if leb b'a' c && leb c b'z'
    then some (c - b'a' + 26)
    else if leb b'0' c && leb c b'9'
    then some (c - b'0' + 52)
    else if c == b'+'
    then some 62
    else if c == b'/'
    then some 63
    else none

-- The last group: two letters and what stands for `rest`, the third letter or '='.
tail_group : ℕ → ℕ → Bytes
unfolding letter
tail_group triple third =
    letter (triple / 2 ^ 18 % 64) ∷ letter (triple / 2 ^ 12 % 64) ∷ third ∷ b'=' ∷ []

pub base64_encode : Bytes → Bytes
unfolding tail_group
base64_encode [] = []
base64_encode (a ∷ []) = tail_group (a * 2 ^ 16) b'='
base64_encode (a ∷ b ∷ []) =
    let triple = a * 2 ^ 16 + b * 2 ^ 8 in tail_group triple (letter (triple / 2 ^ 6 % 64))
base64_encode (a ∷ b ∷ c ∷ rest) =
    let triple = a * 2 ^ 16 + b * 2 ^ 8 + c in
    letter (triple / 2 ^ 18 % 64)
    ∷ letter (triple / 2 ^ 12 % 64)
    ∷ letter (triple / 2 ^ 6 % 64)
    ∷ letter (triple % 64)
    ∷ base64_encode rest

-- The loop that takes '=' from the end: the text before, and how many there were.
strip_padding : Bytes → Bytes × ℕ
strip_padding [] = ([], 0)
strip_padding (c ∷ cs) =
    let (text, padding) = strip_padding cs in
    if is_empty text && c == b'=' then ([], suc padding) else (c ∷ text, padding)

-- The loop over the letters, by the accumulator and the bits that it holds; at the end the bits
-- that are left must be 0.
decode_from : ℕ → ℕ → Bytes → Option Bytes
decode_from accumulator bits [] = if accumulator % 2 ^ bits == 0 then some [] else none
decode_from accumulator bits (c ∷ cs) = elim (value_of c) [
  | none ↦ none
  | some value ↦
      let next = (accumulator * 64 + value) % 2 ^ 32 in
      let longer = decode_from next (bits + 6) cs in
      let shorter : Option Bytes = elim (decode_from next (bits + 6 - 8) cs) [
        | none ↦ none
        | some out ↦ some (next / 2 ^ (bits + 6 - 8) % 256 ∷ out)
      ] in
      if leb 8 (bits + 6) then shorter else longer
]

-- The checks on the length of the text and its padding.
bad_length : ℕ → ℕ → Bool
bad_length size padding =
    size % 4 == 1 || ltb 2 padding || (ltb 0 padding && not ((size + padding) % 4 == 0))

unfoldable pub base64_decode : Bytes → Option Bytes
unfolding strip_padding bad_length decode_from value_of
base64_decode text =
    let (stripped, padding) = strip_padding text in
    if bad_length (length stripped) padding then none else decode_from 0 0 stripped
