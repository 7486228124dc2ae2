-- ===== src/Sip/Text.antt =====
-- src/sip/text.hpp, and what src/sip uses of std::string_view. `find` returns nothing for `npos`,
-- and `cut` is `substr(0, i)` with `npos` for the whole text.
pub mod Search
use ketphone.Base.{
  ℕ, zero, suc, ◌+◌, ◌-◌, ◌*◌, ◌/◌, ◌%◌, Bool, true, false, ◌&&◌, ◌||◌, List, [], ◌∷◌, ◌++◌, Option,
  none, some, ltb, leb, ◌==◌, if◌then◌else◌, take, drop, map, ℤ, pos, ◌-ℤ◌, Bytes, is_empty,
}

unfoldable pub text_eq : Bytes → Bytes → Bool
text_eq [] [] = true
text_eq (x ∷ xs) (y ∷ ys) = x == y && text_eq xs ys
text_eq [] (y ∷ ys) = false
text_eq (x ∷ xs) [] = false

unfoldable pub starts_with : Bytes → Bytes → Bool
starts_with [] ys = true
starts_with (x ∷ xs) [] = false
starts_with (x ∷ xs) (y ∷ ys) = x == y && starts_with xs ys

unfoldable pub contains : ℕ → Bytes → Bool
contains c [] = false
contains c (x ∷ xs) = x == c || contains c xs

-- One further on, if there is a place.
abbrev pub shifted : Option ℕ → Option ℕ
shifted none = none
shifted (some i) = some (suc i)

-- find(c), rfind(c), find_first_of(set), and find of a text.
unfoldable pub find : ℕ → Bytes → Option ℕ
find c [] = none
find c (x ∷ xs) = let rest = shifted (find c xs) in if x == c then some 0 else rest

abbrev or_here : Bool → Option ℕ → Option ℕ
or_here here (some i) = some (suc i)
or_here true none = some 0
or_here false none = none

unfoldable pub rfind : ℕ → Bytes → Option ℕ
rfind c [] = none
rfind c (x ∷ xs) = or_here (x == c) (rfind c xs)

unfoldable pub find_first_of : Bytes → Bytes → Option ℕ
unfolding contains
find_first_of set [] = none
find_first_of set (x ∷ xs) =
    let rest = shifted (find_first_of set xs) in if contains x set then some 0 else rest

unfoldable pub find_text : Bytes → Bytes → Option ℕ
unfolding starts_with
find_text word [] = if is_empty word then some 0 else none
find_text word (x ∷ xs) =
    let rest = shifted (find_text word xs) in if starts_with word (x ∷ xs) then some 0 else rest

abbrev pub cut : Option ℕ → Bytes → Bytes
cut none xs = xs
cut (some i) xs = take i xs

-- remove_prefix up to and with the place, or of everything.
abbrev pub behind : Option ℕ → Bytes → Bytes
behind none xs = []
behind (some i) xs = drop (suc i) xs

abbrev blank_front : ℕ → Bool
blank_front c = c == b' ' || c == b'\t'

abbrev blank_back : ℕ → Bool
blank_back c = c == b' ' || c == b'\t' || c == b'\r'

-- The two loops of trim.
trim_front : Bytes → Bytes
trim_front [] = []
trim_front (c ∷ cs) = if blank_front c then trim_front cs else c ∷ cs

trim_back : Bytes → Bytes
trim_back [] = []
trim_back (c ∷ cs) =
    let rest = trim_back cs in if is_empty rest && blank_back c then [] else c ∷ rest

unfoldable pub trim : Bytes → Bytes
unfolding trim_front trim_back
trim value = trim_back (trim_front value)

-- std::tolower in the "C" locale.
unfoldable pub tolower : ℕ → ℕ
tolower c = if leb b'A' c && leb c b'Z' then c + 32 else c

unfoldable pub lowercase : Bytes → Bytes
unfolding tolower
lowercase = map tolower

unfoldable pub iequals : Bytes → Bytes → Bool
unfolding tolower
iequals [] [] = true
iequals (x ∷ xs) (y ∷ ys) = tolower x == tolower y && iequals xs ys
iequals [] (y ∷ ys) = false
iequals (x ∷ xs) [] = false

-- A line without the carriage return at its end.
strip_cr : Bytes → Bytes
strip_cr [] = []
strip_cr (c ∷ []) = if c == b'\r' then [] else c ∷ []
strip_cr (c ∷ d ∷ cs) = c ∷ strip_cr (d ∷ cs)

-- `line` holds the bytes since the last line feed. No line comes from an empty
-- text, and none behind a line feed at the end.
lines_from : Bytes → Bytes → List Bytes
unfolding strip_cr
lines_from line [] = if is_empty line then [] else strip_cr line ∷ []
lines_from line (c ∷ cs) =
    let ended = strip_cr line ∷ lines_from [] cs in
    let longer = lines_from (line ++ c ∷ []) cs in if c == b'\n' then ended else longer

unfoldable pub split_lines : Bytes → List Bytes
unfolding lines_from
split_lines = lines_from []

unfoldable pub is_digit : ℕ → Bool
is_digit c = leb b'0' c && leb c b'9'

-- The value of a run of digits behind `value`; nothing at another byte.
digits_from : ℕ → Bytes → Option ℕ
unfolding is_digit
digits_from value [] = some value
digits_from value (c ∷ cs) =
    let rest = digits_from (value * 10 + (c - b'0')) cs in if is_digit c then rest else none

-- std::from_chars on a whole text: at least one digit, and no value at or above the limit.
parse_digits : ℕ → Bytes → Option ℕ
unfolding digits_from
parse_digits limit [] = none
parse_digits limit (c ∷ cs) = elim (digits_from 0 (c ∷ cs)) [
  | none ↦ none
  | some value ↦ if ltb value limit then some value else none
]

-- parse_integer<Unsigned>, the type by the number of its values; no sign is read.
unfoldable pub parse_unsigned : ℕ → Bytes → Option ℕ
unfolding parse_digits trim
parse_unsigned limit text = parse_digits limit (trim text)

abbrev negated : Option ℕ → Option ℤ
negated none = none
negated (some n) = some (pos 0 -ℤ pos n)

abbrev as_pos : Option ℕ → Option ℤ
as_pos none = none
as_pos (some n) = some (pos n)

parse_signed : Bytes → Option ℤ
unfolding parse_digits
parse_signed [] = none
parse_signed (c ∷ cs) =
    if c == b'-'
    then negated (parse_digits 2_147_483_649 cs)
    else as_pos (parse_digits 2_147_483_648 (c ∷ cs))

-- parse_integer<int>.
unfoldable pub parse_int : Bytes → Option ℤ
unfolding parse_signed trim
parse_int text = parse_signed (trim text)

-- std::to_string of an unsigned number: its decimal digits. A number below 10 ^ fuel has at most
-- `fuel` of them.
digits_to : ℕ → ℕ → Bytes → Bytes
digits_to zero n out = out
digits_to (suc fuel) n out =
    let more = digits_to fuel (n / 10) ((b'0' + n % 10) ∷ out) in
    if ltb n 10 then (b'0' + n) ∷ out else more

unfoldable pub to_string : ℕ → Bytes
unfolding digits_to
to_string n = digits_to 20 n []
