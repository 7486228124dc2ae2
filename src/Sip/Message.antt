-- ===== src/Sip/Message.antt =====
-- src/sip/message.cpp: parsing and building SIP messages, and the parts of header values.
use ketphone.Base.{
  ℕ, zero, suc, ◌+◌, ◌-◌, ◌^◌, Bool, true, false, not, ◌&&◌, ◌||◌, List, [], ◌∷◌, ◌++◌, Option,
  none, some, ltb, leb, ◌==◌, if◌then◌else◌, length, take, drop, Bytes, codes, ℤ, pos, negsuc,
  is_empty, value_or, ◌>>=◌, ◌>>◌, guard,
}
use ketphone.Sip.Text.{
  text_eq, starts_with, contains, find, rfind, find_first_of, find_text, cut, trim, lowercase,
  iequals, split_lines, is_digit, parse_unsigned, parse_int, to_string,
}

abbrev pub Headers : Type 0
Headers = List (Bytes × Bytes)

pub record Message : Type 0 where
  pub is_response : Bool
  pub status : ℕ
  pub reason : Bytes
  pub method : Bytes
  pub uri : Bytes
  pub headers : Headers
  pub body : Bytes

-- The full name of a compact one.
expand_compact : ℕ → Option Bytes
expand_compact c =
    if c == b'v'
    then some (codes "via")
    else if c == b'f'
    then some (codes "from")
    else if c == b't'
    then some (codes "to")
    else if c == b'i'
    then some (codes "call-id")
    else if c == b'm'
    then some (codes "contact")
    else if c == b'l'
    then some (codes "content-length")
    else if c == b'c'
    then some (codes "content-type")
    else if c == b'k'
    then some (codes "supported")
    else if c == b's'
    then some (codes "subject")
    else if c == b'e'
    then some (codes "content-encoding")
    else none

expanded_name : Bytes → Bytes
unfolding expand_compact
expanded_name (c ∷ []) = value_or (expand_compact c) (c ∷ [])
expanded_name name = name

full_header_name : Bytes → Bytes
unfolding expanded_name
full_header_name raw = expanded_name (lowercase (trim raw))

is_alnum : ℕ → Bool
is_alnum c = is_digit c || (leb b'a' c && leb c b'z') || (leb b'A' c && leb c b'Z')

all_token : Bytes → Bool
unfolding is_alnum
all_token [] = true
all_token (c ∷ cs) = (is_alnum c || contains c (codes "-.!%*_+`'~")) && all_token cs

is_token : Bytes → Bool
unfolding all_token
is_token value = not (is_empty value) && all_token value

find_header : Bytes → Headers → Option Bytes
find_header name [] = none
find_header name ((key, value) ∷ rest) =
    if text_eq key name then some value else find_header name rest

-- Message::header and Message::header_all.
unfoldable pub header : Message → Bytes → Option Bytes
unfolding find_header
header m name = find_header name m.headers

all_headers : Bytes → Headers → List Bytes
all_headers name [] = []
all_headers name ((key, value) ∷ rest) =
    let others = all_headers name rest in if text_eq key name then value ∷ others else others

unfoldable pub header_all : Message → Bytes → List Bytes
unfolding all_headers
header_all m name = all_headers name m.headers

-- The head and the body of a datagram.
split_body : Bytes → Bytes × Bytes
split_body datagram = elim (find_text (codes "\r\n\r\n") datagram) [
  | some split ↦ (take split datagram, drop (split + 4) datagram)
  | none ↦ elim (find_text (codes "\n\n") datagram) [
    | some split ↦ (take split datagram, drop (split + 2) datagram)
    | none ↦ (datagram, [])
  ]
]

abbrev blank_message : Message
blank_message = record {
  is_response = false;
  status = 0;
  reason = [];
  method = [];
  uri = [];
  headers = [];
  body = [];
}

-- A status as the start line's three bytes give it, if it lies in 100 .. 699.
status_in_range : ℤ → Option ℕ
status_in_range (pos n) = if leb 100 n && leb n 699 then some n else none
status_in_range (negsuc n) = none

parse_status_line : Bytes → Option Message
unfolding status_in_range
parse_status_line start = do
  guard (leb 11 (length start))
  number ← parse_int (take 3 (drop 8 start))
  status ← status_in_range number
  some (record blank_message { is_response = true; status = status; reason = trim (drop 11 start) })

parse_request_line : Bytes → Option Message
unfolding is_token
parse_request_line start = do
  first ← find b' ' start
  last ← rfind b' ' start
  guard (not (last == first))
  guard (text_eq (drop (suc last) start) (codes "SIP/2.0"))
  let method = take first start
  let uri = trim (take (last - first - 1) (drop (suc first) start))
  guard (is_token method)
  guard (not (is_empty uri))
  some (record blank_message { method = method; uri = uri })

parse_start : Bytes → Option Message
unfolding parse_status_line parse_request_line
parse_start start =
    if starts_with (codes "SIP/2.0 ") start
    then parse_status_line start
    else parse_request_line start

-- `headers.back().second += ' ' + trim(line)`, on a list that is not empty.
append_to_last : Bytes → Headers → Headers
append_to_last more [] = []
append_to_last more ((key, value) ∷ []) = (key, value ++ (b' ' ∷ more)) ∷ []
append_to_last more (h ∷ i ∷ rest) = h ∷ append_to_last more (i ∷ rest)

starts_blank : Bytes → Bool
starts_blank [] = false
starts_blank (c ∷ cs) = c == b' ' || c == b'\t'

-- A line of the head, behind the headers read so far.
parse_header_line : Headers → Bytes → Option Headers
unfolding append_to_last starts_blank full_header_name
parse_header_line headers line =
    if is_empty line
    then some headers
    else if starts_blank line && not (is_empty headers)
    then some (append_to_last (trim line) headers)
    else do
      colon ← find b':' line
      guard (not (colon == 0))
      some (headers ++ ((full_header_name (take colon line), trim (drop (suc colon) line)) ∷ []))

parse_headers : Headers → List Bytes → Option Headers
unfolding parse_header_line
parse_headers headers [] = some headers
parse_headers headers (line ∷ lines) = do
  longer ← parse_header_line headers line
  parse_headers longer lines

-- The body that Content-Length announces, if the datagram holds it.
body_by_length : Option Bytes → Bytes → Option Bytes
body_by_length none body = some body
body_by_length (some value) body = do
  size ← parse_unsigned (2 ^ 64) value
  guard (leb size (length body))
  some (take size body)

parse_lines : List Bytes → Bytes → Option Message
unfolding parse_start parse_headers body_by_length find_header
parse_lines [] body = none
parse_lines (start ∷ lines) body = do
  message ← parse_start start
  headers ← parse_headers [] lines
  announced ← body_by_length (find_header (codes "content-length") headers) body
  some (record message { headers = headers; body = announced })

pub parse_message : Bytes → Option Message
unfolding split_body parse_lines
parse_message datagram =
    let (head, body) = split_body datagram in parse_lines (split_lines head) body

pub record CSeq : Type 0 where
  pub number : ℕ
  pub method : Bytes

unfoldable pub parse_cseq : Bytes → Option CSeq
parse_cseq value = do
  let text = trim value
  space ← find_first_of (codes " \t") text
  number ← parse_unsigned (2 ^ 32) (take space text)
  let method = trim (drop space text)
  guard (not (is_empty method))
  some (record { number = number; method = method })

addr_spec : Bytes → Bytes
addr_spec name_addr = trim (cut (find b';' name_addr) name_addr)

unfoldable pub uri_of : Bytes → Bytes
unfolding addr_spec
uri_of name_addr = elim (find b'<' name_addr) [
  | none ↦ addr_spec name_addr
  | some open_at ↦ elim (find b'>' (drop open_at name_addr)) [
    | none ↦ addr_spec name_addr
    | some close ↦ trim (take (close - 1) (drop (suc open_at) name_addr))
  ]
]

-- The loop over a quoted display name, from its second byte to its last but one; `\` keeps the byte
-- behind it, unless that is the closing quote.
unquote : Bytes → Bytes
unquote [] = []
unquote (c ∷ []) = []
unquote (c ∷ d ∷ []) = c ∷ []
unquote (c ∷ d ∷ e ∷ cs) =
    let escaped = d ∷ unquote (e ∷ cs) in
    let plain = c ∷ unquote (d ∷ e ∷ cs) in if c == b'\\' then escaped else plain

last_is : ℕ → Bytes → Bool
last_is c [] = false
last_is c (x ∷ []) = x == c
last_is c (x ∷ y ∷ xs) = last_is c (y ∷ xs)

first_is : ℕ → Bytes → Bool
first_is c [] = false
first_is c (x ∷ xs) = x == c

is_quoted : Bytes → Bool
unfolding first_is last_is
is_quoted name = leb 2 (length name) && first_is b'"' name && last_is b'"' name

unfoldable pub display_name_of : Bytes → Bytes
unfolding is_quoted unquote
display_name_of name_addr = elim (find b'<' name_addr) [
  | none ↦ []
  | some open_at ↦
      let name = trim (take open_at name_addr) in
      if is_quoted name then unquote (drop 1 name) else name
]

parameter_text : Option ℕ → Bytes → Bytes
unfolding is_quoted
parameter_text none param = []
parameter_text (some equals) param =
    let raw = trim (drop (suc equals) param) in
    if is_quoted raw then take (length raw - 2) (drop 1 raw) else raw

-- The loop over the ';'. Each round takes at least one byte away.
param_from : ℕ → Bytes → Bytes → Option Bytes
unfolding parameter_text
param_from zero value name = none
param_from (suc fuel) value name = elim (find b';' value) [
  | none ↦ none
  | some position ↦
      let rest = drop (suc position) value in
      let param = cut (find_first_of (codes ";,") rest) rest in
      let equals = find b'=' param in
      let others = param_from fuel rest name in
      if iequals (trim (cut equals param)) name then some (parameter_text equals param) else others
]

unfoldable pub param_of : Bytes → Bytes → Option Bytes
unfolding param_from
param_of value name =
    let outside = elim (find b'>' value) as (λ _. Bytes) [
      | none ↦ value
      | some close ↦ drop (suc close) value
    ] in
    param_from (suc (length outside)) outside name

unfoldable pub user_of : Bytes → Bytes
user_of uri =
    let rest = elim (find b':' uri) as (λ _. Bytes) [
      | none ↦ uri
      | some colon ↦ drop (suc colon) uri
    ] in
    elim (find b'@' rest) [ none ↦ [] | some at ↦ take at rest ]

pub record MessageBuilder : Type 0 where
  pub start_line : Bytes
  pub headers : Headers
  pub content_type : Bytes
  pub body : Bytes

unfoldable pub builder : Bytes → MessageBuilder
builder start_line = record { start_line = start_line; headers = []; content_type = []; body = [] }

-- MessageBuilder::add for each header of a list, and MessageBuilder::body.
unfoldable pub add_all : MessageBuilder → Headers → MessageBuilder
add_all b headers = record b { headers = b.headers ++ headers }

unfoldable pub with_body : MessageBuilder → Bytes → Bytes → MessageBuilder
with_body b content_type body = record b { content_type = content_type; body = body }

abbrev pub crlf : Bytes
crlf = codes "\r\n"

header_line : Bytes → Bytes → Bytes
header_line name value = name ++ (codes ": " ++ (value ++ crlf))

header_lines : Headers → Bytes
unfolding header_line
header_lines [] = []
header_lines ((name, value) ∷ rest) = header_line name value ++ header_lines rest

unfoldable pub build : MessageBuilder → Bytes
unfolding header_lines
build b =
    b.start_line
    ++ (crlf
        ++ (header_lines b.headers
            ++ ((if is_empty b.body then [] else header_line (codes "Content-Type") b.content_type)
                ++ (codes "Content-Length: "
                    ++ (to_string (length b.body) ++ (crlf ++ (crlf ++ b.body)))))))

unfoldable pub reason_phrase : ℕ → Bytes
reason_phrase status =
    if status == 100
    then codes "Trying"
    else if status == 180
    then codes "Ringing"
    else if status == 183
    then codes "Session Progress"
    else if status == 200
    then codes "OK"
    else if status == 400
    then codes "Bad Request"
    else if status == 408
    then codes "Request Timeout"
    else if status == 480
    then codes "Temporarily Unavailable"
    else if status == 481
    then codes "Call/Transaction Does Not Exist"
    else if status == 486
    then codes "Busy Here"
    else if status == 487
    then codes "Request Terminated"
    else if status == 488
    then codes "Not Acceptable Here"
    else if status == 500
    then codes "Server Internal Error"
    else if status == 501
    then codes "Not Implemented"
    else if status == 603
    then codes "Decline"
    else if ltb status 300
    then codes "OK"
    else codes "Error"
