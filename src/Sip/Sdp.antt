-- ===== src/Sip/Sdp.antt =====
-- src/sip/sdp.cpp.
mod Checks
pub mod Sound
use ketphone.Base.{
  ℕ, zero, suc, ◌^◌, Bool, true, false, not, ◌&&◌, ◌||◌, List, [], ◌∷◌, ◌++◌, Option, none, some,
  leb, ◌==◌, if◌then◌else◌, length, take, drop, Bytes, codes, is_empty, is_some, ◌>>=◌, ◌>>◌, guard,
}
use ketphone.Sip.Text.{
  text_eq, starts_with, contains, find, find_first_of, cut, behind, trim, split_lines,
  parse_unsigned, to_string,
}
use ketphone.Sip.Base64.{base64_encode, base64_decode}

-- kPayloadPcma, kPayloadTelephoneEvent, kSdesSuite and kSdesKeyLength.
abbrev pub payload_pcma : ℕ
payload_pcma = 8

abbrev payload_telephone_event : ℕ
payload_telephone_event = 101

abbrev pub sdes_suite : Bytes
sdes_suite = codes "AES_CM_128_HMAC_SHA1_80"

abbrev pub sdes_key_length : ℕ
sdes_key_length = 30

pub record SdesCrypto : Type 0 where
  pub tag : ℕ
  pub key : Bytes

pub record AudioDescription : Type 0 where
  pub address : Bytes
  pub port : ℕ
  pub payload_types : List ℕ
  pub remote_sends : Bool
  pub savp : Bool
  pub crypto : List SdesCrypto

pub record LocalCrypto : Type 0 where
  pub savp : Bool
  pub tag : ℕ
  pub key : Bytes

abbrev has_any : Bytes → Bytes → Bool
has_any set text = is_some (find_first_of set text)

connection_address : Bytes → Option Bytes
connection_address value = do
  guard (starts_with (codes "IN IP4 ") value || starts_with (codes "IN IP6 ") value)
  let trimmed = trim (drop 7 value)
  let address = cut (find b'/' trimmed) trimmed
  guard (not (is_empty address))
  guard (not (has_any (codes " \t\r\n[]") address))
  some address

-- The check on what follows the key behind '|': only a lifetime.
lifetime_only : Option ℕ → Bytes → Bool
lifetime_only none rest = true
lifetime_only (some key_end) rest =
    let parameters = drop (suc key_end) rest in
    not (is_empty parameters) && not (has_any (codes "|:") parameters)

parse_crypto : Bytes → Option SdesCrypto
unfolding lifetime_only
parse_crypto value = do
  tag_end ← find b' ' value
  tag ← parse_unsigned (2 ^ 32) (take tag_end value)
  guard (leb tag 999_999_999)
  let rest = trim (drop (suc tag_end) value)
  suite_end ← find b' ' rest
  guard (text_eq (take suite_end rest) sdes_suite)
  let inline = trim (drop (suc suite_end) rest)
  guard (not (has_any (codes " \t;") inline))
  guard (starts_with (codes "inline:") inline)
  let text = drop 7 inline
  let key_end = find b'|' text
  guard (lifetime_only key_end text)
  key ← base64_decode (cut key_end text)
  guard (length key == sdes_key_length)
  some (record { tag = tag; key = key })

any_is : ℕ → List ℕ → Bool
any_is n [] = false
any_is n (x ∷ xs) = x == n || any_is n xs

-- AudioDescription::offers_pcma.
unfoldable pub offers_pcma : AudioDescription → Bool
unfolding any_is
offers_pcma a = any_is payload_pcma a.payload_types

-- The variables of the loop of parse_audio.
pub record Scan : Type 0 where
  pub session_address : Option Bytes
  pub audio : Option AudioDescription
  pub media_address : Option Bytes
  pub has_media_connection : Bool
  pub in_audio : Bool
  pub seen_audio : Bool

abbrev no_scan : Scan
no_scan = record {
  session_address = none;
  audio = none;
  media_address = none;
  has_media_connection = false;
  in_audio = false;
  seen_audio = false;
}

-- How a line leaves the loop: on to the next one, `break`, or `return std::nullopt`.
pub data Flow : Type 0 where
  continues : Scan → Flow
  breaks : Scan → Flow
  returns_none : Flow

with_payload : Option ℕ → List ℕ → List ℕ
with_payload none rest = rest
with_payload (some payload) rest = payload ∷ rest

-- The payload types of an m= line; what is no uint8_t is left out.
payload_list : ℕ → Bytes → List ℕ
unfolding with_payload
payload_list zero rest = []
payload_list (suc fuel) [] = []
payload_list (suc fuel) (c ∷ cs) =
    let space = find b' ' (c ∷ cs) in
    with_payload (parse_unsigned 256 (cut space (c ∷ cs)))
      (payload_list fuel (behind space (c ∷ cs)))

-- The audio stream of an m= line, from behind "audio ".
parse_media : Bytes → Option AudioDescription
unfolding payload_list
parse_media text = do
  let port_end = find b' ' text
  port ← parse_unsigned (2 ^ 16) (cut port_end text)
  place ← port_end
  let rest = drop (suc place) text
  let proto_end = find b' ' rest
  let profile = cut proto_end rest
  guard (text_eq profile (codes "RTP/AVP") || text_eq profile (codes "RTP/SAVP"))
  some (record {
    address = [];
    port = port;
    payload_types = payload_list (length rest) (behind proto_end rest);
    remote_sends = true;
    savp = text_eq profile (codes "RTP/SAVP");
    crypto = [];
  })

scan_media : Scan → Bytes → Flow
unfolding parse_media
scan_media s value =
    if s.seen_audio
    then breaks s
    else if not (starts_with (codes "audio ") value)
    then continues (record s { in_audio = false })
    else elim (parse_media (drop 6 value)) [
      | none ↦ returns_none
      | some audio ↦ continues (record s { in_audio = true; seen_audio = true; audio = some audio })
    ]

scan_connection : Scan → Bytes → Scan
unfolding connection_address
scan_connection s value =
    if s.in_audio
    then record s { has_media_connection = true; media_address = connection_address value }
    else if not s.seen_audio
    then record s { session_address = connection_address value }
    else s

add_crypto : Option SdesCrypto → AudioDescription → AudioDescription
add_crypto none a = a
add_crypto (some crypto) a = record a { crypto = a.crypto ++ crypto ∷ [] }

apply_attribute : AudioDescription → Bytes → AudioDescription
unfolding add_crypto parse_crypto
apply_attribute a value =
    let directed =
      if text_eq value (codes "inactive") || text_eq value (codes "recvonly")
      then record a { remote_sends = false }
      else a in
    if starts_with (codes "crypto:") value
    then add_crypto (parse_crypto (drop 7 value)) directed
    else directed

scan_attribute : Option AudioDescription → Scan → Bytes → Scan
unfolding apply_attribute
scan_attribute none s value = s
scan_attribute (some a) s value =
    if s.in_audio then record s { audio = some (apply_attribute a value) } else s

-- A line of the description.
scan_line : Scan → Bytes → Flow
unfolding scan_media scan_connection scan_attribute
scan_line s [] = continues s
scan_line s (c ∷ []) = continues s
scan_line s (type ∷ d ∷ value) =
    if not (d == b'=')
    then continues s
    else if type == b'm'
    then scan_media s value
    else if type == b'c'
    then continues (scan_connection s value)
    else if type == b'a'
    then continues (scan_attribute s.audio s value)
    else continues s

-- The loop; nothing where it returns.
scan_lines : Scan → List Bytes → Option Scan
unfolding scan_line
scan_lines s [] = some s
scan_lines s (line ∷ lines) = elim (scan_line s line) [
  | continues t ↦ scan_lines t lines
  | breaks t ↦ some t
  | returns_none ↦ none
]

-- The address that the stream gets: the media's, else the session's.
finish_scan : Scan → Option AudioDescription
finish_scan s = do
  a ← s.audio
  guard (not (a.port == 0))
  guard (not (s.has_media_connection && not (is_some s.media_address)))
  address ← elim s.media_address as (λ _. Option Bytes) [
    | some address ↦ some address
    | none ↦ s.session_address
  ]
  some (record a { address = address })

unfoldable pub parse_audio : Bytes → Option AudioDescription
unfolding scan_lines finish_scan
parse_audio sdp = do scanned ← scan_lines no_scan (split_lines sdp); finish_scan scanned

crypto_line : Option LocalCrypto → Bytes
crypto_line none = []
crypto_line (some c) =
    codes "a=crypto:"
    ++ (to_string c.tag
        ++ (codes " "
            ++ (sdes_suite ++ (codes " inline:" ++ (base64_encode c.key ++ codes "\r\n")))))

is_savp : Option LocalCrypto → Bool
is_savp none = false
is_savp (some c) = c.savp

unfoldable pub build_audio_sdp : Bytes → ℕ → ℕ → ℕ → Option LocalCrypto → Bytes
unfolding crypto_line is_savp
build_audio_sdp ip port session_id version crypto =
    let family = if contains b':' ip then codes "IP6" else codes "IP4" in
    let event = to_string payload_telephone_event in
    let payloads = to_string payload_pcma ++ (codes " " ++ event) in
    let profile = if is_savp crypto then codes "RTP/SAVP" else codes "RTP/AVP" in
    codes "v=0\r\no=- "
    ++ (to_string session_id
        ++ (codes " "
            ++ (to_string version
                ++ (codes " IN "
                    ++ (family
                        ++ (codes " "
                            ++ (ip
                                ++ (codes "\r\ns=KetPhone\r\nc=IN "
                                    ++ (family
                                        ++ (codes " "
                                            ++ (ip
                                                ++ (codes "\r\nt=0 0\r\nm=audio "
                                                    ++ (to_string port
                                                        ++ (codes " "
                                                            ++ (profile
                                                            ++ (codes " "
                                                            ++ (payloads
                                                            ++ (codes
                                                            "\r\na=rtpmap:8 PCMA/8000\r\na=rtpmap:"
                                                            ++ (event
                                                            ++ (codes
                                                            " telephone-event/8000\r\na=fmtp:"
                                                            ++ (event
                                                            ++ (codes
                                                            " 0-16\r\na=ptime:20\r\na=sendrecv\r\n"
                                                            ++ crypto_line
                                                            crypto))))))))))))))))))))))
