-- ===== src/Core/Wire.antt =====
-- What the user agent sends: addresses, requests, responses, the media of an offer or answer, and
-- the transactions behind requests.
use ketphone.Base.{
  ℕ, suc, ◌+◌, Bool, true, false, not, ◌&&◌, ◌||◌, List, [], ◌∷◌, ◌++◌, Option, none, some, ltb,
  ◌==◌, if◌then◌else◌, drop, map, Bytes, codes, is_some, is_empty, value_or, ◌>>=◌,
}
use ketphone.Core.Types.{
  World, UserAgent, UserAgentConfig, Call, Transaction, OnFinal, OnProvisional, Request,
  RemoteMedia, MediaKeys, Time, t1, transaction_timeout, allow, offer_tag,
}
use ketphone.Core.Host.{send_raw, draw_hex}
use ketphone.Sip.Digest.{Challenge, parse_challenge, authorization_value, cnonce_draws}
use ketphone.Sip.Message.{
  Message, Headers, header, header_all, param_of, MessageBuilder, builder, add_all, with_body,
  build, reason_phrase,
}
use ketphone.Sip.Sdp.{AudioDescription, SdesCrypto, LocalCrypto, offers_pcma, build_audio_sdp}
use ketphone.Sip.Text.{text_eq, find, cut, trim, contains, lowercase, to_string}

unfoldable pub tagged : Bytes → Bytes → Bytes
tagged header_text tag =
    if is_some (param_of header_text (codes "tag"))
    then header_text
    else header_text ++ (codes ";tag=" ++ tag)

unfoldable pub branch_of : Message → Bytes
branch_of message = elim (header message (codes "via")) [
  | none ↦ []
  | some via_value ↦ value_or (param_of (cut (find b',' via_value) via_value) (codes "branch")) []
]

begins_with_bracket : Bytes → Bool
begins_with_bracket [] = false
begins_with_bracket (c ∷ cs) = c == b'['

unfoldable pub sip_host : Bytes → Bytes
unfolding begins_with_bracket
sip_host address =
    if contains b':' address && not (begins_with_bracket address)
    then codes "[" ++ (address ++ codes "]")
    else address

unfoldable pub aor : UserAgentConfig → Bytes
aor c = codes "sip:" ++ (c.extension ++ (codes "@" ++ sip_host c.domain))

unfoldable pub sent_by : UserAgentConfig → Bytes
sent_by c =
    if c.local_port == 0
    then sip_host c.local_address
    else sip_host c.local_address ++ (codes ":" ++ to_string c.local_port)

unfoldable pub contact : UserAgentConfig → Bytes
contact c =
    codes "<sip:"
    ++ (c.extension
        ++ (codes "@"
            ++ (sent_by c ++ (codes ";transport=" ++ (lowercase c.transport ++ codes ">")))))

unfoldable pub via : UserAgentConfig → Bytes → Bytes
via c branch =
    codes "SIP/2.0/"
    ++ (c.transport
        ++ (codes " " ++ (sent_by c ++ (codes ";branch=" ++ (branch ++ codes ";rport")))))

unfoldable pub reliable : UserAgentConfig → Bool
reliable c = not (text_eq c.transport (codes "UDP"))

first_crypto : List SdesCrypto → Option SdesCrypto
first_crypto [] = none
first_crypto (c ∷ cs) = some c

-- The key that acceptable() returns through its pointer.
unfoldable pub chosen_key : UserAgentConfig → AudioDescription → Option SdesCrypto
unfolding first_crypto
chosen_key c media = if offers_pcma media && c.srtp then first_crypto media.crypto else none

unfoldable pub acceptable : UserAgentConfig → AudioDescription → Bool
acceptable c media =
    offers_pcma media && (if c.srtp then not (is_empty media.crypto) else not media.savp)

-- The crypto line of an offer, or of the answer to an offer.
local_crypto_for : UserAgentConfig → Call → Option AudioDescription → LocalCrypto
local_crypto_for c call none = record { savp = true; tag = offer_tag; key = call.srtp_key }
local_crypto_for c call (some offer) = elim (chosen_key c offer) [
  | none ↦ record { savp = true; tag = offer_tag; key = call.srtp_key }
  | some chosen ↦ record { savp = offer.savp; tag = chosen.tag; key = call.srtp_key }
]

-- The call, whose version counts the descriptions, and the description.
unfoldable pub local_sdp_for : UserAgentConfig → Call → Option AudioDescription → Call × Bytes
unfolding local_crypto_for
local_sdp_for c call answering = (
  record call { sdp_version = suc call.sdp_version },
  build_audio_sdp c.local_address call.media_port call.sdp_session call.sdp_version
      (if c.srtp then some (local_crypto_for c call answering) else none),
)

media_keys : Call → Option SdesCrypto → Option MediaKeys
media_keys call none = none
media_keys call (some key) = some (record { local = call.srtp_key; remote = key.key })

unfoldable pub remote_media_for :
    UserAgentConfig → Call → AudioDescription → Option SdesCrypto → RemoteMedia
unfolding media_keys
remote_media_for c call media key = record {
  address = media.address;
  port = media.port;
  srtp = if c.srtp then media_keys call key else none;
}

abbrev is_method : Bytes → Bytes → Bool
is_method = text_eq

abbrev sdp_type : Bytes
sdp_type = codes "application/sdp"

finished : MessageBuilder → Bytes → Bytes
finished b body = if is_empty body then build b else build (with_body b sdp_type body)

unfoldable pub build_request : UserAgentConfig → Request → Bytes → Bytes
unfolding finished
build_request c r branch =
    finished
      (add_all (builder (r.method ++ (codes " " ++ (r.uri ++ codes " SIP/2.0")))) (
        ((codes "Via", via c branch)
          ∷ (codes "Max-Forwards", codes "70")
          ∷ (codes "From", r.from)
          ∷ (codes "To", r.to)
          ∷ (codes "Call-ID", r.call_id)
          ∷ (codes "CSeq", to_string r.cseq ++ (codes " " ++ r.method))
          ∷ [])
        ++ ((if is_method r.method (codes "ACK") || is_method r.method (codes "CANCEL")
              then []
              else (codes "Contact", contact c) ∷ [])
            ++ (r.extra ++ ((codes "User-Agent", c.user_agent) ∷ [])))))
      r.body

abbrev via_header : Bytes → Bytes × Bytes
via_header value = (codes "Via", value)

abbrev pub header_or_empty : Message → Bytes → Bytes
header_or_empty m name = value_or (header m name) []

unfoldable pub build_response : UserAgentConfig → Message → ℕ → Bytes → Bytes → Bytes
unfolding finished
build_response c request status to_tag body =
    let to = header_or_empty request (codes "to") in
    finished
      (add_all
        (builder (codes "SIP/2.0 " ++ (to_string status ++ (codes " " ++ reason_phrase status))))
        (map via_header (header_all request (codes "via"))
          ++ ((codes "From", header_or_empty request (codes "from"))
              ∷ (
                codes "To",
                if not (is_empty to_tag) && ltb 100 status then tagged to to_tag else to,
              )
              ∷ (codes "Call-ID", header_or_empty request (codes "call-id"))
              ∷ (codes "CSeq", header_or_empty request (codes "cseq"))
              ∷ ((if is_method request.method (codes "INVITE") && ltb status 300
                    then (codes "Contact", contact c) ∷ []
                    else [])
                  ++ ((if is_method request.method (codes "OPTIONS") || status == 501
                        then (codes "Allow", allow) ∷ []
                        else [])
                      ++ ((codes "User-Agent", c.user_agent) ∷ []))))))
      body

-- std::map's operator[] assignment, find and erase; keys are compared byte by byte.
unfoldable pub text_lt : Bytes → Bytes → Bool
text_lt [] [] = false
text_lt [] (y ∷ ys) = true
text_lt (x ∷ xs) [] = false
text_lt (x ∷ xs) (y ∷ ys) = ltb x y || (x == y && text_lt xs ys)

abbrev pub Transactions : Type 0
Transactions = List (Bytes × Transaction)

unfoldable pub put_transaction : Bytes → Transaction → Transactions → Transactions
unfolding text_lt
put_transaction k t [] = (k, t) ∷ []
put_transaction k t ((j, u) ∷ rest) =
    let later = (j, u) ∷ put_transaction k t rest in
    if text_eq j k then (k, t) ∷ rest else if text_lt k j then (k, t) ∷ (j, u) ∷ rest else later

unfoldable pub find_transaction : Bytes → Transactions → Option Transaction
find_transaction k [] = none
find_transaction k ((j, u) ∷ rest) = if text_eq j k then some u else find_transaction k rest

unfoldable pub erase_transaction : Bytes → Transactions → Transactions
erase_transaction k [] = []
erase_transaction k ((j, u) ∷ rest) =
    if text_eq j k then rest else (j, u) ∷ erase_transaction k rest

abbrev pub transaction_key : Bytes → Bytes → Bytes
transaction_key branch method = branch ++ (codes " " ++ method)

-- send_request under a branch.
unfoldable pub send_request_under :
    UserAgent → Request → Time → OnFinal → OnProvisional → Bytes → UserAgent
send_request_under a r now on_final on_provisional branch =
    let transaction : Transaction = record {
      method = r.method;
      bytes = build_request a.config r branch;
      retransmitting = not (reliable a.config);
      interval = t1;
      retransmit_at = now + t1;
      deadline = now + transaction_timeout;
      on_provisional = on_provisional;
      on_final = on_final;
    } in
    let sent = send_raw a transaction.bytes in
    record sent {
      transactions =
          put_transaction (transaction_key branch r.method) transaction sent.transactions;
    }

-- A fresh branch.
unfoldable pub draw_branch : World → UserAgent → UserAgent × Bytes
draw_branch w a = let (drawn, hex) = draw_hex w a 10 in (drawn, codes "z9hG4bK" ++ hex)

unfoldable pub send_request :
    World → UserAgent → Request → Time → OnFinal → OnProvisional → UserAgent
send_request w a r now on_final on_provisional =
    let (drawn, branch) = draw_branch w a in
    send_request_under drawn r now on_final on_provisional branch

-- The challenge of a response: whether it is a proxy's, and what it says.
unfoldable pub challenge_of : Message → Option (Bool × Challenge)
challenge_of response = do
  let proxy = response.status == 407
  value ← header response (if proxy then codes "proxy-authenticate" else codes "www-authenticate")
  challenge ← parse_challenge value
  some (proxy, challenge)

-- authorization_for: the agent with the draws of the client nonce, and the header line.
unfoldable pub authorization_for :
    World → UserAgent → Message → Bytes → Bytes → UserAgent × Option Bytes
authorization_for w a response method uri = elim (challenge_of response) [
  | none ↦ (a, none)
  | some (proxy, challenge) ↦
      elim (authorization_value w.randomness a.draws
        (record { username = a.config.extension; password = a.config.password }) challenge method
        uri) [
          | none ↦ (a, none)
          | some value ↦ (
            record a { draws = a.draws + cnonce_draws challenge },
            some (
                (if proxy then codes "Proxy-Authorization" else codes "Authorization")
                ++ (codes ": " ++ value)),
          )
        ]
]

-- The header of an authorization line, if there is a line; `substr(colon + 1)` of a line with no ':'
-- is the whole line, and so is its name.
unfoldable pub authorization_header : Bytes → Headers
authorization_header authorization =
    let colon = find b':' authorization in
    let value = elim colon as (λ _. Bytes) [
      | none ↦ authorization
      | some i ↦ drop (suc i) authorization
    ] in
    if is_empty authorization then [] else (cut colon authorization, trim value) ∷ []
