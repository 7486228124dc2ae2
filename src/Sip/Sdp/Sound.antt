-- ===== src/Sip/Sdp/Sound.antt =====
-- What a description that parse_audio accepts holds.
use ketphone.Base.{
  ◌≤◌, ◌≡◌, ◌≢◌, arith, false, List, [], ◌∷◌, Option, none, some, length, Bytes, All, All-append,
  is_empty, if_case, option_case, ◌||◌, ◌==◌, drop, Option-cases, subst, inl, inr, not,
  if◌then◌else◌, codes,
}
use ketphone.Sip.Sdp.{
  AudioDescription, SdesCrypto, Scan, Flow, continues, breaks, returns_none, parse_audio,
  parse_crypto, add_crypto, apply_attribute, scan_attribute, scan_connection, scan_media, scan_line,
  scan_lines, finish_scan, no_scan, connection_address, parse_media,
}
use ketphone.Sip.Text.{text_eq, starts_with, split_lines}

-- A key that this side can use.
abbrev pub IsKey : SdesCrypto → Type 0
IsKey c = (length c.key ≡ 30) × (c.tag ≤ 999_999_999)

abbrev HasKey : Option SdesCrypto → Type 0
HasKey none = Unit
HasKey (some c) = IsKey c

abbrev HasAddress : Option Bytes → Type 0
HasAddress none = Unit
HasAddress (some address) = is_empty address ≡ false

abbrev HasKeys : Option AudioDescription → Type 0
HasKeys none = Unit
HasKeys (some a) = All IsKey a.crypto

pub record IsUsable (a : AudioDescription) : Type 0 where
  pub address : is_empty a.address ≡ false
  pub port : a.port ≢ 0
  pub keys : All IsKey a.crypto

record IsScan (s : Scan) : Type 0 where
  session : HasAddress s.session_address
  media : HasAddress s.media_address
  keys : HasKeys s.audio

abbrev IsFlow : Flow → Type 0
IsFlow (continues s) = IsScan s
IsFlow (breaks s) = IsScan s
IsFlow returns_none = Unit

address_of :
    (value address : Bytes) → connection_address value ≡ some address → is_empty address ≡ false
unfolding connection_address
address_of value address e = ground arith

connection_address-HasAddress : (value : Bytes) → HasAddress (connection_address value)
connection_address-HasAddress value = elim (Option-cases (connection_address value)) [
  | inl e ↦ rw e tt
  | inr (address, e) ↦ rw e (address_of value address e)
]

IsKey-parse_crypto : (value : Bytes) (c : SdesCrypto) → parse_crypto value ≡ some c → IsKey c
unfolding parse_crypto
IsKey-parse_crypto value c e = ground arith

parse_crypto-HasKey : (value : Bytes) → HasKey (parse_crypto value)
parse_crypto-HasKey value = elim (Option-cases (parse_crypto value)) [
  | inl e ↦ rw e tt
  | inr (c, e) ↦ rw e (IsKey-parse_crypto value c e)
]

add_crypto-keys :
    (crypto : Option SdesCrypto) (a : AudioDescription)
    → HasKey crypto
    → All IsKey a.crypto
    → All IsKey (add_crypto crypto a).crypto
unfolding add_crypto
add_crypto-keys none a h k = k
add_crypto-keys (some crypto) a h k = All-append IsKey a.crypto (crypto ∷ []) k (h, tt)

apply_attribute-keys :
    (a : AudioDescription) (value : Bytes)
    → All IsKey a.crypto
    → All IsKey (apply_attribute a value).crypto
unfolding apply_attribute
apply_attribute-keys a value k =
    let directed =
      if text_eq value (codes "inactive") || text_eq value (codes "recvonly")
      then record a { remote_sends = false }
      else a in
    let kept : All IsKey directed.crypto =
      if_case (λ (d : AudioDescription). All IsKey d.crypto)
        (text_eq value (codes "inactive") || text_eq value (codes "recvonly")) (λ _. k) (λ _. k) in
    if_case (λ (d : AudioDescription). All IsKey d.crypto) (starts_with (codes "crypto:") value)
      (λ _. add_crypto-keys _ directed (parse_crypto-HasKey (drop 7 value)) kept) (λ _. kept)

scan_attribute-IsScan :
    (a : Option AudioDescription) (s : Scan) (value : Bytes)
    → HasKeys a
    → IsScan s
    → IsScan (scan_attribute a s value)
unfolding scan_attribute
scan_attribute-IsScan none s value h v = v
scan_attribute-IsScan (some a) s value h v =
    if_case IsScan s.in_audio
      (λ _. record { session = v.session; media = v.media; keys = apply_attribute-keys a value h })
      (λ _. v)

scan_connection-IsScan : (s : Scan) (value : Bytes) → IsScan s → IsScan (scan_connection s value)
unfolding scan_connection
scan_connection-IsScan s value v =
    let found = connection_address-HasAddress value in
    if_case IsScan s.in_audio (λ _. record { session = v.session; media = found; keys = v.keys })
      (λ _.
        if_case IsScan (not s.seen_audio)
          (λ _. record { session = found; media = v.media; keys = v.keys }) (λ _. v))

-- A new stream has no keys yet.
no_keys : (text : Bytes) (a : AudioDescription) → parse_media text ≡ some a → a.crypto ≡ []
unfolding parse_media
no_keys text a e = ground arith

scan_media-IsFlow : (s : Scan) (value : Bytes) → IsScan s → IsFlow (scan_media s value)
unfolding scan_media
scan_media-IsFlow s value v =
    if_case IsFlow s.seen_audio (λ _. v)
      λ _.
        if_case IsFlow (not (starts_with (codes "audio ") value))
          (λ _. record { session = v.session; media = v.media; keys = v.keys })
          λ _.
            option_case IsFlow (parse_media (drop 6 value)) (λ _. tt)
              λ audio e. record {
                session = v.session;
                media = v.media;
                keys = rw (no_keys (drop 6 value) audio e) tt;
              }

scan_line-IsFlow : (s : Scan) (line : Bytes) → IsScan s → IsFlow (scan_line s line)
unfolding scan_line
scan_line-IsFlow s [] v = v
scan_line-IsFlow s (c ∷ []) v = v
scan_line-IsFlow s (type ∷ d ∷ value) v =
    if_case IsFlow (not (d == b'=')) (λ _. v)
      λ _.
        if_case IsFlow (type == b'm') (λ _. scan_media-IsFlow s value v)
          λ _.
            if_case IsFlow (type == b'c') (λ _. scan_connection-IsScan s value v)
              λ _.
                if_case IsFlow (type == b'a') (λ _. scan_attribute-IsScan s.audio s value v.keys v)
                  λ _. v

abbrev HasScan : Option Scan → Type 0
HasScan none = Unit
HasScan (some s) = IsScan s

scan_lines-HasScan : (s : Scan) (lines : List Bytes) → IsScan s → HasScan (scan_lines s lines)
unfolding scan_lines
scan_lines-HasScan s [] v = v
scan_lines-HasScan s (line ∷ lines) v =
    go (scan_line s line) (λ t w. scan_lines-HasScan t lines w) (scan_line-IsFlow s line v)
  where
    go :
        (flow : Flow)
        → ((t : Scan) → IsScan t → HasScan (scan_lines t lines))
        → IsFlow flow
        → HasScan (elim flow as (λ _. Option Scan) [
          | continues t ↦ scan_lines t lines
          | breaks t ↦ some t
          | returns_none ↦ none
        ])
    go (continues t) later w = later t w
    go (breaks t) later w = w
    go returns_none later w = tt

finish_scan-IsUsable :
    (s : Scan) (a : AudioDescription) → IsScan s → finish_scan s ≡ some a → IsUsable a
unfolding finish_scan
finish_scan-IsUsable s a v e = elim (Option-cases s.audio) [
  | inl absent ↦ ground arith
  | inr (b, held) ↦
      let keys = subst HasKeys held v.keys in
      elim (Option-cases s.media_address) [
        | inr (address, there) ↦ let filled = subst HasAddress there v.media in ground arith
        | inl absent ↦ elim (Option-cases s.session_address) [
          | inr (address, there) ↦ let filled = subst HasAddress there v.session in ground arith
          | inl none_either ↦ ground arith
        ]
      ]
]

-- A description that parse_audio gives has an address that is not empty and a port that is not 0, and
-- each of its keys has 30 bytes and a tag of at most nine digits.
pub parse_audio-IsUsable :
    (sdp : Bytes) (a : AudioDescription) → parse_audio sdp ≡ some a → IsUsable a
unfolding parse_audio
parse_audio-IsUsable sdp a e = elim (Option-cases (scan_lines no_scan (split_lines sdp))) [
  | inl absent ↦ ground arith
  | inr (s, done) ↦
      finish_scan-IsUsable s a
        (subst HasScan done (
          scan_lines-HasScan no_scan (split_lines sdp)
            (record { session = tt; media = tt; keys = tt })))
        (rw done at e)
]
