-- ===== src/Media/Rtp.antt =====
-- src/media/rtp.cpp, the packets. A shift is a division, a mask of low bits a remainder, and a join
-- of parts that share no bit a sum.
pub mod RoundTrip
use ketphone.Base.{
  ℕ, ◌+◌, ◌-◌, ◌*◌, ◌/◌, ◌%◌, ◌^◌, Bool, not, ◌&&◌, ◌||◌, [], ◌∷◌, ◌++◌, Option, none, some, ltb,
  leb, ◌==◌, if◌then◌else◌, length, get_or, take, drop, Bytes,
}

-- kRtpHeaderSize.
abbrev pub rtp_header_size : ℕ
rtp_header_size = 12

pub record RtpHeader : Type 0 where
  pub payload_type : ℕ
  pub marker : Bool
  pub sequence : ℕ
  pub timestamp : ℕ
  pub ssrc : ℕ

pub record RtpPacket : Type 0 where
  pub header : RtpHeader
  pub payload : Bytes

-- The four bytes of a uint32_t, the highest first.
abbrev bytes32 : ℕ → Bytes
bytes32 v = (v / 2 ^ 24 % 256) ∷ (v / 2 ^ 16 % 256) ∷ (v / 2 ^ 8 % 256) ∷ (v % 256) ∷ []

abbrev header_bytes : RtpHeader → Bytes
header_bytes h =
    0x80
    ∷ ((if h.marker then 0x80 else 0) + h.payload_type % 128)
    ∷ (h.sequence / 2 ^ 8 % 256)
    ∷ (h.sequence % 256)
    ∷ (bytes32 h.timestamp ++ bytes32 h.ssrc)

-- The size written and the buffer `out` afterwards.
pub write_rtp : Bytes → RtpHeader → Bytes → ℕ × Bytes
write_rtp out header payload =
    let size = rtp_header_size + length payload in
    if ltb (length out) size
    then (0, out)
    else (size, header_bytes header ++ (payload ++ drop size out))

abbrev byte_at : Bytes → ℕ → ℕ
byte_at p i = get_or p i 0

abbrev read16 : Bytes → ℕ → ℕ
read16 p i = byte_at p i * 2 ^ 8 + byte_at p (i + 1)

abbrev read32 : Bytes → ℕ → ℕ
read32 p i =
    byte_at p i * 2 ^ 24
    + byte_at p (i + 1) * 2 ^ 16
    + byte_at p (i + 2) * 2 ^ 8
    + byte_at p (i + 3)

-- A bit of the first byte.
abbrev has_bit : ℕ → ℕ → Bool
has_bit byte mask = byte / mask % 2 == 1

-- Where the payload begins: behind the CSRCs and the header extension, if the datagram holds the
-- extension's own header.
payload_offset : Bytes → Option ℕ
payload_offset p =
    let offset = rtp_header_size + 4 * (byte_at p 0 % 16) in
    if has_bit (byte_at p 0) 0x10
    then (if ltb (length p) (offset + 4)
        then none
        else some (offset + (4 + 4 * read16 p (offset + 2))))
    else some offset

-- Where the payload ends: before the padding. `end - offset` is a size_t and wraps.
payload_end : Bytes → ℕ → Option ℕ
payload_end p offset =
    let end = length p in
    let padding = byte_at p (end - 1) in
    if has_bit (byte_at p 0) 0x20
    then (if padding == 0 || ltb ((end + 2 ^ 64 - offset) % 2 ^ 64) padding
        then none
        else some (end - padding))
    else some end

packet_between : Bytes → ℕ → ℕ → Option RtpPacket
packet_between p offset end =
    if ltb end offset
    then none
    else some (record {
      header = record {
        payload_type = byte_at p 1 % 128;
        marker = leb 128 (byte_at p 1);
        sequence = read16 p 2;
        timestamp = read32 p 4;
        ssrc = read32 p 8;
      };
      payload = take (end - offset) (drop offset p);
    })

packet_from : Bytes → Option ℕ → Option RtpPacket
unfolding payload_end packet_between
packet_from p none = none
packet_from p (some offset) = elim (payload_end p offset) [
  | none ↦ none
  | some end ↦ packet_between p offset end
]

pub parse_rtp : Bytes → Option RtpPacket
unfolding payload_offset packet_from
parse_rtp p =
    let second = byte_at p 1 in
    if ltb (length p) rtp_header_size
    then none
    else if not (byte_at p 0 / 64 == 2)
    then none
    else if leb 200 second && leb second 204
    then none
    else packet_from p (payload_offset p)
