-- ===== src/Media/Rtp/RoundTrip.antt =====
-- Writing a packet and parsing it.
use ketphone.Base.{
  ℕ, ◌+◌, ◌^◌, ◌≤◌, ◌<◌, ◌≡◌, ap, ◌∙◌, ◌⊎◌, true, some, arith, ◌++◌, ltb, length, take, drop,
  take-append, take_all, Bytes, if_case, subst,
}
use ketphone.Media.Rtp.{
  RtpHeader, header_bytes, write_rtp, parse_rtp, payload_offset, payload_end, packet_from,
  packet_between, rtp_header_size,
}

-- The fields fit their widths, and the second byte is not one of RTCP's packet types.
pub record IsHeader (h : RtpHeader) : Type 0 where
  pub payload_type : h.payload_type < 128
  pub sequence : h.sequence < 2 ^ 16
  pub timestamp : h.timestamp < 2 ^ 32
  pub ssrc : h.ssrc < 2 ^ 32
  pub no_rtcp : h.marker ≡ true → (h.payload_type < 72) ⊎ (76 < h.payload_type)

written-take :
    (out payload : Bytes) (h : RtpHeader)
    → length payload + 12 ≤ length out
    → take (write_rtp out h payload).0 (write_rtp out h payload).1 ≡ header_bytes h ++ payload
unfolding write_rtp
written-take out payload h fits =
    let written = header_bytes h ++ payload in
    let size = rtp_header_size + length payload in
    let sized : length written ≡ size = omega arith in
    if_case (λ (r : ℕ × Bytes). take r.0 r.1 ≡ written) (ltb (length out) size)
      (λ short. ground arith)
      λ _.
        subst (λ n. take n (written ++ drop size out) ≡ written) sized
          (take-append written (drop size out))

pub write_rtp-size :
    (out payload : Bytes) (h : RtpHeader)
    → length payload + 12 ≤ length out
    → (write_rtp out h payload).0 ≡ length payload + 12
unfolding write_rtp
write_rtp-size out payload h fits = ground arith

parse-header :
    (h : RtpHeader) (payload : Bytes)
    → IsHeader h
    → parse_rtp (header_bytes h ++ payload) ≡ some (record { header = h; payload = payload })
unfolding parse_rtp packet_from packet_between payload_end payload_offset
parse-header h payload v = ground (arith, take_all payload (length payload))

-- Where the fields fit their widths, the second byte is not an RTCP packet type and the buffer has
-- room for the packet, parsing what write_rtp wrote gives the header and the payload back.
pub parse_rtp-write_rtp :
    (out payload : Bytes) (h : RtpHeader)
    → IsHeader h
    → length payload + 12 ≤ length out
    → let written = write_rtp out h payload in
      parse_rtp (take written.0 written.1) ≡ some (record { header = h; payload = payload })
parse_rtp-write_rtp out payload h v fits =
    ap parse_rtp (written-take out payload h fits) ∙ parse-header h payload v
