-- ===== src/Media/Session/Packets.antt =====
-- The packets that a session sends.
use ketphone.Base.{
  ℕ, suc, ◌+◌, ◌%◌, ◌^◌, ◌≤◌, ◌≡◌, refl, arith, false, List, ◌++◌, some, ℤ, pos, length, take,
  length-take, length-append, Bytes, if_case, ◌==◌,
}
use ketphone.Media.G711.{alaw_encode_all}
use ketphone.Media.G711.RoundTrip.{length-alaw_encode_all}
use ketphone.Media.Ring
use ketphone.Media.Rtp.{parse_rtp, write_rtp}
use ketphone.Media.Rtp.RoundTrip.{IsHeader, parse_rtp-write_rtp, write_rtp-size}
use ketphone.Media.Session.{MediaSession, next_packet, next_header, padded, silence, frame_samples}
use ketphone.Media.Statistics.{Floats}

module _ (F : Floats) where
  -- A packet as the far end reads it, and the session behind it.
  pub record IsSent (s after : MediaSession F) (sent : ℕ) (written : Bytes) : Type 0 where
    pub size : sent ≡ 172
    pub parsed :
        parse_rtp (take sent written)
        ≡ some (record {
          header = s.send_header;
          payload = alaw_encode_all (padded (Ring.pop (pos 0) s.capture frame_samples).1);
        })
    pub header : IsHeader after.send_header
    pub sequence : after.send_header.sequence ≡ (s.send_header.sequence + 1) % 65536
    pub timestamp : after.send_header.timestamp ≡ (s.send_header.timestamp + 160) % 2 ^ 32
    pub ssrc : after.send_header.ssrc ≡ s.send_header.ssrc
    pub marker : after.send_header.marker ≡ false
    pub count : after.stats.packets_sent ≡ suc s.stats.packets_sent

padded-length : (samples : List ℤ) → length (alaw_encode_all (padded samples)) ≡ 160
padded-length samples = omega (
  arith,
  length-alaw_encode_all (padded samples),
  length-take 160 (samples ++ silence),
  length-append samples silence,
)

module _ (F : Floats) where
  -- Where the header to send is one that parses and the buffer has room for 172 bytes, next_packet
  -- writes 172 bytes that parse as this header with the next 160 samples of the capture ring, silence
  -- behind them, as A-law; the header after it parses too, and has the next sequence number, a
  -- timestamp 160 later, the same source and no marker; and one more packet is counted.
  pub next_packet-IsSent :
      (s : MediaSession F) (out : Bytes)
      → IsHeader s.send_header
      → 172 ≤ length out
      → let r = next_packet F s out in IsSent F s r.0 r.1 r.2
  unfolding next_packet next_header
  next_packet-IsSent s out v room =
      let payload = alaw_encode_all (padded (Ring.pop (pos 0) s.capture frame_samples).1) in
      let filled = padded-length (Ring.pop (pos 0) s.capture frame_samples).1 in
      let fits : length payload + 12 ≤ length out = omega arith in
      let size = write_rtp-size out payload s.send_header fits in
      if_case (λ (r : MediaSession F × ℕ × Bytes). IsSent F s r.0 r.1 r.2)
        ((write_rtp out s.send_header payload).0 == 0) (λ nothing. ground arith)
        λ _. record {
          size = omega arith;
          parsed = parse_rtp-write_rtp out payload s.send_header v fits;
          header = record {
            payload_type = v.payload_type;
            sequence = omega arith;
            timestamp = omega arith;
            ssrc = v.ssrc;
            no_rtcp = λ marked. ground arith;
          };
          sequence = refl;
          timestamp = refl;
          ssrc = refl;
          marker = refl;
          count = refl;
        }
