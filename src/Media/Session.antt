-- ===== src/Media/Session.antt =====
-- src/media/media_session.cpp. The two rings that the session shares with the audio thread are part
-- of its state here: each call sees them as the thread left them.
pub mod Packets
use ketphone.Base.{
  ℕ, suc, ◌+◌, ◌-◌, ◌*◌, ◌/◌, ◌%◌, ◌^◌, Bool, true, false, not, ◌||◌, List, [], ◌++◌, Option, none,
  some, ltb, ◌==◌, if◌then◌else◌, length, take, replicate, map, min, ℤ, pos, negsuc, ◌-ℤ◌, Bytes,
  value_or,
}
use ketphone.Media.G711.{alaw_encode_all, alaw_decode_all}
use ketphone.Media.Jitter
use ketphone.Media.Jitter.{JitterBuffer, PutResult, PopResult}
use ketphone.Media.Ring
use ketphone.Media.Ring.{SpscRing}
use ketphone.Media.Rtp.{RtpHeader, RtpPacket, write_rtp, parse_rtp}
use ketphone.Media.Statistics
use ketphone.Media.Statistics.{Floats, ReceiveStatistics, initial_statistics}

-- kFrameSamples, kConcealRepeats and sip::kPayloadPcma.
abbrev pub frame_samples : ℕ
frame_samples = 160

abbrev conceal_repeats : ℕ
conceal_repeats = 3

abbrev payload_pcma : ℕ
payload_pcma = 8

pub record MediaStats (F : Floats) : Type 0 where
  pub packets_sent : ℕ
  pub packets_received : ℕ
  pub packets_lost : ℕ
  pub packets_late : ℕ
  pub frames_concealed : ℕ
  pub frames_expanded : ℕ
  pub frames_dropped : ℕ
  pub jitter_ms : F.Double
  pub playout_delay_ms : F.Double

pub record MediaSession (F : Floats) : Type 0 where
  pub capture : SpscRing ℤ
  pub playout : SpscRing ℤ
  pub jitter : JitterBuffer
  pub receive : ReceiveStatistics F
  pub active : Bool
  pub have_remote_ssrc : Bool
  pub remote_ssrc : ℕ
  pub send_header : RtpHeader
  pub stats : MediaStats F
  pub last_played : List ℤ
  pub concealed_in_a_row : ℕ

abbrev silence : List ℤ
silence = replicate frame_samples (pos 0)

no_stats : (F : Floats) → MediaStats F
no_stats F = record {
  packets_sent = 0;
  packets_received = 0;
  packets_lost = 0;
  packets_late = 0;
  frames_concealed = 0;
  frames_expanded = 0;
  frames_dropped = 0;
  jitter_ms = F.zero;
  playout_delay_ms = F.zero;
}

-- sample / 2 on a signed integer rounds towards 0.
half : ℤ → ℤ
half (pos n) = pos (n / 2)
half (negsuc n) = pos 0 -ℤ pos (suc n / 2)

-- An array of `frame_samples` that begins with these samples and is 0 behind them.
abbrev pub padded : List ℤ → List ℤ
padded xs = take frame_samples (xs ++ silence)

-- static_cast<uint32_t>(arrival_us * 8 / 1000).
arrival_rtp : ℤ → ℕ
arrival_rtp (pos n) = n * 8 / 1000 % 2 ^ 32
arrival_rtp (negsuc n) = (2 ^ 32 - suc n * 8 / 1000 % 2 ^ 32) % 2 ^ 32

module _ (F : Floats) where
  -- The constructor.
  unfoldable pub init : SpscRing ℤ → SpscRing ℤ → ℤ → MediaSession F
  unfolding no_stats
  init capture playout initial_delay_us = record {
    capture = capture;
    playout = playout;
    jitter = Jitter.init initial_delay_us;
    receive = initial_statistics F;
    active = false;
    have_remote_ssrc = false;
    remote_ssrc = 0;
    send_header = record {
      payload_type = 0;
      marker = false;
      sequence = 0;
      timestamp = 0;
      ssrc = 0;
    };
    stats = no_stats F;
    last_played = silence;
    concealed_in_a_row = 0;
  }

  pub start : MediaSession F → ℕ → ℕ → ℕ → MediaSession F
  unfolding no_stats
  start s ssrc first_sequence first_timestamp = record s {
    capture = Ring.discard s.capture;
    jitter = Jitter.reset s.jitter;
    receive = initial_statistics F;
    stats = no_stats F;
    have_remote_ssrc = false;
    last_played = silence;
    concealed_in_a_row = 0;
    send_header = record {
      payload_type = payload_pcma;
      marker = true;
      sequence = first_sequence;
      timestamp = first_timestamp;
      ssrc = ssrc;
    };
    active = true;
  }

  unfoldable pub stop : MediaSession F → MediaSession F
  stop s = record s { active = false }

  -- The header of the packet behind one with this header.
  next_header : RtpHeader → RtpHeader
  next_header h = record h {
    marker = false;
    sequence = (h.sequence + 1) % 2 ^ 16;
    timestamp = (h.timestamp + frame_samples) % 2 ^ 32;
  }

  -- The new state, the size, and the buffer `out` afterwards.
  pub next_packet : MediaSession F → Bytes → MediaSession F × ℕ × Bytes
  unfolding next_header
  next_packet s out =
      let (capture, samples) = Ring.pop (pos 0) s.capture frame_samples in
      let (size, written) = write_rtp out s.send_header (alaw_encode_all (padded samples)) in
      let popped = record s { capture = capture } in
      if size == 0 then (popped, 0, written) else (
        record popped {
          send_header = next_header s.send_header;
          stats = record (s.stats) { packets_sent = suc s.stats.packets_sent };
        },
        size,
        written,
      )

  -- A packet of another source starts the receiving side again.
  follow_ssrc : MediaSession F → ℕ → MediaSession F
  follow_ssrc s ssrc =
      if not s.have_remote_ssrc || not (ssrc == s.remote_ssrc)
      then record s {
        have_remote_ssrc = true;
        remote_ssrc = ssrc;
        receive = initial_statistics F;
        jitter = Jitter.reset s.jitter;
      }
      else s

  abbrev count_late : PutResult → ℕ → ℕ
  count_late PutResult.late n = suc n
  count_late PutResult.stored n = n
  count_late PutResult.duplicate n = n

  receive_packet : MediaSession F → RtpPacket → ℤ → MediaSession F
  unfolding follow_ssrc arrival_rtp
  receive_packet s packet arrival_us =
      let h = packet.header in
      let followed = follow_ssrc s h.ssrc in
      let (receive, sequence) =
        Statistics.on_packet F followed.receive h.sequence h.timestamp (arrival_rtp arrival_us) in
      let (jitter, result) = Jitter.put followed.jitter sequence packet.payload arrival_us in
      let counted = followed.stats in
      record followed {
        receive = receive;
        jitter = jitter;
        stats = record counted {
          packets_received = suc counted.packets_received;
          packets_late = count_late result counted.packets_late;
        };
      }

  receive_pcma : MediaSession F → Option RtpPacket → ℤ → MediaSession F
  unfolding receive_packet
  receive_pcma s none arrival_us = s
  receive_pcma s (some packet) arrival_us =
      if packet.header.payload_type == payload_pcma then receive_packet s packet arrival_us else s

  pub on_packet : MediaSession F → Bytes → ℤ → MediaSession F
  unfolding receive_pcma
  on_packet s datagram arrival_us = receive_pcma s (parse_rtp datagram) arrival_us

  -- The concealment of a missing or repeated frame: the session and the samples to play.
  conceal : MediaSession F → MediaSession F × List ℤ
  unfolding half
  conceal s =
      let halved = map half s.last_played in
      let next = suc s.concealed_in_a_row in
      if ltb s.concealed_in_a_row conceal_repeats
      then (record s { last_played = halved; concealed_in_a_row = next }, halved)
      else (record s { concealed_in_a_row = next }, silence)

  frame_for : PopResult → MediaSession F → Bytes → MediaSession F × List ℤ
  unfolding conceal
  frame_for PopResult.played s frame =
      let samples = padded (alaw_decode_all (take (min (length frame) frame_samples) frame)) in
      (record s { last_played = samples; concealed_in_a_row = 0 }, samples)
  frame_for PopResult.missing s frame =
      conceal
        (record s { stats = record (s.stats) { frames_concealed = suc s.stats.frames_concealed } })
  frame_for PopResult.expanding s frame = conceal s
  frame_for PopResult.buffering s frame = (s, silence)

  pub play_frame : MediaSession F → ℤ → MediaSession F
  unfolding frame_for
  play_frame s now_us =
      let (result, jitter, frame) = Jitter.pop s.jitter now_us in
      let (played, samples) = frame_for result (record s { jitter = jitter }) (value_or frame []) in
      record played { playout = (Ring.push played.playout samples).0 }

  pub stats_of : MediaSession F → MediaStats F
  stats_of s = record (s.stats) {
    packets_lost = Statistics.lost F s.receive;
    jitter_ms = F.div s.receive.jitter (F.of_int (pos 8));
    frames_expanded = s.jitter.expanded;
    frames_dropped = s.jitter.dropped;
    playout_delay_ms = F.div (F.of_int (Jitter.target_delay_us s.jitter)) (F.of_int (pos 1000));
  }
