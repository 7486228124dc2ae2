-- ===== src/Media/Checks.antt =====
-- The theorems on the media at concrete inputs.
use ketphone.Base.{
  ℤ, ℕ, ◌+◌, ◌≡◌, arith, true, List, [], ◌∷◌, some, length, replicate, take, pos, negsuc, ◌+ℤ◌,
  ◌-ℤ◌, ◌≤ℤ◌, inl,
}
use ketphone.Media.G711.{alaw_encode_all, alaw_decode_all}
use ketphone.Media.G711.RoundTrip.{alaw_encode_all-alaw_decode_all}
use ketphone.Media.Rtp.{RtpHeader, write_rtp, parse_rtp}
use ketphone.Media.Rtp.RoundTrip.{IsHeader, parse_rtp-write_rtp}
use ketphone.Media.Jitter
use ketphone.Media.Jitter.Delay.{IsDelay}
use ketphone.Media.Jitter.Fuel.{shrink-shrink_fuel}
use ketphone.Media.Jitter.Run.{Use, puts, pops, resets, target_delay_us-run}
use ketphone.Media.Ring
use ketphone.Media.Ring.{SpscRing}
use ketphone.Media.Ring.Capacity.{IsCapacity, init-IsCapacity}
use ketphone.Media.Ring.Queue.{Call, pushes, pops, discards, ring_run, queue_run}
use ketphone.Media.Ring.Refine.{ring_run-queue_run}
use ketphone.Media.Session
use ketphone.Media.Session.{MediaSession}
use ketphone.Media.Session.Packets.{IsSent, next_packet-IsSent}
use ketphone.Media.Statistics.{Floats, extend}
use ketphone.Media.Statistics.Extend.{extend_near, low16, low16-extend}

alaw_encode_all-alaw_decode_all_example :
    alaw_encode_all (alaw_decode_all (0 ∷ 0x55 ∷ 0xd5 ∷ 255 ∷ [])) ≡ 0 ∷ 0x55 ∷ 0xd5 ∷ 255 ∷ []
alaw_encode_all-alaw_decode_all_example =
    alaw_encode_all-alaw_decode_all (0 ∷ 0x55 ∷ 0xd5 ∷ 255 ∷ [])
      (omega arith, (omega arith, (omega arith, (omega arith, tt))))

abbrev some_header : RtpHeader
some_header = record {
  payload_type = 8;
  marker = true;
  sequence = 65535;
  timestamp = 160;
  ssrc = 0xdeadbeef;
}

abbrev some_header-IsHeader : IsHeader some_header
some_header-IsHeader = record {
  payload_type = omega arith;
  sequence = omega arith;
  timestamp = omega arith;
  ssrc = omega arith;
  no_rtcp = λ _. inl (omega arith);
}

parse_rtp-write_rtp_example :
    let written = write_rtp (replicate 20 0) some_header (1 ∷ 2 ∷ 3 ∷ []) in
    parse_rtp (take written.0 written.1)
    ≡ some (record { header = some_header; payload = 1 ∷ 2 ∷ 3 ∷ [] })
parse_rtp-write_rtp_example =
    parse_rtp-write_rtp (replicate 20 0) (1 ∷ 2 ∷ 3 ∷ []) some_header some_header-IsHeader
      (omega arith)

target_delay_us-run_example : IsDelay (
    Jitter.target_delay_us (
      Jitter.Run.run (Jitter.init (pos 60_000)) (
        puts (pos 7) (1 ∷ []) (pos 200_000)
        ∷ puts (pos 8) (2 ∷ []) (pos 290_000)
        ∷ pops (pos 400_000)
        ∷ [])))
target_delay_us-run_example = target_delay_us-run (pos 60_000) (
    puts (pos 7) (1 ∷ []) (pos 200_000)
    ∷ puts (pos 8) (2 ∷ []) (pos 290_000)
    ∷ pops (pos 400_000)
    ∷ [])

abbrev some_ring : Ring.SpscRing ℕ
some_ring = Ring.init 0 960

init-IsCapacity_example :
    IsCapacity 961 (Ring.capacity some_ring + 1)
    × (length some_ring.buffer ≡ Ring.capacity some_ring + 1)
init-IsCapacity_example = init-IsCapacity 0 960 (omega arith)

extend_near_example :
    (extend (pos 65530) 3 ≤ℤ pos 65530 +ℤ pos 32768)
    × (pos 65530 ≤ℤ extend (pos 65530) 3 +ℤ pos 32768)
extend_near_example = extend_near (pos 65530) 3 (omega arith)

low16-extend_example : low16 (extend (negsuc 2) 65000) ≡ 65000
low16-extend_example = low16-extend (negsuc 2) 65000 (omega arith)

shrink-shrink_fuel_example :
    Jitter.shrink 5 (pos 60_000) (Jitter.init (pos 60_000)) (pos 7) (pos 115_000)
    ≡ Jitter.shrink
        (Jitter.shrink_fuel (pos 60_000) (pos 115_000))
        (pos 60_000)
        (Jitter.init (pos 60_000))
        (pos 7)
        (pos 115_000)
unfolding ◌-ℤ◌
shrink-shrink_fuel_example =
    shrink-shrink_fuel 5 (pos 60_000) (Jitter.init (pos 60_000)) (pos 7) (pos 115_000) (omega arith)

abbrev some_floats : Floats
some_floats = record {
  Double = ℤ;
  zero = pos 0;
  of_int = λ n. n;
  abs = λ x. x;
  add = λ x y. x +ℤ y;
  sub = λ x y. x -ℤ y;
  div = λ x y. x;
}

abbrev some_session : MediaSession some_floats
some_session =
    record (Session.init some_floats (Ring.init (pos 0) 960) (Ring.init (pos 0) 960) (pos 60_000)) {
      send_header = some_header;
    }

next_packet-IsSent_example :
    let r = Session.next_packet some_floats some_session (replicate 200 0) in
    IsSent some_floats some_session r.0 r.1 r.2
next_packet-IsSent_example =
    next_packet-IsSent some_floats some_session (replicate 200 0) some_header-IsHeader (omega arith)

abbrev some_calls : List (Call ℕ)
some_calls =
    pushes (1 ∷ 2 ∷ 3 ∷ [])
    ∷ pops 2
    ∷ pushes (4 ∷ 5 ∷ 6 ∷ 7 ∷ 8 ∷ 9 ∷ 10 ∷ [])
    ∷ pops 9
    ∷ discards
    ∷ []

abbrev queue_ring : SpscRing ℕ
queue_ring = Ring.init 0 5

ring_run-queue_run_example :
    ring_run 0 queue_ring some_calls ≡ queue_run (Ring.capacity queue_ring) [] some_calls
ring_run-queue_run_example = ring_run-queue_run 0 5 some_calls (omega arith)
