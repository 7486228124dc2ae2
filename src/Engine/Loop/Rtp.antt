-- ===== src/Engine/Loop/Rtp.antt =====
-- src/core/engine.cpp, the media part of a turn. The buffer that libsrtp works on for an incoming
-- packet is the packet itself: nothing reads behind it.
pub mod Sealed
pub mod Pace
use ketphone.Base.{
  ℕ, zero, suc, ◌+◌, ◌-◌, ◌*◌, ◌/◌, ◌==◌, Bool, true, false, not, ◌&&◌, List, [], ◌∷◌, ◌++◌, Option,
  none, some, if◌then◌else◌, ltb, leb, is_empty, is_some, Bytes, length, take, replicate, pos,
}
use ketphone.Core.Types.{Time, milliseconds}
use ketphone.Engine.Media.{EngineMedia, publish_stats}
use ketphone.Media.Session
use ketphone.Media.Session.{MediaSession}
use ketphone.Media.Srtp.{Libsrtp, SrtpStream, protect, unprotect, srtp_trailer_room}
use ketphone.Media.Statistics.{Floats}
use ketphone.Net.Socket.{Arrival, UdpSocket, receive, target}

-- kFrame and kMaxPacketSize.
abbrev pub frame : Time
frame = milliseconds 20

abbrev pub max_packet_size : ℕ
max_packet_size = 172

-- std::chrono::microseconds since the clock's origin.
abbrev pub micros : Time → ℕ
micros at = at / 1000

module _ {F : Floats} {L : Libsrtp} where
  hear : EngineMedia F L → Bytes → Time → EngineMedia F L
  hear m packet now = record m {
    session = Session.on_packet F m.session packet (pos (micros now));
    heard = m.heard ++ packet ∷ [];
  }

  -- Over SRTP, only what authenticates is heard.
  take_packet : EngineMedia F L → Option (SrtpStream L) → Bytes → Time → EngineMedia F L
  unfolding hear
  take_packet m none bytes now = hear m bytes now
  take_packet m (some stream) bytes now =
      let (stream, buffer, plain) = unprotect L stream bytes (length bytes) in
      let moved : EngineMedia F L = record m { srtp_in = some stream } in
      elim plain as (λ _. EngineMedia F L) [
        | none ↦ moved
        | some size ↦ hear moved (take size buffer) now
      ]

  pub receive_media : EngineMedia F L → Time → List Arrival → EngineMedia F L
  unfolding take_packet
  receive_media m now [] = m
  receive_media m now (a ∷ rest) =
      elim (is_some m.rtp && m.session.active) as (λ _. EngineMedia F L) [
        | false ↦ m
        | true ↦ elim (receive false a) as (λ _. EngineMedia F L) [
          | none ↦ m
          | some (bytes, from) ↦ elim (is_empty bytes) as (λ _. EngineMedia F L) [
            | true ↦ m
            | false ↦ receive_media (take_packet m m.srtp_in bytes now) now rest
          ]
        ]
      ]

  -- A packet of a size in a buffer as it goes out: under SRTP where there is a stream.
  seal : EngineMedia F L → Option (SrtpStream L) → Bytes → ℕ → EngineMedia F L × Bytes × ℕ
  seal m none buffer size = (m, buffer, size)
  seal m (some stream) buffer size =
      let (stream, buffer', sealed) = protect L stream buffer size in
      if size == 0 then (m, buffer, 0) else (record m { srtp_out = some stream }, buffer', sealed)

  -- send_to on the media socket.
  send_on : EngineMedia F L → Option UdpSocket → Bytes → EngineMedia F L
  send_on m none packet = m
  send_on m (some socket) packet =
      if is_some (target socket m.rtp_remote)
      then record m { sent = m.sent ++ (packet, m.rtp_remote) ∷ [] }
      else m

  -- The frame that is due: a packet out, and a frame to play.
  play_one : EngineMedia F L → EngineMedia F L
  unfolding seal send_on
  play_one m =
      let (session, size, packet) = Session.next_packet F m.session (replicate max_packet_size 0) in
      let made : EngineMedia F L = record m { session = session } in
      let (sealed, buffer, length) =
        seal made m.srtp_out (packet ++ replicate srtp_trailer_room 0) size in
      let gone = if length == 0 then sealed else send_on sealed sealed.rtp (take length buffer) in
      record gone {
        session = Session.play_frame F gone.session (pos (micros gone.next_frame));
        next_frame = gone.next_frame + frame;
      }

  -- After a stall of more than ten frames, the frames start again from now.
  catch_up : EngineMedia F L → Time → EngineMedia F L
  catch_up m now =
      if ltb (10 * frame) (now - m.next_frame) then record m { next_frame = now } else m

  -- Frames while one is due, at most as many as the first number.
  pub play_due : ℕ → EngineMedia F L → Time → EngineMedia F L
  unfolding play_one
  play_due zero m now = m
  play_due (suc fuel) m now =
      let rest = play_due fuel (play_one m) now in if leb m.next_frame now then rest else m

  -- Ten frames that were missed and the one that is due now.
  pub play_frames : EngineMedia F L → Time → EngineMedia F L
  unfolding catch_up
  play_frames m now =
      if m.session.active && is_some m.rtp && leb m.next_frame now
      then publish_stats (play_due 11 (catch_up m now) now)
      else m
