-- ===== src/Engine/Loop/Rtp/Pace.antt =====
-- How fast the frames go.
use ketphone.Base.{
  ℕ, zero, suc, ◌+◌, ◌-◌, ◌*◌, ◌≤◌, ◌<◌, ◌==◌, true, ◌&&◌, List, [], ◌∷◌, ◌++◌, ◌≡◌, refl, ap, ◌∙◌,
  Option, none, some, is_some, if_case, arith, Bytes, length, length-append, take, replicate, leb,
  ltb,
}
use ketphone.Core.Types.{Time}
use ketphone.Engine.Loop.Rtp.{
  frame, max_packet_size, seal, send_on, play_one, catch_up, play_due, play_frames,
}
use ketphone.Engine.Media.{EngineMedia, publish_stats}
use ketphone.Media.Session
use ketphone.Media.Srtp.{Libsrtp, SrtpStream, srtp_trailer_room}
use ketphone.Media.Statistics.{Floats}
use ketphone.Net.Endpoint.{Endpoint}
use ketphone.Net.Socket.{UdpSocket, target}

module _ {F : Floats} {L : Libsrtp} where
  -- One frame: the next is 20 ms later, and at most one packet went out.
  abbrev IsStep : EngineMedia F L → EngineMedia F L → Type 0
  IsStep m n = (n.next_frame ≡ m.next_frame) × (length n.sent ≤ length m.sent + 1)

  seal-next_frame :
      (m : EngineMedia F L) (o : Option (SrtpStream L)) (buffer : Bytes) (size : ℕ)
      → ((seal m o buffer size).0.next_frame ≡ m.next_frame)
        × ((seal m o buffer size).0.sent ≡ m.sent)
  unfolding seal
  seal-next_frame m none buffer size = (refl, refl)
  seal-next_frame m (some stream) buffer size =
      if_case
        (λ (r : EngineMedia F L × Bytes × ℕ). (r.0.next_frame ≡ m.next_frame) × (r.0.sent ≡ m.sent))
        (size == 0) (λ _. (refl, refl)) (λ _. (refl, refl))

  send_on-IsStep :
      (m : EngineMedia F L) (o : Option UdpSocket) (packet : Bytes) → IsStep m (send_on m o packet)
  unfolding send_on
  send_on-IsStep m none packet = (refl, omega arith)
  send_on-IsStep m (some socket) packet =
      if_case (IsStep m) (is_some (target socket m.rtp_remote))
        (λ _. (refl, omega (arith, length-append m.sent ((packet, m.rtp_remote) ∷ []))))
        (λ _. (refl, omega arith))

  play_one-next_frame :
      (m : EngineMedia F L)
      → ((play_one m).next_frame ≡ m.next_frame + frame)
        × (length (play_one m).sent ≤ length m.sent + 1)
  unfolding play_one
  play_one-next_frame m =
      let (session, size, packet) = Session.next_packet F m.session (replicate max_packet_size 0) in
      let made : EngineMedia F L = record m { session = session } in
      let room = packet ++ replicate srtp_trailer_room 0 in
      let (sealed, buffer, sized) = seal made m.srtp_out room size in
      let kept = seal-next_frame made m.srtp_out room size in
      let sent = send_on-IsStep sealed sealed.rtp (take sized buffer) in
      if_case
        (λ (n : EngineMedia F L).
          (n.next_frame + frame ≡ m.next_frame + frame) × (length n.sent ≤ length m.sent + 1))
        (sized == 0)
        (λ _. (
          ap (λ n. n + frame) kept.0,
          omega (arith, ap (λ (p : List (Bytes × Endpoint)). length p) kept.1),
        ))
        (λ _. (
          ap (λ n. n + frame) (sent.0 ∙ kept.0),
          omega (arith, sent.1, ap (λ (p : List (Bytes × Endpoint)). length p) kept.1),
        ))

  play_due-next_frame :
      (fuel : ℕ) (m : EngineMedia F L) (now : Time)
      → now < m.next_frame + fuel * frame
      → m.next_frame ≤ now + frame
      → let n = play_due fuel m now in
        (now < n.next_frame) × (n.next_frame ≤ now + frame) × (length n.sent ≤ length m.sent + fuel)
  unfolding play_due
  play_due-next_frame zero m now h b = (omega (arith, h), b, omega arith)
  play_due-next_frame (suc fuel) m now h b =
      let one = play_one-next_frame m in
      if_case
        (λ (n : EngineMedia F L).
          (now < n.next_frame)
          × (n.next_frame ≤ now + frame)
          × (length n.sent ≤ length m.sent + suc fuel))
        (leb m.next_frame now)
        (λ due.
          let due : m.next_frame ≤ now = ground (arith, due) in
          let rest =
            play_due-next_frame fuel (play_one m) now (omega (arith, h, one.0))
              (omega (arith, one.0, due)) in
          (rest.0, rest.1, omega (arith, rest.2, one.1)))
        (λ early. (ground (arith, early), b, omega arith))

  catch_up-next_frame :
      (m : EngineMedia F L) (now : Time)
      → m.next_frame ≤ now
      → ((catch_up m now).next_frame ≤ now)
        × (now ≤ (catch_up m now).next_frame + 10 * frame)
        × ((catch_up m now).sent ≡ m.sent)
  unfolding catch_up
  catch_up-next_frame m now due =
      if_case
        (λ (n : EngineMedia F L).
          (n.next_frame ≤ now) × (now ≤ n.next_frame + 10 * frame) × (n.sent ≡ m.sent))
        (ltb (10 * frame) (now - m.next_frame)) (λ _. (omega arith, omega arith, refl))
        (λ close.
          let close : now - m.next_frame ≤ 10 * frame = ground (arith, close) in
          (due, omega (arith, close), refl))

  -- While media runs on a socket, a turn leaves the next frame due later than now, and at most 20 ms
  -- later if it was not further away before; and it sends at most 11 packets.
  pub play_frames-next_frame :
      (m : EngineMedia F L) (now : Time)
      → m.session.active ≡ true
      → is_some m.rtp ≡ true
      → m.next_frame ≤ now + frame
      → let n = play_frames m now in
        (now < n.next_frame) × (n.next_frame ≤ now + frame) × (length n.sent ≤ length m.sent + 11)
  unfolding play_frames publish_stats
  play_frames-next_frame m now active socket near =
      if_case
        (λ (n : EngineMedia F L).
          (now < n.next_frame)
          × (n.next_frame ≤ now + frame)
          × (length n.sent ≤ length m.sent + 11))
        (m.session.active && is_some m.rtp && leb m.next_frame now)
        (λ on.
          let due : m.next_frame ≤ now = ground (arith, on) in
          let caught = catch_up-next_frame m now due in
          let played =
            play_due-next_frame 11 (catch_up m now) now (omega (arith, caught.1))
              (omega (arith, caught.0)) in
          (
            played.0,
            played.1,
            omega (arith, played.2, ap (λ (p : List (Bytes × Endpoint)). length p) caught.2),
          ))
        (λ off. (ground (arith, off, active, socket), near, omega arith))
