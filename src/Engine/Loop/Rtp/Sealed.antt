-- ===== src/Engine/Loop/Rtp/Sealed.antt =====
-- The media part of a turn and the SRTP streams.
use ketphone.Base.{
  ℕ, zero, suc, ◌-◌, ◌*◌, ◌==◌, true, false, ◌&&◌, List, [], ◌∷◌, ◌++◌, ◌≡◌, refl, Option, none,
  some, is_some, is_empty, if_case, Bool-cases, ◌≢◌, option_case, Option-cases, inl, inr,
  All-append, arith, Bytes, length, take, replicate, leb, ltb,
}
use ketphone.Core.Contract.{HostState, idle, up, broken}
use ketphone.Core.Types.{Time}
use ketphone.Engine.Loop.Rtp.{
  frame, max_packet_size, hear, take_packet, receive_media, seal, send_on, play_one, catch_up,
  play_due, play_frames,
}
use ketphone.Engine.Media.{EngineMedia, publish_stats}
use ketphone.Engine.Media.Secret.{IsSecret, IsSealed, IsOpened}
use ketphone.Engine.Media.Secure.{IsKeyed, IsSecure}
use ketphone.Media.Session
use ketphone.Media.Srtp.{Libsrtp, SrtpStream, unprotect, srtp_trailer_room}
use ketphone.Media.Statistics.{Floats}
use ketphone.Net.Endpoint.{Endpoint}
use ketphone.Net.Socket.{Arrival, UdpSocket, receive, target}

module _ {F : Floats} {L : Libsrtp} where
  -- What media that runs over TLS keeps.
  abbrev IsPrivate : EngineMedia F L → Type 0
  IsPrivate m = IsKeyed m × IsSecret m

  take_packet-IsPrivate :
      (m : EngineMedia F L) (o : Option (SrtpStream L)) (bytes : Bytes) (now : Time)
      → is_some o ≡ true
      → IsPrivate m
      → IsPrivate (take_packet m o bytes now)
  unfolding take_packet hear
  take_packet-IsPrivate m none bytes now given k = absurd (ground (arith, given))
  take_packet-IsPrivate m (some stream) bytes now given (keyed, secret) =
      let opened = unprotect L stream bytes (length bytes) in
      let still : IsKeyed (record m { srtp_in = some opened.0 }) = record {
        outgoing = keyed.outgoing;
        incoming = refl;
        socket = keyed.socket;
      } in
      option_case IsPrivate opened.2
        (λ _. (still, record { outgoing = secret.outgoing; incoming = secret.incoming }))
        (λ size accepted. (
          record { outgoing = keyed.outgoing; incoming = refl; socket = keyed.socket },
          record {
            outgoing = secret.outgoing;
            incoming = All-append (IsOpened L) m.heard _ secret.incoming (
              record {
                stream = stream;
                buffer = bytes;
                size = length bytes;
                plain = size;
                accepted = accepted;
                made = refl;
              },
              tt,
            );
          },
        ))

  abbrev pub IsSafe : HostState → EngineMedia F L → Type 0
  IsSafe state m = IsSecure state m × IsSecret m

  -- Where media runs, what keeps it private keeps it safe.
  IsSafe-IsPrivate :
      (state : HostState) (m n : EngineMedia F L)
      → state ≢ broken
      → m.session.active ≡ true
      → (IsPrivate m → IsPrivate n)
      → IsSafe state m
      → IsSafe state n
  IsSafe-IsPrivate idle m n whole active step k = absurd (ground (arith, active, k.0))
  IsSafe-IsPrivate up m n whole active step k =
      let kept = step (k.0 active, k.1) in (λ _. kept.0, kept.1)
  IsSafe-IsPrivate broken m n whole active step k = absurd (whole refl)

  -- Packets that arrive keep the media safe.
  pub receive_media-IsSafe :
      (state : HostState) (m : EngineMedia F L) (now : Time) (arrivals : List Arrival)
      → state ≢ broken
      → IsSafe state m
      → IsSafe state (receive_media m now arrivals)
  unfolding receive_media
  receive_media-IsSafe state m now [] whole k = k
  receive_media-IsSafe state m now (a ∷ rest) whole k =
      elim (Bool-cases (is_some m.rtp && m.session.active)) [
        | inr off ↦ rw (receive_media, off) k
        | inl on ↦ elim (Option-cases (receive false a)) [
          | inl failed ↦ rw (receive_media, on, failed) k
          | inr ((bytes, from), got) ↦ elim (Bool-cases (is_empty bytes)) [
            | inl nothing ↦ rw (receive_media, on, got, nothing) k
            | inr some_bytes ↦
                let next = take_packet m m.srtp_in bytes now in
                let step =
                  λ (p : IsPrivate m). take_packet-IsPrivate m m.srtp_in bytes now p.0.incoming p in
                let active : m.session.active ≡ true = ground (arith, on) in
                rw (receive_media, on, got, some_bytes)
                  (receive_media-IsSafe state next now rest whole
                    (IsSafe-IsPrivate state m next whole active step k))
          ]
        ]
      ]

  seal-IsPrivate :
      (m : EngineMedia F L) (o : Option (SrtpStream L)) (buffer : Bytes) (size : ℕ)
      → is_some o ≡ true
      → IsPrivate m
      → IsPrivate (seal m o buffer size).0
  unfolding seal
  seal-IsPrivate m none buffer size given k = absurd (ground (arith, given))
  seal-IsPrivate m (some stream) buffer size given (keyed, secret) =
      if_case (λ (r : EngineMedia F L × Bytes × ℕ). IsPrivate r.0) (size == 0)
        (λ _. (keyed, secret))
        λ _. (
          record { outgoing = refl; incoming = keyed.incoming; socket = keyed.socket },
          record { outgoing = secret.outgoing; incoming = secret.incoming },
        )

  -- A packet of a size that is not 0 is what protect made.
  seal-IsSealed :
      (m : EngineMedia F L) (o : Option (SrtpStream L)) (buffer : Bytes) (size : ℕ)
      → is_some o ≡ true
      → (seal m o buffer size).2 == 0 ≡ false
      → IsSealed L (take (seal m o buffer size).2 (seal m o buffer size).1)
  unfolding seal
  seal-IsSealed m none buffer size given = absurd (ground (arith, given))
  seal-IsSealed m (some stream) buffer size given =
      if_case (λ (r : EngineMedia F L × Bytes × ℕ). r.2 == 0 ≡ false → IsSealed L (take r.2 r.1))
        (size == 0) (λ _ e. absurd (ground (arith, e)))
        (λ _ e. record { stream = stream; buffer = buffer; size = size; made = refl })

  send_on-IsPrivate :
      (m : EngineMedia F L) (o : Option UdpSocket) (packet : Bytes)
      → IsSealed L packet
      → IsPrivate m
      → IsPrivate (send_on m o packet)
  unfolding send_on
  send_on-IsPrivate m none packet h k = k
  send_on-IsPrivate m (some socket) packet h (keyed, secret) =
      if_case IsPrivate (is_some (target socket m.rtp_remote))
        (λ _. (
          record { outgoing = keyed.outgoing; incoming = keyed.incoming; socket = keyed.socket },
          record {
            outgoing =
                All-append (λ (p : Bytes × Endpoint). IsSealed L p.0) m.sent _ secret.outgoing
                  (h, tt);
            incoming = secret.incoming;
          },
        ))
        (λ _. (keyed, secret))

  play_one-IsPrivate : (m : EngineMedia F L) → IsPrivate m → IsPrivate (play_one m)
  unfolding play_one
  play_one-IsPrivate m (keyed, secret) =
      let (session, size, packet) = Session.next_packet F m.session (replicate max_packet_size 0) in
      let made : EngineMedia F L = record m { session = session } in
      let room = packet ++ replicate srtp_trailer_room 0 in
      let kept = seal-IsPrivate made m.srtp_out room size keyed.outgoing (
        record { outgoing = keyed.outgoing; incoming = keyed.incoming; socket = keyed.socket },
        record { outgoing = secret.outgoing; incoming = secret.incoming },
      ) in
      let (sealed, buffer, length) = seal made m.srtp_out room size in
      let gone =
        if_case IsPrivate (length == 0) (λ _. kept)
          (λ sized.
            send_on-IsPrivate sealed sealed.rtp (take length buffer)
              (seal-IsSealed made m.srtp_out room size keyed.outgoing sized) kept) in
      (
        record { outgoing = gone.0.outgoing; incoming = gone.0.incoming; socket = gone.0.socket },
        record { outgoing = gone.1.outgoing; incoming = gone.1.incoming },
      )

  play_due-IsPrivate :
      (fuel : ℕ) (m : EngineMedia F L) (now : Time) → IsPrivate m → IsPrivate (play_due fuel m now)
  unfolding play_due
  play_due-IsPrivate zero m now k = k
  play_due-IsPrivate (suc fuel) m now k =
      if_case IsPrivate (leb m.next_frame now)
        (λ _. play_due-IsPrivate fuel (play_one m) now (play_one-IsPrivate m k)) (λ _. k)

  publish_stats-IsPrivate :
      (m : EngineMedia F L) (now : Time)
      → IsPrivate m
      → IsPrivate (publish_stats (play_due 11 (catch_up m now) now))
  unfolding catch_up publish_stats
  publish_stats-IsPrivate m now (keyed, secret) =
      let caught =
        if_case IsPrivate (ltb (10 * frame) (now - m.next_frame))
          (λ _. (
            record { outgoing = keyed.outgoing; incoming = keyed.incoming; socket = keyed.socket },
            record { outgoing = secret.outgoing; incoming = secret.incoming },
          ))
          (λ _. (keyed, secret)) in
      let played = play_due-IsPrivate 11 (catch_up m now) now caught in
      (
        record {
          outgoing = played.0.outgoing;
          incoming = played.0.incoming;
          socket = played.0.socket;
        },
        record { outgoing = played.1.outgoing; incoming = played.1.incoming },
      )

  -- So do the frames that are due.
  pub play_frames-IsSafe :
      (state : HostState) (m : EngineMedia F L) (now : Time)
      → state ≢ broken
      → IsSafe state m
      → IsSafe state (play_frames m now)
  unfolding play_frames
  play_frames-IsSafe state m now whole k =
      if_case (IsSafe state) (m.session.active && is_some m.rtp && leb m.next_frame now)
        (λ on.
          IsSafe-IsPrivate state m _ whole (ground (arith, on)) (publish_stats-IsPrivate m now) k)
        (λ _. k)
