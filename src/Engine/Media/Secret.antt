-- ===== src/Engine/Media/Secret.antt =====
-- What an engine over TLS lets out of its media socket and takes in.
use ketphone.Base.{
  ℕ, List, [], ◌∷◌, ◌≡◌, refl, ◌∙◌, Option, none, some, if_case, option_case, All, arith, Bytes,
  take, Bool, not,
}
use ketphone.Core.Types.{
  HostCall, send_sip, open_media, start_media, close_media, RemoteMedia, MediaKeys, Time,
}
use ketphone.Engine.Media.{
  EngineMedia, Surroundings, use_keys, keys_for, begin_media, start_on, begin, close, carry,
  carry_all, open_socket, has_socket, publish_stats, media_endpoint,
}
use ketphone.Media.Srtp.{Libsrtp, SrtpStream, protect, unprotect}
use ketphone.Media.Statistics.{Floats}
use ketphone.Net.Endpoint.{Endpoint, resolve_all}
use ketphone.Net.Socket
use ketphone.Net.Socket.{UdpSocket}

-- A packet that protect made.
pub record IsSealed (L : Libsrtp) (packet : Bytes) : Type 0 where
  pub stream : SrtpStream L
  pub buffer : Bytes
  pub size : ℕ
  pub made : packet ≡ take (protect L stream buffer size).2 (protect L stream buffer size).1

-- A packet that unprotect accepted.
pub record IsOpened (L : Libsrtp) (packet : Bytes) : Type 0 where
  pub stream : SrtpStream L
  pub buffer : Bytes
  pub size : ℕ
  pub plain : ℕ
  pub accepted : (unprotect L stream buffer size).2 ≡ some plain
  pub made : packet ≡ take plain (unprotect L stream buffer size).1

module _ {F : Floats} {L : Libsrtp} where
  -- What went out was made by protect, and what was heard was accepted by unprotect.
  pub record IsSecret (m : EngineMedia F L) : Type 0 where
    pub outgoing : All (λ (p : Bytes × Endpoint). IsSealed L p.0) m.sent
    pub incoming : All (IsOpened L) m.heard

  -- Nothing went out and nothing was heard meanwhile.
  abbrev IsQuiet : EngineMedia F L → EngineMedia F L → Type 0
  IsQuiet m n = (n.sent ≡ m.sent) × (n.heard ≡ m.heard)

  use_keys-IsQuiet : (m : EngineMedia F L) (keys : MediaKeys) → IsQuiet m (use_keys m keys).0
  unfolding use_keys
  use_keys-IsQuiet m keys = (ground arith, ground arith)

  begin_media-IsQuiet :
      (s : Surroundings) (m : EngineMedia F L) (e : Option Endpoint) (now : Time)
      → IsQuiet m (begin_media s m e now)
  unfolding begin_media
  begin_media-IsQuiet s m none now = (refl, refl)
  begin_media-IsQuiet s m (some e) now =
      if_case (IsQuiet m) m.session.active (λ _. (refl, refl)) (λ _. (refl, refl))

  keys_for-IsQuiet : (m : EngineMedia F L) (o : Option MediaKeys) → IsQuiet m (keys_for m o).0
  unfolding keys_for
  keys_for-IsQuiet m none = (refl, refl)
  keys_for-IsQuiet m (some keys) = use_keys-IsQuiet m keys

  start_on-IsQuiet :
      (s : Surroundings) (m : EngineMedia F L) (o : Option UdpSocket) (remote : RemoteMedia)
      (now : Time)
      → IsQuiet m (start_on s m o remote now).0
  unfolding start_on
  start_on-IsQuiet s m none remote now = (refl, refl)
  start_on-IsQuiet s m (some socket) remote now =
      let keyed = keys_for-IsQuiet m remote.srtp in
      let chosen =
        media_endpoint socket.family (resolve_all s.resolver remote.address remote.port) in
      let begun = begin_media-IsQuiet s (keys_for m remote.srtp).0 chosen now in
      if_case (λ (r : EngineMedia F L × Bool). IsQuiet m r.0) (not (keys_for m remote.srtp).1)
        (λ _. keyed) (λ _. (begun.0 ∙ keyed.0, begun.1 ∙ keyed.1))

  open_socket-IsQuiet : (s : Surroundings) (m : EngineMedia F L) → IsQuiet m (open_socket s m).0
  unfolding open_socket has_socket
  open_socket-IsQuiet s m =
      option_case (λ (r : EngineMedia F L × ℕ). IsQuiet m r.0)
        (Socket.open_udp s.system m.opened m.family) (λ _. (refl, refl))
        λ socket _.
          option_case (λ (r : EngineMedia F L × ℕ). IsQuiet m r.0) (Socket.local s.system socket)
            (λ _. (refl, refl)) (λ e _. (refl, refl))

  carry-IsQuiet :
      (s : Surroundings) (now : Time) (m : EngineMedia F L) (h : HostCall)
      → IsQuiet m (carry s now m h)
  unfolding carry begin close publish_stats
  carry-IsQuiet s now m (send_sip message) = (refl, refl)
  carry-IsQuiet s now m (open_media port) = open_socket-IsQuiet s m
  carry-IsQuiet s now m (start_media remote ok) = start_on-IsQuiet s m m.rtp remote now
  carry-IsQuiet s now m close_media = (
    if_case (λ (n : EngineMedia F L). n.sent ≡ m.sent) m.session.active (λ _. refl) (λ _. refl),
    if_case (λ (n : EngineMedia F L). n.heard ≡ m.heard) m.session.active (λ _. refl) (λ _. refl),
  )

  pub carry_all-IsSecret :
      (s : Surroundings) (now : Time) (m : EngineMedia F L) (hs : List HostCall)
      → IsSecret m
      → IsSecret (carry_all s now m hs)
  unfolding carry_all
  carry_all-IsSecret s now m [] k = k
  carry_all-IsSecret s now m (h ∷ hs) k =
      let (sent, heard) = carry-IsQuiet s now m h in
      carry_all-IsSecret s now (carry s now m h) hs
        (record { outgoing = rw sent k.outgoing; incoming = rw heard k.incoming })
