-- ===== src/Engine/Media.antt =====
-- src/core/engine.cpp, the media of a call: the socket, the SRTP streams and the session. A clock
-- that an operation reads stands still meanwhile, and the three numbers that media starts with are
-- drawn from the left.
pub mod Secure
pub mod Secret
use ketphone.Base.{
  ℕ, ◌+◌, ◌*◌, ◌%◌, ◌^◌, ◌==◌, Bool, true, false, not, ◌&&◌, ◌||◌, List, [], ◌∷◌, Option, none,
  some, if◌then◌else◌, length, Bytes, is_some,
}
use ketphone.Core.Types.{
  HostCall, send_sip, open_media, start_media, close_media, RemoteMedia, MediaKeys, Time,
}
use ketphone.Media.Session
use ketphone.Media.Session.{MediaSession, MediaStats}
use ketphone.Media.Srtp
use ketphone.Media.Srtp.{Libsrtp, SrtpStream, Direction, outbound, inbound, srtp_key_length}
use ketphone.Media.Statistics.{Floats}
use ketphone.Net.Endpoint.{
  Family, Endpoint, Resolver, blank_endpoint, is_inet, is_inet6, same_family, resolve_all,
}
use ketphone.Net.Socket
use ketphone.Net.Socket.{System, UdpSocket}
use ketphone.Sip.Random.{Randomness, random_u32}
use ketphone.Sip.Text.{text_eq}

-- What the engine stands on: the resolver, the sockets, the generator's numbers that media starts
-- with, and whether connect_tls gives a connection, by the generation it is for.
pub record Surroundings : Type 0 where
  pub resolver : Resolver
  pub system : System
  pub randomness : Randomness
  pub connects_tls : ℕ → Bool

-- `opened` counts the sockets opened so far, `drawn` the numbers drawn, `sent` is what went out on
-- the media socket, with its destination, and `heard` what the session was given.
pub record EngineMedia (F : Floats) (L : Libsrtp) : Type 0 where
  pub family : Family
  pub rtp : Option UdpSocket
  pub rtp_remote : Endpoint
  pub srtp_out : Option (SrtpStream L)
  pub srtp_in : Option (SrtpStream L)
  pub session : MediaSession F
  pub next_frame : Time
  pub stats : MediaStats F
  pub opened : ℕ
  pub drawn : ℕ
  pub sent : List (Bytes × Endpoint)
  pub heard : List Bytes

-- std::find_if over endpoints by their family.
find_family : (Family → Bool) → List Endpoint → Option Endpoint
find_family p [] = none
find_family p (e ∷ es) = if p e.family then some e else find_family p es

-- Where media goes: an endpoint of the socket's family, or on an IPv6 socket an IPv4 one.
media_endpoint : Family → List Endpoint → Option Endpoint
unfolding find_family
media_endpoint family endpoints =
    elim (find_family (λ f. same_family f family) endpoints) as (λ _. Option Endpoint) [
      | some e ↦ some e
      | none ↦ if is_inet6 family then find_family is_inet endpoints else none
    ]

-- The stream of a direction for a key: the one there is if it has the key, or a new one.
pub stream_for : {L : Libsrtp} → Option (SrtpStream L) → Direction → Bytes → Option (SrtpStream L)
stream_for {L} none direction key = Srtp.create L direction key
stream_for {L} (some stream) direction key =
    let made = Srtp.create L direction key in if text_eq stream.key key then some stream else made

module _ {F : Floats} {L : Libsrtp} where
  unfoldable pub publish_stats : EngineMedia F L → EngineMedia F L
  publish_stats m = record m { stats = Session.stats_of F m.session }

  has_socket : EngineMedia F L → UdpSocket → Option Endpoint → EngineMedia F L × ℕ
  has_socket m socket none = (record m { rtp = none }, 0)
  has_socket m socket (some e) = (record m { rtp = some socket }, e.port)

  pub open_socket : Surroundings → EngineMedia F L → EngineMedia F L × ℕ
  unfolding has_socket
  open_socket s m =
      let counted : EngineMedia F L = record m { opened = m.opened + 1 } in
      elim (Socket.open_udp s.system m.opened m.family) as (λ _. EngineMedia F L × ℕ) [
        | none ↦ (record counted { rtp = none }, 0)
        | some socket ↦ has_socket counted socket (Socket.local s.system socket)
      ]

  unfoldable pub use_keys : EngineMedia F L → MediaKeys → EngineMedia F L × Bool
  use_keys m keys =
      if not (length keys.local == srtp_key_length) || not (length keys.remote == srtp_key_length)
      then (m, false)
      else elim (stream_for m.srtp_out outbound keys.local) as (λ _. EngineMedia F L × Bool) [
        | none ↦ (m, false)
        | some out ↦
            let keyed : EngineMedia F L = record m { srtp_out = some out } in
            elim (stream_for m.srtp_in inbound keys.remote) as (λ _. EngineMedia F L × Bool) [
              | none ↦ (keyed, false)
              | some in_stream ↦ (record keyed { srtp_in = some in_stream }, true)
            ]
      ]

  keys_for : EngineMedia F L → Option MediaKeys → EngineMedia F L × Bool
  keys_for m none = (record m { srtp_out = none; srtp_in = none }, true)
  keys_for m (some keys) = use_keys m keys

  -- Media to an endpoint: it starts unless it runs already.
  begin_media : Surroundings → EngineMedia F L → Option Endpoint → Time → EngineMedia F L
  begin_media s m none now = m
  begin_media s m (some e) now =
      let moved : EngineMedia F L = record m { rtp_remote = e } in
      let draw = λ (i : ℕ). random_u32 s.randomness (m.drawn + i) in
      if m.session.active then moved else record moved {
        session = Session.start F m.session (draw 0) (draw 1 % 2 ^ 16) (draw 2);
        next_frame = now;
        drawn = m.drawn + 3;
      }

  start_on :
      Surroundings
      → EngineMedia F L
      → Option UdpSocket
      → RemoteMedia
      → Time
      → EngineMedia F L × Bool
  unfolding keys_for begin_media media_endpoint
  start_on s m none remote now = (m, true)
  start_on s m (some socket) remote now =
      let (keyed, usable) = keys_for m remote.srtp in
      let endpoints = resolve_all s.resolver remote.address remote.port in
      if not usable
      then (keyed, false)
      else (begin_media s keyed (media_endpoint socket.family endpoints) now, true)

  unfoldable pub begin :
      Surroundings → EngineMedia F L → RemoteMedia → Time → EngineMedia F L × Bool
  unfolding start_on
  begin s m remote now = start_on s m m.rtp remote now

  unfoldable pub close : EngineMedia F L → EngineMedia F L
  close m =
      let published = if m.session.active then publish_stats m else m in
      record published {
        session = Session.stop F m.session;
        rtp = none;
        srtp_out = none;
        srtp_in = none;
      }

  -- What a call of the host does to the media.
  unfoldable pub carry : Surroundings → Time → EngineMedia F L → HostCall → EngineMedia F L
  carry s now m (send_sip message) = m
  carry s now m (open_media port) = (open_socket s m).0
  carry s now m (start_media remote ok) = (begin s m remote now).0
  carry s now m close_media = close m

  unfoldable pub carry_all : Surroundings → Time → EngineMedia F L → List HostCall → EngineMedia F L
  carry_all s now m [] = m
  carry_all s now m (h ∷ hs) = carry_all s now (carry s now m h) hs
