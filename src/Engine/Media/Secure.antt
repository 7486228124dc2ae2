-- ===== src/Engine/Media/Secure.antt =====
-- The SRTP streams and the socket of media that runs, for an engine over TLS.
use ketphone.Base.{
  ℕ, ◌==◌, Bool, true, false, not, List, [], ◌∷◌, ◌≡◌, refl, ap, ◌∙◌, Option, none, some, arith,
  is_some, if_case, option_case, Option-cases, inl, inr, sym,
}
use ketphone.Core.Contract.{HostState, idle, up, broken, host_step, host_after}
use ketphone.Core.Types.{
  HostCall, send_sip, open_media, start_media, close_media, RemoteMedia, MediaKeys, Time,
}
use ketphone.Engine.Media.{
  EngineMedia, Surroundings, use_keys, keys_for, begin_media, start_on, begin, close, carry,
  carry_all, open_socket, has_socket, media_endpoint,
}
use ketphone.Media.Session
use ketphone.Media.Srtp.{Libsrtp}
use ketphone.Media.Statistics.{Floats}
use ketphone.Net.Endpoint.{Endpoint, resolve_all}
use ketphone.Net.Socket
use ketphone.Net.Socket.{UdpSocket}

module _ {F : Floats} {L : Libsrtp} where
  pub record IsKeyed (m : EngineMedia F L) : Type 0 where
    pub outgoing : is_some m.srtp_out ≡ true
    pub incoming : is_some m.srtp_in ≡ true
    pub socket : is_some m.rtp ≡ true

  -- Where the agent has media, media that runs is keyed; where it has none, none runs.
  abbrev pub IsSecure : HostState → EngineMedia F L → Type 0
  IsSecure idle m = m.session.active ≡ false
  IsSecure up m = m.session.active ≡ true → IsKeyed m
  IsSecure broken m = Unit

  use_keys-active :
      (m : EngineMedia F L) (keys : MediaKeys) → (use_keys m keys).0.session ≡ m.session
  unfolding use_keys
  use_keys-active m keys = ground arith

  use_keys-rtp : (m : EngineMedia F L) (keys : MediaKeys) → (use_keys m keys).0.rtp ≡ m.rtp
  unfolding use_keys
  use_keys-rtp m keys = ground arith

  use_keys-keyed :
      (m : EngineMedia F L) (keys : MediaKeys)
      → (use_keys m keys).1 ≡ true
      → (is_some (use_keys m keys).0.srtp_out ≡ true) × (is_some (use_keys m keys).0.srtp_in ≡ true)
  unfolding use_keys
  use_keys-keyed m keys = ground arith

  -- Keys that are refused take no stream away.
  use_keys-IsKeyed :
      (m : EngineMedia F L) (keys : MediaKeys) → IsKeyed m → IsKeyed (use_keys m keys).0
  unfolding use_keys
  use_keys-IsKeyed m keys k = ground arith

  begin_media-rtp :
      (s : Surroundings) (m : EngineMedia F L) (e : Option Endpoint) (now : Time)
      → ((begin_media s m e now).rtp ≡ m.rtp)
        × ((begin_media s m e now).srtp_out ≡ m.srtp_out)
        × ((begin_media s m e now).srtp_in ≡ m.srtp_in)
  unfolding begin_media
  begin_media-rtp s m none now = (refl, refl, refl)
  begin_media-rtp s m (some e) now =
      if_case Same m.session.active (λ _. (refl, refl, refl)) (λ _. (refl, refl, refl))
    where
      Same : EngineMedia F L → Type 0
      Same n = (n.rtp ≡ m.rtp) × (n.srtp_out ≡ m.srtp_out) × (n.srtp_in ≡ m.srtp_in)

  -- Media that starts on a socket with keys is keyed, and so is media whose new keys are refused.
  start_on-IsSecure :
      (s : Surroundings) (m : EngineMedia F L) (o : Option UdpSocket) (remote : RemoteMedia)
      (now : Time)
      → m.rtp ≡ o
      → is_some remote.srtp ≡ true
      → IsSecure up m
      → IsSecure up (start_on s m o remote now).0
  unfolding start_on keys_for
  start_on-IsSecure s m none remote now e keyed k = k
  start_on-IsSecure s m (some socket) remote now e keyed k = elim (Option-cases remote.srtp) [
    | inl bare ↦ absurd (ground (arith, bare, keyed))
    | inr (keys, given) ↦
        let chosen =
          media_endpoint socket.family (resolve_all s.resolver remote.address remote.port) in
        rw given (
          if_case (λ (r : EngineMedia F L × Bool). IsSecure up r.0) (not (use_keys m keys).1)
            (λ refused active.
              use_keys-IsKeyed m keys (k (rw (sym (use_keys-active m keys)) active)))
            (λ usable active.
              let (same_rtp, same_out, same_in) =
                begin_media-rtp s (use_keys m keys).0 chosen now in
              let (out, incoming) = use_keys-keyed m keys (ground (arith, usable)) in
              record {
                outgoing = rw same_out out;
                incoming = rw same_in incoming;
                socket = rw (same_rtp, use_keys-rtp m keys, e) refl;
              }))
  ]

  open_socket-session :
      (s : Surroundings) (m : EngineMedia F L) → (open_socket s m).0.session ≡ m.session
  unfolding open_socket has_socket
  open_socket-session s m =
      option_case (λ (r : EngineMedia F L × ℕ). r.0.session ≡ m.session)
        (Socket.open_udp s.system m.opened m.family) (λ _. refl)
        λ socket _.
          option_case (λ (r : EngineMedia F L × ℕ). r.0.session ≡ m.session)
            (Socket.local s.system socket) (λ _. refl) (λ e _. refl)

  -- A call that the agent makes of the host keeps the media secure, or breaks the order of the calls.
  carry-IsSecure :
      (s : Surroundings) (now : Time) (state : HostState) (m : EngineMedia F L) (h : HostCall)
      → IsSecure state m
      → IsSecure (host_step true state h) (carry s now m h)
  unfolding carry begin close Session.stop
  carry-IsSecure s now state m (send_sip message) k = k
  carry-IsSecure s now idle m (open_media port) k =
      let quiet = ap (λ (t : Session.MediaSession F). t.active) (open_socket-session s m) ∙ k in
      if_case (λ state. IsSecure state (open_socket s m).0) (port == 0) (λ _. quiet)
        (λ _ active. absurd (ground (arith, quiet, active)))
  carry-IsSecure s now up m (open_media port) k = tt
  carry-IsSecure s now broken m (open_media port) k = tt
  carry-IsSecure s now idle m (start_media remote ok) k = tt
  carry-IsSecure s now up m (start_media remote ok) k =
      if_case (λ state. IsSecure state (begin s m remote now).0) (is_some remote.srtp)
        (λ keyed. start_on-IsSecure s m m.rtp remote now refl keyed k) (λ _. tt)
  carry-IsSecure s now broken m (start_media remote ok) k = tt
  carry-IsSecure s now idle m close_media k = tt
  carry-IsSecure s now up m close_media k = refl
  carry-IsSecure s now broken m close_media k = tt

  pub carry_all-IsSecure :
      (s : Surroundings) (now : Time) (state : HostState) (m : EngineMedia F L) (hs : List HostCall)
      → IsSecure state m
      → IsSecure (host_after true state hs) (carry_all s now m hs)
  unfolding carry_all host_after
  carry_all-IsSecure s now state m [] k = k
  carry_all-IsSecure s now state m (h ∷ hs) k =
      carry_all-IsSecure s now (host_step true state h) (carry s now m h) hs
        (carry-IsSecure s now state m h k)
