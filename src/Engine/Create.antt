-- ===== src/Engine/Create.antt =====
-- src/core/engine.cpp, Engine::create and the constructor. The configuration is the C struct with
-- every field there; a null pointer is `none`. KETPHONE_VERSION and tls_supported() are arguments.
pub mod Starts
use ketphone.Base.{
  ℕ, zero, suc, ◌+◌, ◌*◌, ◌==◌, Bool, true, false, not, ◌&&◌, ◌||◌, List, [], ◌∷◌, ◌++◌, Option,
  none, some, if◌then◌else◌, Bytes, is_some, is_empty, codes, pos, ℤ,
}
use ketphone.Core.Register
use ketphone.Core.Types.{World, UserAgentConfig, UserAgent}
use ketphone.Engine.Link.{new_link}
use ketphone.Engine.Media.{EngineMedia, Surroundings}
use ketphone.Engine.State.{Engine}
use ketphone.Media.Ring
use ketphone.Media.Session
use ketphone.Media.Srtp.{Libsrtp}
use ketphone.Media.Statistics.{Floats}
use ketphone.Net.Endpoint.{Endpoint, Family, blank_endpoint, resolve_all, address_string}
use ketphone.Net.Pem.{pem_certificates}
use ketphone.Net.Socket
use ketphone.Net.Socket.{System, UdpSocket}

-- ketphone_config.
pub record Config : Type 0 where
  pub server_host : Option Bytes
  pub server_port : ℕ
  pub extension : Option Bytes
  pub password : Option Bytes
  pub register_expires : ℕ
  pub jitter_buffer_ms : ℕ
  pub user_agent : Option Bytes
  pub correlation_header : Option Bytes
  pub transport : ℕ
  pub tls_trust_anchors : Option Bytes
  pub tls_server_name : Option Bytes

pub record TlsOptions : Type 0 where
  pub host : Bytes
  pub port : ℕ
  pub server_name : Bytes
  pub trust_anchors_pem : Bytes

-- kRingSamples.
abbrev pub ring_samples : ℕ
ring_samples = 1600

or_default : Option Bytes → Bytes → Bytes
or_default none fallback = fallback
or_default (some value) fallback = if is_empty value then fallback else value

-- A number of the configuration, or what 0 stands for.
or_number : ℕ → ℕ → ℕ
or_number n fallback = if n == 0 then fallback else n

-- The strings that must be there, the first two not empty.
required : Config → Option (Bytes × Bytes × Bytes)
required c = elim c.server_host as (λ _. Option (Bytes × Bytes × Bytes)) [
  | none ↦ none
  | some host ↦ elim c.extension as (λ _. Option (Bytes × Bytes × Bytes)) [
    | none ↦ none
    | some extension ↦ elim c.password as (λ _. Option (Bytes × Bytes × Bytes)) [
      | none ↦ none
      | some password ↦
          if is_empty host || is_empty extension then none else some (host, extension, password)
    ]
  ]
]

-- Whether the transport is one there is, and over TLS the build and the trust anchors are good.
can_transport : Bool → Config → Bool
unfolding or_default
can_transport supported c =
    let anchors = or_default c.tls_trust_anchors [] in
    if c.transport == 0
    then true
    else c.transport == 1 && supported && (is_empty anchors || is_some (pem_certificates anchors))

-- The first of the endpoints that a socket connects to, and how many sockets were asked for.
connect_first : System → ℕ → List Endpoint → Option UdpSocket × ℕ
connect_first y opened [] = (none, opened)
connect_first y opened (server ∷ rest) =
    let later = connect_first y (opened + 1) rest in
    elim (Socket.open_udp y opened server.family) as (λ _. Option UdpSocket × ℕ) [
      | none ↦ later
      | some socket ↦ if Socket.connect y socket server then (some socket, opened + 1) else later
    ]

server_port : Config → ℕ
unfolding or_number
server_port c = or_number c.server_port (if c.transport == 1 then 5061 else 5060)

tls_options : Config → Bytes → TlsOptions
unfolding or_default or_number
tls_options c host = record {
  host = host;
  port = or_number c.server_port 5061;
  server_name = or_default c.tls_server_name [];
  trust_anchors_pem = or_default c.tls_trust_anchors [];
}

-- The account, seen from a local address.
account : Surroundings → Bytes → Config → Bytes → Bytes → Bytes → Endpoint → UserAgentConfig
unfolding or_default or_number
account s version c host extension password local =
    let tls = c.transport == 1 in
    record {
      domain = host;
      extension = extension;
      password = password;
      local_address = address_string s.resolver local;
      local_port = if tls then 0 else local.port;
      transport = if tls then codes "TLS" else codes "UDP";
      srtp = tls;
      register_expires = or_number c.register_expires 300;
      user_agent = or_default c.user_agent (codes "KetPhone/" ++ version);
      correlation_header = or_default c.correlation_header [];
    }

-- A user agent asks its host for nothing while it is made.
pub silent_world : Surroundings → World
silent_world s = record {
  randomness = s.randomness;
  opens = λ log. 0;
  starts = λ log remote. false;
}

module _ (F : Floats) (L : Libsrtp) where
  -- The constructor: the engine of an account, for media of an address family.
  unfoldable pub new_engine :
      Surroundings → UserAgentConfig → Bool → Bool → Family → ℕ → ℕ → Engine F L
  unfolding silent_world
  new_engine s config tls has_callback family opened jitter_ms = record {
    tls = tls;
    has_callback = has_callback;
    agent = record (Register.init (silent_world s) config) { next_call_id = 1 };
    media = record {
      family = family;
      rtp = none;
      rtp_remote = blank_endpoint;
      srtp_out = none;
      srtp_in = none;
      session =
          Session.init F (Ring.init (pos 0) ring_samples) (Ring.init (pos 0) ring_samples)
            (pos (jitter_ms * 1000));
      next_frame = 0;
      stats =
          (Session.init F (Ring.init (pos 0) ring_samples) (Ring.init (pos 0) ring_samples)
            (pos 0)).stats;
      opened = opened;
      drawn = 0;
      sent = [];
      heard = [];
    };
    link = new_link;
    written = [];
    queue = [];
    closed = false;
    stopping = false;
    stop_deadline = 0;
    delivered = [];
    answered = [];
  }

  -- Engine::create: the engine, with what it connects to over TLS. The thread of `start` has begun.
  unfoldable pub create :
      Surroundings → Bool → Bytes → Config → Bool → Option (Engine F L × TlsOptions)
  unfolding required can_transport connect_first server_port tls_options account or_number
  create s supported version c has_callback =
      elim (required c) as (λ _. Option (Engine F L × TlsOptions)) [
        | none ↦ none
        | some (host, extension, password) ↦
            let (found, opened) =
              connect_first s.system 0 (resolve_all s.resolver host (server_port c)) in
            if not (can_transport supported c)
            then none
            else elim found as (λ _. Option (Engine F L × TlsOptions)) [
              | none ↦ none
              | some sip ↦
                  elim (Socket.local s.system sip) as (λ _. Option (Engine F L × TlsOptions)) [
                    | none ↦ none
                    | some local ↦
                        let config = account s version c host extension password local in
                        let jitter_ms = or_number c.jitter_buffer_ms 60 in
                        some (
                          new_engine s config (c.transport == 1) has_callback sip.family opened
                              jitter_ms,
                          tls_options c host,
                        )
                  ]
            ]
      ]
