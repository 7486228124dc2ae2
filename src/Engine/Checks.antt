-- ===== src/Engine/Checks.antt =====
-- The theorems on the engine at concrete runs.
use ketphone.Base.{
  take, Option, pos, ◌<◌, ◌&&◌, ◌⊎◌, not, ℕ, ◌+◌, ◌-◌, value_or, ◌≤◌, ◌≡◌, refl, arith, true, false,
  [], ◌∷◌, none, some, replicate, codes, drop, length,
}
use ketphone.Engine.Api.{
  guarded, ketphone_register, ketphone_unregister, ketphone_call, ketphone_answer, ketphone_reject,
  ketphone_hangup, ketphone_audio_capture, ketphone_audio_playout, ketphone_media_stats_get,
}
use ketphone.Engine.Commands
use ketphone.Engine.Commands.Audio.{playout-length}
use ketphone.Engine.Create.{Config, TlsOptions, create, new_engine}
use ketphone.Engine.Life.{Reach, begins, asks, turns, ends}
use ketphone.Engine.Life.Safe.{reach-IsKeyed, reach-IsSecret, reach-IsLink, reach-answered}
use ketphone.Engine.Loop.{Turn, tick, wake_at}
use ketphone.Engine.Loop.Events.{read_messages}
use ketphone.Engine.Loop.Events.Messages.{IsRead, read_messages-IsRead}
use ketphone.Engine.Loop.Rtp.{frame, play_frames}
use ketphone.Engine.Loop.Rtp.Pace.{play_frames-next_frame}
use ketphone.Engine.Loop.Wake.{IsBy, wake_at-deadlines}
use ketphone.Engine.Link.{is_down, is_connected}
use ketphone.Engine.Media.Secret.{IsSecret}
use ketphone.Engine.Media.Secure.{IsKeyed}
use ketphone.Core.Contract.{media_state, up}
use ketphone.Core.Dispatch.{next_deadline}
use ketphone.Engine.Media.{EngineMedia, Surroundings}
use ketphone.Engine.State.{Engine, ApiResult, registers}
use ketphone.Media.Ring
use ketphone.Media.Srtp.{Libsrtp}
use ketphone.Media.Statistics.{Floats}
use ketphone.Net.Endpoint.{Family, Sockaddr, Resolver, inet}
use ketphone.Net.Endpoint
use ketphone.Net.Socket
use ketphone.Core.Types.{UserAgentConfig, seconds, milliseconds}
use ketphone.Net.Socket.{System}

abbrev whole_floats : Floats
whole_floats = record {
  Double = ℕ;
  zero = 0;
  of_int = λ z. 0;
  add = λ a b. a + b;
  sub = λ a b. a;
  div = λ a b. a;
  abs = λ a. a;
}

-- A libsrtp that puts a byte in front.
abbrev plain_srtp : Libsrtp
plain_srtp = record {
  Session = ℕ;
  srtp_init = true;
  srtp_create = λ direction key. some 0;
  srtp_protect = λ session buffer size. (session + 1, 128 ∷ buffer, some (size + 1));
  srtp_unprotect = λ session buffer size. (session + 1, drop 1 buffer, some (size - 1));
}

abbrev here_address : Sockaddr
here_address = 2 ∷ 0 ∷ 19 ∷ 196 ∷ 10 ∷ 0 ∷ 0 ∷ 2 ∷ replicate 8 0

abbrev blank_account : UserAgentConfig
blank_account = record {
  domain = [];
  extension = [];
  password = [];
  local_address = [];
  local_port = 0;
  transport = [];
  srtp = true;
  register_expires = 0;
  user_agent = [];
  correlation_header = [];
}

abbrev some_surroundings : Surroundings
some_surroundings = record {
  resolver = record {
    inet_ntop = λ family address. some (codes "10.0.0.2");
    getaddrinfo = λ host service. some ((here_address, 16) ∷ []);
  };
  system = record {
    socket = λ opened family. some opened;
    dual_stack = λ fd. true;
    nonblocking = λ fd. true;
    binds = λ fd address length. true;
    connects = λ fd address length. true;
    getsockname = λ fd. some (here_address, 16);
  };
  randomness = record { generator = λ n. n; secure = λ draw size. some (replicate size 7) };
  connects_tls = λ generation. true;
}

abbrev tls_config : Config
tls_config = record {
  server_host = some (codes "pbx.example");
  server_port = 0;
  extension = some (codes "100");
  password = some (codes "secret");
  register_expires = 0;
  jitter_buffer_ms = 0;
  user_agent = none;
  correlation_header = none;
  transport = 1;
  tls_trust_anchors = none;
  tls_server_name = none;
}

abbrev some_engine : Engine whole_floats plain_srtp × TlsOptions
some_engine =
    value_or (create whole_floats plain_srtp some_surroundings true (codes "1") tls_config true) (
      new_engine whole_floats plain_srtp some_surroundings blank_account true true inet 0 60,
      record { host = []; port = 0; server_name = []; trust_anchors_pem = [] },
    )

created :
    create whole_floats plain_srtp some_surroundings true (codes "1") tls_config true
    ≡ some (some_engine.0, some_engine.1)
unfolding create Endpoint.resolve_all Endpoint.from_sockaddr Socket.open_udp Socket.connect
    Socket.target Endpoint.destination Socket.local Endpoint.has_endpoint
created = refl

abbrev quiet_turn : ℕ → Turn
quiet_turn now = record { now = now; inbox = []; signalling = []; packets = [] }

-- The account is registered, the thread connects, and ends.
abbrev some_life : Reach some_surroundings some_engine.0 (
    Commands.close_queue (
      tick some_surroundings
        (tick some_surroundings (Commands.submit some_engine.0 registers) (quiet_turn (seconds 1)))
        (quiet_turn (seconds 2))))
some_life =
    ends (
      turns (quiet_turn (seconds 2)) tt (turns (quiet_turn (seconds 1)) tt (asks registers begins)))

abbrev last_engine : Engine whole_floats plain_srtp
last_engine = Commands.close_queue (
    tick some_surroundings
      (tick some_surroundings (Commands.submit some_engine.0 registers) (quiet_turn (seconds 1)))
      (quiet_turn (seconds 2)))

reach-IsKeyed_example :
    (last_engine.media.session.active ≡ false)
    ⊎ (media_state last_engine.agent.call ≡ up) × IsKeyed last_engine.media
reach-IsKeyed_example =
    reach-IsKeyed some_surroundings true (codes "1") tls_config true some_engine.1 some_engine.0
      last_engine created some_life refl

reach-IsSecret_example : IsSecret last_engine.media
reach-IsSecret_example =
    reach-IsSecret some_surroundings true (codes "1") tls_config true some_engine.1 some_engine.0
      last_engine created some_life refl

reach-IsLink_example :
    (is_down last_engine.link.state ≡ not last_engine.link.connection)
    × ((last_engine.link.connection ≡ false) ⊎ (last_engine.link.pending ≡ []))
    × (length last_engine.link.pending ≤ 65536)
    × (seconds 1 ≤ last_engine.link.backoff)
    × (last_engine.link.backoff ≤ seconds 30)
reach-IsLink_example =
    reach-IsLink some_surroundings true (codes "1") tls_config true some_engine.1 some_engine.0
      last_engine created some_life

reach-answered_example :
    (length last_engine.answered + length last_engine.queue ≡ 1)
    × ((last_engine.closed ≡ false) ⊎ (length last_engine.answered ≡ 1))
reach-answered_example =
    reach-answered some_surroundings true (codes "1") tls_config true some_engine.1 some_engine.0
      last_engine created some_life

wake_at-deadlines_example :
    let e = some_engine.0 in
    (wake_at e 7 ≤ 7 + milliseconds 200)
    × IsBy (next_deadline e.agent) (wake_at e 7)
    × ((e.media.session.active ≡ false) ⊎ (wake_at e 7 ≤ e.media.next_frame))
    × ((e.stopping ≡ false) ⊎ (wake_at e 7 ≤ e.stop_deadline))
    × ((e.tls && is_down e.link.state ≡ false) ⊎ (wake_at e 7 ≤ e.link.reconnect_at))
    × ((e.tls && is_connected e.link.state ≡ false) ⊎ (wake_at e 7 ≤ e.link.keepalive_at))
wake_at-deadlines_example = wake_at-deadlines some_engine.0 7

-- Media that runs on a socket and is 60 ms late.
abbrev running_media : EngineMedia whole_floats plain_srtp
running_media = record (some_engine.0.media) {
  rtp = some (record { fd = 3; family = inet });
  session = record (some_engine.0.media.session) { active = true };
  next_frame = seconds 1;
}

play_frames-next_frame_example :
    let m = running_media in
    let n = play_frames m (seconds 1 + milliseconds 60) in
    (seconds 1 + milliseconds 60 < n.next_frame)
    × (n.next_frame ≤ seconds 1 + milliseconds 60 + frame)
    × (length n.sent ≤ length m.sent + 11)
play_frames-next_frame_example =
    play_frames-next_frame running_media (seconds 1 + milliseconds 60) refl refl (omega arith)

-- An engine that was sent a message and a half.
abbrev fed_engine : Engine whole_floats plain_srtp
fed_engine = record (some_engine.0) {
  link = record (some_engine.0.link) {
    framer = record {
      buffer = codes "OPTIONS sip:a SIP/2.0\r\nContent-Length: 0\r\n\r\nBYE sip";
      failed = false;
    };
  };
}

read_messages-IsRead_example :
    IsRead some_surroundings 5 fed_engine (read_messages 60 some_surroundings fed_engine 5)
read_messages-IsRead_example = read_messages-IsRead 60 some_surroundings fed_engine 5 (omega arith)

-- The C functions refuse a null engine.
abbrev null_engine : Option (Engine whole_floats plain_srtp)
null_engine = none

playout-length_example :
    let (f, samples, real) = Commands.playout some_engine.0 3 in
    let (ring, taken) = Ring.pop (pos 0) some_engine.0.media.session.playout 3 in
    (length samples ≡ 3)
    × (real ≤ 3)
    × (take real samples ≡ taken)
    × (f.media.session.playout ≡ ring)
    × (drop real samples ≡ replicate (3 - real) (pos 0))
playout-length_example = playout-length some_engine.0 3

register_without_engine : (ketphone_register null_engine).1 ≡ some ApiResult.invalid_argument
unfolding ketphone_register guarded
register_without_engine = refl

unregister_without_engine : (ketphone_unregister null_engine).1 ≡ some ApiResult.invalid_argument
unfolding ketphone_unregister guarded
unregister_without_engine = refl

call_without_engine :
    (ketphone_call null_engine (some (codes "bob"))).1 ≡ some ApiResult.invalid_argument
unfolding ketphone_call guarded
call_without_engine = refl

answer_without_engine : (ketphone_answer null_engine 1).1 ≡ some ApiResult.invalid_argument
unfolding ketphone_answer guarded
answer_without_engine = refl

reject_without_engine : (ketphone_reject null_engine 1 486).1 ≡ some ApiResult.invalid_argument
unfolding ketphone_reject guarded
reject_without_engine = refl

hangup_without_engine : (ketphone_hangup null_engine 1).1 ≡ some ApiResult.invalid_argument
unfolding ketphone_hangup guarded
hangup_without_engine = refl

capture_without_engine : (ketphone_audio_capture null_engine (some (pos 1 ∷ []))).1 ≡ 0
unfolding ketphone_audio_capture
capture_without_engine = refl

playout_without_engine : (ketphone_audio_playout null_engine (some 3)).1 ≡ []
unfolding ketphone_audio_playout
playout_without_engine = refl

stats_without_engine : (ketphone_media_stats_get null_engine true).0 ≡ ApiResult.invalid_argument
unfolding ketphone_media_stats_get
stats_without_engine = refl
