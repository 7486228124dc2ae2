-- ===== src/Lib.antt =====
-- The calling core of KetPhone: a SIP user agent for one account and at most one call, the texts
-- that it exchanges with its server, the media of the call, and the engine that runs them.
--
-- The user agent (src/core/user_agent.hpp, src/core/user_agent.cpp) is a state machine that never
-- blocks and never reads the clock. Core.Types holds its state as the record `UserAgent`, with the
-- calls that it made of its host in `log` and its random draws counted; `World` stands for the
-- random sources and for what the host answers. One module follows each part of the source:
--   Core.Host      emit, send_raw, take_events, new_srtp_key, end_call, and the calls of the host
--   Core.Wire      requests, responses, the SDP of a call, the transactions, authorization
--   Core.Register  the constructor, start_registration, stop_registration, on_register_final
--   Core.Outgoing  call, send_invite, on_invite_provisional, on_invite_final, CANCEL and BYE
--   Core.Incoming  on_invite_request, answer, reject, hangup, shutdown
--   Core.Dispatch  on_message, on_response, on_request, on_timer, next_deadline, the transport
--   Core.Run       any sequence of calls of the public methods, each at its time
-- The lambdas that a transaction keeps are data (`OnFinal`, `OnProvisional`), with what they capture.
-- Core.Contract states what the host may rely on, as a state machine over its calls; the modules
-- Contract, Media, Answer, Final, Place and Commands below each part hold the lemmas on that part.
--
-- The texts are in Sip: Text (src/sip/text.hpp), Message, Framer (src/sip/stream_framer.cpp), Sdp,
-- Digest, Md5, Base64 and Random, each named for its file in src/sip. The media are in Media: G711,
-- Rtp and Statistics (both src/media/rtp.cpp), Jitter (src/media/jitter_buffer.cpp), Ring
-- (src/media/spsc_ring.hpp), Session (src/media/media_session.cpp) and Srtp (src/media/srtp.cpp,
-- with libsrtp as a parameter). A session takes samples from one ring, sends them as packets, and
-- plays what the jitter buffer gives into the other.
--
-- The network is in Net: Endpoint and Socket (both src/net/udp_socket.cpp) and Pem (src/net/pem.cpp).
-- What the system does is a parameter: the resolver, and how a socket answers.
--
-- The engine (src/core/engine.cpp) owns the sockets and one network thread, and is the host of the
-- user agent. One module follows each part of it:
--   Engine.Media     open_media, start_media, use_keys, close_media
--   Engine.Link      the TLS connection: connect_link, schedule_reconnect, send_sip, keep-alives
--   Engine.State     its state, how a call of the user agent is carried out, deliver_events
--   Engine.Commands  the C API on a running engine, run_commands, capture, playout
--   Engine.Create    create and the constructor
--   Engine.Loop      a turn of `loop`; below it Events is drain_link, and Rtp the media's part
--   Engine.Api       the C functions on an engine, with their guards against null pointers
--   Engine.Life      any order of commands, audio, turns and the end of the thread
-- For a call of the user agent the engine is its `World`: what it answers follows from the calls made
-- so far (`drive`), and these are then carried out on the media and the link. A turn finds the
-- connections' events and the datagrams that came in; its clock stands still. `made`, `sent`, `heard`,
-- `written`, `delivered` and `answered` only record what happened.
--
-- Numbers: sizes, times and counters are natural numbers, times in nanoseconds; fields that wrap
-- are taken modulo their width (the RTP header, the ring's indices, MD5, Base64). The jitter buffer
-- and the statistics use integers; an int64_t is not bounded. std::map is a list in the order of
-- its keys. Where a loop is not structural it takes fuel: one round for each byte of the text it
-- consumes (parameters of a header value, payload types, digits of a number), one for each slot
-- asked for in a ring, for the jitter buffer one for each frame that playout is behind, and eleven
-- for the frames of a turn, since a longer stall is cut. For 2^63 values
-- or more the capacity of a ring wraps, and nothing is said of such a ring. The bytes of a sockaddr
-- are those of Linux on a little-endian machine.
--
-- Not modelled: the locks of src/core/engine.cpp, the pipe that wakes its thread, what the event
-- callback asks for while it runs (here a command of its own, after it), exceptions, and the
-- struct_size of the C structs; src/net/tls_openssl.cpp and src/net/tls_apple.cpp, threads and queues
-- around OpenSSL and Network.framework; the memory order of the ring's atomics; the lock and the
-- chunked reads of src/sip/random.cpp; the arithmetic of double, which is a parameter of the
-- statistics; the command line client and the Apple bindings.
pub mod Base
pub mod Media
pub mod Sip
pub mod Core
pub mod Net
pub mod Engine
