-- ===== src/Engine/State.antt =====
-- src/core/engine.cpp: the engine's state, and how it drives the user agent. The callback only
-- takes the events that it is given: what it asks for in turn is a command of its own.
pub mod Invariant
pub mod Sends
pub mod Framed
pub mod Books
use ketphone.Base.{
  ℕ, ◌+◌, ◌==◌, Bool, true, false, not, ◌&&◌, ◌||◌, List, [], ◌∷◌, ◌++◌, Option, none, some,
  if◌then◌else◌, Bytes,
}
use ketphone.Core.Types.{
  World, UserAgent, UserAgentConfig, Time, HostCall, send_sip, open_media, start_media, close_media,
  Event, EventKind, registration, call_incoming, call_progress, call_answered, call_ended,
  RemoteMedia,
}
use ketphone.Core.Host.{take_events}
use ketphone.Engine.Link
use ketphone.Engine.Link.{Link, is_connected}
use ketphone.Engine.Media
use ketphone.Engine.Media.{EngineMedia, Surroundings, carry_all, open_socket, begin}
use ketphone.Media.Srtp.{Libsrtp}
use ketphone.Media.Statistics.{Floats}

-- ketphone_result.
pub data ApiResult : Type 0 where
  ok invalid_argument state_error network_error not_found internal_error : ApiResult

-- What waits for the network thread: a call of the API, or the request to stop.
pub data Command : Type 0 where
  registers unregisters stops : Command
  calls : ℕ → Bytes → Command
  answers hangs_up : ℕ → Command
  rejects : ℕ → ℕ → Command

-- The engine. The log of its user agent is empty between two calls of the agent, `written` is what
-- was sent on the UDP signalling socket, `delivered` the events that the callback was given, and
-- `answered` the results of the commands that were run or given up.
pub record Engine (F : Floats) (L : Libsrtp) : Type 0 where
  pub tls : Bool
  pub has_callback : Bool
  pub agent : UserAgent
  pub media : EngineMedia F L
  pub link : Link
  pub written : List Bytes
  pub queue : List Command
  pub closed : Bool
  pub stopping : Bool
  pub stop_deadline : Time
  pub delivered : List Event
  pub answered : List ApiResult

abbrev is_registration : EventKind → Bool
is_registration registration = true
is_registration call_incoming = false
is_registration call_progress = false
is_registration call_answered = false
is_registration call_ended = false

-- Whether an event says that a connection which looks fine is dead.
relinks : Bool → Link → List Event → Bool
relinks tls l [] = l.relink
relinks tls l (event ∷ events) =
    let later = relinks tls l events in
    tls && is_connected l.state && is_registration event.kind && event.status == 408 || later

module _ {F : Floats} {L : Libsrtp} where
  unfoldable pub send_message : Engine F L → Bytes → Engine F L
  send_message e message =
      if not e.tls
      then record e { written = e.written ++ message ∷ [] }
      else record e { link = Link.send e.link message }

  -- The surroundings of the user agent: what the engine answers after the calls made so far.
  world : Surroundings → Engine F L → Time → World
  world s e now = record {
    randomness = s.randomness;
    opens = λ log. (open_socket s (carry_all s now e.media log)).1;
    starts = λ log remote. (begin s (carry_all s now e.media log) remote now).1;
  }

  send_all : Engine F L → List HostCall → Engine F L
  send_all e [] = e
  send_all e (send_sip message ∷ hs) = send_all (send_message e message) hs
  send_all e (open_media port ∷ hs) = send_all e hs
  send_all e (start_media remote _ ∷ hs) = send_all e hs
  send_all e (close_media ∷ hs) = send_all e hs

  -- What the calls of the host do: the messages go out in order, and the media follows.
  unfoldable pub carry_out : Surroundings → Time → Engine F L → List HostCall → Engine F L
  unfolding send_all
  carry_out s now e hs = send_all (record e { media = carry_all s now e.media hs }) hs

  -- A call of the user agent, with its result.
  unfoldable pub drive {ℓ} :
      {R : Type ℓ}
      → Surroundings
      → Engine F L
      → Time
      → (World → UserAgent → UserAgent × R)
      → Engine F L × R
  unfolding world
  drive s e now op =
      let (agent, result) = op (world s e now) e.agent in
      (carry_out s now (record e { agent = record agent { log = [] } }) agent.log, result)

  -- The same for a call without a result.
  unfoldable pub drive_only :
      Surroundings → Engine F L → Time → (World → UserAgent → UserAgent) → Engine F L
  drive_only s e now op = (drive {0} s e now (λ (w : World) (a : UserAgent). (op w a, tt))).0

  unfoldable pub deliver_events : Engine F L → Engine F L
  unfolding relinks
  deliver_events e =
      let (agent, events) = take_events e.agent in
      let link = record (e.link) { relink = relinks e.tls e.link events } in
      record e {
        agent = agent;
        link = link;
        delivered = if e.has_callback then e.delivered ++ events else e.delivered;
      }
