-- ===== src/Engine/Loop.antt =====
-- src/core/engine.cpp, the network thread: one turn of `loop` after another. A turn sees what came in
-- since the last one, and its clock stands still.
pub mod Reach
pub mod Wake
pub mod Turned
pub mod Rtp
pub mod Events
use ketphone.Base.{
  ℕ, zero, suc, ◌+◌, ◌-◌, Bool, true, false, not, ◌&&◌, ◌||◌, List, [], ◌∷◌, Option, none, some,
  if◌then◌else◌, ltb, leb, min, is_empty, Bytes, length,
}
use ketphone.Core.Dispatch.{on_timer, next_deadline}
use ketphone.Core.Types.{World, UserAgent, Time, milliseconds}
use ketphone.Engine.Commands.{run_commands, close_queue}
use ketphone.Engine.Link.{Link, LinkState, is_down, is_connected, connect_link, keep_open}
use ketphone.Engine.Loop.Events.{LinkEvent, drain_link, drop_link, hand_over}
use ketphone.Engine.Loop.Rtp.{receive_media, play_frames}
use ketphone.Engine.Media.{EngineMedia, Surroundings}
use ketphone.Engine.State.{Engine, drive_only, deliver_events}
use ketphone.Media.Srtp.{Libsrtp}
use ketphone.Media.Statistics.{Floats}
use ketphone.Net.Socket.{Arrival, receive}

-- What a turn finds: the time, the connections' events, and the datagrams on the two sockets.
pub record Turn : Type 0 where
  pub now : Time
  pub inbox : List LinkEvent
  pub signalling : List Arrival
  pub packets : List Arrival

-- The earlier of a time and a deadline that counts.
sooner : Bool → Time → Time → Time
sooner counts at deadline = if counts then min at deadline else at

sooner_of : Option Time → Time → Time
sooner_of none at = at
sooner_of (some deadline) at = min at deadline

module _ {F : Floats} {L : Libsrtp} where
  -- When a turn that begins now ends its wait, at the latest.
  unfoldable pub wake_at : Engine F L → Time → Time
  unfolding sooner sooner_of
  wake_at e now =
      let at1 = sooner_of (next_deadline e.agent) (now + milliseconds 200) in
      let at2 = sooner e.media.session.active at1 e.media.next_frame in
      let at3 = sooner e.stopping at2 e.stop_deadline in
      let at4 = sooner (e.tls && is_down e.link.state) at3 e.link.reconnect_at in
      sooner (e.tls && is_connected e.link.state) at4 e.link.keepalive_at

  -- A connection that is dead without having noticed makes way for a new one.
  unfoldable pub relink : Surroundings → Engine F L → Time → Engine F L
  relink s e now =
      let seen : Engine F L = record e { link = record (e.link) { relink = false } } in
      if not e.link.relink
      then e
      else if is_connected e.link.state
      then drop_link s seen now
      else seen

  unfoldable pub reconnect : Surroundings → Engine F L → Time → Engine F L
  reconnect s e now =
      if is_down e.link.state && leb e.link.reconnect_at now
      then record e { link = connect_link s e.link now }
      else e

  -- The connection's part of a turn.
  unfoldable pub manage_link : Surroundings → Engine F L → Turn → Engine F L
  manage_link s e t =
      let ready = reconnect s (relink s (drain_link s e t.now t.inbox) t.now) t.now in
      if not e.tls then e else record ready { link = keep_open ready.link t.now }

  -- Signalling over UDP, up to the first receive that fails or finds nothing.
  receive_sip : Surroundings → Engine F L → Time → List Arrival → Engine F L
  receive_sip s e now [] = e
  receive_sip s e now (a ∷ rest) = elim (receive false a) as (λ _. Engine F L) [
    | none ↦ e
    | some (bytes, from) ↦ elim (is_empty bytes) as (λ _. Engine F L) [
      | true ↦ e
      | false ↦ receive_sip s (hand_over s e bytes now) now rest
    ]
  ]

  unfoldable pub tick : Surroundings → Engine F L → Turn → Engine F L
  unfolding receive_sip
  tick s e t =
      let linked = manage_link s (run_commands s e t.now) t in
      let told = if e.tls then linked else receive_sip s linked t.now t.signalling in
      let heard = record told { media = receive_media told.media t.now t.packets } in
      let timed =
        deliver_events
          (drive_only s heard t.now (λ (w : World) (a : UserAgent). on_timer w a t.now)) in
      record timed { media = play_frames timed.media t.now }

  -- Whether the thread ends after a turn.
  unfoldable pub is_over : Engine F L → Time → Bool
  is_over e now = e.stopping && (is_empty e.agent.transactions || leb e.stop_deadline now)

  -- The thread, over the turns that it is given.
  unfoldable pub loop : Surroundings → Engine F L → List Turn → Engine F L
  loop s e [] = e
  loop s e (t ∷ ts) =
      let next = tick s e t in
      let rest = loop s next ts in if is_over next t.now then close_queue next else rest
