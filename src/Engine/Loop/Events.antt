-- ===== src/Engine/Loop/Events.antt =====
-- src/core/engine.cpp, what a TLS connection tells the engine.
pub mod Keeps
pub mod Messages
pub mod Unbooked
use ketphone.Base.{
  ℕ, zero, suc, ◌==◌, Bool, true, false, not, List, [], ◌∷◌, Option, none, some, if◌then◌else◌,
  Bytes, length,
}
use ketphone.Core.Dispatch.{on_message, on_transport_down, on_transport_up}
use ketphone.Core.Types.{World, UserAgent, Time}
use ketphone.Engine.Link.{Link, disconnect, bring_up}
use ketphone.Engine.Media.{Surroundings}
use ketphone.Engine.State.{Engine, drive_only, deliver_events}
use ketphone.Media.Srtp.{Libsrtp}
use ketphone.Media.Statistics.{Floats}
use ketphone.Sip.Framer
use ketphone.Sip.Framer.{StreamFramer}

pub data LinkEventKind : Type 0 where
  link_connected link_closed : LinkEventKind
  link_data : Bytes → LinkEventKind

pub record LinkEvent : Type 0 where
  pub generation : ℕ
  pub kind : LinkEventKind

module _ {F : Floats} {L : Libsrtp} where
  unfoldable pub drop_link : Surroundings → Engine F L → Time → Engine F L
  drop_link s e now = deliver_events (
      drive_only s (record e { link = disconnect e.link now }) now
        (λ (w : World) (a : UserAgent). on_transport_down w a now))

  unfoldable pub with_framer : Engine F L → StreamFramer → Engine F L
  with_framer e framer = record e { link = record (e.link) { framer = framer } }

  unfoldable pub hand_over : Surroundings → Engine F L → Bytes → Time → Engine F L
  hand_over s e message now =
      deliver_events
        (drive_only s e now (λ (w : World) (a : UserAgent). on_message w a message now))

  -- The messages of the stream so far, at most as many as the first number.
  pub read_messages : ℕ → Surroundings → Engine F L → Time → Engine F L
  unfolding with_framer hand_over
  read_messages zero s e now = e
  read_messages (suc fuel) s e now =
      let (framer, message) = Framer.next e.link.framer in
      elim message as (λ _. Engine F L) [
        | none ↦ with_framer e framer
        | some bytes ↦ read_messages fuel s (hand_over s (with_framer e framer) bytes now) now
      ]

  -- Each message takes at least one byte of the buffer, and none is left at the end.
  take_data : Surroundings → Engine F L → Bytes → Time → Engine F L
  unfolding with_framer
  take_data s e bytes now =
      let pushed = with_framer e (Framer.push e.link.framer bytes) in
      let read = read_messages (suc (length pushed.link.framer.buffer)) s pushed now in
      if read.link.framer.failed then drop_link s read now else read

  on_event : Surroundings → Engine F L → Time → LinkEventKind → Engine F L
  unfolding take_data
  on_event s e now link_connected = deliver_events (
      drive_only s (record e { link = bring_up e.link now }) now
        (λ (w : World) (a : UserAgent). on_transport_up w a now))
  on_event s e now (link_data bytes) = take_data s e bytes now
  on_event s e now link_closed = drop_link s e now

  -- The events in order; those of another generation are from a connection that is gone.
  unfoldable pub drain_link : Surroundings → Engine F L → Time → List LinkEvent → Engine F L
  unfolding on_event
  drain_link s e now [] = e
  drain_link s e now (event ∷ events) =
      elim (event.generation == e.link.generation) as (λ _. Engine F L) [
        | false ↦ drain_link s e now events
        | true ↦ drain_link s (on_event s e now event.kind) now events
      ]
