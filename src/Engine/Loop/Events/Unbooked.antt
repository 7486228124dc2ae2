-- ===== src/Engine/Loop/Events/Unbooked.antt =====
-- What a connection tells the engine, and the commands.
use ketphone.Base.{
  ℕ, zero, suc, ◌==◌, List, [], ◌∷◌, if_case, Bool-cases, Option-cases, inl, inr, Bytes, length,
}
use ketphone.Core.Dispatch.{on_message, on_transport_down, on_transport_up}
use ketphone.Core.Types.{World, UserAgent, Time}
use ketphone.Engine.Link.{disconnect, bring_up}
use ketphone.Engine.Loop.Events.{
  LinkEvent, LinkEventKind, link_connected, link_closed, link_data, drop_link, with_framer,
  hand_over, read_messages, take_data, on_event, drain_link,
}
use ketphone.Engine.Media.{Surroundings}
use ketphone.Engine.State.{Engine}
use ketphone.Engine.State.Books.{
  IsSameBooks, books_same, books_later, books_link, deliver_events-IsSameBooks,
}
use ketphone.Media.Srtp.{Libsrtp}
use ketphone.Media.Statistics.{Floats}
use ketphone.Sip.Framer
use ketphone.Sip.Framer.{StreamFramer}

module _ {F : Floats} {L : Libsrtp} where
  pub drop_link-IsSameBooks :
      (s : Surroundings) (e : Engine F L) (now : Time) → IsSameBooks e (drop_link s e now)
  unfolding drop_link
  drop_link-IsSameBooks s e now =
      let cut : Engine F L = record e { link = disconnect e.link now } in
      books_later (books_link e (disconnect e.link now)) (
        deliver_events-IsSameBooks s cut now
          (λ (w : World) (a : UserAgent). on_transport_down w a now))

  pub hand_over-IsSameBooks :
      (s : Surroundings) (e : Engine F L) (message : Bytes) (now : Time)
      → IsSameBooks e (hand_over s e message now)
  unfolding hand_over
  hand_over-IsSameBooks s e message now =
      deliver_events-IsSameBooks s e now (λ (w : World) (a : UserAgent). on_message w a message now)

  with_framer-IsSameBooks : (e : Engine F L) (f : StreamFramer) → IsSameBooks e (with_framer e f)
  unfolding with_framer
  with_framer-IsSameBooks e f = books_link e (record (e.link) { framer = f })

  read_messages-IsSameBooks :
      (fuel : ℕ) (s : Surroundings) (e : Engine F L) (now : Time)
      → IsSameBooks e (read_messages fuel s e now)
  unfolding read_messages
  read_messages-IsSameBooks zero s e now = books_same e
  read_messages-IsSameBooks (suc fuel) s e now =
      let framed = with_framer-IsSameBooks e (Framer.next e.link.framer).0 in
      elim (Option-cases (Framer.next e.link.framer).1) [
        | inl nothing ↦ rw (read_messages, nothing) framed
        | inr (message, found) ↦
            let behind = with_framer e (Framer.next e.link.framer).0 in
            let handed = hand_over-IsSameBooks s behind message now in
            let rest = read_messages-IsSameBooks fuel s (hand_over s behind message now) now in
            rw (read_messages, found) (books_later framed (books_later handed rest))
      ]

  take_data-IsSameBooks :
      (s : Surroundings) (e : Engine F L) (bytes : Bytes) (now : Time)
      → IsSameBooks e (take_data s e bytes now)
  unfolding take_data
  take_data-IsSameBooks s e bytes now =
      let pushed = with_framer e (Framer.push e.link.framer bytes) in
      let fuel = suc (length pushed.link.framer.buffer) in
      let read = read_messages fuel s pushed now in
      let so_far =
        books_later (with_framer-IsSameBooks e (Framer.push e.link.framer bytes))
          (read_messages-IsSameBooks fuel s pushed now) in
      if_case (IsSameBooks e) read.link.framer.failed
        (λ _. books_later so_far (drop_link-IsSameBooks s read now)) (λ _. so_far)

  on_event-IsSameBooks :
      (s : Surroundings) (e : Engine F L) (now : Time) (kind : LinkEventKind)
      → IsSameBooks e (on_event s e now kind)
  unfolding on_event
  on_event-IsSameBooks s e now link_connected =
      let raised : Engine F L = record e { link = bring_up e.link now } in
      books_later (books_link e (bring_up e.link now)) (
        deliver_events-IsSameBooks s raised now
          (λ (w : World) (a : UserAgent). on_transport_up w a now))
  on_event-IsSameBooks s e now (link_data bytes) = take_data-IsSameBooks s e bytes now
  on_event-IsSameBooks s e now link_closed = drop_link-IsSameBooks s e now

  pub drain_link-IsSameBooks :
      (s : Surroundings) (e : Engine F L) (now : Time) (events : List LinkEvent)
      → IsSameBooks e (drain_link s e now events)
  unfolding drain_link
  drain_link-IsSameBooks s e now [] = books_same e
  drain_link-IsSameBooks s e now (event ∷ events) =
      elim (Bool-cases (event.generation == e.link.generation)) [
        | inr stale ↦ rw (drain_link, stale) (drain_link-IsSameBooks s e now events)
        | inl same ↦
            rw (drain_link, same)
              (books_later (on_event-IsSameBooks s e now event.kind)
                (drain_link-IsSameBooks s (on_event s e now event.kind) now events))
      ]
