-- ===== src/Engine/Loop/Events/Keeps.antt =====
-- What a connection tells the engine, and what an engine keeps.
use ketphone.Base.{
  ℕ, zero, suc, ◌≤◌, ◌==◌, true, List, [], ◌∷◌, ◌≡◌, ◌∙◌, if_case, Bool-cases, Option-cases, inl,
  inr, All, arith, Bytes, length,
}
use ketphone.Core.Contract.{Origin, KeepsContract}
use ketphone.Core.Dispatch.Contract.{on_message-KeepsContract}
use ketphone.Core.Dispatch.Timers.{on_transport_down-KeepsContract, on_transport_up-KeepsContract}
use ketphone.Core.Types.{World, UserAgent, Time}
use ketphone.Engine.Link.{disconnect, schedule_reconnect, bring_up}
use ketphone.Engine.Link.Backoff.{disconnect-IsLink, bring_up-IsLink}
use ketphone.Engine.Loop.Events.{
  LinkEvent, LinkEventKind, link_connected, link_closed, link_data, drop_link, with_framer,
  hand_over, read_messages, take_data, on_event, drain_link,
}
use ketphone.Engine.Media.{Surroundings}
use ketphone.Engine.State.{Engine, drive_only, deliver_events}
use ketphone.Engine.State.Invariant.{
  IsEngine, IsEngine-link, drive_only-IsEngine, deliver_events-IsEngine,
}
use ketphone.Engine.State.Sends.{deliver_events-IsSameLink}
use ketphone.Media.Srtp.{Libsrtp}
use ketphone.Media.Statistics.{Floats}
use ketphone.Sip.Framer
use ketphone.Sip.Framer.{StreamFramer}

module _ {F : Floats} {L : Libsrtp} where
  -- The engine keeps its invariant, and the last connection made is of this generation.
  abbrev pub IsMade : ℕ → Engine F L → Type 0
  IsMade made e = IsEngine e × (e.link.made ≡ made)

  drive_only-IsMade :
      (s : Surroundings) (made : ℕ) (e : Engine F L) (now : Time)
      (op : World → UserAgent → UserAgent)
      → ((origin : Origin) (w : World) (a : UserAgent)
          → KeepsContract origin a
          → KeepsContract origin (op w a))
      → IsMade made e
      → IsMade made (deliver_events (drive_only s e now op))
  drive_only-IsMade s made e now op kept k = (
    deliver_events-IsEngine _ (drive_only-IsEngine s e now op kept k.0),
    (deliver_events-IsSameLink s e now op).0 ∙ k.1,
  )

  pub drop_link-IsMade :
      (s : Surroundings) (made : ℕ) (e : Engine F L) (now : Time)
      → IsMade made e
      → IsMade made (drop_link s e now)
  unfolding drop_link disconnect schedule_reconnect
  drop_link-IsMade s made e now k =
      drive_only-IsMade s made (record e { link = disconnect e.link now }) now _
        (λ o w a h. on_transport_down-KeepsContract w a now h)
        (IsEngine-link e (disconnect e.link now) (disconnect-IsLink e.link now k.0.link) k.0, k.1)

  with_framer-IsMade :
      (made : ℕ) (e : Engine F L) (f : StreamFramer) → IsMade made e → IsMade made (with_framer e f)
  unfolding with_framer
  with_framer-IsMade made e f k = (
    IsEngine-link e (record (e.link) { framer = f })
        (record {
          present = k.0.link.present;
          waiting = k.0.link.waiting;
          bounded = k.0.link.bounded;
          least = k.0.link.least;
          most = k.0.link.most;
          earlier = k.0.link.earlier;
          current = k.0.link.current;
        })
        k.0,
    k.1,
  )

  pub hand_over-IsMade :
      (s : Surroundings) (made : ℕ) (e : Engine F L) (message : Bytes) (now : Time)
      → IsMade made e
      → IsMade made (hand_over s e message now)
  unfolding hand_over
  hand_over-IsMade s made e message now k =
      drive_only-IsMade s made e now _ (λ o w a h. on_message-KeepsContract w a message now h) k

  read_messages-IsMade :
      (fuel : ℕ) (s : Surroundings) (made : ℕ) (e : Engine F L) (now : Time)
      → IsMade made e
      → IsMade made (read_messages fuel s e now)
  unfolding read_messages
  read_messages-IsMade zero s made e now k = k
  read_messages-IsMade (suc fuel) s made e now k =
      let framed = with_framer-IsMade made e (Framer.next e.link.framer).0 k in
      elim (Option-cases (Framer.next e.link.framer).1) [
        | inl nothing ↦ rw (read_messages, nothing) framed
        | inr (message, found) ↦
            rw (read_messages, found)
              (read_messages-IsMade fuel s made _ now
                (hand_over-IsMade s made _ message now framed))
      ]

  take_data-IsMade :
      (s : Surroundings) (made : ℕ) (e : Engine F L) (bytes : Bytes) (now : Time)
      → IsMade made e
      → IsMade made (take_data s e bytes now)
  unfolding take_data
  take_data-IsMade s made e bytes now k =
      let pushed = with_framer e (Framer.push e.link.framer bytes) in
      let fuel = suc (length pushed.link.framer.buffer) in
      let read = read_messages-IsMade fuel s made pushed now (with_framer-IsMade made e _ k) in
      if_case (IsMade made) (read_messages fuel s pushed now).link.framer.failed
        (λ _. drop_link-IsMade s made _ now read) (λ _. read)

  on_event-IsMade :
      (s : Surroundings) (made : ℕ) (e : Engine F L) (now : Time) (kind : LinkEventKind)
      → e.link.connection ≡ true
      → IsMade made e
      → IsMade made (on_event s e now kind)
  unfolding on_event bring_up
  on_event-IsMade s made e now link_connected there k =
      drive_only-IsMade s made (record e { link = bring_up e.link now }) now _
        (λ o w a h. on_transport_up-KeepsContract w a now h)
        (IsEngine-link e (bring_up e.link now) (bring_up-IsLink e.link now there k.0.link) k.0, k.1)
  on_event-IsMade s made e now (link_data bytes) there k = take_data-IsMade s made e bytes now k
  on_event-IsMade s made e now link_closed there k = drop_link-IsMade s made e now k

  -- An event of the current generation finds its connection there.
  posted_there :
      (made : ℕ) (e : Engine F L) (generation : ℕ)
      → IsMade made e
      → (1 ≤ generation) × (generation ≤ made)
      → generation ≡ e.link.generation
      → e.link.connection ≡ true
  posted_there made e generation k posted same =
      k.0.link.current (omega (arith, k.1, posted.0, posted.1, same, k.0.link.earlier))
        (omega (arith, posted.0, same))

  pub drain_link-IsMade :
      (s : Surroundings) (made : ℕ) (e : Engine F L) (now : Time) (events : List LinkEvent)
      → All (λ event. (1 ≤ event.generation) × (event.generation ≤ made)) events
      → IsMade made e
      → IsMade made (drain_link s e now events)
  unfolding drain_link
  drain_link-IsMade s made e now [] posted k = k
  drain_link-IsMade s made e now (event ∷ events) posted k =
      elim (Bool-cases (event.generation == e.link.generation)) [
        | inr stale ↦ rw (drain_link, stale) (drain_link-IsMade s made e now events posted.1 k)
        | inl same ↦
            let there = posted_there made e event.generation k posted.0 (ground (arith, same)) in
            rw (drain_link, same)
              (drain_link-IsMade s made (on_event s e now event.kind) now events posted.1
                (on_event-IsMade s made e now event.kind there k))
      ]
