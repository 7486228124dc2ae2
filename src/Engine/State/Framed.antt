-- ===== src/Engine/State/Framed.antt =====
-- A call of the user agent on an engine with another stream framer on its link.
use ketphone.Base.{
  ◌≡◌, refl, ◌∙◌, ap, not, ◌&&◌, ◌||◌, ◌==◌, Bool, List, [], ◌∷◌, Bool-cases, inl, inr, Bytes,
  length, leb, ◌+◌,
}
use ketphone.Core.Host.{take_events}
use ketphone.Core.Types.{
  World, UserAgent, Time, HostCall, Event, send_sip, open_media, start_media, close_media,
}
use ketphone.Engine.Link
use ketphone.Engine.Link.{Link, pending_limit, is_connected}
use ketphone.Engine.Media.{Surroundings, carry_all}
use ketphone.Engine.State.{
  Engine, send_message, send_all, relinks, carry_out, world, drive, drive_only, deliver_events,
  is_registration,
}
use ketphone.Media.Srtp.{Libsrtp}
use ketphone.Media.Statistics.{Floats}
use ketphone.Sip.Framer.{StreamFramer}

abbrev framed_link : Link → StreamFramer → Link
framed_link l f = record l { framer = f }

send-framed_link :
    (l : Link) (f : StreamFramer) (message : Bytes)
    → Link.send (framed_link l f) message ≡ framed_link (Link.send l message) f
unfolding Link.send
send-framed_link l f message = elim (Bool-cases l.connection) [
  | inl up ↦ rw up refl
  | inr down ↦ elim (Bool-cases (leb (length l.pending + length message) pending_limit)) [
    | inl room ↦ rw (down, room) refl
    | inr full ↦ rw (down, full) refl
  ]
]

relinks-framed_link :
    (tls : Bool) (l : Link) (f : StreamFramer) (events : List Event)
    → relinks tls (framed_link l f) events ≡ relinks tls l events
unfolding relinks
relinks-framed_link tls l f [] = refl
relinks-framed_link tls l f (event ∷ events) =
    ap
      (λ (later : Bool).
        tls && is_connected l.state && is_registration event.kind && event.status == 408 || later)
      (relinks-framed_link tls l f events)

module _ {F : Floats} {L : Libsrtp} where
  abbrev framed : Engine F L → StreamFramer → Engine F L
  framed e f = record e { link = framed_link e.link f }

  send_message-framed :
      (e : Engine F L) (f : StreamFramer) (message : Bytes)
      → send_message (framed e f) message ≡ framed (send_message e message) f
  unfolding send_message
  send_message-framed e f message = elim (Bool-cases (not e.tls)) [
    | inl plain ↦ rw plain refl
    | inr tls ↦
        rw tls (ap (λ (l : Link). record e { link = l }) (send-framed_link e.link f message))
  ]

  send_all-framed :
      (e : Engine F L) (f : StreamFramer) (hs : List HostCall)
      → send_all (framed e f) hs ≡ framed (send_all e hs) f
  unfolding send_all
  send_all-framed e f [] = refl
  send_all-framed e f (send_sip message ∷ hs) =
      ap (λ (t : Engine F L). send_all t hs) (send_message-framed e f message)
      ∙ send_all-framed (send_message e message) f hs
  send_all-framed e f (open_media port ∷ hs) = send_all-framed e f hs
  send_all-framed e f (start_media remote _ ∷ hs) = send_all-framed e f hs
  send_all-framed e f (close_media ∷ hs) = send_all-framed e f hs

  -- What a call of the user agent does depends on no framer, and it keeps the one that is there.
  pub deliver_events-framed :
      (s : Surroundings) (e : Engine F L) (f : StreamFramer) (now : Time)
      (op : World → UserAgent → UserAgent)
      → deliver_events (drive_only s (framed e f) now op)
        ≡ framed (deliver_events (drive_only s e now op)) f
  unfolding drive_only drive world carry_out deliver_events
  deliver_events-framed s e f now op =
      let agent = op (world s e now) e.agent in
      let driven : Engine F L = record e {
        agent = record agent { log = [] };
        media = carry_all s now e.media agent.log;
      } in
      let sent = send_all driven agent.log in
      ap (λ (t : Engine F L). deliver_events t) (send_all-framed driven f agent.log)
      ∙ ap
          (λ (b : Bool). record (framed (deliver_events sent) f) {
            link = record (framed_link sent.link f) { relink = b };
          })
          (relinks-framed_link sent.tls sent.link f (take_events sent.agent).1)
