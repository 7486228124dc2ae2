-- ===== src/Engine/State/Sends.antt =====
-- What a call of the user agent leaves of the link.
use ketphone.Base.{not, List, [], ◌∷◌, ◌≡◌, refl, ◌∙◌, if_case, Bytes, length, leb, ◌+◌}
use ketphone.Core.Types.{
  World, UserAgent, Time, HostCall, send_sip, open_media, start_media, close_media,
}
use ketphone.Engine.Link
use ketphone.Engine.Link.{Link, pending_limit}
use ketphone.Engine.Media.{Surroundings, carry_all}
use ketphone.Engine.State.{
  Engine, send_message, send_all, world, carry_out, drive, drive_only, deliver_events,
}
use ketphone.Media.Srtp.{Libsrtp}
use ketphone.Media.Statistics.{Floats}

-- The same connection, with the same stream.
abbrev pub IsSameLink : Link → Link → Type 0
IsSameLink l m = (m.made ≡ l.made) × (m.framer ≡ l.framer)

send-IsSameLink : (l : Link) (message : Bytes) → IsSameLink l (Link.send l message)
unfolding Link.send
send-IsSameLink l message =
    if_case (IsSameLink l) l.connection (λ _. (refl, refl))
      λ _.
        if_case (IsSameLink l) (leb (length l.pending + length message) pending_limit)
          (λ _. (refl, refl)) (λ _. (refl, refl))

module _ {F : Floats} {L : Libsrtp} where
  send_message-IsSameLink :
      (e : Engine F L) (message : Bytes) → IsSameLink e.link (send_message e message).link
  unfolding send_message
  send_message-IsSameLink e message =
      if_case (λ (f : Engine F L). IsSameLink e.link f.link) (not e.tls) (λ _. (refl, refl))
        (λ _. send-IsSameLink e.link message)

  send_all-IsSameLink :
      (e : Engine F L) (hs : List HostCall) → IsSameLink e.link (send_all e hs).link
  unfolding send_all
  send_all-IsSameLink e [] = (refl, refl)
  send_all-IsSameLink e (send_sip message ∷ hs) =
      let sent = send_message-IsSameLink e message in
      let rest = send_all-IsSameLink (send_message e message) hs in
      (rest.0 ∙ sent.0, rest.1 ∙ sent.1)
  send_all-IsSameLink e (open_media port ∷ hs) = send_all-IsSameLink e hs
  send_all-IsSameLink e (start_media remote _ ∷ hs) = send_all-IsSameLink e hs
  send_all-IsSameLink e (close_media ∷ hs) = send_all-IsSameLink e hs

  carry_out-IsSameLink :
      (s : Surroundings) (now : Time) (e : Engine F L) (hs : List HostCall)
      → IsSameLink e.link (carry_out s now e hs).link
  unfolding carry_out
  carry_out-IsSameLink s now e hs =
      send_all-IsSameLink (record e { media = carry_all s now e.media hs }) hs

  pub drive-IsSameLink {ℓ} :
      {R : Type ℓ} (s : Surroundings) (e : Engine F L) (now : Time)
      (op : World → UserAgent → UserAgent × R)
      → IsSameLink e.link (drive s e now op).0.link
  unfolding drive
  drive-IsSameLink s e now op =
      let agent = (op (world s e now) e.agent).0 in
      carry_out-IsSameLink s now (record e { agent = record agent { log = [] } }) agent.log

  -- So does delivering the events that the call left.
  pub deliver_events-IsSameLink :
      (s : Surroundings) (e : Engine F L) (now : Time) (op : World → UserAgent → UserAgent)
      → IsSameLink e.link (deliver_events (drive_only s e now op)).link
  unfolding deliver_events drive_only
  deliver_events-IsSameLink s e now op =
      drive-IsSameLink s e now (λ (w : World) (a : UserAgent). (op w a, tt))
