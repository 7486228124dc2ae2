-- ===== src/Engine/State/Books.antt =====
-- What only the commands change: the commands that wait, their answers, and whether the engine is
-- closed; and that it uses TLS never changes.
use ketphone.Base.{not, List, [], ◌∷◌, ◌≡◌, refl, ◌∙◌, if_case, Bytes}
use ketphone.Core.Types.{
  World, UserAgent, Time, HostCall, send_sip, open_media, start_media, close_media,
}
use ketphone.Engine.Link
use ketphone.Engine.Link.{Link}
use ketphone.Engine.Media.{Surroundings, carry_all}
use ketphone.Engine.State.{
  Engine, send_message, send_all, world, carry_out, drive, drive_only, deliver_events,
}
use ketphone.Media.Srtp.{Libsrtp}
use ketphone.Media.Statistics.{Floats}

module _ {F : Floats} {L : Libsrtp} where
  pub record IsSameBooks (e f : Engine F L) : Type 0 where
    pub queue : f.queue ≡ e.queue
    pub answered : f.answered ≡ e.answered
    pub closed : f.closed ≡ e.closed
    pub tls : f.tls ≡ e.tls

  pub books_same : (e : Engine F L) → IsSameBooks e e
  books_same e = record { queue = refl; answered = refl; closed = refl; tls = refl }

  pub books_later : {e f g : Engine F L} → IsSameBooks e f → IsSameBooks f g → IsSameBooks e g
  books_later a b = record {
    queue = b.queue ∙ a.queue;
    answered = b.answered ∙ a.answered;
    closed = b.closed ∙ a.closed;
    tls = b.tls ∙ a.tls;
  }

  pub books_link : (e : Engine F L) (l : Link) → IsSameBooks e (record e { link = l })
  books_link e l = record { queue = refl; answered = refl; closed = refl; tls = refl }

  send_message-IsSameBooks :
      (e : Engine F L) (message : Bytes) → IsSameBooks e (send_message e message)
  unfolding send_message
  send_message-IsSameBooks e message =
      if_case (IsSameBooks e) (not e.tls)
        (λ _. record { queue = refl; answered = refl; closed = refl; tls = refl })
        (λ _. books_link e (Link.send e.link message))

  send_all-IsSameBooks : (e : Engine F L) (hs : List HostCall) → IsSameBooks e (send_all e hs)
  unfolding send_all
  send_all-IsSameBooks e [] = books_same e
  send_all-IsSameBooks e (send_sip message ∷ hs) =
      books_later (send_message-IsSameBooks e message)
        (send_all-IsSameBooks (send_message e message) hs)
  send_all-IsSameBooks e (open_media port ∷ hs) = send_all-IsSameBooks e hs
  send_all-IsSameBooks e (start_media remote _ ∷ hs) = send_all-IsSameBooks e hs
  send_all-IsSameBooks e (close_media ∷ hs) = send_all-IsSameBooks e hs

  -- A call of the user agent leaves them alone.
  pub drive-IsSameBooks {ℓ} :
      {R : Type ℓ} (s : Surroundings) (e : Engine F L) (now : Time)
      (op : World → UserAgent → UserAgent × R)
      → IsSameBooks e (drive s e now op).0
  unfolding drive carry_out
  drive-IsSameBooks s e now op =
      let agent = (op (world s e now) e.agent).0 in
      let sent =
        send_all-IsSameBooks
          (record e {
            agent = record agent { log = [] };
            media = carry_all s now e.media agent.log;
          })
          agent.log in
      record { queue = sent.queue; answered = sent.answered; closed = sent.closed; tls = sent.tls }

  pub deliver_events-IsSameBooks :
      (s : Surroundings) (e : Engine F L) (now : Time) (op : World → UserAgent → UserAgent)
      → IsSameBooks e (deliver_events (drive_only s e now op))
  unfolding deliver_events drive_only
  deliver_events-IsSameBooks s e now op =
      let driven = drive-IsSameBooks s e now (λ (w : World) (a : UserAgent). (op w a, tt)) in
      record {
        queue = driven.queue;
        answered = driven.answered;
        closed = driven.closed;
        tls = driven.tls;
      }
