-- ===== src/Engine/Loop/Turned.antt =====
-- A turn and the commands.
use ketphone.Base.{
  false, not, ◌&&◌, List, [], ◌∷◌, is_empty, if_case, Bool-cases, Option-cases, inl, inr, leb,
}
use ketphone.Core.Dispatch.{on_timer}
use ketphone.Core.Types.{World, UserAgent, Time}
use ketphone.Engine.Commands.{run_commands}
use ketphone.Engine.Link.{is_down, is_connected, connect_link, keep_open}
use ketphone.Engine.Loop.{Turn, relink, reconnect, manage_link, receive_sip, tick}
use ketphone.Engine.Loop.Events.{drain_link, hand_over}
use ketphone.Engine.Loop.Events.Unbooked.{
  drain_link-IsSameBooks, drop_link-IsSameBooks, hand_over-IsSameBooks,
}
use ketphone.Engine.Loop.Rtp.{receive_media}
use ketphone.Engine.Media.{Surroundings}
use ketphone.Engine.State.{Engine}
use ketphone.Engine.State.Books.{
  IsSameBooks, books_same, books_later, books_link, deliver_events-IsSameBooks,
}
use ketphone.Media.Srtp.{Libsrtp}
use ketphone.Media.Statistics.{Floats}
use ketphone.Net.Socket.{Arrival, receive}

module _ {F : Floats} {L : Libsrtp} where
  relink-IsSameBooks :
      (s : Surroundings) (e : Engine F L) (now : Time) → IsSameBooks e (relink s e now)
  unfolding relink
  relink-IsSameBooks s e now =
      let seen : Engine F L = record e { link = record (e.link) { relink = false } } in
      let marked = books_link e (record (e.link) { relink = false }) in
      if_case (IsSameBooks e) (not e.link.relink) (λ _. books_same e)
        λ _.
          if_case (IsSameBooks e) (is_connected e.link.state)
            (λ _. books_later marked (drop_link-IsSameBooks s seen now)) (λ _. marked)

  reconnect-IsSameBooks :
      (s : Surroundings) (e : Engine F L) (now : Time) → IsSameBooks e (reconnect s e now)
  unfolding reconnect
  reconnect-IsSameBooks s e now =
      if_case (IsSameBooks e) (is_down e.link.state && leb e.link.reconnect_at now)
        (λ _. books_link e (connect_link s e.link now)) (λ _. books_same e)

  manage_link-IsSameBooks :
      (s : Surroundings) (e : Engine F L) (t : Turn) → IsSameBooks e (manage_link s e t)
  unfolding manage_link
  manage_link-IsSameBooks s e t =
      let drained = drain_link s e t.now t.inbox in
      let linked = relink s drained t.now in
      let ready = reconnect s linked t.now in
      if_case (IsSameBooks e) (not e.tls) (λ _. books_same e)
        λ _. books_later (drain_link-IsSameBooks s e t.now t.inbox) (
          books_later (relink-IsSameBooks s drained t.now) (
            books_later (reconnect-IsSameBooks s linked t.now)
              (books_link ready (keep_open ready.link t.now))))

  receive_sip-IsSameBooks :
      (s : Surroundings) (e : Engine F L) (now : Time) (arrivals : List Arrival)
      → IsSameBooks e (receive_sip s e now arrivals)
  unfolding receive_sip
  receive_sip-IsSameBooks s e now [] = books_same e
  receive_sip-IsSameBooks s e now (a ∷ rest) = elim (Option-cases (receive false a)) [
    | inl failed ↦ rw (receive_sip, failed) (books_same e)
    | inr ((bytes, from), got) ↦ elim (Bool-cases (is_empty bytes)) [
      | inl nothing ↦ rw (receive_sip, got, nothing) (books_same e)
      | inr something ↦
          rw (receive_sip, got, something)
            (books_later (hand_over-IsSameBooks s e bytes now)
              (receive_sip-IsSameBooks s (hand_over s e bytes now) now rest))
    ]
  ]

  pub tick-IsSameBooks :
      (s : Surroundings) (e : Engine F L) (t : Turn)
      → IsSameBooks (run_commands s e t.now) (tick s e t)
  unfolding tick
  tick-IsSameBooks s e t =
      let ran = run_commands s e t.now in
      let linked = manage_link s ran t in
      let managed = manage_link-IsSameBooks s ran t in
      let told =
        if_case (IsSameBooks ran) e.tls (λ _. managed)
          (λ _. books_later managed (receive_sip-IsSameBooks s linked t.now t.signalling)) in
      let timed =
        deliver_events-IsSameBooks s _ t.now (λ (w : World) (a : UserAgent). on_timer w a t.now) in
      record {
        queue = (books_later (heard told) timed).queue;
        answered = (books_later (heard told) timed).answered;
        closed = (books_later (heard told) timed).closed;
        tls = (books_later (heard told) timed).tls;
      }
    where
      heard :
          {e f : Engine F L}
          → IsSameBooks e f
          → IsSameBooks e (record f { media = receive_media f.media t.now t.packets })
      heard b = record { queue = b.queue; answered = b.answered; closed = b.closed; tls = b.tls }
