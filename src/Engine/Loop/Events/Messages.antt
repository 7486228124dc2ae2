-- ===== src/Engine/Loop/Events/Messages.antt =====
-- The messages of the stream that a turn reads.
use ketphone.Base.{
  ℕ, zero, suc, ◌<◌, ◌≡◌, refl, ◌∙◌, ap, subst, List, [], ◌∷◌, none, Option-cases, inl, inr, arith,
  Bytes, length,
}
use ketphone.Core.Dispatch.{on_message}
use ketphone.Core.Types.{Time, World, UserAgent}
use ketphone.Engine.Loop.Events.{with_framer, hand_over, read_messages}
use ketphone.Engine.Media.{Surroundings}
use ketphone.Engine.State.{Engine}
use ketphone.Engine.State.Framed.{deliver_events-framed}
use ketphone.Media.Srtp.{Libsrtp}
use ketphone.Media.Statistics.{Floats}
use ketphone.Sip.Framer
use ketphone.Sip.Framer.{StreamFramer}
use ketphone.Sip.Framer.Rest.{next-next, next-shorter}
use ketphone.Sip.Framer.Stream.{Gives, no_more, one_more}

module _ {F : Floats} {L : Libsrtp} where
  -- The messages handed to the user agent in order.
  pub hand_over_all : Surroundings → Engine F L → List Bytes → Time → Engine F L
  unfolding hand_over
  hand_over_all s e [] now = e
  hand_over_all s e (message ∷ messages) now =
      hand_over_all s (hand_over s e message now) messages now

  hand_over-with_framer :
      (s : Surroundings) (e : Engine F L) (f : StreamFramer) (message : Bytes) (now : Time)
      → hand_over s (with_framer e f) message now ≡ with_framer (hand_over s e message now) f
  unfolding hand_over with_framer
  hand_over-with_framer s e f message now =
      deliver_events-framed s e f now (λ (w : World) (a : UserAgent). on_message w a message now)

  hand_over_all-with_framer :
      (s : Surroundings) (e : Engine F L) (f : StreamFramer) (messages : List Bytes) (now : Time)
      → hand_over_all s (with_framer e f) messages now
        ≡ with_framer (hand_over_all s e messages now) f
  unfolding hand_over_all
  hand_over_all-with_framer s e f [] now = refl
  hand_over_all-with_framer s e f (message ∷ messages) now =
      ap (λ (t : Engine F L). hand_over_all s t messages now)
        (hand_over-with_framer s e f message now)
      ∙ hand_over_all-with_framer s (hand_over s e message now) f messages now

  -- What reading leaves of an engine: the messages that its framer gives were handed over in order,
  -- and the framer behind them gives no other.
  pub record IsRead (s : Surroundings) (now : Time) (e after : Engine F L) : Type 0 where
    pub messages : List Bytes
    pub rest : StreamFramer
    pub given : Gives e.link.framer messages rest
    pub handed : after ≡ with_framer (hand_over_all s e messages now) rest
    pub ended : (Framer.next rest).1 ≡ none

  -- With more rounds than the framer's buffer has bytes, reading hands the messages that the framer
  -- gives to the user agent, all of them in their order, until it gives none; and it leaves the
  -- framer that is behind them, which still gives none.
  pub read_messages-IsRead :
      (fuel : ℕ) (s : Surroundings) (e : Engine F L) (now : Time)
      → length e.link.framer.buffer < fuel
      → IsRead s now e (read_messages fuel s e now)
  unfolding read_messages with_framer hand_over_all
  read_messages-IsRead zero s e now h = absurd (omega (arith, h))
  read_messages-IsRead (suc fuel) s e now h =
      let next = Framer.next e.link.framer in
      elim (Option-cases next.1) [
        | inl nothing ↦ record {
          messages = [];
          rest = next.0;
          given = no_more e.link.framer nothing;
          handed = rw (read_messages, nothing) refl;
          ended = next-next e.link.framer nothing;
        }
        | inr (message, found) ↦
            let behind = hand_over s (with_framer e next.0) message now in
            let same = hand_over-with_framer s e next.0 message now in
            let framer = ap (λ (t : Engine F L). t.link.framer) same in
            let shorter = next-shorter e.link.framer message found in
            let more =
              read_messages-IsRead fuel s behind now
                (omega (arith, shorter, h, ap (λ (f : StreamFramer). length f.buffer) framer)) in
            record {
              messages = message ∷ more.messages;
              rest = more.rest;
              given =
                  one_more e.link.framer more.rest message more.messages found
                    (subst (λ f. Gives f more.messages more.rest) framer more.given);
              handed =
                  rw (read_messages, found)
                    (more.handed
                      ∙ ap
                          (λ (t : Engine F L).
                            with_framer (hand_over_all s t more.messages now) more.rest)
                          same
                      ∙ ap (λ (t : Engine F L). with_framer t more.rest)
                          (hand_over_all-with_framer s (hand_over s e message now) next.0
                            more.messages now));
              ended = more.ended;
            }
      ]
