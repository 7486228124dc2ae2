-- ===== src/Engine/Life.antt =====
-- The engine over its life: what the owner, the audio thread and the network thread do to it, in any
-- order.
pub mod Answers
pub mod Safe
use ketphone.Base.{
  length, Bool-cases, inl, inr, if◌then◌else◌, ℕ, ◌+◌, ◌≤◌, Bool, true, false, not, List, [], ◌∷◌,
  ◌≡◌, refl, sym, ◌∙◌, Option, none, some, is_some, All, ◌==◌, if_case, option_case, subst, arith,
  Bytes, ℤ,
}
use ketphone.Core.Contract.{HostState, idle, up, broken, media_state, host_after}
use ketphone.Core.Register
use ketphone.Core.Run.Contract.{init-KeepsContract}
use ketphone.Core.Types.{Call, UserAgentConfig, seconds}
use ketphone.Engine.Commands.{submit, place_call, close_queue, capture, playout}
use ketphone.Engine.Commands.Keeps.{submit-IsEngine, place_call-IsEngine, close_queue-IsEngine}
use ketphone.Engine.Create.{Config, TlsOptions, create}
use ketphone.Engine.Create.Starts.{IsStarted, HasStarted, create-HasStarted}
use ketphone.Engine.Link.{is_down}
use ketphone.Engine.Link.Backoff.{IsLink}
use ketphone.Engine.Loop.{Turn, tick}
use ketphone.Engine.Loop.Reach.{IsHeard, tick-IsEngine}
use ketphone.Engine.Media.{EngineMedia, Surroundings}
use ketphone.Engine.Media.Secret.{IsSecret}
use ketphone.Engine.Media.Secure.{IsKeyed, IsSecure}
use ketphone.Engine.State.{Engine, Command}
use ketphone.Engine.State.Invariant.{IsEngine, IsEngine-media}
use ketphone.Media.Session
use ketphone.Media.Srtp.{Libsrtp}
use ketphone.Media.Statistics.{Floats}
use ketphone.Net.Endpoint.{Family}

-- From one engine to another: a command of the owner, audio, a turn of the network thread with
-- events of connections that were made, or the thread's end.
pub data Reach {F : Floats} {L : Libsrtp} (s : Surroundings) (e : Engine F L)
    : Engine F L → Type 0 where
  begins : Reach s e e
  asks : {f : Engine F L} (c : Command) → Reach s e f → Reach s e (submit f c)
  dials : {f : Engine F L} (target : Bytes) → Reach s e f → Reach s e (place_call f target)
  records : {f : Engine F L} (samples : List ℤ) → Reach s e f → Reach s e (capture f samples).0
  plays : {f : Engine F L} (count : ℕ) → Reach s e f → Reach s e (playout f count).0
  turns : {f : Engine F L} (t : Turn) → IsHeard f t → Reach s e f → Reach s e (tick s f t)
  ends : {f : Engine F L} → Reach s e f → Reach s e (close_queue f)

module _ {F : Floats} {L : Libsrtp} where
  -- The audio rings have no part in what the media keeps.
  session-IsSecure :
      (state : HostState) (m : EngineMedia F L) (session : Session.MediaSession F)
      → session.active ≡ m.session.active
      → IsSecure state m
      → IsSecure state (record m { session = session })
  session-IsSecure idle m session same k = same ∙ k
  session-IsSecure up m session same k = λ active.
      let keyed = k (sym same ∙ active) in
      record { outgoing = keyed.outgoing; incoming = keyed.incoming; socket = keyed.socket }
  session-IsSecure broken m session same k = tt

  session-IsEngine :
      (e : Engine F L) (session : Session.MediaSession F)
      → session.active ≡ e.media.session.active
      → IsEngine e
      → IsEngine (record e { media = record (e.media) { session = session } })
  session-IsEngine e session same k =
      IsEngine-media e (record (e.media) { session = session })
        (λ tls. session-IsSecure (media_state e.agent.call) e.media session same (k.secure tls))
        (λ tls. record { outgoing = (k.secret tls).outgoing; incoming = (k.secret tls).incoming }) k

  capture-IsEngine :
      (e : Engine F L) (samples : List ℤ) → IsEngine e → IsEngine (capture e samples).0
  unfolding capture
  capture-IsEngine e samples k = session-IsEngine e _ refl k

  playout-IsEngine : (e : Engine F L) (count : ℕ) → IsEngine e → IsEngine (playout e count).0
  unfolding playout
  playout-IsEngine e count k = session-IsEngine e _ refl k

  pub Reach-IsEngine : (s : Surroundings) (e f : Engine F L) → Reach s e f → IsEngine e → IsEngine f
  Reach-IsEngine s e f begins k = k
  Reach-IsEngine s e f (asks {f = g} c r) k = submit-IsEngine g c (Reach-IsEngine s e g r k)
  Reach-IsEngine s e f (dials {f = g} target r) k =
      place_call-IsEngine g target (Reach-IsEngine s e g r k)
  Reach-IsEngine s e f (records {f = g} samples r) k =
      capture-IsEngine g samples (Reach-IsEngine s e g r k)
  Reach-IsEngine s e f (plays {f = g} count r) k =
      playout-IsEngine g count (Reach-IsEngine s e g r k)
  Reach-IsEngine s e f (turns {f = g} t heard r) k =
      tick-IsEngine s g t heard (Reach-IsEngine s e g r k)
  Reach-IsEngine s e f (ends {f = g} r) k = close_queue-IsEngine g (Reach-IsEngine s e g r k)
