-- ===== src/Engine/Life/Safe.antt =====
-- The life of an engine that Engine::create made.
use ketphone.Base.{
  or_fails, ◌⊎◌, length, inl, ◌+◌, ◌≤◌, Bool, true, false, not, List, [], ◌≡◌, refl, ap, ◌∙◌,
  Option, none, some, if_case, subst, arith, Bytes,
}
use ketphone.Core.Contract.{HostState, up, media_state}
use ketphone.Core.Types.{Call, seconds}
use ketphone.Engine.Create.{Config, TlsOptions, create}
use ketphone.Engine.Create.Starts.{HasStarted, create-HasStarted}
use ketphone.Engine.Link.{is_down}
use ketphone.Engine.Media.{EngineMedia, Surroundings}
use ketphone.Engine.Media.Secret.{IsSecret}
use ketphone.Engine.Media.Secure.{IsKeyed, IsSecure}
use ketphone.Engine.State.{Engine, Command, ApiResult}
use ketphone.Engine.State.Invariant.{IsEngine}
use ketphone.Media.Srtp.{Libsrtp}
use ketphone.Media.Statistics.{Floats}
use ketphone.Engine.Life.{Reach, Reach-IsEngine}
use ketphone.Engine.Life.Answers.{asked, Reach-IsBooked}

module _ {F : Floats} {L : Libsrtp} where
  -- The life of an engine that create made.
  create-IsEngine :
      (s : Surroundings) (supported : Bool) (version : Bytes) (c : Config) (has_callback : Bool)
      (options : TlsOptions) (e f : Engine F L)
      → create F L s supported version c has_callback ≡ some (e, options)
      → Reach s e f
      → IsEngine f
  create-IsEngine s supported version c has_callback options e f made r =
      Reach-IsEngine s e f r
        (subst (HasStarted c) made (create-HasStarted F L s supported version c has_callback)).sound

  -- It uses TLS as long as it lives, if its configuration says so.
  stays_tls :
      (s : Surroundings) (supported : Bool) (version : Bytes) (c : Config) (has_callback : Bool)
      (options : TlsOptions) (e f : Engine F L)
      → create F L s supported version c has_callback ≡ some (e, options)
      → Reach s e f
      → c.transport ≡ 1
      → f.tls ≡ true
  stays_tls s supported version c has_callback options e f made r tls =
      let started =
        subst (HasStarted c) made (create-HasStarted F L s supported version c has_callback) in
      let kept = (Reach-IsBooked s e f r).tls in kept ∙ started.tls ∙ ground (arith, tls)

  quiet_or_IsKeyed :
      (call : Option Call) (m : EngineMedia F L)
      → IsSecure (media_state call) m
      → (m.session.active ≡ false) ⊎ (media_state call ≡ up) × IsKeyed m
  quiet_or_IsKeyed none m k = inl k
  quiet_or_IsKeyed (some c) m k =
      let Either = λ (state : HostState). (m.session.active ≡ false) ⊎ (state ≡ up) × IsKeyed m in
      if_case (λ (state : HostState). IsSecure state m → Either state) c.media_open
        (λ _ keyed. or_fails m.session.active (λ active. (refl, keyed active))) (λ _ off. inl off) k

  -- Whatever befalls an engine that create made: where its configuration asks for TLS, no media runs,
  -- or it belongs to a call with media and has a socket and an SRTP stream each way.
  pub reach-IsKeyed :
      (s : Surroundings) (supported : Bool) (version : Bytes) (c : Config) (has_callback : Bool)
      (options : TlsOptions) (e f : Engine F L)
      → create F L s supported version c has_callback ≡ some (e, options)
      → Reach s e f
      → c.transport ≡ 1
      → (f.media.session.active ≡ false) ⊎ (media_state f.agent.call ≡ up) × IsKeyed f.media
  reach-IsKeyed s supported version c has_callback options e f made r tls =
      let secured = stays_tls s supported version c has_callback options e f made r tls in
      let k = create-IsEngine s supported version c has_callback options e f made r in
      quiet_or_IsKeyed f.agent.call f.media (k.secure secured)

  -- Whatever befalls an engine that create made: where its configuration asks for TLS, every packet
  -- that it sent on a media socket was made by protect, and every packet that its session was given was accepted by
  -- unprotect.
  pub reach-IsSecret :
      (s : Surroundings) (supported : Bool) (version : Bytes) (c : Config) (has_callback : Bool)
      (options : TlsOptions) (e f : Engine F L)
      → create F L s supported version c has_callback ≡ some (e, options)
      → Reach s e f
      → c.transport ≡ 1
      → IsSecret f.media
  reach-IsSecret s supported version c has_callback options e f made r tls =
      let secured = stays_tls s supported version c has_callback options e f made r tls in
      (create-IsEngine s supported version c has_callback options e f made r).secret secured

  -- Whatever befalls an engine that create made, where its connections' events come from connections
  -- that were made: it has a connection exactly if its link is not down; messages wait only while it
  -- has none, at most 65536 bytes of them; and the next pause before it connects again is 1 to 30
  -- seconds.
  pub reach-IsLink :
      (s : Surroundings) (supported : Bool) (version : Bytes) (c : Config) (has_callback : Bool)
      (options : TlsOptions) (e f : Engine F L)
      → create F L s supported version c has_callback ≡ some (e, options)
      → Reach s e f
      → (is_down f.link.state ≡ not f.link.connection)
        × ((f.link.connection ≡ false) ⊎ (f.link.pending ≡ []))
        × (length f.link.pending ≤ 65536)
        × (seconds 1 ≤ f.link.backoff)
        × (f.link.backoff ≤ seconds 30)
  reach-IsLink s supported version c has_callback options e f made r =
      let l = (create-IsEngine s supported version c has_callback options e f made r).link in
      let flushed = or_fails f.link.connection l.waiting in
      (l.present, flushed, l.bounded, l.least, l.most)

  -- Whatever befalls an engine that create made: the commands that were answered and those that wait
  -- are together as many as were asked for, and once it is closed none waits, so each was answered.
  pub reach-answered :
      (s : Surroundings) (supported : Bool) (version : Bytes) (c : Config) (has_callback : Bool)
      (options : TlsOptions) (e f : Engine F L)
      → create F L s supported version c has_callback ≡ some (e, options)
      → (r : Reach s e f)
      → (length f.answered + length f.queue ≡ asked r)
        × ((f.closed ≡ false) ⊎ (length f.answered ≡ asked r))
  reach-answered s supported version c has_callback options e f made r =
      let started =
        subst (HasStarted c) made (create-HasStarted F L s supported version c has_callback) in
      let booked = Reach-IsBooked s e f r in
      let total : length f.answered + length f.queue ≡ asked r = omega (
        arith,
        booked.counted,
        ap (λ (l : List ApiResult). length l) started.answered,
        ap (λ (l : List Command). length l) started.queue,
      ) in
      let emptied = booked.settled (λ _. started.queue) in
      (
        total,
        or_fails f.closed
            (λ over. omega (arith, total, ap (λ (l : List Command). length l) (emptied over))),
      )
