-- ===== src/Engine/State/Invariant.antt =====
-- What an engine keeps: its user agent the contract with the host, its media the SRTP streams, and
-- its link the state of the connection.
use ketphone.Base.{true, not, List, [], ◌∷◌, ◌≡◌, refl, ap, sym, ◌∙◌, subst, if_case, Bytes}
use ketphone.Core.Contract.{Origin, KeepsContract, host_after, media_state}
use ketphone.Core.Host.{take_events}
use ketphone.Core.Run.Contract.{take_events-KeepsContract}
use ketphone.Core.Types.{
  World, UserAgent, Time, HostCall, send_sip, open_media, start_media, close_media,
}
use ketphone.Engine.Link
use ketphone.Engine.Link.{Link}
use ketphone.Engine.Link.Backoff.{IsLink, send-IsLink}
use ketphone.Engine.Media.{EngineMedia, Surroundings, carry_all}
use ketphone.Engine.Media.Secure.{IsSecure, carry_all-IsSecure}
use ketphone.Engine.Media.Secret.{IsSecret, carry_all-IsSecret}
use ketphone.Engine.State.{
  Engine, send_message, world, send_all, carry_out, drive, drive_only, deliver_events,
}
use ketphone.Media.Srtp.{Libsrtp}
use ketphone.Media.Statistics.{Floats}

-- Where a user agent stands now.
abbrev pub here : UserAgent → Origin
here a = record { settings = a.config; media = media_state a.call }

-- An operation that keeps the contract from wherever its agent stood.
abbrev pub IsKept {ℓ} : {R : Type ℓ} → (World → UserAgent → UserAgent × R) → Type 0
IsKept op =
    (origin : Origin) (w : World) (a : UserAgent)
    → KeepsContract origin a
    → KeepsContract origin (op w a).0

module _ {F : Floats} {L : Libsrtp} where
  -- The user agent keeps its contract with the host, and no call of it is left to carry out; it
  -- wants SRTP exactly if the engine uses TLS, and then media that runs has both SRTP streams and a
  -- socket, what went out was made by protect, and what was heard accepted by unprotect; and the link
  -- is well formed.
  pub record IsEngine (e : Engine F L) : Type 0 where
    pub kept : KeepsContract (here e.agent) e.agent
    pub emptied : e.agent.log ≡ []
    pub wanted : e.agent.config.srtp ≡ e.tls
    pub secure : e.tls ≡ true → IsSecure (media_state e.agent.call) e.media
    pub secret : e.tls ≡ true → IsSecret e.media
    pub link : IsLink e.link

  -- Only the link changes.
  pub IsEngine-link :
      (e : Engine F L) (l : Link) → IsLink l → IsEngine e → IsEngine (record e { link = l })
  IsEngine-link e l h k = record {
    kept = k.kept;
    emptied = k.emptied;
    wanted = k.wanted;
    secure = k.secure;
    secret = k.secret;
    link = h;
  }

  send_message-IsEngine :
      (e : Engine F L) (message : Bytes) → IsEngine e → IsEngine (send_message e message)
  unfolding send_message
  send_message-IsEngine e message k =
      if_case IsEngine (not e.tls)
        (λ _. record {
          kept = k.kept;
          emptied = k.emptied;
          wanted = k.wanted;
          secure = k.secure;
          secret = k.secret;
          link = k.link;
        })
        (λ _. IsEngine-link e (Link.send e.link message) (send-IsLink e.link message k.link) k)

  send_all-IsEngine : (e : Engine F L) (hs : List HostCall) → IsEngine e → IsEngine (send_all e hs)
  unfolding send_all
  send_all-IsEngine e [] k = k
  send_all-IsEngine e (send_sip message ∷ hs) k =
      send_all-IsEngine (send_message e message) hs (send_message-IsEngine e message k)
  send_all-IsEngine e (open_media port ∷ hs) k = send_all-IsEngine e hs k
  send_all-IsEngine e (start_media remote _ ∷ hs) k = send_all-IsEngine e hs k
  send_all-IsEngine e (close_media ∷ hs) k = send_all-IsEngine e hs k

  -- A call of the user agent that keeps the contract keeps the engine.
  pub drive-IsEngine {ℓ} :
      {R : Type ℓ} (s : Surroundings) (e : Engine F L) (now : Time)
      (op : World → UserAgent → UserAgent × R)
      → IsKept op
      → IsEngine e
      → IsEngine (drive s e now op).0
  unfolding drive carry_out host_after
  drive-IsEngine s e now op kept k =
      let result = op (world s e now) e.agent in
      let after = kept (here e.agent) (world s e now) e.agent k.kept in
      let settled = ap (λ c. c.srtp) after.same ∙ k.wanted in
      send_all-IsEngine _ result.0.log (record {
        kept = record {
          kept = record { host = refl; sound = after.kept.sound };
          pending = after.pending;
          same = refl;
        };
        emptied = refl;
        wanted = settled;
        secure = λ tls.
            subst (λ state. IsSecure state (carry_all s now e.media result.0.log))
              (rw (sym (settled ∙ tls)) after.kept.host)
              (carry_all-IsSecure s now (media_state e.agent.call) e.media result.0.log
                (k.secure tls));
        secret = λ tls. carry_all-IsSecret s now e.media result.0.log (k.secret tls);
        link = k.link;
      })

  pub drive_only-IsEngine :
      (s : Surroundings) (e : Engine F L) (now : Time) (op : World → UserAgent → UserAgent)
      → ((origin : Origin) (w : World) (a : UserAgent)
          → KeepsContract origin a
          → KeepsContract origin (op w a))
      → IsEngine e
      → IsEngine (drive_only s e now op)
  unfolding drive_only
  drive_only-IsEngine s e now op kept k = drive-IsEngine s e now _ kept k

  pub deliver_events-IsEngine : (e : Engine F L) → IsEngine e → IsEngine (deliver_events e)
  unfolding deliver_events take_events
  deliver_events-IsEngine e k = record {
    kept = take_events-KeepsContract e.agent k.kept;
    emptied = k.emptied;
    wanted = k.wanted;
    secure = k.secure;
    secret = k.secret;
    link = record {
      present = k.link.present;
      waiting = k.link.waiting;
      bounded = k.link.bounded;
      least = k.link.least;
      most = k.link.most;
      earlier = k.link.earlier;
      current = k.link.current;
    };
  }

  -- Only the media changes.
  pub IsEngine-media :
      (e : Engine F L) (m : EngineMedia F L)
      → (e.tls ≡ true → IsSecure (media_state e.agent.call) m)
      → (e.tls ≡ true → IsSecret m)
      → IsEngine e
      → IsEngine (record e { media = m })
  IsEngine-media e m h q k = record {
    kept = k.kept;
    emptied = k.emptied;
    wanted = k.wanted;
    secure = h;
    secret = q;
    link = k.link;
  }
