-- ===== src/Engine/Create/Starts.antt =====
-- What Engine::create makes.
use ketphone.Base.{
  ℕ, ◌==◌, Bool, false, not, [], ◌≡◌, refl, Option, none, some, if_case, option_case, arith, Bytes,
}
use ketphone.Core.Contract.{host_after}
use ketphone.Core.Register
use ketphone.Core.Types.{UserAgentConfig}
use ketphone.Engine.Create.{
  Config, TlsOptions, required, connect_first, server_port, can_transport, account, new_engine,
  create,
}
use ketphone.Engine.Media.{Surroundings}
use ketphone.Engine.State.{Engine}
use ketphone.Engine.State.Invariant.{IsEngine}
use ketphone.Media.Session
use ketphone.Media.Srtp.{Libsrtp}
use ketphone.Media.Statistics.{Floats}
use ketphone.Net.Endpoint.{Family, resolve_all}
use ketphone.Net.Socket

module _ {F : Floats} {L : Libsrtp} where
  new_engine-IsEngine :
      (s : Surroundings) (config : UserAgentConfig) (tls has_callback : Bool) (family : Family)
      (opened jitter_ms : ℕ)
      → config.srtp ≡ tls
      → IsEngine (new_engine F L s config tls has_callback family opened jitter_ms)
  unfolding new_engine Register.init Session.init host_after
  new_engine-IsEngine s config tls has_callback family opened jitter_ms wanted = record {
    kept = record { kept = record { host = refl; sound = tt }; pending = tt; same = refl };
    emptied = refl;
    wanted = wanted;
    secure = λ _. refl;
    secret = λ _. record { outgoing = tt; incoming = tt };
    link = record {
      present = refl;
      waiting = λ _. refl;
      bounded = omega arith;
      least = omega arith;
      most = omega arith;
      earlier = omega arith;
      current = λ _ h. absurd (omega (arith, h));
    };
  }

  -- An engine that create made.
  pub record IsStarted (c : Config) (e : Engine F L) : Type 0 where
    pub sound : IsEngine e
    pub tls : e.tls ≡ (c.transport == 1)
    pub queue : e.queue ≡ []
    pub answered : e.answered ≡ []
    pub closed : e.closed ≡ false

  abbrev pub HasStarted : Config → Option (Engine F L × TlsOptions) → Type 0
  HasStarted c none = Unit
  HasStarted c (some (e, options)) = IsStarted c e

module _ (F : Floats) (L : Libsrtp) where
  -- Where the configuration is good and a socket connects, create makes a sound engine.
  pub create-HasStarted :
      (s : Surroundings) (supported : Bool) (version : Bytes) (c : Config) (has_callback : Bool)
      → HasStarted c (create F L s supported version c has_callback)
  unfolding create account new_engine
  create-HasStarted s supported version c has_callback =
      option_case (HasStarted c) (required c) (λ _. tt)
        λ given _.
          let found = connect_first s.system 0 (resolve_all s.resolver given.0 (server_port c)) in
          if_case (HasStarted c) (not (can_transport supported c)) (λ _. tt)
            λ _.
              option_case (HasStarted c) found.0 (λ _. tt)
                λ sip _.
                  option_case (HasStarted c) (Socket.local s.system sip) (λ _. tt)
                    λ local _. record {
                      sound =
                          new_engine-IsEngine s _ (c.transport == 1) has_callback sip.family found.1
                            _ refl;
                      tls = refl;
                      queue = refl;
                      answered = refl;
                      closed = refl;
                    }
