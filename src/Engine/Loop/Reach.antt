-- ===== src/Engine/Loop/Reach.antt =====
-- The engine over its life: what the owner and the network thread do to it, in any order.
use ketphone.Base.{
  ◌≤◌, Bool, false, not, ◌&&◌, List, [], ◌∷◌, ◌≢◌, refl, Option, none, some, is_empty, if_case,
  Bool-cases, Option-cases, inl, inr, All, arith, leb,
}
use ketphone.Core.Contract.{broken, media_state}
use ketphone.Core.Dispatch.Timers.{on_timer-KeepsContract}
use ketphone.Core.Types.{Call, Time}
use ketphone.Engine.Commands.{run_commands}
use ketphone.Engine.Commands.Keeps.{run_commands-IsEngine, run_commands-made}
use ketphone.Engine.Link.{is_down, is_connected, connect_link}
use ketphone.Engine.Link.Backoff.{connect_link-IsLink, keep_open-IsLink}
use ketphone.Engine.Loop.{Turn, relink, reconnect, manage_link, receive_sip, tick}
use ketphone.Engine.Loop.Events.{LinkEvent, hand_over}
use ketphone.Engine.Loop.Events.Keeps.{drain_link-IsMade, drop_link-IsMade, hand_over-IsMade}
use ketphone.Engine.Loop.Rtp.Sealed.{IsSafe, receive_media-IsSafe, play_frames-IsSafe}
use ketphone.Engine.Media.{EngineMedia, Surroundings}
use ketphone.Engine.State.{Engine}
use ketphone.Engine.State.Invariant.{
  IsEngine, IsEngine-link, IsEngine-media, drive_only-IsEngine, deliver_events-IsEngine,
}
use ketphone.Media.Srtp.{Libsrtp}
use ketphone.Media.Statistics.{Floats}
use ketphone.Net.Socket.{Arrival, receive}

media_state_whole : (call : Option Call) → media_state call ≢ broken
media_state_whole none e = absurd (ground (arith, e))
media_state_whole (some c) e = absurd (ground (arith, e))

module _ {F : Floats} {L : Libsrtp} where
  -- What is done to the media keeps the engine if it keeps the media safe.
  safely :
      (e : Engine F L) (m : EngineMedia F L)
      → (IsSafe (media_state e.agent.call) e.media → IsSafe (media_state e.agent.call) m)
      → IsEngine e
      → IsEngine (record e { media = m })
  safely e m step k =
      IsEngine-media e m (λ tls. (step (k.secure tls, k.secret tls)).0)
        (λ tls. (step (k.secure tls, k.secret tls)).1) k

  with_relink :
      (e : Engine F L) (b : Bool)
      → IsEngine e
      → IsEngine (record e { link = record (e.link) { relink = b } })
  with_relink e b k =
      IsEngine-link e (record (e.link) { relink = b })
        (record {
          present = k.link.present;
          waiting = k.link.waiting;
          bounded = k.link.bounded;
          least = k.link.least;
          most = k.link.most;
          earlier = k.link.earlier;
          current = k.link.current;
        })
        k

  relink-IsEngine :
      (s : Surroundings) (e : Engine F L) (now : Time) → IsEngine e → IsEngine (relink s e now)
  unfolding relink
  relink-IsEngine s e now k =
      let seen : Engine F L = record e { link = record (e.link) { relink = false } } in
      let kept = with_relink e false k in
      if_case IsEngine (not e.link.relink) (λ _. k)
        λ _.
          if_case IsEngine (is_connected e.link.state)
            (λ _. (drop_link-IsMade s e.link.made seen now (kept, refl)).0) (λ _. kept)

  reconnect-IsEngine :
      (s : Surroundings) (e : Engine F L) (now : Time) → IsEngine e → IsEngine (reconnect s e now)
  unfolding reconnect
  reconnect-IsEngine s e now k =
      if_case IsEngine (is_down e.link.state && leb e.link.reconnect_at now)
        (λ _.
          IsEngine-link e (connect_link s e.link now) (connect_link-IsLink s e.link now k.link) k)
        (λ _. k)

  -- The events of a turn are from connections that were made.
  abbrev pub IsHeard : Engine F L → Turn → Type 0
  IsHeard e t =
      All (λ (event : LinkEvent). (1 ≤ event.generation) × (event.generation ≤ e.link.made)) t.inbox

  manage_link-IsEngine :
      (s : Surroundings) (e : Engine F L) (t : Turn)
      → IsHeard e t
      → IsEngine e
      → IsEngine (manage_link s e t)
  unfolding manage_link
  manage_link-IsEngine s e t heard k =
      let drained = (drain_link-IsMade s e.link.made e t.now t.inbox heard (k, refl)).0 in
      let ready = reconnect-IsEngine s _ t.now (relink-IsEngine s _ t.now drained) in
      if_case IsEngine (not e.tls) (λ _. k)
        (λ _. IsEngine-link _ _ (keep_open-IsLink _ t.now ready.link) ready)

  receive_sip-IsEngine :
      (s : Surroundings) (e : Engine F L) (now : Time) (arrivals : List Arrival)
      → IsEngine e
      → IsEngine (receive_sip s e now arrivals)
  unfolding receive_sip
  receive_sip-IsEngine s e now [] k = k
  receive_sip-IsEngine s e now (a ∷ rest) k = elim (Option-cases (receive false a)) [
    | inl failed ↦ rw (receive_sip, failed) k
    | inr ((bytes, from), got) ↦ elim (Bool-cases (is_empty bytes)) [
      | inl nothing ↦ rw (receive_sip, got, nothing) k
      | inr something ↦
          rw (receive_sip, got, something)
            (receive_sip-IsEngine s (hand_over s e bytes now) now rest
              (hand_over-IsMade s e.link.made e bytes now (k, refl)).0)
    ]
  ]

  pub tick-IsEngine :
      (s : Surroundings) (e : Engine F L) (t : Turn)
      → IsHeard e t
      → IsEngine e
      → IsEngine (tick s e t)
  unfolding tick
  tick-IsEngine s e t heard k =
      let ran = run_commands s e t.now in
      let linked = manage_link s ran t in
      let kept : IsEngine linked =
        manage_link-IsEngine s ran t (rw (run_commands-made s e t.now) heard)
          (run_commands-IsEngine s e t.now k) in
      let told =
        if_case IsEngine e.tls (λ _. kept)
          (λ _. receive_sip-IsEngine s linked t.now t.signalling kept) in
      let fed = safely _ _ (receive_media-IsSafe _ _ t.now t.packets (media_state_whole _)) told in
      let timed =
        deliver_events-IsEngine _
          (drive_only-IsEngine s _ t.now _ (λ o w a h. on_timer-KeepsContract w a t.now h) fed) in
      safely _ _ (play_frames-IsSafe _ _ t.now (media_state_whole _)) timed
