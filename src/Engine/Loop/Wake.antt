-- ===== src/Engine/Loop/Wake.antt =====
-- When a turn ends its wait.
use ketphone.Base.{
  or_fails, ◌⊎◌, ◌+◌, ◌≤◌, Bool, true, false, ◌&&◌, ◌≡◌, refl, Option, none, some, arith,
}
use ketphone.Core.Dispatch.{next_deadline}
use ketphone.Core.Types.{Time, milliseconds}
use ketphone.Engine.Link.{is_down, is_connected}
use ketphone.Engine.Loop.{wake_at, sooner, sooner_of}
use ketphone.Engine.State.{Engine}
use ketphone.Media.Srtp.{Libsrtp}
use ketphone.Media.Statistics.{Floats}

sooner_bound :
    (counts : Bool) (at deadline : Time)
    → (sooner counts at deadline ≤ at) × (counts ≡ true → sooner counts at deadline ≤ deadline)
unfolding sooner
sooner_bound true at deadline = (omega arith, λ _. omega arith)
sooner_bound false at deadline = (omega arith, λ off. absurd (ground (arith, off)))

sooner_of_bound :
    (o : Option Time) (at : Time)
    → (sooner_of o at ≤ at) × ((deadline : Time) → o ≡ some deadline → sooner_of o at ≤ deadline)
unfolding sooner_of
sooner_of_bound none at = (omega arith, λ deadline e. absurd (ground (arith, e)))
sooner_of_bound (some d) at = (omega arith, λ deadline e. ground (arith, e))

-- A time is no later than a deadline, if there is one.
abbrev pub IsBy : Option Time → Time → Type 0
IsBy none at = Unit
IsBy (some deadline) at = at ≤ deadline

IsBy-of :
    (o : Option Time) (at : Time)
    → ((deadline : Time) → o ≡ some deadline → at ≤ deadline)
    → IsBy o at
IsBy-of none at h = tt
IsBy-of (some deadline) at h = h deadline refl

module _ {F : Floats} {L : Libsrtp} where
  -- A turn waits at most 200 ms, and ends its wait no later than the user agent's next deadline, the
  -- next frame of media that runs, the deadline of an engine that stops, and over TLS the time to
  -- connect again while the link is down, or to send a keep-alive while it is up.
  pub wake_at-deadlines :
      (e : Engine F L) (now : Time)
      → (wake_at e now ≤ now + milliseconds 200)
        × IsBy (next_deadline e.agent) (wake_at e now)
        × ((e.media.session.active ≡ false) ⊎ (wake_at e now ≤ e.media.next_frame))
        × ((e.stopping ≡ false) ⊎ (wake_at e now ≤ e.stop_deadline))
        × ((e.tls && is_down e.link.state ≡ false) ⊎ (wake_at e now ≤ e.link.reconnect_at))
        × ((e.tls && is_connected e.link.state ≡ false) ⊎ (wake_at e now ≤ e.link.keepalive_at))
  unfolding wake_at
  wake_at-deadlines e now =
      let at1 = sooner_of (next_deadline e.agent) (now + milliseconds 200) in
      let at2 = sooner e.media.session.active at1 e.media.next_frame in
      let at3 = sooner e.stopping at2 e.stop_deadline in
      let at4 = sooner (e.tls && is_down e.link.state) at3 e.link.reconnect_at in
      let b1 = sooner_of_bound (next_deadline e.agent) (now + milliseconds 200) in
      let b2 = sooner_bound e.media.session.active at1 e.media.next_frame in
      let b3 = sooner_bound e.stopping at2 e.stop_deadline in
      let b4 = sooner_bound (e.tls && is_down e.link.state) at3 e.link.reconnect_at in
      let b5 = sooner_bound (e.tls && is_connected e.link.state) at4 e.link.keepalive_at in
      (
        omega (arith, b1.0, b2.0, b3.0, b4.0, b5.0),
        IsBy-of (next_deadline e.agent) _
            (λ deadline given. omega (arith, b1.1 deadline given, b2.0, b3.0, b4.0, b5.0)),
        or_fails e.media.session.active (λ active. omega (arith, b2.1 active, b3.0, b4.0, b5.0)),
        or_fails e.stopping (λ stopping. omega (arith, b3.1 stopping, b4.0, b5.0)),
        or_fails (e.tls && is_down e.link.state) (λ down. omega (arith, b4.1 down, b5.0)),
        or_fails (e.tls && is_connected e.link.state) b5.1,
      )
