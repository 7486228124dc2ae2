-- ===== src/Core/Outgoing/Place.antt =====
-- A new outgoing call.
use ketphone.Base.{
  ℕ, ◌==◌, false, not, none, some, arith, [], ◌++◌, codes, Bytes, ◌≡◌, refl, ap, sym, ◌∙◌, if_case,
  if◌then◌else◌, Option-cases, inl, inr,
}
use ketphone.Core.Contract.{
  Origin, KeepsContract, IsSound, media_state, idle, up, host_after-append, IsSound-of, host_after,
}
use ketphone.Core.Types.{
  World, UserAgent, UserAgentConfig, Call, Time, open_media, ringing, media_failed,
}
use ketphone.Core.Host.{draw_hex, draw_u32, open_port, new_srtp_key}
use ketphone.Core.Wire.{local_sdp_for}
use ketphone.Core.Outgoing.{invite_with_key, holding, in_state, place_call, new_call, call}
use ketphone.Core.Outgoing.Contract.{
  end_call-KeepsContract, end_call-closes, hold-KeepsContract, send_invite-KeepsContract,
}

pub new_srtp_key-call :
    (w : World) (a : UserAgent) (c : Call) → (new_srtp_key w a c).0.call ≡ a.call
unfolding new_srtp_key
new_srtp_key-call w a c = ground arith

pub new_srtp_key-KeepsContract :
    {origin : Origin}
    → (w : World) (a : UserAgent) (c : Call) → KeepsContract origin a
    → KeepsContract origin (new_srtp_key w a c).0
unfolding new_srtp_key
new_srtp_key-KeepsContract w a c k = ground arith

-- A call stays sound under a new key, and so does its media.
pub keyed-IsSound :
    (w : World) (a : UserAgent) (config : UserAgentConfig) (c : Call)
    → IsSound config c
    → IsSound config (new_srtp_key w a c).1
unfolding new_srtp_key
keyed-IsSound w a config c s = ground arith

pub keyed-state :
    (w : World) (a : UserAgent) (c : Call)
    → ((new_srtp_key w a c).1.state ≡ c.state)
      × ((new_srtp_key w a c).1.media_open ≡ c.media_open)
      × ((new_srtp_key w a c).1.cancel_sent ≡ c.cancel_sent)
unfolding new_srtp_key
keyed-state w a c = ground arith

pub new_srtp_key-config :
    (w : World) (a : UserAgent) (c : Call) → (new_srtp_key w a c).0.config ≡ a.config
unfolding new_srtp_key
new_srtp_key-config w a c = ground arith

invite_with_key-KeepsContract :
    {origin : Origin}
    → (w : World) (a : UserAgent) (c : Call) (now : Time) → KeepsContract origin a
    → a.call ≡ some c
    → in_state c.state ringing ≡ false
    → c.cancel_sent ≡ false
    → KeepsContract origin (invite_with_key w a c now)
unfolding invite_with_key local_sdp_for
invite_with_key-KeepsContract {origin} w a c now k e r q =
    let (keyed_agent, keyed, has_key) = new_srtp_key w a c in
    let kept = new_srtp_key-KeepsContract w a c k in
    let s =
      keyed-IsSound w a keyed_agent.config c (rw (new_srtp_key-config w a c) (IsSound-of a k e)) in
    let (same_state, same_media, same_cancel) = keyed-state w a c in
    let held : media_state (some keyed) ≡ media_state keyed_agent.call =
      ap (λ m. if m then up else idle) same_media
      ∙ sym (ap media_state (new_srtp_key-call w a c ∙ e)) in
    let versioned = (local_sdp_for a.config keyed none).0 in
    let sdp = (local_sdp_for a.config keyed none).1 in
    let sound : IsSound keyed_agent.config (record versioned { local_sdp = sdp }) = ground arith in
    if_case (KeepsContract origin) has_key
      (λ _.
        send_invite-KeepsContract w keyed_agent kept (record versioned { local_sdp = sdp }) [] now
          held sound (same_cancel ∙ q) (ap (λ t. in_state t ringing) same_state ∙ r))
      (λ _.
        end_call-KeepsContract (holding keyed_agent keyed) media_failed 0
          (hold-KeepsContract w keyed_agent kept keyed held s))

-- The socket that the host opened, for a call that starts out with it.
pub opened-host :
    {origin : Origin}
    → (w : World) (a : UserAgent) (c : Call) → KeepsContract origin a
    → media_state a.call ≡ idle
    → c.media_open ≡ not ((open_port w a).1 == 0)
    → host_after a.config.srtp origin.media (open_port w a).0.log ≡ media_state (some c)
unfolding open_port
opened-host {origin} w a c k e m =
    rw (host_after-append a.config.srtp origin.media a.log (open_media (w.opens a.log)))
      (rw k.kept.host (rw e (rw m (ground arith))))

new_call-IsSound :
    (config : UserAgentConfig) (id : ℕ) (target : Bytes) (port : ℕ) (call_id tag : Bytes)
    (session : ℕ)
    → (port == 0) ≡ false
    → IsSound config (new_call config id target port call_id tag session)
unfolding new_call
new_call-IsSound config id target port call_id tag session p = ground arith

new_call-state :
    (config : UserAgentConfig) (id : ℕ) (target : Bytes) (port : ℕ) (call_id tag : Bytes)
    (session : ℕ)
    → (in_state (new_call config id target port call_id tag session).state ringing ≡ false)
      × ((new_call config id target port call_id tag session).cancel_sent ≡ false)
unfolding new_call
new_call-state config id target port call_id tag session = (refl, refl)

new_call-media :
    (config : UserAgentConfig) (id : ℕ) (target : Bytes) (port : ℕ) (call_id tag : Bytes)
    (session : ℕ)
    → (new_call config id target port call_id tag session).media_open ≡ not (port == 0)
unfolding new_call
new_call-media config id target port call_id tag session = refl

place_call-KeepsContract :
    {origin : Origin}
    → (w : World) (a : UserAgent) (id : ℕ) (target : Bytes) (now : Time) → KeepsContract origin a
    → a.call ≡ none
    → KeepsContract origin (place_call w a id target now)
unfolding place_call draw_u32 draw_hex open_port
place_call-KeepsContract {origin} w a id target now k e =
    let (opened, port) = open_port w a in
    let (a1, call_hex) = draw_hex w opened 12 in
    let (a2, tag) = draw_hex w a1 6 in
    let (a3, session) = draw_u32 w a2 in
    let made = new_call a.config id target port (call_hex ++ codes "@ketphone") tag session in
    let host =
      opened-host w a made k (ap media_state e)
        (new_call-media a.config id target port (call_hex ++ codes "@ketphone") tag session) in
    let (rings, unsent) =
      new_call-state a.config id target port (call_hex ++ codes "@ketphone") tag session in
    if_case (KeepsContract origin) (port == 0)
      (λ _. end_call-closes (holding a3 made) media_failed 0 host k.pending k.same)
      (λ open_now.
        invite_with_key-KeepsContract w (holding a3 made) made now
          (record {
            kept = record {
              host = host;
              sound =
                  new_call-IsSound a.config id target port (call_hex ++ codes "@ketphone") tag
                    session open_now;
            };
            pending = k.pending;
            same = k.same;
          })
          refl rings unsent)

pub call-KeepsContract :
    {origin : Origin}
    → (w : World) (a : UserAgent) (id : ℕ) (target : Bytes) (now : Time) → KeepsContract origin a
    → KeepsContract origin (call w a id target now).0
unfolding call
call-KeepsContract w a id target now k = elim (Option-cases a.call) [
  | inl free ↦ ground (arith, place_call-KeepsContract w a id target now k free)
  | inr (c, held) ↦ ground arith
]
