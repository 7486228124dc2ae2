-- ===== src/Core/Incoming/Answer.antt =====
-- The contract with the host: answering a call. On the way the call rings while its media is
-- open already; `KeepsHost` is the part of the contract that holds there too.
use ketphone.Base.{
  ℕ, ◌==◌, true, false, not, some, arith, [], Bytes, ◌≡◌, refl, ap, sym, ◌∙◌, if_case, option_case,
  is_some, if◌then◌else◌,
}
use ketphone.Core.Contract.{
  Origin, KeepsContract, Keeps-send, media_state, idle, up, host_after-append, IsSound-of,
  ArePending, host_after,
}
use ketphone.Core.Outgoing.Contract.{end_call-closes}
use ketphone.Core.Outgoing.Media.{remote_media_for-key}
use ketphone.Core.Outgoing.Place.{opened-host}
use ketphone.Core.Types.{
  CommandResult, World, UserAgent, UserAgentConfig, RemoteMedia, Call, Time, ringing, media_failed,
  send_sip, start_media,
}
use ketphone.Core.Host.{send_raw, draw_u32, start, open_port, new_srtp_key}
use ketphone.Core.Wire.{acceptable, chosen_key, local_sdp_for, remote_media_for}
use ketphone.Core.Outgoing.{holding, in_state}
use ketphone.Core.Incoming.Contract.{chosen_key-acceptable}
use ketphone.Core.Incoming.Commands.{call_by_id-held}
use ketphone.Core.Incoming.{
  respond_to_invite, answer_failed, accept, answer_with_key, answer_ringing, call_by_id, answer,
}

record KeepsHost (origin : Origin) (a : UserAgent) : Type 0 where
  host : host_after a.config.srtp origin.media a.log ≡ media_state a.call
  pending : ArePending a.transactions
  same : a.config ≡ origin.settings

respond-KeepsHost :
    {origin : Origin}
    → (a : UserAgent) (c : Call) (status : ℕ) (body : Bytes) → KeepsHost origin a
    → KeepsHost origin (respond_to_invite a c status body)
unfolding respond_to_invite send_raw
respond-KeepsHost {origin} a c status body k =
    option_case (KeepsHost origin) c.invite (λ _. k)
      λ request _. record {
        host = rw (host_after-append a.config.srtp origin.media a.log (send_sip _)) k.host;
        pending = k.pending;
        same = k.same;
      }

answer_failed-KeepsContract :
    {origin : Origin}
    → (a : UserAgent) (c : Call) → KeepsHost origin (holding a c)
    → KeepsContract origin (answer_failed a c)
unfolding answer_failed
answer_failed-KeepsContract {origin} a c k =
    let sent = respond-KeepsHost (holding a c) c 500 [] k in
    end_call-closes (respond_to_invite (holding a c) c 500 []) media_failed 500 sent.host
      sent.pending sent.same

start-KeepsHost :
    {origin : Origin}
    → (w : World) (a : UserAgent) (c : Call) (remote : RemoteMedia) → KeepsHost origin a
    → a.call ≡ some c
    → c.media_open ≡ true
    → (a.config.srtp ≡ true → is_some remote.srtp ≡ true)
    → KeepsHost origin (start w a remote).0
unfolding start
start-KeepsHost {origin} w a c remote k e m keys =
    let up_now : media_state a.call ≡ up = rw e (rw m) in
    record {
      host =
          rw (host_after-append a.config.srtp origin.media a.log (start_media remote _))
            (rw k.host (rw up_now (ground (arith, keys))));
      pending = k.pending;
      same = k.same;
    }

accept-KeepsContract :
    {origin : Origin}
    → (a : UserAgent) (c : Call) (now : Time) → KeepsHost origin a
    → media_state a.call ≡ up
    → c.media_open ≡ true
    → (c.outgoing ≡ false → is_some c.invite ≡ true)
    → (c.cancel_sent ≡ true → c.cancel_requested ≡ true)
    → (c.cancel_sent ≡ true → c.provisional ≡ true)
    → KeepsContract origin (accept a c now)
unfolding accept local_sdp_for send_raw
accept-KeepsContract a c now k e m i q p = record {
  kept = Keeps-send _ (record {
    host = k.host ∙ e ∙ sym (ap (λ o. if o then up else idle) m);
    sound = ground arith;
  });
  pending = k.pending;
  same = k.same;
}

-- A new key changes nothing else of the call, and nothing that the host sees.
record SameBut (c d : Call) : Type 0 where
  state : d.state ≡ c.state
  media : d.media_open ≡ c.media_open
  offer : d.offer ≡ c.offer
  outgoing : d.outgoing ≡ c.outgoing
  invite : d.invite ≡ c.invite
  sent : d.cancel_sent ≡ c.cancel_sent
  requested : d.cancel_requested ≡ c.cancel_requested
  provisional : d.provisional ≡ c.provisional

new_srtp_key-SameBut : (w : World) (a : UserAgent) (c : Call) → SameBut c (new_srtp_key w a c).1
unfolding new_srtp_key
new_srtp_key-SameBut w a c = ground arith

new_srtp_key-KeepsHost :
    {origin : Origin}
    → (w : World) (a : UserAgent) (c : Call) → KeepsHost origin a
    → a.call ≡ some c
    → KeepsHost origin (holding (new_srtp_key w a c).0 (new_srtp_key w a c).1)
unfolding new_srtp_key
new_srtp_key-KeepsHost w a c k e = ground (arith, ap media_state e)

new_srtp_key-config :
    (w : World) (a : UserAgent) (c : Call) → (new_srtp_key w a c).0.config ≡ a.config
unfolding new_srtp_key
new_srtp_key-config w a c = ground arith

-- What `answer` knows of the call that rang.
record CanAnswer (config : UserAgentConfig) (c : Call) : Type 0 where
  media : c.media_open ≡ true
  offer : acceptable config c.offer ≡ true
  invited : c.outgoing ≡ false → is_some c.invite ≡ true
  asked : c.cancel_sent ≡ true → c.cancel_requested ≡ true
  heard : c.cancel_sent ≡ true → c.provisional ≡ true

keyed-CanAnswer :
    (config : UserAgentConfig) (c d : Call) → SameBut c d → CanAnswer config c → CanAnswer config d
keyed-CanAnswer config c d s h = record {
  media = s.media ∙ h.media;
  offer = rw s.offer h.offer;
  invited = λ o. rw s.invite (h.invited (sym s.outgoing ∙ o));
  asked = λ o. s.requested ∙ h.asked (sym s.sent ∙ o);
  heard = λ o. s.provisional ∙ h.heard (sym s.sent ∙ o);
}

answer_with_key-KeepsContract :
    {origin : Origin}
    → (w : World) (a : UserAgent) (c : Call) (now : Time) → KeepsHost origin a
    → a.call ≡ some c
    → CanAnswer a.config c
    → KeepsContract origin (answer_with_key w a c now)
unfolding answer_with_key start
answer_with_key-KeepsContract {origin} w a c now k e h =
    let (keyed_agent, keyed, has_key) = new_srtp_key w a c in
    let d = keyed-CanAnswer a.config c keyed (new_srtp_key-SameBut w a c) h in
    let kept = new_srtp_key-KeepsHost w a c k e in
    let key = chosen_key a.config keyed.offer in
    let remote = remote_media_for a.config keyed keyed.offer key in
    let config = new_srtp_key-config w a c in
    let started = start w (holding keyed_agent keyed) remote in
    let running = start-KeepsHost w (holding keyed_agent keyed) keyed remote kept refl d.media λ s.
      remote_media_for-key a.config keyed keyed.offer key (sym (ap (λ t. t.srtp) config) ∙ s)
        (chosen_key-acceptable a.config keyed.offer d.offer (sym (ap (λ t. t.srtp) config) ∙ s)) in
    if_case (KeepsContract origin) (not has_key)
      (λ _. answer_failed-KeepsContract keyed_agent keyed kept)
      λ _.
        if_case (KeepsContract origin) started.1
          (λ _.
            accept-KeepsContract started.0 keyed now running
              (ap (λ o. if o then up else idle) d.media) d.media d.invited d.asked d.heard)
          (λ _. answer_failed-KeepsContract started.0 keyed running)

answer_ringing-KeepsContract :
    {origin : Origin}
    → (w : World) (a : UserAgent) (c : Call) (now : Time) → KeepsContract origin a
    → a.call ≡ some c
    → in_state c.state ringing ≡ true
    → KeepsContract origin (answer_ringing w a c now)
unfolding answer_ringing draw_u32 open_port
answer_ringing-KeepsContract {origin} w a c now k e r =
    let s = IsSound-of a k e in
    let (opened, port) = open_port w a in
    let (drawn, session) = draw_u32 w opened in
    let ready : Call = record c {
      media_open = not (port == 0);
      media_port = port;
      sdp_session = session;
    } in
    let quiet : media_state a.call ≡ idle =
      ap media_state e ∙ ap (λ o. if o then up else idle) (s.media ∙ ap not r) in
    let host = opened-host w a ready k quiet refl in
    let kept : KeepsHost origin (holding drawn ready) = record {
      host = host;
      pending = k.pending;
      same = k.same;
    } in
    if_case (KeepsContract origin) (port == 0) (λ _. answer_failed-KeepsContract drawn ready kept)
      λ open_now.
        answer_with_key-KeepsContract w (holding drawn ready) ready now kept refl (record {
          media = ap not open_now;
          offer = s.offer r;
          invited = s.invited;
          asked = s.asked;
          heard = s.heard;
        })

pub answer-KeepsContract :
    {origin : Origin}
    → (w : World) (a : UserAgent) (id : ℕ) (now : Time) → KeepsContract origin a
    → KeepsContract origin (answer w a id now).0
unfolding answer
answer-KeepsContract {origin} w a id now k =
    option_case (λ (t : UserAgent × CommandResult). KeepsContract origin t.0) (call_by_id a id)
      (λ _. k)
      λ c found.
        ground (arith, answer_ringing-KeepsContract w a c now k (call_by_id-held a id c found))
