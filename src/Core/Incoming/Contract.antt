-- ===== src/Core/Incoming/Contract.antt =====
-- The contract with the host: INVITE requests.
use ketphone.Base.{
  ℕ, true, false, Option, none, some, arith, [], codes, Bytes, ◌≡◌, refl, ap, sym, ◌∙◌, if_case,
  option_case, is_some, if◌then◌else◌, Option-cases, inl, inr,
}
use ketphone.Core.Contract.{
  Origin, KeepsContract, Keeps-send, Keeps-call, IsSound, media_state, idle, up, IsSound-of,
}
use ketphone.Core.Outgoing.Contract.{hold-KeepsContract, send_raw-KeepsContract}
use ketphone.Core.Outgoing.Media.{start-KeepsContract}
use ketphone.Core.Types.{World, UserAgent, UserAgentConfig, Call}
use ketphone.Core.Host.{send_raw, draw_hex, start, emit}
use ketphone.Core.Wire.{
  acceptable, chosen_key, local_sdp_for, remote_media_for, build_response, header_or_empty,
}
use ketphone.Core.Outgoing.{holding}
use ketphone.Core.Incoming.{
  respond, follow_with, follow_offer, re_invite, invite_again, incoming_call, ring, offered,
  new_invite, call_with_id, on_invite_request,
}
use ketphone.Sip.Message.{Message}
use ketphone.Sip.Sdp.{AudioDescription, parse_audio}

pub respond-KeepsContract :
    {origin : Origin}
    → (a : UserAgent) (request : Message) (status : ℕ) (tag body : Bytes) → KeepsContract origin a
    → KeepsContract origin (respond a request status tag body)
unfolding send_raw
respond-KeepsContract a request status tag body k = record {
  kept = Keeps-send _ k.kept;
  pending = k.pending;
  same = k.same;
}

-- An offer that suits this side has a key where media must be SRTP.
pub chosen_key-acceptable :
    (config : UserAgentConfig) (offer : AudioDescription)
    → acceptable config offer ≡ true
    → config.srtp ≡ true
    → is_some (chosen_key config offer) ≡ true
unfolding acceptable chosen_key
chosen_key-acceptable config offer h s = ground arith

follow_with-KeepsContract :
    {origin : Origin}
    → (w : World) (a : UserAgent) (c : Call) (answer : Bytes) (request : Message)
      (offer : AudioDescription)
    → KeepsContract origin a
    → media_state (some c) ≡ media_state a.call
    → IsSound a.config c
    → c.media_open ≡ true
    → acceptable a.config offer ≡ true
    → KeepsContract origin (follow_with w a c answer request offer)
unfolding follow_with start
follow_with-KeepsContract {origin} w a c answer request offer k e s m ok =
    let held = hold-KeepsContract w a k c e s in
    let key = chosen_key a.config offer in
    let remote = remote_media_for a.config c offer key in
    let started = start w (holding a c) remote in
    let kept =
      start-KeepsContract w (holding a c) c offer key held refl m
        (chosen_key-acceptable a.config offer ok) in
    let answered : IsSound a.config (record c { local_sdp = answer }) = ground arith in
    if_case (KeepsContract origin) started.1
      (λ _.
        respond-KeepsContract (holding started.0 (record c { local_sdp = answer })) request 200 []
          answer (hold-KeepsContract w started.0 kept _ refl answered))
      (λ _. respond-KeepsContract started.0 request 488 [] [] kept)

follow_offer-KeepsContract :
    {origin : Origin}
    → (w : World) (a : UserAgent) (c : Call) (request : Message) (offer : AudioDescription)
    → KeepsContract origin a
    → a.call ≡ some c
    → c.media_open ≡ true
    → acceptable a.config offer ≡ true
    → KeepsContract origin (follow_offer w a c request offer)
unfolding follow_offer local_sdp_for
follow_offer-KeepsContract {origin} w a c request offer k e m ok =
    let s = IsSound-of a k e in
    let versioned = (local_sdp_for a.config c (some offer)).0 in
    let rebuilt = (local_sdp_for a.config c (some offer)).1 in
    let again : IsSound a.config versioned = ground arith in
    if_case (KeepsContract origin) a.config.srtp
      (λ _.
        follow_with-KeepsContract w a versioned rebuilt request offer k (ap media_state (sym e))
          again m ok)
      (λ _.
        follow_with-KeepsContract w a c c.local_sdp request offer k (ap media_state (sym e)) s m ok)

re_invite-KeepsContract :
    {origin : Origin}
    → (w : World) (a : UserAgent) (c : Call) (request : Message) (offer : Option AudioDescription)
    → KeepsContract origin a
    → a.call ≡ some c
    → c.media_open ≡ true
    → KeepsContract origin (re_invite w a c request offer)
unfolding re_invite
re_invite-KeepsContract w a c request none k e m = respond-KeepsContract a request 488 [] [] k
re_invite-KeepsContract w a c request (some offer) k e m = ground (
  arith,
  respond-KeepsContract a request 488 [] [] k,
  follow_offer-KeepsContract w a c request offer k e m,
)

invite_again-KeepsContract :
    {origin : Origin}
    → (w : World) (a : UserAgent) (c : Call) (request : Message) → KeepsContract origin a
    → a.call ≡ some c
    → KeepsContract origin (invite_again w a c request)
unfolding invite_again
invite_again-KeepsContract w a c request k e =
    let s = IsSound-of a k e in
    ground (
      arith,
      send_raw-KeepsContract w a k c.last_response,
      re_invite-KeepsContract w a c request (parse_audio request.body) k e,
    )

incoming_call-IsSound :
    (config : UserAgentConfig) (id : ℕ) (tag : Bytes) (request : Message) (offer : AudioDescription)
    (response : Bytes)
    → acceptable config offer ≡ true
    → IsSound config (incoming_call config id tag request offer response)
unfolding incoming_call
incoming_call-IsSound config id tag request offer response ok = ground arith

incoming_call-media :
    (config : UserAgentConfig) (id : ℕ) (tag : Bytes) (request : Message) (offer : AudioDescription)
    (response : Bytes)
    → (incoming_call config id tag request offer response).media_open ≡ false
unfolding incoming_call
incoming_call-media config id tag request offer response = refl

ring-KeepsContract :
    {origin : Origin}
    → (a : UserAgent) (c : Call) → KeepsContract origin a
    → a.call ≡ none
    → c.media_open ≡ false
    → IsSound a.config c
    → KeepsContract origin (ring a c)
unfolding ring send_raw emit
ring-KeepsContract a c k e m s = record {
  kept =
      Keeps-call (some c) (ap (λ o. if o then up else idle) m ∙ sym (ap media_state e)) s
        (Keeps-send _ k.kept);
  pending = k.pending;
  same = k.same;
}

offered-KeepsContract :
    {origin : Origin}
    → (a : UserAgent) (tag : Bytes) (request : Message) (offer : Option AudioDescription)
    → KeepsContract origin a
    → a.call ≡ none
    → KeepsContract origin (offered a tag request offer)
unfolding offered
offered-KeepsContract {origin} a tag request none k e = respond-KeepsContract a request 488 tag [] k
offered-KeepsContract {origin} a tag request (some offer) k e =
    if_case (KeepsContract origin) (acceptable a.config offer)
      (λ ok.
        ring-KeepsContract _ _ (record { kept = k.kept; pending = k.pending; same = k.same }) e
          (incoming_call-media a.config a.next_call_id tag request offer
            (build_response a.config request 180 tag []))
          (incoming_call-IsSound a.config a.next_call_id tag request offer
            (build_response a.config request 180 tag []) ok))
      (λ _. respond-KeepsContract a request 488 tag [] k)

new_invite-KeepsContract :
    {origin : Origin}
    → (w : World) (a : UserAgent) (request : Message) → KeepsContract origin a
    → KeepsContract origin (new_invite w a request)
unfolding new_invite draw_hex
new_invite-KeepsContract w a request k = elim (Option-cases a.call) [
  | inl free ↦ ground (
    arith,
    respond-KeepsContract (draw_hex w a 6).0 request 486 (draw_hex w a 6).1 []
        (record { kept = k.kept; pending = k.pending; same = k.same }),
    offered-KeepsContract (draw_hex w a 6).0 (draw_hex w a 6).1 request (parse_audio request.body)
        (record { kept = k.kept; pending = k.pending; same = k.same }) free,
  )
  | inr (c, held) ↦ ground (
    arith,
    respond-KeepsContract (draw_hex w a 6).0 request 486 (draw_hex w a 6).1 []
        (record { kept = k.kept; pending = k.pending; same = k.same }),
  )
]

-- A call that is found by its Call-ID is the one that the agent holds.
pub call_with_id-held :
    (a : UserAgent) (sip_call_id : Bytes) (c : Call)
    → call_with_id a sip_call_id ≡ some c
    → a.call ≡ some c
unfolding call_with_id
call_with_id-held a sip_call_id c e = ground arith

pub on_invite_request-KeepsContract :
    {origin : Origin}
    → (w : World) (a : UserAgent) (request : Message) → KeepsContract origin a
    → KeepsContract origin (on_invite_request w a request)
unfolding on_invite_request
on_invite_request-KeepsContract {origin} w a request k =
    option_case (KeepsContract origin) (call_with_id a (header_or_empty request (codes "call-id")))
      (λ _. new_invite-KeepsContract w a request k)
      (λ c found. invite_again-KeepsContract w a c request k (call_with_id-held a _ c found))
