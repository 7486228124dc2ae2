-- ===== src/Core/Incoming.antt =====
-- src/core/user_agent.cpp: incoming calls, and the commands on a call.
pub mod Contract
pub mod Commands
pub mod Answer
pub mod Shutdown
use ketphone.Base.{
  ℕ, suc, ◌+◌, true, false, not, ◌&&◌, ◌||◌, [], Option, none, some, ltb, ◌==◌, if◌then◌else◌,
  Bytes, codes, is_some, is_empty,
}
use ketphone.Core.Types.{
  World, UserAgent, UserAgentConfig, Call, CallState, Time, CommandResult, ok, invalid_argument,
  state_error, not_found, local, media_failed, blank_call, blank_event, call_incoming, calling,
  ringing, answering, confirmed, t1, transaction_timeout,
}
use ketphone.Core.Host.{
  emit, send_raw, open_port, start, draw_hex, draw_u32, new_srtp_key, end_call,
}
use ketphone.Core.Wire.{
  tagged, acceptable, chosen_key, local_sdp_for, remote_media_for, build_response, header_or_empty,
}
use ketphone.Core.Outgoing.{in_state, holding, send_cancel, send_bye, ending_reason}
use ketphone.Core.Register.{stop_registration}
use ketphone.Sip.Message.{Message, header, uri_of, display_name_of}
use ketphone.Sip.Sdp.{AudioDescription, parse_audio}
use ketphone.Sip.Text.{text_eq, lowercase}

abbrev pub respond : UserAgent → Message → ℕ → Bytes → Bytes → UserAgent
respond a request status tag body = send_raw a (build_response a.config request status tag body)

-- Media towards the offer's side, and the answer if it starts.
follow_with : World → UserAgent → Call → Bytes → Message → AudioDescription → UserAgent
follow_with w a c answer request offer =
    let (started, accepted) =
      start w (holding a c) (remote_media_for a.config c offer (chosen_key a.config offer)) in
    if accepted
    then respond (holding started (record c { local_sdp = answer })) request 200 [] answer
    else respond started request 488 [] []

-- A re-INVITE with an offer that suits this side: with SRTP the answer is built anew.
follow_offer : World → UserAgent → Call → Message → AudioDescription → UserAgent
unfolding follow_with
follow_offer w a c request offer =
    let (versioned, rebuilt) = local_sdp_for a.config c (some offer) in
    if a.config.srtp
    then follow_with w a versioned rebuilt request offer
    else follow_with w a c c.local_sdp request offer

re_invite : World → UserAgent → Call → Message → Option AudioDescription → UserAgent
unfolding follow_offer
re_invite w a c request none = respond a request 488 [] []
re_invite w a c request (some offer) =
    if is_empty request.body || not (acceptable a.config offer)
    then respond a request 488 [] []
    else follow_offer w a c request offer

-- An INVITE with the Call-ID of the call that the agent holds.
invite_again : World → UserAgent → Call → Message → UserAgent
unfolding re_invite
invite_again w a c request =
    if not c.outgoing && not (in_state c.state confirmed)
    then (if is_empty c.last_response then a else send_raw a c.last_response)
    else re_invite w a c request (parse_audio request.body)

-- The call that an INVITE offers, with the id and tag that it gets.
incoming_call : UserAgentConfig → ℕ → Bytes → Message → AudioDescription → Bytes → Call
incoming_call config id tag request offer response =
    let from = header_or_empty request (codes "from") in
    let target = elim (header request (codes "contact")) as (λ _. Bytes) [
      | none ↦ uri_of from
      | some value ↦ uri_of value
    ] in
    record blank_call {
      id = id;
      outgoing = false;
      state = ringing;
      sip_call_id = header_or_empty request (codes "call-id");
      local_tag = tag;
      local_header = tagged (header_or_empty request (codes "to")) tag;
      remote_header = from;
      remote_uri = uri_of from;
      remote_display_name = display_name_of from;
      remote_target = target;
      local_cseq = 1;
      invite = some request;
      offer = offer;
      correlation_id =
          if is_empty config.correlation_header
          then []
          else header_or_empty request (lowercase config.correlation_header);
      last_response = response;
    }

ring : UserAgent → Call → UserAgent
ring a c = emit (holding (send_raw a c.last_response) c) (record blank_event {
  kind = call_incoming;
  call_id = c.id;
  remote = c.remote_uri;
  remote_display_name = c.remote_display_name;
  correlation_id = c.correlation_id;
})

-- An INVITE with an offer, for an agent that is free.
offered : UserAgent → Bytes → Message → Option AudioDescription → UserAgent
unfolding incoming_call ring
offered a tag request none = respond a request 488 tag []
offered a tag request (some offer) =
    if acceptable a.config offer
    then ring (record a { next_call_id = suc a.next_call_id })
        (incoming_call a.config a.next_call_id tag request offer
          (build_response a.config request 180 tag []))
    else respond a request 488 tag []

-- An INVITE of a new dialog.
new_invite : World → UserAgent → Message → UserAgent
unfolding offered
new_invite w a request =
    let (drawn, tag) = draw_hex w a 6 in
    if is_some a.call || a.shutting_down
    then respond drawn request 486 tag []
    else offered drawn tag request (parse_audio request.body)

-- The call that the agent holds, if it has this Call-ID.
unfoldable pub call_with_id : UserAgent → Bytes → Option Call
call_with_id a sip_call_id = elim a.call [
  | none ↦ none
  | some c ↦ if text_eq c.sip_call_id sip_call_id then some c else none
]

unfoldable pub on_invite_request : World → UserAgent → Message → UserAgent
unfolding invite_again new_invite
on_invite_request w a request = elim (call_with_id a (header_or_empty request (codes "call-id"))) [
  | some c ↦ invite_again w a c request
  | none ↦ new_invite w a request
]

-- The response to the INVITE of a call, by its own tag. A call that rings has its INVITE.
unfoldable pub respond_to_invite : UserAgent → Call → ℕ → Bytes → UserAgent
respond_to_invite a c status body = elim c.invite [
  | none ↦ a
  | some request ↦ respond a request status c.local_tag body
]

invite_response : UserAgentConfig → Call → Bytes → Bytes
invite_response config c body = elim c.invite [
  | none ↦ []
  | some request ↦ build_response config request 200 c.local_tag body
]

answer_failed : UserAgent → Call → UserAgent
answer_failed a c = end_call (respond_to_invite (holding a c) c 500 []) media_failed 500

-- The 200 to the INVITE, once media runs.
accept : UserAgent → Call → Time → UserAgent
unfolding invite_response
accept a c now =
    let (versioned, sdp) = local_sdp_for a.config c (some c.offer) in
    let response = invite_response a.config versioned sdp in
    send_raw
      (holding a (record versioned {
        local_sdp = sdp;
        last_response = response;
        state = answering;
        resend_interval = t1;
        resend_at = now + t1;
        ack_deadline = now + transaction_timeout;
      }))
      response

-- The end of `answer`, on the call that the agent holds with its media open.
answer_with_key : World → UserAgent → Call → Time → UserAgent
unfolding answer_failed accept
answer_with_key w a c now =
    let (keyed_agent, keyed, has_key) = new_srtp_key w a c in
    let (started, accepted) =
      start w (holding keyed_agent keyed)
        (remote_media_for a.config keyed keyed.offer (chosen_key a.config keyed.offer)) in
    if not has_key
    then answer_failed keyed_agent keyed
    else if accepted
    then accept started keyed now
    else answer_failed started keyed

-- `answer` on a call that rings.
answer_ringing : World → UserAgent → Call → Time → UserAgent
unfolding answer_failed answer_with_key
answer_ringing w a c now =
    let (opened, port) = open_port w a in
    let (drawn, session) = draw_u32 w opened in
    let ready = record c {
      media_open = not (port == 0);
      media_port = port;
      sdp_session = session;
    } in
    if port == 0
    then answer_failed drawn ready
    else answer_with_key w (holding drawn ready) ready now

-- The call that the agent holds, if it has this id.
unfoldable pub call_by_id : UserAgent → ℕ → Option Call
call_by_id a id = elim a.call [ none ↦ none | some c ↦ if c.id == id then some c else none ]

unfoldable pub answer : World → UserAgent → ℕ → Time → UserAgent × CommandResult
unfolding answer_ringing
answer w a id now = elim (call_by_id a id) [
  | none ↦ (a, not_found)
  | some c ↦
      if c.outgoing || not (in_state c.state ringing)
      then (a, state_error)
      else (answer_ringing w a c now, ok)
]

unfoldable pub reject : UserAgent → ℕ → ℕ → UserAgent × CommandResult
reject a id status =
    if ltb status 400 || ltb 699 status then (a, invalid_argument) else elim (call_by_id a id) [
      | none ↦ (a, not_found)
      | some c ↦
          if c.outgoing || not (in_state c.state ringing)
          then (a, state_error)
          else (end_call (respond_to_invite a c status []) local status, ok)
    ]

-- The call that `hangup` cancels, and its CANCEL if one can go out yet.
cancel_calling : World → UserAgent → Call → Time → UserAgent
cancel_calling w a c now =
    let requested = record c { cancel_requested = true } in
    if c.cancel_requested
    then a
    else if c.provisional
    then send_cancel w a requested now
    else holding a requested

hangup_in : CallState → World → UserAgent → Call → Time → UserAgent
unfolding cancel_calling
hangup_in calling w a c now =
    let cancelled = cancel_calling w a c now in
    if a.shutting_down then end_call cancelled (ending_reason a) 0 else cancelled
hangup_in ringing w a c now = end_call (respond_to_invite a c 603 []) (ending_reason a) 603
hangup_in answering w a c now = end_call (send_bye w a c now) (ending_reason a) 0
hangup_in confirmed w a c now = end_call (send_bye w a c now) (ending_reason a) 0

unfoldable pub hangup : World → UserAgent → ℕ → Time → UserAgent × CommandResult
unfolding hangup_in
hangup w a id now = elim (call_by_id a id) [
  | none ↦ (a, not_found)
  | some c ↦ (hangup_in c.state w a c now, ok)
]

unfoldable pub shutdown : World → UserAgent → Time → UserAgent
shutdown w a now =
    let marked = record a { shutting_down = true } in
    elim a.call [
      | none ↦ stop_registration w marked now
      | some c ↦ stop_registration w (hangup w marked c.id now).0 now
    ]
