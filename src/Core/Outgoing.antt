-- ===== src/Core/Outgoing.antt =====
-- src/core/user_agent.cpp: outgoing calls.
pub mod Contract
pub mod Media
pub mod Answer
pub mod Final
pub mod Place
use ketphone.Base.{
  ℕ, suc, ◌+◌, Bool, true, false, not, ◌&&◌, ◌||◌, List, [], ◌∷◌, ◌++◌, Option, none, some, ltb,
  ◌==◌, if◌then◌else◌, Bytes, codes, is_some, is_empty,
}
use ketphone.Core.Types.{
  World, UserAgent, UserAgentConfig, Call, CallState, Request, Time, InviteContext, ignore_final,
  ignore_provisional, invite_final, invite_provisional, CommandResult, ok, invalid_argument,
  state_error, EndReason, local, rejected, timeout, media_failed, shut_down, blank_call,
  blank_event, blank_request, call_progress, call_answered, calling, ringing, answering, confirmed,
  allow, offer_tag,
}
use ketphone.Core.Host.{
  emit, send_raw, open_port, start, draw_hex, draw_u32, new_srtp_key, end_call,
}
use ketphone.Core.Wire.{
  aor, sip_host, via, acceptable, local_sdp_for, remote_media_for, build_request, send_request,
  send_request_under, draw_branch, authorization_for, authorization_header, header_or_empty,
}
use ketphone.Sip.Message.{Message, header, uri_of, builder, add_all, build}
use ketphone.Sip.Sdp.{AudioDescription, SdesCrypto, parse_audio}
use ketphone.Sip.Text.{find_first_of, text_eq, to_string}

abbrev pub holding : UserAgent → Call → UserAgent
holding a c = record a { call = some c }

-- The request of send_invite.
invite_request : Call → Bytes → Request
invite_request c authorization = record blank_request {
  method = codes "INVITE";
  uri = c.invite_uri;
  from = c.local_header;
  to = codes "<" ++ (c.invite_uri ++ codes ">");
  call_id = c.sip_call_id;
  cseq = c.local_cseq;
  extra = (codes "Allow", allow) ∷ authorization_header authorization;
  body = c.local_sdp;
}

-- send_invite, on the call that the agent is to hold.
unfoldable pub send_invite : World → UserAgent → Call → Bytes → Time → UserAgent
unfolding invite_request
send_invite w a c authorization now =
    let (drawn, branch) = draw_branch w a in
    let request = invite_request c authorization in
    let context : InviteContext = record {
      call_id = c.id;
      uri = request.uri;
      from = request.from;
      sip_call_id = request.call_id;
      cseq = request.cseq;
      branch = branch;
    } in
    send_request_under
      (holding drawn (record c {
        local_cseq = suc c.local_cseq;
        invite_cseq = request.cseq;
        invite_branch = branch;
        provisional = false;
      }))
      request now (invite_final context) (invite_provisional c.id) branch

bad_target : Bytes → Bool
bad_target target = is_empty target || is_some (find_first_of (codes " \t\r\n<>\"@;") target)

-- The call that `call` makes, with the port that the host gave.
new_call : UserAgentConfig → ℕ → Bytes → ℕ → Bytes → Bytes → ℕ → Call
new_call c id target port call_id tag session =
    let uri = codes "sip:" ++ (target ++ (codes "@" ++ sip_host c.domain)) in
    record blank_call {
      id = id;
      outgoing = true;
      state = calling;
      sip_call_id = call_id;
      local_tag = tag;
      invite_uri = uri;
      remote_uri = uri;
      local_header = codes "<" ++ (aor c ++ (codes ">;tag=" ++ tag));
      remote_header = codes "<" ++ (uri ++ codes ">");
      local_cseq = 1;
      media_open = not (port == 0);
      media_port = port;
      sdp_session = session;
    }

-- The end of `call`, on the call that the agent now holds, with its media open.
invite_with_key : World → UserAgent → Call → Time → UserAgent
invite_with_key w a c now =
    let (keyed_agent, keyed, has_key) = new_srtp_key w a c in
    let (versioned, sdp) = local_sdp_for a.config keyed none in
    if has_key
    then send_invite w keyed_agent (record versioned { local_sdp = sdp }) [] now
    else end_call (holding keyed_agent keyed) media_failed 0

-- `call` once the arguments and the state allow it.
place_call : World → UserAgent → ℕ → Bytes → Time → UserAgent
unfolding new_call invite_with_key
place_call w a id target now =
    let (opened, port) = open_port w a in
    let (a1, call_hex) = draw_hex w opened 12 in
    let (a2, tag) = draw_hex w a1 6 in
    let (a3, session) = draw_u32 w a2 in
    let made = new_call a.config id target port (call_hex ++ codes "@ketphone") tag session in
    if port == 0
    then end_call (holding a3 made) media_failed 0
    else invite_with_key w (holding a3 made) made now

unfoldable pub call : World → UserAgent → ℕ → Bytes → Time → UserAgent × CommandResult
unfolding place_call bad_target
call w a id target now =
    if bad_target target
    then (a, invalid_argument)
    else if is_some a.call || a.shutting_down
    then (a, state_error)
    else (place_call w a id target now, ok)

-- The request of send_cancel.
cancel_request : Call → Request
cancel_request c = record blank_request {
  method = codes "CANCEL";
  uri = c.invite_uri;
  from = c.local_header;
  to = codes "<" ++ (c.invite_uri ++ codes ">");
  call_id = c.sip_call_id;
  cseq = c.invite_cseq;
}

-- send_cancel, on the call that the agent holds; an empty branch means a fresh one.
unfoldable pub send_cancel : World → UserAgent → Call → Time → UserAgent
unfolding cancel_request
send_cancel w a c now =
    let cancelled = holding a (record c { cancel_sent = true }) in
    if is_empty c.invite_branch
    then send_request w cancelled (cancel_request c) now ignore_final ignore_provisional
    else send_request_under cancelled (cancel_request c) now ignore_final ignore_provisional
        c.invite_branch

-- The request of send_bye.
bye_request : Call → Request
bye_request c = record blank_request {
  method = codes "BYE";
  uri = c.remote_target;
  from = c.local_header;
  to = c.remote_header;
  call_id = c.sip_call_id;
  cseq = c.local_cseq;
}

unfoldable pub send_bye : World → UserAgent → Call → Time → UserAgent
unfolding bye_request
send_bye w a c now =
    send_request w (holding a (record c { local_cseq = suc c.local_cseq })) (bye_request c) now
      ignore_final ignore_provisional

abbrev pub in_state : CallState → CallState → Bool
in_state calling calling = true
in_state ringing ringing = true
in_state answering answering = true
in_state confirmed confirmed = true
in_state _ _ = false

-- The progress that a provisional response reports, on the call that the agent holds.
report_progress : UserAgent → Call → Message → UserAgent
report_progress a c response =
    if (response.status == 180 || response.status == 183)
      && not (c.last_progress == response.status)
    then emit (holding a (record c { last_progress = response.status })) (record blank_event {
      kind = call_progress;
      call_id = c.id;
      status = response.status;
      remote = c.remote_uri;
    })
    else holding a c

pub provisional_for : World → UserAgent → Option Call → ℕ → Message → Time → UserAgent
unfolding report_progress
provisional_for w a none id response now = a
provisional_for w a (some c) id response now =
    let heard = record c { provisional = true } in
    if not (c.id == id) || not (in_state c.state calling)
    then a
    else if c.cancel_requested && not c.cancel_sent
    then send_cancel w a heard now
    else report_progress a heard response

unfoldable pub on_invite_provisional : World → UserAgent → ℕ → Message → Time → UserAgent
unfolding provisional_for
on_invite_provisional w a id response now = provisional_for w a a.call id response now

unfoldable pub send_ack_for_failure : UserAgent → InviteContext → Message → UserAgent
send_ack_for_failure a context response = send_raw a (
    build (
      add_all (builder (codes "ACK " ++ (context.uri ++ codes " SIP/2.0"))) (
        (codes "Via", via a.config context.branch)
        ∷ (codes "Max-Forwards", codes "70")
        ∷ (codes "From", context.from)
        ∷ (codes "To", header_or_empty response (codes "to"))
        ∷ (codes "Call-ID", context.sip_call_id)
        ∷ (codes "CSeq", to_string context.cseq ++ codes " ACK")
        ∷ (codes "User-Agent", a.config.user_agent)
        ∷ [])))

-- The call that the agent holds, if the INVITE of this context made it.
pub ours : Option Call → InviteContext → Option Call
ours none context = none
ours (some c) context =
    if c.id == context.call_id && text_eq c.invite_branch context.branch then some c else none

-- Where a 2xx says that requests of the dialog go.
target_of : InviteContext → Message → Bytes
target_of context response = elim (header response (codes "contact")) [
  | none ↦ context.uri
  | some value ↦ uri_of value
]

ack_request : InviteContext → Message → Request
unfolding target_of
ack_request context response = record blank_request {
  method = codes "ACK";
  uri = target_of context response;
  from = context.from;
  to = header_or_empty response (codes "to");
  call_id = context.sip_call_id;
  cseq = context.cseq;
}

-- The BYE for a call that this side has given up on.
stray_bye : InviteContext → Message → Request
unfolding target_of
stray_bye context response = record blank_request {
  method = codes "BYE";
  uri = target_of context response;
  from = context.from;
  to = header_or_empty response (codes "to");
  call_id = context.sip_call_id;
  cseq = context.cseq + 1;
}

with_tag : ℕ → List SdesCrypto → Option SdesCrypto
with_tag tag [] = none
with_tag tag (c ∷ cs) = if c.tag == tag then some c else with_tag tag cs

-- Whether an answer can be used, and the key that it takes up.
pub usable_answer : UserAgentConfig → AudioDescription → Bool × Option SdesCrypto
unfolding with_tag
usable_answer c answer =
    if acceptable c answer
    then (if c.srtp
        then (is_some (with_tag offer_tag answer.crypto), with_tag offer_tag answer.crypto)
        else (true, none))
    else (false, none)

abbrev pub ending_reason : UserAgent → EndReason
ending_reason a = if a.shutting_down then shut_down else local

unfoldable pub hang_up_failed : World → UserAgent → Call → Time → UserAgent
hang_up_failed w a c now = end_call (send_bye w a c now) media_failed 488

-- The media of a confirmed call.
pub connect : World → UserAgent → Call → Message → Option AudioDescription → Time → UserAgent
unfolding usable_answer
connect w a c response none now = hang_up_failed w a c now
connect w a c response (some answer) now =
    let (usable, key) = usable_answer a.config answer in
    let (started, accepted) = start w a (remote_media_for a.config c answer key) in
    let announced = emit started (record blank_event {
      kind = call_answered;
      call_id = c.id;
      status = response.status;
      remote = c.remote_uri;
    }) in
    if not usable
    then hang_up_failed w a c now
    else if accepted
    then announced
    else hang_up_failed w started c now

-- A 2xx to an INVITE, by whether the call is still there.
pub answered : World → UserAgent → Option Call → InviteContext → Message → Time → UserAgent
unfolding ack_request stray_bye connect
answered w a held context response now =
    let (drawn, branch) = draw_branch w a in
    let ack = build_request a.config (ack_request context response) branch in
    let acked = send_raw drawn ack in
    elim held [
      | none ↦ send_request w acked (stray_bye context response) now ignore_final ignore_provisional
      | some c ↦
          let up = record c {
            ack = ack;
            remote_header = header_or_empty response (codes "to");
            remote_target = target_of context response;
            state = confirmed;
          } in
          if c.cancel_requested
          then end_call (send_bye w (holding acked up) up now) (ending_reason a) 0
          else connect w (holding acked up) up response (parse_audio response.body) now
    ]

-- A failure of the INVITE of the call that the agent holds, with no credentials to try.
give_up : UserAgent → Call → ℕ → UserAgent
give_up a c status =
    if c.cancel_requested then end_call a (ending_reason a) status else end_call a rejected status

pub refused : World → UserAgent → Call → Message → Time → UserAgent
unfolding give_up
refused w a c response now =
    let (tried, authorization) = authorization_for w a response (codes "INVITE") c.invite_uri in
    if (response.status == 401 || response.status == 407)
      && not c.authenticated
      && not c.cancel_requested
    then elim authorization [
      | some line ↦ send_invite w tried (record c { authenticated = true }) line now
      | none ↦ give_up a c response.status
    ]
    else give_up a c response.status

unfoldable pub on_invite_final :
    World → UserAgent → InviteContext → Option Message → Time → UserAgent
unfolding ours answered refused
on_invite_final w a context none now =
    if is_some (ours a.call context) then end_call a timeout 408 else a
on_invite_final w a context (some response) now =
    let acked = send_ack_for_failure a context response in
    if ltb response.status 300
    then answered w a (ours a.call context) context response now
    else elim (ours a.call context) [ none ↦ acked | some c ↦ refused w acked c response now ]
