-- ===== src/Core/Types.antt =====
-- src/core/user_agent.hpp: the state of the user agent. A time or duration is a number of
-- nanoseconds; counters do not wrap. A transaction's two callbacks are data: `OnFinal` and
-- `OnProvisional` name the lambdas that the source passes, with what they capture.
use ketphone.Base.{ℕ, ◌*◌, Bool, true, false, List, [], Option, none, Bytes, codes}
use ketphone.Sip.Message.{Message, Headers}
use ketphone.Sip.Random.{Randomness}
use ketphone.Sip.Sdp.{AudioDescription}

abbrev pub Time : Type 0
Time = ℕ

abbrev pub milliseconds : ℕ → Time
milliseconds n = n * 1_000_000

abbrev pub seconds : ℕ → Time
seconds n = n * 1_000_000_000

-- kT1, kT2, kTransactionTimeout, kInviteAfterProvisional, kRegisterRetry and kMinimumRefresh.
abbrev pub t1 : Time
t1 = milliseconds 500

abbrev pub t2 : Time
t2 = seconds 4

abbrev pub transaction_timeout : Time
transaction_timeout = 64 * t1

abbrev pub invite_after_provisional : Time
invite_after_provisional = seconds 180

abbrev pub register_retry : Time
register_retry = seconds 30

abbrev pub minimum_refresh : Time
minimum_refresh = seconds 5

-- kAllow and kOfferTag.
abbrev pub allow : Bytes
allow = codes "INVITE, ACK, CANCEL, BYE, OPTIONS"

abbrev pub offer_tag : ℕ
offer_tag = 1

pub record UserAgentConfig : Type 0 where
  pub domain : Bytes
  pub extension : Bytes
  pub password : Bytes
  pub local_address : Bytes
  pub local_port : ℕ
  pub transport : Bytes
  pub srtp : Bool
  pub register_expires : ℕ
  pub user_agent : Bytes
  pub correlation_header : Bytes

pub data EventKind : Type 0 where
  registration call_incoming call_progress call_answered call_ended : EventKind

-- EndReason::None is `unspecified` and EndReason::Shutdown `shut_down`.
pub data EndReason : Type 0 where
  unspecified local remote_hangup remote_cancelled rejected timeout media_failed shut_down :
      EndReason

pub record Event : Type 0 where
  pub kind : EventKind
  pub call_id : ℕ
  pub status : ℕ
  pub end_reason : EndReason
  pub remote : Bytes
  pub remote_display_name : Bytes
  pub correlation_id : Bytes

pub record MediaKeys : Type 0 where
  pub local : Bytes
  pub remote : Bytes

pub record RemoteMedia : Type 0 where
  pub address : Bytes
  pub port : ℕ
  pub srtp : Option MediaKeys

-- The calls of UserAgentHost, with what the host answered.
pub data HostCall : Type 0 where
  send_sip : Bytes → HostCall
  open_media : ℕ → HostCall
  start_media : RemoteMedia → Bool → HostCall
  close_media : HostCall

-- The surroundings: the random sources, and what the host answers after the calls made so far.
pub record World : Type 0 where
  pub randomness : Randomness
  pub opens : List HostCall → ℕ
  pub starts : List HostCall → RemoteMedia → Bool

pub data CommandResult : Type 0 where
  ok invalid_argument state_error not_found : CommandResult

pub record InviteContext : Type 0 where
  pub call_id : ℕ
  pub uri : Bytes
  pub from : Bytes
  pub sip_call_id : Bytes
  pub cseq : ℕ
  pub branch : Bytes

pub data OnFinal : Type 0 where
  ignore_final : OnFinal
  register_final : ℕ → Bool → OnFinal
  invite_final : InviteContext → OnFinal

pub data OnProvisional : Type 0 where
  ignore_provisional : OnProvisional
  invite_provisional : ℕ → OnProvisional

pub record Transaction : Type 0 where
  pub method : Bytes
  pub bytes : Bytes
  pub retransmitting : Bool
  pub interval : Time
  pub retransmit_at : Time
  pub deadline : Time
  pub on_provisional : OnProvisional
  pub on_final : OnFinal

pub record Request : Type 0 where
  pub method : Bytes
  pub uri : Bytes
  pub from : Bytes
  pub to : Bytes
  pub call_id : Bytes
  pub cseq : ℕ
  pub extra : Headers
  pub body : Bytes

pub data CallState : Type 0 where
  calling ringing answering confirmed : CallState

pub record Call : Type 0 where
  pub id : ℕ
  pub outgoing : Bool
  pub state : CallState
  pub sip_call_id : Bytes
  pub local_tag : Bytes
  pub local_header : Bytes
  pub remote_header : Bytes
  pub remote_target : Bytes
  pub remote_uri : Bytes
  pub remote_display_name : Bytes
  pub local_cseq : ℕ
  pub media_open : Bool
  pub local_sdp : Bytes
  pub media_port : ℕ
  pub sdp_session : ℕ
  pub sdp_version : ℕ
  pub srtp_key : Bytes
  pub invite_uri : Bytes
  pub invite_branch : Bytes
  pub invite_cseq : ℕ
  pub authenticated : Bool
  pub provisional : Bool
  pub last_progress : ℕ
  pub cancel_requested : Bool
  pub cancel_sent : Bool
  pub ack : Bytes
  pub invite : Option Message
  pub offer : AudioDescription
  pub last_response : Bytes
  pub resend_interval : Time
  pub resend_at : Time
  pub ack_deadline : Time
  pub correlation_id : Bytes

pub record Registration : Type 0 where
  pub wanted : Bool
  pub registered : Bool
  pub in_flight : Bool
  pub call_id : Bytes
  pub from_tag : Bytes
  pub cseq : ℕ
  pub next_attempt : Option Time

-- The user agent: its fields, how far the random sources are used up, and the calls that it made of
-- the host, in order. `next_call_id` is the counter of the default `allocate_call_id`. The key of a
-- transaction is its branch, a space and its method; the list is in std::map's order.
pub record UserAgent : Type 0 where
  pub config : UserAgentConfig
  pub transactions : List (Bytes × Transaction)
  pub registration : Registration
  pub call : Option Call
  pub events : List Event
  pub shutting_down : Bool
  pub next_call_id : ℕ
  pub draws : ℕ
  pub secure_draws : ℕ
  pub log : List HostCall

-- The default of a `Call`'s members, and of an `Event`'s.
abbrev pub no_audio : AudioDescription
no_audio = record {
  address = [];
  port = 0;
  payload_types = [];
  remote_sends = true;
  savp = false;
  crypto = [];
}

abbrev pub blank_call : Call
blank_call = record {
  id = 0;
  outgoing = false;
  state = calling;
  sip_call_id = [];
  local_tag = [];
  local_header = [];
  remote_header = [];
  remote_target = [];
  remote_uri = [];
  remote_display_name = [];
  local_cseq = 0;
  media_open = false;
  local_sdp = [];
  media_port = 0;
  sdp_session = 0;
  sdp_version = 1;
  srtp_key = [];
  invite_uri = [];
  invite_branch = [];
  invite_cseq = 0;
  authenticated = false;
  provisional = false;
  last_progress = 0;
  cancel_requested = false;
  cancel_sent = false;
  ack = [];
  invite = none;
  offer = no_audio;
  last_response = [];
  resend_interval = 0;
  resend_at = 0;
  ack_deadline = 0;
  correlation_id = [];
}

abbrev pub blank_event : Event
blank_event = record {
  kind = registration;
  call_id = 0;
  status = 0;
  end_reason = unspecified;
  remote = [];
  remote_display_name = [];
  correlation_id = [];
}

abbrev pub blank_request : Request
blank_request = record {
  method = [];
  uri = [];
  from = [];
  to = [];
  call_id = [];
  cseq = 0;
  extra = [];
  body = [];
}
