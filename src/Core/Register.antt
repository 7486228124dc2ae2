-- ===== src/Core/Register.antt =====
-- src/core/user_agent.cpp: the constructor, and registration.
pub mod Contract
pub mod Final
use ketphone.Base.{
  ℕ, suc, ◌+◌, ◌/◌, ◌^◌, Bool, true, false, not, ◌&&◌, ◌||◌, List, [], ◌∷◌, ◌++◌, Option, none,
  some, ltb, leb, ◌==◌, if◌then◌else◌, max, Bytes, codes, is_some, is_empty, value_or,
}
use ketphone.Core.Types.{
  World, UserAgent, UserAgentConfig, Registration, Request, Time, register_final,
  ignore_provisional, blank_event, blank_request, registration, seconds, register_retry,
  minimum_refresh, allow,
}
use ketphone.Core.Host.{emit}
use ketphone.Core.Wire.{aor, sip_host, send_request, authorization_for, authorization_header}
use ketphone.Sip.Message.{Message, header, header_all, uri_of, param_of}
use ketphone.Sip.Random
use ketphone.Sip.Text.{find_text, parse_unsigned, to_string}

unfoldable pub init : World → UserAgentConfig → UserAgent
init w config = record {
  config = config;
  transactions = [];
  registration = record {
    wanted = false;
    registered = false;
    in_flight = false;
    call_id = Random.random_hex w.randomness 0 12 ++ codes "@ketphone";
    from_tag = Random.random_hex w.randomness 12 6;
    cseq = 1;
    next_attempt = none;
  };
  call = none;
  events = [];
  shutting_down = false;
  next_call_id = 1_000_000;
  draws = 18;
  secure_draws = 0;
  log = [];
}

-- The request of send_register.
register_request : UserAgent → ℕ → Bytes → Request
register_request a expires authorization = record blank_request {
  method = codes "REGISTER";
  uri = codes "sip:" ++ sip_host a.config.domain;
  from = codes "<" ++ (aor a.config ++ (codes ">;tag=" ++ a.registration.from_tag));
  to = codes "<" ++ (aor a.config ++ codes ">");
  call_id = a.registration.call_id;
  cseq = a.registration.cseq;
  extra =
      (codes "Expires", to_string expires)
      ∷ (codes "Allow", allow)
      ∷ authorization_header authorization;
}

abbrev pub with_registration : UserAgent → Registration → UserAgent
with_registration a r = record a { registration = r }

unfoldable pub send_register : World → UserAgent → ℕ → Bytes → Time → UserAgent
unfolding register_request
send_register w a expires authorization now =
    send_request w
      (with_registration a
        (record (a.registration) { cseq = suc a.registration.cseq; in_flight = true }))
      (register_request a expires authorization) now
      (register_final expires (not (is_empty authorization))) ignore_provisional

unfoldable pub start_registration : World → UserAgent → Time → UserAgent
start_registration w a now =
    let wanted =
      with_registration a (record (a.registration) { wanted = true; next_attempt = none }) in
    if a.shutting_down
    then a
    else if a.registration.in_flight
    then wanted
    else send_register w wanted a.config.register_expires [] now

unfoldable pub stop_registration : World → UserAgent → Time → UserAgent
stop_registration w a now =
    let r = a.registration in
    if r.registered || r.in_flight
    then send_register w
        (with_registration a (record r { wanted = false; next_attempt = none; registered = false }))
        0 [] now
    else with_registration a (record r { wanted = false; next_attempt = none })

-- The lifetime that the Contact headers of this side give: the last one counts.
granted_by : UserAgentConfig → ℕ → List Bytes → ℕ
granted_by c granted [] = granted
granted_by c granted (value ∷ values) =
    let ours = is_some (find_text c.local_address (uri_of value)) in
    let named = elim (param_of value (codes "expires")) as (λ _. ℕ) [
      | none ↦ granted
      | some text ↦ value_or (parse_unsigned (2 ^ 32) text) granted
    ] in
    granted_by c (if ours then named else granted) values

granted_lifetime : UserAgentConfig → ℕ → Message → ℕ
unfolding granted_by
granted_lifetime c expires response = elim (header response (codes "expires")) [
  | none ↦ granted_by c expires (header_all response (codes "contact"))
  | some text ↦ value_or (parse_unsigned (2 ^ 32) text) expires
]

pub is_success : ℕ → Bool
is_success status = leb 200 status && ltb status 300

-- max(seconds(granted) / 2, kMinimumRefresh).
refresh_after : ℕ → Time
refresh_after granted = max (seconds (granted / 2)) minimum_refresh

-- The registration that a final answer to a REGISTER leaves, while registration is wanted.
settled : UserAgentConfig → Registration → ℕ → Option Message → ℕ → Time → Registration
unfolding granted_lifetime is_success refresh_after
settled c r expires none status now = record r {
  registered = false;
  next_attempt = some (now + register_retry);
}
settled c r expires (some response) status now =
    if is_success status
    then record r {
      registered = true;
      next_attempt = some (now + refresh_after (granted_lifetime c expires response));
    }
    else if status == 408 || leb 500 status
    then record r { registered = false; next_attempt = some (now + register_retry) }
    else record r { registered = false }

unfoldable pub status_of : Option Message → ℕ
status_of none = 408
status_of (some response) = response.status

-- on_register_final behind the retry with credentials.
conclude_register : World → UserAgent → Option Message → ℕ → Time → UserAgent
unfolding settled status_of is_success
conclude_register w a response expires now =
    let status = status_of response in
    if expires == 0
    then a
    else if not a.registration.wanted
    then (if is_success status then send_register w a 0 [] now else a)
    else emit (with_registration a (settled a.config a.registration expires response status now))
        (record blank_event { kind = registration; status = status })

-- The credentials for a challenge, if a response is one and none were sent yet.
retry_register : World → UserAgent → Option Message → Bool → UserAgent × Option Bytes
retry_register w a none authenticated = (a, none)
retry_register w a (some response) authenticated =
    if (response.status == 401 || response.status == 407) && not authenticated
    then authorization_for w a response (codes "REGISTER")
        (codes "sip:" ++ sip_host a.config.domain)
    else (a, none)

unfoldable pub on_register_final : World → UserAgent → Option Message → ℕ → Bool → Time → UserAgent
unfolding conclude_register retry_register
on_register_final w a response expires authenticated now =
    let landed = with_registration a (record (a.registration) { in_flight = false }) in
    let (tried, authorization) = retry_register w landed response authenticated in
    elim authorization [
      | some line ↦ send_register w tried expires line now
      | none ↦ conclude_register w tried response expires now
    ]
