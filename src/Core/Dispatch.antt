-- ===== src/Core/Dispatch.antt =====
-- src/core/user_agent.cpp: what arrives, the timers, and the state of the connection.
pub mod Contract
pub mod Timers
pub mod Deadline
use ketphone.Base.{
  ◌+◌, ◌*◌, Bool, false, not, ◌&&◌, ◌||◌, List, [], ◌∷◌, ◌++◌, Option, none, some, ltb, leb,
  if◌then◌else◌, min, map, Bytes, codes, is_some, is_empty,
}
use ketphone.Core.Types.{
  World, UserAgent, Call, Time, Transaction, OnFinal, OnProvisional, ignore_final, register_final,
  invite_final, ignore_provisional, invite_provisional, timeout, remote_hangup, remote_cancelled,
  blank_event, registration, call_answered, ringing, answering, confirmed, t2,
  invite_after_provisional, send_sip,
}
use ketphone.Core.Host.{emit, send_raw, draw_hex, end_call}
use ketphone.Core.Incoming.{respond, respond_to_invite, on_invite_request, call_with_id}
use ketphone.Core.Outgoing.{in_state, holding, send_bye, on_invite_final, on_invite_provisional}
use ketphone.Core.Register.{with_registration, send_register, on_register_final}
use ketphone.Core.Wire.{
  Transactions, branch_of, put_transaction, find_transaction, erase_transaction, transaction_key,
  header_or_empty,
}
use ketphone.Sip.Message.{Message, CSeq, header, parse_cseq, parse_message}
use ketphone.Sip.Text.{text_eq}

-- Calling a transaction's callbacks.
unfoldable pub run_final : World → UserAgent → OnFinal → Option Message → Time → UserAgent
run_final w a ignore_final response now = a
run_final w a (register_final expires authenticated) response now =
    on_register_final w a response expires authenticated now
run_final w a (invite_final context) response now = on_invite_final w a context response now

run_provisional : World → UserAgent → OnProvisional → Message → Time → UserAgent
run_provisional w a ignore_provisional response now = a
run_provisional w a (invite_provisional id) response now = on_invite_provisional w a id response now

-- The ACK again, for a 2xx that is repeated.
acknowledge_again : UserAgent → Message → CSeq → UserAgent
acknowledge_again a response cseq =
    elim (call_with_id a (header_or_empty response (codes "call-id"))) [
      | none ↦ a
      | some c ↦
          if leb 200 response.status
            && ltb response.status 300
            && text_eq cseq.method (codes "INVITE")
            && not (is_empty c.ack)
          then send_raw a c.ack
          else a
    ]

-- The transaction after a provisional response.
proceeding : Transaction → Time → Transaction
proceeding t now =
    if text_eq t.method (codes "INVITE")
    then record t { retransmitting = false; deadline = now + invite_after_provisional }
    else record t { interval = t2 }

response_to : World → UserAgent → Bytes → Option Transaction → CSeq → Message → Time → UserAgent
unfolding acknowledge_again proceeding run_provisional
response_to w a key none cseq response now = acknowledge_again a response cseq
response_to w a key (some t) cseq response now =
    if ltb response.status 200
    then run_provisional w
        (record a { transactions = put_transaction key (proceeding t now) a.transactions })
        t.on_provisional response now
    else run_final w (record a { transactions = erase_transaction key a.transactions }) t.on_final
        (some response) now

unfoldable pub on_response : World → UserAgent → Message → Time → UserAgent
unfolding response_to
on_response w a response now = elim (parse_cseq (header_or_empty response (codes "cseq"))) [
  | none ↦ a
  | some cseq ↦
      let key = transaction_key (branch_of response) cseq.method in
      response_to w a key (find_transaction key a.transactions) cseq response now
]

on_ack : UserAgent → Message → UserAgent
on_ack a request = elim (call_with_id a (header_or_empty request (codes "call-id"))) [
  | none ↦ a
  | some c ↦
      if not c.outgoing && in_state c.state answering
      then emit (holding a (record c { state = confirmed })) (record blank_event {
        kind = call_answered;
        call_id = c.id;
        status = 200;
        remote = c.remote_uri;
        remote_display_name = c.remote_display_name;
        correlation_id = c.correlation_id;
      })
      else a
]

has_required_headers : Message → Bool
has_required_headers request =
    is_some (header request (codes "via"))
    && is_some (header request (codes "from"))
    && is_some (header request (codes "to"))
    && is_some (header request (codes "call-id"))
    && is_some (parse_cseq (header_or_empty request (codes "cseq")))

on_bye : UserAgent → Message → Option Call → UserAgent
on_bye a request none = respond a request 481 [] []
on_bye a request (some c) = end_call (respond a request 200 [] []) remote_hangup 0

on_cancel : UserAgent → Message → Option Call → UserAgent
on_cancel a request none = respond a request 481 [] []
on_cancel a request (some c) =
    let confirmed_cancel = respond a request 200 c.local_tag [] in
    if c.outgoing
    then respond a request 481 [] []
    else if in_state c.state ringing
    then end_call (respond_to_invite confirmed_cancel c 487 []) remote_cancelled 487
    else confirmed_cancel

unfoldable pub on_request : World → UserAgent → Message → UserAgent
unfolding on_ack has_required_headers on_bye on_cancel
on_request w a request =
    let same_call = call_with_id a (header_or_empty request (codes "call-id")) in
    let (drawn, tag) = draw_hex w a 6 in
    if text_eq request.method (codes "ACK")
    then on_ack a request
    else if not (has_required_headers request)
    then respond a request 400 [] []
    else if text_eq request.method (codes "INVITE")
    then on_invite_request w a request
    else if text_eq request.method (codes "OPTIONS")
    then respond drawn request 200 tag []
    else if text_eq request.method (codes "BYE")
    then on_bye a request same_call
    else if text_eq request.method (codes "CANCEL")
    then on_cancel a request same_call
    else respond a request 501 [] []

unfoldable pub on_message : World → UserAgent → Bytes → Time → UserAgent
on_message w a datagram now = elim (parse_message datagram) [
  | none ↦ a
  | some message ↦
      if message.is_response then on_response w a message now else on_request w a message
]

-- The first loop of on_timer: the transactions afterwards, what is sent again, and the keys of the
-- expired ones, each in the order of the keys.
resent : Transaction → Time → Transaction
resent t now =
    let interval =
      if text_eq t.method (codes "INVITE") then t.interval * 2 else min (t.interval * 2) t2 in
    record t { interval = interval; retransmit_at = now + interval }

sweep : Time → Transactions → Transactions × List Bytes × List Bytes
unfolding resent
sweep now [] = ([], [], [])
sweep now ((key, t) ∷ rest) =
    let (kept, sent, expired) = sweep now rest in
    if leb t.deadline now
    then ((key, t) ∷ kept, sent, key ∷ expired)
    else if t.retransmitting && leb t.retransmit_at now
    then ((key, resent t now) ∷ kept, t.bytes ∷ sent, expired)
    else ((key, t) ∷ kept, sent, expired)

-- The second loop: the expired transactions fail.
fail_transaction : World → UserAgent → Bytes → Option Transaction → Time → UserAgent
fail_transaction w a key none now = a
fail_transaction w a key (some t) now =
    run_final w (record a { transactions = erase_transaction key a.transactions }) t.on_final none
      now

fail_expired : World → UserAgent → List Bytes → Time → UserAgent
unfolding fail_transaction
fail_expired w a [] now = a
fail_expired w a (key ∷ keys) now =
    fail_expired w (fail_transaction w a key (find_transaction key a.transactions) now) keys now

-- The 200 of an answered call, until its ACK arrives.
resend_answer : World → UserAgent → Option Call → Time → UserAgent
resend_answer w a none now = a
resend_answer w a (some c) now =
    let interval = min (c.resend_interval * 2) t2 in
    if not (in_state c.state answering)
    then a
    else if leb c.ack_deadline now
    then end_call (send_bye w a c now) timeout 408
    else if leb c.resend_at now
    then holding (send_raw a c.last_response)
        (record c { resend_interval = interval; resend_at = now + interval })
    else a

is_due : Option Time → Time → Bool
is_due none now = false
is_due (some at) now = leb at now

refresh : World → UserAgent → Time → UserAgent
unfolding is_due
refresh w a now =
    let r = a.registration in
    if r.wanted && is_due r.next_attempt now && not r.in_flight
    then send_register w (with_registration a (record r { next_attempt = none }))
        a.config.register_expires [] now
    else a

unfoldable pub on_timer : World → UserAgent → Time → UserAgent
unfolding sweep fail_expired resend_answer refresh
on_timer w a now =
    let (kept, sent, expired) = sweep now a.transactions in
    let swept = record a { transactions = kept; log = a.log ++ map send_sip sent } in
    let failed = fail_expired w swept expired now in
    let answered = resend_answer w failed failed.call now in refresh w answered now

-- `consider` of next_deadline.
earlier : Option Time → Time → Option Time
earlier none at = some at
earlier (some next) at = if ltb at next then some at else some next

transaction_deadline : Option Time → Transactions → Option Time
unfolding earlier
transaction_deadline next [] = next
transaction_deadline next ((key, t) ∷ rest) =
    let considered = earlier next t.deadline in
    transaction_deadline
      (if t.retransmitting then earlier considered t.retransmit_at else considered) rest

call_deadline : Option Time → Option Call → Option Time
call_deadline next none = next
call_deadline next (some c) =
    if in_state c.state answering then earlier (earlier next c.resend_at) c.ack_deadline else next

refresh_deadline : Option Time → Bool → Option Time → Option Time
refresh_deadline next wanted none = next
refresh_deadline next wanted (some at) = if wanted then earlier next at else next

unfoldable pub next_deadline : UserAgent → Option Time
unfolding transaction_deadline call_deadline refresh_deadline
next_deadline a =
    refresh_deadline (call_deadline (transaction_deadline none a.transactions) a.call)
      a.registration.wanted a.registration.next_attempt

fail_all : World → UserAgent → Transactions → Time → UserAgent
fail_all w a [] now = a
fail_all w a ((key, t) ∷ rest) now = fail_all w (run_final w a t.on_final none now) rest now

unfoldable pub on_transport_down : World → UserAgent → Time → UserAgent
unfolding fail_all
on_transport_down w a now =
    let failed = fail_all w (record a { transactions = [] }) a.transactions now in
    if failed.registration.registered
    then emit (with_registration failed (record (failed.registration) { registered = false }))
        (record blank_event { kind = registration; status = 503 })
    else failed

unfoldable pub on_transport_up : World → UserAgent → Time → UserAgent
on_transport_up w a now =
    let r = a.registration in
    if a.shutting_down || not r.wanted || r.in_flight
    then a
    else send_register w (with_registration a (record r { next_attempt = none }))
        a.config.register_expires [] now
