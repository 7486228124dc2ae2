-- ===== src/Core/Dispatch/Contract.antt =====
-- The contract with the host: what arrives, the timers and the connection.
use ketphone.Base.{
  true, not, ◌&&◌, Option, none, some, arith, [], codes, Bytes, ◌≡◌, refl, ap, sym, if_case,
  option_case, ltb,
}
use ketphone.Core.Contract.{
  Origin, KeepsContract, Keeps-send, Keeps-call, IsSound, media_state, HasBranch, IsSound-of,
  put-ArePending, erase-ArePending, find-HasBranch,
}
use ketphone.Core.Outgoing.Contract.{end_call-KeepsContract}
use ketphone.Core.Outgoing.Media.{on_invite_provisional-KeepsContract}
use ketphone.Core.Outgoing.Final.{on_invite_final-KeepsContract}
use ketphone.Core.Register.Contract.{on_register_final-KeepsContract}
use ketphone.Core.Incoming.Contract.{
  respond-KeepsContract, on_invite_request-KeepsContract, call_with_id-held,
}
use ketphone.Core.Incoming.Commands.{respond_to_invite-KeepsContract}
use ketphone.Core.Types.{
  World, UserAgent, UserAgentConfig, confirmed, Call, Time, Transaction, OnFinal, OnProvisional,
  ignore_final, register_final, invite_final, ignore_provisional, invite_provisional, answering,
  ringing, remote_hangup, remote_cancelled,
}
use ketphone.Core.Host.{send_raw, emit, draw_hex}
use ketphone.Core.Outgoing.{in_state}
use ketphone.Core.Incoming.{respond, call_with_id}
use ketphone.Core.Wire.{find_transaction, header_or_empty}
use ketphone.Core.Dispatch.{
  run_final, run_provisional, acknowledge_again, proceeding, response_to, on_response, on_ack,
  on_bye, on_cancel, has_required_headers, on_request, on_message,
}
use ketphone.Sip.Text.{text_eq}
use ketphone.Sip.Message.{Message, CSeq, parse_cseq, parse_message}

pub run_final-KeepsContract :
    {origin : Origin}
    → (w : World) (a : UserAgent) (f : OnFinal) (response : Option Message) (now : Time)
    → KeepsContract origin a
    → HasBranch f
    → KeepsContract origin (run_final w a f response now)
unfolding run_final
run_final-KeepsContract w a ignore_final response now k h = k
run_final-KeepsContract w a (register_final expires authenticated) response now k h =
    on_register_final-KeepsContract w a response expires authenticated now k
run_final-KeepsContract w a (invite_final context) response now k h =
    on_invite_final-KeepsContract w a context response now k h

run_provisional-KeepsContract :
    {origin : Origin}
    → (w : World) (a : UserAgent) (p : OnProvisional) (response : Message) (now : Time)
    → KeepsContract origin a
    → KeepsContract origin (run_provisional w a p response now)
unfolding run_provisional
run_provisional-KeepsContract w a ignore_provisional response now k = k
run_provisional-KeepsContract w a (invite_provisional id) response now k =
    on_invite_provisional-KeepsContract w a id response now k

acknowledge_again-KeepsContract :
    {origin : Origin}
    → (a : UserAgent) (response : Message) (cseq : CSeq) → KeepsContract origin a
    → KeepsContract origin (acknowledge_again a response cseq)
unfolding acknowledge_again send_raw
acknowledge_again-KeepsContract {origin} a response cseq k =
    option_case (KeepsContract origin) (call_with_id a (header_or_empty response (codes "call-id")))
      (λ _. k) λ c _. ground (arith, Keeps-send c.ack k.kept)

proceeding-on_final : (t : Transaction) (now : Time) → (proceeding t now).on_final ≡ t.on_final
unfolding proceeding
proceeding-on_final t now = ground arith

response_to-KeepsContract :
    {origin : Origin}
    → (w : World) (a : UserAgent) (key : Bytes) (found : Option Transaction) (cseq : CSeq)
      (response : Message) (now : Time)
    → KeepsContract origin a
    → find_transaction key a.transactions ≡ found
    → KeepsContract origin (response_to w a key found cseq response now)
unfolding response_to
response_to-KeepsContract {origin} w a key none cseq response now k e =
    acknowledge_again-KeepsContract a response cseq k
response_to-KeepsContract {origin} w a key (some t) cseq response now k e =
    let h = find-HasBranch key a.transactions k.pending e in
    if_case (KeepsContract origin) (ltb response.status 200)
      (λ _. run_provisional-KeepsContract w _ t.on_provisional response now (record {
        kept = k.kept;
        pending =
            put-ArePending key (proceeding t now) a.transactions (rw (proceeding-on_final t now) h)
              k.pending;
        same = k.same;
      }))
      (λ _.
        run_final-KeepsContract w _ t.on_final (some response) now
          (record {
            kept = k.kept;
            pending = erase-ArePending key a.transactions k.pending;
            same = k.same;
          })
          h)

on_response-KeepsContract :
    {origin : Origin}
    → (w : World) (a : UserAgent) (response : Message) (now : Time) → KeepsContract origin a
    → KeepsContract origin (on_response w a response now)
unfolding on_response
on_response-KeepsContract {origin} w a response now k =
    option_case (KeepsContract origin) (parse_cseq (header_or_empty response (codes "cseq")))
      (λ _. k) λ cseq _. response_to-KeepsContract w a _ _ cseq response now k refl

-- An answered call is confirmed by its ACK.
answered-IsSound :
    (config : UserAgentConfig) (c : Call)
    → IsSound config c
    → (not c.outgoing && in_state c.state answering) ≡ true
    → IsSound config (record c { state = confirmed })
answered-IsSound config c s t = ground arith

on_ack-KeepsContract :
    {origin : Origin}
    → (a : UserAgent) (request : Message) → KeepsContract origin a
    → KeepsContract origin (on_ack a request)
unfolding on_ack emit
on_ack-KeepsContract {origin} a request k =
    option_case (KeepsContract origin) (call_with_id a (header_or_empty request (codes "call-id")))
      (λ _. k)
      λ c found.
        let e = call_with_id-held a _ c found in
        let s = IsSound-of a k e in
        if_case (KeepsContract origin) (not c.outgoing && in_state c.state answering)
          (λ t. record {
            kept = Keeps-call _ (ap media_state (sym e)) (answered-IsSound a.config c s t) k.kept;
            pending = k.pending;
            same = k.same;
          })
          (λ _. k)

on_bye-KeepsContract :
    {origin : Origin}
    → (a : UserAgent) (request : Message) (same : Option Call) → KeepsContract origin a
    → KeepsContract origin (on_bye a request same)
unfolding on_bye
on_bye-KeepsContract a request none k = respond-KeepsContract a request 481 [] [] k
on_bye-KeepsContract a request (some c) k =
    end_call-KeepsContract (respond a request 200 [] []) remote_hangup 0
      (respond-KeepsContract a request 200 [] [] k)

on_cancel-KeepsContract :
    {origin : Origin}
    → (a : UserAgent) (request : Message) (same : Option Call) → KeepsContract origin a
    → KeepsContract origin (on_cancel a request same)
unfolding on_cancel
on_cancel-KeepsContract {origin} a request none k = respond-KeepsContract a request 481 [] [] k
on_cancel-KeepsContract {origin} a request (some c) k =
    let kept = respond-KeepsContract a request 200 c.local_tag [] k in
    if_case (KeepsContract origin) c.outgoing (λ _. respond-KeepsContract a request 481 [] [] k)
      λ _.
        if_case (KeepsContract origin) (in_state c.state ringing)
          (λ _.
            end_call-KeepsContract _ remote_cancelled 487 (
              respond_to_invite-KeepsContract (respond a request 200 c.local_tag []) c 487 [] kept))
          (λ _. kept)

on_request-KeepsContract :
    {origin : Origin}
    → (w : World) (a : UserAgent) (request : Message) → KeepsContract origin a
    → KeepsContract origin (on_request w a request)
unfolding on_request draw_hex
on_request-KeepsContract {origin} w a request k =
    let same = call_with_id a (header_or_empty request (codes "call-id")) in
    if_case (KeepsContract origin) (text_eq request.method (codes "ACK"))
      (λ _. on_ack-KeepsContract a request k)
      λ _.
        if_case (KeepsContract origin) (not (has_required_headers request))
          (λ _. respond-KeepsContract a request 400 [] [] k)
          λ _.
            if_case (KeepsContract origin) (text_eq request.method (codes "INVITE"))
              (λ _. on_invite_request-KeepsContract w a request k)
              λ _.
                if_case (KeepsContract origin) (text_eq request.method (codes "OPTIONS"))
                  (λ _.
                    respond-KeepsContract (draw_hex w a 6).0 request 200 _ []
                      (record { kept = k.kept; pending = k.pending; same = k.same }))
                  λ _.
                    if_case (KeepsContract origin) (text_eq request.method (codes "BYE"))
                      (λ _. on_bye-KeepsContract a request same k)
                      λ _.
                        if_case (KeepsContract origin) (text_eq request.method (codes "CANCEL"))
                          (λ _. on_cancel-KeepsContract a request same k)
                          (λ _. respond-KeepsContract a request 501 [] [] k)

pub on_message-KeepsContract :
    {origin : Origin}
    → (w : World) (a : UserAgent) (datagram : Bytes) (now : Time) → KeepsContract origin a
    → KeepsContract origin (on_message w a datagram now)
unfolding on_message
on_message-KeepsContract {origin} w a datagram now k =
    option_case (KeepsContract origin) (parse_message datagram) (λ _. k)
      λ message _.
        if_case (KeepsContract origin) message.is_response
          (λ _. on_response-KeepsContract w a message now k)
          (λ _. on_request-KeepsContract w a message k)
