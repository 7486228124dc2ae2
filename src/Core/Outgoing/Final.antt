-- ===== src/Core/Outgoing/Final.antt =====
-- Every final answer to an INVITE.
use ketphone.Base.{
  ℕ, true, false, Option, none, some, arith, codes, Bytes, ◌≡◌, refl, ap, sym, ◌∙◌, if_case,
  is_empty, ltb, Option-cases, inl, inr,
}
use ketphone.Core.Contract.{Origin, KeepsContract, media_state, IsSound-of}
use ketphone.Core.Register.Contract.{authorization_for-KeepsContract}
use ketphone.Core.Types.{World, UserAgent, Call, Time, InviteContext, ringing, rejected, timeout}
use ketphone.Core.Host.{send_raw}
use ketphone.Core.Wire.{authorization_for}
use ketphone.Core.Outgoing.{
  in_state, ending_reason, send_invite, send_ack_for_failure, ours, give_up, refused,
  on_invite_final,
}
use ketphone.Sip.Message.{Message}
use ketphone.Core.Outgoing.Contract.{
  end_call-KeepsContract, send_ack_for_failure-KeepsContract, send_invite-KeepsContract,
}
use ketphone.Core.Outgoing.Answer.{answered-KeepsContract, ours-held}

authorization_for-call :
    (w : World) (a : UserAgent) (response : Message) (method uri : Bytes)
    → (authorization_for w a response method uri).0.call ≡ a.call
unfolding authorization_for
authorization_for-call w a response method uri = ground arith

give_up-KeepsContract :
    {origin : Origin}
    → (a : UserAgent) (c : Call) (status : ℕ) → KeepsContract origin a
    → KeepsContract origin (give_up a c status)
unfolding give_up
give_up-KeepsContract a c status k = ground (
  arith,
  end_call-KeepsContract a (ending_reason a) status k,
  end_call-KeepsContract a rejected status k,
)

-- The INVITE again, with credentials.
retry-KeepsContract :
    {origin : Origin}
    → (w : World) (a tried : UserAgent) (c : Call) (line : Bytes) (now : Time)
    → KeepsContract origin tried
    → tried.call ≡ some c
    → c.cancel_requested ≡ false
    → in_state c.state ringing ≡ false
    → KeepsContract origin (send_invite w tried (record c { authenticated = true }) line now)
retry-KeepsContract w a tried c line now k e q r =
    let s = IsSound-of tried k e in
    send_invite-KeepsContract w tried k (record c { authenticated = true }) line now
      (ap media_state (sym e)) (ground arith) (ground arith) r

refused-KeepsContract :
    {origin : Origin}
    → (w : World) (a : UserAgent) (c : Call) (response : Message) (now : Time)
    → KeepsContract origin a
    → a.call ≡ some c
    → in_state c.state ringing ≡ false
    → KeepsContract origin (refused w a c response now)
unfolding refused
refused-KeepsContract w a c response now k e r =
    let tried = authorization_for w a response (codes "INVITE") c.invite_uri in
    let kept = authorization_for-KeepsContract w a k response (codes "INVITE") c.invite_uri in
    let held = authorization_for-call w a response (codes "INVITE") c.invite_uri ∙ e in
    elim (Option-cases tried.1) [
      | inl nothing ↦ rw nothing (ground (arith, give_up-KeepsContract a c response.status k))
      | inr (line, found) ↦ rw found (
          ground (
            arith,
            give_up-KeepsContract a c response.status k,
            λ (q : c.cancel_requested ≡ false).
                retry-KeepsContract w a tried.0 c line now kept held q r,
          ))
    ]

final_for-KeepsContract :
    {origin : Origin}
    → (w : World) (a : UserAgent) (held : Option Call) (context : InviteContext)
      (response : Message) (now : Time)
    → KeepsContract origin a
    → ((c : Call) → held ≡ some c → (a.call ≡ some c) × (in_state c.state ringing ≡ false))
    → KeepsContract origin
        (elim held as (λ _. UserAgent) [ none ↦ a | some c ↦ refused w a c response now ])
final_for-KeepsContract w a none context response now k h = k
final_for-KeepsContract w a (some c) context response now k h =
    refused-KeepsContract w a c response now k (h c refl).0 (h c refl).1

sent-call :
    (a : UserAgent) (context : InviteContext) (response : Message)
    → (send_ack_for_failure a context response).call ≡ a.call
unfolding send_ack_for_failure send_raw
sent-call a context response = refl

pub on_invite_final-KeepsContract :
    {origin : Origin}
    → (w : World) (a : UserAgent) (context : InviteContext) (response : Option Message) (now : Time)
    → KeepsContract origin a
    → is_empty context.branch ≡ false
    → KeepsContract origin (on_invite_final w a context response now)
unfolding on_invite_final
on_invite_final-KeepsContract {origin} w a context none now k b =
    ground (arith, end_call-KeepsContract a timeout 408 k)
on_invite_final-KeepsContract {origin} w a context (some response) now k b =
    let acked = send_ack_for_failure a context response in
    if_case (KeepsContract origin) (ltb response.status 300)
      (λ _.
        answered-KeepsContract w a (ours a.call context) context response now k
          λ c. ours-held a context c k b)
      (λ _.
        final_for-KeepsContract w acked (ours a.call context) context response now
          (send_ack_for_failure-KeepsContract w a k context response)
          λ c o. acked_held a context response c (ours-held a context c k b o))
  where
    acked_held :
        (a : UserAgent) (context : InviteContext) (response : Message) (c : Call)
        → (a.call ≡ some c) × (in_state c.state ringing ≡ false)
        → ((send_ack_for_failure a context response).call ≡ some c)
          × (in_state c.state ringing ≡ false)
    acked_held a context response c h = (sent-call a context response ∙ h.0, h.1)
