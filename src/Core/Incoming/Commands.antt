-- ===== src/Core/Incoming/Commands.antt =====
-- The contract with the host: the commands on a call.
use ketphone.Base.{
  ℕ, true, ◌||◌, some, arith, [], Bytes, ◌≡◌, refl, ap, sym, if_case, option_case, ltb,
}
use ketphone.Core.Contract.{Origin, KeepsContract, Keeps-send, IsSound, media_state, IsSound-of}
use ketphone.Core.Outgoing.Contract.{
  hold-KeepsContract, end_call-KeepsContract, send_cancel-KeepsContract, send_bye-KeepsContract,
}
use ketphone.Core.Register.Contract.{stop_registration-KeepsContract}
use ketphone.Core.Types.{
  CommandResult, World, UserAgent, Call, CallState, Time, calling, ringing, answering, confirmed,
  local,
}
use ketphone.Core.Host.{send_raw}
use ketphone.Core.Outgoing.{ending_reason}
use ketphone.Core.Incoming.{
  respond_to_invite, call_by_id, reject, cancel_calling, hangup_in, hangup, shutdown,
}

pub respond_to_invite-KeepsContract :
    {origin : Origin}
    → (a : UserAgent) (c : Call) (status : ℕ) (body : Bytes) → KeepsContract origin a
    → KeepsContract origin (respond_to_invite a c status body)
unfolding respond_to_invite send_raw
respond_to_invite-KeepsContract {origin} a c status body k =
    option_case (KeepsContract origin) c.invite (λ _. k)
      λ request _. record { kept = Keeps-send _ k.kept; pending = k.pending; same = k.same }

pub call_by_id-held :
    (a : UserAgent) (id : ℕ) (c : Call) → call_by_id a id ≡ some c → a.call ≡ some c
unfolding call_by_id
call_by_id-held a id c e = ground arith

cancel_calling-KeepsContract :
    {origin : Origin}
    → (w : World) (a : UserAgent) (c : Call) (now : Time) → KeepsContract origin a
    → a.call ≡ some c
    → KeepsContract origin (cancel_calling w a c now)
unfolding cancel_calling
cancel_calling-KeepsContract w a c now k e =
    let s = IsSound-of a k e in
    let requested : Call = record c { cancel_requested = true } in
    let sound : IsSound a.config requested = ground arith in
    let m = ap media_state (sym e) in
    ground (
      arith,
      hold-KeepsContract w a k requested m sound,
      send_cancel-KeepsContract w a k requested now m sound refl,
    )

hangup_in-KeepsContract :
    {origin : Origin}
    → (s : CallState) (w : World) (a : UserAgent) (c : Call) (now : Time) → KeepsContract origin a
    → a.call ≡ some c
    → KeepsContract origin (hangup_in s w a c now)
unfolding hangup_in
hangup_in-KeepsContract {origin} calling w a c now k e =
    let cancelled = cancel_calling-KeepsContract w a c now k e in
    if_case (KeepsContract origin) a.shutting_down
      (λ _. end_call-KeepsContract (cancel_calling w a c now) (ending_reason a) 0 cancelled)
      (λ _. cancelled)
hangup_in-KeepsContract {origin} ringing w a c now k e =
    end_call-KeepsContract _ (ending_reason a) 603 (respond_to_invite-KeepsContract a c 603 [] k)
hangup_in-KeepsContract {origin} answering w a c now k e =
    end_call-KeepsContract _ (ending_reason a) 0
      (send_bye-KeepsContract w a k c now (ap media_state (sym e)) (IsSound-of a k e))
hangup_in-KeepsContract {origin} confirmed w a c now k e =
    end_call-KeepsContract _ (ending_reason a) 0
      (send_bye-KeepsContract w a k c now (ap media_state (sym e)) (IsSound-of a k e))

pub hangup-KeepsContract :
    {origin : Origin}
    → (w : World) (a : UserAgent) (id : ℕ) (now : Time) → KeepsContract origin a
    → KeepsContract origin (hangup w a id now).0
unfolding hangup
hangup-KeepsContract {origin} w a id now k =
    option_case (λ (t : UserAgent × CommandResult). KeepsContract origin t.0) (call_by_id a id)
      (λ _. k)
      (λ c found. hangup_in-KeepsContract c.state w a c now k (call_by_id-held a id c found))

pub reject-KeepsContract :
    {origin : Origin}
    → (a : UserAgent) (id status : ℕ) → KeepsContract origin a
    → KeepsContract origin (reject a id status).0
unfolding reject
reject-KeepsContract {origin} a id status k =
    if_case (λ (t : UserAgent × CommandResult). KeepsContract origin t.0)
      (ltb status 400 || ltb 699 status) (λ _. k)
      λ _.
        option_case (λ (t : UserAgent × CommandResult). KeepsContract origin t.0) (call_by_id a id)
          (λ _. k)
          λ c _. ground (
            arith,
            end_call-KeepsContract (respond_to_invite a c status []) local status
                (respond_to_invite-KeepsContract a c status [] k),
          )

pub shutdown-KeepsContract :
    {origin : Origin}
    → (w : World) (a : UserAgent) (now : Time) → KeepsContract origin a
    → KeepsContract origin (shutdown w a now)
unfolding shutdown
shutdown-KeepsContract {origin} w a now k =
    let marked : UserAgent = record a { shutting_down = true } in
    let kept : KeepsContract origin marked = record {
      kept = k.kept;
      pending = k.pending;
      same = k.same;
    } in
    option_case (KeepsContract origin) a.call
      (λ _. stop_registration-KeepsContract w marked now kept)
      λ c _.
        stop_registration-KeepsContract w (hangup w marked c.id now).0 now
          (hangup-KeepsContract w marked c.id now kept)
