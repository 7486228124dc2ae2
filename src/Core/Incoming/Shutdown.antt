-- ===== src/Core/Incoming/Shutdown.antt =====
-- Shutting down while there is a call.
use ketphone.Base.{true, none, some, arith, ◌≡◌, refl, ◌∙◌, option_case}
use ketphone.Core.Types.{
  World, UserAgent, Call, CallState, Time, CommandResult, calling, ringing, answering, confirmed,
}
use ketphone.Core.Host.{send_raw, draw_hex}
use ketphone.Core.Incoming.{call_by_id, cancel_calling, hangup_in, hangup, shutdown}
use ketphone.Core.Outgoing.Contract.{end_call-call}
use ketphone.Core.Outgoing.{ending_reason}
use ketphone.Core.Register.{stop_registration, send_register}
use ketphone.Core.Wire.{send_request, send_request_under, draw_branch}

stop_registration-call :
    (w : World) (a : UserAgent) (now : Time) → (stop_registration w a now).call ≡ a.call
unfolding stop_registration send_register send_request send_request_under draw_branch draw_hex
    send_raw
stop_registration-call w a now = ground arith

hangup_in-call :
    (s : CallState) (w : World) (a : UserAgent) (c : Call) (now : Time)
    → a.shutting_down ≡ true
    → (hangup_in s w a c now).call ≡ none
unfolding hangup_in
hangup_in-call calling w a c now h =
    ground (arith, end_call-call (cancel_calling w a c now) (ending_reason a) 0)
hangup_in-call ringing w a c now h = end_call-call _ _ 603
hangup_in-call answering w a c now h = end_call-call _ _ 0
hangup_in-call confirmed w a c now h = end_call-call _ _ 0

call_by_id_self : (a : UserAgent) (c : Call) → a.call ≡ some c → call_by_id a c.id ≡ some c
unfolding call_by_id
call_by_id_self a c e = ground arith

hangup-call :
    (w : World) (a : UserAgent) (c : Call) (now : Time)
    → a.shutting_down ≡ true
    → a.call ≡ some c
    → (hangup w a c.id now).0.call ≡ none
unfolding hangup
hangup-call w a c now h e =
    option_case (λ (t : UserAgent × CommandResult). t.0.call ≡ none) (call_by_id a c.id)
      (λ missing. cc (call_by_id_self a c e)) (λ d _. hangup_in-call d.state w a d now h)

-- Once the agent shuts down it holds no call.
pub shutdown-call : (w : World) (a : UserAgent) (now : Time) → (shutdown w a now).call ≡ none
unfolding shutdown
shutdown-call w a now =
    let marked : UserAgent = record a { shutting_down = true } in
    option_case (λ (t : UserAgent). t.call ≡ none) a.call
      (λ free. stop_registration-call w marked now ∙ free)
      (λ c held.
        stop_registration-call w (hangup w marked c.id now).0 now
        ∙ hangup-call w marked c now refl held)
