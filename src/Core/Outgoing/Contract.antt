-- ===== src/Core/Outgoing/Contract.antt =====
-- The contract with the host: ending a call, and the requests on one.
use ketphone.Base.{ℕ, true, false, none, some, arith, Bytes, ◌≡◌, refl}
use ketphone.Core.Contract.{
  Origin, KeepsContract, Keeps-send, Keeps-call, IsSound, media_state, host_after-append,
  put-ArePending, ArePending, host_after,
}
use ketphone.Core.Register.Contract.{send_request_under-KeepsContract, send_request-KeepsContract}
use ketphone.Core.Types.{
  World, UserAgent, Call, Time, EndReason, InviteContext, close_media, ringing, ignore_final,
  ignore_provisional,
}
use ketphone.Core.Host.{send_raw, draw_hex, end_call}
use ketphone.Core.Wire.{send_request, send_request_under, draw_branch}
use ketphone.Core.Outgoing.{
  holding, in_state, cancel_request, send_invite, send_cancel, send_bye, send_ack_for_failure,
}
use ketphone.Sip.Message.{Message}

-- Ending the call closes its media, if it has any.
pub end_call-KeepsContract :
    {origin : Origin}
    → (a : UserAgent) (why : EndReason) (status : ℕ) → KeepsContract origin a
    → KeepsContract origin (end_call a why status)
unfolding end_call
end_call-KeepsContract {origin} a why status k =
    ground (arith, host_after-append a.config.srtp origin.media a.log close_media)

-- The same, for a call that need not be sound.
pub end_call-closes :
    {origin : Origin}
    → (a : UserAgent) (why : EndReason) (status : ℕ)
    → host_after a.config.srtp origin.media a.log ≡ media_state a.call
    → ArePending a.transactions
    → a.config ≡ origin.settings
    → KeepsContract origin (end_call a why status)
unfolding end_call
end_call-closes {origin} a why status e p same =
    ground (arith, host_after-append a.config.srtp origin.media a.log close_media)

pub end_call-call :
    (a : UserAgent) (why : EndReason) (status : ℕ) → (end_call a why status).call ≡ none
unfolding end_call
end_call-call a why status = ground arith

module _ {origin : Origin} (w : World) (a : UserAgent) (k : KeepsContract origin a) where
  -- Another call in the place of the one that the agent holds, with the same media.
  pub hold-KeepsContract :
      (c : Call)
      → media_state (some c) ≡ media_state a.call
      → IsSound a.config c
      → KeepsContract origin (holding a c)
  hold-KeepsContract c e s = record {
    kept = Keeps-call (some c) e s k.kept;
    pending = k.pending;
    same = k.same;
  }

  pub send_raw-KeepsContract : (message : Bytes) → KeepsContract origin (send_raw a message)
  unfolding send_raw
  send_raw-KeepsContract message = record {
    kept = Keeps-send message k.kept;
    pending = k.pending;
    same = k.same;
  }

  pub draw_branch-KeepsContract : KeepsContract origin (draw_branch w a).0
  unfolding draw_branch draw_hex
  draw_branch-KeepsContract = record { kept = k.kept; pending = k.pending; same = k.same }

  pub send_ack_for_failure-KeepsContract :
      (context : InviteContext) (response : Message)
      → KeepsContract origin (send_ack_for_failure a context response)
  unfolding send_ack_for_failure send_raw
  send_ack_for_failure-KeepsContract context response = record {
    kept = Keeps-send _ k.kept;
    pending = k.pending;
    same = k.same;
  }

  -- Requests on the call `c`, which the agent need not hold as it stands.
  pub send_invite-KeepsContract :
      (c : Call) (line : Bytes) (now : Time)
      → media_state (some c) ≡ media_state a.call
      → IsSound a.config c
      → c.cancel_sent ≡ false
      → in_state c.state ringing ≡ false
      → KeepsContract origin (send_invite w a c line now)
  unfolding send_invite send_request_under draw_branch draw_hex send_raw
  send_invite-KeepsContract c line now e s unsent ring = record {
    kept = Keeps-send _ (Keeps-call _ e (ground arith) k.kept);
    pending = put-ArePending _ _ a.transactions refl k.pending;
    same = k.same;
  }

  pub send_bye-KeepsContract :
      (c : Call) (now : Time)
      → media_state (some c) ≡ media_state a.call
      → IsSound a.config c
      → KeepsContract origin (send_bye w a c now)
  unfolding send_bye send_request send_request_under draw_branch draw_hex send_raw
  send_bye-KeepsContract c now e s = record {
    kept = Keeps-send _ (Keeps-call _ e (ground arith) k.kept);
    pending = put-ArePending _ _ a.transactions tt k.pending;
    same = k.same;
  }

  pub send_cancel-KeepsContract :
      (c : Call) (now : Time)
      → media_state (some c) ≡ media_state a.call
      → IsSound a.config c
      → c.cancel_requested ≡ true
      → c.provisional ≡ true
      → KeepsContract origin (send_cancel w a c now)
  unfolding send_cancel
  send_cancel-KeepsContract c now e s asked heard = ground (
    arith,
    send_request-KeepsContract w (holding a (record c { cancel_sent = true })) cancelled
        (cancel_request c) now ignore_final ignore_provisional tt,
    send_request_under-KeepsContract w (holding a (record c { cancel_sent = true })) cancelled
        (cancel_request c) now ignore_final ignore_provisional c.invite_branch tt,
  )
    where
      cancelled : KeepsContract origin (holding a (record c { cancel_sent = true }))
      cancelled = record {
        kept = Keeps-call _ e (ground arith) k.kept;
        pending = k.pending;
        same = k.same;
      }
