-- ===== src/Core/Register/Contract.antt =====
-- The contract with the host: registration.
use ketphone.Base.{
  ℕ, Bool, true, false, Option, none, some, arith, [], ◌++◌, codes, Bytes, option_case,
}
use ketphone.Core.Contract.{Origin, KeepsContract, Keeps-send, HasBranch, put-ArePending}
use ketphone.Core.Types.{World, UserAgent, Request, Time, OnFinal, OnProvisional}
use ketphone.Core.Host.{send_raw, draw_hex, emit}
use ketphone.Core.Wire.{send_request, send_request_under, draw_branch, authorization_for, sip_host}
use ketphone.Core.Register.{
  with_registration, send_register, start_registration, stop_registration, conclude_register,
  retry_register, on_register_final,
}
use ketphone.Sip.Message.{Message}

module _ {origin : Origin} (w : World) (a : UserAgent) (k : KeepsContract origin a) where
  pub send_request_under-KeepsContract :
      (r : Request) (now : Time) (f : OnFinal) (p : OnProvisional) (branch : Bytes)
      → HasBranch f
      → KeepsContract origin (send_request_under a r now f p branch)
  unfolding send_request_under send_raw
  send_request_under-KeepsContract r now f p branch h = record {
    kept = Keeps-send _ k.kept;
    pending = put-ArePending _ _ a.transactions h k.pending;
    same = k.same;
  }

  pub send_request-KeepsContract :
      (r : Request) (now : Time) (f : OnFinal) (p : OnProvisional)
      → HasBranch f
      → KeepsContract origin (send_request w a r now f p)
  unfolding send_request send_request_under draw_branch draw_hex send_raw
  send_request-KeepsContract r now f p h = record {
    kept = Keeps-send _ k.kept;
    pending = put-ArePending _ _ a.transactions h k.pending;
    same = k.same;
  }

  pub send_register-KeepsContract :
      (expires : ℕ) (line : Bytes) (now : Time)
      → KeepsContract origin (send_register w a expires line now)
  unfolding send_register send_request send_request_under draw_branch draw_hex send_raw
  send_register-KeepsContract expires line now = record {
    kept = Keeps-send _ k.kept;
    pending = put-ArePending _ _ a.transactions tt k.pending;
    same = k.same;
  }

  pub authorization_for-KeepsContract :
      (response : Message) (method uri : Bytes)
      → KeepsContract origin (authorization_for w a response method uri).0
  unfolding authorization_for
  authorization_for-KeepsContract response method uri = ground arith

  retry_register-KeepsContract :
      (response : Option Message) (authenticated : Bool)
      → KeepsContract origin (retry_register w a response authenticated).0
  unfolding retry_register
  retry_register-KeepsContract none authenticated = k
  retry_register-KeepsContract (some response) authenticated = ground (
    arith,
    authorization_for-KeepsContract response (codes "REGISTER")
        (codes "sip:" ++ sip_host a.config.domain),
  )

pub start_registration-KeepsContract :
    {origin : Origin}
    → (w : World) (a : UserAgent) (now : Time) → KeepsContract origin a
    → KeepsContract origin (start_registration w a now)
unfolding start_registration
start_registration-KeepsContract w a now k =
    let wanted =
      with_registration a (record (a.registration) { wanted = true; next_attempt = none }) in
    ground (
      arith,
      send_register-KeepsContract w wanted
          (record { kept = k.kept; pending = k.pending; same = k.same }) a.config.register_expires
          [] now,
    )

pub stop_registration-KeepsContract :
    {origin : Origin}
    → (w : World) (a : UserAgent) (now : Time) → KeepsContract origin a
    → KeepsContract origin (stop_registration w a now)
unfolding stop_registration
stop_registration-KeepsContract w a now k =
    let stopped =
      with_registration a
        (record (a.registration) { wanted = false; next_attempt = none; registered = false }) in
    ground (
      arith,
      send_register-KeepsContract w stopped
          (record { kept = k.kept; pending = k.pending; same = k.same }) 0 [] now,
    )

conclude_register-KeepsContract :
    {origin : Origin}
    → (w : World) (a : UserAgent) (response : Option Message) (expires : ℕ) (now : Time)
    → KeepsContract origin a
    → KeepsContract origin (conclude_register w a response expires now)
unfolding conclude_register emit
conclude_register-KeepsContract w a response expires now k =
    ground (arith, send_register-KeepsContract w a k 0 [] now)

pub on_register_final-KeepsContract :
    {origin : Origin}
    → (w : World) (a : UserAgent) (response : Option Message) (expires : ℕ) (authenticated : Bool)
      (now : Time)
    → KeepsContract origin a
    → KeepsContract origin (on_register_final w a response expires authenticated now)
unfolding on_register_final
on_register_final-KeepsContract {origin} w a response expires authenticated now k =
    let landed : UserAgent = with_registration a (record (a.registration) { in_flight = false }) in
    let tried =
      retry_register-KeepsContract w landed
        (record { kept = k.kept; pending = k.pending; same = k.same }) response authenticated in
    option_case (KeepsContract origin) (retry_register w landed response authenticated).1
      (λ _. conclude_register-KeepsContract w _ response expires now tried)
      (λ line _. send_register-KeepsContract w _ tried expires line now)
