-- ===== src/Core/Register/Final.antt =====
-- What the final response to a REGISTER leaves.
use ketphone.Base.{
  ℕ, ◌+◌, ◌≤◌, ◌≡◌, ◌≢◌, refl, arith, Bool, true, false, Option, none, some, if_case, subst, sym,
  ap, ◌∙◌, not, ◌==◌, ◌&&◌, ◌||◌, ==_iff, Bytes,
}
use ketphone.Core.Types.{World, UserAgent, UserAgentConfig, Time, minimum_refresh, Registration}
use ketphone.Core.Register.{
  on_register_final, start_registration, stop_registration, send_register, conclude_register,
  retry_register, settled, is_success, status_of, refresh_after, with_registration,
}
use ketphone.Core.Host.{emit, send_raw, draw_hex}
use ketphone.Core.Wire.{send_request, send_request_under, draw_branch}
use ketphone.Sip.Message.{Message}

-- A registration as it is wanted: confirmed by a success, and then not refreshed within five seconds.
pub record IsSettled (r : Registration) (success : Bool) (now : Time) : Type 0 where
  pub landed : r.in_flight ≡ false
  pub confirmed : r.registered ≡ success
  pub pause :
      (at : Time) → r.next_attempt ≡ some at → r.registered ≡ true → now + minimum_refresh ≤ at
  pub again : r.registered ≡ true → r.next_attempt ≢ none

settled-IsSettled :
    (c : UserAgentConfig) (r : Registration) (expires : ℕ) (response : Option Message) (now : Time)
    → r.in_flight ≡ false
    → IsSettled
        (settled c r expires response (status_of response) now)
        (is_success (status_of response))
        now
unfolding settled is_success status_of refresh_after
settled-IsSettled c r expires none now h = ground arith
settled-IsSettled c r expires (some response) now h = ground arith

conclude_register-IsSettled :
    (w : World) (a : UserAgent) (response : Option Message) (expires : ℕ) (now : Time)
    → a.registration.wanted ≡ true
    → a.registration.in_flight ≡ false
    → expires ≢ 0
    → IsSettled
        (conclude_register w a response expires now).registration
        (is_success (status_of response))
        now
unfolding conclude_register emit
conclude_register-IsSettled w a response expires now wanted landed some_time =
    let P = λ (t : UserAgent). IsSettled t.registration (is_success (status_of response)) now in
    if_case P (expires == 0) (λ zero_time. absurd (some_time ((==_iff expires 0).0 zero_time)))
      λ _.
        if_case P (not a.registration.wanted) (λ unwanted. ground arith)
          λ _. settled-IsSettled a.config a.registration expires response now landed

retry_register-true :
    (w : World) (a : UserAgent) (response : Option Message)
    → retry_register w a response true ≡ (a, none)
unfolding retry_register
retry_register-true w a none = refl
retry_register-true w a (some response) =
    if_case (λ (r : UserAgent × Option Bytes). r ≡ (a, none))
      ((response.status == 401 || response.status == 407) && not true) (λ challenged. ground arith)
      (λ _. refl)

-- Where registration is wanted, the final response to a REGISTER that asked for some time and carried
-- credentials, or the lack of one, leaves no REGISTER in flight; the agent counts as registered just
-- if the response is a success, and then it registers again, at least five seconds later.
pub on_register_final-IsSettled :
    (w : World) (a : UserAgent) (response : Option Message) (expires : ℕ) (now : Time)
    → a.registration.wanted ≡ true
    → expires ≢ 0
    → IsSettled
        (on_register_final w a response expires true now).registration
        (is_success (status_of response))
        now
unfolding on_register_final
on_register_final-IsSettled w a response expires now wanted some_time =
    let landed = with_registration a (record (a.registration) { in_flight = false }) in
    let next = λ (r : UserAgent × Option Bytes). (elim r.1 as (λ _. UserAgent) [
      | some line ↦ send_register w r.0 expires line now
      | none ↦ conclude_register w r.0 response expires now
    ]) in
    subst (λ r. IsSettled (next r).registration (is_success (status_of response)) now)
      (sym (retry_register-true w landed response))
      (conclude_register-IsSettled w landed response expires now wanted refl some_time)

retry_register-plain :
    (w : World) (a : UserAgent) (response : Option Message)
    → status_of response ≢ 401
    → status_of response ≢ 407
    → retry_register w a response false ≡ (a, none)
unfolding retry_register status_of
retry_register-plain w a none h k = refl
retry_register-plain w a (some response) h k =
    if_case (λ (r : UserAgent × Option Bytes). r ≡ (a, none))
      ((response.status == 401 || response.status == 407) && not false)
      (λ challenged. absurd (ground (arith, challenged, h, k))) (λ _. refl)

unregistered :
    (w : World) (a : UserAgent) (response : Option Message) (now : Time)
    → status_of response ≢ 401
    → status_of response ≢ 407
    → on_register_final w a response 0 false now
      ≡ with_registration a (record (a.registration) { in_flight = false })
unfolding on_register_final conclude_register
unregistered w a response now h k =
    let landed = with_registration a (record (a.registration) { in_flight = false }) in
    let next = λ (r : UserAgent × Option Bytes). (elim r.1 as (λ _. UserAgent) [
      | some line ↦ send_register w r.0 0 line now
      | none ↦ conclude_register w r.0 response 0 now
    ]) in
    ap next (retry_register-plain w landed response h k)

start_in_flight :
    (w : World) (a : UserAgent) (now : Time)
    → a.shutting_down ≡ false
    → a.registration.in_flight ≡ true
    → start_registration w a now
      ≡ with_registration a (record (a.registration) { wanted = true; next_attempt = none })
unfolding start_registration
start_in_flight w a now up flying = rw (up, flying) refl

record IsStopped (a : UserAgent) : Type 0 where
  up : a.shutting_down ≡ false
  flying : a.registration.in_flight ≡ true
  off : a.registration.registered ≡ false

stop_registration-IsStopped :
    (w : World) (a : UserAgent) (now : Time)
    → a.shutting_down ≡ false
    → a.registration.registered ≡ true
    → IsStopped (stop_registration w a now)
unfolding stop_registration send_register send_request draw_branch draw_hex send_request_under
    send_raw
stop_registration-IsStopped w a now up held =
    if_case IsStopped (a.registration.registered || a.registration.in_flight)
      (λ _. record { up = up; flying = refl; off = refl }) (λ neither. ground arith)

-- Registration is wanted, and nothing is done or planned for it.
pub record IsForgotten (r : Registration) : Type 0 where
  pub wanted : r.wanted ≡ true
  pub off : r.registered ≡ false
  pub landed : r.in_flight ≡ false
  pub unplanned : r.next_attempt ≡ none

-- Where a registered agent that is not shutting down stops and starts again before the
-- unregistration is answered, and the answer is no challenge (401 or 407), or does not come, then it
-- is left unregistered although registration is wanted, with no REGISTER in flight and none planned;
-- and since the unregistration it sent nothing.
pub on_register_final-restart :
    (w : World) (a : UserAgent) (response : Option Message) (stop_at start_at now : Time)
    → a.shutting_down ≡ false
    → a.registration.registered ≡ true
    → status_of response ≢ 401
    → status_of response ≢ 407
    → let stopped = stop_registration w a stop_at in
      let started = start_registration w stopped start_at in
      let after = on_register_final w started response 0 false now in
      (after.log ≡ stopped.log) × IsForgotten after.registration
on_register_final-restart w a response stop_at start_at now up held h k =
    let stopped = stop_registration w a stop_at in
    let v = stop_registration-IsStopped w a stop_at up held in
    let wanted : UserAgent =
      with_registration stopped
        (record (stopped.registration) { wanted = true; next_attempt = none }) in
    let answered =
      ap (λ (t : UserAgent). on_register_final w t response 0 false now)
        (start_in_flight w stopped start_at v.up v.flying)
      ∙ unregistered w wanted response now h k in
    subst (λ (t : UserAgent). (t.log ≡ stopped.log) × IsForgotten t.registration) (sym answered)
      (refl, record { wanted = refl; off = v.off; landed = refl; unplanned = refl })
