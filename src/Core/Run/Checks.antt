-- ===== src/Core/Run/Checks.antt =====
-- The theorems on the user agent at concrete runs.
use ketphone.Base.{
  ◌+◌, ◌≡◌, ◌≢◌, refl, arith, true, false, List, [], ◌∷◌, none, some, replicate, subst, sym,
  value_or, codes,
}
use ketphone.Core.Types.{World, UserAgent, UserAgentConfig, Time, Call, blank_call, ok, seconds}
use ketphone.Core.Contract.{host_after, idle, media_state, IsSound}
use ketphone.Core.Register.Final.{
  IsSettled, IsForgotten, on_register_final-IsSettled, on_register_final-restart,
}
use ketphone.Core.Register.{
  start_registration, stop_registration, on_register_final, is_success, status_of, init,
}
use ketphone.Core.Outgoing.{call, send_invite}
use ketphone.Core.Incoming.{answer, reject, hangup, shutdown}
use ketphone.Core.Incoming.Shutdown.{shutdown-call}
use ketphone.Core.Dispatch.{on_timer, next_deadline}
use ketphone.Core.Dispatch.Deadline.{on_timer-next_deadline, IsBefore}
use ketphone.Core.Run.{Input, timer_fires, registers, calls, run, step}
use ketphone.Core.Host.{open_port, new_srtp_key, draw_u32, draw_hex, send_raw}
use ketphone.Core.Wire.{send_request_under, draw_branch, local_sdp_for, put_transaction, reliable}
use ketphone.Sip.Text.{find_first_of, text_eq}
use ketphone.Core.Run.Contract.{run-host, run-IsSound}
use ketphone.Core.Run.Commands.{refused_command}

abbrev some_world : World
some_world = record {
  randomness = record { generator = λ n. n; secure = λ draw size. some (replicate size 7) };
  opens = λ log. 4000;
  starts = λ log remote. true;
}

abbrev some_config : UserAgentConfig
some_config = record {
  domain = codes "pbx.example";
  extension = codes "100";
  password = codes "secret";
  local_address = codes "10.0.0.2";
  local_port = 5060;
  transport = codes "UDP";
  srtp = false;
  register_expires = 300;
  user_agent = codes "ketphone";
  correlation_header = [];
}

abbrev some_inputs : List (Time × Input)
some_inputs =
    (seconds 1, registers) ∷ (seconds 2, calls 1 (codes "200")) ∷ (seconds 3, timer_fires) ∷ []

run-host_example :
    let a = run some_world (init some_world some_config) some_inputs in
    host_after a.config.srtp idle a.log ≡ media_state a.call
run-host_example = run-host some_world some_config some_inputs

refused_command_example :
    let a = init some_world some_config in
    ((call some_world a 1 (codes "a b") 0).1 ≢ ok → (call some_world a 1 (codes "a b") 0).0 ≡ a)
    × ((answer some_world a 1 0).1 ≢ ok → (answer some_world a 1 0).0 ≡ a)
    × ((reject a 1 486).1 ≢ ok → (reject a 1 486).0 ≡ a)
    × ((hangup some_world a 1 0).1 ≢ ok → (hangup some_world a 1 0).0 ≡ a)
refused_command_example =
    refused_command some_world (init some_world some_config) 1 486 (codes "a b") 0

shutdown-call_example :
    (shutdown some_world
      (run some_world (init some_world some_config) some_inputs)
      (seconds 9)).call
    ≡ none
shutdown-call_example =
    shutdown-call some_world (run some_world (init some_world some_config) some_inputs) (seconds 9)

abbrev one_call : UserAgent
one_call = run some_world (init some_world some_config) ((seconds 2, calls 1 (codes "200")) ∷ [])

deadline_of_one_call : next_deadline one_call ≡ some (seconds 2 + 500_000_000)
unfolding run next_deadline call init step find_first_of open_port new_srtp_key draw_u32 draw_hex
    send_invite send_request_under send_raw draw_branch local_sdp_for put_transaction reliable
    text_eq
deadline_of_one_call = refl

on_timer-next_deadline_example : on_timer some_world one_call (seconds 2) ≡ one_call
on_timer-next_deadline_example =
    on_timer-next_deadline some_world one_call (seconds 2)
      (subst (IsBefore (seconds 2)) (sym deadline_of_one_call) (omega arith))

abbrev held_call : Call
held_call = value_or one_call.call blank_call

held : one_call.call ≡ some held_call
unfolding run next_deadline call init step find_first_of open_port new_srtp_key draw_u32 draw_hex
    send_invite send_request_under send_raw draw_branch local_sdp_for put_transaction reliable
    text_eq
held = refl

run-IsSound_example : IsSound one_call.config held_call
run-IsSound_example =
    run-IsSound some_world some_config ((seconds 2, calls 1 (codes "200")) ∷ []) held_call held

abbrev registered_agent : UserAgent
registered_agent =
    let a = init some_world some_config in
    record a { registration = record (a.registration) { wanted = true; registered = true } }

on_register_final-IsSettled_example :
    IsSettled
      (on_register_final some_world registered_agent none 300 true (seconds 33)).registration
      (is_success (status_of none))
      (seconds 33)
unfolding init
on_register_final-IsSettled_example =
    on_register_final-IsSettled some_world registered_agent none 300 (seconds 33) refl (omega arith)

on_register_final-restart_example :
    let stopped = stop_registration some_world registered_agent (seconds 5) in
    let started = start_registration some_world stopped (seconds 6) in
    let after = on_register_final some_world started none 0 false (seconds 37) in
    (after.log ≡ stopped.log) × IsForgotten after.registration
unfolding init status_of
on_register_final-restart_example =
    on_register_final-restart some_world registered_agent none (seconds 5) (seconds 6) (seconds 37)
      refl refl (omega arith) (omega arith)
