-- ===== src/Core/Run/Contract.antt =====
-- The contract with the host, over every run.
use ketphone.Base.{List, [], ◌∷◌, ◌≡◌, refl, some}
use ketphone.Core.Contract.{
  Origin, KeepsContract, media_state, host_after, idle, IsSound, IsSound-of,
}
use ketphone.Core.Types.{World, UserAgent, UserAgentConfig, Time, Call}
use ketphone.Core.Host.{take_events}
use ketphone.Core.Register.{init}
use ketphone.Core.Dispatch.Contract.{on_message-KeepsContract}
use ketphone.Core.Dispatch.Timers.{
  on_timer-KeepsContract, on_transport_down-KeepsContract, on_transport_up-KeepsContract,
}
use ketphone.Core.Incoming.Answer.{answer-KeepsContract}
use ketphone.Core.Incoming.Commands.{
  reject-KeepsContract, hangup-KeepsContract, shutdown-KeepsContract,
}
use ketphone.Core.Outgoing.Place.{call-KeepsContract}
use ketphone.Core.Register.Contract.{
  start_registration-KeepsContract, stop_registration-KeepsContract,
}
use ketphone.Core.Run.{
  Input, arrives, timer_fires, registers, unregisters, shuts_down, connection_lost, connection_up,
  events_taken, calls, answers, hangs_up, rejects, step, run,
}

pub init-KeepsContract :
    (w : World) (config : UserAgentConfig)
    → KeepsContract (record { settings = config; media = idle }) (init w config)
unfolding init host_after
init-KeepsContract w config = record {
  kept = record { host = refl; sound = tt };
  pending = tt;
  same = refl;
}

pub take_events-KeepsContract :
    {origin : Origin} (a : UserAgent)
    → KeepsContract origin a
    → KeepsContract origin (take_events a).0
unfolding take_events
take_events-KeepsContract a k = record { kept = k.kept; pending = k.pending; same = k.same }

-- Every public method, whatever it is given, keeps the contract with the host: the media socket is
-- opened only while none is open, media starts and the socket closes only while it is open, media
-- starts only with keys where the account wants SRTP, and the socket is open exactly if the call
-- that the agent holds says so.
pub step-KeepsContract :
    {origin : Origin} (w : World) (a : UserAgent) (now : Time) (i : Input)
    → KeepsContract origin a
    → KeepsContract origin (step w a now i)
unfolding step
step-KeepsContract w a now (arrives datagram) k = on_message-KeepsContract w a datagram now k
step-KeepsContract w a now timer_fires k = on_timer-KeepsContract w a now k
step-KeepsContract w a now registers k = start_registration-KeepsContract w a now k
step-KeepsContract w a now unregisters k = stop_registration-KeepsContract w a now k
step-KeepsContract w a now shuts_down k = shutdown-KeepsContract w a now k
step-KeepsContract w a now connection_lost k = on_transport_down-KeepsContract w a now k
step-KeepsContract w a now connection_up k = on_transport_up-KeepsContract w a now k
step-KeepsContract w a now events_taken k = take_events-KeepsContract a k
step-KeepsContract w a now (calls id target) k = call-KeepsContract w a id target now k
step-KeepsContract w a now (answers id) k = answer-KeepsContract w a id now k
step-KeepsContract w a now (hangs_up id) k = hangup-KeepsContract w a id now k
step-KeepsContract w a now (rejects id status) k = reject-KeepsContract a id status k

run-KeepsContract :
    {origin : Origin} (w : World) (a : UserAgent) (inputs : List (Time × Input))
    → KeepsContract origin a
    → KeepsContract origin (run w a inputs)
unfolding run
run-KeepsContract w a [] k = k
run-KeepsContract w a ((now, i) ∷ rest) k =
    run-KeepsContract w (step w a now i) rest (step-KeepsContract w a now i k)

-- In every run of a new agent, whatever arrives and is asked for, the calls of the host so far leave
-- its media socket in the state that goes with the agent's call: open if there is a call with media,
-- else closed. So the agent never opens a second socket, never starts media or closes the socket
-- without one, never starts plain media under SRTP, and leaves no socket open behind a call.
pub run-host :
    (w : World) (config : UserAgentConfig) (inputs : List (Time × Input))
    → let a = run w (init w config) inputs in
      host_after a.config.srtp idle a.log ≡ media_state a.call
run-host w config inputs = (run-KeepsContract w _ inputs (init-KeepsContract w config)).kept.host

-- In every run of a new agent the call that it holds is well formed: one that rings is incoming, has
-- its INVITE and an offer that suits this side, and no media, every other call has media, and a
-- CANCEL went out only after it was asked for and a provisional response came.
pub run-IsSound :
    (w : World) (config : UserAgentConfig) (inputs : List (Time × Input)) (c : Call)
    → (run w (init w config) inputs).call ≡ some c
    → IsSound (run w (init w config) inputs).config c
run-IsSound w config inputs c e =
    IsSound-of _ (run-KeepsContract w _ inputs (init-KeepsContract w config)) e
