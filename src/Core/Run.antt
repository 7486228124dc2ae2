-- ===== src/Core/Run.antt =====
-- The user agent as its owner (src/core/engine.cpp, the tests) drives it: one call of a public method
-- of src/core/user_agent.hpp after another, each at its time.
pub mod Contract
pub mod Commands
mod Checks
use ketphone.Base.{ℕ, List, [], ◌∷◌, Bytes}
use ketphone.Core.Types.{World, UserAgent, Time}
use ketphone.Core.Dispatch.{on_message, on_timer, on_transport_down, on_transport_up}
use ketphone.Core.Host.{take_events}
use ketphone.Core.Incoming.{answer, reject, hangup, shutdown}
use ketphone.Core.Outgoing.{call}
use ketphone.Core.Register.{start_registration, stop_registration}

pub data Input : Type 0 where
  arrives : Bytes → Input
  timer_fires registers unregisters shuts_down connection_lost connection_up events_taken : Input
  calls : ℕ → Bytes → Input
  answers hangs_up : ℕ → Input
  rejects : ℕ → ℕ → Input

unfoldable pub step : World → UserAgent → Time → Input → UserAgent
step w a now (arrives datagram) = on_message w a datagram now
step w a now timer_fires = on_timer w a now
step w a now registers = start_registration w a now
step w a now unregisters = stop_registration w a now
step w a now shuts_down = shutdown w a now
step w a now connection_lost = on_transport_down w a now
step w a now connection_up = on_transport_up w a now
step w a now events_taken = (take_events a).0
step w a now (calls id target) = (call w a id target now).0
step w a now (answers id) = (answer w a id now).0
step w a now (hangs_up id) = (hangup w a id now).0
step w a now (rejects id status) = (reject a id status).0

unfoldable pub run : World → UserAgent → List (Time × Input) → UserAgent
run w a [] = a
run w a ((now, i) ∷ rest) = run w (step w a now i) rest
