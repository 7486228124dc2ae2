-- ===== src/Core/Run/Commands.antt =====
-- The commands of the owner that are refused.
use ketphone.Base.{ℕ, arith, Bytes, ◌≡◌, ◌≢◌}
use ketphone.Core.Types.{World, UserAgent, Time, ok}
use ketphone.Core.Incoming.{answer, reject, hangup}
use ketphone.Core.Outgoing.{call}

-- A command that is not accepted leaves the agent as it was: nothing is sent, no event is queued,
-- and no socket is touched.
pub refused_command :
    (w : World) (a : UserAgent) (id status : ℕ) (target : Bytes) (now : Time)
    → ((call w a id target now).1 ≢ ok → (call w a id target now).0 ≡ a)
      × ((answer w a id now).1 ≢ ok → (answer w a id now).0 ≡ a)
      × ((reject a id status).1 ≢ ok → (reject a id status).0 ≡ a)
      × ((hangup w a id now).1 ≢ ok → (hangup w a id now).0 ≡ a)
unfolding call answer reject hangup
refused_command w a id status target now =
    (λ h. ground arith, λ h. ground arith, λ h. ground arith, λ h. ground arith)
