-- ===== src/Core.antt =====
-- src/core/user_agent.cpp: the SIP user agent, a single-threaded state machine. `Types` has its
-- state; `Wire` builds what it sends; `Host` has the calls that it makes of its surroundings;
-- `Register`, `Outgoing`, `Incoming` and `Dispatch` have its operations.
pub mod Types
pub mod Host
pub mod Wire
pub mod Contract
pub mod Register
pub mod Outgoing
pub mod Incoming
pub mod Dispatch
pub mod Run
