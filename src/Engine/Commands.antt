-- ===== src/Engine/Commands.antt =====
-- src/core/engine.cpp, the C API on a running engine: the commands, which wait for the network
-- thread, and the audio. A request to stop counts as one with the result ok.
pub mod Keeps
pub mod Answers
pub mod Audio
use ketphone.Base.{
  ℕ, suc, ◌+◌, ◌-◌, Bool, true, false, List, [], ◌∷◌, ◌++◌, Option, none, some, if◌then◌else◌,
  length, replicate, Bytes, ℤ, pos,
}
use ketphone.Core.Incoming.{answer, reject, hangup, shutdown}
use ketphone.Core.Outgoing.{call}
use ketphone.Core.Register.{start_registration, stop_registration}
use ketphone.Core.Types.{World, UserAgent, CommandResult, EndReason, Time, seconds}
use ketphone.Core.Types
use ketphone.Engine.Media.{EngineMedia, Surroundings}
use ketphone.Engine.State.{
  Engine, Command, registers, unregisters, stops, calls, answers, hangs_up, rejects, ApiResult,
  drive, drive_only, deliver_events,
}
use ketphone.Media.Ring
use ketphone.Media.Session.{MediaStats}
use ketphone.Media.Srtp.{Libsrtp}
use ketphone.Media.Statistics.{Floats}

-- kShutdownGrace.
abbrev pub shutdown_grace : Time
shutdown_grace = seconds 2

abbrev pub to_result : CommandResult → ApiResult
to_result CommandResult.ok = ApiResult.ok
to_result CommandResult.invalid_argument = ApiResult.invalid_argument
to_result CommandResult.state_error = ApiResult.state_error
to_result CommandResult.not_found = ApiResult.not_found

-- The number of an end reason in ketphone_end_reason.
abbrev pub to_c : EndReason → ℕ
to_c EndReason.unspecified = 0
to_c EndReason.local = 1
to_c EndReason.remote_hangup = 2
to_c EndReason.remote_cancelled = 3
to_c EndReason.rejected = 4
to_c EndReason.timeout = 5
to_c EndReason.media_failed = 6
to_c EndReason.shut_down = 7

module _ {F : Floats} {L : Libsrtp} where
  -- The command behind those that wait, or its refusal.
  unfoldable pub submit : Engine F L → Command → Engine F L
  submit e c =
      if e.closed
      then record e { answered = e.answered ++ ApiResult.state_error ∷ [] }
      else record e { queue = e.queue ++ c ∷ [] }

  -- Engine::call, which takes the next number before it waits.
  unfoldable pub place_call : Engine F L → Bytes → Engine F L
  place_call e target =
      let id = e.agent.next_call_id in
      submit (record e { agent = record (e.agent) { next_call_id = suc id } }) (calls id target)

  unfoldable pub perform : Surroundings → Engine F L → Time → Command → Engine F L × ApiResult
  perform s e now registers =
      (drive_only s e now (λ (w : World) (a : UserAgent). start_registration w a now), ApiResult.ok)
  perform s e now unregisters =
      (drive_only s e now (λ (w : World) (a : UserAgent). stop_registration w a now), ApiResult.ok)
  perform s e now stops =
      let stopped = drive_only s e now (λ (w : World) (a : UserAgent). shutdown w a now) in
      (record stopped { stopping = true; stop_deadline = now + shutdown_grace }, ApiResult.ok)
  perform s e now (calls id target) =
      let (f, result) = drive s e now (λ (w : World) (a : UserAgent). call w a id target now) in
      (f, to_result result)
  perform s e now (answers id) =
      let (f, result) = drive s e now (λ (w : World) (a : UserAgent). answer w a id now) in
      (f, to_result result)
  perform s e now (hangs_up id) =
      let (f, result) = drive s e now (λ (w : World) (a : UserAgent). hangup w a id now) in
      (f, to_result result)
  perform s e now (rejects id status) =
      let (f, result) = drive s e now (λ (w : World) (a : UserAgent). reject a id status) in
      (f, to_result result)

  perform_all : Surroundings → Engine F L → Time → List Command → Engine F L
  perform_all s e now [] = e
  perform_all s e now (c ∷ cs) =
      let (f, result) = perform s e now c in
      perform_all s (deliver_events (record f { answered = f.answered ++ result ∷ [] })) now cs

  unfoldable pub run_commands : Surroundings → Engine F L → Time → Engine F L
  unfolding perform_all
  run_commands s e now = perform_all s (record e { queue = [] }) now e.queue

  -- The end of the network thread: what waits is given up, and nothing waits from now on.
  unfoldable pub close_queue : Engine F L → Engine F L
  close_queue e = record e {
    closed = true;
    queue = [];
    answered = e.answered ++ replicate (length e.queue) ApiResult.state_error;
  }

  unfoldable pub capture : Engine F L → List ℤ → Engine F L × ℕ
  capture e samples =
      let (ring, accepted) = Ring.push e.media.session.capture samples in
      (
        record e {
          media = record (e.media) { session = record (e.media.session) { capture = ring } };
        },
        accepted,
      )

  -- The samples to play, silence behind the real ones, and how many are real.
  unfoldable pub playout : Engine F L → ℕ → Engine F L × List ℤ × ℕ
  playout e count =
      let (ring, real) = Ring.pop (pos 0) e.media.session.playout count in
      (
        record e {
          media = record (e.media) { session = record (e.media.session) { playout = ring } };
        },
        real ++ replicate (count - length real) (pos 0),
        length real,
      )

  pub media_stats : Engine F L → MediaStats F
  media_stats e = e.media.stats
