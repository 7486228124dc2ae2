-- ===== src/Engine/Commands/Keeps.antt =====
-- The commands of the API and what an engine keeps.
use ketphone.Base.{List, [], ◌∷◌, ◌++◌, refl, ◌∙◌, ◌≡◌, if_case, Bytes}
use ketphone.Core.Incoming.Answer.{answer-KeepsContract}
use ketphone.Core.Incoming.Commands.{
  reject-KeepsContract, hangup-KeepsContract, shutdown-KeepsContract,
}
use ketphone.Core.Outgoing.Place.{call-KeepsContract}
use ketphone.Core.Register.Contract.{
  start_registration-KeepsContract, stop_registration-KeepsContract,
}
use ketphone.Core.Types.{Time}
use ketphone.Engine.Commands.{submit, place_call, perform, perform_all, run_commands, close_queue}
use ketphone.Engine.Media.{Surroundings}
use ketphone.Engine.State.{
  Engine, Command, registers, unregisters, stops, calls, answers, hangs_up, rejects, drive_only,
  deliver_events,
}
use ketphone.Engine.State.Invariant.{
  IsEngine, drive-IsEngine, drive_only-IsEngine, deliver_events-IsEngine,
}
use ketphone.Engine.State.Sends.{drive-IsSameLink}
use ketphone.Media.Srtp.{Libsrtp}
use ketphone.Media.Statistics.{Floats}

module _ {F : Floats} {L : Libsrtp} where
  -- An engine with the same agent, media and link.
  pub IsEngine-same :
      (e f : Engine F L)
      → f.agent ≡ e.agent
      → f.media ≡ e.media
      → f.link ≡ e.link
      → f.tls ≡ e.tls
      → IsEngine e
      → IsEngine f
  IsEngine-same e f a m l t k = record {
    kept = rw a k.kept;
    emptied = rw a k.emptied;
    wanted = rw (a, t) k.wanted;
    secure = rw (a, m, t) k.secure;
    secret = rw (m, t) k.secret;
    link = rw l k.link;
  }

  pub submit-IsEngine : (e : Engine F L) (c : Command) → IsEngine e → IsEngine (submit e c)
  unfolding submit
  submit-IsEngine e c k =
      if_case IsEngine e.closed (λ _. IsEngine-same e _ refl refl refl refl k)
        (λ _. IsEngine-same e _ refl refl refl refl k)

  pub place_call-IsEngine :
      (e : Engine F L) (target : Bytes) → IsEngine e → IsEngine (place_call e target)
  unfolding place_call
  place_call-IsEngine e target k = submit-IsEngine _ _ (record {
    kept = record { kept = k.kept.kept; pending = k.kept.pending; same = refl };
    emptied = k.emptied;
    wanted = k.wanted;
    secure = k.secure;
    secret = k.secret;
    link = k.link;
  })

  perform-IsEngine :
      (s : Surroundings) (e : Engine F L) (now : Time) (c : Command)
      → IsEngine e
      → IsEngine (perform s e now c).0
  unfolding perform
  perform-IsEngine s e now registers k =
      drive_only-IsEngine s e now _ (λ o w a h. start_registration-KeepsContract w a now h) k
  perform-IsEngine s e now unregisters k =
      drive_only-IsEngine s e now _ (λ o w a h. stop_registration-KeepsContract w a now h) k
  perform-IsEngine s e now stops k =
      IsEngine-same _ _ refl refl refl refl
        (drive_only-IsEngine s e now _ (λ o w a h. shutdown-KeepsContract w a now h) k)
  perform-IsEngine s e now (calls id target) k =
      drive-IsEngine s e now _ (λ o w a h. call-KeepsContract w a id target now h) k
  perform-IsEngine s e now (answers id) k =
      drive-IsEngine s e now _ (λ o w a h. answer-KeepsContract w a id now h) k
  perform-IsEngine s e now (hangs_up id) k =
      drive-IsEngine s e now _ (λ o w a h. hangup-KeepsContract w a id now h) k
  perform-IsEngine s e now (rejects id status) k =
      drive-IsEngine s e now _ (λ o w a h. reject-KeepsContract a id status h) k

  perform_all-IsEngine :
      (s : Surroundings) (e : Engine F L) (now : Time) (cs : List Command)
      → IsEngine e
      → IsEngine (perform_all s e now cs)
  unfolding perform_all
  perform_all-IsEngine s e now [] k = k
  perform_all-IsEngine s e now (c ∷ cs) k =
      let (f, result) = perform s e now c in
      let noted : Engine F L = record f { answered = f.answered ++ result ∷ [] } in
      let kept = perform_all-IsEngine s (deliver_events noted) now cs in
      kept (
        deliver_events-IsEngine noted
          (IsEngine-same f noted refl refl refl refl (perform-IsEngine s e now c k)))

  perform-made :
      (s : Surroundings) (e : Engine F L) (now : Time) (c : Command)
      → (perform s e now c).0.link.made ≡ e.link.made
  unfolding perform drive_only
  perform-made s e now registers = (drive-IsSameLink s e now _).0
  perform-made s e now unregisters = (drive-IsSameLink s e now _).0
  perform-made s e now stops = (drive-IsSameLink s e now _).0
  perform-made s e now (calls id target) = (drive-IsSameLink s e now _).0
  perform-made s e now (answers id) = (drive-IsSameLink s e now _).0
  perform-made s e now (hangs_up id) = (drive-IsSameLink s e now _).0
  perform-made s e now (rejects id status) = (drive-IsSameLink s e now _).0

  perform_all-made :
      (s : Surroundings) (e : Engine F L) (now : Time) (cs : List Command)
      → (perform_all s e now cs).link.made ≡ e.link.made
  unfolding perform_all deliver_events
  perform_all-made s e now [] = refl
  perform_all-made s e now (c ∷ cs) =
      let (f, result) = perform s e now c in
      perform_all-made s (deliver_events (record f { answered = f.answered ++ result ∷ [] })) now cs
      ∙ perform-made s e now c

  -- The commands make no connection.
  pub run_commands-made :
      (s : Surroundings) (e : Engine F L) (now : Time)
      → (run_commands s e now).link.made ≡ e.link.made
  unfolding run_commands
  run_commands-made s e now = perform_all-made s (record e { queue = [] }) now e.queue

  pub run_commands-IsEngine :
      (s : Surroundings) (e : Engine F L) (now : Time)
      → IsEngine e
      → IsEngine (run_commands s e now)
  unfolding run_commands
  run_commands-IsEngine s e now k =
      perform_all-IsEngine s _ now e.queue (IsEngine-same e _ refl refl refl refl k)

  pub close_queue-IsEngine : (e : Engine F L) → IsEngine e → IsEngine (close_queue e)
  unfolding close_queue
  close_queue-IsEngine e k = IsEngine-same e _ refl refl refl refl k
