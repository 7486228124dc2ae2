-- ===== src/Engine/Commands/Answers.antt =====
-- The answers to the commands that are run.
use ketphone.Base.{ℕ, ◌+◌, List, [], ◌∷◌, ◌++◌, ◌≡◌, refl, ◌∙◌, arith, length, length-append}
use ketphone.Core.Incoming.{shutdown}
use ketphone.Core.Types.{World, UserAgent, Time}
use ketphone.Engine.Commands.{perform, perform_all, run_commands}
use ketphone.Engine.Media.{Surroundings}
use ketphone.Engine.State.{
  Engine, Command, registers, unregisters, stops, calls, answers, hangs_up, rejects, drive_only,
  deliver_events,
}
use ketphone.Engine.State.Books.{IsSameBooks, drive-IsSameBooks}
use ketphone.Media.Srtp.{Libsrtp}
use ketphone.Media.Statistics.{Floats}

module _ {F : Floats} {L : Libsrtp} where
  perform-IsSameBooks :
      (s : Surroundings) (e : Engine F L) (now : Time) (c : Command)
      → IsSameBooks e (perform s e now c).0
  unfolding perform drive_only
  perform-IsSameBooks s e now registers = drive-IsSameBooks s e now _
  perform-IsSameBooks s e now unregisters = drive-IsSameBooks s e now _
  perform-IsSameBooks s e now stops =
      let stopped =
        drive-IsSameBooks s e now (λ (w : World) (a : UserAgent). (shutdown w a now, tt)) in
      record {
        queue = stopped.queue;
        answered = stopped.answered;
        closed = stopped.closed;
        tls = stopped.tls;
      }
  perform-IsSameBooks s e now (calls id target) = drive-IsSameBooks s e now _
  perform-IsSameBooks s e now (answers id) = drive-IsSameBooks s e now _
  perform-IsSameBooks s e now (hangs_up id) = drive-IsSameBooks s e now _
  perform-IsSameBooks s e now (rejects id status) = drive-IsSameBooks s e now _

  -- After commands that were run: as many more answers.
  pub record HasAnswered (e f : Engine F L) (count : ℕ) : Type 0 where
    pub queue : f.queue ≡ e.queue
    pub answered : length f.answered ≡ length e.answered + count
    pub closed : f.closed ≡ e.closed
    pub tls : f.tls ≡ e.tls

  perform_all-HasAnswered :
      (s : Surroundings) (e : Engine F L) (now : Time) (cs : List Command)
      → HasAnswered e (perform_all s e now cs) (length cs)
  unfolding perform_all deliver_events
  perform_all-HasAnswered s e now [] = record {
    queue = refl;
    answered = omega arith;
    closed = refl;
    tls = refl;
  }
  perform_all-HasAnswered s e now (c ∷ cs) =
      let (f, result) = perform s e now c in
      let one = perform-IsSameBooks s e now c in
      let rest =
        perform_all-HasAnswered s
          (deliver_events (record f { answered = f.answered ++ result ∷ [] })) now cs in
      let grown = length-append f.answered (result ∷ []) in
      record {
        queue = rest.queue ∙ one.queue;
        answered =
            rest.answered ∙ rw one.answered (omega (arith, length-append e.answered (result ∷ [])));
        closed = rest.closed ∙ one.closed;
        tls = rest.tls ∙ one.tls;
      }

  pub run_commands-HasAnswered :
      (s : Surroundings) (e : Engine F L) (now : Time)
      → let f = run_commands s e now in
        (f.queue ≡ [])
        × (length f.answered ≡ length e.answered + length e.queue)
        × (f.closed ≡ e.closed)
        × (f.tls ≡ e.tls)
  unfolding run_commands
  run_commands-HasAnswered s e now =
      let ran = perform_all-HasAnswered s (record e { queue = [] }) now e.queue in
      (ran.queue, ran.answered, ran.closed, ran.tls)
