-- ===== src/Engine/Life/Answers.antt =====
-- What is asked of an engine and what it answers.
use ketphone.Base.{
  ℕ, suc, ◌+◌, true, [], ◌∷◌, ◌≡◌, refl, sym, ◌∙◌, arith, length, length-append, length-replicate,
  replicate, if_case,
}
use ketphone.Engine.Commands.{submit, place_call, close_queue, capture, playout}
use ketphone.Engine.Commands.Answers.{run_commands-HasAnswered}
use ketphone.Engine.Life.{Reach, begins, asks, dials, records, plays, turns, ends}
use ketphone.Engine.Loop.{Turn, tick}
use ketphone.Engine.Loop.Turned.{tick-IsSameBooks}
use ketphone.Engine.Media.{Surroundings}
use ketphone.Engine.State.{Engine, Command, ApiResult}
use ketphone.Media.Srtp.{Libsrtp}
use ketphone.Media.Statistics.{Floats}

module _ {F : Floats} {L : Libsrtp} where
  -- How many commands were asked for.
  abbrev pub asked : {s : Surroundings} {e f : Engine F L} → Reach s e f → ℕ
  asked begins = 0
  asked (asks c r) = suc (asked r)
  asked (dials target r) = suc (asked r)
  asked (records samples r) = asked r
  asked (plays count r) = asked r
  asked (turns t heard r) = asked r
  asked (ends r) = asked r

  -- Commands that are answered or wait, against those of another engine and so many more.
  pub record IsBooked (e f : Engine F L) (count : ℕ) : Type 0 where
    pub counted : length f.answered + length f.queue ≡ length e.answered + length e.queue + count
    pub settled : (e.closed ≡ true → e.queue ≡ []) → f.closed ≡ true → f.queue ≡ []
    pub tls : f.tls ≡ e.tls

  submit-IsBooked : (e : Engine F L) (c : Command) → IsBooked e (submit e c) 1
  unfolding submit
  submit-IsBooked e c =
      if_case (λ (f : Engine F L). IsBooked e f 1) e.closed
        (λ over. record {
          counted = omega (arith, length-append e.answered (ApiResult.state_error ∷ []));
          settled = λ clean _. clean over;
          tls = refl;
        })
        (λ running. record {
          counted = omega (arith, length-append e.queue (c ∷ []));
          settled = λ _ over. absurd (ground (arith, over, running));
          tls = refl;
        })

  tick-IsBooked : (s : Surroundings) (e : Engine F L) (t : Turn) → IsBooked e (tick s e t) 0
  tick-IsBooked s e t =
      let ran = run_commands-HasAnswered s e t.now in
      let after = tick-IsSameBooks s e t in
      record {
        counted = rw (after.answered, after.queue, ran.0) (omega (arith, ran.1));
        settled = λ clean over. after.queue ∙ ran.0;
        tls = after.tls ∙ ran.3;
      }

  close_queue-IsBooked : (e : Engine F L) → IsBooked e (close_queue e) 0
  unfolding close_queue
  close_queue-IsBooked e = record {
    counted = omega (
      arith,
      length-append e.answered (replicate (length e.queue) ApiResult.state_error),
      length-replicate (length e.queue) ApiResult.state_error,
    );
    settled = λ _ _. refl;
    tls = refl;
  }

  IsBooked-later :
      {e f g : Engine F L} (n m k : ℕ)
      → k ≡ m + n
      → IsBooked e f n
      → IsBooked f g m
      → IsBooked e g k
  IsBooked-later n m k total a b = record {
    counted = omega (arith, a.counted, b.counted, total);
    settled = λ clean. b.settled (a.settled clean);
    tls = b.tls ∙ a.tls;
  }

  same_books :
      (e f : Engine F L)
      → f.queue ≡ e.queue
      → f.answered ≡ e.answered
      → f.closed ≡ e.closed
      → f.tls ≡ e.tls
      → IsBooked e f 0
  same_books e f q a c t = record {
    counted = rw (q, a) (omega arith);
    settled = λ clean over. q ∙ clean (sym c ∙ over);
    tls = t;
  }

  pub Reach-IsBooked :
      (s : Surroundings) (e f : Engine F L) (r : Reach s e f) → IsBooked e f (asked r)
  unfolding place_call capture playout
  Reach-IsBooked s e f begins = same_books e e refl refl refl refl
  Reach-IsBooked s e f (asks {f = g} c r) =
      IsBooked-later (asked r) 1 _ (omega arith) (Reach-IsBooked s e g r) (submit-IsBooked g c)
  Reach-IsBooked s e f (dials {f = g} target r) =
      let numbered : Engine F L = record g {
        agent = record (g.agent) { next_call_id = suc g.agent.next_call_id };
      } in
      IsBooked-later (asked r) 1 _ (omega arith) (Reach-IsBooked s e g r) (
        IsBooked-later 0 1 _ (omega arith) (same_books g numbered refl refl refl refl)
          (submit-IsBooked numbered _))
  Reach-IsBooked s e f (records {f = g} samples r) =
      IsBooked-later (asked r) 0 _ (omega arith) (Reach-IsBooked s e g r)
        (same_books g _ refl refl refl refl)
  Reach-IsBooked s e f (plays {f = g} count r) =
      IsBooked-later (asked r) 0 _ (omega arith) (Reach-IsBooked s e g r)
        (same_books g _ refl refl refl refl)
  Reach-IsBooked s e f (turns {f = g} t heard r) =
      IsBooked-later (asked r) 0 _ (omega arith) (Reach-IsBooked s e g r) (tick-IsBooked s g t)
  Reach-IsBooked s e f (ends {f = g} r) =
      IsBooked-later (asked r) 0 _ (omega arith) (Reach-IsBooked s e g r) (close_queue-IsBooked g)
