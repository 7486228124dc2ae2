-- ===== src/Engine/Commands/Audio.antt =====
-- The samples that the audio thread gets.
use ketphone.Base.{
  ℕ, ◌-◌, ◌≤◌, ◌≡◌, arith, length, length-append, length-replicate, replicate, drop, drop-append,
  take, take-append, refl, pos,
}
use ketphone.Engine.Commands.{playout}
use ketphone.Engine.State.{Engine}
use ketphone.Media.Ring
use ketphone.Media.Ring.Window.{length-pop}
use ketphone.Media.Srtp.{Libsrtp}
use ketphone.Media.Statistics.{Floats}

module _ {F : Floats} {L : Libsrtp} where
  -- Playout gives exactly as many samples as were asked for: first those that pop
  -- takes off the playout ring, which is left as pop leaves it, and behind them nothing but silence.
  pub playout-length :
      (e : Engine F L) (count : ℕ)
      → let (f, samples, real) = playout e count in
        let (ring, taken) = Ring.pop (pos 0) e.media.session.playout count in
        (length samples ≡ count)
        × (real ≤ count)
        × (take real samples ≡ taken)
        × (f.media.session.playout ≡ ring)
        × (drop real samples ≡ replicate (count - real) (pos 0))
  unfolding playout
  playout-length e count =
      let real = (Ring.pop (pos 0) e.media.session.playout count).1 in
      let silence = replicate (count - length real) (pos 0) in
      let few = length-pop (pos 0) e.media.session.playout count in
      (
        omega (
          arith,
          length-append real silence,
          length-replicate (count - length real) (pos 0),
          few,
        ),
        few,
        take-append real silence,
        refl,
        drop-append real silence,
      )
