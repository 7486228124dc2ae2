-- ===== src/Media/Jitter/Delay.antt =====
-- The delay that the jitter buffer aims for.
use ketphone.Base.{
  ◌≡◌, arith, ℤ, pos, ◌+ℤ◌, ◌-ℤ◌, ◌≤ℤ◌, int_laws, clamp_ℤ, max_ℤ, if_case, if◌then◌else◌, ltb, ◌==◌,
}
use ketphone.Media.Jitter.{
  JitterBuffer, target_delay_us, desired_offset_us, margin_us, max_delay_us, fastest_of, samples,
  percentile_of, warmup,
}

-- From 10 ms to 300 ms.
abbrev pub IsDelay : ℤ → Type 0
IsDelay d = (pos 10_000 ≤ℤ d) × (d ≤ℤ pos 300_000)

pub clamp-IsDelay : (d : ℤ) → IsDelay (clamp_ℤ d margin_us max_delay_us)
clamp-IsDelay d = ground arith

cancel : (f d : ℤ) → (f +ℤ d) -ℤ f ≡ d
cancel f d = grind int_laws

-- The delay before it is clamped.
delay_of : JitterBuffer → ℤ
delay_of b =
    let spread = percentile_of b -ℤ fastest_of (samples b) +ℤ margin_us in
    if ltb b.window_count warmup then max_ℤ spread b.initial_delay_us else spread

pub target_delay_us-IsDelay :
    (b : JitterBuffer) → IsDelay b.initial_delay_us → IsDelay (target_delay_us b)
unfolding delay_of target_delay_us desired_offset_us
target_delay_us-IsDelay b i =
    if_case IsDelay (b.window_count == 0) (λ _. i)
      λ _.
        rw (cancel (fastest_of (samples b)) (clamp_ℤ (delay_of b) margin_us max_delay_us))
          (clamp-IsDelay (delay_of b))
