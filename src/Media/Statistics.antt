-- ===== src/Media/Statistics.antt =====
-- src/media/rtp.cpp, ReceiveStatistics. Sequence numbers and clocks wrap as in the source; the
-- 64-bit counters are plain numbers. Floating point enters through `Floats`.
pub mod Extend
use ketphone.Base.{
  ℕ, suc, ◌+◌, ◌-◌, ◌*◌, ◌/◌, ◌%◌, ◌^◌, Bool, true, false, ltb, if◌then◌else◌, ℤ, pos, negsuc,
  pos_part, ◌+ℤ◌, ◌-ℤ◌, ltb_ℤ, max_ℤ,
}

-- What the source uses of `double`.
pub record Floats : Type 1 where
  pub Double : Type 0
  pub zero : Double
  pub of_int : ℤ → Double
  pub abs : Double → Double
  pub add : Double → Double → Double
  pub sub : Double → Double → Double
  pub div : Double → Double → Double

pub record ReceiveStatistics (F : Floats) : Type 0 where
  pub started : Bool
  pub base : ℤ
  pub highest : ℤ
  pub received : ℕ
  pub last_transit : ℕ
  pub jitter : F.Double

pub initial_statistics : (F : Floats) → ReceiveStatistics F
initial_statistics F = record {
  started = false;
  base = pos 0;
  highest = pos 0;
  received = 0;
  last_transit = 0;
  jitter = F.zero;
}

-- kMaxDropout.
abbrev max_dropout : ℤ
max_dropout = pos 3000

-- `highest & ~0xffff` on two's complement: down to a multiple of 65536.
cycle_of : ℤ → ℤ
cycle_of (pos n) = pos (n / 65536 * 65536)
cycle_of (negsuc n) = negsuc (n / 65536 * 65536 + 65535)

-- The place of a sequence number in the 65536 wide window around the highest one.
pub extend : ℤ → ℕ → ℤ
unfolding cycle_of
extend highest sequence =
    let first = cycle_of highest +ℤ pos sequence in
    let lowered = if ltb_ℤ (pos 32768) (first -ℤ highest) then first -ℤ pos 65536 else first in
    if ltb_ℤ (pos 32768) (highest -ℤ lowered) then lowered +ℤ pos 65536 else lowered

-- llabs(extended - highest) > kMaxDropout.
abbrev jumps : ℤ → ℤ → Bool
jumps highest extended = ltb_ℤ max_dropout (max_ℤ (extended -ℤ highest) (highest -ℤ extended))

-- The int32_t of a uint32_t.
abbrev signed32 : ℕ → ℤ
signed32 w = if ltb w (2 ^ 31) then pos w else negsuc (2 ^ 32 - w - 1)

module _ (F : Floats) where
  open F use {of_int, abs, add, sub, div}

  -- The sequence part of on_packet, before the packet is counted.
  track : ReceiveStatistics F → ℕ → ReceiveStatistics F × ℤ
  unfolding extend
  track s sequence =
      let extended = extend s.highest sequence in
      if s.started
      then (if jumps s.highest extended
          then (record s { base = extended; highest = extended; received = 0 }, extended)
          else (record s { highest = max_ℤ s.highest extended }, extended))
      else (record s { started = true; base = pos sequence; highest = pos sequence }, pos sequence)

  -- The jitter part, on a statistic that has counted the packet.
  measure : ReceiveStatistics F → ℕ → ReceiveStatistics F
  measure s transit =
      let delta = signed32 ((transit + 2 ^ 32 - s.last_transit) % 2 ^ 32) in
      record s {
        last_transit = transit;
        jitter =
            if ltb 1 s.received
            then add s.jitter (div (sub (abs (of_int delta)) s.jitter) (of_int (pos 16)))
            else s.jitter;
      }

  pub on_packet : ReceiveStatistics F → ℕ → ℕ → ℕ → ReceiveStatistics F × ℤ
  unfolding track measure
  on_packet s sequence timestamp arrival =
      let (tracked, extended) = track s sequence in
      let counted = record tracked { received = suc tracked.received } in
      (measure counted ((arrival + 2 ^ 32 - timestamp) % 2 ^ 32), extended)

  -- The int64_t comparison of `expected` and `received`.
  pub lost : ReceiveStatistics F → ℕ
  lost s =
      let expected = s.highest -ℤ s.base +ℤ pos 1 in
      let missing = expected -ℤ pos s.received in
      if s.started then (if ltb_ℤ (pos s.received) expected then pos_part missing else 0) else 0
