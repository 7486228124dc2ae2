-- ===== src/Media/Jitter/Fuel.antt =====
-- The loop of pop that skips and drops, and its fuel.
use ketphone.Base.{
  ℕ, zero, suc, ◌*◌, ◌≤◌, ◌≡◌, refl, sym, arith, false, ◌&&◌, not, ℤ, pos, pos_part, ◌+ℤ◌, ◌-ℤ◌,
  ltb_ℤ, int_laws, is_empty, is_some, leb, if◌then◌else◌,
}
use ketphone.Media.Jitter.{
  JitterBuffer, shrink, shrink_fuel, frame_us, find_frame, erase_frame, pops_between_drops,
}

less_by_frame :
    (limit offset : ℤ) (m : ℕ)
    → pos_part (offset -ℤ limit) ≤ 20_000 * suc m
    → pos_part (offset -ℤ frame_us -ℤ limit) ≤ 20_000 * m
less_by_frame limit offset m h = grind int_laws

not_late : (limit offset : ℤ) → pos_part (offset -ℤ limit) ≤ 0 → ltb_ℤ limit offset ≡ false
not_late limit offset h = grind int_laws

shrink_at_limit :
    (n : ℕ) (limit : ℤ) (b : JitterBuffer) (next offset : ℤ)
    → ltb_ℤ limit offset ≡ false
    → shrink n limit b next offset ≡ (b, next)
unfolding shrink
shrink_at_limit zero limit b next offset h = refl
shrink_at_limit (suc n) limit b next offset h = rw h refl

shrink_fuels :
    (m n : ℕ) (limit : ℤ) (b : JitterBuffer) (next offset : ℤ)
    → pos_part (offset -ℤ limit) ≤ 20_000 * m
    → pos_part (offset -ℤ limit) ≤ 20_000 * n
    → shrink m limit b next offset ≡ shrink n limit b next offset
unfolding shrink
shrink_fuels zero n limit b next offset h k =
    sym (shrink_at_limit n limit b next offset (not_late limit offset (omega arith)))
shrink_fuels (suc m) zero limit b next offset h k =
    shrink_at_limit (suc m) limit b next offset (not_late limit offset (omega arith))
shrink_fuels (suc m) (suc n) limit b next offset h k =
    let lower = less_by_frame limit offset m h in
    let lower_too = less_by_frame limit offset n k in
    let skip =
      shrink_fuels m n limit (record b { skipped = suc b.skipped }) (next +ℤ pos 1)
        (offset -ℤ frame_us) lower lower_too in
    let drop =
      shrink_fuels m n limit
        (record b {
          frames = erase_frame next b.frames;
          dropped = suc b.dropped;
          pops_since_drop = 0;
        })
        (next +ℤ pos 1) (offset -ℤ frame_us) lower lower_too in
    λ i.
      if ltb_ℤ limit offset && not (is_empty b.frames)
      then (if not (is_some (find_frame next b.frames))
          then skip i
          else if leb pops_between_drops b.pops_since_drop
          then drop i
          else (b, next))
      else (b, next)

-- More fuel than `shrink_fuel` gives does not change what the loop of pop computes, so it ends by its
-- own condition.
pub shrink-shrink_fuel :
    (n : ℕ) (limit : ℤ) (b : JitterBuffer) (next offset : ℤ)
    → shrink_fuel limit offset ≤ n
    → shrink n limit b next offset ≡ shrink (shrink_fuel limit offset) limit b next offset
shrink-shrink_fuel n limit b next offset h =
    shrink_fuels n (shrink_fuel limit offset) limit b next offset (omega arith) (omega arith)
