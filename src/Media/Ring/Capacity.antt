-- ===== src/Media/Ring/Capacity.antt =====
-- The capacity of the ring.
use ketphone.Base.{
  ℕ, zero, suc, ◌+◌, ◌*◌, ◌^◌, ◌%◌, sym, ◌≤◌, ◌<◌, ◌≡◌, refl, arith, ltb, if_case, length, ◌∙◌,
  length-replicate, subst, ◌-◌,
}
use ketphone.Media.Ring.{grow, capacity_for, init, capacity}

-- At least what is wanted, less than twice that, and a power of two.
pub record IsCapacity (wanted capacity : ℕ) : Type 0 where
  pub enough : wanted ≤ capacity
  pub least : capacity < 2 * wanted
  pub exponent : ℕ
  pub power : capacity ≡ 2 ^ exponent

power-positive : (e : ℕ) → 1 ≤ 2 ^ e
power-positive zero = omega arith
power-positive (suc e) = omega (arith, power-positive e)

grow-IsCapacity :
    (fuel wanted e capacity : ℕ)
    → capacity ≡ 2 ^ e
    → capacity < 2 * wanted
    → wanted ≤ capacity + fuel
    → wanted ≤ 2 ^ 63
    → IsCapacity wanted (grow fuel wanted capacity)
unfolding grow
grow-IsCapacity zero wanted e capacity p small enough room = record {
  enough = omega arith;
  least = small;
  exponent = e;
  power = p;
}
grow-IsCapacity (suc fuel) wanted e capacity p small enough room =
    let positive = power-positive e in
    if_case (IsCapacity wanted) (ltb capacity wanted)
      (λ less.
        let below : capacity < wanted = ground arith in
        let kept : 2 * capacity % 2 ^ 64 ≡ 2 * capacity = omega (arith, below, room) in
        grow-IsCapacity fuel wanted (suc e) (2 * capacity % 2 ^ 64) (omega (arith, kept, p))
          (omega (arith, kept, below)) (omega (arith, kept, below, enough, p, positive)) room)
      (λ reached. record { enough = ground arith; least = small; exponent = e; power = p })

capacity_for-IsCapacity :
    (minimum_capacity : ℕ)
    → minimum_capacity < 2 ^ 63
    → IsCapacity (minimum_capacity + 1) (capacity_for minimum_capacity)
unfolding capacity_for
capacity_for-IsCapacity m h =
    let same : (m + 1) % 2 ^ 64 ≡ m + 1 = omega (arith, h) in
    subst (λ (wanted : ℕ). IsCapacity (m + 1) (grow wanted wanted 1)) (sym same)
      (grow-IsCapacity (m + 1) (m + 1) 0 1 refl (omega arith) (omega arith) (omega (arith, h)))

-- A new ring for less than 2^63 values has room for at least as many values as asked for, and not for
-- twice as many and one more; the number of its slots, one more than the room, is a power of two.
pub init-IsCapacity {ℓ} :
    {A : Type ℓ} (value : A) (minimum_capacity : ℕ)
    → minimum_capacity < 2 ^ 63
    → let r = init value minimum_capacity in
      IsCapacity (minimum_capacity + 1) (capacity r + 1) × (length r.buffer ≡ capacity r + 1)
unfolding init capacity
init-IsCapacity value m h =
    let c = capacity_for-IsCapacity m h in
    let back : capacity_for m ≡ capacity_for m - 1 + 1 = omega (arith, c.enough) in
    (subst (IsCapacity (m + 1)) back c, length-replicate (capacity_for m) value ∙ back)
