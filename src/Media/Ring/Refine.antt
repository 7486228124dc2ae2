-- ===== src/Media/Ring/Refine.antt =====
-- The ring as the bounded queue of the values that it holds.
use Prim.Native.Nat.{◌∣◌}
use native.Mathlib.Nat.{mod-eq_of_lt, pow-le-pow_right, pow-suc, dvd_refl, dvd-mul_right_of_dvd}
use ketphone.Base.{
  ℕ, zero, suc, ◌+◌, ◌-◌, ◌%◌, ◌^◌, ◌≤◌, ◌<◌, ◌≡◌, refl, ap, sym, ◌∙◌, subst, arith, List, [], ◌∷◌,
  ◌++◌, length, length-take, length-set, set, take, drop, min, leb, Bool-cases, inl, inr,
}
use ketphone.Media.Ring.{SpscRing, init, capacity, push, pop, discard, used, read_from, write_from}
use ketphone.Media.Ring.Capacity.{init-IsCapacity}
use ketphone.Media.Ring.Window.{
  slot, window-write_from, window-take, window-drop, window_slot, length-window,
}
use ketphone.Media.Ring.Queue.{
  Call, pushes, pops, discards, Seen, accepted, given, queue_step, queue_run, ring_step, ring_run,
}

module _ {ℓ} {A : Type ℓ} where
  -- A ring with `held` values from its read index on.
  record IsRing (r : SpscRing A) (held : ℕ) : Type 0 where
    pieces : (r.mask + 1) ∣ 2 ^ 64
    bounded : r.mask + 1 ≤ 2 ^ 64
    room : r.mask + 1 ≤ length r.buffer
    small : r.read < 2 ^ 64
    fits : held ≤ r.mask
    write_at : r.write ≡ (r.read + held) % 2 ^ 64

  used-held : (r : SpscRing A) (held : ℕ) → IsRing r held → used r ≡ held
  used-held r held v =
      ap (λ (w : ℕ). (w + 2 ^ 64 - r.read) % 2 ^ 64 % (r.mask + 1)) v.write_at
      ∙ ap (λ n. n % (r.mask + 1)) (omega (arith, v.small, v.fits, v.bounded))
      ∙ mod-eq_of_lt (omega (arith, v.fits))

  -- What a ring holds.
  contents : A → SpscRing A → ℕ → List A
  contents value r held = read_from value r.buffer (r.mask + 1) r.read held

  write_from-length :
      (buffer : List A) (slots i : ℕ) (vs : List A)
      → length (write_from buffer slots i vs) ≡ length buffer
  unfolding write_from
  write_from-length buffer slots i [] = refl
  write_from-length buffer slots i (v ∷ vs) =
      write_from-length (set buffer (slot slots i) v) slots (suc i) vs
      ∙ length-set buffer (slot slots i) v

  -- One call: what is seen, and what the ring holds then.
  record Refines (value : A) (r : SpscRing A) (held : ℕ) (c : Call A) : Type ℓ where
    after : ℕ
    valid : IsRing (ring_step value r c).0 after
    same_room : (ring_step value r c).0.mask ≡ r.mask
    seen : (ring_step value r c).1 ≡ (queue_step r.mask (contents value r held) c).1
    kept :
        contents value (ring_step value r c).0 after
        ≡ (queue_step r.mask (contents value r held) c).0

  push-Refines :
      (value : A) (r : SpscRing A) (held : ℕ) (values : List A)
      → IsRing r held
      → Refines value r held (pushes values)
  unfolding push contents
  push-Refines value r held values v =
      let slots = r.mask + 1 in
      let n = min (length values) (r.mask - used r) in
      let size = length-take n values in
      let filled = used-held r held v in
      let long = length-window value r.buffer slots r.read held in
      let written = write_from-length r.buffer slots r.write (take n values) in
      let same : min (length values) (r.mask - used r)
          ≡ min (length values) (r.mask - length (contents value r held)) =
        ap (λ k. min (length values) (r.mask - k)) (filled ∙ sym long) in
      let at : slot slots r.write ≡ slot slots (r.read + held) =
        ap (λ k. slot slots k) v.write_at ∙ ap (λ k. k % slots) (omega arith) in
      let fits : held + length (take n values) ≤ r.mask = omega (arith, size, filled, v.fits) in
      record {
        after = held + length (take n values);
        valid = record {
          pieces = v.pieces;
          bounded = v.bounded;
          room = omega (arith, written, v.room);
          small = v.small;
          fits = fits;
          write_at =
              ap (λ (w : ℕ). (w + n) % 2 ^ 64) v.write_at ∙ omega (arith, size, filled, v.fits);
        };
        same_room = refl;
        seen = ap (λ k. accepted k) same;
        kept =
            window-write_from value r.buffer slots r.read held r.write (take n values) v.pieces
              v.room (omega (arith, fits)) at
            ∙ ap (λ k. contents value r held ++ take k values) same;
      }

  pop-Refines :
      (value : A) (r : SpscRing A) (held count : ℕ)
      → IsRing r held
      → Refines value r held (pops count)
  unfolding pop contents
  pop-Refines value r held count v =
      let slots = r.mask + 1 in
      let n = min count (used r) in
      let filled = used-held r held v in
      let long = length-window value r.buffer slots r.read held in
      let same : n ≡ min count (length (contents value r held)) =
        ap (λ k. min count k) (filled ∙ sym long) in
      let within : n ≤ held = omega (arith, filled) in
      record {
        after = held - n;
        valid = record {
          pieces = v.pieces;
          bounded = v.bounded;
          room = v.room;
          small = omega arith;
          fits = omega (arith, v.fits);
          write_at = v.write_at ∙ omega (arith, within, v.small, v.fits, v.bounded);
        };
        same_room = refl;
        seen =
            ap (λ (xs : List A). given xs)
              (window-take value r.buffer slots r.read n held within
                ∙ ap (λ k. take k (contents value r held)) same);
        kept =
            window_slot value r.buffer slots ((r.read + n) % 2 ^ 64) (r.read + n) (held - n)
              v.pieces (ap (λ k. k % slots) (omega arith))
            ∙ window-drop value r.buffer slots r.read n held within
            ∙ ap (λ k. drop k (contents value r held)) same;
      }

  discard-Refines :
      (value : A) (r : SpscRing A) (held : ℕ) → IsRing r held → Refines value r held discards
  unfolding discard contents read_from
  discard-Refines value r held v = record {
    after = 0;
    valid = record {
      pieces = v.pieces;
      bounded = v.bounded;
      room = v.room;
      small = rw v.write_at (omega arith);
      fits = omega arith;
      write_at = rw v.write_at (omega arith);
    };
    same_room = refl;
    seen = refl;
    kept = refl;
  }

  step-Refines :
      (value : A) (r : SpscRing A) (held : ℕ) (c : Call A) → IsRing r held → Refines value r held c
  step-Refines value r held (pushes values) v = push-Refines value r held values v
  step-Refines value r held (pops count) v = pop-Refines value r held count v
  step-Refines value r held discards v = discard-Refines value r held v

  run_from :
      (value : A) (r : SpscRing A) (held : ℕ) (cs : List (Call A))
      → IsRing r held
      → ring_run value r cs ≡ queue_run r.mask (contents value r held) cs
  run_from value r held [] v = refl
  run_from value r held (c ∷ cs) v =
      let one = step-Refines value r held c v in
      let next = (ring_step value r c).0 in
      let rest = run_from value next one.after cs one.valid in
      ap (λ (seen : Seen A). seen ∷ ring_run value next cs) one.seen
      ∙ ap (λ (xs : List (Seen A)). (queue_step r.mask (contents value r held) c).1 ∷ xs)
          (rest
            ∙ ap (λ k. queue_run k (contents value next one.after) cs) one.same_room
            ∙ ap (λ q. queue_run r.mask q cs) one.kept)

power-dvd : (e d : ℕ) → 2 ^ e ∣ 2 ^ (e + d)
power-dvd e zero = subst (λ k. 2 ^ e ∣ 2 ^ k) (omega arith) (dvd_refl (2 ^ e))
power-dvd e (suc d) =
    subst (λ k. 2 ^ e ∣ k) (sym (pow-suc 2 (e + d)) ∙ ap (λ k. 2 ^ k) (omega arith))
      (dvd-mul_right_of_dvd (2 ^ e) (power-dvd e d) 2)

power_small : (e : ℕ) → 2 ^ e ≤ 2 ^ 64 → e ≤ 64
power_small e h = elim (Bool-cases (leb e 64)) [
  | inl small ↦ ground (arith, small)
  | inr large ↦
      let over : 65 ≤ e = ground (arith, large) in
      absurd (omega (arith, h, pow-le-pow_right {n = 2} (omega arith) over))
]

module _ {ℓ} {A : Type ℓ} where
  init-IsRing : (value : A) (m : ℕ) → m < 2 ^ 63 → IsRing (init value m) 0
  unfolding init capacity
  init-IsRing value m small =
      let (c, room) = init-IsCapacity value m small in
      let bounded : (init value m).mask + 1 ≤ 2 ^ 64 = omega (arith, c.least, small) in
      let e = c.exponent in
      let narrow = power_small e (omega (arith, c.power, bounded)) in
      let total : e + (64 - e) ≡ 64 = omega (arith, narrow) in
      record {
        pieces =
            subst (λ k. k ∣ 2 ^ 64) (sym c.power)
              (subst (λ k. 2 ^ e ∣ 2 ^ k) total (power-dvd e (64 - e)));
        bounded = bounded;
        room = omega (arith, room);
        small = omega arith;
        fits = omega arith;
        write_at = refl;
      }

  -- Whatever is pushed, popped and discarded on a new ring, for less than 2^63 values, each call gives
  -- back what it gives on a queue that begins empty and takes as many values as the ring has room for.
  pub ring_run-queue_run :
      (value : A) (minimum_capacity : ℕ) (cs : List (Call A))
      → minimum_capacity < 2 ^ 63
      → let r = init value minimum_capacity in ring_run value r cs ≡ queue_run (capacity r) [] cs
  unfolding init capacity contents read_from
  ring_run-queue_run value m cs small =
      run_from value (init value m) 0 cs (init-IsRing value m small)
