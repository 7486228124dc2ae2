-- ===== src/Media/Ring.antt =====
-- src/media/spsc_ring.hpp. A size_t wraps at 2 ^ 64; `& mask` is a remainder, since the capacity
-- `mask + 1` is a power of two.
pub mod Capacity
pub mod Window
pub mod Queue
pub mod Refine
use ketphone.Base.{
  ℕ, zero, suc, ◌+◌, ◌-◌, ◌*◌, ◌%◌, ◌^◌, List, [], ◌∷◌, ltb, if◌then◌else◌, length, get_or, set,
  take, replicate, min,
}

pub record SpscRing {ℓ} (A : Type ℓ) : Type ℓ where
  pub buffer : List A
  pub mask : ℕ
  pub write : ℕ
  pub read : ℕ

-- `while (capacity < wanted) capacity <<= 1`, at most `fuel` times. Past 2 ^ 63 the capacity wraps to
-- 0, and the source's loop goes on for ever: there the model stops with what it has.
grow : ℕ → ℕ → ℕ → ℕ
grow zero wanted capacity = capacity
grow (suc fuel) wanted capacity =
    let larger = grow fuel wanted (2 * capacity % 2 ^ 64) in
    if ltb capacity wanted then larger else capacity

-- Where the capacity does not wrap, it grows in each round, so `wanted` rounds are enough.
pub capacity_for : ℕ → ℕ
unfolding grow
capacity_for minimum_capacity = let wanted = (minimum_capacity + 1) % 2 ^ 64 in grow wanted wanted 1

abbrev masked {ℓ} : {A : Type ℓ} → SpscRing A → ℕ → ℕ
masked r i = i % (r.mask + 1)

-- (write - read) & mask.
abbrev used {ℓ} : {A : Type ℓ} → SpscRing A → ℕ
used r = masked r ((r.write + 2 ^ 64 - r.read) % 2 ^ 64)

abbrev advance : ℕ → ℕ → ℕ
advance i n = (i + n) % 2 ^ 64

module _ {ℓ} {A : Type ℓ} where
  -- T{} is the value that make_unique<T[]> fills the buffer with.
  pub init : A → ℕ → SpscRing A
  unfolding capacity_for
  init value minimum_capacity =
      let capacity = capacity_for minimum_capacity in
      record { buffer = replicate capacity value; mask = capacity - 1; write = 0; read = 0 }

  pub capacity : SpscRing A → ℕ
  capacity r = r.mask

  pub size : SpscRing A → ℕ
  size r = used r

  -- The loop of push, from the index `i` on.
  pub write_from : List A → ℕ → ℕ → List A → List A
  write_from buffer capacity i [] = buffer
  write_from buffer capacity i (v ∷ vs) =
      write_from (set buffer (i % 2 ^ 64 % capacity) v) capacity (suc i) vs

  pub push : SpscRing A → List A → SpscRing A × ℕ
  unfolding write_from
  push r values =
      let space = r.mask - used r in
      let n = min (length values) space in
      (
        record r {
          buffer = write_from r.buffer (r.mask + 1) r.write (take n values);
          write = advance r.write n;
        },
        n,
      )

  -- The loop of pop: the values of `n` slots from the index `i` on.
  pub read_from : A → List A → ℕ → ℕ → ℕ → List A
  read_from value buffer capacity i zero = []
  read_from value buffer capacity i (suc n) =
      get_or buffer (i % 2 ^ 64 % capacity) value ∷ read_from value buffer capacity (suc i) n

  -- The values read are those that the source copies out, in order. A buffer of the ring's capacity
  -- has every slot, so the first argument is never read.
  pub pop : A → SpscRing A → ℕ → SpscRing A × List A
  unfolding read_from
  pop value r count =
      let n = min count (used r) in
      (record r { read = advance r.read n }, read_from value r.buffer (r.mask + 1) r.read n)

  pub discard : SpscRing A → SpscRing A
  discard r = record r { read = r.write }
