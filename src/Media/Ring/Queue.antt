-- ===== src/Media/Ring/Queue.antt =====
-- The bounded queue that the ring is for, and calls of both.
use ketphone.Base.{ℕ, ◌-◌, ◌++◌, List, [], ◌∷◌, length, take, drop, min}
use ketphone.Media.Ring.{SpscRing, push, pop, discard}

-- A call of the ring, and what it gives back.
pub data Call {ℓ} (A : Type ℓ) : Type ℓ where
  pushes : List A → Call A
  pops : ℕ → Call A
  discards : Call A

pub data Seen {ℓ} (A : Type ℓ) : Type ℓ where
  accepted : ℕ → Seen A
  given : List A → Seen A
  nothing : Seen A

module _ {ℓ} {A : Type ℓ} where
  -- A queue with room for so many values.
  abbrev pub queue_step : ℕ → List A → Call A → List A × Seen A
  queue_step room q (pushes values) =
      let n = min (length values) (room - length q) in (q ++ take n values, accepted n)
  queue_step room q (pops count) =
      (drop (min count (length q)) q, given (take (min count (length q)) q))
  queue_step room q discards = ([], nothing)

  abbrev pub queue_run : ℕ → List A → List (Call A) → List (Seen A)
  queue_run room q [] = []
  queue_run room q (c ∷ cs) =
      let (rest, seen) = queue_step room q c in seen ∷ queue_run room rest cs

  abbrev pub ring_step : A → SpscRing A → Call A → SpscRing A × Seen A
  ring_step value r (pushes values) = let (s, n) = push r values in (s, accepted n)
  ring_step value r (pops count) = let (s, values) = pop value r count in (s, given values)
  ring_step value r discards = (discard r, nothing)

  abbrev pub ring_run : A → SpscRing A → List (Call A) → List (Seen A)
  ring_run value r [] = []
  ring_run value r (c ∷ cs) =
      let (rest, seen) = ring_step value r c in seen ∷ ring_run value rest cs
