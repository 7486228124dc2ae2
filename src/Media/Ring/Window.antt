-- ===== src/Media/Ring/Window.antt =====
-- The values that a ring holds, going round its slots.
use Prim.Native.Nat.{◌∣◌}
use native.Mathlib.Nat.{mod-mod_of_dvd, mod-add-mod, mod-eq_of_lt, mod-eq-sub-mod, mod-lt}
use ketphone.Base.{
  min, ℕ, zero, suc, ◌+◌, ◌-◌, ◌%◌, ◌^◌, ◌≤◌, ◌<◌, ◌≡◌, ◌≢◌, refl, ap, subst, sym, ◌∙◌, arith, List,
  [], ◌∷◌, ◌++◌, length, length-set, get_or, set, take, drop, ltb, Bool-cases, inl, inr,
}
use ketphone.Media.Ring.{SpscRing, pop, used, read_from, write_from}

module _ {ℓ} {A : Type ℓ} (value : A) where
  get_or-set_self : (xs : List A) (i : ℕ) (v : A) → i < length xs → get_or (set xs i v) i value ≡ v
  get_or-set_self [] i v h = absurd (omega (arith, h))
  get_or-set_self (x ∷ xs) zero v h = refl
  get_or-set_self (x ∷ xs) (suc i) v h = get_or-set_self xs i v (omega (arith, h))

  get_or-set_ne :
      (xs : List A) (i j : ℕ) (v : A) → i ≢ j → get_or (set xs i v) j value ≡ get_or xs j value
  get_or-set_ne [] i j v h = refl
  get_or-set_ne (x ∷ xs) zero zero v h = absurd (h refl)
  get_or-set_ne (x ∷ xs) zero (suc j) v h = refl
  get_or-set_ne (x ∷ xs) (suc i) zero v h = refl
  get_or-set_ne (x ∷ xs) (suc i) (suc j) v h = get_or-set_ne xs i j v (λ e. h (ap suc e))

-- The slot of an index.
abbrev pub slot : ℕ → ℕ → ℕ
slot capacity i = i % 2 ^ 64 % capacity

pub slot-mod : (capacity i : ℕ) → capacity ∣ 2 ^ 64 → slot capacity i ≡ i % capacity
slot-mod capacity i d = mod-mod_of_dvd capacity i d

-- Fewer steps than there are slots do not come back to a slot.
add-mod-ne : (capacity a k : ℕ) → a < capacity → suc k < capacity → (a + suc k) % capacity ≢ a
add-mod-ne capacity a k h less = elim (Bool-cases (ltb (a + suc k) capacity)) [
  | inl below ↦
      let under : a + suc k < capacity = ground (arith, below) in
      λ e. omega (arith, mod-eq_of_lt under, e)
  | inr above ↦
      let over : capacity ≤ a + suc k = ground (arith, above) in
      let rest : a + suc k - capacity < capacity = omega (arith, h, less, over) in
      λ e. omega (arith, mod-eq-sub-mod over ∙ mod-eq_of_lt rest, e, less, over)
]

slot-suc :
    (capacity i j : ℕ)
    → capacity ∣ 2 ^ 64
    → slot capacity i ≡ slot capacity j
    → slot capacity (suc i) ≡ slot capacity (suc j)
slot-suc capacity i j d e = step i ∙ ap (λ a. (a + 1) % capacity) e ∙ sym (step j)
  where
    step : (k : ℕ) → slot capacity (suc k) ≡ (slot capacity k + 1) % capacity
    step k =
        slot-mod capacity (suc k) d
        ∙ ap (λ a. a % capacity) (omega arith)
        ∙ sym (mod-add-mod k capacity 1)
        ∙ ap (λ a. (a + 1) % capacity) (sym (slot-mod capacity k d))

append_nil {ℓ} : {A : Type ℓ} (xs : List A) → xs ++ [] ≡ xs
append_nil [] = refl
append_nil (x ∷ xs) = ap (λ ys. x ∷ ys) (append_nil xs)

append_cons {ℓ} : {A : Type ℓ} (xs ys : List A) (v : A) → (xs ++ v ∷ []) ++ ys ≡ xs ++ v ∷ ys
append_cons [] ys v = refl
append_cons (x ∷ xs) ys v = ap (λ zs. x ∷ zs) (append_cons xs ys v)

slot-ne :
    (capacity i n : ℕ)
    → capacity ∣ 2 ^ 64
    → suc n < capacity
    → slot capacity (i + suc n) ≢ slot capacity i
slot-ne capacity i n d less e =
    add-mod-ne capacity (i % capacity) n (mod-lt i (omega (arith, less))) less (
      mod-add-mod i capacity (suc n)
      ∙ sym (slot-mod capacity (i + suc n) d)
      ∙ e
      ∙ slot-mod capacity i d)

module _ {ℓ} {A : Type ℓ} (value : A) where
  -- Writing just behind a window extends it.
  window_set :
      (buffer : List A) (capacity : ℕ) (v : A) (n i : ℕ)
      → capacity ∣ 2 ^ 64
      → capacity ≤ length buffer
      → n < capacity
      → read_from value (set buffer (slot capacity (i + n)) v) capacity i (suc n)
        ≡ read_from value buffer capacity i n ++ v ∷ []
  unfolding read_from
  window_set buffer capacity v zero i d room less =
      let inside = mod-lt (i % 2 ^ 64) {m = capacity} (omega (arith, less)) in
      ap (λ x. x ∷ [])
        (ap (λ k. get_or (set buffer (slot capacity k) v) (slot capacity i) value) (omega arith)
          ∙ get_or-set_self value buffer (slot capacity i) v (omega (arith, inside, room)))
  window_set buffer capacity v (suc n) i d room less =
      let shifted = window_set buffer capacity v n (suc i) d room (omega (arith, less)) in
      let same : suc i + n ≡ i + suc n = omega arith in
      ap
        (λ x.
          x ∷ read_from value (set buffer (slot capacity (i + suc n)) v) capacity (suc i) (suc n))
        (get_or-set_ne value buffer (slot capacity (i + suc n)) (slot capacity i) v
          (slot-ne capacity i n d less))
      ∙ ap (λ xs. get_or buffer (slot capacity i) value ∷ xs)
          (subst
            (λ k.
              read_from value (set buffer (slot capacity k) v) capacity (suc i) (suc n)
              ≡ read_from value buffer capacity (suc i) n ++ v ∷ [])
            same shifted)

  -- The loop of push behind a window.
  pub window-write_from :
      (buffer : List A) (capacity read held i : ℕ) (vs : List A)
      → capacity ∣ 2 ^ 64
      → capacity ≤ length buffer
      → held + length vs < capacity
      → slot capacity i ≡ slot capacity (read + held)
      → read_from value (write_from buffer capacity i vs) capacity read (held + length vs)
        ≡ read_from value buffer capacity read held ++ vs
  unfolding write_from
  window-write_from buffer capacity read held i [] d room less at =
      ap (λ n. read_from value buffer capacity read n) (omega arith)
      ∙ sym (append_nil (read_from value buffer capacity read held))
  window-write_from buffer capacity read held i (v ∷ vs) d room less at =
      let stored = set buffer (slot capacity i) v in
      let size = length-set buffer (slot capacity i) v in
      let next : slot capacity (suc i) ≡ slot capacity (read + suc held) =
        slot-suc capacity i (read + held) d at ∙ ap (λ k. slot capacity k) (omega arith) in
      let rest =
        window-write_from stored capacity read (suc held) (suc i) vs d (omega (arith, size, room))
          (omega (arith, less)) next in
      let first =
        subst
          (λ k.
            read_from value (set buffer k v) capacity read (suc held)
            ≡ read_from value buffer capacity read held ++ v ∷ [])
          (sym at) (window_set buffer capacity v held read d room (omega (arith, less))) in
      ap (λ n. read_from value (write_from stored capacity (suc i) vs) capacity read n)
        (omega arith)
      ∙ rest
      ∙ ap (λ xs. xs ++ vs) first
      ∙ append_cons (read_from value buffer capacity read held) vs v

  -- A window in two parts.
  pub window-take :
      (buffer : List A) (capacity i n held : ℕ)
      → n ≤ held
      → read_from value buffer capacity i n ≡ take n (read_from value buffer capacity i held)
  unfolding read_from
  window-take buffer capacity i zero held h = refl
  window-take buffer capacity i (suc n) zero h = absurd (omega (arith, h))
  window-take buffer capacity i (suc n) (suc held) h =
      ap (λ xs. get_or buffer (slot capacity i) value ∷ xs)
        (window-take buffer capacity (suc i) n held (omega (arith, h)))

  pub window-drop :
      (buffer : List A) (capacity i n held : ℕ)
      → n ≤ held
      → read_from value buffer capacity (i + n) (held - n)
        ≡ drop n (read_from value buffer capacity i held)
  unfolding read_from
  window-drop buffer capacity i zero held h =
      ap (λ k. read_from value buffer capacity k (held - 0)) (omega arith)
      ∙ ap (λ k. read_from value buffer capacity i k) (omega arith)
  window-drop buffer capacity i (suc n) zero h = absurd (omega (arith, h))
  window-drop buffer capacity i (suc n) (suc held) h =
      ap (λ k. read_from value buffer capacity k (suc held - suc n)) (omega arith)
      ∙ ap (λ k. read_from value buffer capacity (suc i + n) k) (omega arith)
      ∙ window-drop buffer capacity (suc i) n held (omega (arith, h))

  -- Windows from indices of one slot hold the same.
  pub window_slot :
      (buffer : List A) (capacity i j n : ℕ)
      → capacity ∣ 2 ^ 64
      → slot capacity i ≡ slot capacity j
      → read_from value buffer capacity i n ≡ read_from value buffer capacity j n
  unfolding read_from
  window_slot buffer capacity i j zero d e = refl
  window_slot buffer capacity i j (suc n) d e =
      ap (λ k. get_or buffer k value ∷ read_from value buffer capacity (suc i) n) e
      ∙ ap (λ xs. get_or buffer (slot capacity j) value ∷ xs)
          (window_slot buffer capacity (suc i) (suc j) n d (slot-suc capacity i j d e))

  pub length-window :
      (buffer : List A) (capacity i n : ℕ) → length (read_from value buffer capacity i n) ≡ n
  unfolding read_from
  length-window buffer capacity i zero = refl
  length-window buffer capacity i (suc n) = ap suc (length-window buffer capacity (suc i) n)

  -- What pop gives is at most what was asked for.
  pub length-pop : (r : SpscRing A) (count : ℕ) → length (pop value r count).1 ≤ count
  unfolding pop
  length-pop r count =
      omega (arith, length-window r.buffer (r.mask + 1) r.read (min count (used r)))
