-- ===== src/Media/Statistics/Extend.antt =====
-- Extended sequence numbers.
use ketphone.Base.{
  ℕ, ◌-◌, ◌%◌, ◌<◌, ◌≡◌, arith, if_case, if◌then◌else◌, ◌∙◌, ℤ, pos, negsuc, ◌+ℤ◌, ◌-ℤ◌, ◌≤ℤ◌,
  ltb_ℤ, int_laws,
}
use ketphone.Media.Statistics.{extend, cycle_of}

-- The extended number of a 16-bit sequence number lies within 32768 of the highest one so far.
pub extend_near :
    (highest : ℤ) (sequence : ℕ)
    → sequence < 65536
    → (extend highest sequence ≤ℤ highest +ℤ pos 32768)
      × (highest ≤ℤ extend highest sequence +ℤ pos 32768)
unfolding extend cycle_of
extend_near (pos n) sequence s = grind int_laws
extend_near (negsuc n) sequence s = grind int_laws

-- The low 16 bits on two's complement.
abbrev pub low16 : ℤ → ℕ
low16 (pos n) = n % 65536
low16 (negsuc n) = 65535 - n % 65536

low16-add : (a : ℤ) → low16 (a +ℤ pos 65536) ≡ low16 a
unfolding ◌+ℤ◌
low16-add (pos n) = ground arith
low16-add (negsuc n) = ground arith

low16-sub : (a : ℤ) → low16 (a -ℤ pos 65536) ≡ low16 a
unfolding ◌-ℤ◌
low16-sub (pos n) = ground arith
low16-sub (negsuc n) = ground arith

low16-cycle_of :
    (highest : ℤ) (sequence : ℕ)
    → sequence < 65536
    → low16 (cycle_of highest +ℤ pos sequence) ≡ sequence
unfolding cycle_of ◌+ℤ◌
low16-cycle_of (pos n) sequence s = ground arith
low16-cycle_of (negsuc n) sequence s = ground arith

-- The low 16 bits of the extended number are the sequence number that the packet carried.
pub low16-extend :
    (highest : ℤ) (sequence : ℕ) → sequence < 65536 → low16 (extend highest sequence) ≡ sequence
unfolding extend
low16-extend highest sequence s =
    let first = cycle_of highest +ℤ pos sequence in
    let lowered = if ltb_ℤ (pos 32768) (first -ℤ highest) then first -ℤ pos 65536 else first in
    let start : low16 first ≡ sequence = low16-cycle_of highest sequence s in
    let low : low16 lowered ≡ sequence =
      if_case (λ x. low16 x ≡ sequence) (ltb_ℤ (pos 32768) (first -ℤ highest))
        (λ _. low16-sub first ∙ start) (λ _. start) in
    if_case (λ x. low16 x ≡ sequence) (ltb_ℤ (pos 32768) (highest -ℤ lowered))
      (λ _. low16-add lowered ∙ low) (λ _. low)
