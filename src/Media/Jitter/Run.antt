-- ===== src/Media/Jitter/Run.antt =====
-- put, pop and reset in any order.
use ketphone.Base.{
  ℕ, zero, suc, ◌≡◌, refl, arith, ◌∙◌, List, [], ◌∷◌, ℤ, Bytes, Option, none, some, if_case, ltb_ℤ,
  ◌+ℤ◌, ◌-ℤ◌, ◌*ℤ◌, not, ◌&&◌, is_empty, is_some, leb,
}
use ketphone.Media.Jitter.{
  JitterBuffer, init, put, pop, reset, target_delay_us, shrink, take_frame, pop_from, pop_first,
  pop_by, put_at, store, record_transit, Popped, find_frame, pops_between_drops, too_far_ahead,
  desired_offset_us, frame_us, shrink_above_us, shrink_fuel, Frames,
}
use ketphone.Media.Jitter.Delay.{IsDelay, clamp-IsDelay, target_delay_us-IsDelay}

put_at-delay :
    (next : Option ℤ) (b : JitterBuffer) (sequence : ℤ) (payload : Bytes)
    → (put_at next b sequence payload).0.initial_delay_us ≡ b.initial_delay_us
unfolding put_at store
put_at-delay none b sequence payload = ground arith
put_at-delay (some next) b sequence payload = ground arith

put-delay :
    (b : JitterBuffer) (sequence : ℤ) (payload : Bytes) (arrival : ℤ)
    → (put b sequence payload arrival).0.initial_delay_us ≡ b.initial_delay_us
unfolding put record_transit reset
put-delay b sequence payload arrival =
    put_at-delay _ _ sequence payload
    ∙ if_case (λ (t : JitterBuffer). t.initial_delay_us ≡ b.initial_delay_us)
        (too_far_ahead b.next sequence) (λ _. refl) (λ _. refl)

shrink-delay :
    (fuel : ℕ) (limit : ℤ) (b : JitterBuffer) (next offset : ℤ)
    → (shrink fuel limit b next offset).0.initial_delay_us ≡ b.initial_delay_us
unfolding shrink
shrink-delay zero limit b next offset = refl
shrink-delay (suc fuel) limit b next offset =
    let P = λ (r : JitterBuffer × ℤ). r.0.initial_delay_us ≡ b.initial_delay_us in
    if_case P (ltb_ℤ limit offset && not (is_empty b.frames))
      (λ _.
        if_case P (not (is_some (find_frame next b.frames))) (λ _. shrink-delay fuel limit _ _ _)
          (λ _.
            if_case P (leb pops_between_drops b.pops_since_drop)
              (λ _. shrink-delay fuel limit _ _ _) (λ _. refl)))
      (λ _. refl)

take_frame-delay :
    (b : JitterBuffer) (next : ℤ) (found : Option Bytes)
    → (take_frame b next found).1.initial_delay_us ≡ b.initial_delay_us
unfolding take_frame reset
take_frame-delay b next none = ground arith
take_frame-delay b next (some payload) = refl

pop_from-delay :
    (b : JitterBuffer) (next now : ℤ)
    → (pop_from b next now).1.initial_delay_us ≡ b.initial_delay_us
unfolding pop_from
pop_from-delay b next now =
    let desired = desired_offset_us b in
    let offset = now -ℤ next *ℤ frame_us in
    let limit = desired +ℤ shrink_above_us in
    let (shrunk, at) = shrink (shrink_fuel limit offset) limit b next offset in
    let ready : JitterBuffer = record shrunk { pops_since_drop = suc shrunk.pops_since_drop } in
    if_case (λ (r : Popped). r.1.initial_delay_us ≡ b.initial_delay_us) (ltb_ℤ offset desired)
      (λ _. refl)
      λ _.
        take_frame-delay ready at (find_frame at ready.frames)
        ∙ shrink-delay (shrink_fuel limit offset) limit b next offset

pop_first-delay :
    (b : JitterBuffer) (frames : Frames) (now : ℤ)
    → (pop_first b frames now).1.initial_delay_us ≡ b.initial_delay_us
unfolding pop_first
pop_first-delay b [] now = refl
pop_first-delay b ((first, payload) ∷ rest) now =
    if_case (λ (r : Popped). r.1.initial_delay_us ≡ b.initial_delay_us)
      (ltb_ℤ (now -ℤ first *ℤ frame_us) (desired_offset_us b)) (λ _. refl)
      λ _. pop_from-delay (record b { next = some first }) first now

pop_by-delay :
    (next : Option ℤ) (b : JitterBuffer) (now : ℤ)
    → (pop_by next b now).1.initial_delay_us ≡ b.initial_delay_us
unfolding pop_by
pop_by-delay none b now = pop_first-delay b b.frames now
pop_by-delay (some next) b now = pop_from-delay b next now

pub data Use : Type 0 where
  puts : ℤ → Bytes → ℤ → Use
  pops : ℤ → Use
  resets : Use

unfoldable pub run : JitterBuffer → List Use → JitterBuffer
run b [] = b
run b (puts sequence payload arrival ∷ rest) = run (put b sequence payload arrival).0 rest
run b (pops now ∷ rest) = run (pop b now).1 rest
run b (resets ∷ rest) = run (reset b) rest

run-delay :
    (b : JitterBuffer) (uses : List Use) → (run b uses).initial_delay_us ≡ b.initial_delay_us
unfolding run pop reset
run-delay b [] = refl
run-delay b (puts sequence payload arrival ∷ rest) =
    run-delay (put b sequence payload arrival).0 rest ∙ put-delay b sequence payload arrival
run-delay b (pops now ∷ rest) = run-delay (pop b now).1 rest ∙ pop_by-delay b.next b now
run-delay b (resets ∷ rest) = run-delay (reset b) rest

-- Whatever the initial delay asked for, and however put, pop and reset are called after it, the
-- delay that the buffer aims for lies between 10 ms and 300 ms.
pub target_delay_us-run :
    (initial_delay_us : ℤ) (uses : List Use)
    → IsDelay (target_delay_us (run (init initial_delay_us) uses))
unfolding init
target_delay_us-run delay uses =
    target_delay_us-IsDelay _ (rw (run-delay (init delay) uses) (clamp-IsDelay delay))
