-- ===== src/Sip/Framer/Rest.antt =====
-- A framer behind next.
use ketphone.Base.{
  ℕ, ◌+◌, ◌≤◌, ◌≡◌, refl, ap, arith, true, [], ◌∷◌, Option, none, some, length, length-append, ltb,
  take, Bytes, ◌⊎◌, inl, inr, ◌==◌, ◌||◌, if_case, Option-cases, Bool-cases,
}
use ketphone.Sip.Framer.{
  StreamFramer, next, next_from, next_by_head, cut_message, skip_crlf, content_length,
}
use ketphone.Sip.Framer.Frames.{next-IsFrame}

skip_crlf-skip_crlf : (b : Bytes) → skip_crlf (skip_crlf b) ≡ skip_crlf b
unfolding skip_crlf
skip_crlf-skip_crlf [] = refl
skip_crlf-skip_crlf (c ∷ cs) = elim (Bool-cases (c == b'\r' || c == b'\n')) [
  | inl line_end ↦ rw line_end (skip_crlf-skip_crlf cs)
  | inr other ↦ rw other (rw (skip_crlf, other) refl)
]

skip_crlf-length : (b : Bytes) → length (skip_crlf b) ≤ length b
unfolding skip_crlf
skip_crlf-length [] = omega arith
skip_crlf-length (c ∷ cs) = ground (arith, skip_crlf-length cs)

next_by_head-none :
    (buffer : Bytes) (head_end : Option ℕ)
    → (next_by_head buffer head_end).1 ≡ none
    → ((next_by_head buffer head_end).0.failed ≡ true)
      ⊎ ((next_by_head buffer head_end).0.buffer ≡ buffer)
unfolding next_by_head cut_message
next_by_head-none buffer none e =
    if_case (λ (r : StreamFramer × Option Bytes). (r.0.failed ≡ true) ⊎ (r.0.buffer ≡ buffer))
      (ltb 65536 (length buffer)) (λ _. inl refl) (λ _. inr refl)
next_by_head-none buffer (some head_end) e =
    elim (Option-cases (content_length (take head_end buffer))) [
      | inl unknown ↦ rw unknown (inl refl)
      | inr (announced, known) ↦ ground arith
    ]

pub next_from-none :
    (buffer : Bytes)
    → (next_from buffer).1 ≡ none
    → ((next_from buffer).0.failed ≡ true) ⊎ ((next_from buffer).0.buffer ≡ buffer)
unfolding next_from
next_from-none [] e = inr refl
next_from-none (c ∷ cs) e = next_by_head-none (c ∷ cs) _ e

next_failed : (g : StreamFramer) → g.failed ≡ true → (next g).1 ≡ none
unfolding next
next_failed g failed = rw (next, failed) refl

next_again :
    (b : Bytes) (g : StreamFramer)
    → (next_from (skip_crlf b)).1 ≡ none
    → g.buffer ≡ skip_crlf b
    → (next g).1 ≡ none
unfolding next
next_again b g nothing same =
    if_case (λ (r : StreamFramer × Option Bytes). r.1 ≡ none) g.failed (λ _. refl)
      (λ _. rw (same, skip_crlf-skip_crlf b) nothing)

-- Where next gives no message, the framer behind it gives none either.
pub next-next : (f : StreamFramer) → (next f).1 ≡ none → (next (next f).0).1 ≡ none
unfolding next
next-next f e = elim (Bool-cases f.failed) [
  | inl failed ↦ rw (next, failed) refl
  | inr sound ↦
      let nothing : (next_from (skip_crlf f.buffer)).1 ≡ none = ground (arith, e, sound) in
      rw sound (elim (next_from-none (skip_crlf f.buffer) nothing) [
        | inl failed ↦ next_failed (next_from (skip_crlf f.buffer)).0 failed
        | inr same ↦ next_again f.buffer (next_from (skip_crlf f.buffer)).0 nothing same
      ])
]

-- A message that next gives takes at least 4 bytes of the buffer.
pub next-shorter :
    (f : StreamFramer) (message : Bytes)
    → (next f).1 ≡ some message
    → length (next f).0.buffer + 4 ≤ length f.buffer
next-shorter f message e =
    let frame = next-IsFrame f message e in
    omega (
      arith,
      frame.head,
      length-append message (next f).0.buffer,
      ap (λ (b : Bytes). length b) frame.stream,
      skip_crlf-length f.buffer,
    )
