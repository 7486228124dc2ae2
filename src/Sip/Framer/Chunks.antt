-- ===== src/Sip/Framer/Chunks.antt =====
-- The message that next gives, before and after more bytes are pushed.
use ketphone.Base.{
  ℕ, ◌+◌, ◌≤◌, ◌≡◌, refl, ap, arith, [], ◌∷◌, ◌++◌, Option, none, some, length, length-append, ltb,
  take, Bytes, Option-cases, inl, inr, codes, Bool-cases, take-append_front, drop-append_front,
  ◌==◌, ◌||◌,
}
use ketphone.Sip.Framer.{
  StreamFramer, push, next, next_from, next_by_head, cut_message, skip_crlf, content_length,
}
use ketphone.Sip.Framer.Frames.{next_from-IsFrame}
use ketphone.Sip.Text.{find_text}
use ketphone.Sip.Text.Search.{find_text-length, find_text-append}

abbrev Result : Type 0
Result = StreamFramer × Option Bytes

-- A result with more bytes behind it.
abbrev followed : Result → Bytes → Result
followed r more = (record { buffer = r.0.buffer ++ more; failed = r.0.failed }, r.1)

cut_message-push :
    (buffer more : Bytes) (head_end : ℕ) (announced : Option ℕ) (message : Bytes)
    → (cut_message buffer head_end announced).1 ≡ some message
    → cut_message (buffer ++ more) head_end announced
      ≡ followed (cut_message buffer head_end announced) more
unfolding cut_message
cut_message-push buffer more head_end none message e = ground arith
cut_message-push buffer more head_end (some announced) message e =
    let total = head_end + 4 + announced in
    let size = length-append buffer more in
    elim (Bool-cases (ltb (length buffer) total)) [
      | inl short ↦ ground arith
      | inr whole ↦
          let fits : total ≤ length buffer = ground arith in
          let front = take-append_front total buffer more fits in
          let rest = drop-append_front total buffer more fits in ground arith
    ]

next_by_head-push :
    (buffer more : Bytes) (head_end : ℕ) (message : Bytes)
    → head_end ≤ length buffer
    → (next_by_head buffer (some head_end)).1 ≡ some message
    → next_by_head (buffer ++ more) (some head_end)
      ≡ followed (next_by_head buffer (some head_end)) more
unfolding next_by_head
next_by_head-push buffer more head_end message h e =
    rw (take-append_front head_end buffer more h)
      (cut_message-push buffer more head_end (content_length (take head_end buffer)) message e)

skip_crlf-append :
    (buffer more : Bytes) (c : ℕ) (cs : Bytes)
    → skip_crlf buffer ≡ c ∷ cs
    → skip_crlf (buffer ++ more) ≡ c ∷ (cs ++ more)
unfolding skip_crlf
skip_crlf-append [] more c cs e = ground arith
skip_crlf-append (b ∷ buffer) more c cs e = elim (Bool-cases (b == b'\r' || b == b'\n')) [
  | inl skipped ↦ let later = skip_crlf-append buffer more c cs in ground arith
  | inr kept ↦ rw kept (ap (λ xs. xs ++ more) (rw kept at e))
]

next_by_head-none : (buffer : Bytes) → (next_by_head buffer none).1 ≡ none
unfolding next_by_head
next_by_head-none buffer = ground arith

next_from-push :
    (front buffer more message : Bytes)
    → skip_crlf buffer ≡ front
    → (next_from front).1 ≡ some message
    → next_from (skip_crlf (buffer ++ more)) ≡ followed (next_from front) more
unfolding next_from
next_from-push [] buffer more message s e = ground arith
next_from-push (c ∷ cs) buffer more message s e =
    let blank = codes "\r\n\r\n" in
    elim (Option-cases (find_text blank (c ∷ cs))) [
      | inl nowhere ↦ cc (next_by_head-none (c ∷ cs), rw nowhere at e)
      | inr (k, found) ↦
          let found_still : find_text blank (c ∷ (cs ++ more)) ≡ some k =
            find_text-append blank (c ∷ cs) more k found in
          let bound : k ≤ length (c ∷ cs) =
            omega (arith, find_text-length blank (c ∷ cs) k found) in
          rw (skip_crlf-append buffer more c cs s, found_still, found)
            (next_by_head-push (c ∷ cs) more k message bound (rw found at e))
    ]

-- Where next gives a message, it gives the same one when more bytes have been pushed before, and
-- leaves these behind what it leaves without them.
pub next-push :
    (f : StreamFramer) (more message : Bytes)
    → (next f).1 ≡ some message
    → next (push f more) ≡ (push (next f).0 more, some message)
unfolding next push
next-push f more message e = elim (Bool-cases f.failed) [
  | inl broken ↦ ground arith
  | inr works ↦
      let given : (next_from (skip_crlf f.buffer)).1 ≡ some message = rw works at e in
      let same = next_from-push (skip_crlf f.buffer) f.buffer more message refl given in
      let sound = (next_from-IsFrame (skip_crlf f.buffer) message given).sound in
      rw (works, same, sound, given) refl
]
