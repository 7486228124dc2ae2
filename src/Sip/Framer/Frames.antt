-- ===== src/Sip/Framer/Frames.antt =====
-- What next takes from the stream.
use ketphone.Base.{
  ℕ, zero, suc, ◌+◌, ◌≤◌, ◌≡◌, refl, ap, arith, false, List, [], ◌∷◌, ◌++◌, Option, none, some,
  length, length-take, take, drop, Bytes, option_case,
}
use ketphone.Sip.Framer.{
  StreamFramer, next, next_from, next_by_head, cut_message, skip_crlf, content_length,
}

take-drop {ℓ} : {A : Type ℓ} (n : ℕ) (xs : List A) → take n xs ++ drop n xs ≡ xs
take-drop zero xs = refl
take-drop (suc n) [] = refl
take-drop (suc n) (x ∷ xs) = ap (λ ys. x ∷ ys) (take-drop n xs)

-- A message cut from the front of a buffer, and the framer behind it.
pub record IsFrame (buffer : Bytes) (result : StreamFramer × Option Bytes) (message : Bytes)
    : Type 0 where
  pub stream : message ++ result.0.buffer ≡ buffer
  pub size : length message ≤ 65536
  pub head : 4 ≤ length message
  pub sound : result.0.failed ≡ false

cut_message-IsFrame :
    (buffer : Bytes) (head_end : ℕ) (announced : Option ℕ) (message : Bytes)
    → (cut_message buffer head_end announced).1 ≡ some message
    → IsFrame buffer (cut_message buffer head_end announced) message
unfolding cut_message
cut_message-IsFrame buffer head_end none message e = ground arith
cut_message-IsFrame buffer head_end (some announced) message e = ground (
  arith,
  take-drop (head_end + 4 + announced) buffer,
  length-take (head_end + 4 + announced) buffer,
)

next_by_head-IsFrame :
    (buffer : Bytes) (head_end : Option ℕ) (message : Bytes)
    → (next_by_head buffer head_end).1 ≡ some message
    → IsFrame buffer (next_by_head buffer head_end) message
unfolding next_by_head
next_by_head-IsFrame buffer none message e = ground arith
next_by_head-IsFrame buffer (some head_end) message e =
    cut_message-IsFrame buffer head_end (content_length (take head_end buffer)) message e

pub next_from-IsFrame :
    (buffer : Bytes) (message : Bytes)
    → (next_from buffer).1 ≡ some message
    → IsFrame buffer (next_from buffer) message
unfolding next_from
next_from-IsFrame [] message e = ground arith
next_from-IsFrame (c ∷ cs) message e = next_by_head-IsFrame (c ∷ cs) _ message e

-- Where next gives a message, the message and the bytes left in the buffer are together what the
-- buffer held, without the CR and LF that it began with; the message has 4 to 65536 bytes, and the
-- framer has not failed.
pub next-IsFrame :
    (f : StreamFramer) (message : Bytes)
    → (next f).1 ≡ some message
    → IsFrame (skip_crlf f.buffer) (next f) message
unfolding next
next-IsFrame f message e = ground (arith, next_from-IsFrame (skip_crlf f.buffer) message)

next_by_head_bound :
    (buffer : Bytes) (head_end : Option ℕ)
    → (next_by_head buffer head_end).1 ≡ none
    → (next_by_head buffer head_end).0.failed ≡ false
    → length (next_by_head buffer head_end).0.buffer ≤ 65536
unfolding next_by_head cut_message
next_by_head_bound buffer none e sound = ground arith
next_by_head_bound buffer (some head_end) e sound =
    option_case
      (λ (r : StreamFramer × Option Bytes).
        r.1 ≡ none → r.0.failed ≡ false → length r.0.buffer ≤ 65536)
      (content_length (take head_end buffer)) (λ _ f t. ground arith)
      (λ announced _ f t. ground arith) e sound

next_from_bound :
    (buffer : Bytes)
    → (next_from buffer).1 ≡ none
    → (next_from buffer).0.failed ≡ false
    → length (next_from buffer).0.buffer ≤ 65536
unfolding next_from
next_from_bound [] e sound = omega arith
next_from_bound (c ∷ cs) e sound = next_by_head_bound (c ∷ cs) _ e sound

-- Where next gives no message and the framer has not failed, it keeps at most 65536 bytes.
pub next_bound :
    (f : StreamFramer)
    → (next f).1 ≡ none
    → (next f).0.failed ≡ false
    → length (next f).0.buffer ≤ 65536
unfolding next
next_bound f e sound = ground (arith, next_from_bound (skip_crlf f.buffer))
