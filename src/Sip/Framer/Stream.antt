-- ===== src/Sip/Framer/Stream.antt =====
-- The messages of a stream, and of a stream that arrives in chunks.
use ketphone.Base.{
  ◌≡◌, refl, sym, ap, subst, ◌∙◌, arith, false, List, [], ◌∷◌, ◌++◌, none, some, Bytes, inl, inr,
  ◌==◌, ◌||◌, Bool-cases, Option,
}
use mathlib.Core.List.{append-nil, append_assoc}
use ketphone.Sip.Framer.{StreamFramer, push, next, next_from, skip_crlf}
use ketphone.Sip.Framer.Chunks.{next-push}
use ketphone.Sip.Framer.Rest.{next_from-none}

-- The messages that a framer gives, one after the other, until it gives none; and what is left.
pub data Gives : StreamFramer → List Bytes → StreamFramer → Type 0 where
  no_more : (f : StreamFramer) → (next f).1 ≡ none → Gives f [] (next f).0
  one_more :
      (f g : StreamFramer) (message : Bytes) (messages : List Bytes)
      → (next f).1 ≡ some message
      → Gives (next f).0 messages g
      → Gives f (message ∷ messages) g

-- The messages that it gives when they are read after each chunk, where none before the last chunk
-- makes it fail; and what is left.
pub data GivesInChunks : StreamFramer → List Bytes → List Bytes → StreamFramer → Type 0 where
  last_chunk :
      (f g : StreamFramer) (chunk : Bytes) (messages : List Bytes)
      → Gives (push f chunk) messages g
      → GivesInChunks f (chunk ∷ []) messages g
  one_chunk :
      (f g h : StreamFramer) (chunk : Bytes) (chunks messages later : List Bytes)
      → Gives (push f chunk) messages g
      → g.failed ≡ false
      → GivesInChunks g chunks later h
      → GivesInChunks f (chunk ∷ chunks) (messages ++ later) h

abbrev pub joined : List Bytes → Bytes
joined [] = []
joined (chunk ∷ chunks) = chunk ++ joined chunks

skip_crlf-push : (b more : Bytes) → skip_crlf (skip_crlf b ++ more) ≡ skip_crlf (b ++ more)
unfolding skip_crlf
skip_crlf-push [] more = refl
skip_crlf-push (c ∷ cs) more = elim (Bool-cases (c == b'\r' || c == b'\n')) [
  | inl line_end ↦ rw line_end (skip_crlf-push cs more)
  | inr other ↦ rw other (rw (skip_crlf, other) refl)
]

-- Where next gives no message and does not fail, what it does after more bytes is the same.
next-push_again :
    (f : StreamFramer) (more : Bytes)
    → (next f).1 ≡ none
    → (next f).0.failed ≡ false
    → next (push (next f).0 more) ≡ next (push f more)
unfolding next push
next-push_again f more e sound = elim (Bool-cases f.failed) [
  | inl failed ↦ absurd (ground (arith, failed, sound))
  | inr works ↦
      let front = next_from (skip_crlf f.buffer) in
      let nothing : front.1 ≡ none = rw works at e in
      let fine : front.0.failed ≡ false = rw works at sound in
      elim (next_from-none (skip_crlf f.buffer) nothing) [
        | inl failed ↦ absurd (ground (arith, failed, fine))
        | inr same ↦
            rw (works, fine, same) (ap (λ (b : Bytes). next_from b) (skip_crlf-push f.buffer more))
      ]
]

-- A framer by what next does with it.
pub Gives-none : (f g : StreamFramer) → next f ≡ (g, none) → Gives f [] g
Gives-none f g e =
    subst (λ (r : StreamFramer × Option Bytes). Gives f [] r.0) e
      (no_more f (ap (λ (r : StreamFramer × Option Bytes). r.1) e))

pub Gives-some :
    (f g h : StreamFramer) (message : Bytes) (messages : List Bytes)
    → next f ≡ (g, some message)
    → Gives g messages h
    → Gives f (message ∷ messages) h
Gives-some f g h message messages e given =
    one_more f h message messages (ap (λ (r : StreamFramer × Option Bytes). r.1) e)
      (subst (λ (r : StreamFramer × Option Bytes). Gives r.0 messages h) (sym e) given)

Gives-same :
    (f g h : StreamFramer) (messages : List Bytes)
    → next f ≡ next g
    → Gives f messages h
    → Gives g messages h
Gives-same _ g _ _ same (no_more f e) =
    Gives-none g (next f).0 (sym same ∙ ap (λ o. ((next f).0, o)) e)
Gives-same _ g _ _ same (one_more f h message rest found given) =
    Gives-some g (next f).0 h message rest (sym same ∙ ap (λ o. ((next f).0, o)) found) given

Gives-push :
    (f g h : StreamFramer) (more : Bytes) (messages later : List Bytes)
    → Gives f messages g
    → g.failed ≡ false
    → Gives (push g more) later h
    → Gives (push f more) (messages ++ later) h
Gives-push _ _ h more _ later (no_more f e) sound given =
    Gives-same (push (next f).0 more) (push f more) h later (next-push_again f more e sound) given
Gives-push _ _ h more _ later (one_more f g message rest found gives) sound given =
    Gives-some (push f more) (push (next f).0 more) h message (rest ++ later)
      (next-push f more message found) (Gives-push (next f).0 g h more rest later gives sound given)

abbrev as_framer : Bytes → StreamFramer
as_framer buffer = record { buffer = buffer; failed = false }

push-push : (f : StreamFramer) (b c : Bytes) → push (push f b) c ≡ push f (b ++ c)
unfolding push
push-push f b c = elim (Bool-cases f.failed) [
  | inl failed ↦ rw failed refl
  | inr works ↦ rw works (ap (λ (d : Bytes). as_framer d) (append_assoc f.buffer b c))
]

-- Where a framer is given a stream in chunks, and the messages are read after each chunk, and none
-- before the last makes it fail, it gives the messages that it gives when the whole stream is pushed
-- at once, and leaves the same behind.
pub GivesInChunks-joined :
    (f g : StreamFramer) (chunks messages : List Bytes)
    → GivesInChunks f chunks messages g
    → Gives (push f (joined chunks)) messages g
GivesInChunks-joined _ _ _ _ (last_chunk f g chunk messages gives) =
    subst (λ (b : Bytes). Gives (push f b) messages g) (sym (append-nil chunk)) gives
GivesInChunks-joined _ _ _ _ (one_chunk f g h chunk rest now later gives sound given) =
    subst (λ (k : StreamFramer). Gives k (now ++ later) h) (push-push f chunk (joined rest))
      (Gives-push (push f chunk) g h (joined rest) now later gives sound
        (GivesInChunks-joined g h rest later given))
