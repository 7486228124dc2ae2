-- ===== src/Sip/Text/Search.antt =====
-- Searches in a text that goes on behind the text searched before.
use ketphone.Base.{
  ℕ, ◌+◌, ◌≤◌, ◌≡◌, refl, ap, arith, true, ◌&&◌, [], ◌∷◌, ◌++◌, some, length, Bytes, ◌==◌,
  Bool-cases, Option-cases, inl, inr,
}
use ketphone.Sip.Text.{starts_with, find_text}

starts_with-length : (word text : Bytes) → starts_with word text ≡ true → length word ≤ length text
unfolding starts_with
starts_with-length [] text h = omega arith
starts_with-length (c ∷ word) [] h = ground arith
starts_with-length (c ∷ word) (d ∷ text) h = ground (arith, starts_with-length word text)

starts_with-append :
    (word text more : Bytes)
    → length word ≤ length text
    → starts_with word (text ++ more) ≡ starts_with word text
unfolding starts_with
starts_with-append [] text more h = refl
starts_with-append (c ∷ word) [] more h = ground arith
starts_with-append (c ∷ word) (d ∷ text) more h =
    ap (λ b. c == d && b) (starts_with-append word text more (omega arith))

pub find_text-length :
    (word text : Bytes) (k : ℕ) → find_text word text ≡ some k → k + length word ≤ length text
unfolding find_text
find_text-length [] [] k h = ground arith
find_text-length (w ∷ word) [] k h = ground arith
find_text-length word (c ∷ text) k h = elim (Bool-cases (starts_with word (c ∷ text))) [
  | inl hit ↦ let fits = starts_with-length word (c ∷ text) hit in ground arith
  | inr miss ↦ elim (Option-cases (find_text word text)) [
    | inl nowhere ↦ ground arith
    | inr (j, found) ↦ let fits = find_text-length word text j found in ground arith
  ]
]

pub find_text-append :
    (word text more : Bytes) (k : ℕ)
    → find_text word text ≡ some k
    → find_text word (text ++ more) ≡ some k
unfolding find_text
find_text-append [] [] [] k h = h
find_text-append [] [] (m ∷ more) k h = h
find_text-append (w ∷ word) [] more k h = ground arith
find_text-append word (c ∷ text) more k h =
    let fits = find_text-length word (c ∷ text) k h in
    let same = starts_with-append word (c ∷ text) more (omega arith) in
    elim (Bool-cases (starts_with word (c ∷ text))) [
      | inl hit ↦ ground arith
      | inr miss ↦ elim (Option-cases (find_text word text)) [
        | inl nowhere ↦ ground arith
        | inr (j, found) ↦ let later = find_text-append word text more j found in ground arith
      ]
    ]
