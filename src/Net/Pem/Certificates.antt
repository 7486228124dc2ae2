-- ===== src/Net/Pem/Certificates.antt =====
-- What pem_certificates gives.
use ketphone.Base.{
  ℕ, zero, suc, ◌+◌, ◌≤◌, ◌≡◌, refl, arith, false, List, [], ◌∷◌, Option, none, some, length,
  length-drop, drop, take, Bytes, All, is_empty, option_case, subst, sym, Option-cases, inl, inr,
}
use ketphone.Net.Pem.{certificate_of, certificates_from, pem_certificates, begin_mark, end_mark}
use ketphone.Sip.Text.{find_text}
use ketphone.Sip.Text.Search.{find_text-length}

abbrev AreFilled : Option (List Bytes) → Type 0
AreFilled none = Unit
AreFilled (some ders) = All (λ der. is_empty der ≡ false) ders

certificate_of-filled : (text der : Bytes) → certificate_of text ≡ some der → is_empty der ≡ false
unfolding certificate_of
certificate_of-filled text der e = ground arith

certificates_from-AreFilled : (fuel : ℕ) (pem : Bytes) → AreFilled (certificates_from fuel pem)
unfolding certificates_from
certificates_from-AreFilled zero pem = tt
certificates_from-AreFilled (suc fuel) pem =
    option_case AreFilled (find_text begin_mark pem) (λ _. tt)
      λ begin _.
        option_case AreFilled (find_text end_mark (drop (begin + 27) pem)) (λ _. tt)
          λ end _.
            option_case AreFilled (certificate_of (take end (drop (begin + 27) pem))) (λ _. tt)
              λ der e.
                let rest = drop (end + 25) (drop (begin + 27) pem) in
                elim (Option-cases (certificates_from fuel rest)) [
                  | inl refused ↦ rw refused tt
                  | inr (ders, given) ↦ rw given (
                    certificate_of-filled (take end (drop (begin + 27) pem)) der e,
                    subst AreFilled given (certificates_from-AreFilled fuel rest),
                  )
                ]

some_filled :
    (d : Bytes) (ds ders : List Bytes)
    → AreFilled (some (d ∷ ds))
    → ◌≡◌ {A = Option (List Bytes)} (some (d ∷ ds)) (some ders)
    → (is_empty ders ≡ false) × All (λ der. is_empty der ≡ false) ders
some_filled d ds ders filled e = subst Given e (refl, filled)
  where
    Given : Option (List Bytes) → Type 0
    Given none = Unit
    Given (some ds) = (is_empty ds ≡ false) × All (λ der. is_empty der ≡ false) ds

-- Certificates that pem_certificates gives are at least one, and none is empty.
pub pem_certificates-filled :
    (pem : Bytes) (ders : List Bytes)
    → pem_certificates pem ≡ some ders
    → (is_empty ders ≡ false) × All (λ der. is_empty der ≡ false) ders
unfolding pem_certificates
pem_certificates-filled pem ders e = elim (Option-cases (certificates_from (length pem) pem)) [
  | inl refused ↦ ground arith
  | inr ([], given) ↦ ground arith
  | inr ((d ∷ ds), given) ↦
      let filled = subst AreFilled given (certificates_from-AreFilled (length pem) pem) in
      some_filled d ds ders filled (rw (pem_certificates, given) at e)
]

nothing_begins : (pem : Bytes) → length pem ≤ 0 → find_text begin_mark pem ≡ none
nothing_begins pem h = elim (Option-cases (find_text begin_mark pem)) [
  | inl nowhere ↦ nowhere
  | inr (begin, found) ↦ absurd (omega (arith, find_text-length begin_mark pem begin found))
]

without_mark :
    (n : ℕ) (pem : Bytes) → find_text begin_mark pem ≡ none → certificates_from n pem ≡ some []
unfolding certificates_from
without_mark zero pem e = refl
without_mark (suc n) pem e = rw (certificates_from, e) refl

certificates_from_fuels :
    (m n : ℕ) (pem : Bytes)
    → length pem ≤ m
    → length pem ≤ n
    → certificates_from m pem ≡ certificates_from n pem
unfolding certificates_from
certificates_from_fuels zero n pem h k = sym (without_mark n pem (nothing_begins pem h))
certificates_from_fuels (suc m) zero pem h k = without_mark (suc m) pem (nothing_begins pem k)
certificates_from_fuels (suc m) (suc n) pem h k = elim (Option-cases (find_text begin_mark pem)) [
  | inl nowhere ↦ rw (certificates_from, nowhere) refl
  | inr (begin, found) ↦
      let text = drop (begin + 27) pem in
      elim (Option-cases (find_text end_mark text)) [
        | inl open_ended ↦ rw (certificates_from, found, open_ended) refl
        | inr (end, closed) ↦
            let rest = drop (end + 25) text in
            let shorter = length-drop (end + 25) text in
            let short = length-drop (begin + 27) pem in
            let inside = find_text-length begin_mark pem begin found in
            let same = certificates_from_fuels m n rest (omega arith) (omega arith) in
            elim (Option-cases (certificate_of (take end text))) [
              | inl refused ↦ rw (certificates_from, found, closed, refused) refl
              | inr (der, decoded) ↦ rw (certificates_from, found, closed, decoded, same) refl
            ]
      ]
]

-- More rounds than the text has bytes do not change what the loop of pem_certificates gives, so it
-- ends by its own condition.
pub certificates_from_enough :
    (n : ℕ) (pem : Bytes)
    → length pem ≤ n
    → certificates_from n pem ≡ certificates_from (length pem) pem
certificates_from_enough n pem h = certificates_from_fuels n (length pem) pem h (omega arith)
