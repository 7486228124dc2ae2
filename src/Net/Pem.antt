-- ===== src/Net/Pem.antt =====
-- src/net/pem.cpp.
use ketphone.Base.{
  ℕ, zero, suc, ◌+◌, ◌==◌, Bool, true, false, not, ◌&&◌, ◌||◌, List, [], ◌∷◌, ◌++◌, Option, none,
  some, if◌then◌else◌, length, take, drop, Bytes, codes, is_empty,
}
use ketphone.Sip.Base64.{base64_decode}
use ketphone.Sip.Text.{find_text}
pub mod Certificates

-- kBegin and kEnd.
abbrev begin_mark : Bytes
begin_mark = codes "-----BEGIN CERTIFICATE-----"

abbrev end_mark : Bytes
end_mark = codes "-----END CERTIFICATE-----"

-- The body without line ends and blanks.
body_of : Bytes → Bytes
body_of [] = []
body_of (c ∷ cs) =
    let rest = body_of cs in
    if c == b'\r' || c == b'\n' || c == b' ' || c == b'\t' then rest else c ∷ rest

-- A decoded certificate, unless it is empty.
certificate_of : Bytes → Option Bytes
unfolding body_of
certificate_of text = elim (base64_decode (body_of text)) [
  | none ↦ none
  | some [] ↦ none
  | some (b ∷ bs) ↦ some (b ∷ bs)
]

-- The loop, on at most `fuel` certificates: those behind the ones found, nothing where it returns.
pub certificates_from : ℕ → Bytes → Option (List Bytes)
unfolding certificate_of
certificates_from zero pem = some []
certificates_from (suc fuel) pem = elim (find_text begin_mark pem) as (λ _. Option (List Bytes)) [
  | none ↦ some []
  | some begin ↦
      let text = drop (begin + 27) pem in
      elim (find_text end_mark text) as (λ _. Option (List Bytes)) [
        | none ↦ none
        | some end ↦ elim (certificate_of (take end text)) as (λ _. Option (List Bytes)) [
          | none ↦ none
          | some der ↦
              elim (certificates_from fuel (drop (end + 25) text)) as (λ _. Option (List Bytes)) [
                | none ↦ none
                | some rest ↦ some (der ∷ rest)
              ]
        ]
      ]
]

-- Each certificate takes at least one byte of the text.
unfoldable pub pem_certificates : Bytes → Option (List Bytes)
unfolding certificates_from
pem_certificates pem = elim (certificates_from (length pem) pem) as (λ _. Option (List Bytes)) [
  | none ↦ none
  | some [] ↦ none
  | some (der ∷ rest) ↦ some (der ∷ rest)
]
