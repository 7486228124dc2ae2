-- ===== src/Net/Endpoint/RoundTrip.antt =====
-- Addresses handed to the system and read back.
use ketphone.Base.{
  ◌-◌, Option, ℕ, suc, zero, ◌+◌, ◌^◌, ◌<◌, ◌≡◌, refl, arith, true, false, ◌++◌, [], ◌∷◌, some,
  length, take, replicate, Bytes, get_or, ◌∙◌, ap, length-take, subst, sym,
}
use ketphone.Net.Endpoint.{
  Sockaddr, sockaddr_for, length_for, Family, unspecified, inet, inet6, Endpoint, to_sockaddr,
  sockaddr_length, from_sockaddr, is_inet, is_inet6, sockaddr_in, sockaddr_in6, endpoint_of,
  u16_bytes, u32_bytes, u16_at, u32_at, htons,
}

-- An IPv4 or IPv6 endpoint as the code makes them: sixteen bytes of address, of which IPv4 fills the
-- first four and has no scope, a port of 16 bits and a scope of 32.
pub record IsEndpoint (e : Endpoint) : Type 0 where
  pub specified : is_inet e.family ≡ false → is_inet6 e.family ≡ true
  pub filled : length e.address ≡ 16
  pub short : is_inet e.family ≡ true → e.address ≡ take 4 e.address ++ replicate 12 0
  pub unscoped : is_inet e.family ≡ true → e.scope_id ≡ 0
  pub port_fits : e.port < 2 ^ 16
  pub scope_fits : e.scope_id < 2 ^ 32

take_exact : (n : ℕ) (xs ys zs : Bytes) → length xs ≡ n → take n ((xs ++ ys) ++ zs) ≡ xs
take_exact n [] ys zs h = subst (λ k. take k (ys ++ zs) ≡ []) h refl
take_exact zero (x ∷ xs) ys zs h = absurd (omega (arith, h))
take_exact (suc n) (x ∷ xs) ys zs h =
    ap (λ rest. x ∷ rest) (take_exact n xs ys zs (omega (arith, h)))

get_or_behind :
    (i : ℕ) (xs ys zs : Bytes) → get_or ((xs ++ ys) ++ zs) (length xs + i) 0 ≡ get_or (ys ++ zs) i 0
get_or_behind i [] ys zs =
    let same : 0 + i ≡ i = omega arith in ap (λ k. get_or (ys ++ zs) k 0) same
get_or_behind i (x ∷ xs) ys zs =
    let same : length (x ∷ xs) + i ≡ suc (length xs + i) = omega arith in
    ap (λ k. get_or (x ∷ ((xs ++ ys) ++ zs)) k 0) same ∙ get_or_behind i xs ys zs

-- What is read.
abbrev ipv4 : Bytes → ℕ → Option Endpoint
ipv4 address port =
    some (record { family = inet; address = address ++ replicate 12 0; scope_id = 0; port = port })

abbrev ipv6 : Bytes → ℕ → ℕ → Option Endpoint
ipv6 address scope_id port =
    some (record { family = inet6; address = address; scope_id = scope_id; port = port })

htons-u16 :
    (port : ℕ) (rest : Bytes)
    → port < 2 ^ 16
    → htons (u16_at (u16_bytes (htons port) ++ rest) 0) ≡ port
unfolding htons u16_at u16_bytes
htons-u16 port rest h = omega (arith, h)

endpoint_of-sockaddr_in :
    (e : Endpoint) (padding : Bytes)
    → length e.address ≡ 16
    → e.port < 2 ^ 16
    → endpoint_of inet (sockaddr_in e ++ padding) 16 ≡ ipv4 (take 4 e.address) e.port
unfolding endpoint_of sockaddr_in u16_bytes u16_at
endpoint_of-sockaddr_in e padding filled fits =
    let long : length (take 4 e.address) ≡ 4 = omega (arith, length-take 4 e.address, filled) in
    let address = take_exact 4 (take 4 e.address) (replicate 8 0) padding long in
    ap (λ a. ipv4 a (htons (u16_at (sockaddr_in e ++ padding) 2))) address
    ∙ ap (λ p. ipv4 (take 4 e.address) p) (htons-u16 e.port [] fits)

u32_at-sockaddr_in6 :
    (e : Endpoint) (padding : Bytes)
    → length e.address ≡ 16
    → e.scope_id < 2 ^ 32
    → u32_at (sockaddr_in6 e ++ padding) 24 ≡ e.scope_id
unfolding u32_at sockaddr_in6 u16_bytes u32_bytes
u32_at-sockaddr_in6 e padding filled fits =
    let a = take 16 e.address in
    let long : length a ≡ 16 = omega (arith, length-take 16 e.address, filled) in
    let at = λ (i : ℕ).
      ap (λ (k : ℕ). get_or ((a ++ u32_bytes e.scope_id) ++ padding) (k + i) 0) (sym long)
      ∙ get_or_behind i a (u32_bytes e.scope_id) padding in
    omega (arith, at 0, at 1, at 2, at 3, fits)

endpoint_of-sockaddr_in6 :
    (e : Endpoint) (padding : Bytes)
    → length e.address ≡ 16
    → e.port < 2 ^ 16
    → e.scope_id < 2 ^ 32
    → endpoint_of inet6 (sockaddr_in6 e ++ padding) 28 ≡ ipv6 (take 16 e.address) e.scope_id e.port
unfolding endpoint_of sockaddr_in6 u16_bytes u32_bytes u16_at
endpoint_of-sockaddr_in6 e padding filled fits small =
    let raw = sockaddr_in6 e ++ padding in
    let a = take 16 e.address in
    let long : length a ≡ 16 = omega (arith, length-take 16 e.address, filled) in
    let address = take_exact 16 a (u32_bytes e.scope_id) padding long in
    ap (λ xs. ipv6 xs (u32_at raw 24) (htons (u16_at raw 2))) address
    ∙ ap (λ n. ipv6 a n (htons (u16_at raw 2))) (u32_at-sockaddr_in6 e padding filled small)
    ∙ ap (λ p. ipv6 a e.scope_id p) (htons-u16 e.port [] fits)

take_all : (n : ℕ) (xs : Bytes) → length xs ≡ n → take n xs ≡ xs
take_all n [] h = subst (λ k. take {A = ℕ} k [] ≡ []) h refl
take_all zero (x ∷ xs) h = absurd (omega (arith, h))
take_all (suc n) (x ∷ xs) h = ap (λ rest. x ∷ rest) (take_all n xs (omega (arith, h)))

-- The bytes that to_sockaddr makes of an IPv4 or IPv6 endpoint, with the length of its address, read
-- back as the endpoint, where the address has sixteen bytes, the port 16 bits and the scope 32, and
-- an IPv4 address has zeros behind its first four bytes and no scope.
pub from_sockaddr-to_sockaddr :
    (e : Endpoint)
    → IsEndpoint e
    → from_sockaddr (some (to_sockaddr e)) (sockaddr_length e) ≡ some e
unfolding from_sockaddr to_sockaddr sockaddr_length sockaddr_for length_for u16_at u16_bytes
    sockaddr_in sockaddr_in6
from_sockaddr-to_sockaddr e v = go e.family refl
  where
    handed : Family → Sockaddr
    handed f = let raw = sockaddr_for f e in raw ++ replicate (128 - length raw) 0

    go :
        (f : Family)
        → e.family ≡ f
        → from_sockaddr (some (to_sockaddr e)) (sockaddr_length e) ≡ some e
    go unspecified s = ground (arith, v.specified)
    go inet s =
        let read =
          endpoint_of-sockaddr_in e (replicate (128 - length (sockaddr_in e)) 0) v.filled
            v.port_fits in
        let same : ipv4 (take 4 e.address) e.port ≡ some e = ground arith in
        subst (λ f. from_sockaddr (some (handed f)) (length_for f) ≡ some e) (sym s) (read ∙ same)
    go inet6 s =
        let read =
          endpoint_of-sockaddr_in6 e (replicate (128 - length (sockaddr_in6 e)) 0) v.filled
            v.port_fits v.scope_fits in
        let all = take_all 16 e.address v.filled in
        let same : ipv6 (take 16 e.address) e.scope_id e.port ≡ some e = ground arith in
        subst (λ f. from_sockaddr (some (handed f)) (length_for f) ≡ some e) (sym s) (read ∙ same)
