-- ===== src/Net/Endpoint.antt =====
-- src/net/udp_socket.cpp, the addresses. A sockaddr is its bytes, laid out as Linux does it on a
-- little-endian machine; the resolver and the printing of addresses are the system's.
pub mod RoundTrip
pub mod Distinct
use ketphone.Base.{
  ℕ, ◌+◌, ◌-◌, ◌*◌, ◌/◌, ◌%◌, drop, length, get_or, ◌==◌, Bool, true, false, not, ◌&&◌, ◌||◌, List,
  [], ◌∷◌, ◌++◌, Option, none, some, ltb, leb, if◌then◌else◌, take, replicate, Bytes, codes,
}
use ketphone.Sip.Text.{text_eq, to_string}

-- AF_UNSPEC, AF_INET and AF_INET6.
pub data Family : Type 0 where
  unspecified inet inet6 : Family

pub record Endpoint : Type 0 where
  pub family : Family
  pub address : Bytes
  pub scope_id : ℕ
  pub port : ℕ

-- The bytes behind a `sockaddr*`. Whoever hands them over with a length has as many of them.
abbrev pub Sockaddr : Type 0
Sockaddr = Bytes

-- What the system does: inet_ntop and getaddrinfo, nothing where they fail.
pub record Resolver : Type 0 where
  pub inet_ntop : Family → Bytes → Option Bytes
  pub getaddrinfo : Bytes → Bytes → Option (List (Sockaddr × ℕ))

abbrev pub blank_endpoint : Endpoint
blank_endpoint = record { family = unspecified; address = replicate 16 0; scope_id = 0; port = 0 }

abbrev pub is_inet6 : Family → Bool
is_inet6 unspecified = false
is_inet6 inet = false
is_inet6 inet6 = true

abbrev pub is_inet : Family → Bool
is_inet unspecified = false
is_inet inet = true
is_inet inet6 = false

abbrev pub same_family : Family → Family → Bool
same_family unspecified g = not (is_inet g) && not (is_inet6 g)
same_family inet g = is_inet g
same_family inet6 g = is_inet6 g

pub address_string : Resolver → Endpoint → Bytes
address_string r e =
    let scope =
      if is_inet6 e.family && not (e.scope_id == 0)
      then codes "%" ++ to_string e.scope_id
      else [] in
    let text : Bytes = elim (r.inet_ntop e.family e.address) [
      | none ↦ []
      | some address ↦ address ++ scope
    ] in
    if is_inet e.family || is_inet6 e.family then text else []

-- A uint16_t and a uint32_t in memory, and read from there.
u16_bytes : ℕ → Bytes
u16_bytes n = n % 256 ∷ n / 256 % 256 ∷ []

u32_bytes : ℕ → Bytes
u32_bytes n = n % 256 ∷ n / 256 % 256 ∷ n / 65536 % 256 ∷ n / 16777216 % 256 ∷ []

u16_at : Bytes → ℕ → ℕ
u16_at raw offset = get_or raw offset 0 + 256 * get_or raw (offset + 1) 0

u32_at : Bytes → ℕ → ℕ
u32_at raw offset =
    let low = get_or raw offset 0 + 256 * get_or raw (offset + 1) 0 in
    let high = get_or raw (offset + 2) 0 + 256 * get_or raw (offset + 3) 0 in low + 65536 * high

-- The bytes of a uint16_t swapped; ntohs is the same.
htons : ℕ → ℕ
htons n = n % 256 * 256 + n / 256 % 256

-- AF_UNSPEC, AF_INET and AF_INET6 as numbers; another number is none of the three.
abbrev family_number : Family → ℕ
family_number unspecified = 0
family_number inet = 2
family_number inet6 = 10

abbrev numbered_family : ℕ → Family
numbered_family n = if n == 2 then inet else if n == 10 then inet6 else unspecified

-- A sockaddr_in: the family, the port, four bytes of address, and eight of padding.
sockaddr_in : Endpoint → Bytes
unfolding u16_bytes htons
sockaddr_in e =
    u16_bytes (family_number inet)
    ++ (u16_bytes (htons e.port) ++ (take 4 e.address ++ replicate 8 0))

-- A sockaddr_in6: the family, the port, the flow, sixteen bytes of address, and the scope.
sockaddr_in6 : Endpoint → Bytes
unfolding u16_bytes u32_bytes htons
sockaddr_in6 e =
    u16_bytes (family_number inet6)
    ++ (u16_bytes (htons e.port) ++ (u32_bytes 0 ++ (take 16 e.address ++ u32_bytes e.scope_id)))

sockaddr_for : Family → Endpoint → Bytes
unfolding sockaddr_in sockaddr_in6
sockaddr_for unspecified e = []
sockaddr_for inet e = sockaddr_in e
sockaddr_for inet6 e = sockaddr_in6 e

-- A sockaddr_storage: 128 bytes, zero behind the address.
unfoldable pub to_sockaddr : Endpoint → Sockaddr
unfolding sockaddr_for
to_sockaddr e = let raw = sockaddr_for e.family e in raw ++ replicate (128 - length raw) 0

length_for : Family → ℕ
length_for unspecified = 0
length_for inet = 16
length_for inet6 = 28

unfoldable pub sockaddr_length : Endpoint → ℕ
unfolding length_for
sockaddr_length e = length_for e.family

-- from_sockaddr on an address that is there and at least as long as a sockaddr, by its family.
endpoint_of : Family → Sockaddr → ℕ → Option Endpoint
unfolding u16_at u32_at htons
endpoint_of unspecified raw length = none
endpoint_of inet raw length =
    if leb 16 length
    then some (record {
      family = inet;
      address = take 4 (drop 4 raw) ++ replicate 12 0;
      scope_id = 0;
      port = htons (u16_at raw 2);
    })
    else none
endpoint_of inet6 raw length =
    if leb 28 length
    then some (record {
      family = inet6;
      address = take 16 (drop 8 raw);
      scope_id = u32_at raw 24;
      port = htons (u16_at raw 2);
    })
    else none

unfoldable pub from_sockaddr : Option Sockaddr → ℕ → Option Endpoint
unfolding endpoint_of u16_at
from_sockaddr none length = none
from_sockaddr (some raw) length =
    if ltb length 16 then none else endpoint_of (numbered_family (u16_at raw 0)) raw length

-- The operator== of Endpoint.
unfoldable pub same_endpoint : Endpoint → Endpoint → Bool
same_endpoint e f =
    same_family e.family f.family
    && text_eq e.address f.address
    && e.scope_id == f.scope_id
    && e.port == f.port

unfoldable pub has_endpoint : Endpoint → List Endpoint → Bool
unfolding same_endpoint
has_endpoint e [] = false
has_endpoint e (f ∷ fs) = same_endpoint f e || has_endpoint e fs

-- The endpoint behind those found so far, if it is new.
add_endpoint : List Endpoint → Option Endpoint → List Endpoint
add_endpoint found none = found
add_endpoint found (some e) = if has_endpoint e found then found else found ++ e ∷ []

collect : List Endpoint → List (Sockaddr × ℕ) → List Endpoint
unfolding add_endpoint
collect found [] = found
collect found ((raw, length) ∷ rest) =
    collect (add_endpoint found (from_sockaddr (some raw) length)) rest

unfoldable pub resolve_all : Resolver → Bytes → ℕ → List Endpoint
unfolding collect
resolve_all r host port = elim (r.getaddrinfo host (to_string port)) [
  | none ↦ []
  | some addresses ↦ collect [] addresses
]

pub resolve : Resolver → Bytes → ℕ → Option Endpoint
resolve r host port = elim (resolve_all r host port) [ [] ↦ none | e ∷ es ↦ some e ]

-- UdpSocket::destination on a socket of a family: an IPv4 address mapped for an IPv6 socket.
unfoldable pub destination : Family → Endpoint → Option Endpoint
destination family remote =
    if same_family remote.family family
    then some remote
    else if not (is_inet6 family) || not (is_inet remote.family)
    then none
    else some (record {
      family = inet6;
      address = replicate 10 0 ++ (0xff ∷ 0xff ∷ take 4 remote.address);
      scope_id = 0;
      port = remote.port;
    })
