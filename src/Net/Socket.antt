-- ===== src/Net/Socket.antt =====
-- src/net/udp_socket.cpp, the sockets. The system's calls are a parameter: how a socket answers them
-- is settled when it is made.
use ketphone.Base.{ℕ, Bool, false, not, ◌&&◌, ◌||◌, [], Option, none, some, if◌then◌else◌, Bytes}
use ketphone.Net.Endpoint.{
  Family, Endpoint, Sockaddr, blank_endpoint, is_inet, is_inet6, to_sockaddr, sockaddr_length,
  from_sockaddr, destination,
}

-- The system: the descriptor that the n-th call of socket() gives, whether setsockopt of
-- IPV6_V6ONLY, fcntl of O_NONBLOCK, bind and connect succeed on it, and what getsockname tells.
pub record System : Type 0 where
  pub socket : ℕ → Family → Option ℕ
  pub dual_stack : ℕ → Bool
  pub nonblocking : ℕ → Bool
  pub binds : ℕ → Sockaddr → ℕ → Bool
  pub connects : ℕ → Sockaddr → ℕ → Bool
  pub getsockname : ℕ → Option (Sockaddr × ℕ)

-- What recvfrom gives: nothing at hand (EAGAIN, EWOULDBLOCK, EINTR), another failure, or a datagram
-- and the address that it came from.
pub data Arrival : Type 0 where
  nothing_there failure : Arrival
  datagram : Bytes → Sockaddr → ℕ → Arrival

pub record UdpSocket : Type 0 where
  pub fd : ℕ
  pub family : Family

-- A descriptor of an address family as UdpSocket::open sets it up and binds it to any address.
set_up : System → ℕ → Family → Option UdpSocket
set_up y fd family =
    let any : Endpoint = record blank_endpoint { family = family } in
    if is_inet6 family && not (y.dual_stack fd)
    then none
    else if not (y.nonblocking fd)
    then none
    else if not (y.binds fd (to_sockaddr any) (sockaddr_length any))
    then none
    else some (record { fd = fd; family = family })

unfoldable pub open_udp : System → ℕ → Family → Option UdpSocket
unfolding set_up
open_udp y n family =
    if not (is_inet family || is_inet6 family)
    then none
    else elim (y.socket n family) as (λ _. Option UdpSocket) [
      | none ↦ none
      | some fd ↦ set_up y fd family
    ]

-- Where a datagram for an endpoint goes: the address and its length.
unfoldable pub target : UdpSocket → Endpoint → Option (Sockaddr × ℕ)
target s remote = elim (destination s.family remote) as (λ _. Option (Sockaddr × ℕ)) [
  | none ↦ none
  | some e ↦ some (to_sockaddr e, sockaddr_length e)
]

unfoldable pub connect : System → UdpSocket → Endpoint → Bool
unfolding target
connect y s remote = elim (target s remote) as (λ _. Bool) [
  | none ↦ false
  | some (address, length) ↦ y.connects s.fd address length
]

unfoldable pub local : System → UdpSocket → Option Endpoint
local y s = elim (y.getsockname s.fd) as (λ _. Option Endpoint) [
  | none ↦ none
  | some (address, length) ↦ from_sockaddr (some address) length
]

-- The datagram, empty if nothing is there, and the sender if the caller asks for it (`from`).
unfoldable pub receive : Bool → Arrival → Option (Bytes × Option Endpoint)
receive from nothing_there = some ([], none)
receive from failure = none
receive from (datagram bytes address length) =
    if not from
    then some (bytes, none)
    else elim (from_sockaddr (some address) length) as (λ _. Option (Bytes × Option Endpoint)) [
      | none ↦ none
      | some e ↦ some (bytes, some e)
    ]
