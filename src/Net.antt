-- ===== src/Net.antt =====
-- src/net: the addresses and the certificates that the code handles itself. The sockets and the TLS
-- libraries are the system's.
pub mod Endpoint
pub mod Socket
pub mod Pem
mod Checks
