-- ===== src/Sip.antt =====
-- src/sip: text helpers, random values, MD5 and digest authentication, base64, SIP messages, stream
-- framing and SDP. Text is a list of byte values.
pub mod Text
pub mod Random
pub mod Base64
pub mod Md5
pub mod Digest
pub mod Message
pub mod Framer
pub mod Sdp
