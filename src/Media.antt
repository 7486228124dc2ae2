-- ===== src/Media.antt =====
-- src/media: G.711, RTP packets and receive statistics, the jitter buffer, the sample ring and the
-- session that joins them.
pub mod G711
pub mod Rtp
pub mod Statistics
pub mod Jitter
pub mod Ring
pub mod Srtp
pub mod Session
mod Checks
