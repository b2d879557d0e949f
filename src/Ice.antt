-- ===== src/Ice.antt =====
-- internal/ice: the lanes of the media provider and the transport plan of a session.
pub mod Pool
pub mod Plan
pub mod Cloudflare
