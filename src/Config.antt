-- ===== src/Config.antt =====
-- The checks of what scripts pass in, in lib/index.js: options of data channels, ICE servers and the
-- configuration of a peer.
pub mod Init
pub mod IceUrl
pub mod Servers
pub mod CandidateInit
