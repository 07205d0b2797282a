-- ===== src/Peer.antt =====
-- Parts of RTCPeerConnection in lib/index.js.
pub mod Descriptions
pub mod Registry
pub mod Negotiation
pub mod Operations
pub mod Transport
