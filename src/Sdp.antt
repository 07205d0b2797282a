-- ===== src/Sdp.antt =====
-- The SDP helpers of lib/index.js: session descriptions as text, their lines, their media sections
-- and the ICE candidates among the lines.
pub mod Lines
pub mod Sections
pub mod Description
pub mod Candidates
pub mod Parsing
pub mod Rewriting
