-- ===== src/Peer/Descriptions/Limits.antt =====
-- What the limit of a message that `_currentSctpMaxMessageSize` computes is.
use webrtc_node.Base.{
  ℕ, ◌≤◌, ◌<◌, Option, none, some, true, false, ◌≡◌, ◌≢◌, arith, min, refl, ◌==◌, Bool-cases, inl,
  inr,
}
use webrtc_node.Sdp.Description.{Description, has_data_media_section, max_message_size_from_sdp}
use webrtc_node.Peer.Descriptions.{
  bytes_at_most, local_limit, meet_limits, current_sctp_max_message_size,
}

-- The remote limit admits `n` bytes: missing, it stands for 65536, and zero admits all.
abbrev pub Admits : Option ℕ → ℕ → Type 0
Admits none n = n ≤ 65536
Admits (some m) n = m ≢ 0 → n ≤ m

meet_limits-bounds :
    (own : ℕ) (r : Option ℕ)
    → 0 < own
    → (n : ℕ) × (meet_limits own r ≡ bytes_at_most n) × (0 < n) × (n ≤ own) × Admits r n
meet_limits-bounds own none h = (min 65536 own, refl, omega arith, omega arith, omega arith)
meet_limits-bounds own (some m) h =
    let o : (own == 0) ≡ false = ground arith in
    elim (Bool-cases (m == 0)) [
      | inl e ↦ rw (e, o) (own, refl, h, omega arith, λ k. absurd (k (ground arith)))
      | inr e ↦ rw (e, o) (min m own, refl, ground arith, omega arith, λ k. omega arith)
    ]

local_limit-positive : (l : Option ℕ) → 0 < local_limit l
local_limit-positive none = omega arith
local_limit-positive (some n) = ground arith

-- When both descriptions have a data section and the remote one is not looped back, the limit is a
-- positive number of bytes, within the local limit, or its default where the description has none
-- or zero, and within the remote limit, unless that is zero. It is never infinite.
pub current_sctp_max_message_size-bounds :
    (l r : Description)
    → has_data_media_section l.sdp ≡ true
    → has_data_media_section r.sdp ≡ true
    → (n : ℕ) × (current_sctp_max_message_size false (some l) (some r) ≡ bytes_at_most n)
      × (0 < n)
      × (n ≤ local_limit (max_message_size_from_sdp l.sdp))
      × Admits (max_message_size_from_sdp r.sdp) n
unfolding current_sctp_max_message_size
current_sctp_max_message_size-bounds l r a b =
    rw (a, b)
      (meet_limits-bounds (local_limit (max_message_size_from_sdp l.sdp))
        (max_message_size_from_sdp r.sdp) (local_limit-positive (max_message_size_from_sdp l.sdp)))
