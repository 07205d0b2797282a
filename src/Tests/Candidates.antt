-- ===== src/Tests/Candidates.antt =====
-- Tests and instances for parsed candidates.
use webrtc_node.Base.{some, ◌≡◌, refl, codes}
use webrtc_node.Sdp.Parsing.{parse_candidate, no_parts}

parsing_tests :
    ((parse_candidate
        (codes "candidate:1 1 UDP 5 1.2.3.4 9 typ srflx raddr 5.6.7.8 rport 10")).related_address
      ≡ some (codes "5.6.7.8"))
    × ((parse_candidate (codes "candidate:1 1 UDP 5 1.2.3.4 9 typ host")).protocol
        ≡ some (codes "udp"))
    × ((parse_candidate (codes "candidate:1 2 UDP 5 1.2.3.4 9 typ host")).component
        ≡ some (codes "rtcp"))
    × (parse_candidate (codes "candidate:1 1 udp 5 1.2.3.4 9 typ") ≡ no_parts)
unfolding parse_candidate
parsing_tests = (refl, refl, refl, refl)
