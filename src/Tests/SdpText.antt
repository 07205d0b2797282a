-- ===== src/Tests/SdpText.antt =====
-- Tests and instances for session descriptions.
use webrtc_node.Base.{
  ◌≡◌, refl, String, Str, codes, List, [], ◌∷◌, ◌++◌, none, some, true, false, ok, arith,
}
use webrtc_node.Sdp.Lines.{crlf, split_sdp_lines, join_lines}
use webrtc_node.Sdp.Lines.Laws.{NoLf}
use webrtc_node.Sdp.Sections.{parse_sdp_media_sections, serialize_sdp, first_ice_parameters}
use webrtc_node.Sdp.Sections.Laws.{parse-keeps_lines, parse-serialize, sdp_lines}
use webrtc_node.Sdp.Description.{
  Description, offer, sdp_syntax_error_line, is_no_media_sdp, has_data_media_section,
  max_message_size_from_sdp, dtls_setup,
}
use webrtc_node.Sdp.Description.Splitting.{AreLinesOf}
use webrtc_node.Sdp.Description.Syntax.{IsReport, sdp_syntax_error_line-IsReport}
use webrtc_node.Sdp.Candidates.{
  Candidate, append_remote_candidate, strip_ice_candidate_lines, extract_ice_candidates,
}
use webrtc_node.Sdp.Candidates.Stripping.{extract-strip, is_skipped}
use webrtc_node.Sdp.Candidates.Removal.{AreStripped, parse-strip}
use webrtc_node.Sdp.Candidates.Addition.{IsLineOf, IsExtended, parse-append}

sdp_text : Unit {0}
unfolding split_sdp_lines join_lines parse_sdp_media_sections serialize_sdp first_ice_parameters
    sdp_syntax_error_line is_no_media_sdp has_data_media_section max_message_size_from_sdp
    dtls_setup append_remote_candidate strip_ice_candidate_lines extract_ice_candidates
sdp_text = tt

abbrev lines : List String → Str
lines [] = []
lines (l ∷ ls) = codes l ++ (crlf ++ lines ls)

abbrev sample : Str
sample = lines (
    "v=0" ∷ "a=ice-ufrag:u1" ∷ "a=ice-pwd:p1" ∷ "m=application 9 UDP/DTLS/SCTP x" ∷ "a=mid:0"
    ∷ "a=setup:Active" ∷ "a=max-message-size:1000" ∷ [])

abbrev sample_description : Description
sample_description = record { type = offer; sdp = sample; js_only_ice_restart = false }

abbrev host : Candidate
host = record {
  candidate = codes "candidate:1 1 udp 5 1.2.3.4 9 typ host";
  sdp_mid = some (codes "0");
  sdp_m_line_index = none;
  username_fragment = none;
}

abbrev with_host : Description
with_host = record sample_description {
  sdp = sample ++ lines ("a=candidate:1 1 udp 5 1.2.3.4 9 typ host" ∷ []);
}

reading_tests :
    (sdp_syntax_error_line sample ≡ none)
    × (sdp_syntax_error_line (lines ("v=0" ∷ "bad" ∷ [])) ≡ some 2)
    × (is_no_media_sdp sample ≡ false)
    × (has_data_media_section sample ≡ true)
    × (max_message_size_from_sdp sample ≡ some 1000)
    × (dtls_setup sample ≡ some (codes "active"))
unfolding sdp_text
reading_tests = (refl, refl, refl, refl, refl, refl)

ice_parameters :
    first_ice_parameters sample
    ≡ some (record { username_fragment = codes "u1"; password = codes "p1" })
unfolding sdp_text
ice_parameters = refl

appended_host : append_remote_candidate sample_description host ≡ ok with_host
unfolding sdp_text
appended_host = refl

stripped_host : strip_ice_candidate_lines with_host ≡ sample_description
unfolding sdp_text
stripped_host = refl

sdp_syntax_error_line-IsReport_example :
    (ls : List Str) × AreLinesOf sample ls × IsReport ls (sdp_syntax_error_line sample)
sdp_syntax_error_line-IsReport_example = sdp_syntax_error_line-IsReport sample

parse-keeps_lines_example : sdp_lines (parse_sdp_media_sections sample) ≡ split_sdp_lines sample
parse-keeps_lines_example = parse-keeps_lines sample

parse-serialize_example :
    parse_sdp_media_sections (serialize_sdp (parse_sdp_media_sections sample))
    ≡ parse_sdp_media_sections sample
parse-serialize_example = parse-serialize sample

not_skipped : is_skipped with_host.sdp ≡ false
unfolding is_no_media_sdp
not_skipped = refl

parse-strip_example :
    ((parse_sdp_media_sections (strip_ice_candidate_lines with_host).sdp).session_lines
      ≡ (parse_sdp_media_sections with_host.sdp).session_lines)
    × AreStripped
        (parse_sdp_media_sections with_host.sdp).media_sections
        (parse_sdp_media_sections (strip_ice_candidate_lines with_host).sdp).media_sections
parse-strip_example = parse-strip with_host not_skipped

extract-strip_example : extract_ice_candidates (strip_ice_candidate_lines with_host) ≡ []
extract-strip_example = extract-strip with_host

sample_not_skipped : is_skipped sample ≡ false
unfolding is_no_media_sdp
sample_not_skipped = refl

host-NoLf : NoLf host.candidate
host-NoLf = omega arith

parse-append_example :
    (line : Str) × IsLineOf host.candidate line
    × IsExtended host line
        (parse_sdp_media_sections sample)
        (parse_sdp_media_sections with_host.sdp)
parse-append_example =
    parse-append sample_description host with_host sample_not_skipped host-NoLf appended_host
