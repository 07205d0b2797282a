-- ===== src/Tests/Transports.antt =====
-- Tests and instances for the SCTP transport of a peer.
use webrtc_node.Base.{List, [], ◌∷◌, Option, none, some, true, false, ◌≡◌, refl}
use webrtc_node.Peer.Descriptions.{bytes_at_most}
use webrtc_node.Peer.Transport.{
  Link, connected, failed, TransportState, transport_connected, transport_closed, update_transport,
  run_transition,
}

abbrev connected_link : Link
connected_link = record {
  link_closed = false;
  connection = connected;
  ice = connected;
  local_data = true;
  remote_data = true;
  self_remote = false;
  same_process = false;
  link_operations = 0;
  paired = none;
  transport = none;
  limit = bytes_at_most 1000;
  native_id = none;
  transition_scheduled = false;
  transition_ready = false;
  update_scheduled = false;
  poll_scheduled = false;
  poll_deadline = 0;
}

abbrev changes_of : Link → Option (List TransportState)
changes_of l = elim l.transport [ none ↦ none | some t ↦ some t.changes ]

transport_tests :
    (changes_of (update_transport 10 connected_link) ≡ some [])
    × (changes_of (run_transition 11 (update_transport 10 connected_link))
        ≡ some (transport_connected ∷ []))
    × (changes_of (update_transport 12 (record connected_link { connection = failed }))
        ≡ some (transport_closed ∷ []))
unfolding update_transport run_transition
transport_tests = (refl, refl, refl)
