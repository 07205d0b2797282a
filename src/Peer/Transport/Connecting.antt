-- ===== src/Peer/Transport/Connecting.antt =====
-- When the SCTP transport of a peer is connected, and that it gets there.
use webrtc_node.Base.{Option, none, some, true, false, ◌||◌, ◌≡◌, if◌then◌else◌}
use webrtc_node.Peer.Transport.{
  Link, SctpTransport, TransportState, transport_connecting, transport_connected, transport_closed,
  is_link_down, has_path, should_connect, gets_connected,
}

-- What a state of the transport says of the peer.
abbrev pub Tells : Link → TransportState → Type 0
Tells l transport_connecting = is_link_down l ≡ false
Tells l transport_connected = (has_path l ≡ true) × (is_link_down l ≡ false)
Tells l transport_closed = is_link_down l ≡ true

abbrev pub IsJustified : Link → Option SctpTransport → Type 0
IsJustified l none = (l.local_data || l.remote_data) ≡ false
IsJustified l (some t) = ((l.local_data || l.remote_data) ≡ true) × Tells l t.state

-- The state that an update gives.
abbrev next_state : Link → SctpTransport → TransportState
next_state l t =
    if is_link_down l
    then transport_closed
    else if gets_connected l t
    then transport_connected
    else transport_connecting

-- A transport that is to be connected, on a peer that is not down.
abbrev pub IsReady : Link → Type 0
IsReady l =
    (t : SctpTransport) × (l.transport ≡ some t)
    × (should_connect l t ≡ true)
    × (is_link_down l ≡ false)

-- The transport is connected.
abbrev pub IsConnected : Link → Type 0
IsConnected l = (t : SctpTransport) × (l.transport ≡ some t) × (t.state ≡ transport_connected)
