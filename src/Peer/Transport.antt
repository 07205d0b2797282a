-- ===== src/Peer/Transport.antt =====
-- The SCTP transport of a peer in lib/index.js: RTCSctpTransport, _updateSctpTransport, the transition
-- to the state connected, and the poll for it.
pub mod Connecting
use webrtc_node.Base.{
  ℕ, ◌+◌, List, [], ◌∷◌, ◌++◌, Option, none, some, Bool, true, false, not, ◌&&◌, ◌||◌, ◌==◌, ltb,
  if◌then◌else◌, is_some, Num,
}
use webrtc_node.Peer.Descriptions.{Limit, current_sctp_max_channels}

-- `connectionState` and `iceConnectionState`, with the values that the transport looks at.
pub data ConnectionState : Type 0 where
  starting connected completed disconnected failed ended : ConnectionState

pub data TransportState : Type 0 where
  transport_connecting transport_connected transport_closed : TransportState

-- `_state`, `_maxMessageSize`, `_maxChannels`, and the states of the statechange events so far.
pub record SctpTransport : Type 0 where
  pub state : TransportState
  pub max_message_size : Limit
  pub max_channels : Option ℕ
  pub changes : List TransportState

-- What a peer shows to the one that it is paired with: whether its descriptions have data sections,
-- its states and its pending operations.
pub record Paired : Type 0 where
  pub paired_local_data : Bool
  pub paired_remote_data : Bool
  pub paired_connection : ConnectionState
  pub paired_ice : ConnectionState
  pub paired_operations : ℕ

-- The part of a peer that its transport depends on; `limit` is what `_currentSctpMaxMessageSize` gives,
-- and `native_id` what the native peer says of its largest identifier.
pub record Link : Type 0 where
  pub link_closed : Bool
  pub connection : ConnectionState
  pub ice : ConnectionState
  pub local_data : Bool
  pub remote_data : Bool
  pub self_remote : Bool
  pub same_process : Bool
  pub link_operations : ℕ
  pub paired : Option Paired
  pub transport : Option SctpTransport
  pub limit : Limit
  pub native_id : Option Num
  pub transition_scheduled : Bool
  pub transition_ready : Bool
  pub update_scheduled : Bool
  pub poll_scheduled : Bool
  pub poll_deadline : ℕ

abbrev pub is_down : ConnectionState → Bool
is_down disconnected = true
is_down failed = true
is_down ended = true
is_down _ = false

abbrev pub is_up : ConnectionState → Bool
is_up connected = true
is_up completed = true
is_up _ = false

abbrev pub is_connection_up : ConnectionState → Bool
is_connection_up connected = true
is_connection_up _ = false

abbrev pub is_connected : TransportState → Bool
is_connected transport_connected = true
is_connected _ = false

abbrev pub is_connecting : TransportState → Bool
is_connecting transport_connecting = true
is_connecting _ = false

-- `closed` of `_updateSctpTransport`.
abbrev pub is_link_down : Link → Bool
is_link_down l = l.link_closed || (is_down l.connection || is_down l.ice)

-- `nativeTransportConnected`.
abbrev pub is_native_up : Link → Bool
is_native_up l = is_connection_up l.connection || is_up l.ice

abbrev pub is_negotiated : Link → Bool
is_negotiated l = l.local_data && l.remote_data

abbrev pub paired_is_negotiated : Option Paired → Bool
paired_is_negotiated none = false
paired_is_negotiated (some p) = p.paired_local_data && p.paired_remote_data

abbrev pub paired_is_up : Option Paired → Bool
paired_is_up none = false
paired_is_up (some p) = is_connection_up p.paired_connection || is_up p.paired_ice

abbrev pub paired_is_idle : Option Paired → Bool
paired_is_idle none = true
paired_is_idle (some p) = p.paired_operations == 0

-- `nativeConnected || sameProcessConnected`.
abbrev pub has_path : Link → Bool
has_path l =
    (is_native_up l && (is_negotiated l && not l.self_remote))
    || (l.same_process
        && (is_negotiated l
            && (paired_is_negotiated l.paired && (is_native_up l || paired_is_up l.paired))))

-- `operationsSettled`.
abbrev pub is_settled : Link → SctpTransport → Bool
is_settled l t = (l.link_operations == 0 && paired_is_idle l.paired) || is_connected t.state

-- `shouldConnect`.
abbrev pub should_connect : Link → SctpTransport → Bool
should_connect l t = has_path l && is_settled l t

abbrev pub same_transport : TransportState → TransportState → Bool
same_transport transport_connecting transport_connecting = true
same_transport transport_connected transport_connected = true
same_transport transport_closed transport_closed = true
same_transport _ _ = false

-- `_setState`.
unfoldable pub set_transport_state : TransportState → SctpTransport → SctpTransport
set_transport_state s t =
    if same_transport t.state s then t else record t { state = s; changes = t.changes ++ s ∷ [] }

abbrev pub start_poll : ℕ → Link → Link
start_poll now l =
    if l.poll_scheduled || not (ltb now l.poll_deadline)
    then l
    else record l { poll_scheduled = true }

abbrev pub needs_poll : Link → SctpTransport → Bool
needs_poll l t =
    not l.link_closed
    && (l.link_operations == 0
        && (paired_is_idle l.paired && (is_connecting t.state && is_negotiated l)))

-- The poll ends five seconds after its begin.
abbrev pub with_deadline : ℕ → Link → Link
with_deadline now l = if l.poll_deadline == 0 then record l { poll_deadline = now + 5000 } else l

-- `_scheduleSctpConnectPollIfNeeded` at the time `now`, up to its timer.
unfoldable pub schedule_poll : ℕ → Link → Link
schedule_poll now l = elim l.transport [
  | none ↦ l
  | some t ↦ if not (needs_poll l t) then l else start_poll now (with_deadline now l)
]

abbrev pub new_transport : SctpTransport
new_transport = record {
  state = transport_connecting;
  max_message_size = Limit.not_set;
  max_channels = none;
  changes = [];
}

-- The transport as it is, or a new one.
abbrev pub transport_of : Link → SctpTransport
transport_of l = elim l.transport [ none ↦ new_transport | some t ↦ t ]

-- `_sctpConnectedTransitionReady` after its reset, and whether the transition has to come first.
abbrev pub stays_ready : Link → SctpTransport → Bool
stays_ready l t = l.transition_ready && (not (is_link_down l) && should_connect l t)

abbrev pub waits_for_transition : Link → SctpTransport → Bool
waits_for_transition l t =
    should_connect l t && (not (is_connected t.state) && not (stays_ready l t))

-- `connected` of `_updateSctpTransport`.
abbrev pub gets_connected : Link → SctpTransport → Bool
gets_connected l t = should_connect l t && not (waits_for_transition l t)

-- The limits and the state that an update gives to the transport.
unfoldable pub updated_transport : Link → SctpTransport → SctpTransport
unfolding set_transport_state
updated_transport l t =
    set_transport_state
      (if is_link_down l
        then transport_closed
        else if gets_connected l t
        then transport_connected
        else transport_connecting)
      (record t {
        max_message_size = l.limit;
        max_channels =
            if gets_connected l t
            then current_sctp_max_channels (is_connection_up l.connection || is_connected t.state)
                l.self_remote l.native_id
            else none;
      })

abbrev pub updated_link : Link → SctpTransport → Link
unfolding updated_transport
updated_link l t = record l {
  transition_ready = stays_ready l t;
  transition_scheduled = l.transition_scheduled || waits_for_transition l t;
  transport = some (updated_transport l t);
  poll_deadline = if gets_connected l t || is_link_down l then 0 else l.poll_deadline;
}

-- `_updateSctpTransport` at the time `now`; the repairs that it schedules are left out.
unfoldable pub update_transport : ℕ → Link → Link
unfolding updated_transport schedule_poll
update_transport now l =
    if not (l.local_data || l.remote_data)
    then record l { transition_ready = false; transport = none }
    else schedule_poll now (updated_link l (transport_of l))

-- The callback of `_scheduleSctpConnectedTransition`.
unfoldable pub run_transition : ℕ → Link → Link
unfolding update_transport
run_transition now l =
    let p = record l { transition_scheduled = false } in
    if p.link_closed || not (is_some p.transport)
    then p
    else update_transport now (record p { transition_ready = true })

-- The callback of the poll: an update is scheduled while the transport is connecting.
unfoldable pub run_poll : Link → Link
run_poll l = elim l.transport [
  | none ↦ record l { poll_scheduled = false }
  | some t ↦ record l {
    poll_scheduled = false;
    update_scheduled = l.update_scheduled || (not l.link_closed && is_connecting t.state);
  }
]

abbrev pub is_ended : ConnectionState → Bool
is_ended ended = true
is_ended _ = false

-- The callback of `_scheduleSctpTransportUpdate`, with the states of the native peer, if there is one.
unfoldable pub run_update : Option (ConnectionState × ConnectionState) → ℕ → Link → Link
unfolding update_transport
run_update native now l =
    let p = record l { update_scheduled = false } in
    let kept = p.link_closed || (is_ended p.connection || is_ended p.ice) in
    update_transport now (elim native [
      | none ↦ p
      | some s ↦ if kept then p else record p { connection = s.0; ice = s.1 }
    ])
