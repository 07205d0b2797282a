-- ===== src/Tests/Negotiation.antt =====
-- Tests and instances for the negotiation and the deferred ICE events of a peer.
use webrtc_node.Base.{[], ◌∷◌, ◌++◌, Option, none, some, true, false, ◌≡◌, refl, codes, Str}
use webrtc_node.Sdp.Lines.{crlf}
use webrtc_node.Sdp.Description.{
  SdpType, Description, offer, answer, is_no_media_sdp, has_data_media_section,
  assert_valid_sdp_syntax, sdp_syntax_error_line,
}
use webrtc_node.Peer.Descriptions.{
  Side, Signaling, SignalingState, stable, have_local_offer, have_remote_offer,
}
use webrtc_node.Peer.Negotiation.{
  Peer, Native, gathering_new, gathering_complete, unknown, Ran, returned,
}
use webrtc_node.Peer.Negotiation.Local.{LocalInput, run_set_local}
use webrtc_node.Peer.Negotiation.Remote.{run_set_remote}
use webrtc_node.Peer.Negotiation.Taking.{RemoteInput}
use webrtc_node.Peer.Negotiation.Jsep.{IsLawful}
use webrtc_node.Peer.Negotiation.Jsep.Endings.{Ends}
use webrtc_node.Peer.Negotiation.Jsep.LocalSide.{IsSteady, run_set_local-LocalResult}
use webrtc_node.Peer.Negotiation.Jsep.LocalMoves.{LocalResult, same_type_refl}
use webrtc_node.Peer.Negotiation.Jsep.RemoteSide.{RemoteResult, run_set_remote-RemoteResult}
use webrtc_node.Peer.Negotiation.Jsep.Failures.{RemoteLeaves, run_set_remote-RemoteLeaves}
use webrtc_node.Peer.Negotiation.Jsep.LocalFailures.{Leaves, run_set_local-Leaves}
use webrtc_node.Peer.Operations.{
  local_candidate, gathering_change, Queue, begin_operation, receive, finish_operation,
}
use webrtc_node.Peer.Operations.Order.{IsDrained, turns, turns-IsDrained}
use webrtc_node.Peer.Operations.Service.{
  receives, begins, finishes, stays, goes, IsServed, Reaches-IsServed,
}

abbrev data_text : Str
data_text = codes "v=0" ++ (crlf ++ codes "m=application 9 UDP/DTLS/SCTP x")

abbrev described : SdpType → Description
described t = record { type = t; sdp = data_text; js_only_ice_restart = false }

abbrev native : Native
native = record {
  created_offer = some (described offer);
  created_answer = some (described answer);
  described = λ t. some (described t);
  takes_local = λ t. true;
  takes_remote = λ d. true;
}

abbrev blank : Side
blank = record { current = none; pending = none; shown = none }

abbrev quiet : Signaling
quiet = record {
  peer_closed = false;
  local_side = blank;
  remote_side = blank;
  js_only_offer_pending = false;
  signaling_state = stable;
}

abbrev offerer : Peer
offerer = record {
  signaling = quiet;
  js_only_remote_offer = false;
  has_native = false;
  set_by_api = false;
  ice_restart_pending = false;
  negotiation_needed = true;
  needed_scheduled = false;
  needed_events = 0;
  can_trickle = none;
  gathering = gathering_new;
  role = unknown;
  last_offer = some (described offer);
  last_answer = none;
  prepared = none;
  prepared_type = none;
  has_credentials = false;
  suppressed = none;
  operations = 1;
  pending_ice = [];
  local_candidates = [];
  remote_candidates = [];
  last_dispatched = stable;
  state_events = [];
  calls = [];
}

-- The peer has set its offer; and a peer that has got an offer and created its answer.
abbrev has_offered : Peer
has_offered = record offerer {
  signaling = record quiet {
    local_side = record blank { pending = some (described offer); shown = some (described offer) };
    signaling_state = have_local_offer;
  };
}

abbrev was_offered : Peer
was_offered = record offerer {
  signaling = record quiet {
    remote_side = record blank { pending = some (described offer); shown = some (described offer) };
    signaling_state = have_remote_offer;
  };
  last_offer = none;
  last_answer = some (described answer);
}

abbrev own : SdpType → LocalInput
own t = record { description = described t; own_answer = true }

abbrev others : SdpType → RemoteInput
others t = record { description = described t; applied_answer = none }

native-IsLawful : IsLawful native
native-IsLawful = record {
  creates_offers = refl;
  creates_answers = refl;
  describes = same_type_refl;
}

-- The states and the shown descriptions that the four steps of an exchange give.
abbrev outcome : Ran → SignalingState × Option Description × Option Description
outcome r = elim r [
  | returned t ↦
      (t.signaling.signaling_state, t.signaling.local_side.shown, t.signaling.remote_side.shown)
  | _ ↦ (have_remote_offer, none, none)
]

exchange_tests :
    (outcome (run_set_local native offer (some (own offer)) offerer)
      ≡ (have_local_offer, some (described offer), none))
    × (outcome (run_set_remote native (others offer) offerer)
        ≡ (have_remote_offer, none, some (described offer)))
    × (outcome (run_set_local native answer (some (own answer)) was_offered)
        ≡ (stable, some (described answer), some (described offer)))
    × (outcome (run_set_remote native (others answer) has_offered)
        ≡ (stable, some (described offer), some (described answer)))
unfolding run_set_local run_set_remote is_no_media_sdp has_data_media_section
    assert_valid_sdp_syntax sdp_syntax_error_line
exchange_tests = (refl, refl, refl, refl)

was_offered-IsSteady : IsSteady was_offered
was_offered-IsSteady = record {
  is_typed = record { offer_typed = tt; answer_typed = refl };
  is_fitting = (refl, refl);
  no_restart = refl;
}

run_set_local-LocalResult_example :
    Ends
      (LocalResult answer was_offered)
      (run_set_local native answer (some (own answer)) was_offered)
run_set_local-LocalResult_example =
    run_set_local-LocalResult native answer (some (own answer)) was_offered native-IsLawful
      was_offered-IsSteady tt

run_set_remote-RemoteResult_example :
    Ends (RemoteResult offer has_offered) (run_set_remote native (others offer) has_offered)
run_set_remote-RemoteResult_example =
    run_set_remote-RemoteResult native (others offer) has_offered
      (record { is_fitting = (refl, refl); no_restart = refl; no_pranswer = refl })

run_set_local-Leaves_example :
    Leaves has_offered.signaling (run_set_local native answer (some (own answer)) has_offered)
run_set_local-Leaves_example = run_set_local-Leaves native answer (some (own answer)) has_offered

run_set_remote-RemoteLeaves_example :
    RemoteLeaves
      (record native { takes_remote = λ d. false })
      offer
      has_offered
      (run_set_remote (record native { takes_remote = λ d. false }) (others offer) has_offered)
run_set_remote-RemoteLeaves_example =
    run_set_remote-RemoteLeaves (record native { takes_remote = λ d. false }) (others offer)
      has_offered

abbrev empty_queue : Queue
empty_queue = record {
  queue_closed = false;
  pending = 0;
  deferred = [];
  flush_scheduled = false;
  flush_callbacks = [];
  idle_callbacks = [];
  immediates = [];
  handled = [];
}

abbrev busy_queue : Queue
busy_queue = begin_operation empty_queue

empty_queue-IsServed : IsServed empty_queue
empty_queue-IsServed = record {
  has_turn = refl;
  has_event = refl;
  calls_back = refl;
  runs_idle = refl;
}

Reaches-IsServed_example : IsServed (finish_operation (receive (local_candidate 7) busy_queue))
Reaches-IsServed_example =
    Reaches-IsServed empty_queue (finish_operation (receive (local_candidate 7) busy_queue))
      (goes empty_queue busy_queue _ (begins empty_queue) (
        goes busy_queue (receive (local_candidate 7) busy_queue) _
          (receives (local_candidate 7) busy_queue)
          (goes (receive (local_candidate 7) busy_queue) _ _
            (finishes (receive (local_candidate 7) busy_queue))
            (stays (finish_operation (receive (local_candidate 7) busy_queue))))))
      empty_queue-IsServed

abbrev waiting_queue : Queue
waiting_queue = record empty_queue {
  deferred = local_candidate 7 ∷ gathering_change gathering_complete ∷ [];
  flush_scheduled = true;
  flush_callbacks = 3 ∷ [];
}

waiting_queue-IsServed : IsServed waiting_queue
waiting_queue-IsServed = record {
  has_turn = refl;
  has_event = refl;
  calls_back = refl;
  runs_idle = refl;
}

turns-IsDrained_example : IsDrained waiting_queue (turns 2 waiting_queue)
turns-IsDrained_example = turns-IsDrained waiting_queue waiting_queue-IsServed refl refl
