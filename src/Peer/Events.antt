-- ===== src/Peer/Events.antt =====
-- What happens to a peer: webrtc's callbacks, the tasks that were posted, and the calls of the
-- signaling service, in any order.
use pi_webrtc.Prelude.{ℕ, String, Bool, true, false, none, List, [], ◌∷◌}
use pi_webrtc.Peer.State.{
  SignalingState, stable, ConnectionState, GatheringState, SdpType, SignalingBackend,
  PendingIceCandidate, Parsers, RtcPeer, Did, ◌andthen◌,
}
use pi_webrtc.Peer.Connection.{
  create_offer, deadline_task, arm_connect_deadline, begin_terminate, end_terminate,
  on_signaling_change, on_connection_change, on_renegotiation_needed,
}
use pi_webrtc.Peer.Sdp.{
  emit_task, on_ice_gathering_change, on_success, on_ice_candidate, flush_pending_ice,
  set_remote_ice, set_remote_sdp,
}

pub data Event : Type 0 where
  offers deadlines_armed begins_terminate ends_terminate renegotiates flushes : Event
  deadline emit : ℕ → Event
  signals : SignalingState → Event
  connects : ConnectionState → Event
  gathers : GatheringState → Event
  succeeds : SdpType → String → Event
  finds_candidate : PendingIceCandidate → Event
  remote_ice : Bool → PendingIceCandidate → Event
  remote_sdp : List Bool → String → String → Event

-- A peer as its constructor leaves it, once its connection and its listeners are set.
unfoldable pub create : String → SignalingBackend → Bool → Bool → RtcPeer
create id backend is_publisher has_candidates = record {
  id = id;
  backend = backend;
  is_publisher = is_publisher;
  has_candidates_in_sdp = has_candidates;
  needs_renegotiation = false;
  is_connected = false;
  is_expired = false;
  is_terminating = false;
  is_negotiating = false;
  on_expired_fn = true;
  on_connection_state_fn = true;
  on_local_sdp_fn = true;
  on_local_ice_fn = true;
  connect_deadline_safety = none;
  sdp_emit_safety = none;
  next_flag = 0;
  modified_desc = none;
  signaling_state = stable;
  peer_connection = true;
  pending_ice_candidates = [];
}

module _ (W : Parsers) where
  unfoldable pub step : Event → RtcPeer → Did
  step offers p = create_offer p
  step deadlines_armed p = arm_connect_deadline p
  step begins_terminate p = begin_terminate p
  step ends_terminate p = end_terminate p
  step renegotiates p = on_renegotiation_needed p
  step flushes p = flush_pending_ice W p
  step (deadline n) p = deadline_task n p
  step (emit n) p = emit_task n p
  step (signals state) p = on_signaling_change state p
  step (connects state) p = on_connection_change state p
  step (gathers state) p = on_ice_gathering_change state p
  step (succeeds sdp_type sdp) p = on_success W sdp_type sdp p
  step (finds_candidate ice) p = on_ice_candidate W ice p
  step (remote_ice has_remote ice) p = set_remote_ice W has_remote ice p
  step (remote_sdp transceivers sdp name) p = set_remote_sdp W transceivers sdp name p

  unfoldable pub run : List Event → RtcPeer → Did
  run [] p = (p, [])
  run (e ∷ es) p = step e p andthen run es
