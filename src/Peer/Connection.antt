-- ===== src/Peer/Connection.antt =====
-- Offers, the connect deadline, expiry and the end of a peer, from src/rtc/rtc_peer.cpp. The callbacks
-- that `Close` sets off are steps of their own, and so are the tasks that are posted.
use pi_webrtc.Prelude.{ℕ, ◌+◌, true, false, not, ◌&&◌, ◌||◌, none, some, [], ◌∷◌, if◌then◌else◌}
use pi_webrtc.Peer.State.{
  SignalingState, ConnectionState, connected, failed, connection_closed, RtcPeer, creates_offer,
  closes, posts_deadline, posts_expired, reports_state, null_call, Did, ◌andthen◌, is_alive,
  set_not_alive, is_local_offer, is_remote_offer, is_stable, can_renegotiate,
}

unfoldable pub create_offer : RtcPeer → Did
create_offer p =
    if is_local_offer p.signaling_state
    then (p, [])
    else if p.peer_connection
    then (p, creates_offer ∷ [])
    else (p, null_call ∷ [])

-- `RenewSafetyFlag` of the connect deadline.
unfoldable pub renew_deadline : RtcPeer → RtcPeer
renew_deadline p = record p {
  connect_deadline_safety = some (record { number = p.next_flag; alive = true });
  next_flag = p.next_flag + 1;
}

unfoldable pub arm_connect_deadline : RtcPeer → Did
unfolding renew_deadline
arm_connect_deadline p = (renew_deadline p, posts_deadline p.next_flag ∷ [])

-- The deadline's task, which holds a flag.
unfoldable pub deadline_task : ℕ → RtcPeer → Did
deadline_task n p =
    if is_alive n p.connect_deadline_safety && (p.peer_connection && not p.is_connected)
    then (p, closes ∷ [])
    else (p, [])

-- `Terminate` up to its call of `Close`, and from there on. The channels are terminated last.
unfoldable pub begin_terminate : RtcPeer → Did
begin_terminate p = (
  record p {
    is_connected = false;
    is_expired = true;
    is_terminating = true;
    connect_deadline_safety = set_not_alive p.connect_deadline_safety;
    sdp_emit_safety = set_not_alive p.sdp_emit_safety;
  },
  (if p.peer_connection then closes ∷ [] else []),
)

unfoldable pub end_terminate : RtcPeer → Did
end_terminate p = (
  record p {
    peer_connection = false;
    on_local_sdp_fn = false;
    on_local_ice_fn = false;
    on_connection_state_fn = false;
    modified_desc = none;
  },
  [],
)

unfoldable pub mark_expired : RtcPeer → Did
mark_expired p = (
  record p { is_expired = true },
  (if p.is_expired || not p.on_expired_fn then [] else posts_expired ∷ []),
)

-- The branches of `OnSignalingChange`, at the previous state and the new one.
unfoldable pub after_signaling : SignalingState → SignalingState → RtcPeer → Did
unfolding arm_connect_deadline create_offer
after_signaling previous state p =
    if is_remote_offer state
    then arm_connect_deadline p
    else if is_stable state
        && (is_remote_offer previous
            && (p.is_connected && (p.needs_renegotiation && can_renegotiate p.backend)))
    then create_offer (record p { needs_renegotiation = false })
    else if is_stable state
        && (p.is_connected
            && (not p.needs_renegotiation
                && (can_renegotiate p.backend && p.has_candidates_in_sdp)))
    then (record p { on_local_ice_fn = false; on_local_sdp_fn = false }, [])
    else (p, [])

unfoldable pub on_signaling_change : SignalingState → RtcPeer → Did
unfolding after_signaling
on_signaling_change state p = after_signaling p.signaling_state state (record p {
  signaling_state = state;
  is_negotiating = is_local_offer state || is_remote_offer state;
})

-- `OnConnectionChange` up to its report.
unfoldable pub after_connection : ConnectionState → RtcPeer → Did
unfolding renew_deadline create_offer arm_connect_deadline mark_expired
after_connection connected p =
    let q = renew_deadline (record p { is_connected = true }) in
    if q.needs_renegotiation && is_stable q.signaling_state
    then create_offer (record q { needs_renegotiation = false })
    else (q, [])
after_connection failed p = arm_connect_deadline (record p { is_connected = false })
after_connection connection_closed p = mark_expired (record p { is_connected = false })
after_connection _ p = (p, [])

unfoldable pub report_state : ConnectionState → RtcPeer → Did
report_state state p =
    (p, (if not p.is_terminating && p.on_connection_state_fn then reports_state state ∷ [] else []))

unfoldable pub on_connection_change : ConnectionState → RtcPeer → Did
unfolding after_connection report_state
on_connection_change state p = after_connection state p andthen report_state state

unfoldable pub on_renegotiation_needed : RtcPeer → Did
unfolding create_offer
on_renegotiation_needed p =
    if not (can_renegotiate p.backend)
    then (p, [])
    else if p.is_connected && is_stable p.signaling_state
    then create_offer (record p { needs_renegotiation = false })
    else (record p { needs_renegotiation = true }, [])
