-- ===== src/Peer/Consistency.antt =====
-- What a peer knows of its negotiation.
use pi_webrtc.Prelude.{
  ◌≡◌, refl, inl, inr, String, Bool, true, ◌||◌, Option, none, some, List, [], ◌∷◌, Option-cases,
  arith,
}
use pi_webrtc.Peer.State.{
  SignalingState, SdpType, Parsers, RtcPeer, is_local_offer, is_remote_offer, can_renegotiate,
  connected, failed, connection_closed,
}
use pi_webrtc.Peer.Connection.{
  create_offer, deadline_task, arm_connect_deadline, begin_terminate, end_terminate,
  on_signaling_change, on_connection_change, on_renegotiation_needed, after_signaling,
}
use pi_webrtc.Peer.Sdp.{
  emit_task, on_ice_gathering_change, on_success, on_ice_candidate, flush_pending_ice,
  set_remote_ice, set_remote_sdp, typed_remote, apply_remote,
}
use pi_webrtc.Peer.Events.{
  Event, offers, deadlines_armed, begins_terminate, ends_terminate, renegotiates, flushes, deadline,
  emit, signals, connects, gathers, succeeds, finds_candidate, remote_ice, remote_sdp, step, run,
}

-- The flag of a negotiation follows webrtc's state, and only a peer that may renegotiate asks to.
pub record IsConsistent (p : RtcPeer) : Type 0 where
  pub negotiating :
      p.is_negotiating ≡ (is_local_offer p.signaling_state || is_remote_offer p.signaling_state)
  pub allowed : p.needs_renegotiation ≡ true → can_renegotiate p.backend ≡ true

module _ (W : Parsers) where
  after_signaling-IsConsistent :
      (previous state : SignalingState) (p : RtcPeer)
      → IsConsistent p
      → IsConsistent (after_signaling previous state p).0
  unfolding after_signaling arm_connect_deadline create_offer
  after_signaling-IsConsistent previous state p h = record {
    negotiating = ground (arith, h.negotiating);
    allowed = λ n. ground (arith, h.allowed);
  }

  typed_remote-IsConsistent :
      (ts : List Bool) (sdp name : String) (t : Option SdpType) (p : RtcPeer)
      → IsConsistent p
      → IsConsistent (typed_remote W ts sdp name t p).0
  unfolding typed_remote apply_remote
  typed_remote-IsConsistent ts sdp name none p h = h
  typed_remote-IsConsistent ts sdp name (some t) p h =
      elim (Option-cases (W.create_session_description t sdp)) [
        | inl e ↦ record {
          negotiating = rw e (ground (arith, h.negotiating));
          allowed = rw e (λ n. ground (arith, h.allowed));
        }
        | inr (d, e) ↦ record {
          negotiating = rw e (ground (arith, h.negotiating));
          allowed = rw e (λ n. ground (arith, h.allowed));
        }
      ]

  -- A step that keeps what the record reads keeps it.
  same :
      (p q : RtcPeer)
      → q.is_negotiating ≡ p.is_negotiating
      → q.signaling_state ≡ p.signaling_state
      → q.backend ≡ p.backend
      → q.needs_renegotiation ≡ p.needs_renegotiation
      → IsConsistent p
      → IsConsistent q
  same p q a b c d h = record {
    negotiating = ground (arith, h.negotiating);
    allowed = λ n. ground (arith, h.allowed);
  }

  step-IsConsistent : (e : Event) (p : RtcPeer) → IsConsistent p → IsConsistent (step W e p).0
  unfolding step create_offer arm_connect_deadline begin_terminate end_terminate
      on_renegotiation_needed flush_pending_ice deadline_task emit_task on_signaling_change
      on_connection_change on_ice_gathering_change on_success on_ice_candidate set_remote_ice
      set_remote_sdp
  step-IsConsistent offers p h = ground arith
  step-IsConsistent deadlines_armed p h = same p _ refl refl refl refl h
  step-IsConsistent begins_terminate p h = same p _ refl refl refl refl h
  step-IsConsistent ends_terminate p h = same p _ refl refl refl refl h
  step-IsConsistent renegotiates p h = record {
    negotiating = ground (arith, h.negotiating);
    allowed = λ n. ground (arith, h.allowed);
  }
  step-IsConsistent flushes p h = same p _ refl refl refl refl h
  step-IsConsistent (deadline n) p h = ground arith
  step-IsConsistent (emit n) p h =
      same p _ (ground arith) (ground arith) (ground arith) (ground arith) h
  step-IsConsistent (signals state) p h =
      after_signaling-IsConsistent p.signaling_state state _
        (record { negotiating = refl; allowed = h.allowed })
  step-IsConsistent (connects connected) p h = record {
    negotiating = ground (arith, h.negotiating);
    allowed = λ n. ground (arith, h.allowed);
  }
  step-IsConsistent (connects failed) p h = same p _ refl refl refl refl h
  step-IsConsistent (connects connection_closed) p h = same p _ refl refl refl refl h
  step-IsConsistent (connects _) p h = h
  step-IsConsistent (gathers state) p h =
      same p _ (ground arith) (ground arith) (ground arith) (ground arith) h
  step-IsConsistent (succeeds t sdp) p h =
      elim (Option-cases (W.create_session_description t sdp)) [
        | inl e ↦ rw (e, on_success) (same p _ refl refl refl refl h)
        | inr (d, e) ↦
            rw (e, on_success)
              (same p _ (ground arith) (ground arith) (ground arith) (ground arith) h)
      ]
  step-IsConsistent (finds_candidate ice) p h =
      same p _ (ground arith) (ground arith) (ground arith) (ground arith) h
  step-IsConsistent (remote_ice has_remote ice) p h =
      same p _ (ground arith) (ground arith) (ground arith) (ground arith) h
  step-IsConsistent (remote_sdp ts sdp name) p h =
      ground (arith, typed_remote-IsConsistent ts sdp name (W.sdp_type_from_string name) p h)

  -- Whatever happens to a peer for which it held before, in whatever order: it counts as
  -- negotiating exactly while webrtc has a local or a remote offer, and it asks to renegotiate
  -- only on the direct backend.
  pub run-IsConsistent :
      (es : List Event) (p : RtcPeer) → IsConsistent p → IsConsistent (run W es p).0
  unfolding run
  run-IsConsistent [] p h = h
  run-IsConsistent (e ∷ es) p h = run-IsConsistent es (step W e p).0 (step-IsConsistent e p h)
