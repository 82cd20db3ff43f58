-- ===== src/Peer/Deadline/Due.antt =====
-- The connect deadline while nothing answers it.
use pi_webrtc.Prelude.{
  ℕ, ◌≡◌, refl, ◌∙◌, inl, inr, Bool, true, false, not, ◌&&◌, some, List, [], ◌∷◌, Option-cases,
  string_eq, arith,
}
use pi_webrtc.Peer.State.{Parsers, RtcPeer, is_remote_offer, connected, failed, connection_closed}
use pi_webrtc.Peer.Connection.{
  create_offer, deadline_task, arm_connect_deadline, begin_terminate, end_terminate,
  on_signaling_change, on_connection_change, on_renegotiation_needed, after_signaling,
}
use pi_webrtc.Peer.Sdp.{
  emit_task, on_ice_gathering_change, on_success, on_ice_candidate, flush_pending_ice,
  set_remote_ice, set_remote_sdp,
}
use pi_webrtc.Peer.Events.{
  Event, offers, deadlines_armed, begins_terminate, ends_terminate, renegotiates, flushes, deadline,
  emit, signals, connects, gathers, succeeds, finds_candidate, remote_ice, remote_sdp, step, run,
}
use pi_webrtc.Peer.State.{closes}
use pi_webrtc.Peer.Deadline.{set_remote_sdp-state}

module _ (W : Parsers) where
  -- What neither answers nor replaces the deadline, nor ends the peer.
  abbrev pub leaves_deadline : Event → Bool
  leaves_deadline deadlines_armed = false
  leaves_deadline begins_terminate = false
  leaves_deadline ends_terminate = false
  leaves_deadline (signals state) = not (is_remote_offer state)
  leaves_deadline (connects connected) = false
  leaves_deadline (connects failed) = false
  leaves_deadline _ = true

  abbrev pub all_leave : List Event → Bool
  all_leave [] = true
  all_leave (e ∷ es) = leaves_deadline e && all_leave es

  record IsDue (n : ℕ) (p : RtcPeer) : Type 0 where
    flag : p.connect_deadline_safety ≡ some (record { number = n; alive = true })
    connection : p.peer_connection ≡ true
    unconnected : p.is_connected ≡ false

  due :
      (n : ℕ) (p q : RtcPeer)
      → q.connect_deadline_safety ≡ p.connect_deadline_safety
      → q.peer_connection ≡ p.peer_connection
      → q.is_connected ≡ p.is_connected
      → IsDue n p
      → IsDue n q
  due n p q a b c h = record {
    flag = a ∙ h.flag;
    connection = b ∙ h.connection;
    unconnected = c ∙ h.unconnected;
  }

  step-IsDue :
      (n : ℕ) (e : Event) (p : RtcPeer)
      → leaves_deadline e ≡ true
      → IsDue n p
      → IsDue n (step W e p).0
  unfolding step create_offer arm_connect_deadline begin_terminate end_terminate
      on_renegotiation_needed flush_pending_ice deadline_task emit_task on_signaling_change
      on_connection_change on_ice_gathering_change on_success on_ice_candidate set_remote_ice
      set_remote_sdp after_signaling
  step-IsDue n offers p l h = ground arith
  step-IsDue n deadlines_armed p l h = cc
  step-IsDue n begins_terminate p l h = cc
  step-IsDue n ends_terminate p l h = cc
  step-IsDue n renegotiates p l h =
      due n p _ (ground arith) (ground arith) (ground (arith, h.unconnected)) h
  step-IsDue n flushes p l h = due n p _ refl refl refl h
  step-IsDue n (deadline m) p l h = ground arith
  step-IsDue n (emit m) p l h = due n p _ (ground arith) (ground arith) (ground arith) h
  step-IsDue n (signals state) p l h = due n p _ (ground arith) (ground arith) (ground arith) h
  step-IsDue n (connects connected) p l h = cc
  step-IsDue n (connects failed) p l h = cc
  step-IsDue n (connects connection_closed) p l h = record {
    flag = h.flag;
    connection = h.connection;
    unconnected = refl;
  }
  step-IsDue n (connects _) p l h = h
  step-IsDue n (gathers state) p l h = due n p _ (ground arith) (ground arith) (ground arith) h
  step-IsDue n (succeeds t sdp) p l h = elim (Option-cases (W.create_session_description t sdp)) [
    | inl e ↦ rw (e, on_success) (due n p _ refl refl refl h)
    | inr (d, e) ↦ rw (e, on_success) (due n p _ (ground arith) (ground arith) (ground arith) h)
  ]
  step-IsDue n (finds_candidate ice) p l h =
      due n p _ (ground arith) (ground arith) (ground arith) h
  step-IsDue n (remote_ice has_remote ice) p l h =
      due n p _ (ground arith) (ground arith) (ground arith) h
  step-IsDue n (remote_sdp ts sdp name) p l h =
      let (needs, e) = set_remote_sdp-state W ts sdp name p in
      due n p _ (rw e refl) (rw e refl) (rw e refl) h

  run-IsDue :
      (n : ℕ) (es : List Event) (p : RtcPeer)
      → all_leave es ≡ true
      → IsDue n p
      → IsDue n (run W es p).0
  unfolding run
  run-IsDue n [] p l h = h
  run-IsDue n (e ∷ es) p l h =
      run-IsDue n es (step W e p).0 (ground arith) (step-IsDue n e p (ground arith) h)

  -- On a peer with a connection that is not connected, a deadline that is set closes the connection
  -- when its task runs, whatever happens in between, unless that sets a new deadline, connects the
  -- peer, fails the connection, brings a remote offer or terminates the peer.
  pub deadline_closes :
      (es : List Event) (p : RtcPeer)
      → p.peer_connection ≡ true
      → p.is_connected ≡ false
      → all_leave es ≡ true
      → let q = (run W es (arm_connect_deadline p).0).0 in
        deadline_task p.next_flag q ≡ (q, closes ∷ [])
  unfolding deadline_task arm_connect_deadline
  deadline_closes es p c u l =
      let d =
        run-IsDue p.next_flag es (arm_connect_deadline p).0 l
          (record { flag = refl; connection = c; unconnected = u }) in
      ground (arith, d.flag, d.connection, d.unconnected)
