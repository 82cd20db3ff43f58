-- ===== src/Peer/Expiry.antt =====
-- The report of a peer's expiry.
use pi_webrtc.Prelude.{
  ℕ, suc, ◌+◌, ◌≤◌, ◌≡◌, refl, inl, inr, String, Bool, true, false, Option, none, some, List, [],
  ◌∷◌, ◌++◌, Option-cases, arith,
}
use pi_webrtc.Peer.State.{
  SdpType, Description, PendingIceCandidate, Parsers, RtcPeer, Action, posts_expired, Did,
  connected, failed, connection_closed,
}
use pi_webrtc.Peer.Connection.{
  create_offer, deadline_task, arm_connect_deadline, begin_terminate, end_terminate,
  on_signaling_change, on_connection_change, on_renegotiation_needed,
}
use pi_webrtc.Peer.Sdp.{
  emit_task, on_ice_gathering_change, on_success, on_ice_candidate, flush_pending_ice,
  set_remote_ice, set_remote_sdp, flush_loop, typed_remote, apply_remote, deactivate_video,
}
use pi_webrtc.Peer.Events.{
  Event, offers, deadlines_armed, begins_terminate, ends_terminate, renegotiates, flushes, deadline,
  emit, signals, connects, gathers, succeeds, finds_candidate, remote_ice, remote_sdp, step, run,
}

abbrev pub expiries : List Action → ℕ
expiries [] = 0
expiries (posts_expired ∷ as') = suc (expiries as')
expiries (_ ∷ as') = expiries as'

expiries-append : (a b : List Action) → expiries (a ++ b) ≡ expiries a + expiries b
expiries-append [] b = omega arith
expiries-append (posts_expired ∷ a) b = omega (arith, expiries-append a b)
expiries-append (_ ∷ a) b = expiries-append a b

flush_loop-expiries :
    (W : Parsers) (c : Bool) (ices : List PendingIceCandidate) → expiries (flush_loop W c ices) ≡ 0
unfolding flush_loop
flush_loop-expiries W c [] = refl
flush_loop-expiries W true (i ∷ ices) = ground (arith, flush_loop-expiries W true ices)
flush_loop-expiries W false (i ∷ ices) = ground (arith, flush_loop-expiries W false ices)

deactivate_video-expiries :
    (W : Parsers) (n : ℕ) (ts : List Bool) → expiries (deactivate_video W n ts) ≡ 0
deactivate_video-expiries W n [] = refl
deactivate_video-expiries W n (true ∷ ts) = deactivate_video-expiries W (suc n) ts
deactivate_video-expiries W n (false ∷ ts) = deactivate_video-expiries W (suc n) ts

abbrev pub expired_count : Bool → ℕ
expired_count true = 1
expired_count false = 0

-- What was posted before and in a step is covered by whether the peer has expired.
abbrev IsCounted : RtcPeer → Did → Type 0
IsCounted p (q, done) = (expired_count p.is_expired + expiries done ≤ expired_count q.is_expired)

module _ (W : Parsers) where
  apply_remote-IsCounted :
      (ts : List Bool) (t : SdpType) (d : Option Description) (p : RtcPeer)
      → IsCounted p (apply_remote W ts t d p)
  unfolding apply_remote
  apply_remote-IsCounted ts t none p = ground arith
  apply_remote-IsCounted ts t (some desc) p = ground (
    arith,
    expiries-append (deactivate_video W 0 ts) (Action.creates_answer ∷ []),
    deactivate_video-expiries W 0 ts,
  )

  typed_remote-IsCounted :
      (ts : List Bool) (sdp name : String) (t : Option SdpType) (p : RtcPeer)
      → IsCounted p (typed_remote W ts sdp name t p)
  unfolding typed_remote
  typed_remote-IsCounted ts sdp name none p = ground arith
  typed_remote-IsCounted ts sdp name (some t) p =
      ground (arith, apply_remote-IsCounted ts t (W.create_session_description t sdp) p)

  step-IsCounted : (e : Event) (p : RtcPeer) → IsCounted p (step W e p)
  unfolding step create_offer arm_connect_deadline begin_terminate end_terminate
      on_renegotiation_needed flush_pending_ice deadline_task emit_task on_signaling_change
      on_connection_change on_ice_gathering_change on_success on_ice_candidate set_remote_ice
      set_remote_sdp
  step-IsCounted offers p = ground arith
  step-IsCounted deadlines_armed p = ground arith
  step-IsCounted begins_terminate p = ground arith
  step-IsCounted ends_terminate p = ground arith
  step-IsCounted renegotiates p = ground arith
  step-IsCounted flushes p =
      ground (arith, flush_loop-expiries W p.peer_connection p.pending_ice_candidates)
  step-IsCounted (deadline n) p = ground arith
  step-IsCounted (emit n) p = elim (Option-cases p.modified_desc) [
    | inl e ↦ rw (e, emit_task) (ground arith)
    | inr (d, e) ↦ rw (e, emit_task) (ground arith)
  ]
  step-IsCounted (signals state) p = ground arith
  step-IsCounted (connects connected) p = ground arith
  step-IsCounted (connects failed) p = ground arith
  step-IsCounted (connects connection_closed) p = ground arith
  step-IsCounted (connects _) p = ground arith
  step-IsCounted (gathers state) p = elim (Option-cases p.modified_desc) [
    | inl e ↦ rw (e, on_ice_gathering_change) (ground arith)
    | inr (d, e) ↦ rw (e, on_ice_gathering_change) (ground arith)
  ]
  step-IsCounted (succeeds t sdp) p = elim (Option-cases (W.create_session_description t sdp)) [
    | inl e ↦ rw (e, on_success) (ground arith)
    | inr (d, e) ↦ rw (e, on_success) (ground arith)
  ]
  step-IsCounted (finds_candidate ice) p = ground arith
  step-IsCounted (remote_ice has_remote ice) p = ground arith
  step-IsCounted (remote_sdp ts sdp name) p =
      ground (arith, typed_remote-IsCounted ts sdp name (W.sdp_type_from_string name) p)

  -- Whatever happens to a peer, in whatever order, its expiry is reported at most once, not at all
  -- if it had expired before, and only a peer that has expired reports it.
  pub run-expiries :
      (es : List Event) (p : RtcPeer)
      → let (q, done) = run W es p in
        expired_count p.is_expired + expiries done ≤ expired_count q.is_expired
  unfolding run
  run-expiries [] p = omega arith
  run-expiries (e ∷ es) p = omega (
    arith,
    step-IsCounted e p,
    run-expiries es (step W e p).0,
    expiries-append (step W e p).1 (run W es (step W e p).0).1,
  )
