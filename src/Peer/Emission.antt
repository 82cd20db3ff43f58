-- ===== src/Peer/Emission.antt =====
-- The local description, sent once for each that was made.
use pi_webrtc.Prelude.{
  ℕ, suc, ◌+◌, ◌≤◌, ◌≡◌, refl, inl, inr, String, Bool, true, false, Option, none, some, List, [],
  ◌∷◌, ◌++◌, if◌then◌else◌, Option-cases, arith,
}
use pi_webrtc.Peer.State.{
  SdpType, Description, PendingIceCandidate, Parsers, RtcPeer, Action, sends_sdp, Did, connected,
  failed, connection_closed,
}
use pi_webrtc.Peer.Connection.{
  create_offer, deadline_task, arm_connect_deadline, begin_terminate, end_terminate,
  on_signaling_change, on_connection_change, on_renegotiation_needed, after_signaling,
}
use pi_webrtc.Peer.Sdp.{
  emit_task, on_ice_gathering_change, on_success, on_ice_candidate, flush_pending_ice,
  set_remote_ice, set_remote_sdp, send_local_sdp, flush_loop, typed_remote, apply_remote,
  deactivate_video,
}
use pi_webrtc.Peer.Events.{
  Event, offers, deadlines_armed, begins_terminate, ends_terminate, renegotiates, flushes, deadline,
  emit, signals, connects, gathers, succeeds, finds_candidate, remote_ice, remote_sdp, step, run,
}
use pi_webrtc.Peer.State.{Flag, set_not_alive}
use pi_webrtc.Peer.Sdp.{flag_alive}
use pi_webrtc.Peer.Deadline.{set_remote_sdp-state}

abbrev pub sent : List Action → ℕ
sent [] = 0
sent (sends_sdp sdp_type sdp ∷ as') = suc (sent as')
sent (_ ∷ as') = sent as'

sent-append : (a b : List Action) → sent (a ++ b) ≡ sent a + sent b
sent-append [] b = omega arith
sent-append (sends_sdp t s ∷ a) b = omega (arith, sent-append a b)
sent-append (_ ∷ a) b = sent-append a b

flush_loop-sent :
    (W : Parsers) (c : Bool) (ices : List PendingIceCandidate) → sent (flush_loop W c ices) ≡ 0
unfolding flush_loop
flush_loop-sent W c [] = refl
flush_loop-sent W true (i ∷ ices) = ground (arith, flush_loop-sent W true ices)
flush_loop-sent W false (i ∷ ices) = ground (arith, flush_loop-sent W false ices)

deactivate_video-sent : (W : Parsers) (n : ℕ) (ts : List Bool) → sent (deactivate_video W n ts) ≡ 0
deactivate_video-sent W n [] = refl
deactivate_video-sent W n (true ∷ ts) = deactivate_video-sent W (suc n) ts
deactivate_video-sent W n (false ∷ ts) = deactivate_video-sent W (suc n) ts

abbrev pub to_send : Option Flag → ℕ
to_send none = 0
to_send (some flag) = if flag.alive then 1 else 0

-- What a step sends is taken from what was still to be sent.
abbrev IsPaid : RtcPeer → Did → Type 0
IsPaid p (q, done) = sent done + to_send q.sdp_emit_safety ≤ to_send p.sdp_emit_safety

abbrev pub makes_none : List Event → Bool
makes_none [] = true
makes_none (succeeds sdp_type sdp ∷ es) = false
makes_none (_ ∷ es) = makes_none es

emitted : (p : RtcPeer) → flag_alive p.sdp_emit_safety ≡ true → IsPaid p (send_local_sdp p)
unfolding send_local_sdp
emitted p h = go p.sdp_emit_safety p.modified_desc refl refl h
  where
    go :
        (f : Option Flag) (d : Option Description)
        → p.sdp_emit_safety ≡ f
        → p.modified_desc ≡ d
        → flag_alive f ≡ true
        → IsPaid p (send_local_sdp p)
    go none d a b h = cc
    go (some flag) none a b h = rw (a, b, send_local_sdp) (ground arith)
    go (some flag) (some desc) a b h = rw (a, b, send_local_sdp) (ground arith)

-- A step that leaves the flag of the emission alone and sends nothing.
unpaid :
    (p : RtcPeer) (d : Did) → d.0.sdp_emit_safety ≡ p.sdp_emit_safety → sent d.1 ≡ 0 → IsPaid p d
unpaid p d a b = rw (a, b) (omega arith)

to_send-dead : (flag : Option Flag) → to_send (set_not_alive flag) ≡ 0
to_send-dead none = refl
to_send-dead (some flag) = refl

to_send-bound : (flag : Option Flag) → to_send flag ≤ 1
to_send-bound none = omega arith
to_send-bound (some flag) = ground arith

module _ (W : Parsers) where
  apply_remote-sent :
      (ts : List Bool) (t : SdpType) (d : Option Description) (p : RtcPeer)
      → sent (apply_remote W ts t d p).1 ≡ 0
  unfolding apply_remote
  apply_remote-sent ts t none p = refl
  apply_remote-sent ts t (some desc) p = ground (
    arith,
    sent-append (deactivate_video W 0 ts) (Action.creates_answer ∷ []),
    deactivate_video-sent W 0 ts,
  )

  typed_remote-sent :
      (ts : List Bool) (sdp name : String) (t : Option SdpType) (p : RtcPeer)
      → sent (typed_remote W ts sdp name t p).1 ≡ 0
  unfolding typed_remote
  typed_remote-sent ts sdp name none p = refl
  typed_remote-sent ts sdp name (some t) p =
      ground (arith, apply_remote-sent ts t (W.create_session_description t sdp) p)

  step-IsPaid : (e : Event) (p : RtcPeer) → makes_none (e ∷ []) ≡ true → IsPaid p (step W e p)
  unfolding step create_offer arm_connect_deadline begin_terminate end_terminate
      on_renegotiation_needed flush_pending_ice deadline_task emit_task on_signaling_change
      on_connection_change on_ice_gathering_change on_ice_candidate set_remote_ice set_remote_sdp
      after_signaling
  step-IsPaid offers p m = unpaid p (step W offers p) (ground arith) (ground arith)
  step-IsPaid deadlines_armed p m = unpaid p (step W deadlines_armed p) refl refl
  step-IsPaid begins_terminate p m = ground (arith, to_send-dead p.sdp_emit_safety)
  step-IsPaid ends_terminate p m = unpaid p (step W ends_terminate p) refl refl
  step-IsPaid renegotiates p m = unpaid p (step W renegotiates p) (ground arith) (ground arith)
  step-IsPaid flushes p m =
      unpaid p (step W flushes p) refl
        (flush_loop-sent W p.peer_connection p.pending_ice_candidates)
  step-IsPaid (deadline n) p m = unpaid p (step W (deadline n) p) (ground arith) (ground arith)
  step-IsPaid (emit n) p m = ground (arith, emitted p)
  step-IsPaid (signals state) p m =
      unpaid p (step W (signals state) p) (ground arith) (ground arith)
  step-IsPaid (connects connected) p m =
      unpaid p (step W (connects connected) p) (ground arith) (ground arith)
  step-IsPaid (connects failed) p m =
      unpaid p (step W (connects failed) p) (ground arith) (ground arith)
  step-IsPaid (connects connection_closed) p m =
      unpaid p (step W (connects connection_closed) p) (ground arith) (ground arith)
  step-IsPaid (connects _) p m = ground arith
  step-IsPaid (gathers state) p m = ground (arith, emitted p)
  step-IsPaid (succeeds t sdp) p m = cc
  step-IsPaid (finds_candidate ice) p m =
      unpaid p (step W (finds_candidate ice) p) (ground arith) (ground arith)
  step-IsPaid (remote_ice has_remote ice) p m =
      unpaid p (step W (remote_ice has_remote ice) p) (ground arith) (ground arith)
  step-IsPaid (remote_sdp ts sdp name) p m =
      unpaid p (set_remote_sdp W ts sdp name p)
        (let (needs, e) = set_remote_sdp-state W ts sdp name p in rw e refl)
        (ground (arith, typed_remote-sent ts sdp name (W.sdp_type_from_string name) p))

  run-IsPaid : (es : List Event) (p : RtcPeer) → makes_none es ≡ true → IsPaid p (run W es p)
  unfolding run
  run-IsPaid [] p m = omega arith
  run-IsPaid (e ∷ es) p m = omega (
    arith,
    step-IsPaid e p (ground arith),
    run-IsPaid es (step W e p).0 (ground arith),
    sent-append (step W e p).1 (run W es (step W e p).0).1,
  )

  on_success-sent :
      (t : SdpType) (sdp : String) (p : RtcPeer)
      → let (q, done) = on_success W t sdp p in sent done + to_send q.sdp_emit_safety ≤ 1
  unfolding on_success send_local_sdp
  on_success-sent t sdp p = elim (Option-cases (W.create_session_description t sdp)) [
    | inl e ↦ rw (e, on_success) (omega (arith, to_send-bound p.sdp_emit_safety))
    | inr (d, e) ↦ rw (e, on_success) (ground (arith, to_send-bound p.sdp_emit_safety))
  ]

  -- Between the making of one description and that of the next, at most one is handed to the
  -- listener, whether by the task, at the end of gathering or at once, and whatever else happens.
  pub description_sent_once :
      (t : SdpType) (sdp : String) (es : List Event) (p : RtcPeer)
      → makes_none es ≡ true
      → sent (run W (succeeds t sdp ∷ es) p).1 ≤ 1
  unfolding run step
  description_sent_once t sdp es p m = omega (
    arith,
    on_success-sent t sdp p,
    run-IsPaid es (on_success W t sdp p).0 m,
    sent-append (on_success W t sdp p).1 (run W es (on_success W t sdp p).0).1,
  )
