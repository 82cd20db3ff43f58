-- ===== src/Peer/Deadline.antt =====
-- The connect deadline: which of its tasks no longer close the connection.
pub mod Due
use pi_webrtc.Prelude.{
  ℕ, zero, suc, ◌+◌, ◌≤◌, ◌≡◌, ◌≢◌, refl, sym, ap, subst, ◌∙◌, ◌⊎◌, inl, inr, ◌↔◌, String, Bool,
  true, false, not, ◌&&◌, ◌||◌, Option, none, some, List, [], ◌∷◌, ◌++◌, if◌then◌else◌,
  Option-cases, Bool-cases, ◌==◌, string_eq, arith,
}
use pi_webrtc.Peer.State.{
  SignalingState, ConnectionState, SdpType, Description, PendingIceCandidate, Parsers, RtcPeer,
  Action, creates_offer, posts_expired, reports_state, sends_sdp, sends_ice, Did, ◌andthen◌,
  is_local_offer, is_remote_offer, is_stable, can_renegotiate, connected, failed, connection_closed,
  fresh, connecting, disconnected,
}
use pi_webrtc.Peer.Connection.{
  create_offer, deadline_task, arm_connect_deadline, begin_terminate, end_terminate,
  on_signaling_change, on_connection_change, on_renegotiation_needed, after_signaling,
  after_connection, report_state, mark_expired,
}
use pi_webrtc.Peer.Sdp.{
  emit_task, on_ice_gathering_change, on_success, on_ice_candidate, flush_pending_ice,
  set_remote_ice, set_remote_sdp, send_local_sdp, send_description, emit_local_sdp, set_local,
  is_offer, flush_loop, typed_remote, apply_remote, deactivate_video,
}
use pi_webrtc.Peer.Events.{
  Event, offers, deadlines_armed, begins_terminate, ends_terminate, renegotiates, flushes, deadline,
  emit, signals, connects, gathers, succeeds, finds_candidate, remote_ice, remote_sdp, create, step,
  run,
}
use pi_webrtc.Peer.State.{Flag, is_alive, set_not_alive, closes}

-- The tasks that hold an older flag are dead, and stay so: the current flag is another one.
pub record IsStale (n : ℕ) (p : RtcPeer) : Type 0 where
  pub older : suc n ≤ p.next_flag
  pub dead : is_alive n p.connect_deadline_safety ≡ false

kept :
    (n : ℕ) (p q : RtcPeer)
    → p.next_flag ≤ q.next_flag
    → q.connect_deadline_safety ≡ p.connect_deadline_safety
    → IsStale n p
    → IsStale n q
kept n p q a b h = record { older = omega (arith, h.older); dead = ground (arith, h.dead) }

renewed :
    (n : ℕ) (p q : RtcPeer)
    → q.next_flag ≡ p.next_flag + 1
    → q.connect_deadline_safety ≡ some (record { number = p.next_flag; alive = true })
    → suc n ≤ p.next_flag
    → IsStale n q
renewed n p q a b h = record { older = omega arith; dead = ground arith }

set_not_alive-dead : (n : ℕ) (flag : Option Flag) → is_alive n (set_not_alive flag) ≡ false
set_not_alive-dead n none = refl
set_not_alive-dead n (some flag) = ground arith

if_either : {A : Type 0} (P : A → Type 0) (b : Bool) {x y : A} → P x → P y → P (if b then x else y)
if_either P true h k = h
if_either P false h k = k

module _ (W : Parsers) where
  typed_remote-state :
      (ts : List Bool) (sdp name : String) (t : Option SdpType) (p : RtcPeer)
      → (needs : Bool) × ((typed_remote W ts sdp name t p).0
          ≡ record p { needs_renegotiation = needs })
  unfolding typed_remote apply_remote
  typed_remote-state ts sdp name none p = (p.needs_renegotiation, refl)
  typed_remote-state ts sdp name (some t) p =
      elim (Bool-cases (is_offer W t && is_local_offer p.signaling_state)) [
        | inl glare ↦ (can_renegotiate p.backend || p.needs_renegotiation, rw glare refl)
        | inr fine ↦ elim (Option-cases (W.create_session_description t sdp)) [
          | inl e ↦ (p.needs_renegotiation, rw (fine, e) refl)
          | inr (d, e) ↦ (p.needs_renegotiation, rw (fine, e) refl)
        ]
      ]

  pub set_remote_sdp-state :
      (ts : List Bool) (sdp name : String) (p : RtcPeer)
      → (needs : Bool) × ((set_remote_sdp W ts sdp name p).0
          ≡ record p { needs_renegotiation = needs })
  unfolding set_remote_sdp
  set_remote_sdp-state ts sdp name p =
      let P : Did → Type 0 =
        λ d. (needs : Bool) × (d.0 ≡ record p { needs_renegotiation = needs }) in
      let none' : P (p, []) = (p.needs_renegotiation, refl) in
      if_either P (not p.peer_connection) none' (
        if_either P (not p.is_negotiating && not (name == "offer")) none'
          (typed_remote-state ts sdp name (W.sdp_type_from_string name) p))

  step-IsStale : (n : ℕ) (e : Event) (p : RtcPeer) → IsStale n p → IsStale n (step W e p).0
  unfolding step create_offer arm_connect_deadline begin_terminate end_terminate
      on_renegotiation_needed flush_pending_ice deadline_task emit_task on_signaling_change
      on_connection_change on_ice_gathering_change on_success on_ice_candidate set_remote_ice
      set_remote_sdp after_signaling
  step-IsStale n offers p h = ground arith
  step-IsStale n deadlines_armed p h = renewed n p _ refl refl h.older
  step-IsStale n begins_terminate p h = record {
    older = h.older;
    dead = set_not_alive-dead n p.connect_deadline_safety;
  }
  step-IsStale n ends_terminate p h = kept n p _ (omega arith) refl h
  step-IsStale n renegotiates p h = kept n p _ (ground arith) (ground arith) h
  step-IsStale n flushes p h = kept n p _ (omega arith) refl h
  step-IsStale n (deadline m) p h = ground arith
  step-IsStale n (emit m) p h = kept n p _ (ground arith) (ground arith) h
  step-IsStale n (signals state) p h = elim (Bool-cases (is_remote_offer state)) [
    | inl e ↦ renewed n p _ (ground arith) (ground arith) h.older
    | inr e ↦ kept n p _ (ground arith) (ground arith) h
  ]
  step-IsStale n (connects connected) p h = renewed n p _ (ground arith) (ground arith) h.older
  step-IsStale n (connects failed) p h = renewed n p _ refl refl h.older
  step-IsStale n (connects connection_closed) p h = kept n p _ (omega arith) refl h
  step-IsStale n (connects _) p h = h
  step-IsStale n (gathers state) p h = kept n p _ (ground arith) (ground arith) h
  step-IsStale n (succeeds t sdp) p h = elim (Option-cases (W.create_session_description t sdp)) [
    | inl e ↦ rw (e, on_success) (kept n p _ (omega arith) refl h)
    | inr (d, e) ↦ rw (e, on_success) (kept n p _ (ground arith) (ground arith) h)
  ]
  step-IsStale n (finds_candidate ice) p h = kept n p _ (ground arith) (ground arith) h
  step-IsStale n (remote_ice has_remote ice) p h = kept n p _ (ground arith) (ground arith) h
  step-IsStale n (remote_sdp ts sdp name) p h =
      let (needs, e) = set_remote_sdp-state ts sdp name p in
      kept n p _ (rw e (omega arith)) (rw e refl) h

  run-IsStale : (n : ℕ) (es : List Event) (p : RtcPeer) → IsStale n p → IsStale n (run W es p).0
  unfolding run
  run-IsStale n [] p h = h
  run-IsStale n (e ∷ es) p h = run-IsStale n es (step W e p).0 (step-IsStale n e p h)

  cancels :
      (n : ℕ) (e : Event) (p : RtcPeer)
      → (e ≡ connects connected) ⊎ (e ≡ begins_terminate)
      → suc n ≤ p.next_flag
      → IsStale n (step W e p).0
  unfolding step on_connection_change begin_terminate
  cancels n e p (inl c) h =
      subst (λ x. IsStale n (step W x p).0) (sym c) (renewed n p _ (ground arith) (ground arith) h)
  cancels n e p (inr c) h =
      subst (λ x. IsStale n (step W x p).0) (sym c)
        (record { older = h; dead = set_not_alive-dead n p.connect_deadline_safety })

  -- Once the peer has connected, or its termination has begun, no deadline whose flag was
  -- drawn before closes the connection any more, whatever happens in between, later failures
  -- among it.
  pub deadline_cancelled :
      (n : ℕ) (e : Event) (es : List Event) (p : RtcPeer)
      → (e ≡ connects connected) ⊎ (e ≡ begins_terminate)
      → suc n ≤ p.next_flag
      → let q = (run W (e ∷ es) p).0 in deadline_task n q ≡ (q, [])
  unfolding run deadline_task
  deadline_cancelled n e es p c h =
      let stale = run-IsStale n es (step W e p).0 (cancels n e p c h) in ground (arith, stale.dead)
