-- ===== src/Peer/Offers.antt =====
-- The offers that a peer makes of itself.
use pi_webrtc.Prelude.{
  ℕ, suc, ◌≡◌, ◌≢◌, refl, inl, inr, String, Bool, true, false, ◌||◌, Option, none, some, List, [],
  ◌∷◌, ◌++◌, Option-cases, arith,
}
use pi_webrtc.Peer.State.{
  SdpType, Description, PendingIceCandidate, Parsers, RtcPeer, Action, creates_offer, is_stable,
  can_renegotiate, connected, failed, connection_closed,
}
use pi_webrtc.Peer.Connection.{
  create_offer, deadline_task, arm_connect_deadline, begin_terminate, end_terminate,
  on_signaling_change, on_connection_change, on_renegotiation_needed, after_signaling,
}
use pi_webrtc.Peer.Sdp.{
  emit_task, on_ice_gathering_change, on_success, on_ice_candidate, flush_pending_ice,
  set_remote_ice, set_remote_sdp, flush_loop, typed_remote, apply_remote, deactivate_video,
}
use pi_webrtc.Peer.Events.{
  Event, offers, deadlines_armed, begins_terminate, ends_terminate, renegotiates, flushes, deadline,
  emit, signals, connects, gathers, succeeds, finds_candidate, remote_ice, remote_sdp, step,
}
use pi_webrtc.Peer.Consistency.{IsConsistent}

abbrev pub offering : List Action → Bool
offering [] = false
offering (creates_offer ∷ as') = true
offering (_ ∷ as') = offering as'

offering-append : (a b : List Action) → offering (a ++ b) ≡ (offering a || offering b)
offering-append [] b = refl
offering-append (creates_offer ∷ a) b = refl
offering-append (_ ∷ a) b = offering-append a b

flush_loop-offering :
    (W : Parsers) (c : Bool) (ices : List PendingIceCandidate)
    → offering (flush_loop W c ices) ≡ false
unfolding flush_loop
flush_loop-offering W c [] = refl
flush_loop-offering W true (i ∷ ices) = ground (arith, flush_loop-offering W true ices)
flush_loop-offering W false (i ∷ ices) = ground (arith, flush_loop-offering W false ices)

deactivate_video-offering :
    (W : Parsers) (n : ℕ) (ts : List Bool) → offering (deactivate_video W n ts) ≡ false
deactivate_video-offering W n [] = refl
deactivate_video-offering W n (true ∷ ts) = deactivate_video-offering W (suc n) ts
deactivate_video-offering W n (false ∷ ts) = deactivate_video-offering W (suc n) ts

-- The peer was right to offer: it is connected, webrtc is stable, the backend takes later offers,
-- and nothing more is asked for.
pub record MayOffer (q : RtcPeer) : Type 0 where
  pub is_connected : q.is_connected ≡ true
  pub stable : is_stable q.signaling_state ≡ true
  pub allowed : can_renegotiate q.backend ≡ true
  pub asked : q.needs_renegotiation ≡ false

may :
    (q : RtcPeer)
    → q.is_connected ≡ true
    → is_stable q.signaling_state ≡ true
    → can_renegotiate q.backend ≡ true
    → q.needs_renegotiation ≡ false
    → MayOffer q
may q a b c d = record { is_connected = a; stable = b; allowed = c; asked = d }

module _ (W : Parsers) where
  apply_remote-offering :
      (ts : List Bool) (t : SdpType) (d : Option Description) (p : RtcPeer)
      → offering (apply_remote W ts t d p).1 ≡ false
  unfolding apply_remote
  apply_remote-offering ts t none p = refl
  apply_remote-offering ts t (some desc) p = ground (
    arith,
    offering-append (deactivate_video W 0 ts) (Action.creates_answer ∷ []),
    deactivate_video-offering W 0 ts,
  )

  typed_remote-offering :
      (ts : List Bool) (sdp name : String) (t : Option SdpType) (p : RtcPeer)
      → offering (typed_remote W ts sdp name t p).1 ≡ false
  unfolding typed_remote
  typed_remote-offering ts sdp name none p = refl
  typed_remote-offering ts sdp name (some t) p =
      ground (arith, apply_remote-offering ts t (W.create_session_description t sdp) p)

  -- Every step but an explicit call of `CreateOffer` makes an offer only if, afterwards, the peer
  -- is connected, webrtc is stable, the backend takes later offers and no further renegotiation is
  -- asked for; the peer before is a consistent one.
  pub step-MayOffer :
      (e : Event) (p : RtcPeer)
      → IsConsistent p
      → e ≢ offers
      → offering (step W e p).1 ≡ true
      → MayOffer (step W e p).0
  unfolding step create_offer arm_connect_deadline begin_terminate end_terminate
      on_renegotiation_needed flush_pending_ice deadline_task emit_task on_signaling_change
      on_connection_change on_ice_gathering_change on_success on_ice_candidate set_remote_ice
      set_remote_sdp after_signaling
  step-MayOffer offers p c ne h = absurd (ne refl)
  step-MayOffer deadlines_armed p c ne h = ground arith
  step-MayOffer begins_terminate p c ne h = ground arith
  step-MayOffer ends_terminate p c ne h = ground arith
  step-MayOffer renegotiates p c ne h =
      may _ (ground arith) (ground arith) (ground arith) (ground arith)
  step-MayOffer flushes p c ne h =
      ground (arith, flush_loop-offering W p.peer_connection p.pending_ice_candidates)
  step-MayOffer (deadline n) p c ne h = ground arith
  step-MayOffer (emit n) p c ne h = elim (Option-cases p.modified_desc) [
    | inl e ↦ absurd (ground (arith, e))
    | inr (d, e) ↦ absurd (ground (arith, e))
  ]
  step-MayOffer (signals state) p c ne h =
      may _ (ground arith) (ground arith) (ground arith) (ground arith)
  step-MayOffer (connects connected) p c ne h =
      may _ (ground arith) (ground arith) (ground (arith, c.allowed)) (ground arith)
  step-MayOffer (connects failed) p c ne h = ground arith
  step-MayOffer (connects connection_closed) p c ne h = ground arith
  step-MayOffer (connects _) p c ne h = ground arith
  step-MayOffer (gathers state) p c ne h = elim (Option-cases p.modified_desc) [
    | inl e ↦ absurd (ground (arith, e))
    | inr (d, e) ↦ absurd (ground (arith, e))
  ]
  step-MayOffer (succeeds t sdp) p c ne h =
      elim (Option-cases (W.create_session_description t sdp)) [
        | inl e ↦ absurd (ground (arith, e))
        | inr (d, e) ↦ absurd (ground (arith, e))
      ]
  step-MayOffer (finds_candidate ice) p c ne h = ground arith
  step-MayOffer (remote_ice has_remote ice) p c ne h = ground arith
  step-MayOffer (remote_sdp ts sdp name) p c ne h =
      absurd (ground (arith, typed_remote-offering ts sdp name (W.sdp_type_from_string name) p))
