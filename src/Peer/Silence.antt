-- ===== src/Peer/Silence.antt =====
-- A peer that is being terminated calls no listener any more.
use pi_webrtc.Prelude.{
  ℕ, suc, ◌≡◌, refl, ◌∙◌, inl, inr, String, Bool, true, false, ◌||◌, Option, none, some, List, [],
  ◌∷◌, ◌++◌, Option-cases, arith,
}
use pi_webrtc.Peer.State.{
  SdpType, Description, PendingIceCandidate, Parsers, RtcPeer, Action, posts_expired, reports_state,
  sends_sdp, sends_ice, Did, connected, failed, connection_closed,
}
use pi_webrtc.Peer.Connection.{
  create_offer, deadline_task, arm_connect_deadline, begin_terminate, end_terminate,
  on_signaling_change, on_connection_change, on_renegotiation_needed,
}
use pi_webrtc.Peer.Sdp.{
  emit_task, on_ice_gathering_change, on_success, on_ice_candidate, flush_pending_ice,
  set_remote_ice, set_remote_sdp, flush_loop, typed_remote, apply_remote, deactivate_video,
}
use pi_webrtc.Peer.Events.{
  Event, offers, deadlines_armed, begins_terminate, ends_terminate, renegotiates, flushes, deadline,
  emit, signals, connects, gathers, succeeds, finds_candidate, remote_ice, remote_sdp, step, run,
}

-- A call of a listener, or the task that makes one.
abbrev pub is_loud : Action → Bool
is_loud (sends_sdp sdp_type sdp) = true
is_loud (sends_ice ice) = true
is_loud (reports_state state) = true
is_loud posts_expired = true
is_loud _ = false

abbrev pub any_loud : List Action → Bool
any_loud [] = false
any_loud (a ∷ as') = is_loud a || any_loud as'

any_loud-append : (a b : List Action) → any_loud (a ++ b) ≡ (any_loud a || any_loud b)
any_loud-append [] b = refl
any_loud-append (x ∷ a) b = ground (arith, any_loud-append a b)

flush_loop-quiet :
    (W : Parsers) (c : Bool) (ices : List PendingIceCandidate)
    → any_loud (flush_loop W c ices) ≡ false
unfolding flush_loop
flush_loop-quiet W c [] = refl
flush_loop-quiet W c (i ∷ ices) = ground (arith, flush_loop-quiet W c ices)

deactivate_video-quiet :
    (W : Parsers) (n : ℕ) (ts : List Bool) → any_loud (deactivate_video W n ts) ≡ false
deactivate_video-quiet W n [] = refl
deactivate_video-quiet W n (true ∷ ts) = deactivate_video-quiet W (suc n) ts
deactivate_video-quiet W n (false ∷ ts) = deactivate_video-quiet W (suc n) ts

abbrev pub IsOver : RtcPeer → Type 0
IsOver p = (p.is_terminating ≡ true) × (p.is_expired ≡ true)

abbrev IsQuiet : Did → Type 0
IsQuiet (p, done) = IsOver p × (any_loud done ≡ false)

module _ (W : Parsers) where
  apply_remote-IsQuiet :
      (ts : List Bool) (t : SdpType) (d : Option Description) (p : RtcPeer)
      → IsOver p
      → IsQuiet (apply_remote W ts t d p)
  unfolding apply_remote
  apply_remote-IsQuiet ts t none p h = (h, refl)
  apply_remote-IsQuiet ts t (some desc) p h = (
    h,
    ground (
      arith,
      any_loud-append (deactivate_video W 0 ts) (Action.creates_answer ∷ []),
      deactivate_video-quiet W 0 ts,
    ),
  )

  typed_remote-IsQuiet :
      (ts : List Bool) (sdp name : String) (t : Option SdpType) (p : RtcPeer)
      → IsOver p
      → IsQuiet (typed_remote W ts sdp name t p)
  unfolding typed_remote
  typed_remote-IsQuiet ts sdp name none p h = (h, refl)
  typed_remote-IsQuiet ts sdp name (some t) p h =
      ground (arith, apply_remote-IsQuiet ts t (W.create_session_description t sdp) p)

  step-IsQuiet : (e : Event) (p : RtcPeer) → IsOver p → IsQuiet (step W e p)
  unfolding step create_offer arm_connect_deadline begin_terminate end_terminate
      on_renegotiation_needed flush_pending_ice deadline_task emit_task on_signaling_change
      on_connection_change on_ice_gathering_change on_success on_ice_candidate set_remote_ice
      set_remote_sdp
  step-IsQuiet offers p h = ground arith
  step-IsQuiet deadlines_armed p h = ground arith
  step-IsQuiet begins_terminate p h = ground arith
  step-IsQuiet ends_terminate p h = ground arith
  step-IsQuiet renegotiates p h = ground arith
  step-IsQuiet flushes p h = (h, flush_loop-quiet W p.peer_connection p.pending_ice_candidates)
  step-IsQuiet (deadline n) p h = ground arith
  step-IsQuiet (emit n) p h = ground arith
  step-IsQuiet (signals state) p h = ground arith
  step-IsQuiet (connects connected) p h = ground arith
  step-IsQuiet (connects failed) p h = ground arith
  step-IsQuiet (connects connection_closed) p h = ground arith
  step-IsQuiet (connects _) p h = ground arith
  step-IsQuiet (gathers state) p h = ground arith
  step-IsQuiet (succeeds t sdp) p h = elim (Option-cases (W.create_session_description t sdp)) [
    | inl e ↦ rw (e, on_success) (ground arith)
    | inr (d, e) ↦ rw (e, on_success) (ground arith)
  ]
  step-IsQuiet (finds_candidate ice) p h = ground arith
  step-IsQuiet (remote_ice has_remote ice) p h = ground arith
  step-IsQuiet (remote_sdp ts sdp name) p h =
      ground (arith, typed_remote-IsQuiet ts sdp name (W.sdp_type_from_string name) p)

  run-IsQuiet : (es : List Event) (p : RtcPeer) → IsOver p → IsQuiet (run W es p)
  unfolding run
  run-IsQuiet [] p h = (h, refl)
  run-IsQuiet (e ∷ es) p h =
      let (over, quiet) = step-IsQuiet e p h in
      let (over', quiet') = run-IsQuiet es (step W e p).0 over in
      (
        over',
        ground (arith, quiet, quiet', any_loud-append (step W e p).1 (run W es (step W e p).0).1),
      )

  -- Once `Terminate` has begun, nothing that happens to the peer, in whatever order, hands a description,
  -- a candidate or a state to a listener, or posts the report of its expiry; the peer stays
  -- expired.
  pub terminate-silent :
      (es : List Event) (p : RtcPeer)
      → let (q, done) = run W (begins_terminate ∷ es) p in
        (any_loud done ≡ false) × (q.is_expired ≡ true)
  unfolding run step begin_terminate
  terminate-silent es p =
      let q : RtcPeer = (begin_terminate p).0 in
      let ((_, expired), quiet) = run-IsQuiet es q (refl, refl) in
      (any_loud-append (begin_terminate p).1 (run W es q).1 ∙ ground (arith, quiet), expired)
