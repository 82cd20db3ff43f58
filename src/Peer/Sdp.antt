-- ===== src/Peer/Sdp.antt =====
-- Session descriptions and ICE candidates of a peer, from src/rtc/rtc_peer.cpp. What a method reads of
-- webrtc's connection, its remote description and its transceivers, is an argument.
use pi_webrtc.Prelude.{
  ℕ, suc, ◌+◌, String, Bool, true, false, not, ◌&&◌, ◌||◌, Option, none, some, List, [], ◌∷◌, ◌++◌,
  if◌then◌else◌, ◌==◌, string_eq,
}
use pi_webrtc.Peer.State.{
  GatheringState, gathering_complete, SdpType, offer, Description, PendingIceCandidate, Parsers,
  Flag, RtcPeer, Action, creates_answer, posts_emit, sends_sdp, sends_ice, sets_local, rolls_back,
  sets_remote, deactivates, adds_candidate, null_call, Did, ◌andthen◌, is_alive, set_not_alive,
  is_local_offer, can_renegotiate, is_sfu,
}

-- `SendLocalSdp` behind its reset of the flag.
abbrev pub send_description : Option Description → RtcPeer → Did
send_description none p = (p, null_call ∷ [])
send_description (some desc) p = (p, sends_sdp desc.sdp_type desc.sdp ∷ [])

unfoldable pub send_local_sdp : RtcPeer → Did
send_local_sdp p =
    let q : RtcPeer = record p { sdp_emit_safety = set_not_alive p.sdp_emit_safety } in
    if q.is_terminating || not q.on_local_sdp_fn
    then (q, [])
    else send_description q.modified_desc q

-- `RenewSafetyFlag` of the emission.
unfoldable pub renew_emit : RtcPeer → RtcPeer
renew_emit p = record p {
  sdp_emit_safety = some (record { number = p.next_flag; alive = true });
  next_flag = p.next_flag + 1;
}

unfoldable pub emit_local_sdp : Bool → RtcPeer → Did
unfolding renew_emit send_local_sdp
emit_local_sdp delayed p =
    if not p.on_local_sdp_fn
    then (p, [])
    else if delayed
    then (renew_emit p, posts_emit p.next_flag ∷ [])
    else send_local_sdp (renew_emit p)

-- The task of a delayed emission, which holds a flag.
unfoldable pub emit_task : ℕ → RtcPeer → Did
unfolding send_local_sdp
emit_task n p = if is_alive n p.sdp_emit_safety then send_local_sdp p else (p, [])

abbrev pub flag_alive : Option Flag → Bool
flag_alive none = false
flag_alive (some flag) = flag.alive

abbrev pub is_complete : GatheringState → Bool
is_complete gathering_complete = true
is_complete _ = false

unfoldable pub on_ice_gathering_change : GatheringState → RtcPeer → Did
unfolding send_local_sdp
on_ice_gathering_change state p =
    if is_complete state && flag_alive p.sdp_emit_safety then send_local_sdp p else (p, [])

module _ (W : Parsers) where
  abbrev pub set_local : Description → RtcPeer → Did
  set_local desc p = if p.peer_connection then (p, sets_local desc ∷ []) else (p, null_call ∷ [])

  -- `OnSuccess`, on the type and the text of the description that was made.
  unfoldable pub on_success : SdpType → String → RtcPeer → Did
  unfolding emit_local_sdp
  on_success sdp_type sdp p = elim (W.create_session_description sdp_type sdp) [
    | none ↦ (record p { modified_desc = none }, [])
    | some desc ↦
        set_local desc (record p { modified_desc = some desc })
        andthen emit_local_sdp p.has_candidates_in_sdp
  ]

  abbrev pub with_candidate : PendingIceCandidate → Option Description → Option Description
  with_candidate ice none = none
  with_candidate ice (some desc) = some (W.add_candidate ice desc)

  unfoldable pub on_ice_candidate : PendingIceCandidate → RtcPeer → Did
  on_ice_candidate ice p =
      let q : RtcPeer =
        if p.has_candidates_in_sdp
        then record p { modified_desc = with_candidate ice p.modified_desc }
        else p in
      (q, (if not q.is_terminating && q.on_local_ice_fn then sends_ice ice ∷ [] else []))

  -- The loop of `FlushPendingIce`.
  unfoldable pub flush_loop : Bool → List PendingIceCandidate → List Action
  flush_loop connection [] = []
  flush_loop connection (ice ∷ candidates) =
      let rest = flush_loop connection candidates in
      if not (W.create_ice_candidate ice)
      then rest
      else (if connection then adds_candidate ice else null_call) ∷ rest

  unfoldable pub flush_pending_ice : RtcPeer → Did
  unfolding flush_loop
  flush_pending_ice p = (
    record p { pending_ice_candidates = [] },
    flush_loop p.peer_connection p.pending_ice_candidates,
  )

  unfoldable pub set_remote_ice : Bool → PendingIceCandidate → RtcPeer → Did
  set_remote_ice has_remote ice p =
      if not p.peer_connection
      then (p, [])
      else if not has_remote
      then (record p { pending_ice_candidates = p.pending_ice_candidates ++ ice ∷ [] }, [])
      else if not (W.create_ice_candidate ice)
      then (p, [])
      else (p, adds_candidate ice ∷ [])

  -- The loop over the transceivers, which are whether they are for video, from a number on.
  abbrev pub deactivate_video : ℕ → List Bool → List Action
  deactivate_video n [] = []
  deactivate_video n (true ∷ transceivers) = deactivates n ∷ deactivate_video (suc n) transceivers
  deactivate_video n (false ∷ transceivers) = deactivate_video (suc n) transceivers

  abbrev pub is_offer : SdpType → Bool
  is_offer offer = true
  is_offer _ = false

  -- `SetRemoteSdp` behind the parsing of the type.
  unfoldable pub apply_remote : List Bool → SdpType → Option Description → RtcPeer → Did
  apply_remote transceivers sdp_type none p = (p, [])
  apply_remote transceivers sdp_type (some desc) p = (
    p,
    sets_remote desc
        ∷ (if is_offer sdp_type
            then (if is_sfu p.backend && not p.is_publisher
                then deactivate_video 0 transceivers
                else [])
              ++ creates_answer ∷ []
            else []),
  )

  unfoldable pub typed_remote : List Bool → String → String → Option SdpType → RtcPeer → Did
  unfolding apply_remote
  typed_remote transceivers sdp name none p = (p, [])
  typed_remote transceivers sdp name (some sdp_type) p =
      if is_offer sdp_type && is_local_offer p.signaling_state
      then (
        record p { needs_renegotiation = can_renegotiate p.backend || p.needs_renegotiation },
        rolls_back sdp name ∷ [],
      )
      else apply_remote transceivers sdp_type (W.create_session_description sdp_type sdp) p

  unfoldable pub set_remote_sdp : List Bool → String → String → RtcPeer → Did
  unfolding typed_remote
  set_remote_sdp transceivers sdp name p =
      if not p.peer_connection
      then (p, [])
      else if not p.is_negotiating && not (name == "offer")
      then (p, [])
      else typed_remote transceivers sdp name (W.sdp_type_from_string name) p
