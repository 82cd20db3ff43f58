-- ===== src/Peer/Tests.antt =====
-- A peer on the direct backend, over parsers that take every text but the empty one.
use pi_webrtc.Prelude.{
  ◌+◌, ◌≤◌, ◌≡◌, refl, inl, String, true, false, Option, none, some, List, [], ◌∷◌, ◌++◌, map, not,
  if◌then◌else◌, ◌==◌, string_eq, arith,
}
use pi_webrtc.Peer.State.{
  stable, have_local_offer, have_remote_offer, SdpType, offer, answer, Description,
  PendingIceCandidate, Parsers, direct, connected, connection_closed, gathering_complete, RtcPeer,
  closes, rolls_back, sets_remote, creates_answer, posts_deadline, creates_offer,
}
use pi_webrtc.Peer.Connection.{deadline_task, arm_connect_deadline, on_connection_change}
use pi_webrtc.Peer.Sdp.{on_success, on_ice_gathering_change, emit_task}
use pi_webrtc.Peer.Events.{
  Event, begins_terminate, flushes, emit, signals, connects, gathers, succeeds, remote_ice,
  remote_sdp, create, step, run,
}
use pi_webrtc.Peer.Silence.{any_loud, terminate-silent}
use pi_webrtc.Peer.Expiry.{expiries, expired_count, run-expiries}
use pi_webrtc.Peer.Consistency.{IsConsistent, run-IsConsistent}
use pi_webrtc.Peer.Offers.{MayOffer, step-MayOffer}
use pi_webrtc.Peer.Deadline.{deadline_cancelled}
use pi_webrtc.Peer.Deadline.Due.{deadline_closes}
use pi_webrtc.Peer.Glare.{glare_resumed}
use pi_webrtc.Peer.Ice.{flush-remote_ice}
use pi_webrtc.Peer.Emission.{sent, description_sent_once}

abbrev type_from_string : String → Option SdpType
type_from_string name =
    if name == "offer" then some offer else if name == "answer" then some answer else none

abbrev type_to_string : SdpType → String
type_to_string offer = "offer"
type_to_string _ = "answer"

abbrev parsed : SdpType → String → Option Description
parsed sdp_type sdp = if sdp == "" then none else some (record { sdp_type = sdp_type; sdp = sdp })

abbrev parsers : Parsers
parsers = record {
  sdp_type_from_string = type_from_string;
  sdp_type_to_string = type_to_string;
  create_session_description = parsed;
  create_ice_candidate = λ ice. not (ice.candidate == "");
  add_candidate = λ ice desc. record desc { sdp = ice.candidate };
}

abbrev peer : RtcPeer
peer = record {
  id = "p";
  backend = direct;
  is_publisher = true;
  has_candidates_in_sdp = true;
  needs_renegotiation = false;
  is_connected = false;
  is_expired = false;
  is_terminating = false;
  is_negotiating = false;
  on_expired_fn = true;
  on_connection_state_fn = true;
  on_local_sdp_fn = true;
  on_local_ice_fn = true;
  connect_deadline_safety = none;
  sdp_emit_safety = none;
  next_flag = 0;
  modified_desc = none;
  signaling_state = stable;
  peer_connection = true;
  pending_ice_candidates = [];
}

peer-create : create "p" direct true true ≡ peer
unfolding create
peer-create = refl

abbrev described : Description
described = record { sdp_type = offer; sdp = "v=0" }

abbrev ices : List PendingIceCandidate
ices =
    record { sdp_mid = "0"; sdp_mline_index = 0; candidate = "a" }
    ∷ record { sdp_mid = "0"; sdp_mline_index = 0; candidate = "" }
    ∷ []

abbrev offering_peer : RtcPeer
offering_peer = record peer {
  is_connected = true;
  is_negotiating = true;
  signaling_state = have_local_offer;
}

abbrev history : List Event
history =
    succeeds offer "v=0"
    ∷ connects connected
    ∷ connects connection_closed
    ∷ gathers gathering_complete
    ∷ emit 0
    ∷ []

-- Without a termination the history is not silent.
history_loud :
    (any_loud (run parsers history peer).1 ≡ true) × (expiries (run parsers history peer).1 ≡ 1)
unfolding run step on_connection_change on_success on_ice_gathering_change emit_task
history_loud = (refl, refl)

terminate-silent_example :
    let (q, done) = run parsers (begins_terminate ∷ history) peer in
    (any_loud done ≡ false) × (q.is_expired ≡ true)
terminate-silent_example = terminate-silent parsers history peer

run-expiries_example :
    let (q, done) = run parsers history peer in
    expired_count false + expiries done ≤ expired_count q.is_expired
run-expiries_example = run-expiries parsers history peer

peer-IsConsistent : IsConsistent peer
peer-IsConsistent = record { negotiating = refl; allowed = λ n. cc }

run-IsConsistent_example : IsConsistent (run parsers history peer).0
run-IsConsistent_example = run-IsConsistent parsers history peer peer-IsConsistent

abbrev asking_peer : RtcPeer
asking_peer = record peer { needs_renegotiation = true }

asking_peer-IsConsistent : IsConsistent asking_peer
asking_peer-IsConsistent = record { negotiating = refl; allowed = λ n. refl }

step-MayOffer_example : MayOffer (step parsers (connects connected) asking_peer).0
unfolding step on_connection_change
step-MayOffer_example =
    step-MayOffer parsers (connects connected) asking_peer asking_peer-IsConsistent (λ e. cc) refl

abbrev armed_peer : RtcPeer
armed_peer = record peer {
  connect_deadline_safety = some (record { number = 0; alive = true });
  next_flag = 1;
}

deadline_cancelled_example :
    let q = (run parsers (connects connected ∷ history) armed_peer).0 in deadline_task 0 q ≡ (q, [])
deadline_cancelled_example =
    deadline_cancelled parsers 0 (connects connected) history armed_peer (inl refl) (omega arith)

deadline_closes_example :
    let q =
      (run parsers
        (signals have_local_offer ∷ signals stable ∷ [])
        (arm_connect_deadline peer).0).0 in
    deadline_task 0 q ≡ (q, closes ∷ [])
deadline_closes_example =
    deadline_closes parsers (signals have_local_offer ∷ signals stable ∷ []) peer refl refl refl

glare_resumed_example :
    let again : Event = remote_sdp [] "v=0" "offer" in
    let (q, done) =
      run parsers
        (again ∷ signals stable ∷ again ∷ signals have_remote_offer ∷ signals stable ∷ [])
        offering_peer in
    (done
      ≡ rolls_back "v=0" "offer"
        ∷ sets_remote described
        ∷ creates_answer
        ∷ posts_deadline 0
        ∷ creates_offer
        ∷ [])
    × (q.needs_renegotiation ≡ false)
glare_resumed_example =
    glare_resumed parsers [] "v=0" described offering_peer refl refl refl refl refl refl

flush-remote_ice_example :
    run parsers (map (remote_ice false) ices ++ flushes ∷ []) peer
    ≡ run parsers (map (remote_ice true) ices) peer
flush-remote_ice_example = flush-remote_ice parsers ices peer refl refl

description_sent_once_example :
    sent (run parsers (succeeds offer "v=0" ∷ gathers gathering_complete ∷ emit 0 ∷ []) peer).1 ≤ 1
description_sent_once_example =
    description_sent_once parsers offer "v=0" (gathers gathering_complete ∷ emit 0 ∷ []) peer refl
