-- ===== src/Peer/Glare.antt =====
-- A remote offer that meets a local one.
use pi_webrtc.Prelude.{◌≡◌, String, Bool, true, false, some, List, [], ◌∷◌, arith}
use pi_webrtc.Peer.State.{Description, Parsers, RtcPeer, creates_offer}
use pi_webrtc.Peer.Connection.{
  create_offer, arm_connect_deadline, on_signaling_change, after_signaling,
}
use pi_webrtc.Peer.Sdp.{set_remote_sdp, typed_remote, apply_remote}
use pi_webrtc.Peer.Events.{Event, signals, remote_sdp, step, run}
use pi_webrtc.Peer.State.{
  direct, offer, have_local_offer, have_remote_offer, stable, rolls_back, sets_remote,
  creates_answer, posts_deadline,
}

-- A remote offer that parses, and that meets the local offer of a connected peer on the direct
-- backend, rolls the local one back, and is set and answered once webrtc is stable again; no
-- offer is made on that way. When the answer makes webrtc stable, the peer makes its own
-- offer, once, and asks for no more.
pub glare_resumed :
    (W : Parsers) (transceivers : List Bool) (sdp : String) (desc : Description) (p : RtcPeer)
    → p.backend ≡ direct
    → p.peer_connection ≡ true
    → p.is_connected ≡ true
    → p.signaling_state ≡ have_local_offer
    → W.sdp_type_from_string "offer" ≡ some offer
    → W.create_session_description offer sdp ≡ some desc
    → let again : Event = remote_sdp transceivers sdp "offer" in
      let (q, done) =
        run W
          (again ∷ signals stable ∷ again ∷ signals have_remote_offer ∷ signals stable ∷ [])
          p in
      (done
        ≡ rolls_back sdp "offer"
          ∷ sets_remote desc
          ∷ creates_answer
          ∷ posts_deadline p.next_flag
          ∷ creates_offer
          ∷ [])
      × (q.needs_renegotiation ≡ false)
unfolding run step set_remote_sdp typed_remote apply_remote on_signaling_change after_signaling
    arm_connect_deadline create_offer
glare_resumed W transceivers sdp desc p b c k s t d = ground (arith, b, c, k, s, t, d)
