-- ===== src/Peer/Gathering.antt =====
-- A description that waits for its candidates.
use pi_webrtc.Prelude.{
  ℕ, ◌+◌, ◌≡◌, refl, ap, ◌∙◌, String, Bool, true, false, some, List, [], ◌∷◌, ◌++◌, if◌then◌else◌,
  arith,
}
use pi_webrtc.Peer.State.{
  SdpType, Description, PendingIceCandidate, Parsers, RtcPeer, Action, sends_sdp, sends_ice, Did,
}
use pi_webrtc.Peer.Sdp.{emit_task, on_ice_gathering_change, on_success, on_ice_candidate}
use pi_webrtc.Peer.Events.{emit, gathers, succeeds, finds_candidate, step, run}
use pi_webrtc.Prelude.{map}
use pi_webrtc.Peer.State.{posts_emit, sets_local, gathering_complete}
use pi_webrtc.Peer.Ice.{run-append}

module _ (W : Parsers) where
  -- A description with candidates added, in order.
  abbrev pub with_candidates : List PendingIceCandidate → Description → Description
  with_candidates [] desc = desc
  with_candidates (ice ∷ ices) desc = with_candidates ices (W.add_candidate ice desc)

  -- The candidates for their listener.
  abbrev pub trickled : Bool → List PendingIceCandidate → List Action
  trickled listened ices = if listened then map sends_ice ices else []

  found :
      (ices : List PendingIceCandidate) (desc : Description) (p : RtcPeer)
      → p.has_candidates_in_sdp ≡ true
      → p.modified_desc ≡ some desc
      → p.is_terminating ≡ false
      → run W (map finds_candidate ices) p ≡ (
        record p { modified_desc = some (with_candidates ices desc) },
        trickled p.on_local_ice_fn ices,
      )
  unfolding run step on_ice_candidate
  found [] desc p c d t = ground (arith, d)
  found (ice ∷ ices) desc p c d t = ground (
    arith,
    found ices (W.add_candidate ice desc)
        (record p { modified_desc = some (W.add_candidate ice desc) }) c refl t,
    d,
  )

  after_found :
      (ices : List PendingIceCandidate) (desc : Description) (p : RtcPeer) (n : ℕ)
      → p.has_candidates_in_sdp ≡ true
      → p.modified_desc ≡ some desc
      → p.is_terminating ≡ false
      → p.on_local_sdp_fn ≡ true
      → p.sdp_emit_safety ≡ some (record { number = n; alive = true })
      → let whole = with_candidates ices desc in
        (run W (map finds_candidate ices ++ gathers gathering_complete ∷ emit n ∷ []) p).1
        ≡ trickled p.on_local_ice_fn ices ++ sends_sdp whole.sdp_type whole.sdp ∷ []
  unfolding run step emit_task on_ice_gathering_change
  after_found ices desc p n c d t l f =
      ap (λ (x : Did). x.1)
        (run-append W (map finds_candidate ices) (gathers gathering_complete ∷ emit n ∷ []) p)
      ∙ ground (arith, found ices desc p c d t, f, l, t)

  -- A peer with a connection, not terminating, whose descriptions carry their candidates and
  -- that has a listener for them, holds back the one that it made, if that parses: the end of
  -- gathering sends it, with the candidates found until then in their order, and the task that
  -- was to send it after a second then sends nothing.
  pub description_gathered :
      (t : SdpType) (sdp : String) (desc : Description) (ices : List PendingIceCandidate)
      (p : RtcPeer)
      → p.has_candidates_in_sdp ≡ true
      → p.peer_connection ≡ true
      → p.is_terminating ≡ false
      → p.on_local_sdp_fn ≡ true
      → W.create_session_description t sdp ≡ some desc
      → let whole = with_candidates ices desc in
        (run W
          (succeeds t sdp
            ∷ (map finds_candidate ices ++ gathers gathering_complete ∷ emit p.next_flag ∷ []))
          p).1
        ≡ sets_local desc
          ∷ posts_emit p.next_flag
          ∷ (trickled p.on_local_ice_fn ices ++ sends_sdp whole.sdp_type whole.sdp ∷ [])
  unfolding run step on_success
  description_gathered t sdp desc ices p c k r l d =
      let q : RtcPeer = record p {
        modified_desc = some desc;
        sdp_emit_safety = some (record { number = p.next_flag; alive = true });
        next_flag = p.next_flag + 1;
      } in
      let made : step W (succeeds t sdp) p ≡ (q, sets_local desc ∷ posts_emit p.next_flag ∷ []) =
        ground (arith, d, c, k, l) in
      ground (arith, made, after_found ices desc q p.next_flag c refl r l refl)
