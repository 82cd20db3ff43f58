-- ===== src/Peer/Ice.antt =====
-- Candidates that come before the remote description.
use pi_webrtc.Prelude.{◌≡◌, refl, sym, ap, ◌∙◌, true, false, List, [], ◌∷◌, ◌++◌, arith}
use pi_webrtc.Peer.State.{PendingIceCandidate, Parsers, RtcPeer, ◌andthen◌}
use pi_webrtc.Peer.Sdp.{flush_pending_ice, set_remote_ice, flush_loop}
use pi_webrtc.Peer.Events.{Event, flushes, remote_ice, step, run}
use pi_webrtc.Prelude.{append-nil, append_assoc, map}

module _ (W : Parsers) where
  pub run-append :
      (es fs : List Event) (p : RtcPeer) → run W (es ++ fs) p ≡ (run W es p andthen run W fs)
  unfolding run
  run-append [] fs p = refl
  run-append (e ∷ es) fs p = ground (
    arith,
    run-append es fs (step W e p).0,
    append_assoc (step W e p).1 (run W es (step W e p).0).1
        (run W fs (run W es (step W e p).0).0).1,
  )

  early :
      (ices : List PendingIceCandidate) (p : RtcPeer)
      → p.peer_connection ≡ true
      → run W (map (remote_ice false) ices) p
        ≡ (record p { pending_ice_candidates = p.pending_ice_candidates ++ ices }, [])
  unfolding run step set_remote_ice
  early [] p c =
      ap (λ (x : List PendingIceCandidate). (record p { pending_ice_candidates = x }, []))
        (sym (append-nil p.pending_ice_candidates))
  early (i ∷ ices) p c = ground (
    arith,
    early ices (record p { pending_ice_candidates = p.pending_ice_candidates ++ i ∷ [] }) c,
    append_assoc p.pending_ice_candidates (i ∷ []) ices,
  )

  late :
      (ices : List PendingIceCandidate) (p : RtcPeer)
      → p.peer_connection ≡ true
      → run W (map (remote_ice true) ices) p ≡ (p, flush_loop W true ices)
  unfolding run step set_remote_ice flush_loop
  late [] p c = refl
  late (i ∷ ices) p c = ground (arith, late ices p c)

  -- On a peer with a connection and nothing buffered, candidates that come before the remote
  -- description do, once they are flushed, what they would have done after it: those that parse are
  -- added, in order, and the peer is as it was.
  pub flush-remote_ice :
      (ices : List PendingIceCandidate) (p : RtcPeer)
      → p.peer_connection ≡ true
      → p.pending_ice_candidates ≡ []
      → run W (map (remote_ice false) ices ++ flushes ∷ []) p ≡ run W (map (remote_ice true) ices) p
  unfolding run step flush_pending_ice
  flush-remote_ice ices p c e =
      run-append (map (remote_ice false) ices) (flushes ∷ []) p
      ∙ ground (arith, early ices p c, late ices p c, c, e, append-nil (flush_loop W true ices))
