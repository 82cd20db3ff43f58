-- ===== src/Peers/Sweeping.antt =====
-- What `Sweep` takes out.
use pi_webrtc.Prelude.{
  ℕ, ◌≡◌, refl, ap, ◌∙◌, String, Bool, Option, none, some, List, [], ◌∷◌, map, if◌then◌else◌,
  ==_iff, string_eq, arith,
}
use pi_webrtc.Prelude.Dict.{lookup, Distinct}
use pi_webrtc.Peers.{PeerMap, PeerRegistry, found_live, get, sweep_loop, sweep}

module _ (expired : ℕ → Bool) where
  abbrev pub kept : Option (Option ℕ) → Option (Option ℕ)
  kept none = none
  kept (some none) = none
  kept (some (some peer)) = if expired peer then none else some (some peer)

  live-kept : (o : Option (Option ℕ)) → found_live expired (kept o) ≡ found_live expired o
  live-kept none = refl
  live-kept (some none) = refl
  live-kept (some (some peer)) = ground arith

  pub lookup-sweep_loop :
      (id : String) (peers : PeerMap)
      → Distinct peers
      → lookup id (sweep_loop expired peers).0 ≡ kept (lookup id peers)
  unfolding sweep_loop
  lookup-sweep_loop id [] d = refl
  lookup-sweep_loop id ((j, none) ∷ peers) d =
      ground (arith, ==_iff j id, lookup-sweep_loop id peers d.1)
  lookup-sweep_loop id ((j, some peer) ∷ peers) d =
      ground (arith, ==_iff j id, lookup-sweep_loop id peers d.1)

  pub sweep_loop-Distinct :
      (peers : PeerMap) → Distinct peers → Distinct (sweep_loop expired peers).0
  unfolding sweep_loop
  sweep_loop-Distinct [] d = tt
  sweep_loop-Distinct ((j, none) ∷ peers) d = sweep_loop-Distinct peers d.1
  sweep_loop-Distinct ((j, some peer) ∷ peers) d =
      ground (arith, lookup-sweep_loop j peers d.1, sweep_loop-Distinct peers d.1)

  -- The expired peers of a map, with their ids, in its order.
  abbrev pub expired_entries : PeerMap → List (String × ℕ)
  expired_entries [] = []
  expired_entries ((id, none) ∷ peers) = expired_entries peers
  expired_entries ((id, some peer) ∷ peers) =
      if expired peer then (id, peer) ∷ expired_entries peers else expired_entries peers

  sweep_loop-expired :
      (peers : PeerMap)
      → ((sweep_loop expired peers).1 ≡ map (λ entry. entry.0) (expired_entries peers))
        × ((sweep_loop expired peers).2 ≡ map (λ entry. entry.1) (expired_entries peers))
  unfolding sweep_loop
  sweep_loop-expired [] = (refl, refl)
  sweep_loop-expired ((j, none) ∷ peers) = sweep_loop-expired peers
  sweep_loop-expired ((j, some peer) ∷ peers) = ground (arith, sweep_loop-expired peers)

  -- A sweep of a map with each id once leaves the peers that have not expired, drops the expired ones
  -- and the null pointers, terminates just the expired peers, once each, and reports just their
  -- ids if a listener is set; so no lookup by `Get` changes.
  pub sweep_lem :
      (r : PeerRegistry)
      → Distinct r.peers
      → let (r', gone, ids) = sweep expired r in
        ((id : String)
          → (lookup id r'.peers ≡ kept (lookup id r.peers))
            × (get expired id r' ≡ get expired id r))
        × Distinct r'.peers
        × (gone ≡ map (λ entry. entry.1) (expired_entries r.peers))
        × (ids ≡ (if r.reports then map (λ entry. entry.0) (expired_entries r.peers) else []))
  unfolding sweep get
  sweep_lem r d =
      let (ids, gone) = sweep_loop-expired r.peers in
      (
        (λ id.
            let e = lookup-sweep_loop id r.peers d in
            (e, ap (found_live expired) e ∙ live-kept (lookup id r.peers))),
        sweep_loop-Distinct r.peers d,
        gone,
        ground (arith, ids),
      )
