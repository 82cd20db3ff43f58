-- ===== src/Peers/Tests.antt =====
-- A registry of two peers, of which one expires.
use pi_webrtc.Prelude.{ℕ, refl, inl, Bool, true, false, none, some, [], ◌∷◌, eqb, string_eq}
use pi_webrtc.Prelude.Dict.{Distinct}
use pi_webrtc.Peers.{PeerRegistry, waiting, wake}
use pi_webrtc.Peers.Cleaning.{
  World, expires, reports, Reach, here, next, IsWatched, Reach-IsWatched,
}

abbrev registry : PeerRegistry
registry = record {
  peers = ("a", some 1) ∷ ("b", some 2) ∷ ("c", none) ∷ [];
  stopped = false;
  expiry_pending = false;
  cleaner = some waiting;
  reports = true;
}

abbrev second : ℕ → Bool
second peer = eqb peer 2

registry-Distinct : Distinct registry.peers
registry-Distinct = (refl, (refl, (refl, tt)))

abbrev quiet : World
quiet = record { registry = registry; expired = []; reported = [] }

quiet-IsWatched : IsWatched quiet
quiet-IsWatched = record {
  distinct = registry-Distinct;
  running = (refl, inl refl);
  sound = λ peer h. cc;
  watched = λ id peer e m. cc;
}

abbrev pending : World
pending = record {
  registry = record registry { expiry_pending = true };
  expired = 2 ∷ [];
  reported = 2 ∷ [];
}

-- The second peer expires, and then its report runs.
quiet-pending : Reach quiet pending
unfolding wake
quiet-pending = next (next here (expires 2)) (reports 2 refl)

Reach-IsWatched_example : IsWatched pending
Reach-IsWatched_example = Reach-IsWatched quiet-IsWatched quiet-pending
