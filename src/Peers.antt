-- ===== src/Peers.antt =====
-- src/signaling/peer_registry.cpp: the peers of a signaling service, and the cleaner thread that drops
-- the expired ones. A peer is known by its address; whether it has expired is read through a
-- function at the moment of the step. The peers that a step terminates and the ids that it reports
-- are its results.
pub mod Sweeping
pub mod Cleaning
mod Tests
use pi_webrtc.Prelude.{
  ℕ, String, Bool, true, false, not, ◌&&◌, ◌||◌, Option, none, some, List, [], ◌∷◌, ◌++◌,
  if◌then◌else◌, string_eq,
}
use pi_webrtc.Prelude.Dict.{lookup, insert, erase}

-- `std::unordered_map<std::string, scoped_refptr<RtcPeer>>`; a null pointer is `none`.
abbrev pub PeerMap : Type 0
PeerMap = List (String × Option ℕ)

-- Where the cleaner thread stands: at its wait, between its wait and `Sweep`, or ended.
pub data CleanerPhase : Type 0 where
  waiting sweeping ended : CleanerPhase

-- `cleaner` is `none` before `Start`. `reports` is whether `on_expired_` is set.
pub record PeerRegistry : Type 0 where
  pub peers : PeerMap
  pub stopped : Bool
  pub expiry_pending : Bool
  pub cleaner : Option CleanerPhase
  pub reports : Bool

-- `Cleaner::Wake`.
pub wake : PeerRegistry → PeerRegistry
wake r = record r { expiry_pending = true }

pub start : PeerRegistry → PeerRegistry
start r = elim r.cleaner [
  | none ↦ record r { stopped = false; cleaner = some waiting }
  | some phase ↦ r
]

-- The cleaner at its wait: it goes on once it is stopped or an expiry is pending.
cleaner_take : Option CleanerPhase → PeerRegistry → PeerRegistry
cleaner_take (some waiting) r =
    if not (r.stopped || r.expiry_pending)
    then r
    else if r.stopped
    then record r { cleaner = some ended }
    else record r { expiry_pending = false; cleaner = some sweeping }
cleaner_take _ r = r

pub cleaner_wait : PeerRegistry → PeerRegistry
unfolding cleaner_take
cleaner_wait r = cleaner_take r.cleaner r

-- `Add`, at a peer and its id, where its expiry calls `wake`.
pub add : Option (ℕ × String) → PeerRegistry → PeerRegistry
add none r = r
add (some (peer, id)) r = record r { peers = insert id (some peer) r.peers }

module _ (expired : ℕ → Bool) where
  abbrev pub found_live : Option (Option ℕ) → Option ℕ
  found_live none = none
  found_live (some none) = none
  found_live (some (some peer)) = if not (expired peer) then some peer else none

  pub get : String → PeerRegistry → Option ℕ
  get id r = found_live (lookup id r.peers)

  -- The loop of `Sweep`: the peers that stay, and the ids and peers that have expired.
  pub sweep_loop : PeerMap → PeerMap × List String × List ℕ
  sweep_loop [] = ([], [], [])
  sweep_loop ((id, none) ∷ peers) = sweep_loop peers
  sweep_loop ((id, some peer) ∷ peers) =
      let (kept, ids, gone) = sweep_loop peers in
      if expired peer then (kept, id ∷ ids, peer ∷ gone) else ((id, some peer) ∷ kept, ids, gone)

  -- `Sweep`, with the peers that it terminates and the ids that it reports.
  pub sweep : PeerRegistry → PeerRegistry × List ℕ × List String
  unfolding sweep_loop
  sweep r =
      let (kept, ids, gone) = sweep_loop r.peers in
      (record r { peers = kept }, gone, (if r.reports then ids else []))

  -- The cleaner's round behind its wait.
  sweep_at : Option CleanerPhase → PeerRegistry → PeerRegistry × List ℕ × List String
  unfolding sweep
  sweep_at (some sweeping) r =
      let (r', gone, ids) = sweep r in (record r' { cleaner = some waiting }, gone, ids)
  sweep_at _ r = (r, [], [])

  pub cleaner_sweep : PeerRegistry → PeerRegistry × List ℕ × List String
  unfolding sweep_at
  cleaner_sweep r = sweep_at r.cleaner r

abbrev held : Option (Option ℕ) → List ℕ
held (some (some peer)) = peer ∷ []
held _ = []

-- `Remove`, with the peers that it terminates.
pub remove : String → PeerRegistry → PeerRegistry × List ℕ
remove id r = (record r { peers = erase id r.peers }, held (lookup id r.peers))

abbrev all_held : PeerMap → List ℕ
all_held [] = []
all_held ((id, none) ∷ peers) = all_held peers
all_held ((id, some peer) ∷ peers) = peer ∷ all_held peers

-- `Stop`, with the peers that it terminates. The worker is joined on the way.
pub stop : PeerRegistry → PeerRegistry × List ℕ
stop r = (record r { stopped = true; cleaner = none; peers = [] }, all_held r.peers)
