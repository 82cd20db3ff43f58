-- ===== src/Peers/Cleaning.antt =====
-- The cleaner thread beside the threads that add, expire and remove peers: no wake-up is lost.
use pi_webrtc.Prelude.{
  ℕ, ◌≡◌, ◌≢◌, refl, sym, ap, subst, ◌∙◌, ◌⊎◌, inl, inr, String, Bool, true, false, Option, none,
  some, List, [], ◌∷◌, eqb, if◌then◌else◌, Bool-cases, string_eq, nat_eq, arith,
}
use pi_webrtc.Prelude.Dict.{
  lookup, Distinct, lookup-insert, lookup-erase, insert-Distinct, erase-Distinct,
}
use pi_webrtc.Peers.{
  PeerRegistry, waiting, sweeping, wake, add, sweep_loop, cleaner_wait, cleaner_sweep, remove,
}
use pi_webrtc.Peers.Sweeping.{kept, lookup-sweep_loop, sweep_loop-Distinct}

abbrev pub member : ℕ → List ℕ → Bool
member a [] = false
member a (x ∷ xs) = if eqb x a then true else member a xs

-- The registry, the peers that have expired, and those whose expiry has been reported to the cleaner.
pub record World : Type 0 where
  pub registry : PeerRegistry
  pub expired : List ℕ
  pub reported : List ℕ

abbrev pub is_expired : World → ℕ → Bool
is_expired w peer = member peer w.expired

-- A step of any thread. A peer is added before it expires, which `CreatePeer` does; its expiry is
-- reported by a task that runs some time after it.
pub data Step (w : World) : World → Type 0 where
  adds :
      (peer : ℕ) (id : String)
      → is_expired w peer ≡ false
      → Step w (record w { registry = add (some (peer, id)) w.registry })
  expires : (peer : ℕ) → Step w (record w { expired = peer ∷ w.expired })
  reports :
      (peer : ℕ)
      → is_expired w peer ≡ true
      → Step w (record w { registry = wake w.registry; reported = peer ∷ w.reported })
  removes : (id : String) → Step w (record w { registry = (remove id w.registry).0 })
  waits : Step w (record w { registry = cleaner_wait w.registry })
  sweeps : Step w (record w { registry = (cleaner_sweep (is_expired w) w.registry).0 })

pub data Reach (w : World) : World → Type 0 where
  here : Reach w w
  next : {v u : World} → Reach w v → Step v u → Reach w u

-- The cleaner has something to do: an expiry is pending, or it is about to sweep.
abbrev pub IsBusy : PeerRegistry → Type 0
IsBusy r = (r.expiry_pending ≡ true) ⊎ (r.cleaner ≡ some sweeping)

pub record IsWatched (w : World) : Type 0 where
  pub distinct : Distinct w.registry.peers
  pub running :
      (w.registry.stopped ≡ false)
      × ((w.registry.cleaner ≡ some waiting) ⊎ (w.registry.cleaner ≡ some sweeping))
  pub sound : (peer : ℕ) → member peer w.reported ≡ true → is_expired w peer ≡ true
  pub watched :
      (id : String) (peer : ℕ)
      → lookup id w.registry.peers ≡ some (some peer)
      → member peer w.reported ≡ true
      → IsBusy w.registry

cleaner_wait_cases :
    (r : PeerRegistry)
    → r.stopped ≡ false
    → (r.cleaner ≡ some waiting) ⊎ (r.cleaner ≡ some sweeping)
    → (cleaner_wait r ≡ r)
      ⊎ (cleaner_wait r ≡ record r { expiry_pending = false; cleaner = some sweeping })
unfolding cleaner_wait
cleaner_wait_cases r s (inl e) = elim (Bool-cases r.expiry_pending) [
  | inl pending ↦ inr (ground arith)
  | inr quiet ↦ inl (ground arith)
]
cleaner_wait_cases r s (inr e) = inl (ground arith)

wait-IsWatched :
    (w : World) → IsWatched w → IsWatched (record w { registry = cleaner_wait w.registry })
wait-IsWatched w h = elim (cleaner_wait_cases w.registry h.running.0 h.running.1) [
  | inl same ↦ subst (λ r. IsWatched (record w { registry = r })) (sym same) h
  | inr taken ↦
      subst (λ r. IsWatched (record w { registry = r })) (sym taken)
        (record {
          distinct = h.distinct;
          running = (h.running.0, inr refl);
          sound = h.sound;
          watched = λ i p e m. inr refl;
        })
]

-- No reported peer is left by a sweep, since a reported peer has expired.
swept-unreported :
    (w : World) (id : String) (peer : ℕ)
    → IsWatched w
    → lookup id (sweep_loop (is_expired w) w.registry.peers).0 ≡ some (some peer)
    → member peer w.reported ≡ true
    → ⊥
swept-unreported w id peer h e m =
    go (lookup id w.registry.peers)
      (sym (lookup-sweep_loop (is_expired w) id w.registry.peers h.distinct) ∙ e)
  where
    go : (o : Option (Option ℕ)) → kept (is_expired w) o ≡ some (some peer) → ⊥
    go none k = cc
    go (some none) k = cc
    go (some (some p)) k = ground (arith, h.sound peer m)

sweep-IsWatched :
    (w : World)
    → IsWatched w
    → IsWatched (record w { registry = (cleaner_sweep (is_expired w) w.registry).0 })
unfolding cleaner_sweep
sweep-IsWatched w h = elim h.running.1 [
  | inl e ↦
      let same : (cleaner_sweep (is_expired w) w.registry).0 ≡ w.registry = rw (e, cleaner_sweep) in
      subst (λ r. IsWatched (record w { registry = r })) (sym same) h
  | inr e ↦
      let swept : (cleaner_sweep (is_expired w) w.registry).0 ≡ record w.registry {
        peers = (sweep_loop (is_expired w) w.registry.peers).0;
        cleaner = some waiting;
      } =
        ground arith in
      subst (λ r. IsWatched (record w { registry = r })) (sym swept)
        (record {
          distinct = sweep_loop-Distinct (is_expired w) w.registry.peers h.distinct;
          running = (h.running.0, inl refl);
          sound = h.sound;
          watched = λ i p found m. absurd (swept-unreported w i p h found m);
        })
]

Step-IsWatched : {w v : World} → Step w v → IsWatched w → IsWatched v
unfolding add wake remove
Step-IsWatched {w} (adds peer id fresh) h = record {
  distinct = insert-Distinct id (some peer) w.registry.peers h.distinct;
  running = h.running;
  sound = h.sound;
  watched = λ i p e m.
      ground (arith, lookup-insert id i (some peer) w.registry.peers, h.sound p, h.watched i p);
}
Step-IsWatched {w} (expires peer) h = record {
  distinct = h.distinct;
  running = h.running;
  sound = λ p m. ground (arith, h.sound p);
  watched = h.watched;
}
Step-IsWatched {w} (reports peer e) h = record {
  distinct = h.distinct;
  running = h.running;
  sound = λ p m. ground (arith, h.sound p);
  watched = λ i p e m. inl refl;
}
Step-IsWatched {w} (removes id) h = record {
  distinct = erase-Distinct id w.registry.peers h.distinct;
  running = h.running;
  sound = h.sound;
  watched = λ i p e m. ground (arith, lookup-erase id i w.registry.peers, h.watched i p);
}
Step-IsWatched {w} waits h = wait-IsWatched w h
Step-IsWatched {w} sweeps h = sweep-IsWatched w h

-- However the threads interleave from a world that is watched, as long as the cleaner runs:
-- while a peer whose expiry was reported is in the map, an expiry is pending or the cleaner is
-- about to sweep. So no report is lost, provided that peers are added before they expire.
pub Reach-IsWatched : {w v : World} → IsWatched w → Reach w v → IsWatched v
Reach-IsWatched h here = h
Reach-IsWatched h (next r s) = Step-IsWatched s (Reach-IsWatched h r)

-- In a watched world, once a waiting cleaner has taken a pending expiry and swept, no reported
-- peer is left in the map, whatever the map held.
pub take-sweep :
    (w : World) (id : String) (peer : ℕ)
    → IsWatched w
    → w.registry.cleaner ≡ some waiting
    → w.registry.expiry_pending ≡ true
    → member peer w.reported ≡ true
    → lookup id ((cleaner_sweep (is_expired w) (cleaner_wait w.registry)).0).peers
      ≢ some (some peer)
unfolding cleaner_wait cleaner_sweep
take-sweep w id peer h c p m found =
    let taken : ((cleaner_sweep (is_expired w) (cleaner_wait w.registry)).0).peers
        ≡ (sweep_loop (is_expired w) w.registry.peers).0 =
      ground (arith, h.running.0) in
    swept-unreported w id peer h (ap (lookup id) (sym taken) ∙ found) m
