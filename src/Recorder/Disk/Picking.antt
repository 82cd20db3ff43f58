-- ===== src/Recorder/Disk/Picking.antt =====
-- The loops of `RotateFiles` of src/recorder/recorder_manager.cpp that look for the first name.
use pi_webrtc.Prelude.{
  ◌≡◌, ◌≢◌, refl, subst, ◌⊎◌, inl, inr, Bool, true, false, ◌&&◌, Option, none, some, List, [], ◌∷◌,
  Bytes, if◌then◌else◌, bytes_ltb, bytes_ltb_irrefl, bytes_geq_trans, bytes_ltb_asym, ◌==◌, ==_iff,
  Eq, bytes_eq, pair_eq, Bool-cases, arith,
}
use pi_webrtc.Prelude.Dict.{lookup}
use pi_webrtc.Recorder.Disk

module _ {K V : Type 0} ⦃e : Eq K⦄ (name : K → Bytes) (test : K → V → Bool) where
  abbrev pub NotAfter : K → Option K → Type 0
  NotAfter k none = Unit
  NotAfter k (some a) = bytes_ltb (name a) (name k) ≡ false

  picked : Option K → K → V → Option K
  picked acc i w = if test i w && Disk.replaces name test acc i then some i else acc

  NotAfter-picked :
      (acc : Option K) (i k : K) (w : V) → NotAfter k (picked acc i w) → NotAfter k acc
  unfolding picked
  NotAfter-picked none i k w h = tt
  NotAfter-picked (some a) i k w h =
      ground (arith, bytes_ltb_asym (name i) (name a), bytes_geq_trans (name k) (name i) (name a))

  NotAfter-new :
      (acc : Option K) (i k : K) (w : V)
      → NotAfter k (picked acc i w)
      → test i w ≡ true
      → bytes_ltb (name i) (name k) ≡ false
  unfolding picked
  NotAfter-new none i k w h t = ground arith
  NotAfter-new (some a) i k w h t = ground (arith, bytes_geq_trans (name k) (name a) (name i))

  -- The pick is not after what was picked so far.
  oldest_from-acc :
      (l : List (K × V)) (acc : Option K) (k : K)
      → Disk.oldest_from name test acc l ≡ some k
      → NotAfter k acc
  unfolding picked
  oldest_from-acc [] none k h = tt
  oldest_from-acc [] (some a) k h = ground (arith, bytes_ltb_irrefl (name a))
  oldest_from-acc ((i, w) ∷ l) acc k h =
      NotAfter-picked acc i k w (oldest_from-acc l (picked acc i w) k h)

  -- Nor after an entry that passes the test.
  pub oldest_from-least :
      (l : List (K × V)) (acc : Option K) (k j : K) (v : V)
      → Disk.oldest_from name test acc l ≡ some k
      → lookup j l ≡ some v
      → test j v ≡ true
      → bytes_ltb (name j) (name k) ≡ false
  unfolding picked
  oldest_from-least [] acc k j v h p t = cc
  oldest_from-least ((i, w) ∷ l) acc k j v h p t = elim (Bool-cases (i == j)) [
    | inl same ↦
        let here : i ≡ j = (==_iff i j).0 same in
        let value : some w ≡ some v = rw same at p in
        subst (λ x. bytes_ltb (name x) (name k) ≡ false) here
          (NotAfter-new acc i k w (oldest_from-acc l (picked acc i w) k h) (ground (arith)))
    | inr other ↦ oldest_from-least l (picked acc i w) k j v h (rw other at p) t
  ]

  -- What is picked is an entry.
  pub oldest_from-listed :
      (l : List (K × V)) (acc : Option K) (k : K)
      → Disk.oldest_from name test acc l ≡ some k
      → (acc ≡ some k) ⊎ ((v : V) × (lookup k l ≡ some v))
  unfolding picked
  oldest_from-listed [] acc k h = inl h
  oldest_from-listed ((i, w) ∷ l) acc k h = elim (Bool-cases (i == k)) [
    | inl same ↦ inr (w, rw same refl)
    | inr other ↦ elim (oldest_from-listed l (picked acc i w) k h) [
      | inl e ↦ inl (ground (arith, ==_iff i k))
      | inr (v, e) ↦ inr (v, rw other e)
    ]
  ]

  -- Once one is picked, one stays picked.
  pub kept_some : (l : List (K × V)) (a : K) → Disk.oldest_from name test (some a) l ≢ none
  unfolding picked
  kept_some [] a h = cc
  kept_some ((i, w) ∷ l) a h = elim (Bool-cases (test i w && bytes_ltb (name i) (name a))) [
    | inl e ↦ kept_some l i (rw e at h)
    | inr e ↦ kept_some l a (rw e at h)
  ]

  -- Where an entry passes the test, one is picked.
  pub oldest_from-some :
      (l : List (K × V)) (acc : Option K) (j : K) (v : V)
      → lookup j l ≡ some v
      → test j v ≡ true
      → Disk.oldest_from name test acc l ≢ none
  unfolding picked
  oldest_from-some [] acc j v p t h = cc
  oldest_from-some l (some a) j v p t h = kept_some l a h
  oldest_from-some ((i, w) ∷ l) none j v p t h = elim (Bool-cases (i == j)) [
    | inl same ↦
        let here : i ≡ j = (==_iff i j).0 same in
        let value : some w ≡ some v = rw same at p in
        let passes : test i w ≡ true = ground (arith) in kept_some l i (rw passes at h)
    | inr other ↦ oldest_from-some l (picked none i w) j v (rw other at p) t h
  ]
