-- ===== src/Recorder/Disk/Room.antt =====
-- The rotation thread of src/recorder/recorder_manager.cpp ends its loop.
use pi_webrtc.Prelude.{
  ℕ, suc, ◌+◌, ◌≤◌, ◌<◌, ◌≡◌, refl, sym, ap, subst, inl, inr, true, false, some, List, [], ◌∷◌,
  ◌++◌, length, All, Bool-cases, arith,
}
use pi_webrtc.Recorder.Disk
use pi_webrtc.Recorder.Disk.Space.{weight, Shrinks, rotate_files-lighter}

-- What the removals of some rounds leave.
unfoldable pub after : List Disk.Round → Disk.Root → Disk.Root
after [] root = root
after (round ∷ rounds) root = after rounds (Disk.rotate_files round.removal root)

-- Each of the rounds finds too little space, and no abort.
abbrev pub NoneStops : List Disk.Round → Disk.Root → Type 0
NoneStops [] root = Unit
NoneStops (round ∷ rounds) root =
    (Disk.stops round root ≡ false) × NoneStops rounds (Disk.rotate_files round.removal root)

abbrev pub throw_of : Disk.Removal → ℕ
throw_of Disk.Removal.completes = 0
throw_of (Disk.Removal.throws n) = 1

-- How many rounds have a removal that throws.
abbrev pub throwing : List Disk.Round → ℕ
throwing [] = 0
throwing (round ∷ rounds) = throw_of round.removal + throwing rounds

lighter_rest :
    (r : Disk.Removal) (n m k l : ℕ) → Shrinks r n m → m + (throw_of r + k) < suc l → n + k < l
lighter_rest Disk.Removal.completes n m k l s h = omega arith
lighter_rest (Disk.Removal.throws i) n m k l s h = omega arith

longer_done :
    (r : Disk.Removal) (n m k l : ℕ) → Shrinks r n m → l ≤ n + k → suc l ≤ m + (throw_of r + k)
longer_done Disk.Removal.completes n m k l s h = omega arith
longer_done (Disk.Removal.throws i) n m k l s h = omega arith

-- A round that goes on has a folder, where there is space without one.
going_on :
    (round : Disk.Round) (root : Disk.Root)
    → round.has_space [] ≡ true
    → Disk.stops round root ≡ false
    → Shrinks round.removal (weight (Disk.rotate_files round.removal root)) (weight root)
going_on round root s little = elim (rotate_files-lighter round.removal root) [
  | inl nothing ↦
      let none_left : round.has_space root ≡ true =
        subst (λ x. round.has_space x ≡ true) (sym nothing) s in
      absurd (ground arith)
  | inr shrinks ↦ shrinks
]

-- Where each round would find space if no folder were left, and among the rounds there are more than
-- the folders and files stored and the rounds whose removals throw: the loop ends at the first round
-- that finds space or is told to abort, with what the rounds before it left, which are no more than
-- the folders and files and those of them whose removals throw.
pub make_room_ends :
    (rounds : List Disk.Round) (root : Disk.Root)
    → All (λ (round : Disk.Round). round.has_space [] ≡ true) rounds
    → weight root + throwing rounds < length rounds
    → (done : List Disk.Round) × (round : Disk.Round) × (rest : List Disk.Round) × (rounds
        ≡ done ++ round ∷ rest)
      × (Disk.make_room rounds root ≡ some (after done root))
      × (Disk.stops round (after done root) ≡ true)
      × NoneStops done root
      × (length done ≤ weight root + throwing done)
unfolding Disk.make_room after
make_room_ends [] root s h = absurd (omega (arith, h))
make_room_ends (round ∷ rounds) root s h = elim (Bool-cases (Disk.stops round root)) [
  | inl enough ↦ ([], round, rounds, refl, rw enough refl, enough, tt, omega arith)
  | inr little ↦
      let root' : Disk.Root = Disk.rotate_files round.removal root in
      let shrinks = going_on round root s.0 little in
      let (done, last, rest, split, ends, stops, before, within) = make_room_ends rounds root' s.1 (
        lighter_rest round.removal (weight root') (weight root) (throwing rounds) (length rounds)
          shrinks h) in
      (
        round ∷ done,
        last,
        rest,
        ap (◌∷◌ round) split,
        rw little ends,
        stops,
        (little, before),
        longer_done round.removal (weight root') (weight root) (throwing done) (length done) shrinks
            within,
      )
]
