-- ===== src/Recorder/Disk/Space.antt =====
-- What the rounds of `RotateFiles` of src/recorder/recorder_manager.cpp leave of the folders and files.
use pi_webrtc.Prelude.{
  ℕ, zero, suc, ◌+◌, ◌≤◌, ◌<◌, ◌≡◌, ◌⊎◌, refl, sym, ap, subst, inl, inr, true, ◌&&◌, Option, none,
  some, List, [], ◌∷◌, Bytes, drop, ◌==◌, Eq, bytes_eq, pair_eq, Bool-cases, arith,
}
use pi_webrtc.Prelude.Dict.{lookup, erase, put}
use pi_webrtc.Recorder.Disk
use pi_webrtc.Recorder.Disk.Picking.{oldest_from-listed, kept_some}

abbrev pub weight_of : {V : Type 0} → (V → ℕ) → Option V → ℕ
weight_of w none = 0
weight_of w (some v) = 1 + w v

-- Entries, each with what is in it.
module _ {K V : Type 0} ⦃e : Eq K⦄ (w : V → ℕ) where
  abbrev pub total : List (K × V) → ℕ
  total [] = 0
  total ((k, v) ∷ m) = 1 + w v + total m

  total-erase-le : (k : K) (m : List (K × V)) → total (erase k m) ≤ total m
  total-erase-le k [] = omega arith
  total-erase-le k ((i, x) ∷ m) = ground (arith, total-erase-le k m)

  total-put :
      (k : K) (v : V) (o : Option V) (m : List (K × V))
      → lookup k m ≡ some v
      → total (put k o m) + 1 + w v ≤ total m + weight_of w o
  total-put k v o [] h = cc
  total-put k v none ((i, x) ∷ m) h = elim (Bool-cases (i == k)) [
    | inl same ↦ rw same (omega (arith, total-erase-le k m, ap (weight_of w) (rw same at h)))
    | inr other ↦ rw other (omega (arith, total-put k v none m (rw other at h)))
  ]
  total-put k v (some v') ((i, x) ∷ m) h = elim (Bool-cases (i == k)) [
    | inl same ↦ rw same (omega (arith, ap (weight_of w) (rw same at h)))
    | inr other ↦ rw other (omega (arith, total-put k v (some v') m (rw other at h)))
  ]

abbrev pub hour_weight : Disk.HourFolder → ℕ
hour_weight hour = total (λ _. 0) hour

abbrev pub date_weight : Disk.DateFolder → ℕ
date_weight date = total hour_weight date.hours

-- The folders and the files in them.
abbrev pub weight : Disk.Root → ℕ
weight root = total date_weight root

abbrev outcome_weight : Disk.Outcome → ℕ
outcome_weight Disk.Outcome.abandoned = 0
outcome_weight Disk.Outcome.emptied = 0
outcome_weight (Disk.Outcome.changed hour) = 1 + hour_weight hour
outcome_weight (Disk.Outcome.failed hour) = 1 + hour_weight hour

clean_up-lighter :
    (r : Disk.Removal) (rest : Disk.HourFolder) (n : ℕ)
    → hour_weight rest < n
    → outcome_weight (Disk.clean_up r rest) < 1 + n
clean_up-lighter (Disk.Removal.throws zero) rest n h = omega arith
clean_up-lighter (Disk.Removal.throws (suc k)) [] n h = omega arith
clean_up-lighter (Disk.Removal.throws (suc k)) (x ∷ rest) n h = omega arith
clean_up-lighter Disk.Removal.completes [] n h = omega arith
clean_up-lighter Disk.Removal.completes (x ∷ rest) n h = omega arith

-- Less is left where the removals succeed, and no more where one throws.
abbrev pub Shrinks : Disk.Removal → ℕ → ℕ → Type 0
Shrinks Disk.Removal.completes after before = after < before
Shrinks (Disk.Removal.throws n) after before = after ≤ before

lighter-Shrinks : (r : Disk.Removal) (n m : ℕ) → n < m → Shrinks r n m
lighter-Shrinks Disk.Removal.completes n m h = h
lighter-Shrinks (Disk.Removal.throws k) n m h = omega arith

Shrinks-add : (r : Disk.Removal) (a b c d : ℕ) → c + b ≤ d + a → Shrinks r a b → Shrinks r c d
Shrinks-add Disk.Removal.completes a b c d h s = omega arith
Shrinks-add (Disk.Removal.throws k) a b c d h s = omega arith

drop-lighter : (n : ℕ) (hour : Disk.HourFolder) → hour_weight (drop n hour) ≤ hour_weight hour
drop-lighter zero hour = omega arith
drop-lighter (suc n) [] = omega arith
drop-lighter (suc n) (x ∷ hour) = omega (arith, drop-lighter n hour)

picked-lighter :
    (hour : Disk.HourFolder) (f : Disk.FileName)
    → Disk.oldest_file hour ≡ some f
    → hour_weight (erase f hour) < hour_weight hour
unfolding Disk.oldest_file
picked-lighter hour f e =
    elim (oldest_from-listed Disk.name (λ x regular. regular && Disk.is_recording x) hour none f
      e) [
        | inl q ↦ cc
        | inr (v, there) ↦ let one = total-put (λ _. 0) f v none hour there in omega arith
      ]

both-lighter :
    (r : Disk.Removal) (hour : Disk.HourFolder) (f : Disk.FileName)
    → Disk.oldest_file hour ≡ some f
    → outcome_weight (Disk.clean_up r (erase (Disk.counterpart f) (erase f hour)))
      < 1 + hour_weight hour
both-lighter r hour f e =
    clean_up-lighter r (erase (Disk.counterpart f) (erase f hour)) (hour_weight hour) (
      omega (
        arith,
        picked-lighter hour f e,
        total-erase-le (λ _. 0) (Disk.counterpart f) (erase f hour),
      ))

without-lighter :
    (r : Disk.Removal) (hour : Disk.HourFolder) (o : Option Disk.FileName)
    → Disk.oldest_file hour ≡ o
    → Shrinks r (outcome_weight (Disk.without r o hour)) (1 + hour_weight hour)
without-lighter Disk.Removal.completes hour none e = omega arith
without-lighter (Disk.Removal.throws n) hour none e = omega (arith, drop-lighter n hour)
without-lighter Disk.Removal.completes hour (some f) e =
    both-lighter Disk.Removal.completes hour f e
without-lighter (Disk.Removal.throws zero) hour (some f) e = omega arith
without-lighter (Disk.Removal.throws (suc zero)) hour (some f) e =
    omega (arith, picked-lighter hour f e)
without-lighter (Disk.Removal.throws (suc (suc n))) hour (some f) e =
    lighter-Shrinks (Disk.Removal.throws n) _ _ (both-lighter (Disk.Removal.throws n) hour f e)

rotate_hour-lighter :
    (r : Disk.Removal) (hour : Disk.HourFolder)
    → Shrinks r (outcome_weight (Disk.rotate_hour r hour)) (1 + hour_weight hour)
unfolding Disk.rotate_hour
rotate_hour-lighter r hour = without-lighter r hour (Disk.oldest_file hour) refl

-- The folder of a day weighs no more than what becomes of its hour allows.
set_hour-le :
    (r : Disk.Removal) (h : Bytes) (hour : Disk.HourFolder) (o : Disk.Outcome)
    (date : Disk.DateFolder)
    → lookup h date.hours ≡ some hour
    → weight_of date_weight (Disk.set_hour r h o date) + (1 + hour_weight hour)
      ≤ 1 + date_weight date + outcome_weight o
set_hour-le r h hour Disk.Outcome.abandoned date e =
    omega (arith, total-put hour_weight h hour none date.hours e)
set_hour-le r h hour Disk.Outcome.emptied date e =
    ground (arith, total-put hour_weight h hour none date.hours e)
set_hour-le r h hour (Disk.Outcome.changed hour') date e =
    omega (arith, total-put hour_weight h hour (some hour') date.hours e)
set_hour-le r h hour (Disk.Outcome.failed hour') date e =
    omega (arith, total-put hour_weight h hour (some hour') date.hours e)

rotate_in-lighter :
    (r : Disk.Removal) (date : Disk.DateFolder) (o : Option Bytes)
    → Disk.oldest_folder date.hours ≡ o
    → Shrinks r (weight_of date_weight (Disk.rotate_in o r date)) (1 + date_weight date)
unfolding Disk.oldest_folder
rotate_in-lighter Disk.Removal.completes date none e = omega arith
rotate_in-lighter (Disk.Removal.throws n) date none e = omega arith
rotate_in-lighter r date (some h) e =
    elim (oldest_from-listed (λ k. k) (λ _ _. true) date.hours none h e) [
      | inl q ↦ cc
      | inr (hour, there) ↦
          let here : Disk.hour_or_empty (lookup h date.hours) ≡ hour =
            ap Disk.hour_or_empty there in
          subst
            (λ x.
              Shrinks r (weight_of date_weight (Disk.set_hour r h (Disk.rotate_hour r x) date))
                (1 + date_weight date))
            (sym here)
            (Shrinks-add r _ _ _ _ (set_hour-le r h hour (Disk.rotate_hour r hour) date there)
              (rotate_hour-lighter r hour))
    ]

rotate_date-lighter :
    (r : Disk.Removal) (date : Disk.DateFolder)
    → Shrinks r (weight_of date_weight (Disk.rotate_date r date)) (1 + date_weight date)
unfolding Disk.rotate_date
rotate_date-lighter r date = rotate_in-lighter r date (Disk.oldest_folder date.hours) refl

rotate_at-lighter :
    (r : Disk.Removal) (root : Disk.Root) (o : Option Bytes)
    → Disk.oldest_folder root ≡ o
    → (root ≡ []) ⊎ Shrinks r (weight (Disk.rotate_at r o root)) (weight root)
unfolding Disk.oldest_folder
rotate_at-lighter r [] none e = inl refl
rotate_at-lighter r ((k, v) ∷ root) none e = absurd (kept_some (λ x. x) (λ _ _. true) root k e)
rotate_at-lighter r root (some d) e =
    elim (oldest_from-listed (λ k. k) (λ _ _. true) root none d e) [
      | inl q ↦ cc
      | inr (date, there) ↦ inr (
          subst (λ o. Shrinks r (weight (Disk.rotate_folder r d o root)) (weight root)) (sym there)
            (Shrinks-add r _ _ _ _
              (omega (arith, total-put date_weight d date (Disk.rotate_date r date) root there))
              (rotate_date-lighter r date)))
    ]

-- A round of `RotateFiles` whose removals succeed removes something, unless there is no folder.
pub rotate_files-lighter :
    (r : Disk.Removal) (root : Disk.Root)
    → (root ≡ []) ⊎ Shrinks r (weight (Disk.rotate_files r root)) (weight root)
unfolding Disk.rotate_files
rotate_files-lighter r root = rotate_at-lighter r root (Disk.oldest_folder root) refl
