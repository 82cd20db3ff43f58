-- ===== src/Recorder/Disk/Oldest.antt =====
-- What `RotateFiles` of src/recorder/recorder_manager.cpp removes is what is oldest.
use pi_webrtc.Prelude.{
  zero, suc, ◌≡◌, refl, sym, ap, subst, ◌∙◌, ◌⊎◌, inl, inr, Bool, true, false, ◌&&◌, Option, none,
  some, List, [], ◌∷◌, Bytes, if◌then◌else◌, bytes_ltb, bytes_ltb_irrefl, ◌==◌, ==_iff, is_empty,
  bytes_eq, pair_eq, Bool-cases, Option-cases, arith,
}
use pi_webrtc.Prelude.Dict.{lookup, erase, lookup-put, lookup-erase, lookup-insert}
use pi_webrtc.Recorder.Disk
use pi_webrtc.Recorder.Disk.Picking.{oldest_from-least, oldest_from-some}

abbrev pub stored : Option Bool → Bool
stored none = false
stored (some regular) = regular

abbrev pub recorded_file : Disk.FileName → Option Disk.HourFolder → Bool
recorded_file f none = false
recorded_file f (some hour) = Disk.is_recording f && stored (lookup f hour)

abbrev pub recorded_hour : Bytes → Disk.FileName → Option Disk.DateFolder → Bool
recorded_hour h f none = false
recorded_hour h f (some date) = recorded_file f (lookup h date.hours)

-- A recording of that day, hour and name is on the disk.
abbrev pub recorded : Disk.Root → Bytes → Bytes → Disk.FileName → Bool
recorded root d h f = recorded_hour h f (lookup d root)

-- A file that went, or the other file of its stem, has a name that is not after that of a file that stays.
abbrev pub GoesFirst : Disk.FileName → Disk.FileName → Type 0
GoesFirst f f' =
    (g : Disk.FileName) × ((g ≡ f) ⊎ (Disk.counterpart g ≡ f))
    × (bytes_ltb (Disk.name f') (Disk.name g) ≡ false)

abbrev remaining : Disk.Outcome → Option Disk.HourFolder
remaining (Disk.Outcome.changed hour) = some hour
remaining (Disk.Outcome.failed hour) = some hour
remaining _ = none

erase-erase :
    (a b j : Disk.FileName) (m : Disk.HourFolder)
    → lookup j (erase a (erase b m))
      ≡ (if a == j then none else if b == j then none else lookup j m)
erase-erase a b j m = rw (lookup-erase a j (erase b m), lookup-erase b j m)

-- What an entry is, by what it is after the two removals.
was_removed :
    (x p q : Bool) (o o' : Option Bool)
    → o' ≡ (if p then none else if q then none else o)
    → (x && stored o) ≡ true
    → (x && stored o') ≡ false
    → (p ≡ true) ⊎ (q ≡ true)
was_removed x true q o o' e a b = inl refl
was_removed x false true o o' e a b = inr refl
was_removed x false false o o' e a b = absurd (cc (ap (λ t. x && stored t) e))

was_there :
    (x p q : Bool) (o o' : Option Bool)
    → o' ≡ (if p then none else if q then none else o)
    → (x && stored o') ≡ true
    → (o ≡ some true) × (x ≡ true)
was_there x true q o none e c = ground arith
was_there x false true o none e c = ground arith
was_there x false false (some true) (some b) e c = ground arith
was_there x p q o o' e c = ground arith

clean_up-remaining :
    (r : Disk.Removal) (rest : Disk.HourFolder)
    → (remaining (Disk.clean_up r rest) ≡ none) ⊎ (remaining (Disk.clean_up r rest) ≡ some rest)
clean_up-remaining (Disk.Removal.throws zero) rest = inr refl
clean_up-remaining (Disk.Removal.throws (suc n)) [] = inl refl
clean_up-remaining (Disk.Removal.throws (suc n)) (x ∷ rest) = inr refl
clean_up-remaining Disk.Removal.completes [] = inl refl
clean_up-remaining Disk.Removal.completes (x ∷ rest) = inr refl

-- A folder in which no recording is picked has none.
none_recorded :
    (f : Disk.FileName) (hour : Disk.HourFolder)
    → Disk.oldest_file hour ≡ none
    → recorded_file f (some hour) ≡ false
unfolding Disk.oldest_file
none_recorded f hour e = elim (Bool-cases (recorded_file f (some hour))) [
  | inr fails ↦ fails
  | inl holds ↦
      let o = lookup f hour in
      let there = was_there (Disk.is_recording f) false false o o refl holds in
      absurd (
        oldest_from-some Disk.name (λ x regular. regular && Disk.is_recording x) hour none f true
          there.0 there.1 e)
]

-- Where a file of the hour's folder went, and one that the pick is not after stays.
went_first :
    (hour rest : Disk.HourFolder) (g f f' : Disk.FileName) (p : Disk.FileName → Bool)
    → Disk.oldest_file hour ≡ some g
    → ((x : Disk.FileName)
        → lookup x rest ≡ (if p x then none else if g == x then none else lookup x hour))
    → (p f ≡ true → Disk.counterpart g ≡ f)
    → recorded_file f (some hour) ≡ true
    → recorded_file f (some rest) ≡ false
    → recorded_file f' (some rest) ≡ true
    → GoesFirst f f'
unfolding Disk.oldest_file
went_first hour rest g f f' p e looked means a b c =
    let there =
      was_there (Disk.is_recording f') (p f') (g == f') (lookup f' hour) (lookup f' rest)
        (looked f') c in
    (
      g,
      elim (was_removed (Disk.is_recording f) (p f) (g == f) (lookup f hour) (lookup f rest)
          (looked f) a b) [ inl other ↦ inr (means other) | inr same ↦ inl ((==_iff g f).0 same) ],
      oldest_from-least Disk.name (λ x regular. regular && Disk.is_recording x) hour none g f' true
          e there.0 there.1,
    )

-- What is left when both files of the pick are gone.
clean_up-oldest :
    (r : Disk.Removal) (hour : Disk.HourFolder) (g f f' : Disk.FileName)
    → Disk.oldest_file hour ≡ some g
    → recorded_file f (some hour) ≡ true
    → let out = Disk.clean_up r (erase (Disk.counterpart g) (erase g hour)) in
      recorded_file f (remaining out) ≡ false
      → recorded_file f' (remaining out) ≡ true
      → GoesFirst f f'
clean_up-oldest r hour g f f' e a b c =
    let rest : Disk.HourFolder = erase (Disk.counterpart g) (erase g hour) in
    elim (clean_up-remaining r rest) [
      | inl gone ↦ absurd (cc (rw gone at c))
      | inr left ↦
          went_first hour rest g f f' (λ x. Disk.counterpart g == x) e
            (λ x. erase-erase (Disk.counterpart g) g x hour) (==_iff (Disk.counterpart g) f).0 a
            (rw left at b) (rw left at c)
    ]

without-oldest :
    (r : Disk.Removal) (hour : Disk.HourFolder) (o : Option Disk.FileName) (f f' : Disk.FileName)
    → Disk.oldest_file hour ≡ o
    → recorded_file f (some hour) ≡ true
    → recorded_file f (remaining (Disk.without r o hour)) ≡ false
    → recorded_file f' (remaining (Disk.without r o hour)) ≡ true
    → GoesFirst f f'
without-oldest Disk.Removal.completes hour none f f' e a b c = cc
without-oldest (Disk.Removal.throws n) hour none f f' e a b c = absurd (cc (none_recorded f hour e))
without-oldest Disk.Removal.completes hour (some g) f f' e a b c =
    clean_up-oldest Disk.Removal.completes hour g f f' e a b c
without-oldest (Disk.Removal.throws zero) hour (some g) f f' e a b c = absurd (cc)
without-oldest (Disk.Removal.throws (suc zero)) hour (some g) f f' e a b c =
    went_first hour (erase g hour) g f f' (λ _. false) e (λ x. lookup-erase g x hour) (λ q. cc) a b
      c
without-oldest (Disk.Removal.throws (suc (suc n))) hour (some g) f f' e a b c =
    clean_up-oldest (Disk.Removal.throws n) hour g f f' e a b c

set_hour-recorded :
    (r : Disk.Removal) (h j : Bytes) (f : Disk.FileName) (o : Disk.Outcome) (date : Disk.DateFolder)
    → recorded_hour j f (Disk.set_hour r h o date)
      ≡ recorded_file f (if h == j then remaining o else lookup j date.hours)
set_hour-recorded r h j f Disk.Outcome.abandoned date =
    ap (recorded_file f) (lookup-erase h j date.hours)
set_hour-recorded r h j f Disk.Outcome.emptied date =
    elim (Bool-cases (Disk.is_complete r && is_empty (erase h date.hours) && is_empty date.loose)) [
      | inl gone ↦ rw gone (
          sym (
            ap (recorded_file f) (sym (lookup-erase h j date.hours))
            ∙ nothing (erase h date.hours) (ground arith)))
      | inr left ↦ rw left (ap (recorded_file f) (lookup-erase h j date.hours))
    ]
  where
    nothing :
        (m : List (Bytes × Disk.HourFolder))
        → is_empty m ≡ true
        → recorded_file f (lookup j m) ≡ false
    nothing [] e = refl
    nothing (x ∷ m) e = cc
set_hour-recorded r h j f (Disk.Outcome.changed hour) date =
    ap (recorded_file f) (lookup-insert h j hour date.hours)
set_hour-recorded r h j f (Disk.Outcome.failed hour) date =
    ap (recorded_file f) (lookup-insert h j hour date.hours)

-- An hour that is not after the other, and in the same hour the file goes first.
abbrev pub HourGoesFirst : Bytes → Disk.FileName → Bytes → Disk.FileName → Type 0
HourGoesFirst h f h' f' = (bytes_ltb h' h ≡ false) × (h' ≡ h → GoesFirst f f')

listed :
    (f : Disk.FileName) (o : Option Disk.HourFolder)
    → recorded_file f o ≡ true
    → (v : Disk.HourFolder) × (o ≡ some v)
listed f none a = cc
listed f (some v) a = (v, refl)

rotate_in-oldest :
    (r : Disk.Removal) (date : Disk.DateFolder) (o : Option Bytes) (h h' : Bytes)
    (f f' : Disk.FileName)
    → Disk.oldest_folder date.hours ≡ o
    → recorded_hour h f (some date) ≡ true
    → recorded_hour h f (Disk.rotate_in o r date) ≡ false
    → recorded_hour h' f' (Disk.rotate_in o r date) ≡ true
    → HourGoesFirst h f h' f'
unfolding Disk.oldest_folder Disk.rotate_hour
rotate_in-oldest Disk.Removal.completes date none h h' f f' e a b c = cc
rotate_in-oldest (Disk.Removal.throws n) date none h h' f f' e a b c = absurd (cc)
rotate_in-oldest r date (some k) h h' f f' e a b c =
    let hour = Disk.hour_or_empty (lookup k date.hours) in
    let out = Disk.rotate_hour r hour in
    let b' = sym (set_hour-recorded r k h f out date) ∙ b in
    let c' = sym (set_hour-recorded r k h' f' out date) ∙ c in
    elim (Bool-cases (k == h)) [
      | inr other ↦ absurd (cc (rw other at b'))
      | inl same ↦ elim (Bool-cases (k == h')) [
        | inl same' ↦
            let here = (==_iff k h).0 same in
            let there : h' ≡ h = sym ((==_iff k h').0 same') ∙ here in
            let (v, at_h) = listed f (lookup h date.hours) a in
            let at_k = subst (λ x. lookup x date.hours ≡ some v) (sym here) at_h in
            let is_hour : v ≡ hour = sym (ap Disk.hour_or_empty at_k) in
            (
              subst (λ x. bytes_ltb x h ≡ false) (sym there) (bytes_ltb_irrefl h),
              λ _.
                  without-oldest r hour (Disk.oldest_file hour) f f' refl
                    (subst (λ o. recorded_file f o ≡ true) (at_h ∙ ap some is_hour) a)
                    (rw same at b') (rw same' at c'),
            )
        | inr other' ↦
            let (v, there) = listed f' (lookup h' date.hours) (rw other' at c') in
            (
              subst (λ x. bytes_ltb h' x ≡ false) ((==_iff k h).0 same)
                  (oldest_from-least (λ x. x) (λ _ _. true) date.hours none k h' v e there refl),
              λ q. absurd (cc ((==_iff k h').1 ((==_iff k h).0 same ∙ sym q))),
            )
      ]
    ]

rotate_date-oldest :
    (r : Disk.Removal) (date : Disk.DateFolder) (h h' : Bytes) (f f' : Disk.FileName)
    → recorded_hour h f (some date) ≡ true
    → recorded_hour h f (Disk.rotate_date r date) ≡ false
    → recorded_hour h' f' (Disk.rotate_date r date) ≡ true
    → HourGoesFirst h f h' f'
unfolding Disk.rotate_date
rotate_date-oldest r date h h' f f' a b c =
    rotate_in-oldest r date (Disk.oldest_folder date.hours) h h' f f' refl a b c

-- A day that is not after the other, and on the same day the hour goes first.
abbrev pub DayGoesFirst : Bytes → Bytes → Disk.FileName → Bytes → Bytes → Disk.FileName → Type 0
DayGoesFirst d h f d' h' f' = (bytes_ltb d' d ≡ false) × (d' ≡ d → HourGoesFirst h f h' f')

listed_date :
    (h : Bytes) (f : Disk.FileName) (o : Option Disk.DateFolder)
    → recorded_hour h f o ≡ true
    → (v : Disk.DateFolder) × (o ≡ some v)
listed_date h f none a = cc
listed_date h f (some v) a = (v, refl)

rotate_at-oldest :
    (r : Disk.Removal) (root : Disk.Root) (o : Option Bytes) (d d' h h' : Bytes)
    (f f' : Disk.FileName)
    → Disk.oldest_folder root ≡ o
    → recorded root d h f ≡ true
    → recorded (Disk.rotate_at r o root) d h f ≡ false
    → recorded (Disk.rotate_at r o root) d' h' f' ≡ true
    → DayGoesFirst d h f d' h' f'
unfolding Disk.oldest_folder
rotate_at-oldest r root none d d' h h' f f' e a b c = absurd (cc)
rotate_at-oldest r root (some k) d d' h h' f f' e a b c = elim (Option-cases (lookup k root)) [
  | inl absent ↦
      absurd (cc (subst (λ o. recorded (Disk.rotate_folder r k o root) d h f ≡ false) absent b))
  | inr (date, at_k) ↦
      let out = Disk.rotate_date r date in
      let b' : recorded_hour h f (if k == d then out else lookup d root) ≡ false =
        sym (ap (recorded_hour h f) (lookup-put k d out root))
        ∙ subst (λ o. recorded (Disk.rotate_folder r k o root) d h f ≡ false) at_k b in
      let c' : recorded_hour h' f' (if k == d' then out else lookup d' root) ≡ true =
        sym (ap (recorded_hour h' f') (lookup-put k d' out root))
        ∙ subst (λ o. recorded (Disk.rotate_folder r k o root) d' h' f' ≡ true) at_k c in
      elim (Bool-cases (k == d)) [
        | inr other ↦ absurd (cc (rw other at b'))
        | inl same ↦ elim (Bool-cases (k == d')) [
          | inl same' ↦
              let here = (==_iff k d).0 same in
              let there : d' ≡ d = sym ((==_iff k d').0 same') ∙ here in
              let is_date = subst (λ x. lookup x root ≡ some date) here at_k in
              (
                subst (λ x. bytes_ltb x d ≡ false) (sym there) (bytes_ltb_irrefl d),
                λ _.
                    rotate_date-oldest r date h h' f f'
                      (subst (λ o. recorded_hour h f o ≡ true) is_date a) (rw same at b')
                      (rw same' at c'),
              )
          | inr other' ↦
              let (v, there) = listed_date h' f' (lookup d' root) (rw other' at c') in
              (
                subst (λ x. bytes_ltb d' x ≡ false) ((==_iff k d).0 same)
                    (oldest_from-least (λ x. x) (λ _ _. true) root none k d' v e there refl),
                λ q. absurd (cc ((==_iff k d').1 ((==_iff k d).0 same ∙ sym q))),
              )
        ]
      ]
]

-- What one round of `RotateFiles` takes away is oldest, wherever its removals throw: beside a
-- recording that stays, a recording that goes is not of a later day; on the same day not of a later
-- hour; and in the same hour its name, or that of the other file of its stem, is not later.
pub rotate_files-oldest :
    (r : Disk.Removal) (root : Disk.Root) (d d' h h' : Bytes) (f f' : Disk.FileName)
    → recorded root d h f ≡ true
    → recorded (Disk.rotate_files r root) d h f ≡ false
    → recorded (Disk.rotate_files r root) d' h' f' ≡ true
    → DayGoesFirst d h f d' h' f'
unfolding Disk.rotate_files
rotate_files-oldest r root d d' h h' f f' a b c =
    rotate_at-oldest r root (Disk.oldest_folder root) d d' h h' f f' refl a b c
