-- ===== src/Media/Walk.antt =====
-- The walk back through the folders in src/recorder/media_query.cpp: each step goes to an earlier one.
use pi_webrtc.Prelude.{
  ℕ, ◌+◌, ◌≤◌, ◌<◌, ◌≡◌, refl, sym, ap, subst, ◌∙◌, ◌⊎◌, inl, inr, Bool, true, false, ◌&&◌, ◌||◌,
  Option, none, some, List, [], ◌∷◌, Bytes, is_empty, if◌then◌else◌, bytes_ltb, bytes_ltb_irrefl,
  bytes_ltb_trans, bytes_ltb_total, ◌==◌, ==_iff, bytes_eq, Bool-cases, Option-cases, if_either,
  arith,
}
use pi_webrtc.Prelude.Dict.{lookup}
use pi_webrtc.Media.Folders.{
  Entry, Hours, Base, find_latest_sub_dir, latest_from, find_previous, previous_from,
  is_date_or_hour,
}
use pi_webrtc.Media.Search.{or_none, hours_at, in_date, previous_folder}

-- A folder is before another.
abbrev pub is_before : Bytes → Bytes → Bytes → Bytes → Bool
is_before d h d' h' =
    if bytes_ltb d d' then true else if bytes_ltb d' d then false else bytes_ltb h h'

is_before_irrefl : (d h : Bytes) → is_before d h d h ≡ false
is_before_irrefl d h = ground (arith, bytes_ltb_irrefl d, bytes_ltb_irrefl h)

is_before_trans :
    (a b d h d' h' : Bytes)
    → is_before a b d h ≡ true
    → is_before d h d' h' ≡ true
    → is_before a b d' h' ≡ true
is_before_trans a b d h d' h' p q = ground (
  arith,
  bytes_ltb_trans a d d',
  bytes_ltb_trans b h h',
  bytes_ltb_trans d a d',
  bytes_ltb_trans d' d a,
  bytes_ltb_trans a d' d,
  bytes_ltb_trans d d' a,
  bytes_ltb_trans d' a d,
  bytes_ltb_total a d,
  bytes_ltb_total d d',
  bytes_ltb_total a d',
)

-- How many of a day's folders are before one.
abbrev hours_before : Bytes → Bytes → Bytes → Hours → ℕ
hours_before d' h' d [] = 0
hours_before d' h' d ((h, files) ∷ hours) =
    (if is_before d h d' h' then 1 else 0) + hours_before d' h' d hours

abbrev pub folders_before : Bytes → Bytes → List (Bytes × Hours) → ℕ
folders_before d' h' [] = 0
folders_before d' h' ((d, hours) ∷ dates) = hours_before d' h' d hours + folders_before d' h' dates

module _ (d h d' h' : Bytes) (earlier : is_before d h d' h' ≡ true) where
  hours-le : (x : Bytes) (hours : Hours) → hours_before d h x hours ≤ hours_before d' h' x hours
  hours-le x [] = omega arith
  hours-le x ((k, files) ∷ hours) = ground (arith, is_before_trans x k d h d' h', hours-le x hours)

  hours-lt :
      (hours : Hours) {files : List Entry}
      → lookup h hours ≡ some files
      → hours_before d h d hours < hours_before d' h' d hours
  hours-lt [] e = cc
  hours-lt ((k, fs) ∷ hours) {files} e = elim (Bool-cases (k == h)) [
    | inl same ↦
        let here = (==_iff k h).0 same in
        let gone = subst (λ x. is_before d x d h ≡ false) (sym here) (is_before_irrefl d h) in
        let counts = subst (λ x. is_before d x d' h' ≡ true) (sym here) earlier in
        rw (gone, counts) (omega (arith, hours-le d hours))
    | inr other ↦
        let rest = hours-lt hours (rw other at e) in ground (arith, is_before_trans d k d h d' h')
  ]

  dates-le : (dates : List (Bytes × Hours)) → folders_before d h dates ≤ folders_before d' h' dates
  dates-le [] = omega arith
  dates-le ((x, hours) ∷ dates) = omega (arith, hours-le x hours, dates-le dates)

  pub dates-lt :
      (dates : List (Bytes × Hours)) {hours : Hours} {files : List Entry}
      → lookup d dates ≡ some hours
      → lookup h hours ≡ some files
      → folders_before d h dates < folders_before d' h' dates
  dates-lt [] e f = cc
  dates-lt ((x, hs) ∷ dates) {hours} {files} e f = elim (Bool-cases (x == d)) [
    | inl same ↦
        let here = (==_iff x d).0 same in
        let is : some hs ≡ some hours = rw same at e in
        let in_day = subst (λ y. lookup h y ≡ some files) (sym (ap or_none is)) f in
        let more =
          subst (λ y. hours_before d h y hs < hours_before d' h' y hs) (sym here)
            (hours-lt hs in_day) in
        omega (arith, dates-le dates)
    | inr other ↦ omega (arith, hours-le x hs, dates-lt dates (rw other at e) f)
  ]

-- What the loops over a folder find is in it.
found_behind :
    {V : Type 0} (r k : Bytes) (v : V) (l : List (Bytes × V))
    → (w : V) × (lookup r l ≡ some w)
    → (w : V) × (lookup r ((k, v) ∷ l) ≡ some w)
found_behind r k v l (w, e) = elim (Bool-cases (k == r)) [
  | inl same ↦ (v, rw same refl)
  | inr other ↦ (w, rw other e)
]

found_here :
    {V : Type 0} (k : Bytes) (v : V) (l : List (Bytes × V))
    → (w : V) × (lookup k ((k, v) ∷ l) ≡ some w)
found_here k v l = (v, rw ((==_iff k k).1 refl) refl)

-- The result is what the loop began with, or is listed and passes its test.
abbrev Found : {V : Type 0} → (Bytes → Bool) → Bytes → Bytes → List (Bytes × V) → Type 0
Found {V} test r prev l = (r ≡ prev) ⊎ (((w : V) × (lookup r l ≡ some w)) × (test r ≡ true))

Found-step :
    {V : Type 0} (test : Bytes → Bool) (r k prev : Bytes) (v : V) (l : List (Bytes × V)) (b : Bool)
    → (b ≡ true → test k ≡ true)
    → Found test r (if b then k else prev) l
    → Found test r prev ((k, v) ∷ l)
Found-step test r k prev v l b passes (inr (w, t)) = inr (found_behind r k v l w, t)
Found-step test r k prev v l false passes (inl e) = inl e
Found-step {V} test r k prev v l true passes (inl e) = inr (
  subst (λ x. (w : V) × (lookup x ((k, v) ∷ l) ≡ some w)) (sym e) (found_here k v l),
  subst (λ x. test x ≡ true) (sym e) (passes refl),
)

previous_from-Found :
    {V : Type 0} (cur prev : Bytes) (l : List (Bytes × V))
    → Found (λ x. bytes_ltb x cur) (previous_from cur prev l) prev l
unfolding previous_from
previous_from-Found cur prev [] = inl refl
previous_from-Found cur prev ((k, v) ∷ l) =
    Found-step (λ x. bytes_ltb x cur) _ k prev v l
      (bytes_ltb k cur && (is_empty prev || bytes_ltb prev k)) (λ e. ground arith)
      (previous_from-Found cur
        (if bytes_ltb k cur && (is_empty prev || bytes_ltb prev k) then k else prev) l)

latest_from-Found :
    {V : Type 0} (prev : Bytes) (l : List (Bytes × V))
    → Found is_date_or_hour (latest_from prev l) prev l
unfolding latest_from
latest_from-Found prev [] = inl refl
latest_from-Found prev ((k, v) ∷ l) =
    Found-step is_date_or_hour _ k prev v l (is_date_or_hour k && bytes_ltb prev k)
      (λ e. ground arith)
      (latest_from-Found (if is_date_or_hour k && bytes_ltb prev k then k else prev) l)

-- The folder of the previous date, if there is one, has an earlier name.
abbrev pub PreviousIsEarlier : (Bytes → Bytes) → Base → Type 0
PreviousIsEarlier get_previous_date base =
    (d : Bytes) (hours : Hours)
    → lookup (get_previous_date d) base.dates ≡ some hours
    → bytes_ltb (get_previous_date d) d ≡ true

-- A folder that is there, and is before another.
pub record EarlierFolder (base : Base) (d' h' d h : Bytes) : Type 0 where
  pub hours : Hours
  pub files : List Entry
  pub has_hours : lookup d' base.dates ≡ some hours
  pub has_files : lookup h' hours ≡ some files
  pub earlier : is_before d' h' d h ≡ true

abbrev pub GoesBack : Base → Bytes → Bytes → Option (Bytes × Bytes) → Type 0
GoesBack base d h none = Unit
GoesBack base d h (some (d', h')) = EarlierFolder base d' h' d h

listed_hours :
    (base : Base) (d h : Bytes) (files : List Entry)
    → lookup h (hours_at base d) ≡ some files
    → lookup d base.dates ≡ some (hours_at base d)
listed_hours base d h files e = elim (Option-cases (lookup d base.dates)) [
  | inl absent ↦ absurd (cc (subst (λ o. lookup h (or_none o) ≡ some files) absent e))
  | inr (hours, there) ↦ there ∙ ap some (sym (ap or_none there))
]

in_date-GoesBack :
    (base : Base) (d h d' : Bytes) (o : Option Hours)
    → lookup d' base.dates ≡ o
    → ((hours : Hours) → o ≡ some hours → bytes_ltb d' d ≡ true)
    → GoesBack base d h (in_date d' o)
unfolding find_latest_sub_dir
in_date-GoesBack base d h d' none e law = tt
in_date-GoesBack base d h d' (some hours) e law =
    if_either (GoesBack base d h) (is_empty (find_latest_sub_dir hours)) (λ _. tt)
      λ some_hour. elim (latest_from-Found [] hours) [
        | inl nothing ↦ absurd (cc (subst (λ x. is_empty x ≡ false) nothing some_hour))
        | inr ((files, there), _) ↦ record {
          hours = hours;
          files = files;
          has_hours = e;
          has_files = there;
          earlier = ground (arith, law hours refl);
        }
      ]

pub previous_folder-GoesBack :
    (get_previous_date : Bytes → Bytes) (base : Base) (d h : Bytes)
    → PreviousIsEarlier get_previous_date base
    → GoesBack base d h (previous_folder get_previous_date base d h)
unfolding previous_folder find_previous
previous_folder-GoesBack get_previous_date base d h law =
    if_either (GoesBack base d h) (is_empty (find_previous h (hours_at base d)))
      (λ _. in_date-GoesBack base d h (get_previous_date d) _ refl (law d))
      λ some_hour. elim (previous_from-Found h [] (hours_at base d)) [
        | inl nothing ↦ absurd (cc (subst (λ x. is_empty x ≡ false) nothing some_hour))
        | inr ((files, there), before) ↦ record {
          hours = hours_at base d;
          files = files;
          has_hours = listed_hours base d (find_previous h (hours_at base d)) files there;
          has_files = there;
          earlier = ground (arith, bytes_ltb_irrefl d);
        }
      ]
