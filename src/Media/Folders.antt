-- ===== src/Media/Folders.antt =====
-- The folders that src/recorder/media_query.cpp reads, as dictionaries from names in the order in which
-- `directory_iterator` lists them: days, hours in them, files in those.
use pi_webrtc.Prelude.{
  ℕ, Bool, true, false, ◌&&◌, ◌||◌, List, [], ◌∷◌, ◌++◌, Bytes, length, is_empty, ltb, leb, eqb,
  if◌then◌else◌, bytes_ltb, ◌==◌, bytes_eq,
}

-- An entry of a folder: when it was written, and its name. `extension` is what stands from the last dot on.
pub record Entry : Type 0 where
  pub time : ℕ
  pub filename : Bytes
  pub extension : Bytes
  pub is_regular : Bool

abbrev pub Hours : Type 0
Hours = List (Bytes × List Entry)

-- `base_dir`: its folders of days, and its other entries.
pub record Base : Type 0 where
  pub dates : List (Bytes × Hours)
  pub files : List Entry

-- A path by its names under `base_dir`.
abbrev pub FilePath : Type 0
FilePath = List Bytes

-- `operator<` of paths goes name by name.
abbrev pub path_ltb : FilePath → FilePath → Bool
path_ltb [] [] = false
path_ltb [] (b ∷ bs) = true
path_ltb (a ∷ as') [] = false
path_ltb (a ∷ as') (b ∷ bs) =
    if bytes_ltb a b then true else if bytes_ltb b a then false else path_ltb as' bs

-- A file with its time, as `GetFiles` gives it.
abbrev pub Stamped : Type 0
Stamped = ℕ × FilePath

-- `std::greater` of two pairs.
abbrev pub is_newer : Stamped → Stamped → Bool
is_newer (t, p) (u, q) = if ltb u t then true else if ltb t u then false else path_ltb q p

-- `std::sort` by `std::greater`.
abbrev pub insert_sorted : Stamped → List Stamped → List Stamped
insert_sorted x [] = x ∷ []
insert_sorted x (y ∷ ys) = if is_newer y x then y ∷ insert_sorted x ys else x ∷ y ∷ ys

abbrev pub sort : List Stamped → List Stamped
sort [] = []
sort (x ∷ xs) = insert_sorted x (sort xs)

unfoldable pub get_files : FilePath → Bytes → List Entry → List Stamped
get_files path extension [] = []
get_files path extension (e ∷ entries) =
    if e.is_regular && e.extension == extension
    then (e.time, path ++ e.filename ∷ []) ∷ get_files path extension entries
    else get_files path extension entries

abbrev pub are_digits : Bytes → Bool
are_digits [] = true
are_digits (b ∷ bs) = leb b'0' b && leb b b'9' && are_digits bs

-- `^([0-9]{8}|[0-9]{2})$`
abbrev pub is_date_or_hour : Bytes → Bool
is_date_or_hour name = are_digits name && (eqb (length name) 8 || eqb (length name) 2)

module _ {V : Type 0} where
  unfoldable pub latest_from : Bytes → List (Bytes × V) → Bytes
  latest_from latest [] = latest
  latest_from latest ((name, v) ∷ entries) =
      latest_from (if is_date_or_hour name && bytes_ltb latest name then name else latest) entries

  -- The empty text is none.
  unfoldable pub find_latest_sub_dir : List (Bytes × V) → Bytes
  unfolding latest_from
  find_latest_sub_dir entries = latest_from [] entries

  -- The loops over a day's folder for the last hour before the current one. The empty text is none.
  unfoldable pub previous_from : Bytes → Bytes → List (Bytes × V) → Bytes
  previous_from cur prev [] = prev
  previous_from cur prev ((name, v) ∷ entries) =
      previous_from cur
        (if bytes_ltb name cur && (is_empty prev || bytes_ltb prev name) then name else prev)
        entries

  unfoldable pub find_previous : Bytes → List (Bytes × V) → Bytes
  unfolding previous_from
  find_previous cur entries = previous_from cur [] entries
