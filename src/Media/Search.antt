-- ===== src/Media/Search.antt =====
-- `FindLatestCompleteFile`, `FindFilesFromDatetime` and `FindOlderFiles` of src/recorder/media_query.cpp, the path that is
-- found as a list of names. The calendar of the C library, behind `GetPreviousDate` and `ParseDatetime`,
-- is a parameter. The folders of days hold folders only.
use pi_webrtc.Prelude.{
  ℕ, zero, suc, Bool, true, false, not, ◌&&◌, ◌||◌, Option, none, some, List, [], ◌∷◌, ◌++◌, Bytes,
  length, take, drop, is_empty, ltb, eqb, if◌then◌else◌, codes, bytes_eq,
}
use pi_webrtc.Prelude.Dict.{lookup}
use pi_webrtc.Media.Folders.{
  Hours, Base, FilePath, Stamped, sort, get_files, are_digits, find_latest_sub_dir, find_previous,
}

abbrev pub or_none : {A : Type 0} → Option (List A) → List A
or_none none = []
or_none (some l) = l

-- A folder that is not there has no entries.
abbrev pub hours_at : Base → Bytes → Hours
hours_at base date = or_none (lookup date base.dates)

abbrev pub files_at : Base → Bytes → Bytes → Bytes → List Stamped
files_at base date hour extension =
    get_files (date ∷ hour ∷ []) extension (or_none (lookup hour (hours_at base date)))

abbrev pub second : List Stamped → Option FilePath
second (x ∷ y ∷ files) = some (y.1)
second _ = none

abbrev pub first : List Stamped → Option FilePath
first [] = none
first (x ∷ files) = some (x.1)

-- The next folder that a walk back in time looks into.
abbrev pub in_date : Bytes → Option Hours → Option (Bytes × Bytes)
in_date date none = none
in_date date (some hours) =
    let latest = find_latest_sub_dir hours in if is_empty latest then none else some (date, latest)

-- The loop over files for the first that is older.
abbrev pub first_older : ℕ → List Stamped → Option FilePath
first_older limit [] = none
first_older limit ((t, path) ∷ files) = if ltb t limit then some path else first_older limit files

abbrev pub found_or : Option FilePath → Option FilePath → Option FilePath
found_or none later = later
found_or (some path) later = some path

abbrev pub has_date : List (Bytes × Hours) → Bool
has_date [] = false
has_date ((name, hours) ∷ dates) = are_digits name && eqb (length name) 8 || has_date dates

-- The loop over the files of one folder: what was found so far and in it, and whether that is enough.
unfoldable pub collect : ℕ → ℕ → List Stamped → List Stamped → List Stamped × Bool
collect request_num limit [] result = (result, false)
collect request_num limit (f ∷ files) result =
    let pushed = result ++ f ∷ [] in
    let rest = collect request_num limit files (if ltb (f.0) limit then pushed else result) in
    if ltb (f.0) limit && eqb (length pushed) request_num then (pushed, true) else rest

-- The loop goes on in a folder, or ends as it does without one.
abbrev pub visit : {R : Type 0} → R → (Bytes → Bytes → R) → Option (Bytes × Bytes) → R
visit ends goes none = ends
visit ends goes (some (date, hour)) = goes date hour

module _ (get_previous_date : Bytes → Bytes) (base : Base) where
  abbrev pub in_previous_hour : Bytes → Bytes → Bytes → List Stamped
  in_previous_hour date hour extension =
      let prev = find_previous hour (hours_at base date) in
      if is_empty prev then [] else files_at base date prev extension

  abbrev pub in_previous_date : Bytes → Bytes → List Stamped
  in_previous_date date extension =
      let prev = get_previous_date date in
      files_at base prev (find_latest_sub_dir (hours_at base prev)) extension

  -- `none` is the empty text.
  unfoldable pub find_latest_complete_file : Bytes → Option FilePath
  unfolding find_latest_sub_dir get_files find_previous
  find_latest_complete_file extension =
      let date = find_latest_sub_dir base.dates in
      let hour = find_latest_sub_dir (hours_at base date) in
      let files = files_at base date hour extension in
      let with_hour =
        (if ltb (length files) 2 then files ++ in_previous_hour date hour extension else files) in
      let with_date =
        (if ltb (length with_hour) 2
          then with_hour ++ in_previous_date date extension
          else with_hour) in
      if is_empty date
      then first (sort (get_files [] extension base.files))
      else if is_empty hour
      then none
      else second (sort with_date)

  unfoldable pub previous_folder : Bytes → Bytes → Option (Bytes × Bytes)
  unfolding find_previous find_latest_sub_dir
  previous_folder date hour =
      let prev = find_previous hour (hours_at base date) in
      let prev_date = get_previous_date date in
      if is_empty prev then in_date prev_date (lookup prev_date base.dates) else some (date, prev)

  -- The `for` loop, over the folders that it may still look into.
  unfoldable pub datetime_loop : ℕ → ℕ → Bytes → Bytes → Option FilePath
  unfolding previous_folder get_files
  datetime_loop zero limit date hour = none
  datetime_loop (suc count) limit date hour =
      found_or (first_older limit (sort (files_at base date hour (codes ".mp4")))) (
        visit none (λ date' hour'. datetime_loop count limit date' hour')
          (previous_folder date hour))

  unfoldable pub find_files_from_datetime : (Bytes → ℕ) → Bytes → Option FilePath
  unfolding datetime_loop
  find_files_from_datetime parse_datetime basename =
      if ltb (length basename) 15
      then none
      else if not (has_date base.dates)
      then first_older (parse_datetime basename) (sort (get_files [] (codes ".mp4") base.files))
      else datetime_loop 10 (parse_datetime basename) (take 8 basename) (take 2 (drop 9 basename))

  -- The `while` loop over folders. `none` is a loop that has not ended.
  unfoldable pub older_loop :
      ℕ → ℕ → ℕ → Bytes → Bytes → Bytes → List Stamped → Option (List Stamped)
  unfolding collect
  older_loop zero request_num limit extension date hour result = none
  older_loop (suc fuel) request_num limit extension date hour result =
      let (more, enough) =
        collect request_num limit (sort (files_at base date hour extension)) result in
      let rest =
        visit (some more)
          (λ date' hour'. older_loop fuel request_num limit extension date' hour' more)
          (previous_folder date hour) in
      if not (ltb (length result) request_num)
      then some result
      else if enough
      then some more
      else rest

  -- A file in the flat layout, and one in the nested layout, that was written at `limit`.
  unfoldable pub find_older_flat : ℕ → ℕ → Bytes → List Stamped
  unfolding collect
  find_older_flat request_num limit extension =
      (collect request_num limit (sort (get_files [] extension base.files)) []).0

  unfoldable pub find_older_nested : ℕ → ℕ → ℕ → Bytes → Bytes → Bytes → Option (List Stamped)
  unfolding older_loop
  find_older_nested fuel request_num limit extension date hour =
      older_loop fuel request_num limit extension date hour []
