-- ===== src/Recorder/Disk.antt =====
-- `RotateFiles` and the rotation thread's loop of src/recorder/recorder_manager.cpp, on folders as
-- dictionaries from names, in the order in which `directory_iterator` lists them. Where a call of the file system in
-- the `try` block throws, the exception is printed and what was done till then stays. The listings of
-- `record_path` and of the day's folder, which stand before the `try` block, succeed.
pub mod Picking
pub mod Oldest
pub mod Space
pub mod Room
use pi_webrtc.Prelude.{
  ℕ, zero, suc, Bool, true, false, not, ◌&&◌, ◌||◌, Option, none, some, List, [], ◌∷◌, ◌++◌, Bytes,
  is_empty, if◌then◌else◌, codes, bytes_ltb, drop, ◌==◌, bytes_eq, pair_eq,
}
use pi_webrtc.Prelude.Dict.{lookup, insert, erase, put}

-- The stem and the extension, with its dot.
abbrev pub FileName : Type 0
FileName = Bytes × Bytes

abbrev pub name : FileName → Bytes
name (stem, extension) = stem ++ extension

-- The entries of an hour's folder; the value says that the entry is a regular file.
abbrev pub HourFolder : Type 0
HourFolder = List (FileName × Bool)

-- The folder of a day has folders of hours, and entries that are no folders.
pub record DateFolder : Type 0 where
  pub hours : List (Bytes × HourFolder)
  pub loose : List Bytes

-- The folders of `record_path`. Its other entries are not looked at.
abbrev pub Root : Type 0
Root = List (Bytes × DateFolder)

abbrev pub is_recording : FileName → Bool
is_recording (stem, extension) = extension == codes ".mp4" || extension == codes ".jpg"

-- The loops that pick the entry with the first name among those that pass a test.
module _ {K V : Type 0} (name : K → Bytes) (test : K → V → Bool) where
  abbrev pub replaces : Option K → K → Bool
  replaces none k = true
  replaces (some a) k = bytes_ltb (name k) (name a)

  abbrev pub oldest_from : Option K → List (K × V) → Option K
  oldest_from acc [] = acc
  oldest_from acc ((k, v) ∷ rest) =
      oldest_from (if test k v && replaces acc k then some k else acc) rest

unfoldable pub oldest_folder : {V : Type 0} → List (Bytes × V) → Option Bytes
oldest_folder entries = oldest_from (λ k. k) (λ _ _. true) none entries

unfoldable pub oldest_file : HourFolder → Option FileName
oldest_file entries = oldest_from name (λ f regular. regular && is_recording f) none entries

abbrev pub counterpart : FileName → FileName
counterpart (stem, extension) =
    (stem, if extension == codes ".mp4" then codes ".jpg" else codes ".mp4")

-- How the calls of the file system in the `try` block go: they all succeed, or one throws. `throws n` is a throw when
-- n things were done: entries that `remove_all` has removed, in their order, or, where there is a recording, that
-- one, then its counterpart, then the hour's folder.
pub data Removal : Type 0 where
  completes : Removal
  throws : ℕ → Removal

-- What becomes of the folder of an hour: removed since it had no recording, or since the last went, or
-- changed; or changed before a call threw.
pub data Outcome : Type 0 where
  abandoned emptied : Outcome
  changed failed : HourFolder → Outcome

abbrev pub is_complete : Removal → Bool
is_complete completes = true
is_complete (throws n) = false

-- `is_empty` of the hour's folder, its removal, and `is_empty` and the removal of the day's.
abbrev pub clean_up : Removal → HourFolder → Outcome
clean_up (throws zero) rest = failed rest
clean_up r rest = if is_empty rest then emptied else changed rest

abbrev pub without : Removal → Option FileName → HourFolder → Outcome
without completes none hour = abandoned
without (throws n) none hour = failed (drop n hour)
without completes (some f) hour = clean_up completes (erase (counterpart f) (erase f hour))
without (throws zero) (some f) hour = failed hour
without (throws (suc zero)) (some f) hour = failed (erase f hour)
without (throws (suc (suc n))) (some f) hour =
    clean_up (throws n) (erase (counterpart f) (erase f hour))

unfoldable pub rotate_hour : Removal → HourFolder → Outcome
unfolding oldest_file
rotate_hour r hour = without r (oldest_file hour) hour

abbrev pub set_hour : Removal → Bytes → Outcome → DateFolder → Option DateFolder
set_hour r h abandoned date = some (record date { hours = erase h date.hours })
set_hour r h emptied date =
    let hours = erase h date.hours in
    if is_complete r && is_empty hours && is_empty date.loose
    then none
    else some (record date { hours = hours })
set_hour r h (changed hour) date = some (record date { hours = insert h hour date.hours })
set_hour r h (failed hour) date = some (record date { hours = insert h hour date.hours })

abbrev pub hour_or_empty : Option HourFolder → HourFolder
hour_or_empty none = []
hour_or_empty (some hour) = hour

-- `none` is a folder that is removed.
abbrev pub rotate_in : Option Bytes → Removal → DateFolder → Option DateFolder
rotate_in none completes date = none
rotate_in none (throws n) date = some (record date { loose = drop n date.loose })
rotate_in (some h) r date = set_hour r h (rotate_hour r (hour_or_empty (lookup h date.hours))) date

unfoldable pub rotate_date : Removal → DateFolder → Option DateFolder
unfolding oldest_folder rotate_hour
rotate_date r date = rotate_in (oldest_folder date.hours) r date

-- The folder is there, since it was listed.
abbrev pub rotate_folder : Removal → Bytes → Option DateFolder → Root → Root
rotate_folder r d none root = root
rotate_folder r d (some date) root = put d (rotate_date r date) root

abbrev pub rotate_at : Removal → Option Bytes → Root → Root
rotate_at r none root = root
rotate_at r (some d) root = rotate_folder r d (lookup d root) root

unfoldable pub rotate_files : Removal → Root → Root
unfolding oldest_folder rotate_date
rotate_files r root = rotate_at r (oldest_folder root) root

-- A round of the thread's loop: whether it is told to abort, the answer of `CheckDriveSpace` for what is stored then,
-- and how the removals of its `RotateFiles` go.
pub record Round : Type 0 where
  pub aborts : Bool
  pub has_space : Root → Bool
  pub removal : Removal

abbrev pub stops : Round → Root → Bool
stops round root = round.aborts || round.has_space root

-- The loop over its rounds; `none` is a loop that goes on behind them.
unfoldable pub make_room : List Round → Root → Option Root
unfolding rotate_files
make_room [] root = none
make_room (round ∷ rounds) root =
    let rest = make_room rounds (rotate_files round.removal root) in
    if stops round root then some root else rest
