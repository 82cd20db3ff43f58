-- ===== src/Recorder/Naming.antt =====
-- The names of recordings: `PrefixZero`, `FileInfo` and `ReplaceExtension` of
-- src/recorder/recorder_manager.cpp. A text is the list of its bytes.
pub mod Chronology
use pi_webrtc.Prelude.{
  ℕ, zero, suc, ◌+◌, ◌-◌, ◌/◌, ◌%◌, Bool, true, false, Option, none, some, List, [], ◌∷◌, ◌++◌,
  Bytes, length, take, replicate, ltb, eqb, if◌then◌else◌, codes,
}

-- `std::to_string` of a number that is not negative.
abbrev pub digits : ℕ → ℕ → Bytes → Bytes
digits zero n acc = acc
digits (suc fuel) n acc =
    let rest = digits fuel (n / 10) ((b'0' + n % 10) ∷ acc) in
    if ltb n 10 then (b'0' + n) ∷ acc else rest

unfoldable pub to_string : ℕ → Bytes
to_string n = digits (suc n) n []

-- `none` is the exception of `std::string` at a length that wrapped around.
unfoldable pub prefix_zero : ℕ → ℕ → Option Bytes
unfolding to_string
prefix_zero src n =
    let str = to_string src in
    if ltb n (length str) then none else some (replicate (n - length str) b'0' ++ str)

-- What `localtime_r` fills in, the month and the year as they are printed.
pub record Tm : Type 0 where
  pub year : ℕ
  pub month : ℕ
  pub day : ℕ
  pub hour : ℕ
  pub min : ℕ
  pub sec : ℕ

pub record FileInfo : Type 0 where
  pub root : Bytes
  pub date : Bytes
  pub hour : Bytes
  pub filename : Bytes
  pub extension : Bytes

infixl 5 ◌>>=◌
abbrev pub ◌>>=◌ : {A B : Type 0} → Option A → (A → Option B) → Option B
none >>= f = none
some a >>= f = f a

-- The constructor of `FileInfo` at a time.
unfoldable pub file_info : Bytes → Bytes → Tm → Option FileInfo
unfolding prefix_zero
file_info root extension t = do
  year ← prefix_zero t.year 4
  month ← prefix_zero t.month 2
  day ← prefix_zero t.day 2
  hour ← prefix_zero t.hour 2
  min ← prefix_zero t.min 2
  sec ← prefix_zero t.sec 2
  some (record {
    root = root;
    date = year ++ month ++ day;
    hour = hour;
    filename = year ++ month ++ day ++ codes "_" ++ hour ++ min ++ sec;
    extension = extension;
  })

abbrev pub ends_in_slash : Bytes → Bool
ends_in_slash [] = true
ends_in_slash (b ∷ []) = eqb b b'/'
ends_in_slash (b ∷ c ∷ bs) = ends_in_slash (c ∷ bs)

-- `operator/` of paths, for a right side that is relative.
abbrev pub join_path : Bytes → Bytes → Bytes
join_path a b = if ends_in_slash a then a ++ b else a ++ codes "/" ++ b

unfoldable pub folder_path : FileInfo → Bytes
folder_path f = join_path (join_path f.root f.date) f.hour

unfoldable pub full_path : FileInfo → Bytes
full_path f =
    join_path (join_path (join_path f.root f.date) f.hour) (f.filename ++ codes "." ++ f.extension)

-- `find_last_of('.')`.
abbrev pub find_last_dot : Bytes → Option ℕ
find_last_dot [] = none
find_last_dot (b ∷ bs) = elim (find_last_dot bs) [
  | some i ↦ some (suc i)
  | none ↦ if eqb b b'.' then some 0 else none
]

abbrev pub take_or_all : Option ℕ → Bytes → Bytes
take_or_all none bs = bs
take_or_all (some n) bs = take n bs

unfoldable pub replace_extension : Bytes → Bytes → Bytes
replace_extension url new_extension = take_or_all (find_last_dot url) url ++ new_extension
