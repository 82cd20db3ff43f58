-- ===== src/Recorder/Naming/Chronology.antt =====
-- The order of the names of recordings is the order of their times.
use pi_webrtc.Prelude.{
  ℕ, zero, suc, ◌+◌, ◌-◌, ◌*◌, ◌/◌, ◌%◌, ◌<◌, ◌≡◌, refl, sym, ap, ◌∙◌, Bool, true, false, none,
  some, List, [], ◌∷◌, ◌++◌, append_assoc, Bytes, length, length-append, All, take, replicate, ltb,
  eqb, if◌then◌else◌, codes, bytes_ltb, bytes_ltb-append, bytes_ltb_irrefl, Bool-cases, append-nil,
  inl, inr, arith,
}
use pi_webrtc.Recorder.Naming.{
  Tm, FileInfo, digits, to_string, prefix_zero, file_info, full_path, join_path, ends_in_slash,
  find_last_dot, replace_extension,
}

-- A number by exactly `k` digits, its last ones.
abbrev pub padded : ℕ → ℕ → Bytes
padded zero n = []
padded (suc k) n = padded k (n / 10) ++ (b'0' + n % 10) ∷ []

length-padded : (k n : ℕ) → length (padded k n) ≡ k
length-padded zero n = refl
length-padded (suc k) n =
    length-append (padded k (n / 10)) _ ∙ omega (arith, length-padded k (n / 10))

snoc_replicate :
    (k : ℕ) (acc : Bytes) → replicate k b'0' ++ b'0' ∷ acc ≡ b'0' ∷ (replicate k b'0' ++ acc)
snoc_replicate zero acc = refl
snoc_replicate (suc k) acc = ap (◌∷◌ b'0') (snoc_replicate k acc)

padded_zero : (k : ℕ) → padded k 0 ≡ replicate k b'0'
padded_zero zero = refl
padded_zero (suc k) = rw (padded_zero k) (snoc_replicate k [] ∙ ap (◌∷◌ b'0') (append-nil _))

abbrev pub limit : ℕ → ℕ
limit zero = 1
limit (suc k) = 10 * limit k

last_digit :
    (k n : ℕ) (acc : Bytes)
    → ltb n 10 ≡ true
    → replicate k b'0' ++ (b'0' + n) ∷ acc ≡ padded (suc k) n ++ acc
last_digit k n acc small =
    let e : n / 10 ≡ 0 = ground arith in
    let d : n % 10 ≡ n = ground arith in
    rw (e, d) (rw (padded_zero k) (sym (append_assoc (replicate k b'0') ((b'0' + n) ∷ []) acc)))

-- The printer stops at the last digit that is not zero, and `padded` goes on with zeros.
digits-padded :
    (fuel k n : ℕ) (acc : Bytes)
    → n < fuel
    → n < limit (suc k)
    → (j : ℕ) × (length (digits fuel n acc) + j ≡ suc k + length acc)
      × (replicate j b'0' ++ digits fuel n acc ≡ padded (suc k) n ++ acc)
digits-padded zero k n acc h b = elim h [ ]
digits-padded (suc fuel) zero n acc h b =
    let small : ltb n 10 ≡ true = ground arith in
    (0, rw small (omega arith), rw small (last_digit 0 n acc small))
digits-padded (suc fuel) (suc k) n acc h b = elim (Bool-cases (ltb n 10)) [
  | inl small ↦ (suc k, rw small (omega arith), rw small (last_digit (suc k) n acc small))
  | inr large ↦
      let (j, e, p) =
        digits-padded fuel k (n / 10) ((b'0' + n % 10) ∷ acc) (ground arith) (omega arith) in
      (
        j,
        rw large (omega arith),
        rw large (p ∙ sym (append_assoc (padded (suc k) (n / 10)) ((b'0' + n % 10) ∷ []) acc)),
      )
]

prefix_zero-padded : (k n : ℕ) → n < limit (suc k) → prefix_zero n (suc k) ≡ some (padded (suc k) n)
unfolding prefix_zero to_string
prefix_zero-padded k n b =
    let (j, e, p) = digits-padded (suc n) k n [] (omega arith) b in
    let d : suc k - length (digits (suc n) n []) ≡ j = omega arith in
    let f : ltb (suc k) (length (digits (suc n) n [])) ≡ false = ground arith in
    rw (f, d) (ap some (p ∙ append-nil _))

-- Numbers of one width are ordered as their texts.
padded_order :
    (k m n : ℕ) → m < limit k → n < limit k → bytes_ltb (padded k m) (padded k n) ≡ ltb m n
padded_order zero m n a b = ground arith
padded_order (suc k) m n a b =
    bytes_ltb-append (padded k (m / 10)) (padded k (n / 10)) ((b'0' + m % 10) ∷ [])
      ((b'0' + n % 10) ∷ []) (length-padded k (m / 10) ∙ sym (length-padded k (n / 10)))
    ∙ ground (arith, padded_order k (m / 10) (n / 10), padded_order k (n / 10) (m / 10))

-- A time of the Gregorian calendar, with a year of four digits.
pub record IsTime (t : Tm) : Type 0 where
  pub year_fits : t.year < 10000
  pub month_fits : t.month < 100
  pub day_fits : t.day < 100
  pub hour_fits : t.hour < 100
  pub min_fits : t.min < 100
  pub sec_fits : t.sec < 100

abbrev pub earlier : List (ℕ × ℕ) → Bool
earlier [] = false
earlier ((a, b) ∷ rest) = if ltb a b then true else if ltb b a then false else earlier rest

-- The first difference decides.
abbrev pub is_earlier : Tm → Tm → Bool
is_earlier t u = earlier (
    (t.year, u.year)
    ∷ (t.month, u.month)
    ∷ (t.day, u.day)
    ∷ (t.hour, u.hour)
    ∷ (t.min, u.min)
    ∷ (t.sec, u.sec)
    ∷ [])

field_order :
    (k m n : ℕ) (u v : Bytes)
    → m < limit k
    → n < limit k
    → bytes_ltb (padded k m ++ u) (padded k n ++ v)
      ≡ (if ltb m n then true else if ltb n m then false else bytes_ltb u v)
field_order k m n u v a b =
    bytes_ltb-append (padded k m) (padded k n) u v (length-padded k m ∙ sym (length-padded k n))
    ∙ rw (padded_order k m n a b, padded_order k n m b a)

name_of : Bytes → Tm → Bytes
name_of rest t =
    padded 4 t.year
    ++ (padded 2 t.month
        ++ (padded 2 t.day
            ++ (b'_' ∷ (padded 2 t.hour ++ (padded 2 t.min ++ (padded 2 t.sec ++ rest))))))

name_of_order :
    (rest : Bytes) (t u : Tm)
    → IsTime t
    → IsTime u
    → bytes_ltb (name_of rest t) (name_of rest u) ≡ is_earlier t u
unfolding name_of
name_of_order rest t u h k = rw (
  field_order 4 t.year u.year _ _ (omega arith) (omega arith),
  field_order 2 t.month u.month _ _ (omega arith) (omega arith),
  field_order 2 t.day u.day _ _ (omega arith) (omega arith),
  field_order 2 t.hour u.hour _ _ (omega arith) (omega arith),
  field_order 2 t.min u.min _ _ (omega arith) (omega arith),
  field_order 2 t.sec u.sec _ _ (omega arith) (omega arith),
  bytes_ltb_irrefl rest,
)

file_info_lem :
    (root ext : Bytes) (t : Tm)
    → IsTime t
    → file_info root ext t
      ≡ some (record {
        root = root;
        date = padded 4 t.year ++ padded 2 t.month ++ padded 2 t.day;
        hour = padded 2 t.hour;
        filename =
            padded 4 t.year
            ++ padded 2 t.month
            ++ padded 2 t.day
            ++ codes "_"
            ++ padded 2 t.hour
            ++ padded 2 t.min
            ++ padded 2 t.sec;
        extension = ext;
      })
unfolding file_info
file_info_lem root ext t h = rw (
  prefix_zero-padded 3 t.year (omega arith),
  prefix_zero-padded 1 t.month (omega arith),
  prefix_zero-padded 1 t.day (omega arith),
  prefix_zero-padded 1 t.hour (omega arith),
  prefix_zero-padded 1 t.min (omega arith),
  prefix_zero-padded 1 t.sec (omega arith),
)

abbrev pub base_name : FileInfo → Bytes
base_name f = f.filename ++ codes "." ++ f.extension

date_order :
    (t u : Tm)
    → IsTime t
    → IsTime u
    → bytes_ltb
        (padded 4 t.year ++ (padded 2 t.month ++ padded 2 t.day))
        (padded 4 u.year ++ (padded 2 u.month ++ padded 2 u.day))
      ≡ earlier ((t.year, u.year) ∷ (t.month, u.month) ∷ (t.day, u.day) ∷ [])
date_order t u h k =
    rw
      (
        field_order 4 t.year u.year (padded 2 t.month ++ padded 2 t.day)
            (padded 2 u.month ++ padded 2 u.day) (omega arith) (omega arith),
        field_order 2 t.month u.month (padded 2 t.day) (padded 2 u.day) (omega arith) (omega arith),
        padded_order 2 t.day u.day (omega arith) (omega arith),
      )
      (ground arith)

-- Recordings of two times with years of four digits: both names are made, and the lexical order of the names,
-- as that of the folders of their days, is the order of the times.
pub file_info-order :
    (root ext : Bytes) (t u : Tm)
    → IsTime t
    → IsTime u
    → (f g : FileInfo) × (file_info root ext t ≡ some f)
      × (file_info root ext u ≡ some g)
      × (bytes_ltb (base_name f) (base_name g) ≡ is_earlier t u)
      × (bytes_ltb f.date g.date
          ≡ earlier ((t.year, u.year) ∷ (t.month, u.month) ∷ (t.day, u.day) ∷ []))
      × (bytes_ltb f.hour g.hour ≡ ltb t.hour u.hour)
unfolding name_of
file_info-order root ext t u h k = (
  _,
  _,
  file_info_lem root ext t h,
  file_info_lem root ext u k,
  name_of_order (codes "." ++ ext) t u h k,
  date_order t u h k,
  padded_order 2 t.hour u.hour (omega arith) (omega arith),
)

-- No dot is in the text.
abbrev pub Dotless : Bytes → Type 0
Dotless bs = All (λ b. eqb b b'.' ≡ false) bs

find_last_dot-none : (bs : Bytes) → Dotless bs → find_last_dot bs ≡ none
find_last_dot-none [] h = refl
find_last_dot-none (b ∷ bs) h = rw (find_last_dot-none bs h.1, h.0)

find_last_dot-append :
    (stem ext : Bytes) → Dotless ext → find_last_dot (stem ++ b'.' ∷ ext) ≡ some (length stem)
find_last_dot-append [] ext h = rw (find_last_dot-none ext h)
find_last_dot-append (b ∷ stem) ext h = rw (find_last_dot-append stem ext h)

take-length : (s t : Bytes) → take (length s) (s ++ t) ≡ s
take-length [] t = refl
take-length (b ∷ s) t = ap (◌∷◌ b) (take-length s t)

replace_extension-append :
    (stem ext new : Bytes) → Dotless ext → replace_extension (stem ++ b'.' ∷ ext) new ≡ stem ++ new
unfolding replace_extension
replace_extension-append stem ext new h =
    rw (find_last_dot-append stem ext h, take-length stem (b'.' ∷ ext))

-- What stands in front of the extension.
front_path : FileInfo → Bytes
front_path f =
    let folder = join_path (join_path f.root f.date) f.hour in
    (if ends_in_slash folder then folder else folder ++ codes "/") ++ f.filename

full_path_lem : (f : FileInfo) → full_path f ≡ front_path f ++ b'.' ∷ f.extension
unfolding full_path front_path
full_path_lem f =
    let folder = join_path (join_path f.root f.date) f.hour in
    elim (Bool-cases (ends_in_slash folder)) [
      | inl e ↦ rw e (simp append_assoc)
      | inr e ↦ rw e (simp append_assoc)
    ]

-- A recording whose extension has no dot: its preview image stands beside it, under the same name with the
-- extension jpg.
pub replace_extension-full_path :
    (f : FileInfo)
    → Dotless f.extension
    → replace_extension (full_path f) (codes ".jpg")
      ≡ full_path (record f { extension = codes "jpg" })
unfolding front_path
replace_extension-full_path f h =
    ap (λ p. replace_extension p (codes ".jpg")) (full_path_lem f)
    ∙ replace_extension-append (front_path f) f.extension (codes ".jpg") h
    ∙ sym (full_path_lem (record f { extension = codes "jpg" }))
