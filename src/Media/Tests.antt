-- ===== src/Media/Tests.antt =====
-- Runs of the model of media queries, and the theorems at them.
use pi_webrtc.Prelude.{
  ℕ, ◌≤◌, ◌≡◌, refl, true, some, List, [], ◌∷◌, Bytes, All, length, ltb, codes, if◌then◌else◌,
  bytes_eqb, bytes_eqb_iff, Bool-cases, inl, inr, arith,
}
use pi_webrtc.Media.Base64.{to_base64}
use pi_webrtc.Media.Base64.Decoding.{decode, decode-to_base64}
use pi_webrtc.Media.Folders.{Entry, Base, Stamped}
use pi_webrtc.Media.Search.{find_latest_complete_file, find_files_from_datetime, find_older_nested}
use pi_webrtc.Media.Walk.{PreviousIsEarlier}
use pi_webrtc.Media.Older.{find_older_nested-total}

to_base64_text : to_base64 (codes "Many hands") ≡ codes "TWFueSBoYW5kcw=="
unfolding to_base64 pi_webrtc.Media.Base64.base64_char
to_base64_text = refl

decode-to_base64_example :
    (decode (to_base64 (255 ∷ 0 ∷ 1 ∷ 200 ∷ [])) ≡ some (255 ∷ 0 ∷ 1 ∷ 200 ∷ []))
    × (length (to_base64 (255 ∷ 0 ∷ 1 ∷ 200 ∷ [])) ≡ 8)
decode-to_base64_example =
    decode-to_base64 (255 ∷ 0 ∷ 1 ∷ 200 ∷ [])
      (omega arith, (omega arith, (omega arith, (omega arith, tt))))

abbrev file : ℕ → Bytes → Entry
file time filename = record {
  time = time;
  filename = filename;
  extension = codes ".mp4";
  is_regular = true;
}

abbrev base : Base
base = record {
  dates =
      (codes "20241001", (codes "07", file 50 (codes "e.mp4") ∷ file 40 (codes "d.mp4") ∷ []) ∷ [])
      ∷ (
        codes "20240930",
        (codes "21", file 30 (codes "c.mp4") ∷ [])
            ∷ (codes "20", file 10 (codes "a.mp4") ∷ file 20 (codes "b.mp4") ∷ [])
            ∷ [],
      )
      ∷ [];
  files = [];
}

-- The calendar, as far as it is asked.
abbrev previous : Bytes → Bytes
previous d = if bytes_eqb d (codes "20241001") then codes "20240930" else codes "20240929"

latest_complete :
    find_latest_complete_file previous base (codes ".mp4")
    ≡ some (codes "20241001" ∷ codes "07" ∷ codes "d.mp4" ∷ [])
unfolding find_latest_complete_file
latest_complete = refl

found_before :
    find_files_from_datetime previous base (λ d. 25) (codes "20241001_070000")
    ≡ some (codes "20240930" ∷ codes "20" ∷ codes "b.mp4" ∷ [])
unfolding find_files_from_datetime
found_before = refl

previous-IsEarlier : PreviousIsEarlier previous base
previous-IsEarlier d hours e = elim (Bool-cases (bytes_eqb d (codes "20241001"))) [
  | inl same ↦
      let here : d ≡ codes "20241001" = (bytes_eqb_iff d (codes "20241001")).0 same in rw here refl
  | inr other ↦ absurd (cc (rw other at e))
]

-- Three files are asked for, behind the folder of the last one and across the night.
find_older_nested-total_example :
    (r : List Stamped) × (find_older_nested previous base 9 3 40
        (codes ".mp4")
        (codes "20241001")
        (codes "07")
      ≡ some r)
    × All (λ f. ltb (f.0) 40 ≡ true) r
    × (length r ≤ 3)
find_older_nested-total_example =
    find_older_nested-total 9 3 40 previous base (codes ".mp4") (codes "20241001") (codes "07")
      previous-IsEarlier (omega arith)
