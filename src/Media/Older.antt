-- ===== src/Media/Older.antt =====
-- The walk of `FindOlderFiles` in src/recorder/media_query.cpp ends, with files that are older.
use pi_webrtc.Prelude.{
  ℕ, zero, suc, ◌≤◌, ◌<◌, ◌≡◌, refl, ◌⊎◌, inl, inr, true, not, Option, none, some, List, [], ◌∷◌,
  ◌++◌, Bytes, All, All-append, length, length-append, ltb, eqb, Bool-cases, if_either, arith,
}
use pi_webrtc.Media.Folders.{Base, Stamped, sort}
use pi_webrtc.Media.Search.{
  files_at, previous_folder, visit, collect, older_loop, find_older_nested,
}
use pi_webrtc.Media.Walk.{
  folders_before, PreviousIsEarlier, GoesBack, EarlierFolder, dates-lt, previous_folder-GoesBack,
}

-- Older files, and at most so many.
pub record IsAnswer (request_num limit : ℕ) (result : List Stamped) : Type 0 where
  pub older : All (λ f. ltb (f.0) limit ≡ true) result
  pub within : length result ≤ request_num

collect_lem :
    (request_num limit : ℕ) (files result : List Stamped)
    → IsAnswer request_num limit result
    → length result < request_num
    → let (found, enough) = collect request_num limit files result in
      IsAnswer request_num limit found × ((length found < request_num) ⊎ (enough ≡ true))
unfolding collect
collect_lem request_num limit [] result h l = (h, inl l)
collect_lem request_num limit ((t, path) ∷ files) result h l = elim (Bool-cases (ltb t limit)) [
  | inr newer ↦ rw newer (collect_lem request_num limit files result h l)
  | inl older ↦
      let longer = length-append result ((t, path) ∷ []) in
      let answer : IsAnswer request_num limit (result ++ (t, path) ∷ []) = record {
        older = All-append _ result ((t, path) ∷ []) h.older (older, tt);
        within = omega arith;
      } in
      rw older (elim (Bool-cases (eqb (length (result ++ (t, path) ∷ [])) request_num)) [
        | inl full ↦ rw full (answer, inr refl)
        | inr space ↦
            rw space
              (collect_lem request_num limit files (result ++ (t, path) ∷ []) answer (ground arith))
      ])
]

-- The claim of the loop at a folder.
abbrev Ends : ℕ → ℕ → Option (List Stamped) → Type 0
Ends request_num limit o = (r : List Stamped) × (o ≡ some r) × IsAnswer request_num limit r

visit-Ends :
    (n limit : ℕ) (base : Base) (d h : Bytes) (more : List Stamped)
    (goes : Bytes → Bytes → Option (List Stamped)) (o : Option (Bytes × Bytes))
    → IsAnswer n limit more
    → GoesBack base d h o
    → ((d' h' : Bytes) → EarlierFolder base d' h' d h → Ends n limit (goes d' h'))
    → Ends n limit (visit (some more) goes o)
visit-Ends n limit base d h more goes none a back k = (more, refl, a)
visit-Ends n limit base d h more goes (some (d', h')) a back k = k d' h' back

older_loop-Ends :
    (fuel n limit : ℕ) (g : Bytes → Bytes) (base : Base) (ext d h : Bytes) (result : List Stamped)
    → PreviousIsEarlier g base
    → folders_before d h base.dates < fuel
    → IsAnswer n limit result
    → Ends n limit (older_loop g base fuel n limit ext d h result)
unfolding older_loop
older_loop-Ends zero n limit g base ext d h result law fuel_left a = elim fuel_left [ ]
older_loop-Ends (suc fuel) n limit g base ext d h result law fuel_left a =
    let files = sort (files_at base d h ext) in
    if_either (Ends n limit) (not (ltb (length result) n)) (λ _. (result, refl, a))
      λ space.
        let (answer, how) = collect_lem n limit files result a (ground arith) in
        let (more, enough) = collect n limit files result in
        if_either (Ends n limit) enough (λ _. (more, refl, answer))
          λ _.
            visit-Ends n limit base d h more _ (previous_folder g base d h) answer
              (previous_folder-GoesBack g base d h law)
              (λ d' h' back.
                older_loop-Ends fuel n limit g base ext d' h' more law
                  (omega (
                    arith,
                    dates-lt d' h' d h back.earlier base.dates back.has_hours back.has_files,
                  ))
                  answer)

-- The nested layout, where the folder of the previous date, if there is one, has an earlier name: with fuel for
-- each folder before the file's own, the search ends, with at most as many files as are asked for, and
-- each was written before the file.
pub find_older_nested-total :
    (fuel request_num limit : ℕ) (get_previous_date : Bytes → Bytes) (base : Base)
    (extension date hour : Bytes)
    → PreviousIsEarlier get_previous_date base
    → folders_before date hour base.dates < fuel
    → (r : List Stamped) × (find_older_nested get_previous_date base fuel request_num limit
          extension date hour
        ≡ some r)
      × All (λ f. ltb (f.0) limit ≡ true) r
      × (length r ≤ request_num)
unfolding find_older_nested
find_older_nested-total fuel n limit g base ext d h law fuel_left =
    let (r, e, a) =
      older_loop-Ends fuel n limit g base ext d h [] law fuel_left
        (record { older = tt; within = omega arith }) in
    (r, e, a.older, a.within)
