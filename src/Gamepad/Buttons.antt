-- ===== src/Gamepad/Buttons.antt =====
-- `ToJson`: the names of the pressed buttons, and the range of the axes and triggers.
use pi_webrtc.Prelude.{
  ℕ, zero, suc, ◌+◌, ◌/◌, ◌%◌, ◌^◌, ◌≡◌, refl, String, Bool, true, false, not, ◌||◌, some, List, [],
  ◌∷◌, eqb, if◌then◌else◌, get_elem?, ◌==◌, ==_iff, string_eq, arith,
}
use pi_webrtc.Gamepad.{
  Libraries, InputReport, Pad, pressed_from, button_names, to_json, clamp, clamp_for_json,
}

abbrev pub names : String → List String → Bool
names a [] = false
names a (x ∷ xs) = if x == a then true else names a xs

-- No name stands twice.
abbrev pub all_distinct : List String → Bool
all_distinct [] = true
all_distinct (x ∷ xs) = if names x xs then false else all_distinct xs

pressed_from-other :
    (bit : ℕ) (a : String) (xs : List String) (buttons : ℕ)
    → names a xs ≡ false
    → names a (pressed_from bit xs buttons) ≡ false
unfolding pressed_from
pressed_from-other bit a [] buttons h = refl
pressed_from-other bit a (x ∷ xs) buttons h =
    ground (arith, pressed_from-other (suc bit) a xs buttons)

names_at : (a : String) (xs : List String) (i : ℕ) → get_elem? xs i ≡ some a → names a xs ≡ true
names_at a [] i h = cc
names_at a (x ∷ xs) zero h = ground (arith, ==_iff x a)
names_at a (x ∷ xs) (suc i) h = ground (arith, names_at a xs i h)

pressed_from-at :
    (bit : ℕ) (a : String) (xs : List String) (i buttons : ℕ)
    → all_distinct xs ≡ true
    → get_elem? xs i ≡ some a
    → names a (pressed_from bit xs buttons) ≡ eqb (buttons / 2 ^ (bit + i) % 2) 1
unfolding pressed_from
pressed_from-at bit a [] i buttons d h = cc
pressed_from-at bit a (x ∷ xs) zero buttons d h =
    let e : bit + 0 ≡ bit = omega arith in
    rw e (ground (arith, ==_iff x a, pressed_from-other (suc bit) x xs buttons))
pressed_from-at bit a (x ∷ xs) (suc i) buttons d h =
    let e : bit + suc i ≡ suc bit + i = omega arith in
    rw e (ground (arith, ==_iff x a, names_at a xs i h, pressed_from-at (suc bit) a xs i buttons))

names_distinct : all_distinct button_names ≡ true
names_distinct = refl

-- The name at index `i` of the W3C mapping is among the pressed buttons of a report exactly
-- when bit `i` of its buttons is set.
pub to_json-pressed :
    (L : Libraries) (report : InputReport L.F) (pad : Pad L.F) (i : ℕ) (name : String)
    → get_elem? button_names i ≡ some name
    → names name (to_json L report pad).pressed ≡ eqb (pad.buttons / 2 ^ i % 2) 1
unfolding to_json
to_json-pressed L report pad i name h =
    let e : 0 + i ≡ i = omega arith in
    rw e at (pressed_from-at 0 name button_names i pad.buttons names_distinct h)

-- What IEEE comparison gives for the constants.
pub record FloatLaws (L : Libraries) : Type 0 where
  pub irreflexive : (x : L.F) → L.lt x x ≡ false
  pub nought_le_one : L.lt L.one L.nought ≡ false
  pub minus_one_le_one : L.lt L.one L.minus_one ≡ false

-- The clamped value is below neither bound from below nor above the one from above.
clamp_within :
    (L : Libraries) (v lo hi : L.F)
    → ((x : L.F) → L.lt x x ≡ false)
    → L.lt hi lo ≡ false
    → (L.lt (clamp L v lo hi) lo ≡ false) × (L.lt hi (clamp L v lo hi) ≡ false)
unfolding clamp
clamp_within L v lo hi irr h = ground (arith, irr lo, irr hi)

-- The shortest form of a float between the bounds.
abbrev pub InRange : (L : Libraries) → L.F → L.F → L.D → Type 0
InRange L lo hi d = (w : L.F) × (d ≡ L.shortest w) × (L.lt w lo ≡ false) × (L.lt hi w ≡ false)

clamp_for_json-InRange :
    (L : Libraries) (v lo hi : L.F)
    → ((x : L.F) → L.lt x x ≡ false)
    → L.lt hi lo ≡ false
    → InRange L lo hi (clamp_for_json L v lo hi)
unfolding clamp_for_json
clamp_for_json-InRange L v lo hi irr h =
    let v' : L.F = if not (L.is_finite v) || L.equals_zero v then L.nought else v in
    let within = clamp_within L v' lo hi irr h in (clamp L v' lo hi, refl, within.0, within.1)

-- Whatever floats a report holds, infinities and NaN among them, the axes of its JSON state
-- are shortest forms of floats not below -1 and not above 1, and its triggers of floats not
-- below 0 and not above 1, as long as the floats keep their laws.
pub to_json-InRange :
    (L : Libraries) (report : InputReport L.F) (pad : Pad L.F)
    → FloatLaws L
    → let s = to_json L report pad in
      InRange L L.minus_one L.one s.left_x
      × InRange L L.minus_one L.one s.left_y
      × InRange L L.minus_one L.one s.right_x
      × InRange L L.minus_one L.one s.right_y
      × InRange L L.nought L.one s.left_trigger
      × InRange L L.nought L.one s.right_trigger
unfolding to_json
to_json-InRange L report pad laws =
    let axis = λ (v : L.F).
      clamp_for_json-InRange L v L.minus_one L.one laws.irreflexive laws.minus_one_le_one in
    let trigger =
      λ (v : L.F). clamp_for_json-InRange L v L.nought L.one laws.irreflexive laws.nought_le_one in
    (
      axis pad.left_x,
      axis pad.left_y,
      axis pad.right_x,
      axis pad.right_y,
      trigger pad.left_trigger,
      trigger pad.right_trigger,
    )
