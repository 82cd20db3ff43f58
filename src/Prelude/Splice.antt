-- ===== src/Prelude/Splice.antt =====
-- Elements by position, and overwriting a stretch of a list.
use Prim.Native.Nat.{ℕ, zero, suc, ◌+◌, ◌-◌, ◌≤◌, ◌<◌}
use mathlib.Core.Path.{◌≡◌, refl, ap, sym, ◌∙◌}
use mathlib.Core.List.{List, [], ◌∷◌, ◌++◌}
use mathlib.Core.Bool.{◌&&◌}
use mathlib.Core.Option.{Option, none, some}
use native.Mathlib.Omega.{arith}
use pi_webrtc.Prelude.Tests.{if◌then◌else◌, ltb, leb}
use pi_webrtc.Prelude.Lists.{length, take, drop, length-append, length-take, length-drop}

sub-zero : (i : ℕ) → i - 0 ≡ i
sub-zero i = omega arith

suc_plus : (n i : ℕ) → suc n + i ≡ suc (n + i)
suc_plus n i = omega arith

module _ {A : Type 0} where
  abbrev pub get_elem? : List A → ℕ → Option A
  get_elem? [] i = none
  get_elem? (x ∷ xs) zero = some x
  get_elem? (x ∷ xs) (suc i) = get_elem? xs i

  -- `std::string::replace(pos, bytes.size(), bytes)` where `pos` lies within `xs`.
  abbrev pub splice : ℕ → List A → List A → List A
  splice pos bytes xs = take pos xs ++ (bytes ++ drop (pos + length bytes) xs)

module _ {A : Type 0} where
  pub get_elem?-append :
      (xs ys : List A) (i : ℕ)
      → get_elem? (xs ++ ys) i
        ≡ (if ltb i (length xs) then get_elem? xs i else get_elem? ys (i - length xs))
  get_elem?-append [] ys i = ground (arith, ap (get_elem? ys) (sub-zero i))
  get_elem?-append (x ∷ xs) ys zero = ground arith
  get_elem?-append (x ∷ xs) ys (suc i) = ground (arith, get_elem?-append xs ys i)

  pub get_elem?-take :
      (n : ℕ) (xs : List A) (i : ℕ)
      → get_elem? (take n xs) i ≡ (if ltb i n then get_elem? xs i else none)
  get_elem?-take zero xs i = ground arith
  get_elem?-take (suc n) [] i = ground arith
  get_elem?-take (suc n) (x ∷ xs) zero = ground arith
  get_elem?-take (suc n) (x ∷ xs) (suc i) = ground (arith, get_elem?-take n xs i)

  pub get_elem?-drop :
      (n : ℕ) (xs : List A) (i : ℕ) → get_elem? (drop n xs) i ≡ get_elem? xs (n + i)
  get_elem?-drop zero xs i = ap (get_elem? xs) (omega arith)
  get_elem?-drop (suc n) [] i = refl
  get_elem?-drop (suc n) (x ∷ xs) i = get_elem?-drop n xs i ∙ sym (rw (suc_plus n i) refl)

  pub get_elem?_ext :
      (xs ys : List A)
      → length xs ≡ length ys
      → ((i : ℕ) → i < length ys → get_elem? xs i ≡ get_elem? ys i)
      → xs ≡ ys
  get_elem?_ext [] [] e h = refl
  get_elem?_ext [] (y ∷ ys) e h = absurd (omega arith)
  get_elem?_ext (x ∷ xs) [] e h = absurd (omega arith)
  get_elem?_ext (x ∷ xs) (y ∷ ys) e h =
      let tails = get_elem?_ext xs ys (omega arith) (λ i l. h (suc i) (omega arith)) in
      ground (arith, tails, h 0 (omega arith))

  pub length-splice :
      (pos : ℕ) (bytes xs : List A)
      → pos + length bytes ≤ length xs
      → length (splice pos bytes xs) ≡ length xs
  length-splice pos bytes xs h = omega (
    arith,
    length-append (take pos xs) (bytes ++ drop (pos + length bytes) xs),
    length-append bytes (drop (pos + length bytes) xs),
    length-take pos xs,
    length-drop (pos + length bytes) xs,
  )

  pub get_elem?-splice :
      (pos : ℕ) (bytes xs : List A) (i : ℕ)
      → pos + length bytes ≤ length xs
      → get_elem? (splice pos bytes xs) i ≡ (
          if leb pos i && ltb i (pos + length bytes)
          then get_elem? bytes (i - pos)
          else get_elem? xs i)
  get_elem?-splice pos bytes xs i h = ground (
    arith,
    get_elem?-append (take pos xs) (bytes ++ drop (pos + length bytes) xs) i,
    get_elem?-append bytes (drop (pos + length bytes) xs) (i - length (take pos xs)),
    length-take pos xs,
    get_elem?-take pos xs i,
    get_elem?-drop (pos + length bytes) xs (i - length (take pos xs) - length bytes),
  )
