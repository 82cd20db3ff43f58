-- ===== src/Prelude/Lexical.antt =====
-- Texts that the program walks, as lists of bytes: their literals, and their lexical order.
use Prim.Native.Char.{code}
use Prim.Native.String.{String}
use mathlib.Core.Path.{◌≡◌, refl, ap, ◌∙◌, sym}
use mathlib.Core.Logic.{◌↔◌}
use mathlib.Core.Bool.{Bool, true, false, ◌&&◌}
use mathlib.Core.List.{[], ◌∷◌, ◌++◌}
use native.Mathlib.Omega.{arith}
use pi_webrtc.Prelude.Tests.{ltb, eqb, if◌then◌else◌}
use pi_webrtc.Prelude.Lists.{Bytes, length}
use pi_webrtc.Prelude.Equality.{Eq}

-- The bytes of an ASCII text.
abbrev pub codes : String → Bytes
codes String.[] = []
codes (String.◌∷◌ c s) = code c ∷ codes s

-- `operator<` of `std::string`.
abbrev pub bytes_ltb : Bytes → Bytes → Bool
bytes_ltb [] [] = false
bytes_ltb [] (b ∷ bs) = true
bytes_ltb (a ∷ as') [] = false
bytes_ltb (a ∷ as') (b ∷ bs) = if ltb a b then true else if ltb b a then false else bytes_ltb as' bs

-- `std::string::starts_with`.
abbrev pub starts_with : Bytes → Bytes → Bool
starts_with s [] = true
starts_with [] (b ∷ bs) = false
starts_with (a ∷ s) (b ∷ bs) = eqb a b && starts_with s bs

abbrev pub bytes_eqb : Bytes → Bytes → Bool
bytes_eqb [] [] = true
bytes_eqb [] (b ∷ bs) = false
bytes_eqb (a ∷ as') [] = false
bytes_eqb (a ∷ as') (b ∷ bs) = eqb a b && bytes_eqb as' bs

bytes_eqb_refl : (s : Bytes) → bytes_eqb s s ≡ true
bytes_eqb_refl [] = refl
bytes_eqb_refl (a ∷ s) = ground (arith, bytes_eqb_refl s)

bytes_eqb_eq : (s t : Bytes) → bytes_eqb s t ≡ true → s ≡ t
bytes_eqb_eq [] [] h = refl
bytes_eqb_eq [] (b ∷ t) h = cc
bytes_eqb_eq (a ∷ s) [] h = cc
bytes_eqb_eq (a ∷ s) (b ∷ t) h = ground (arith, bytes_eqb_eq s t)

pub bytes_eqb_iff : (s t : Bytes) → (bytes_eqb s t ≡ true) ↔ (s ≡ t)
bytes_eqb_iff s t = (bytes_eqb_eq s t, λ e. ap (bytes_eqb s) (sym e) ∙ bytes_eqb_refl s)

instance abbrev pub bytes_eq : Eq Bytes
bytes_eq = record { matches = bytes_eqb; matches_iff = bytes_eqb_iff }

pub bytes_ltb_irrefl : (s : Bytes) → bytes_ltb s s ≡ false
bytes_ltb_irrefl [] = refl
bytes_ltb_irrefl (a ∷ s) = ground (arith, bytes_ltb_irrefl s)

pub bytes_ltb_trans :
    (s t u : Bytes) → bytes_ltb s t ≡ true → bytes_ltb t u ≡ true → bytes_ltb s u ≡ true
bytes_ltb_trans [] [] u h k = cc
bytes_ltb_trans [] (b ∷ t) [] h k = cc
bytes_ltb_trans [] (b ∷ t) (c ∷ u) h k = refl
bytes_ltb_trans (a ∷ s) [] u h k = cc
bytes_ltb_trans (a ∷ s) (b ∷ t) [] h k = cc
bytes_ltb_trans (a ∷ s) (b ∷ t) (c ∷ u) h k = ground (arith, bytes_ltb_trans s t u)

-- Two different texts are ordered.
pub bytes_ltb_total : (s t : Bytes) → bytes_ltb s t ≡ false → bytes_ltb t s ≡ false → s ≡ t
bytes_ltb_total [] [] h k = refl
bytes_ltb_total [] (b ∷ t) h k = cc
bytes_ltb_total (a ∷ s) [] h k = cc
bytes_ltb_total (a ∷ s) (b ∷ t) h k = ground (arith, bytes_ltb_total s t)

-- Fronts of one length come first in the comparison.
pub bytes_ltb-append :
    (s t u v : Bytes)
    → length s ≡ length t
    → bytes_ltb (s ++ u) (t ++ v)
      ≡ (if bytes_ltb s t then true else if bytes_ltb t s then false else bytes_ltb u v)
bytes_ltb-append [] [] u v e = refl
bytes_ltb-append [] (b ∷ t) u v e = absurd (omega arith)
bytes_ltb-append (a ∷ s) [] u v e = absurd (omega arith)
bytes_ltb-append (a ∷ s) (b ∷ t) u v e = ground (arith, bytes_ltb-append s t u v)

pub bytes_geq_trans :
    (s t u : Bytes) → bytes_ltb t s ≡ false → bytes_ltb u t ≡ false → bytes_ltb u s ≡ false
bytes_geq_trans s t u h k =
    ground (arith, bytes_ltb_trans t u s, bytes_ltb_total t u, bytes_ltb u s, bytes_ltb t u)

pub bytes_ltb_asym : (s t : Bytes) → bytes_ltb s t ≡ true → bytes_ltb t s ≡ false
bytes_ltb_asym s t h = ground (arith, bytes_ltb_trans s t s, bytes_ltb_irrefl s)
