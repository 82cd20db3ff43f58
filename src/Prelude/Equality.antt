-- ===== src/Prelude/Equality.antt =====
-- Equality tests as an interface, with instances for the keys the program uses.
use Prim.Native.Nat.{ℕ}
use Prim.Native.String.{String}
use text.Mathlib.Text.{◌==◌ as str_eq}
use text.Mathlib.TextEquality.{eq_iff}
use mathlib.Core.Path.{◌≡◌, refl}
use mathlib.Core.Logic.{◌↔◌}
use mathlib.Core.Bool.{Bool, true, ◌&&◌}
use native.Mathlib.Omega.{arith}
use pi_webrtc.Prelude.Tests.{eqb, eqb_iff}

-- A type of keys, with the test by which a map finds them.
pub record Eq {ℓ} (K : Type ℓ) : Type ℓ where
  pub matches : K → K → Bool
  pub matches_iff : (k l : K) → (matches k l ≡ true) ↔ (k ≡ l)

instance abbrev pub string_eq : Eq String
string_eq = record { matches = str_eq; matches_iff = eq_iff }

instance abbrev pub nat_eq : Eq ℕ
nat_eq = record { matches = eqb; matches_iff = eqb_iff }

infix 50 ◌==◌
abbrev pub ◌==◌ {ℓ} : {K : Type ℓ} ⦃keys : Eq K⦄ → K → K → Bool
◌==◌ ⦃keys⦄ k l = keys.matches k l

pub ==_iff {ℓ} : {K : Type ℓ} ⦃keys : Eq K⦄ → (k l : K) → ((k == l) ≡ true) ↔ (k ≡ l)
==_iff ⦃keys⦄ k l = keys.matches_iff k l

pub ==_refl {ℓ} : {K : Type ℓ} ⦃keys : Eq K⦄ → (k : K) → (k == k) ≡ true
==_refl k = (==_iff k k).1 refl

module _ {A B : Type 0} ⦃e : Eq A⦄ ⦃f : Eq B⦄ where
  abbrev pub pair_matches : A × B → A × B → Bool
  pair_matches (a, b) (c, d) = e.matches a c && f.matches b d

  pub pair_matches_iff : (p q : A × B) → (pair_matches p q ≡ true) ↔ (p ≡ q)
  pair_matches_iff (a, b) (c, d) = ground (arith, e.matches_iff a c, f.matches_iff b d)

  instance abbrev pub pair_eq : Eq (A × B)
  pair_eq = record { matches = pair_matches; matches_iff = pair_matches_iff }
