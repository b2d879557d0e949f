-- ===== src/Prelude/Classes.antt =====
-- Decidable equality as an interface, with Go's `==` on numbers, strings and pairs.
use Prim.Native.Nat.{ℕ}
use Prim.Native.String.{String}
use mathlib.Core.Path.{◌≡◌, refl}
use mathlib.Core.Logic.{◌↔◌}
use mathlib.Core.Bool.{Bool, true, not}
use text.Mathlib.Text.{◌==◌ as str_eq}
use text.Mathlib.TextEquality.{eq_iff}
use go_signing_server_anywhe.Prelude.Tests.{nat_beq, nat_beq_iff}
use go_signing_server_anywhe.Prelude.Int.{ℤ, int_beq, int_beq_iff}

-- A type with a test of equality that is right on all its elements.
pub record Eq {ℓ} (K : Type ℓ) : Type ℓ where
  pub same : K → K → Bool
  pub same_iff : (j k : K) → (same j k ≡ true) ↔ (j ≡ k)

infix 50 ◌==◌ ◌!=◌
abbrev pub ◌!=◌ {ℓ} : {K : Type ℓ} ⦃e : Eq K⦄ (j k : K) → Bool
◌!=◌ ⦃e⦄ j k = not (e.same j k)

abbrev pub ◌==◌ {ℓ} : {K : Type ℓ} ⦃e : Eq K⦄ (j k : K) → Bool
◌==◌ ⦃e⦄ j k = e.same j k

-- Shut, so that a test of two strings is one unknown to the tactics.
unfoldable pub string_beq : String → String → Bool
string_beq a b = str_eq a b

pub string_beq_iff : (a b : String) → (string_beq a b ≡ true) ↔ (a ≡ b)
unfolding string_beq
string_beq_iff a b = eq_iff a b

instance abbrev pub string_eq : Eq String
string_eq = record { same = string_beq; same_iff = string_beq_iff }

instance abbrev pub int_eq : Eq ℤ
int_eq = record { same = int_beq; same_iff = int_beq_iff }

instance abbrev pub nat_eq : Eq ℕ
nat_eq = record { same = nat_beq; same_iff = nat_beq_iff }

pub beq_refl {ℓ} : {A : Type ℓ} ⦃e : Eq A⦄ (a : A) → (a == a) ≡ true
beq_refl ⦃e⦄ a = (e.same_iff a a).1 refl
