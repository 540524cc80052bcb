-- ===== src/Prelude/Eq.antt =====
-- Types whose values Go compares by `==`.
use Prim.Native.Nat.{ℕ}
use Prim.Native.String.{String}
use mathlib.Core.Path.{◌≡◌}
use mathlib.Core.Logic.{◌↔◌}
use mathlib.Core.Bool.{Bool, true}
use native.Mathlib.Omega.{arith}
use text.Mathlib.Text.{◌==◌ as str_eq}
use text.Mathlib.TextEquality.{eq_iff}
use yu_clash.Prelude.Tests.{◌==◌}

pub record Equality {ℓ} (A : Type ℓ) : Type ℓ where
  pub equal : A → A → Bool
  pub equal_iff : (a b : A) → (equal a b ≡ true) ↔ (a ≡ b)

abbrev pub beq {ℓ} : {A : Type ℓ} ⦃e : Equality A⦄ → A → A → Bool
beq ⦃e⦄ = e.equal

pub equal_numbers : (a b : ℕ) → ((a == b) ≡ true) ↔ (a ≡ b)
equal_numbers a b = ground arith

instance abbrev pub nat_equality : Equality ℕ
nat_equality = record { equal = ◌==◌; equal_iff = equal_numbers }

instance abbrev pub string_equality : Equality String
string_equality = record { equal = str_eq; equal_iff = eq_iff }
