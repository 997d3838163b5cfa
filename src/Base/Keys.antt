-- ===== src/Base/Keys.antt =====
-- Keys of finite maps: a type with a test that decides equality. The program's keys are numbers
-- and texts.
use Prim.Native.Nat.{ℕ}
use Prim.Native.String.{String}
use mathlib.Core.Path.{◌≡◌}
use mathlib.Core.Logic.{◌↔◌}
use mathlib.Core.Bool.{Bool, true}
use text.Mathlib.Text.{◌==◌ as same_text}
use text.Mathlib.TextEquality.{eq_iff}
use project_whitequbit.Base.Tests.{nat_eqb, nat_eqb_iff}

pub record Key {ℓ} (K : Type ℓ) : Type ℓ where
  pub same : K → K → Bool
  pub decides : (j k : K) → (same j k ≡ true) ↔ (j ≡ k)

-- The keys of the journal, and those of rules and actions.
instance abbrev pub number_key : Key ℕ
number_key = record { decides = nat_eqb_iff; same = nat_eqb }

instance abbrev pub text_key : Key String
text_key = record { decides = eq_iff; same = same_text }

infix 50 ◌==◌
abbrev pub ◌==◌ {ℓ} : {K : Type ℓ} ⦃key : Key K⦄ → K → K → Bool
◌==◌ ⦃key⦄ j k = key.same j k

pub ==_iff {ℓ} : {K : Type ℓ} ⦃key : Key K⦄ (j k : K) → ((j == k) ≡ true) ↔ (j ≡ k)
==_iff ⦃key⦄ j k = key.decides j k
