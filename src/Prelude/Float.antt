-- ===== src/Prelude/Float.antt =====
-- All that the modelled code does with an `f32`. The hardware's arithmetic is a parameter.
use Prim.Native.Nat.{ℕ, ◌+◌, ◌*◌, ◌/◌}
use mathlib.Core.Path.{◌≡◌}
use mathlib.Core.Bool.{Bool, true}
use mathlib.Core.Logic.{◌⊎◌}
use native.Mathlib.Omega.{arith}
use opencaw.Prelude.Tests.{ltb, leb}

pub record Float (F : Type 0) : Type 0 where
  -- `lit n d` is the literal that is nearest to n / d
  pub lit : ℕ → ℕ → F
  pub epsilon : F
  pub lt : F → F → Bool
  pub le : F → F → Bool
  -- `a.total_cmp(&b) != Greater`
  pub total_le : F → F → Bool
  pub add : F → F → F
  pub mul : F → F → F
  pub div : F → F → F
  -- `n as f32`, and `x as usize`, which saturates
  pub of_ℕ : ℕ → F
  pub to_ℕ : F → ℕ

-- What IEEE 754 says of `<` and `total_cmp`. `is_num` is false of NaN.
pub record IsIeee {F : Type 0} (fl : Float F) (is_num : F → Bool) : Type 0 where
  pub total : (a b : F) → (fl.total_le a b ≡ true) ⊎ (fl.total_le b a ≡ true)
  pub trans : (a b c : F) → fl.total_le a b ≡ true → fl.total_le b c ≡ true → fl.total_le a c ≡ true
  pub lt_of_total :
      (a b u : F) → is_num a ≡ true → fl.total_le a b ≡ true → fl.lt b u ≡ true → fl.lt a u ≡ true

-- The laws can be met: hundredths, without NaN.
instance abbrev pub hundredths : Float ℕ
hundredths = record {
  lit = λ n d. n * 100 / d;
  epsilon = 1;
  lt = ltb;
  le = leb;
  total_le = leb;
  add = λ a b. a + b;
  mul = λ a b. a * b / 100;
  div = λ a b. a * 100 / b;
  of_ℕ = λ n. n * 100;
  to_ℕ = λ a. a / 100;
}

abbrev pub always_num : ℕ → Bool
always_num a = true

pub hundredths-IsIeee : IsIeee hundredths always_num
hundredths-IsIeee = record {
  total = λ a b. ground arith;
  trans = λ a b c h k. ground arith;
  lt_of_total = λ a b u n h k. ground arith;
}
