-- ===== src/Base/Float.antt =====
-- Python's floats, as far as the source computes with them: a type with operations and no laws.
-- `trunc` is int(x), `round` is round(x); both are taken at finite values only.
use Prim.Native.Nat.{◌/◌, ◌+◌}
use mathlib.Core.Bool.{Bool}
use android_appliance.Base.Int.{ℤ, pos, ltb_ℤ, ◌+ℤ◌, ◌-ℤ◌, ◌*ℤ◌, pos_part, neg_part, sub_ℕ}

pub record Floats : Type 1 where
  pub F : Type 0
  pub add : F → F → F
  pub sub : F → F → F
  pub mul : F → F → F
  pub div : F → F → F
  pub hypot : F → F → F
  pub lt : F → F → Bool
  pub of_int : ℤ → F
  pub round : F → ℤ
  pub trunc : F → ℤ

-- The whole numbers, with division towards zero: an instance for examples.
abbrev pub whole : Floats
whole = record {
  F = ℤ;
  add = ◌+ℤ◌;
  sub = ◌-ℤ◌;
  mul = ◌*ℤ◌;
  div = λ a b.
      sub_ℕ (pos_part a / (pos_part b + neg_part b)) (neg_part a / (pos_part b + neg_part b));
  hypot = λ a b. pos (pos_part a + neg_part a + pos_part b + neg_part b);
  lt = ltb_ℤ;
  of_int = λ z. z;
  round = λ z. z;
  trunc = λ z. z;
}
