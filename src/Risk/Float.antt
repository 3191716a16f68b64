-- ===== src/Risk/Float.antt =====
-- Go's float64, as far as risk.go and hydrology.go use it.
use aura_risk.Base.{ℕ, ◌≤◌, ◌<◌, ◌≡◌, Bool, true, false}
use aura_risk.Base.Int.{ℤ, pos, ◌≤ℤ◌}

-- The operations; `lit n d` is the float next to n/d, and `truncate` the conversion to int of a
-- float that is in the range of int, towards zero.
pub record Floats : Type 1 where
  pub F : Type 0
  pub le : F → F → Bool
  pub lit : ℕ → ℕ → F
  pub add : F → F → F
  pub sub : F → F → F
  pub mul : F → F → F
  pub div : F → F → F
  pub truncate : F → ℤ

module _ (fl : Floats) where
  open fl use {F, le, lit, add, sub, mul, div, truncate}

  -- What IEEE 754 says of them: the order is total, and rounding keeps it.
  pub record IsMonotone : Type 0 where
    pub le_refl : (a : F) → le a a ≡ true
    pub le_trans : (a b c : F) → le a b ≡ true → le b c ≡ true → le a c ≡ true
    pub le_total : (a b : F) → le a b ≡ false → le b a ≡ true
    pub add_mono : (a b c d : F) → le a b ≡ true → le c d ≡ true → le (add a c) (add b d) ≡ true
    pub sub_mono : (a b c : F) → le a b ≡ true → le (sub a c) (sub b c) ≡ true
    pub mul_mono :
        (a b c : F) → le (lit 0 1) c ≡ true → le a b ≡ true → le (mul a c) (mul b c) ≡ true
    pub div_mono :
        (a b c : F) → le c (lit 0 1) ≡ false → le a b ≡ true → le (div a c) (div b c) ≡ true
    pub div_anti :
        (a c d : F)
        → le (lit 0 1) a ≡ true
        → le c (lit 0 1) ≡ false
        → le c d ≡ true
        → le (div a d) (div a c) ≡ true
    pub lit_mono : (n m d : ℕ) → n ≤ m → le (lit n d) (lit m d) ≡ true
    pub lit_nonneg : (n d : ℕ) → le (lit 0 1) (lit n d) ≡ true
    pub lit_pos : (n d : ℕ) → 0 < n → 0 < d → d ≤ 100 → le (lit n d) (lit 0 1) ≡ false
    pub truncate_mono : (a b : F) → le a b ≡ true → truncate a ≤ℤ truncate b
    pub truncate_lit : (n : ℕ) → n ≤ 100 → truncate (lit n 1) ≡ pos n
