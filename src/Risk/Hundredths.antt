-- ===== src/Risk/Hundredths.antt =====
-- Numbers in hundredths, an instance of the floats of risk.go and hydrology.go.
use aura_risk.Base.{ℕ, suc, ◌+◌, ◌-◌, ◌*◌, ◌≤◌, ◌<◌, ◌≡◌, ap, true, false, leb, arith}
use Prim.Native.Nat.{◌/◌}
use native.Mathlib.Nat.{le-div_iff_mul-le, mul-div-le, mul-le-mul_right, mul-le-mul_left}
use aura_risk.Base.Int.{pos}
use aura_risk.Risk.Float.{Floats, IsMonotone}

quotient_mono : (a b c : ℕ) → a ≤ b → a / suc c ≤ b / suc c
quotient_mono a b c h =
    let reach = mul-div-le a (suc c) in
    (le-div_iff_mul-le {k = suc c} {x = a / suc c} {y = b} (omega arith)).1 (omega (arith, reach))

abbrev pub hundredths : Floats
hundredths = record {
  F = ℕ;
  le = leb;
  lit = λ n d. n * 100 / suc (d - 1);
  add = λ a b. a + b;
  sub = λ a b. a - b;
  mul = λ a b. a * b / 100;
  div = λ a b. a * 100 / suc (b - 1);
  truncate = λ a. pos (a / 100);
}

quotient_anti : (a c d : ℕ) → c ≤ d → a / suc d ≤ a / suc c
quotient_anti a c d h =
    let reach = mul-div-le a (suc d) in
    let wider = mul-le-mul_left {m = suc c} {n = suc d} (a / suc d) (omega arith) in
    (le-div_iff_mul-le {k = suc c} {x = a / suc d} {y = a} (omega arith)).1
      (omega (arith, reach, wider))

positive_quotient : (n d : ℕ) → 0 < n → 0 < d → d ≤ 100 → 1 ≤ n * 100 / suc (d - 1)
positive_quotient n d p q r =
    (le-div_iff_mul-le {k = suc (d - 1)} {x = 1} {y = n * 100} (omega arith)).1 (omega arith)

above : (a b : ℕ) → a ≤ b → leb a b ≡ true
above a b h = ground arith

below : (a b : ℕ) → leb a b ≡ true → a ≤ b
below a b h = ground arith

pub hundredths-IsMonotone : IsMonotone hundredths
hundredths-IsMonotone = record {
  le_refl = λ a. ground arith;
  le_trans = λ a b c h k. ground arith;
  le_total = λ a b h. ground arith;
  add_mono = λ a b c d h k. ground arith;
  sub_mono = λ a b c h. ground arith;
  mul_mono =
      λ a b c h k. above _ _ (quotient_mono (a * c) (b * c) 99 (mul-le-mul_right c (below a b k)));
  div_mono = λ a b c h k.
      above _ _ (quotient_mono (a * 100) (b * 100) (c - 1) (mul-le-mul_right 100 (below a b k)));
  div_anti = λ a c d h k l.
      above _ _ (quotient_anti (a * 100) (c - 1) (d - 1) (omega (arith, below c d l)));
  lit_mono =
      λ n m d h. above _ _ (quotient_mono (n * 100) (m * 100) (d - 1) (mul-le-mul_right 100 h));
  lit_nonneg = λ n d. above _ _ (omega arith);
  lit_pos = λ n d h k l. not_above _ _ (positive_quotient n d h k l);
  truncate_mono = λ a b h. omega (arith, quotient_mono a b 99 (below a b h));
  truncate_lit = λ n h. ap pos (whole n);
}
  where
    not_above : (a b : ℕ) → b < a → leb a b ≡ false
    not_above a b h = ground arith

    whole : (n : ℕ) → (n * 100 / suc 0) / 100 ≡ n
    whole n = omega arith
