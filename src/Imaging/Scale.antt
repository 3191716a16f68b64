-- ===== src/Imaging/Scale.antt =====
-- imaging.go: the size of a resized photo.
use aura_risk.Base.{
  ℕ, ◌+◌, ◌*◌, ◌/◌, ◌≤◌, ◌<◌, ◌≡◌, inl, inr, ◌||◌, ltb, leb, max, arith, Bool-cases,
}
use native.Mathlib.Nat.{
  mul-div-le, div-le_of_le-mul, mul-le-mul_right, mul-le-mul_left, lt-mul-div-succ,
}
use aura_risk.Imaging.{at_least_1, resized}

scaled-le : (a b edge : ℕ) → a ≤ b → 0 < b → a * edge / b ≤ edge
scaled-le a b edge h p = div-le_of_le-mul b (mul-le-mul_right edge h)

-- The sides of a resized photo: at least one pixel, no longer than they were or than the edge, and in
-- proportion but for less than the longer side by one pixel of the other.
pub record IsResized (edge w h w' h' : ℕ) : Type 0 where
  pub some_width : 1 ≤ w'
  pub some_height : 1 ≤ h'
  pub within_width : (w' ≤ edge) × (w' ≤ w)
  pub within_height : (h' ≤ edge) × (h' ≤ h)
  pub proportion : (w * h' ≤ h * w' + max w h) × (h * w' ≤ w * h' + max w h)

-- The shorter side b beside the longer side a, which becomes the edge.
shorter :
    (edge a b : ℕ)
    → 0 < edge
    → 0 < b
    → b ≤ a
    → edge < a
    → (b * edge / a ≤ edge)
      × (b * edge / a ≤ b)
      × (a * (b * edge / a) ≤ b * edge)
      × (b * edge ≤ a * (b * edge / a) + a)
shorter edge a b e p h k =
    let to_edge = scaled-le b a edge h (omega arith) in
    let under = mul-le-mul_left {m = edge} {n = a} b (omega arith) in
    let exact = mul-div-le (b * edge) a in
    let next = lt-mul-div-succ (b * edge) {b = a} (omega arith) in
    (to_edge, div-le_of_le-mul a (omega (arith, under)), exact, omega (arith, next))

long_width :
    (edge w h : ℕ)
    → 0 < edge
    → 0 < h
    → h ≤ w
    → edge < w
    → IsResized edge w h edge (at_least_1 (h * edge / w))
long_width edge w h e p k l =
    let (to_edge, under, exact, next) = shorter edge w h e p k l in
    elim (Bool-cases (ltb (h * edge / w) 1)) [
      | inl none_left ↦
          let zero_side : h * edge / w ≡ 0 = ground (arith, none_left) in
          let short = rw zero_side at next in
          rw none_left (record {
            some_width = omega arith;
            some_height = omega arith;
            within_width = (omega arith, omega arith);
            within_height = (omega arith, omega arith);
            proportion = (omega arith, omega (arith, short));
          })
      | inr left ↦ rw left (record {
        some_width = omega arith;
        some_height = ground (arith, left);
        within_width = (omega arith, omega arith);
        within_height = (to_edge, under);
        proportion = (omega (arith, exact), omega (arith, next));
      })
    ]

-- Exchanging the sides.
turned : (edge w h w' h' : ℕ) → IsResized edge w h w' h' → IsResized edge h w h' w'
turned edge w h w' h' r = record {
  some_width = r.some_height;
  some_height = r.some_width;
  within_width = r.within_height;
  within_height = r.within_width;
  proportion = (omega (arith, r.proportion.1), omega (arith, r.proportion.0));
}

-- A photo of any size is encoded with sides of at least one pixel, no longer than the edge or than
-- they were, and in proportion but for one pixel.
pub resized-IsResized :
    (edge w h : ℕ)
    → 0 < edge
    → 0 < w
    → 0 < h
    → IsResized edge w h (resized edge w h).0 (resized edge w h).1
unfolding resized
resized-IsResized edge w h e p q = elim (Bool-cases (ltb edge w || ltb edge h)) [
  | inr fits ↦ rw fits (kept (ground (arith, fits)) (ground (arith, fits)))
  | inl larger ↦ elim (Bool-cases (leb h w)) [
    | inl wide ↦
        rw (larger, wide, exact_edge)
          (long_width edge w h e q (ground (arith, wide)) (ground (arith, larger, wide)))
    | inr tall ↦
        rw (larger, tall, exact_edge)
          (turned edge h w edge (at_least_1 (w * edge / h))
            (long_width edge h w e p (ground (arith, tall)) (ground (arith, larger, tall))))
  ]
]
  where
    exact_edge : at_least_1 edge ≡ edge
    exact_edge = ground (arith, e)

    kept : w ≤ edge → h ≤ edge → IsResized edge w h (at_least_1 w) (at_least_1 h)
    kept a b =
        let one_w : at_least_1 w ≡ w = ground (arith, p) in
        let one_h : at_least_1 h ≡ h = ground (arith, q) in
        rw (one_w, one_h)
          (record {
            some_width = p;
            some_height = q;
            within_width = (a, omega arith);
            within_height = (b, omega arith);
            proportion = (omega arith, omega arith);
          })
