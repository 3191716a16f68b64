-- ===== src/Imaging/Turn.antt =====
-- imaging.go: applyOrientation moves every pixel, and loses none.
use aura_risk.Base.{
  ℕ, zero, suc, ◌≤◌, ◌<◌, ◌≡◌, refl, sym, ap, subst, ◌∙◌, inl, inr, true, false, ◌&&◌, ◌||◌, ltb,
  leb, ◌==◌, if◌then◌else◌, arith, Bool-cases,
}
use aura_risk.Imaging.{
  Image, target, set_pixel, turn_row, turn_rows, turned_image, apply_orientation,
}

-- The orientation that turns a photo back.
abbrev pub inverse : ℕ → ℕ
inverse orientation = if orientation == 6 then 8 else if orientation == 8 then 6 else orientation

abbrev turned_width : ℕ → ℕ → ℕ → ℕ
turned_width o w h = if leb 5 o then h else w

abbrev turned_height : ℕ → ℕ → ℕ → ℕ
turned_height o w h = if leb 5 o then w else h

-- Every place goes to one of the turned photo, from which the inverse brings it back.
target-inverse :
    (o w h x y : ℕ)
    → 2 ≤ o
    → o ≤ 8
    → x < w
    → y < h
    → ((target o w h x y).0 < turned_width o w h)
      × ((target o w h x y).1 < turned_height o w h)
      × (target
            (inverse o)
            (turned_width o w h)
            (turned_height o w h)
            (target o w h x y).0
            (target o w h x y).1
          ≡ (x, y))
unfolding target
target-inverse o w h x y a b c d = ground arith

-- No two places go to one.
target-apart :
    (o w h x y x' y' : ℕ)
    → 2 ≤ o
    → o ≤ 8
    → x < w
    → y < h
    → x' < w
    → y' < h
    → ((target o w h x y).0 == (target o w h x' y').0) ≡ true
    → ((target o w h x y).1 == (target o w h x' y').1) ≡ true
    → (x ≡ x') × (y ≡ y')
unfolding target
target-apart o w h x y x' y' a b c d c' d' e f = ground (arith, e, f)

module _ (o : ℕ) (src : Image) (low : 2 ≤ o) (high : o ≤ 8) where
  abbrev place : ℕ → ℕ → ℕ × ℕ
  place x y = target o src.width src.height x y

  -- A pixel that is set, seen from the place of another.
  set-apart :
      (pixels : ℕ → ℕ → ℕ) (x y x' y' : ℕ)
      → x < src.width
      → y < src.height
      → x' < src.width
      → y' < src.height
      → (x' ≡ x → y' ≡ y → ⊥)
      → set_pixel pixels (place x y) (src.pixel x y) (place x' y').0 (place x' y').1
        ≡ pixels (place x' y').0 (place x' y').1
  set-apart pixels x y x' y' a b a' b' other =
      elim (Bool-cases ((place x' y').0 == (place x y).0 && (place x' y').1 == (place x y).1)) [
        | inr apart ↦ rw apart refl
        | inl same ↦
            let (e, f) =
              target-apart o src.width src.height x' y' x y low high a' b' a b
                (ground (arith, same)) (ground (arith, same)) in
            absurd (other e f)
      ]

  set-here :
      (pixels : ℕ → ℕ → ℕ) (p : ℕ × ℕ) (colour : ℕ) → set_pixel pixels p colour p.0 p.1 ≡ colour
  set-here pixels p colour = ground arith

  turn_row-apart :
      (y n : ℕ) (pixels : ℕ → ℕ → ℕ) (x' y' : ℕ)
      → n ≤ src.width
      → y < src.height
      → x' < src.width
      → y' < src.height
      → (y' ≡ y → n ≤ x')
      → turn_row o src y n pixels (place x' y').0 (place x' y').1
        ≡ pixels (place x' y').0 (place x' y').1
  unfolding turn_row
  turn_row-apart y zero pixels x' y' h b a' b' other = refl
  turn_row-apart y (suc n) pixels x' y' h b a' b' other =
      set-apart (turn_row o src y n pixels) n y x' y' (omega arith) b a' b'
        (λ e f. omega (arith, e, other f))
      ∙ turn_row-apart y n pixels x' y' (omega arith) b a' b' (λ f. omega (arith, other f))

  turn_row-here :
      (y n : ℕ) (pixels : ℕ → ℕ → ℕ) (x : ℕ)
      → n ≤ src.width
      → y < src.height
      → x < n
      → turn_row o src y n pixels (place x y).0 (place x y).1 ≡ src.pixel x y
  unfolding turn_row
  turn_row-here y zero pixels x h b a = absurd (omega arith)
  turn_row-here y (suc n) pixels x h b a = elim (Bool-cases (x == n)) [
    | inl last ↦
        let e : x ≡ n = ground (arith, last) in
        subst (λ i. turn_row o src y (suc n) pixels (place i y).0 (place i y).1 ≡ src.pixel i y)
          (sym e) (set-here (turn_row o src y n pixels) (place n y) (src.pixel n y))
    | inr before ↦
        set-apart (turn_row o src y n pixels) n y x y (omega arith) b (omega arith) b
          (λ e f. ground (arith, e, before))
        ∙ turn_row-here y n pixels x (omega arith) b (ground (arith, before))
  ]

  turn_rows-here :
      (n : ℕ) (pixels : ℕ → ℕ → ℕ) (x y : ℕ)
      → n ≤ src.height
      → x < src.width
      → y < n
      → turn_rows o src n pixels (place x y).0 (place x y).1 ≡ src.pixel x y
  unfolding turn_rows
  turn_rows-here zero pixels x y h a b = absurd (omega arith)
  turn_rows-here (suc n) pixels x y h a b = elim (Bool-cases (y == n)) [
    | inl last ↦
        let e : y ≡ n = ground (arith, last) in
        subst (λ i. turn_rows o src (suc n) pixels (place x i).0 (place x i).1 ≡ src.pixel x i)
          (sym e)
          (turn_row-here n src.width (turn_rows o src n pixels) x (omega arith) (omega arith) a)
    | inr before ↦
        turn_row-apart n src.width (turn_rows o src n pixels) x y (omega arith) (omega arith) a
          (omega arith) (λ e. absurd (ground (arith, e, before)))
        ∙ turn_rows-here n pixels x y (omega arith) a (ground (arith, before))
  ]

-- The two photos have one size, and one colour at each place.
pub record Shows (a b : Image) : Type 0 where
  pub width : a.width ≡ b.width
  pub height : a.height ≡ b.height
  pub pixels : (x y : ℕ) → x < b.width → y < b.height → a.pixel x y ≡ b.pixel x y

turned_image-target :
    (src : Image) (o x y : ℕ)
    → 2 ≤ o
    → o ≤ 8
    → x < src.width
    → y < src.height
    → (turned_image src o).pixel
        (target o src.width src.height x y).0
        (target o src.width src.height x y).1
      ≡ src.pixel x y
unfolding turned_image
turned_image-target src o x y low high a b =
    turn_rows-here o src low high src.height (λ i j. 0) x y (omega arith) a b

turned_image-inverse :
    (src : Image) (o : ℕ)
    → 2 ≤ o
    → o ≤ 8
    → Shows (turned_image (turned_image src o) (inverse o)) src
unfolding turned_image
turned_image-inverse src o low high = record {
  width = ground arith;
  height = ground arith;
  pixels = λ x y a b.
      let (c, d, back) = target-inverse o src.width src.height x y low high a b in
      ap (λ q. (turned_image (turned_image src o) (inverse o)).pixel q.0 q.1) (sym back)
      ∙ turned_image-target (turned_image src o) (inverse o) (target o src.width src.height x y).0
          (target o src.width src.height x y).1 (ground arith) (ground arith) c d
      ∙ turned_image-target src o x y low high a b;
}

-- Turning a photo by its orientation and then by the inverse shows it again, so that a turn loses no
-- pixel; numbers that are no orientation leave it.
pub apply_orientation-inverse :
    (src : Image) (orientation : ℕ)
    → Shows (apply_orientation (apply_orientation src orientation) (inverse orientation)) src
unfolding apply_orientation
apply_orientation-inverse src o = elim (Bool-cases (leb o 1 || ltb 8 o)) [
  | inl none_of_them ↦
      let same : inverse o ≡ o = ground (arith, none_of_them) in
      rw (none_of_them, same, none_of_them)
        (record { width = refl; height = refl; pixels = λ x y a b. refl })
  | inr turns ↦
      let inside : (leb (inverse o) 1 || ltb 8 (inverse o)) ≡ false = ground (arith, turns) in
      rw (turns, inside)
        (turned_image-inverse src o (ground (arith, turns)) (ground (arith, turns)))
]
