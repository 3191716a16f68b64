-- ===== src/Imaging/Examples.antt =====
-- The photos of imaging.go at concrete inputs.
use aura_risk.Base.{ℕ, ◌+◌, ◌*◌, ◌≡◌, refl, List, [], ◌∷◌}
use aura_risk.Imaging.{Image, resized, target, turn_row, turn_rows, turned_image, apply_orientation}
use aura_risk.Imaging.Turn.{Shows, inverse, apply_orientation-inverse}
use aura_risk.Imaging.Exif.{
  orientation, uint16, uint32, entries_from, directory, exif_orientation, at_segment, segments_from,
  jpeg_orientation,
}
use aura_risk.Imaging.Upright.{Upright, jpeg_orientation-Upright}
use aura_risk.Risk.{slice_from}

large_photo : resized 1600 4000 3000 ≡ (1600, 1200)
unfolding resized
large_photo = refl

-- A photo of two columns and three rows.
abbrev photo : Image
photo = record { width = 2; height = 3; pixel = λ x y. x + 2 * y }

turn_example : Shows (apply_orientation (apply_orientation photo 6) (inverse 6)) photo
turn_example = apply_orientation-inverse photo 6

turned_corner : (apply_orientation photo 6).pixel 2 0 ≡ 0
unfolding apply_orientation turned_image turn_rows turn_row target
turned_corner = refl

-- A JPEG whose EXIF data name orientation 6.
abbrev jpeg : List ℕ
jpeg =
    0xFF ∷ 0xD8 ∷ 0xFF ∷ 0xE1 ∷ 0 ∷ 30 ∷ 69 ∷ 120 ∷ 105 ∷ 102 ∷ 0 ∷ 0 ∷ 77 ∷ 77 ∷ 0 ∷ 42 ∷ 0 ∷ 0 ∷ 0
    ∷ 8 ∷ 0 ∷ 1 ∷ 1 ∷ 0x12 ∷ 0 ∷ 3 ∷ 0 ∷ 0 ∷ 0 ∷ 1 ∷ 0 ∷ 6 ∷ 0 ∷ 0 ∷ 0xFF ∷ 0xD9 ∷ []

names_six : jpeg_orientation jpeg ≡ orientation 6
unfolding jpeg_orientation segments_from at_segment exif_orientation directory entries_from uint32
    uint16 slice_from
names_six = refl

jpeg_example : Upright (jpeg_orientation jpeg)
jpeg_example = jpeg_orientation-Upright jpeg
