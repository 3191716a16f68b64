-- ===== src/Imaging.antt =====
-- aurarisk-backend/internal/services/imaging.go: the size of a resized photo, the orientation in its
-- EXIF data, and the turn that shows it upright. The codecs and the scaling of pixels are Go's and are
-- left out. A photo is its width, its height and a colour at each place; bytes are numbers.
pub mod Scale
pub mod Turn
pub mod Exif
pub mod Upright
mod Examples
use aura_risk.Base.{
  ℕ, zero, suc, ◌+◌, ◌-◌, ◌*◌, ◌/◌, ◌≤◌, ◌<◌, Bool, true, false, not, ◌&&◌, ◌||◌, Option, none,
  some, List, [], ◌∷◌, ltb, leb, ◌==◌, if◌then◌else◌, length, max,
}

abbrev pub large_max_edge : ℕ
large_max_edge = 1600

abbrev pub thumb_max_edge : ℕ
thumb_max_edge = 400

abbrev pub max_image_pixels : ℕ
max_image_pixels = 50_000_000

-- The test of ProcessImage on the decoded size; a size is never negative.
abbrev pub supported_size : ℕ → ℕ → Bool
supported_size w h = ltb 0 w && ltb 0 h && leb (w * h) max_image_pixels

abbrev pub at_least_1 : ℕ → ℕ
at_least_1 n = if ltb n 1 then 1 else n

abbrev pub shrink : ℕ → ℕ → ℕ → ℕ × ℕ
shrink edge w h =
    if ltb edge w || ltb edge h
    then if leb h w then (edge, h * edge / w) else (w * edge / h, edge)
    else (w, h)

-- The size that encodeResized encodes in.
unfoldable pub resized : ℕ → ℕ → ℕ → ℕ × ℕ
resized edge w h = let (w', h') = shrink edge w h in (at_least_1 w', at_least_1 h')

pub record Image : Type 0 where
  pub width : ℕ
  pub height : ℕ
  pub pixel : ℕ → ℕ → ℕ

-- Where applyOrientation puts the pixel of a place in a photo of a size.
unfoldable pub target : ℕ → ℕ → ℕ → ℕ → ℕ → ℕ × ℕ
target orientation w h x y =
    if orientation == 2
    then (w - 1 - x, y)
    else if orientation == 3
    then (w - 1 - x, h - 1 - y)
    else if orientation == 4
    then (x, h - 1 - y)
    else if orientation == 5
    then (y, x)
    else if orientation == 6
    then (h - 1 - y, x)
    else if orientation == 7
    then (h - 1 - y, w - 1 - x)
    else if orientation == 8
    then (y, w - 1 - x)
    else (0, 0)

abbrev pub set_pixel : (ℕ → ℕ → ℕ) → ℕ × ℕ → ℕ → ℕ → ℕ → ℕ
set_pixel pixels (dx, dy) colour x y = if x == dx && y == dy then colour else pixels x y

-- The loop over x, up to a column, in row y, and the loop over y, up to a row.
unfoldable pub turn_row : ℕ → Image → ℕ → ℕ → (ℕ → ℕ → ℕ) → ℕ → ℕ → ℕ
turn_row orientation src y zero pixels = pixels
turn_row orientation src y (suc x) pixels =
    set_pixel (turn_row orientation src y x pixels) (target orientation src.width src.height x y)
      (src.pixel x y)

unfoldable pub turn_rows : ℕ → Image → ℕ → (ℕ → ℕ → ℕ) → ℕ → ℕ → ℕ
turn_rows orientation src zero pixels = pixels
turn_rows orientation src (suc y) pixels =
    turn_row orientation src y src.width (turn_rows orientation src y pixels)

-- The new photo, which is blank, of colour 0, until it is written.
unfoldable pub turned_image : Image → ℕ → Image
turned_image src orientation = record {
  width = if leb 5 orientation then src.height else src.width;
  height = if leb 5 orientation then src.width else src.height;
  pixel = turn_rows orientation src src.height (λ x y. 0);
}

unfoldable pub apply_orientation : Image → ℕ → Image
apply_orientation src orientation =
    if leb orientation 1 || ltb 8 orientation then src else turned_image src orientation
