-- ===== src/Imaging/Exif.antt =====
-- imaging.go: the orientation that a JPEG's EXIF data names. A read or a slice out of range panics in
-- Go, and the loop over segments has fuel, so that both would show as outcomes of their own.
use aura_risk.Base.{
  ℕ, zero, suc, ◌+◌, ◌*◌, not, ◌&&◌, ◌||◌, Option, none, some, List, [], ◌∷◌, ltb, leb, ◌==◌,
  if◌then◌else◌, length, text_eq,
}
use aura_risk.Risk.{slice}

pub data Outcome : Type 0 where
  orientation : ℕ → Outcome
  out_of_range : Outcome
  out_of_fuel : Outcome

-- bytes[i], and what comes after it
abbrev pub byte_at : List ℕ → ℕ → Option ℕ
byte_at [] i = none
byte_at (b ∷ bs) zero = some b
byte_at (b ∷ bs) (suc i) = byte_at bs i

abbrev pub read : List ℕ → ℕ → (ℕ → Outcome) → Outcome
read bytes i k = elim (byte_at bytes i) [ none ↦ out_of_range | some b ↦ k b ]

abbrev pub cut_out : List ℕ → ℕ → ℕ → (List ℕ → Outcome) → Outcome
cut_out bytes start stop k = elim (slice start stop bytes) [ none ↦ out_of_range | some s ↦ k s ]

pub data ByteOrder : Type 0 where
  little_endian big_endian : ByteOrder

abbrev pub pair : ByteOrder → ℕ → ℕ → ℕ
pair little_endian a b = a + 256 * b
pair big_endian a b = 256 * a + b

-- order.Uint16(bytes[i:])
unfoldable pub uint16 : ByteOrder → List ℕ → ℕ → (ℕ → Outcome) → Outcome
uint16 order bytes i k = read bytes i λ a. read bytes (i + 1) λ b. k (pair order a b)

abbrev pub quad : ByteOrder → ℕ → ℕ → ℕ
quad little_endian a b = a + 65536 * b
quad big_endian a b = 65536 * a + b

-- order.Uint32(bytes[i:])
unfoldable pub uint32 : ByteOrder → List ℕ → ℕ → (ℕ → Outcome) → Outcome
uint32 order bytes i k =
    uint16 order bytes i λ a. uint16 order bytes (i + 2) λ b. k (quad order a b)

abbrev pub one_of_eight : ℕ → Outcome
one_of_eight value = if leb 1 value && leb value 8 then orientation value else orientation 1

-- The loop over the entries left, the next of which starts at a place.
unfoldable pub entries_from : ByteOrder → List ℕ → ℕ → ℕ → Outcome
entries_from order tiff zero entry = orientation 1
entries_from order tiff (suc left) entry =
    let rest = entries_from order tiff left (entry + 12) in
    if ltb (length tiff) (entry + 12)
    then orientation 1
    else uint16 order tiff entry
        λ tag. if tag == 0x0112 then uint16 order tiff (entry + 8) one_of_eight else rest

unfoldable pub directory : ByteOrder → List ℕ → Outcome
directory order tiff = uint32 order tiff 4 λ ifd.
    if ltb ifd 8 || ltb (length tiff) (ifd + 2)
    then orientation 1
    else uint16 order tiff ifd λ entries. entries_from order tiff entries (ifd + 2)

-- exifOrientation; the first two bytes are II or MM.
unfoldable pub exif_orientation : List ℕ → Outcome
exif_orientation tiff =
    if ltb (length tiff) 8
    then orientation 1
    else cut_out tiff 0 2 λ mark.
      if text_eq mark (73 ∷ 73 ∷ [])
      then directory little_endian tiff
      else if text_eq mark (77 ∷ 77 ∷ [])
      then directory big_endian tiff
      else orientation 1

-- "Exif\x00\x00"
abbrev pub exif_header : List ℕ
exif_header = 69 ∷ 120 ∷ 105 ∷ 102 ∷ 0 ∷ 0 ∷ []

-- The end of a turn of the loop, at a segment of a marker and a length: EXIF, or go on.
unfoldable pub at_segment : ℕ → List ℕ → Outcome → Outcome
at_segment marker segment next =
    let at_header = λ (header : List ℕ).
      if text_eq header exif_header
      then cut_out segment 6 (length segment) exif_orientation
      else next in
    if marker == 0xE1 && ltb 6 (length segment) then cut_out segment 0 6 at_header else next

unfoldable pub segments_from : ℕ → List ℕ → ℕ → Outcome
segments_from zero bytes pos = out_of_fuel
segments_from (suc fuel) bytes pos =
    let next = λ (seg_len : ℕ). segments_from fuel bytes (pos + 2 + seg_len) in
    if ltb (length bytes) (pos + 4)
    then orientation 1
    else read bytes pos λ mark.
      if not (mark == 0xFF)
      then orientation 1
      else read bytes (pos + 1) λ marker.
        if marker == 0xDA || marker == 0xD9
        then orientation 1
        else uint16 big_endian bytes (pos + 2) λ seg_len.
          if ltb seg_len 2 || ltb (length bytes) (pos + 2 + seg_len)
          then orientation 1
          else cut_out bytes (pos + 4) (pos + 2 + seg_len)
              λ segment. at_segment marker segment (next seg_len)

-- jpegOrientation, with fuel for a turn at each place
unfoldable pub jpeg_orientation : List ℕ → Outcome
jpeg_orientation bytes =
    if ltb (length bytes) 4
    then orientation 1
    else read bytes 0 λ a. read bytes 1 λ b.
      if not (a == 0xFF) || not (b == 0xD8)
      then orientation 1
      else segments_from (length bytes) bytes 2
