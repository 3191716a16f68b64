-- ===== src/Imaging/Upright.antt =====
-- imaging.go: jpegOrientation ends, in range, with an orientation.
use aura_risk.Base.{
  ℕ, zero, suc, ◌+◌, ◌-◌, ◌≤◌, ◌<◌, ◌≡◌, refl, sym, subst, inl, inr, not, ◌&&◌, ◌||◌, none, some,
  List, [], ◌∷◌, ltb, ◌==◌, length, arith, Bool-cases, text_eq,
}
use aura_risk.Risk.{slice}
use aura_risk.Risk.Total.{slice-some}
use aura_risk.Imaging.Exif.{
  Outcome, orientation, out_of_range, out_of_fuel, byte_at, read, cut_out, ByteOrder, little_endian,
  big_endian, pair, quad, uint16, uint32, one_of_eight, entries_from, directory, exif_orientation,
  exif_header, at_segment, segments_from, jpeg_orientation,
}

-- The run ends, with an orientation.
abbrev pub Upright : Outcome → Type 0
Upright (orientation n) = (1 ≤ n) × (n ≤ 8)
Upright out_of_range = ⊥
Upright out_of_fuel = ⊥

byte_at-some : (bytes : List ℕ) (i : ℕ) → i < length bytes → (b : ℕ) × (byte_at bytes i ≡ some b)
byte_at-some [] i h = absurd (omega arith)
byte_at-some (b ∷ bs) zero h = (b, refl)
byte_at-some (b ∷ bs) (suc i) h = byte_at-some bs i (omega arith)

read-Upright :
    (bytes : List ℕ) (i : ℕ) (k : ℕ → Outcome)
    → i < length bytes
    → ((b : ℕ) → Upright (k b))
    → Upright (read bytes i k)
read-Upright bytes i k h u =
    let (b, e) = byte_at-some bytes i h in
    subst (λ o. Upright (elim o [ none ↦ out_of_range | some a ↦ k a ])) (sym e) (u b)

cut_out-Upright :
    (bytes : List ℕ) (start stop : ℕ) (k : List ℕ → Outcome)
    → start ≤ stop
    → stop ≤ length bytes
    → ((s : List ℕ) → length s ≡ stop - start → Upright (k s))
    → Upright (cut_out bytes start stop k)
cut_out-Upright bytes start stop k h l u = of_slice (slice-some start stop bytes h l)
  where
    of_slice :
        ((s : List ℕ) × (slice start stop bytes ≡ some s) × (length s ≡ stop - start))
        → Upright (cut_out bytes start stop k)
    of_slice (s, e, n) =
        subst (λ o. Upright (elim o [ none ↦ out_of_range | some s ↦ k s ])) (sym e) (u s n)

uint16-Upright :
    (order : ByteOrder) (bytes : List ℕ) (i : ℕ) (k : ℕ → Outcome)
    → i + 1 < length bytes
    → ((n : ℕ) → Upright (k n))
    → Upright (uint16 order bytes i k)
unfolding uint16
uint16-Upright order bytes i k h u =
    read-Upright bytes i _ (omega arith)
      (λ a. read-Upright bytes (i + 1) _ h (λ b. u (pair order a b)))

uint32-Upright :
    (order : ByteOrder) (bytes : List ℕ) (i : ℕ) (k : ℕ → Outcome)
    → i + 3 < length bytes
    → ((n : ℕ) → Upright (k n))
    → Upright (uint32 order bytes i k)
unfolding uint32
uint32-Upright order bytes i k h u =
    uint16-Upright order bytes i _ (omega arith)
      (λ a. uint16-Upright order bytes (i + 2) _ (omega arith) (λ b. u (quad order a b)))

value-Upright : (value : ℕ) → Upright (one_of_eight value)
value-Upright value = ground arith

entries_from-Upright :
    (order : ByteOrder) (tiff : List ℕ) (left entry : ℕ)
    → Upright (entries_from order tiff left entry)
unfolding entries_from
entries_from-Upright order tiff zero entry = omega arith
entries_from-Upright order tiff (suc left) entry =
    elim (Bool-cases (ltb (length tiff) (entry + 12))) [
      | inl past ↦ rw past (omega arith)
      | inr inside ↦
          let room : entry + 12 ≤ length tiff = ground (arith, inside) in
          rw inside (
            uint16-Upright order tiff entry _ (omega (arith, room)) (λ tag.
              elim (Bool-cases (tag == 0x0112)) [
                | inl hit ↦
                    rw hit
                      (uint16-Upright order tiff (entry + 8) _ (omega (arith, room)) value-Upright)
                | inr miss ↦ rw miss (entries_from-Upright order tiff left (entry + 12))
              ]))
    ]

directory-Upright :
    (order : ByteOrder) (tiff : List ℕ) → 8 ≤ length tiff → Upright (directory order tiff)
unfolding directory
directory-Upright order tiff h = uint32-Upright order tiff 4 _ (omega arith) (λ ifd.
    elim (Bool-cases (ltb ifd 8 || ltb (length tiff) (ifd + 2))) [
      | inl wrong ↦ rw wrong (omega arith)
      | inr inside ↦ rw inside (
          uint16-Upright order tiff ifd _ (ground (arith, inside))
            (λ n. entries_from-Upright order tiff n (ifd + 2)))
    ])

exif_orientation-Upright : (tiff : List ℕ) → Upright (exif_orientation tiff)
unfolding exif_orientation
exif_orientation-Upright tiff = elim (Bool-cases (ltb (length tiff) 8)) [
  | inl short ↦ rw short (omega arith)
  | inr long ↦
      let enough : 8 ≤ length tiff = ground (arith, long) in
      rw long (
        cut_out-Upright tiff 0 2 _ (omega arith) (omega (arith, enough)) (λ mark l.
          elim (Bool-cases (text_eq mark (73 ∷ 73 ∷ []))) [
            | inl little ↦ rw little (directory-Upright little_endian tiff enough)
            | inr not_little ↦ elim (Bool-cases (text_eq mark (77 ∷ 77 ∷ []))) [
              | inl big ↦ rw (not_little, big) (directory-Upright big_endian tiff enough)
              | inr neither ↦ rw (not_little, neither) (omega arith)
            ]
          ]))
]

at_segment-Upright :
    (marker : ℕ) (segment : List ℕ) (next : Outcome)
    → Upright next
    → Upright (at_segment marker segment next)
unfolding at_segment
at_segment-Upright marker segment next u =
    elim (Bool-cases (marker == 0xE1 && ltb 6 (length segment))) [
      | inr other ↦ rw other u
      | inl exif ↦
          let long : 6 < length segment = ground (arith, exif) in
          rw exif (
            cut_out-Upright segment 0 6 _ (omega arith) (omega (arith, long)) (λ header l.
              elim (Bool-cases (text_eq header exif_header)) [
                | inl found ↦ rw found (
                    cut_out-Upright segment 6 (length segment) _ (omega (arith, long)) (omega arith)
                      (λ tiff m. exif_orientation-Upright tiff))
                | inr missing ↦ rw missing u
              ]))
    ]

segments_from-Upright :
    (fuel : ℕ) (bytes : List ℕ) (pos : ℕ)
    → pos ≤ length bytes
    → length bytes < fuel + pos
    → Upright (segments_from fuel bytes pos)
unfolding segments_from
segments_from-Upright zero bytes pos inside h = absurd (omega arith)
segments_from-Upright (suc fuel) bytes pos inside h =
    elim (Bool-cases (ltb (length bytes) (pos + 4))) [
      | inl past ↦ rw past (omega arith)
      | inr room ↦
          let enough : pos + 4 ≤ length bytes = ground (arith, room) in
          rw room (
            read-Upright bytes pos _ (omega (arith, enough)) (λ mark.
              elim (Bool-cases (not (mark == 0xFF))) [
                | inl wrong ↦ rw wrong (omega arith)
                | inr right ↦ rw right (
                    read-Upright bytes (pos + 1) _ (omega (arith, enough)) (λ marker.
                      elim (Bool-cases (marker == 0xDA || marker == 0xD9)) [
                        | inl ends ↦ rw ends (omega arith)
                        | inr goes_on ↦ rw goes_on (
                            uint16-Upright big_endian bytes (pos + 2) _ (omega (arith, enough))
                              (λ seg_len.
                                elim (Bool-cases
                                  (ltb seg_len 2 || ltb (length bytes) (pos + 2 + seg_len))) [
                                    | inl bad ↦ rw bad (omega arith)
                                    | inr fits ↦
                                        let two : 2 ≤ seg_len = ground (arith, fits) in
                                        let within : pos + 2 + seg_len ≤ length bytes =
                                          ground (arith, fits) in
                                        rw fits (
                                          cut_out-Upright bytes (pos + 4) (pos + 2 + seg_len) _
                                            (omega (arith, two)) within
                                            (λ segment l. at_segment-Upright marker segment _ (
                                              segments_from-Upright fuel bytes (pos + 2 + seg_len)
                                                within (omega (arith, h, two)))))
                                  ]))
                      ]))
              ]))
    ]

-- Whatever the bytes, the search for an orientation ends within its fuel, reads only bytes that are
-- there, and gives one of the eight orientations.
pub jpeg_orientation-Upright : (bytes : List ℕ) → Upright (jpeg_orientation bytes)
unfolding jpeg_orientation
jpeg_orientation-Upright bytes = elim (Bool-cases (ltb (length bytes) 4)) [
  | inl short ↦ rw short (omega arith)
  | inr long ↦
      let enough : 4 ≤ length bytes = ground (arith, long) in
      rw long (
        read-Upright bytes 0 _ (omega (arith, enough)) (λ a.
          read-Upright bytes 1 _ (omega (arith, enough)) (λ b.
            elim (Bool-cases (not (a == 0xFF) || not (b == 0xD8))) [
              | inl no_jpeg ↦ rw no_jpeg (omega arith)
              | inr jpeg ↦ rw jpeg (
                  segments_from-Upright (length bytes) bytes 2 (omega (arith, enough))
                    (omega arith))
            ])))
]
