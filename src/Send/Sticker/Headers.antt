-- ===== src/Send/Sticker/Headers.antt =====
-- The headers that the WebP container defines, and what is read of them.
use apime.Common.{
  ℕ, zero, suc, ◌+◌, ◌*◌, ◌/◌, ◌%◌, ◌^◌, ◌≤◌, ◌<◌, ◌≡◌, refl, ◌∙◌, ◌&&◌, String, false, List, [],
  ◌∷◌, ◌++◌, length, ok, err, if◌then◌else◌, arith, eqb, ltb, le→not-ltb,
}
use apime.Common.Text.{codes}
use apime.Send.Sticker.{StickerInfo, dimensions, byte_at, same_bytes, check_side, inspect_sticker}

-- The `n` lowest bytes of a number, the lowest first.
abbrev le_bytes : ℕ → ℕ → List ℕ
le_bytes zero v = []
le_bytes (suc n) v = (v % 256) ∷ le_bytes n (v / 256)

-- RIFF and its size, WEBP, and a chunk with its name and size.
abbrev riff : ℕ → String → ℕ → List ℕ → List ℕ
riff size chunk chunk_size body =
    codes "RIFF"
    ++ (le_bytes 4 size ++ (codes "WEBP" ++ (codes chunk ++ (le_bytes 4 chunk_size ++ body))))

-- Flags, three reserved bytes, the sides less one in three bytes each.
abbrev extended : ℕ → ℕ → ℕ → List ℕ → List ℕ
extended flags w h frames = flags ∷ 0 ∷ 0 ∷ 0 ∷ (le_bytes 3 w ++ (le_bytes 3 h ++ frames))

-- The signature, then the sides less one in 14 bits each, with the four bits above them.
abbrev lossless : ℕ → ℕ → ℕ → List ℕ → List ℕ
lossless w h above image = 0x2f ∷ (le_bytes 4 (w + 2 ^ 14 * h + 2 ^ 28 * above) ++ image)

-- The frame tag, the start code, then each side in 14 bits below two bits of its scale.
abbrev lossy : ℕ → ℕ → ℕ → ℕ → ℕ → List ℕ → List ℕ
lossy tag w scale_w h scale_h frame =
    le_bytes 3 tag
    ++ (0x9d
        ∷ 0x01
        ∷ 0x2a
        ∷ (le_bytes 2 (w + 2 ^ 14 * scale_w) ++ (le_bytes 2 (h + 2 ^ 14 * scale_h) ++ frame)))

uint24_le :
    (v : ℕ) → v < 2 ^ 24 → v % 256 + 256 * (v / 256 % 256) + 65536 * (v / 256 / 256 % 256) ≡ v
uint24_le v h = omega arith

fits : (bytes : List ℕ) → length bytes ≤ 500 * 1024 → ltb (500 * 1024) (length bytes) ≡ false
fits bytes h = le→not-ltb _ _ h

complete : (bytes : List ℕ) → 30 ≤ length bytes → ltb (length bytes) 30 ≡ false
complete bytes h = le→not-ltb _ _ h

read_extended :
    (size chunk_size flags w h : ℕ) (frames : List ℕ)
    → w < 2 ^ 24
    → h < 2 ^ 24
    → length (riff size "VP8X" chunk_size (extended flags w h frames)) ≤ 500 * 1024
    → inspect_sticker (riff size "VP8X" chunk_size (extended flags w h frames))
      ≡ check_side (record { width = w + 1; height = h + 1; animated = eqb (flags / 2 % 2) 1 })
unfolding inspect_sticker byte_at same_bytes codes
read_extended size chunk_size flags w h frames wide high small =
    let bytes = riff size "VP8X" chunk_size (extended flags w h frames) in
    let long : 30 ≤ length bytes = omega arith in
    rw (fits bytes small, complete bytes long, uint24_le w wide, uint24_le h high) refl

uint32_le :
    (v : ℕ)
    → v < 2 ^ 32
    → v % 256
        + 256 * (v / 256 % 256)
        + 65536 * (v / 256 / 256 % 256)
        + 16777216 * (v / 256 / 256 / 256 % 256)
      ≡ v
uint32_le v h = omega arith

read_lossless :
    (size chunk_size w h above : ℕ) (image : List ℕ)
    → w < 2 ^ 14
    → h < 2 ^ 14
    → above < 16
    → 5 ≤ length image
    → length (riff size "VP8L" chunk_size (lossless w h above image)) ≤ 500 * 1024
    → inspect_sticker (riff size "VP8L" chunk_size (lossless w h above image))
      ≡ check_side (record { width = w + 1; height = h + 1; animated = false })
unfolding inspect_sticker byte_at same_bytes codes
read_lossless size chunk_size w h above image wide high four long small =
    let bytes = riff size "VP8L" chunk_size (lossless w h above image) in
    let enough : 30 ≤ length bytes = omega arith in
    let v = w + 2 ^ 14 * h + 2 ^ 28 * above in
    let first : v % 2 ^ 14 ≡ w = omega arith in
    let second : v / 2 ^ 14 % 2 ^ 14 ≡ h = omega arith in
    rw (fits bytes small, complete bytes enough, uint32_le v (omega arith), first, second) refl

uint16_le : (v : ℕ) → v < 2 ^ 16 → v % 256 + 256 * (v / 256 % 256) ≡ v
uint16_le v h = omega arith

read_lossy :
    (size chunk_size tag w scale_w h scale_h : ℕ) (frame : List ℕ)
    → w < 2 ^ 14
    → h < 2 ^ 14
    → scale_w < 4
    → scale_h < 4
    → length (riff size "VP8 " chunk_size (lossy tag w scale_w h scale_h frame)) ≤ 500 * 1024
    → inspect_sticker (riff size "VP8 " chunk_size (lossy tag w scale_w h scale_h frame))
      ≡ check_side (record { width = w; height = h; animated = false })
unfolding inspect_sticker byte_at same_bytes codes
read_lossy size chunk_size tag w scale_w h scale_h frame wide high sw sh small =
    let bytes = riff size "VP8 " chunk_size (lossy tag w scale_w h scale_h frame) in
    let enough : 30 ≤ length bytes = omega arith in
    let across : (w + 2 ^ 14 * scale_w) % 2 ^ 14 ≡ w = omega arith in
    let down : (h + 2 ^ 14 * scale_h) % 2 ^ 14 ≡ h = omega arith in
    rw
      (
        fits bytes small,
        complete bytes enough,
        uint16_le (w + 2 ^ 14 * scale_w) (omega arith),
        uint16_le (h + 2 ^ 14 * scale_h) (omega arith),
        across,
        down,
      )
      refl

-- What the first chunk of a file says: its variant with its fields, and the bytes after them.
pub data Header : Type 0 where
  vp8x : ℕ → ℕ → ℕ → List ℕ → Header
  vp8l : ℕ → ℕ → ℕ → List ℕ → Header
  vp8 : ℕ → ℕ → ℕ → ℕ → ℕ → List ℕ → Header

abbrev pub encode : ℕ → ℕ → Header → List ℕ
encode size chunk_size (vp8x flags w h frames) =
    riff size "VP8X" chunk_size (extended flags w h frames)
encode size chunk_size (vp8l w h above image) =
    riff size "VP8L" chunk_size (lossless w h above image)
encode size chunk_size (vp8 tag w scale_w h scale_h frame) =
    riff size "VP8 " chunk_size (lossy tag w scale_w h scale_h frame)

-- The fields fit their bits, and a lossless image has at least five bytes.
abbrev pub Fits : Header → Type 0
Fits (vp8x flags w h frames) = (w < 2 ^ 24) × (h < 2 ^ 24)
Fits (vp8l w h above image) = (w < 2 ^ 14) × (h < 2 ^ 14) × (above < 16) × (5 ≤ length image)
Fits (vp8 tag w scale_w h scale_h frame) =
    (w < 2 ^ 14) × (h < 2 ^ 14) × (scale_w < 4) × (scale_h < 4)

abbrev pub described : Header → StickerInfo
described (vp8x flags w h frames) = record {
  width = w + 1;
  height = h + 1;
  animated = eqb (flags / 2 % 2) 1;
}
described (vp8l w h above image) = record { width = w + 1; height = h + 1; animated = false }
described (vp8 tag w scale_w h scale_h frame) = record { width = w; height = h; animated = false }

-- A WebP file of at most 500 KiB in any of the three variants, whatever sizes its chunks claim: it is
-- accepted exactly if both of its sides are 512, and its animation is that of the extended header's
-- flags; otherwise the sides that it has are reported.
pub sides_decide :
    (size chunk_size : ℕ) (header : Header)
    → Fits header
    → length (encode size chunk_size header) ≤ 500 * 1024
    → inspect_sticker (encode size chunk_size header) ≡ (
        if eqb (described header).width 512 && eqb (described header).height 512
        then ok (described header)
        else err (dimensions (described header).width (described header).height))
unfolding check_side
sides_decide size chunk_size (vp8x flags w h frames) (wide, high) small =
    read_extended size chunk_size flags w h frames wide high small ∙ ground arith
sides_decide size chunk_size (vp8l w h above image) (wide, high, four, long) small =
    read_lossless size chunk_size w h above image wide high four long small ∙ ground arith
sides_decide size chunk_size (vp8 tag w scale_w h scale_h frame) (wide, high, sw, sh) small =
    read_lossy size chunk_size tag w scale_w h scale_h frame wide high sw sh small ∙ ground arith
