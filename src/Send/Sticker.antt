-- ===== src/Send/Sticker.antt =====
-- internal/service/message/sticker.go: the header of a WebP file, read by hand. A file is the list of
-- its bytes. `|` of shifted bytes is written as their sum, which it is for bytes.
pub mod Headers
use apime.Common.{
  ℕ, zero, suc, ◌+◌, ◌*◌, ◌/◌, ◌%◌, ◌^◌, String, Bool, true, false, not, ◌&&◌, ◌||◌, List, [], ◌∷◌,
  length, take, drop, ltb, eqb, Result, ok, err, if◌then◌else◌,
}
use apime.Common.Text.{codes}

abbrev pub sticker_side : ℕ
sticker_side = 512

abbrev pub sticker_max_bytes : ℕ
sticker_max_bytes = 500 * 1024

abbrev pub sticker_mime_type : String
sticker_mime_type = "image/webp"

abbrev pub riff_header_min_bytes : ℕ
riff_header_min_bytes = 30

pub data StickerError : Type 0 where
  not_webp too_large : StickerError
  dimensions : ℕ → ℕ → StickerError

pub record StickerInfo : Type 0 where
  pub width : ℕ
  pub height : ℕ
  pub animated : Bool

unfoldable pub byte_at : ℕ → List ℕ → ℕ
byte_at n [] = 0
byte_at zero (b ∷ bs) = b
byte_at (suc n) (b ∷ bs) = byte_at n bs

unfoldable pub same_bytes : List ℕ → List ℕ → Bool
same_bytes [] [] = true
same_bytes (a ∷ as') (b ∷ bs) = eqb a b && same_bytes as' bs
same_bytes _ _ = false

-- string(bytes[from:from+n]) == text, for a text of n characters.
unfoldable pub reads : ℕ → List ℕ → List ℕ → Bool
unfolding same_bytes
reads from text bytes = same_bytes (take (length text) (drop from bytes)) text

unfoldable pub uint16 : ℕ → List ℕ → ℕ
unfolding byte_at
uint16 n bytes = byte_at n bytes + 256 * byte_at (n + 1) bytes

unfoldable pub uint24 : ℕ → List ℕ → ℕ
unfolding byte_at
uint24 n bytes = byte_at n bytes + 256 * byte_at (n + 1) bytes + 65536 * byte_at (n + 2) bytes

unfoldable pub uint32 : ℕ → List ℕ → ℕ
unfolding byte_at uint24
uint32 n bytes = uint24 n bytes + 16777216 * byte_at (n + 3) bytes

unfoldable pub extended_info : List ℕ → StickerInfo
unfolding uint24 byte_at
extended_info bytes = record {
  width = uint24 24 bytes + 1;
  height = uint24 27 bytes + 1;
  animated = eqb (byte_at 20 bytes / 2 % 2) 1;
}

unfoldable pub lossless_info : List ℕ → StickerInfo
unfolding uint32
lossless_info bytes = record {
  width = uint32 21 bytes % 2 ^ 14 + 1;
  height = uint32 21 bytes / 2 ^ 14 % 2 ^ 14 + 1;
  animated = false;
}

unfoldable pub lossy_info : List ℕ → StickerInfo
unfolding uint16
lossy_info bytes = record {
  width = uint16 26 bytes % 2 ^ 14;
  height = uint16 28 bytes % 2 ^ 14;
  animated = false;
}

unfoldable pub check_side : StickerInfo → Result StickerError StickerInfo
check_side info =
    if not (eqb info.width sticker_side) || not (eqb info.height sticker_side)
    then err (dimensions info.width info.height)
    else ok info

unfoldable pub inspect_sticker : List ℕ → Result StickerError StickerInfo
unfolding reads check_side extended_info lossless_info lossy_info
inspect_sticker bytes =
    if ltb sticker_max_bytes (length bytes)
    then err too_large
    else if ltb (length bytes) riff_header_min_bytes
    then err not_webp
    else if not (reads 0 (codes "RIFF") bytes) || not (reads 8 (codes "WEBP") bytes)
    then err not_webp
    else if reads 12 (codes "VP8X") bytes
    then check_side (extended_info bytes)
    else if reads 12 (codes "VP8L") bytes
    then check_side (lossless_info bytes)
    else if reads 12 (codes "VP8 ") bytes
    then (if reads 23 (0x9d ∷ 0x01 ∷ 0x2a ∷ []) bytes
        then check_side (lossy_info bytes)
        else err not_webp)
    else err not_webp
