-- ===== src/Rfb/Frames/Shown.antt =====
-- What a reader of bitmaps sees in a frame of src/utils/regirfb/framebuf.cpp.
use regiboard.Base.{
  ◌/◌, ltb, if◌then◌else◌, Option, none, some, ℕ, ◌+◌, ◌*◌, ◌%◌, ◌^◌, ◌<◌, ◌≡◌, List, ◌++◌, length,
  get_or, arith,
}
use regiboard.Base.Text.{Text}
use regiboard.Rfb.Color.{Quad, generate_palette, lane}
use regiboard.Rfb.Bitmap.{head_bytes}
use regiboard.Rfb.Frames.{Screen}

-- A reader of bitmaps with a palette, written from the description of the format: the offset of the pixels
-- stands at byte 10, the size of the second header at byte 14, the width at byte 18, and the palette behind that header, an entry
-- with blue, green and red in four bytes.
abbrev le_32 : Text → ℕ → ℕ
le_32 file at =
    get_or file at 0
    + 256 * get_or file (at + 1) 0
    + 65536 * get_or file (at + 2) 0
    + 16777216 * get_or file (at + 3) 0

pub record Shade : Type 0 where
  pub blue : ℕ
  pub green : ℕ
  pub red : ℕ

abbrev pub entry_at : Text → ℕ → Shade
entry_at file p =
    let at = 14 + le_32 file 14 + 4 * p in
    record { blue = get_or file at 0; green = get_or file (at + 1) 0; red = get_or file (at + 2) 0 }

-- The bytes of a row of pixels of one byte, which the format fills up to a multiple of four.
abbrev pub stride : Text → ℕ
stride file = (le_32 file 18 + 3) / 4 * 4

-- The pixel whose byte stands `off` behind the offset of the pixels; none has no entry in the palette, whose
-- length stands at byte 46.
unfoldable pub pixel_at : Text → ℕ → Option Shade
pixel_at file off =
    let p = get_or file (le_32 file 10 + off) 0 in
    if ltb p (le_32 file 46) then some (entry_at file p) else none

-- The pixel in column `x` of row `y`, from the top, as in a bitmap with a negative height.
abbrev pub pixel : Text → ℕ → ℕ → Option Shade
pixel file x y = pixel_at file (y * stride file + x)

-- A colour of the palette as the bitmap stores it: its first byte is the blue one.
abbrev pub shade : Quad → Shade
shade q = record { blue = q.red; green = q.green; red = q.blue }

-- The place of a pixel, from its three bytes.
pub lane_at : ℕ → Text → ℕ → ℕ
lane_at depth src i =
    lane (get_or src (depth * i) 0) (get_or src (depth * i + 1) 0) (get_or src (depth * i + 2) 0)

module _ (w h : ℕ) (palette : List Quad) (full : length palette ≡ 256) (row : Text) where
  abbrev file : Text
  file = head_bytes w h 1 palette ++ row

lane-lt : (x y z : ℕ) → lane x y z < 256
unfolding lane
lane-lt x y z = omega arith

-- The colour of pixel `i` in the memory of a screen.
abbrev pub color_at : ℕ → Text → ℕ → Quad
color_at depth src i = record {
  red = get_or src (depth * i) 0;
  green = get_or src (depth * i + 1) 0;
  blue = get_or src (depth * i + 2) 0;
  reserved = 0;
}

abbrev pub Bytes : Text → Type 0
Bytes src = (i : ℕ) → get_or src i 0 < 256

module _ (s : Screen) (src : Text) (x y : ℕ) (own : s.palette ≡ generate_palette)
    (bytes : Bytes src) (hx : x < s.width) (hy : y < s.height) (small : s.width < 2 ^ 32)
    (aligned : s.width % 4 ≡ 0) where
  abbrev pub color : Quad
  color = color_at s.depth src (y * s.width + x)
