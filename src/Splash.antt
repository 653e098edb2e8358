-- ===== src/Splash.antt =====
-- src/utils/regisplash/main.cpp: a bitmap is drawn into the middle of the screen.
pub mod Writes
pub mod Rows
pub mod Shown
pub mod Runs
use mathlib.Core.Option
use regiboard.Base.{
  ℕ, zero, suc, ◌+◌, ◌-◌, ◌*◌, ◌/◌, ◌%◌, ◌^◌, List, [], ◌∷◌, ◌++◌, Bool, true, false, not, ◌&&◌,
  ◌||◌, if◌then◌else◌, ltb, leb, ◌==◌, length, take, drop, overlay, get_or, Option, none, some,
}
use regiboard.Base.Text.{Text}

pub record Screen : Type 0 where
  pub width : ℕ
  pub height : ℕ
  pub depth : ℕ
  pub buffer : Text

-- What PrintBMP takes from the headers of a bitmap; the signed numbers as their 32 bits.
pub record Headers : Type 0 where
  pub off_bits : ℕ
  pub bi_width : ℕ
  pub bi_height : ℕ
  pub bit_count : ℕ
  pub size_image : ℕ

unfoldable pub le_at : ℕ → Text → ℕ → ℕ
le_at zero file at = 0
le_at (suc n) file at = get_or file at 0 + 256 * le_at n file (at + 1)

-- TagBitMapFileHeader and TagBitMapInfoHeader, packed; the bytes of a shorter file are zeros here.
unfoldable pub read_headers : Text → Headers
read_headers file = record {
  off_bits = le_at 4 file 10;
  bi_width = le_at 4 file 18;
  bi_height = le_at 4 file 22;
  bit_count = le_at 2 file 28;
  size_image = le_at 4 file 34;
}

-- The assignment of an array of PixelRGB to one of PixelRGBA, pixel by pixel: the fourth byte stays.
unfoldable pub copy_24_row_to_32 : ℕ → Text → Text → Text
copy_24_row_to_32 zero src dst = dst
copy_24_row_to_32 (suc w) (r ∷ g ∷ b ∷ src) (r' ∷ g' ∷ b' ∷ a' ∷ dst) =
    r ∷ g ∷ b ∷ a' ∷ copy_24_row_to_32 w src dst
copy_24_row_to_32 (suc w) src dst = dst

-- The numbers that PrintBMP computes from the headers, in 32 bits.
pub record Place : Type 0 where
  pub depth : ℕ
  pub row_width : ℕ
  pub ext_row_width : ℕ
  pub x_offset : ℕ
  pub y_offset : ℕ
  pub scr_width : ℕ

abbrev minus : ℕ → ℕ → ℕ
minus a b = (a + 2 ^ 32 - b) % 2 ^ 32

-- None is a division by the height zero.
unfoldable pub place_of : Headers → Screen → Option Place
place_of h s =
    let depth = h.bit_count / 8 in
    if h.bi_height == 0
    then none
    else some (record {
      depth = depth;
      row_width = h.bi_width * depth % 2 ^ 32;
      ext_row_width = h.size_image / h.bi_height;
      x_offset = (minus s.width h.bi_width) / 2 * s.depth % 2 ^ 32;
      y_offset = (minus s.height h.bi_height) / 2;
      scr_width = s.width * s.depth % 2 ^ 32;
    })

-- The offset of a row of the bitmap in the memory of the screen.
unfoldable pub row_offset : Place → ℕ → ℕ
row_offset p row = ((row + p.y_offset) * p.scr_width + p.x_offset) % 2 ^ 32

-- A write of some bytes at an offset; none is a write behind the end.
unfoldable pub write_at : ℕ → Text → Text → Option Text
write_at off bytes mem =
    if leb (off + length bytes) (length mem)
    then some (take off mem ++ (bytes ++ drop (off + length bytes) mem))
    else none

-- A row of `line` into the memory of the screen; none is an access out of the memory or the line.
unfoldable pub draw_row : Headers → Place → ℕ → ℕ → Text → Text → Option Text
draw_row h p depth row line mem =
    let off = row_offset p row in
    let w = h.bi_width % 2 ^ 16 in
    if p.depth == depth
    then (if ltb (length line) p.row_width then none else write_at off (take p.row_width line) mem)
    else if not (depth == 4)
    then some mem
    else if ltb (length line) (3 * w)
    then none
    else write_at off (copy_24_row_to_32 w line (take (4 * w) (drop off mem))) mem

-- The loop of PrintBMP from `row` down to 0; `file` is the rest of the file, and `line` what the buffer of a
-- row holds.
unfoldable pub draw_rows : Headers → Place → ℕ → ℕ → Text → Text → Text → Option Text
draw_rows h p depth zero file line mem =
    draw_row h p depth 0 (overlay (take p.ext_row_width file) line) mem
draw_rows h p depth (suc row) file line mem =
    let line' = overlay (take p.ext_row_width file) line in
    elim (draw_row h p depth (suc row) line' mem) [
      | none ↦ none
      | some mem' ↦ draw_rows h p depth row (drop p.ext_row_width file) line' mem'
    ]

-- The height is signed: with a negative one the loop has no turn.
unfoldable pub draw_image : (ℕ → Text) → Headers → Text → Place → Screen → Option Text
draw_image junk h file p s =
    if leb (2 ^ 31) h.bi_height
    then some s.buffer
    else draw_rows h p s.depth h.bi_height (drop h.off_bits file) (junk p.ext_row_width) s.buffer

-- How PrintBMP ends.
pub data Printed : Type 0 where
  failed crash : Printed
  printed : Text → Printed

abbrev pub printed_of : Option Text → Printed
printed_of none = crash
printed_of (some mem) = printed mem

unfoldable pub print_at : (ℕ → Text) → Headers → Text → Screen → Option Place → Printed
print_at junk h file s none = crash
print_at junk h file s (some p) = printed_of (draw_image junk h file p s)

-- PrintBMP, with the file or none when it does not open; `junk` is what a new array holds.
unfoldable pub print_bmp : (ℕ → Text) → Option Text → Screen → Printed
print_bmp junk none s = failed
print_bmp junk (some file) s = let h = read_headers file in print_at junk h file s (place_of h s)

-- SetVideoMode, with the size of the screen that the driver tells, or none when a call fails.
unfoldable pub set_video_mode : Option (ℕ × ℕ) → Bool → Screen → Bool × Screen
set_video_mode none accepted s = (false, s)
set_video_mode (some (w, h)) accepted s = (accepted, record s { width = w; height = h })
