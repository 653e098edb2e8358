-- ===== src/Rfb/Color.antt =====
-- The colours of src/utils/regirfb/framebuf.cpp: RGBQuad, the palette of a screen, and the loops in
-- assembler that turn pixels into places of the palette.
pub mod Palette
use regiboard.Base.{
  ℕ, zero, suc, ◌+◌, ◌*◌, ◌/◌, ◌%◌, ◌^◌, List, [], ◌∷◌, ◌++◌, if◌then◌else◌, ltb, ◌==◌, ◌||◌,
  get_or, set, drop, length, overlay, Option, none, some,
}
use regiboard.Base.Text.{Text}

pub record Quad : Type 0 where
  pub red : ℕ
  pub green : ℕ
  pub blue : ℕ
  pub reserved : ℕ

-- RGBQuad::RGBQuad() with the value of RGBIter, which grows by one.
unfoldable pub default_quad : ℕ → Quad
default_quad iter = record { red = iter; green = iter; blue = iter; reserved = 0 }

-- The array of the quads that are made one after the other.
unfoldable pub default_quads : ℕ → ℕ → List Quad
default_quads zero iter = []
default_quads (suc n) iter = default_quad iter ∷ default_quads n ((iter + 1) % 256)

-- RGBQuad::RGBQuad(_b, _g, _r)
abbrev pub quad : ℕ → ℕ → ℕ → Quad
quad b g r = record { red = r; green = g; blue = b; reserved = 0 }

-- RGBQuad::GetId, with kRGBWeight.
unfoldable pub get_id : Quad → ℕ
get_id q = (q.red * 28 + q.green * 151 + q.blue * 77) % 2 ^ 32 / 256 % 256

abbrev pub palette_colors : ℕ
palette_colors = 256

-- kColors
abbrev pub colors : List Quad
colors =
    quad 0 0 0
    ∷ quad 255 255 255
    ∷ quad 189 195 199
    ∷ quad 236 240 241
    ∷ quad 127 140 141
    ∷ quad 149 165 166
    ∷ quad 225 225 225
    ∷ quad 150 75 0
    ∷ quad 231 76 60
    ∷ quad 225 129 128
    ∷ quad 255 153 0
    ∷ quad 255 218 0
    ∷ quad 255 255 156
    ∷ quad 85 187 119
    ∷ quad 153 255 119
    ∷ quad 41 128 185
    ∷ quad 0 191 255
    ∷ quad 210 0 255
    ∷ quad 199 103 219
    ∷ quad 52 73 94
    ∷ quad 44 62 80
    ∷ quad 99 225 255
    ∷ quad 246 165 0
    ∷ []

-- The loop of GeneratePalette.
unfoldable pub put_colors : List Quad → List Quad → List Quad
put_colors [] palette = palette
put_colors (c ∷ cs) palette = put_colors cs (set palette (get_id c) c)

-- The palette of the first screen of a program.
unfoldable pub generate_palette : List Quad
generate_palette = put_colors colors (default_quads palette_colors 0)

-- A lane of the loops in assembler: the products are summed in 16 bits, and the high byte is kept.
unfoldable pub lane : ℕ → ℕ → ℕ → ℕ
lane x y z = ((x * 28 % 2 ^ 16 + y * 151) % 2 ^ 16 + z * 77) % 2 ^ 16 / 256

-- The places of the next pixels, which take `depth` bytes each.
unfoldable pub lanes : ℕ → ℕ → Text → Text
lanes zero depth src = []
lanes (suc n) depth src =
    lane (get_or src 0 0) (get_or src 1 0) (get_or src 2 0) ∷ lanes n depth (drop depth src)

-- How Convert24ToPalette and Convert32ToPalette end. `runaway`: a body of fewer than 8 pixels counts down
-- from 0 and overruns the memory.
pub data Converted : Type 0 where
  refused runaway : Converted
  converted : Text → Converted

-- Convert24ToPalette for 3 bytes, Convert32ToPalette for 4: whole turns of 8 pixels.
unfoldable pub convert : ℕ → Text → Text → ℕ → Converted
convert depth dst src size =
    if size == 0
    then refused
    else if ltb size 8
    then runaway
    else converted (overlay (lanes (size / 8 * 8) depth src) dst)
