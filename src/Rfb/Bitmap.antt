-- ===== src/Rfb/Bitmap.antt =====
-- The headers of a bitmap in src/utils/regirfb/framebuf.cpp.
use regiboard.Base.{ℕ, zero, suc, ◌+◌, ◌-◌, ◌*◌, ◌/◌, ◌%◌, ◌^◌, List, [], ◌∷◌, ◌++◌}
use regiboard.Base.Text.{Text}
use regiboard.Rfb.Color.{Quad, palette_colors}

-- A number in memory, on the little-endian host.
abbrev pub le_bytes : ℕ → ℕ → Text
le_bytes zero n = []
le_bytes (suc k) n = n % 256 ∷ le_bytes k (n / 256)

-- Header::Size() and Info::Size()
abbrev pub header_size : ℕ
header_size = 14

abbrev pub info_size : ℕ
info_size = 40

abbrev pub palette_size : ℕ
palette_size = palette_colors * 4

-- Header, from the size of the file and the offset of the pixels.
unfoldable pub header_bytes : ℕ → ℕ → Text
header_bytes size off =
    le_bytes 2 0x4D42 ++ (le_bytes 4 size ++ (le_bytes 2 0 ++ (le_bytes 2 0 ++ le_bytes 4 off)))

-- Info: the height is negative, since the rows come from the top.
unfoldable pub info_bytes : ℕ → ℕ → ℕ → ℕ → Text
info_bytes width height depth body =
    le_bytes 4 info_size
    ++ (le_bytes 4 width
        ++ (le_bytes 4 ((2 ^ 32 - height % 2 ^ 32) % 2 ^ 32)
            ++ (le_bytes 2 1
                ++ (le_bytes 2 (depth * 8)
                    ++ (le_bytes 4 0
                        ++ (le_bytes 4 body
                            ++ (le_bytes 4 0
                                ++ (le_bytes 4 0
                                    ++ (le_bytes 4 palette_size ++ le_bytes 4 0)))))))))

-- An RGBQuad in memory.
abbrev pub quad_bytes : Quad → Text
quad_bytes q = q.red ∷ q.green ∷ q.blue ∷ q.reserved ∷ []

abbrev pub palette_bytes : List Quad → Text
palette_bytes [] = []
palette_bytes (q ∷ qs) = quad_bytes q ++ palette_bytes qs

-- All that PrepareBMPFrame puts in front of the pixels.
unfoldable pub head_bytes : ℕ → ℕ → ℕ → List Quad → Text
unfolding header_bytes info_bytes
head_bytes width height depth palette =
    let head = header_size + info_size in
    let body = width * depth * height % 2 ^ 32 in
    header_bytes ((head + palette_size + body) % 2 ^ 32) (head + palette_size)
    ++ (info_bytes width height depth body ++ palette_bytes palette)
