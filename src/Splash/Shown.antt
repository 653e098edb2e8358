-- ===== src/Splash/Shown.antt =====
-- What a bitmap of PrintBMP in src/utils/regisplash/main.cpp looks like on the screen.
use regiboard.Base.{
  le-mul, ℕ, zero, suc, ◌+◌, ◌-◌, ◌*◌, ◌/◌, ◌%◌, ◌^◌, ◌≤◌, ◌<◌, ◌≡◌, refl, sym, ap, ◌∙◌, leb-false,
  ==-false, length, drop, get_or, length-drop, get_or-drop, some, arith,
}
use regiboard.Base.Text.{Text}
use regiboard.Splash.{
  Screen, Headers, read_headers, Place, minus, place_of, draw_rows, draw_image, crash, printed,
  printed_of, print_at, print_bmp,
}
use regiboard.Splash.Rows.{row_at, Drawn, draw_rows-Drawn, draw_rows-behind}

le-mul_pos : (a b : ℕ) → 1 ≤ b → a ≤ a * b
le-mul_pos a zero pos = absurd (omega arith)
le-mul_pos a (suc b) pos = let e : a * suc b ≡ a + a * b = omega arith in omega arith

-- The place of a bitmap in the middle of the screen, without the wrap-around.
abbrev pub middle : Headers → Screen → Place
middle h s = record {
  depth = h.bit_count / 8;
  row_width = h.bi_width * s.depth;
  ext_row_width = h.size_image / h.bi_height;
  x_offset = (s.width - h.bi_width) / 2 * s.depth;
  y_offset = (s.height - h.bi_height) / 2;
  scr_width = s.width * s.depth;
}

module _ (h : Headers) (s : Screen) (deep : h.bit_count / 8 ≡ s.depth) (some_depth : 1 ≤ s.depth)
    (some_width : 1 ≤ h.bi_width) (some_height : 1 ≤ h.bi_height) (wide : h.bi_width ≤ s.width)
    (high : h.bi_height ≤ s.height) (small : s.width * s.depth * (s.height + 1) < 2 ^ 32) where
  scr_width-lt : s.width * s.depth < 2 ^ 32
  scr_width-lt = let up = le-mul_pos (s.width * s.depth) (s.height + 1) (omega arith) in omega arith

  width-lt : s.width < 2 ^ 32
  width-lt =
      let up = le-mul_pos s.width s.depth some_depth in let less = scr_width-lt in omega arith

  height-lt : s.height < 2 ^ 32
  height-lt =
      let row = le-mul_pos s.width s.depth some_depth in
      let up = le-mul_pos (s.height + 1) (s.width * s.depth) (omega arith) in
      let turn : (s.height + 1) * (s.width * s.depth) ≡ s.width * s.depth * (s.height + 1) =
        omega arith in
      omega arith

  minus-sub : (a b : ℕ) → b ≤ a → a < 2 ^ 32 → minus a b ≡ a - b
  minus-sub a b le lt = omega arith

  -- A row of the bitmap lies in a row of the screen.
  row-inside : (middle h s).x_offset + (middle h s).row_width ≤ (middle h s).scr_width
  row-inside =
      let q : ℕ = (s.width - h.bi_width) / 2 in
      let le : q + h.bi_width ≤ s.width = omega arith in
      let up = le-mul (q + h.bi_width) s.width s.depth le in
      let both : (q + h.bi_width) * s.depth ≡ q * s.depth + h.bi_width * s.depth = omega arith in
      omega arith

  place_of-middle : place_of h s ≡ some (middle h s)
  unfolding place_of
  place_of-middle =
      let inside = row-inside in
      let less = scr_width-lt in
      let x : (minus s.width h.bi_width) / 2 * s.depth % 2 ^ 32 ≡ (middle h s).x_offset =
        rw (minus-sub s.width h.bi_width wide width-lt) (omega arith) in
      let w : h.bi_width * s.depth % 2 ^ 32 ≡ h.bi_width * s.depth = omega arith in
      let v : s.width * s.depth % 2 ^ 32 ≡ s.width * s.depth = omega arith in
      rw
        (
          ==-false h.bi_height 0 (λ e. absurd (omega arith)),
          deep,
          x,
          w,
          v,
          minus-sub s.height h.bi_height high height-lt,
        )
        refl

  row-narrow : (middle h s).row_width ≤ (middle h s).scr_width
  row-narrow = let inside = row-inside in omega arith

  row_at-inside :
      (row : ℕ)
      → row + (middle h s).y_offset < s.height
      → row_at (middle h s) row + (middle h s).row_width ≤ s.width * s.height * s.depth
  row_at-inside row lt =
      let inside = row-inside in
      let up =
        le-mul (row + (middle h s).y_offset + 1) s.height (s.width * s.depth) (omega arith) in
      let area : s.height * (s.width * s.depth) ≡ s.width * s.height * s.depth = omega arith in
      let next : (row + (middle h s).y_offset + 1) * (s.width * s.depth)
          ≡ (row + (middle h s).y_offset) * (s.width * s.depth) + s.width * s.depth =
        omega arith in
      omega arith

  area-lt : s.width * s.height * s.depth + s.width * s.depth < 2 ^ 32
  area-lt =
      let area : s.width * s.depth * (s.height + 1)
          ≡ s.width * s.height * s.depth + s.width * s.depth =
        omega arith in
      omega arith

  module _ (junk : ℕ → Text) (file : Text) (signed : h.bi_height < 2 ^ 31) where
    print_at-rows :
        print_at junk h file s (place_of h s)
        ≡ printed_of (
            draw_rows h
              (middle h s)
              (middle h s).depth
              h.bi_height
              (drop h.off_bits file)
              (junk (middle h s).ext_row_width)
              s.buffer)
    unfolding print_at draw_image
    print_at-rows =
        rw (place_of-middle, leb-false (2 ^ 31) h.bi_height signed)
          (ap
            (λ (d : ℕ). printed_of (
              draw_rows h (middle h s) d h.bi_height (drop h.off_bits file)
                (junk (middle h s).ext_row_width) s.buffer))
            (sym deep))

    module _ (fresh : (n : ℕ) → length (junk n) ≡ n)
        (memory : length s.buffer ≡ s.width * s.height * s.depth)
        (padded : h.bi_width * s.depth ≤ h.size_image / h.bi_height) where
      print_at-shown :
          h.bi_height < s.height
          → h.off_bits + h.bi_height * (h.size_image / h.bi_height) ≤ length file
          → (mem : Text) × (print_at junk h file s (place_of h s) ≡ printed mem)
            × Drawn (middle h s) h.bi_height (drop h.off_bits file) s.buffer mem
      print_at-shown below enough =
          let p : Place = middle h s in
          let inside = row_at-inside h.bi_height (omega arith) in
          let area = area-lt in
          let rows =
            draw_rows-Drawn h p row-narrow h.bi_height (drop h.off_bits file) (junk p.ext_row_width)
              s.buffer padded (fresh p.ext_row_width) (omega (arith, length-drop h.off_bits file))
              (omega arith) (omega arith) in
          (rows.0, print_at-rows ∙ ap printed_of rows.1, rows.2)

      print_at-crash : h.bi_height ≡ s.height → print_at junk h file s (place_of h s) ≡ crash
      print_at-crash full =
          let p : Place = middle h s in
          let area = area-lt in
          let inside = row-inside in
          let wide_row =
            le-mul_pos 1 (h.bi_width * s.depth)
              (omega (arith, le-mul_pos h.bi_width s.depth some_depth)) in
          let top : p.y_offset ≡ 0 = omega arith in
          let last : row_at p h.bi_height ≡ s.width * s.height * s.depth + p.x_offset =
            rw (top, full) (omega arith) in
          print_at-rows
          ∙ ap printed_of (
              draw_rows-behind h p row-narrow h.bi_height (drop h.off_bits file)
                (junk p.ext_row_width) s.buffer (omega (arith, fresh p.ext_row_width)) (omega arith)
                (omega arith))

-- A bitmap of the depth of the screen that is not wider, in a file whose rows are padded as it says.
module _ (junk : ℕ → Text) (file : Text) (s : Screen)
    (deep : (read_headers file).bit_count / 8 ≡ s.depth) (some_depth : 1 ≤ s.depth)
    (some_width : 1 ≤ (read_headers file).bi_width)
    (some_height : 1 ≤ (read_headers file).bi_height)
    (wide : (read_headers file).bi_width ≤ s.width)
    (small : s.width * s.depth * (s.height + 1) < 2 ^ 32)
    (signed : (read_headers file).bi_height < 2 ^ 31) (fresh : (n : ℕ) → length (junk n) ≡ n)
    (memory : length s.buffer ≡ s.width * s.height * s.depth)
    (padded : (read_headers file).bi_width * s.depth
      ≤ (read_headers file).size_image / (read_headers file).bi_height) where
  abbrev pub head : Headers
  head = read_headers file

  abbrev pub row_bytes : ℕ
  row_bytes = head.size_image / head.bi_height

  -- A bitmap of the depth of the screen, not wider and not as high, in a whole file whose rows are long
  -- enough: PrintBMP returns true, and row i of the file, counted from the bottom of the image, stands in
  -- the middle of the screen's line (height - image height) / 2 + image height - i, which is one line below
  -- its place in the middle.
  pub print_bmp-shown :
      head.bi_height < s.height
      → head.off_bits + head.bi_height * row_bytes ≤ length file
      → (mem : Text) × (print_bmp junk (some file) s ≡ printed mem)
        × ((i j : ℕ)
            → i < head.bi_height
            → j < head.bi_width * s.depth
            → get_or mem
                (((s.height - head.bi_height) / 2 + head.bi_height - i) * (s.width * s.depth)
                  + ((s.width - head.bi_width) / 2 * s.depth + j))
                0
              ≡ get_or file (head.off_bits + (i * row_bytes + j)) 0)
  unfolding print_bmp
  print_bmp-shown below enough =
      let shown =
        print_at-shown head s deep some_depth some_width some_height wide (omega arith) small junk
          file signed fresh memory padded below enough in
      let place : (i j : ℕ)
          → i < head.bi_height
          → row_at (middle head s) (head.bi_height - i) + j
            ≡ ((s.height - head.bi_height) / 2 + head.bi_height - i) * (s.width * s.depth)
              + ((s.width - head.bi_width) / 2 * s.depth + j) =
        λ i j lt.
          let line : head.bi_height - i + (s.height - head.bi_height) / 2
              ≡ (s.height - head.bi_height) / 2 + head.bi_height - i =
            omega arith in
          rw line (omega arith) in
      (
        shown.0,
        shown.1,
        λ i j lt le.
            let turn : head.bi_height - (head.bi_height - i) ≡ i = omega arith in
            ap (λ (n : ℕ). get_or shown.0 n 0) (sym (place i j lt))
            ∙ shown.2.1 (head.bi_height - i) j (omega arith) (omega arith) le
            ∙ get_or-drop head.off_bits file
                ((head.bi_height - (head.bi_height - i)) * row_bytes + j) 0
            ∙ ap (λ (n : ℕ). get_or file (head.off_bits + (n * row_bytes + j)) 0) turn,
      )

  -- Such a bitmap as high as the screen makes PrintBMP write behind the memory of the screen.
  pub print_bmp-crash : head.bi_height ≡ s.height → print_bmp junk (some file) s ≡ crash
  unfolding print_bmp
  print_bmp-crash full =
      print_at-crash head s deep some_depth some_width some_height wide (omega arith) small junk
        file signed fresh memory padded full
