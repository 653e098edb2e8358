-- ===== src/Splash/Rows.antt =====
-- The loop over the rows in PrintBMP of src/utils/regisplash/main.cpp.
use regiboard.Base.{
  ℕ, zero, suc, ◌+◌, ◌-◌, ◌*◌, ◌^◌, ◌≤◌, ◌<◌, ◌≡◌, ◌⊎◌, inl, inr, refl, sym, ap, ◌∙◌, ==-true,
  ltb-false, length, take, drop, overlay, get_or, length-take, length-drop, length-overlay,
  get_or-drop, get_or-take, get_or-overlay, none, some, arith,
}
use regiboard.Base.Text.{Text}
use regiboard.Splash.{Headers, Place, row_offset, draw_row, draw_rows}
use regiboard.Splash.Writes.{
  patched, write_at-patched, write_at-behind, length-patched, get_or-patched, get_or-patched_ne,
}

le_cases : (k row : ℕ) → k ≤ suc row → (k ≤ row) ⊎ (k ≡ suc row)
le_cases k row le = ground arith

-- Where the screen has a row of the bitmap.
abbrev pub row_at : Place → ℕ → ℕ
row_at p row = (row + p.y_offset) * p.scr_width + p.x_offset

-- What the turns from `row` down to 0 leave in the memory.
abbrev pub Drawn : Place → ℕ → Text → Text → Text → Type 0
Drawn p row file mem mem' =
    (length mem' ≡ length mem)
    × ((k j : ℕ)
        → 1 ≤ k
        → k ≤ row
        → j < p.row_width
        → get_or mem' (row_at p k + j) 0 ≡ get_or file ((row - k) * p.ext_row_width + j) 0)
    × ((i : ℕ) → row_at p row + p.row_width ≤ i → get_or mem' i 0 ≡ get_or mem i 0)

module _ (h : Headers) (p : Place) (wide : p.row_width ≤ p.scr_width) where
  -- The memory with the start of a line in a row.
  abbrev row_of : Text → ℕ → Text → Text
  row_of line row mem = patched (row_at p row) (take p.row_width line) mem

  row_offset-row_at : (row : ℕ) → row_at p row < 2 ^ 32 → row_offset p row ≡ row_at p row
  unfolding row_offset
  row_offset-row_at row small = omega arith

  module _ (line mem : Text) (row : ℕ) (small : row_at p row < 2 ^ 32)
      (whole : p.row_width ≤ length line) where
    length-line : length (take p.row_width line) ≡ p.row_width
    length-line = omega (arith, length-take p.row_width line)

    pub draw_row-patched :
        row_at p row + p.row_width ≤ length mem
        → draw_row h p p.depth row line mem ≡ some (row_of line row mem)
    unfolding draw_row
    draw_row-patched fits =
        rw
          (
            ==-true p.depth p.depth refl,
            ltb-false (length line) p.row_width whole,
            row_offset-row_at row small,
          )
          (write_at-patched (row_at p row) (take p.row_width line) mem (omega (arith, length-line)))

    length-row : row_at p row + p.row_width ≤ length mem → length (row_of line row mem) ≡ length mem
    length-row fits =
        length-patched (row_at p row) (take p.row_width line) mem (omega (arith, length-line))

    get_or-row :
        (j : ℕ)
        → row_at p row + p.row_width ≤ length mem
        → j < p.row_width
        → get_or (row_of line row mem) (row_at p row + j) 0 ≡ get_or line j 0
    get_or-row j fits lt =
        get_or-patched (row_at p row) (take p.row_width line) mem j (omega (arith, length-line))
          (omega (arith, length-line))
        ∙ get_or-take p.row_width line j 0 lt

    get_or-row_behind :
        (i : ℕ)
        → row_at p row + p.row_width ≤ length mem
        → row_at p row + p.row_width ≤ i
        → get_or (row_of line row mem) i 0 ≡ get_or mem i 0
    get_or-row_behind i fits behind =
        get_or-patched_ne (row_at p row) (take p.row_width line) mem i (omega (arith, length-line))
          (inr (omega (arith, length-line)))

    pub draw_row-behind :
        length mem < row_at p row + p.row_width → draw_row h p p.depth row line mem ≡ none
    unfolding draw_row
    draw_row-behind behind =
        rw
          (
            ==-true p.depth p.depth refl,
            ltb-false (length line) p.row_width whole,
            row_offset-row_at row small,
          )
          (write_at-behind (row_at p row) (take p.row_width line) mem (omega (arith, length-line)))

  row_at-suc : (row : ℕ) → row_at p (suc row) ≡ row_at p row + p.scr_width
  row_at-suc row = omega arith

  later-row :
      (row k j : ℕ)
      → k ≤ row
      → (suc row - k) * p.ext_row_width + j ≡ p.ext_row_width + ((row - k) * p.ext_row_width + j)
  later-row row k j le = let e : suc row - k ≡ suc (row - k) = omega arith in rw e (omega arith)

  first-or-below :
      (row k : ℕ) (mem file : Text) (j : ℕ)
      → get_or mem (row_at p (suc row) + j) 0 ≡ get_or file j 0
      → (k ≤ row
          → get_or mem (row_at p k + j) 0 ≡ get_or file ((suc row - k) * p.ext_row_width + j) 0)
      → k ≤ suc row
      → get_or mem (row_at p k + j) 0 ≡ get_or file ((suc row - k) * p.ext_row_width + j) 0
  first-or-below row k mem file j first below le = elim (le_cases k row le) [
    | inl e ↦ below e
    | inr e ↦
        let none : suc row - suc row ≡ 0 = omega arith in
        let start : 0 * p.ext_row_width + j ≡ j = omega arith in rw (e, none, start) first
  ]

  pub draw_rows-Drawn :
      (row : ℕ) (file line mem : Text)
      → p.row_width ≤ p.ext_row_width
      → length line ≡ p.ext_row_width
      → row * p.ext_row_width ≤ length file
      → row_at p row + p.row_width ≤ length mem
      → row_at p row < 2 ^ 32
      → (mem' : Text) × (draw_rows h p p.depth row file line mem ≡ some mem')
        × Drawn p row file mem mem'
  unfolding draw_rows
  draw_rows-Drawn zero file line mem ext full enough fits small =
      let line' : Text = overlay (take p.ext_row_width file) line in
      let whole : p.row_width ≤ length line' =
        omega (arith, length-overlay (take p.ext_row_width file) line) in
      (
        row_of line' 0 mem,
        draw_row-patched line' mem 0 small whole fits,
        (
          length-row line' mem 0 small whole fits,
          λ k j one none lt. absurd (omega arith),
          λ i behind. get_or-row_behind line' mem 0 small whole i fits behind,
        ),
      )
  draw_rows-Drawn (suc row) file line mem ext full enough fits small =
      let ext_row : Text = take p.ext_row_width file in
      let line' : Text = overlay ext_row line in
      let up : row_at p (suc row) ≡ row_at p row + p.scr_width = row_at-suc row in
      let split : suc row * p.ext_row_width ≡ p.ext_row_width + row * p.ext_row_width =
        omega arith in
      let size : length ext_row ≡ p.ext_row_width =
        omega (arith, length-take p.ext_row_width file) in
      let size' : length line' ≡ p.ext_row_width = omega (arith, length-overlay ext_row line) in
      let whole : p.row_width ≤ length line' = omega arith in
      let mem1 : Text = row_of line' (suc row) mem in
      let turn : draw_row h p p.depth (suc row) line' mem ≡ some mem1 =
        draw_row-patched line' mem (suc row) small whole fits in
      let same : length mem1 ≡ length mem = length-row line' mem (suc row) small whole fits in
      let rest =
        draw_rows-Drawn row (drop p.ext_row_width file) line' mem1 ext size'
          (omega (arith, length-drop p.ext_row_width file)) (omega arith) (omega arith) in
      let below : (k j : ℕ)
          → 1 ≤ k
          → k ≤ row
          → j < p.row_width
          → get_or rest.0 (row_at p k + j) 0 ≡ get_or file ((suc row - k) * p.ext_row_width + j) 0 =
        λ k j one le lt.
          let far : (suc row - k) * p.ext_row_width + j
              ≡ p.ext_row_width + ((row - k) * p.ext_row_width + j) =
            later-row row k j le in
          rest.2.1 k j one le lt
          ∙ get_or-drop p.ext_row_width file ((row - k) * p.ext_row_width + j) 0
          ∙ ap (λ (n : ℕ). get_or file n 0) (sym far) in
      let behind : (i : ℕ)
          → row_at p (suc row) + p.row_width ≤ i
          → get_or rest.0 i 0 ≡ get_or mem i 0 =
        λ i le.
          rest.2.2 i (omega arith) ∙ get_or-row_behind line' mem (suc row) small whole i fits le in
      let first : (j : ℕ)
          → j < p.row_width
          → get_or rest.0 (row_at p (suc row) + j) 0 ≡ get_or file j 0 =
        λ j lt.
          rest.2.2 (row_at p (suc row) + j) (omega arith)
          ∙ get_or-row line' mem (suc row) small whole j fits lt
          ∙ get_or-overlay ext_row line j 0 (omega arith) (omega arith)
          ∙ get_or-take p.ext_row_width file j 0 (omega arith) in
      (
        rest.0,
        rw (turn, draw_rows) rest.1,
        (
          rest.2.0 ∙ same,
          λ k j one le lt.
              first-or-below row k rest.0 file j (first j lt) (λ le'. below k j one le' lt) le,
          behind,
        ),
      )

  pub draw_rows-behind :
      (row : ℕ) (file line mem : Text)
      → p.row_width ≤ length line
      → row_at p row < 2 ^ 32
      → length mem < row_at p row + p.row_width
      → draw_rows h p p.depth row file line mem ≡ none
  unfolding draw_rows
  draw_rows-behind zero file line mem whole small behind =
      let line' : Text = overlay (take p.ext_row_width file) line in
      draw_row-behind line' mem 0 small
        (omega (arith, length-overlay (take p.ext_row_width file) line)) behind
  draw_rows-behind (suc row) file line mem whole small behind =
      let line' : Text = overlay (take p.ext_row_width file) line in
      rw
        (
          draw_row-behind line' mem (suc row) small
              (omega (arith, length-overlay (take p.ext_row_width file) line)) behind,
          draw_rows,
        )
        refl
