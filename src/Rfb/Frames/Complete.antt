-- ===== src/Rfb/Frames/Complete.antt =====
-- The frames that PrepareBMPFrame of src/utils/regirfb/framebuf.cpp finishes.
use regiboard.Base.{
  ℕ, zero, suc, ◌+◌, ◌*◌, ◌/◌, ◌%◌, ◌^◌, ◌≤◌, ◌<◌, ◌≡◌, inl, inr, refl, sym, ap, ◌∙◌, List, [], ◌∷◌,
  ◌++◌, true, false, ◌==◌, ==-false, Option, none, some, length, take, drop, overlay, ltb-false,
  length-append, length-drop, length-overlay, take-append_add, take-overlay, take-append-drop,
  Bool-cases, arith,
}
use regiboard.Base.Text.{Text}
use regiboard.Rfb.Color.{Quad, converted, convert, lanes}
use regiboard.Rfb.Bitmap.{head_bytes, palette_bytes, header_bytes, info_bytes}
use regiboard.Rfb.Frames.{
  Screen, Constants, constants, frame_at, set_frame, get_frame, get_next_frame_id,
  switch_to_next_frame, is_wrong_depth, head_size, finish_frame, store_pixels, convert_frame,
  prepare_into, prepare_bmp_frame, returned, frame_body,
}
use regiboard.Rfb.Frames.Binding.{Bound}
use regiboard.Rfb.Frames.Kept.{Kept, finish_frame-Kept}

-- The bitmap of a screen with the memory `src`.
abbrev pub bitmap : Screen → Text → Text
bitmap s src = head_bytes s.width s.height 1 s.palette ++ lanes (s.width * s.height) s.depth src

pub length-lanes : (n depth : ℕ) (src : Text) → length (lanes n depth src) ≡ n
unfolding lanes
length-lanes zero depth src = refl
length-lanes (suc n) depth src = ap suc (length-lanes n depth (drop depth src))

pub length-palette_bytes : (qs : List Quad) → length (palette_bytes qs) ≡ 4 * length qs
length-palette_bytes [] = refl
length-palette_bytes (q ∷ qs) = omega (arith, length-palette_bytes qs)

pub length-head_bytes :
    (w h depth : ℕ) (palette : List Quad)
    → length palette ≡ 256
    → length (head_bytes w h depth palette) ≡ 1078
unfolding head_bytes header_bytes info_bytes
length-head_bytes w h depth palette full = omega (arith, length-palette_bytes palette)

convert-whole :
    (depth k : ℕ) (dst src : Text)
    → 0 < k
    → convert depth dst src (8 * k) ≡ converted (overlay (lanes (8 * k) depth src) dst)
unfolding convert
convert-whole depth k dst src pos =
    let e : 8 * k / 8 * 8 ≡ 8 * k = omega arith in
    rw (==-false (8 * k) 0 (λ z. omega arith), ltb-false (8 * k) 8 (omega arith), e) refl

module _ (s : Screen) (src : Text) (k : ℕ) (pixels : s.width * s.height ≡ 8 * k) (many : 4 ≤ k)
    (valid : s.cur_frame ≤ 1) (palette : length s.palette ≡ 256) (bound : Bound s)
    (small : s.width * s.height * s.depth < 2 ^ 31) (whole : length src ≡ s.size) where
  -- The buffer of the next frame.
  next_buff :
      (b : Text) × ((frame_at (get_next_frame_id s) s).buff ≡ some b) × (length b ≡ s.size + 1024)
  unfolding frame_at get_next_frame_id
  next_buff = elim (Bool-cases (s.cur_frame == 0)) [
    | inl e ↦ rw e (bound.buff_1, bound.has_1, bound.room_1)
    | inr e ↦ rw e (bound.buff_0, bound.has_0, bound.room_0)
  ]

  right : is_wrong_depth s.depth ≡ false
  unfolding is_wrong_depth
  right = elim bound.known_depth [ inl e ↦ rw e refl | inr e ↦ rw e refl ]

  -- The size of the screen in pixels, by its depth.
  enough : (s.size ≡ s.depth * (8 * k)) × (8 * k + 54 ≤ s.size) × (8 * k < 2 ^ 32)
  enough = elim bound.known_depth [
    | inl e ↦
        (let total = ap (λ (d : ℕ). s.width * s.height * d) e in
          let scaled = ap (λ (d : ℕ). d * (8 * k)) e in
          let size = bound.size_lem in
          (omega (arith, total, scaled, size), omega (arith, total, size), omega (arith, total)))
    | inr e ↦
        (let total = ap (λ (d : ℕ). s.width * s.height * d) e in
          let scaled = ap (λ (d : ℕ). d * (8 * k)) e in
          let size = bound.size_lem in
          (omega (arith, total, scaled, size), omega (arith, total, size), omega (arith, total)))
  ]

  head : Text
  head = head_bytes s.width s.height 1 s.palette

  -- What PrepareBMPFrame leaves in the buffer of the next frame.
  filled : Text → Text
  filled b =
      take head_size (overlay head b)
      ++ overlay (lanes (8 * k) s.depth src) (drop head_size (overlay head b))

  prepare_into-filled :
      (b : Text)
      → length b ≡ s.size + 1024
      → prepare_into (constants none 1 s) src (some b) s
        ≡ returned true (finish_frame (8 * k) (filled b) s)
  unfolding prepare_into constants convert_frame store_pixels head filled
  prepare_into-filled b room =
      let wide : s.width * 1 * s.height % 2 ^ 32 ≡ 8 * k =
        (let one : s.width * 1 ≡ s.width = omega arith in
          omega (arith, ap (λ (x : ℕ). x * s.height) one, enough)) in
      let long : length (head_bytes s.width s.height 1 s.palette) ≡ 1078 =
        length-head_bytes s.width s.height 1 s.palette palette in
      let kept : length (overlay (head_bytes s.width s.height 1 s.palette) b) ≡ length b =
        length-overlay (head_bytes s.width s.height 1 s.palette) b in
      let same : 8 * k / 8 * 8 ≡ 8 * k = omega arith in
      rw
        (
          long,
          ltb-false (length b) 1078 (omega (arith, enough)),
          right,
          wide,
          convert-whole s.depth k
              (drop head_size (overlay (head_bytes s.width s.height 1 s.palette) b)) src
              (omega arith),
          same,
          kept,
          ltb-false (length b) (head_size + 8 * k) (omega (arith, enough)),
          ltb-false (length src) (s.depth * (8 * k)) (omega (arith, enough)),
        )
        refl

  take-filled :
      (b : Text)
      → length b ≡ s.size + 1024
      → take ((1078 + 8 * k) % 2 ^ 32) (filled b) ≡ head ++ lanes (8 * k) s.depth src
  unfolding filled head
  take-filled b room =
      let top = head_bytes s.width s.height 1 s.palette in
      let long : length top ≡ 1078 = length-head_bytes s.width s.height 1 s.palette palette in
      let row = lanes (8 * k) s.depth src in
      let rest : Text = drop head_size (overlay top b) in
      let front : take head_size (overlay top b) ≡ top =
        ap (λ (n : ℕ). take n (overlay top b)) (sym long)
        ∙ take-overlay top b (omega (arith, enough)) in
      let off : (1078 + 8 * k) % 2 ^ 32 ≡ length top + 8 * k = omega (arith, enough) in
      let behind : 8 * k ≤ length rest =
        omega (arith, enough, length-drop head_size (overlay top b), length-overlay top b) in
      rw (off, front)
        (take-append_add top (overlay row rest) (8 * k)
          ∙ ap (◌++◌ top) (
              ap (λ (n : ℕ). take n (overlay row rest)) (sym (length-lanes (8 * k) s.depth src))
              ∙ take-overlay row rest (omega (arith, length-lanes (8 * k) s.depth src))))

  get_frame-finish :
      (body : ℕ) (bytes : Text)
      → get_frame (finish_frame body bytes s)
        ≡ record { buff = some bytes; size = (head_size + body) % 2 ^ 32 }
  unfolding get_frame finish_frame switch_to_next_frame get_next_frame_id set_frame frame_at
  get_frame-finish body bytes = ground arith

  length-filled : (b : Text) → length b ≡ s.size + 1024 → length (filled b) ≡ s.size + 1024
  unfolding filled head
  length-filled b room =
      let whole_buff = overlay (head_bytes s.width s.height 1 s.palette) b in
      omega (
        arith,
        length-append (take head_size whole_buff)
            (overlay (lanes (8 * k) s.depth src) (drop head_size whole_buff)),
        length-overlay (lanes (8 * k) s.depth src) (drop head_size whole_buff),
        length-append (take head_size whole_buff) (drop head_size whole_buff),
        ap (length {A = ℕ}) (take-append-drop head_size whole_buff),
        length-overlay (head_bytes s.width s.height 1 s.palette) b,
        room,
      )

  -- A bound screen of at least 32 pixels in groups of 8, whose pixels stand in `src`, and whose palette is
  -- full: PrepareBMPFrame, when its constants are those of the screen, returns true, and the frame that is
  -- shown then is the bitmap of all the pixels behind its headers and its palette; the screen stays bound
  -- in its mode.
  pub prepare-bitmap :
      (known : Option Constants)
      → constants known 1 s ≡ constants none 1 s
      → (t : Screen) × ((prepare_bmp_frame 1 src known s).0 ≡ returned true t)
        × (frame_body (get_frame t) ≡ some (bitmap s src))
        × Kept s t
  unfolding prepare_bmp_frame frame_body head
  prepare-bitmap known agree =
      let (b, has, room) = next_buff in
      (
        finish_frame (8 * k) (filled b) s,
        rw (agree, has) (prepare_into-filled b room),
        rw (get_frame-finish (8 * k) (filled b), pixels) (ap some (take-filled b room)),
        finish_frame-Kept s (8 * k) (filled b) valid bound (length-filled b room),
      )
