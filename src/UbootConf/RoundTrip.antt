-- ===== src/UbootConf/RoundTrip.antt =====
-- From a text to the image and back in src/utils/regisetup/uboot_conf/uboot_conf.cpp.
use regiboard.Base.{
  ℕ, zero, suc, ◌-◌, ◌≤◌, ◌<◌, ◌≡◌, ◌≢◌, refl, sym, ap, ◌∙◌, List, [], ◌∷◌, ◌++◌, true, false, All,
  length, ltb-false, arith, map, length-append, length-replicate, take, replicate, overlay,
  take-all, overlay-all, ==-false,
}
use regiboard.Base.Text.{Text}
use regiboard.UbootConf.{
  Regex, Arguments, apply_filter, scan, segments, bin_to_text, get_line, rows, u32_bytes, written,
  text_to_bin,
}
use regiboard.UbootConf.Rows.{
  Row, text_of, image_of, rows-text_of, length-image_of, length-text_of, scan-image_of,
  get_line-char,
}

-- The segment of an image: the rows, and zeros up to its end.
abbrev pub segment : ℕ → List Text → Text
segment sz rs = image_of rs ++ replicate (sz - length (image_of rs)) 0

-- A text of rows that fits into the segment is written as their image behind its checksum.
pub text_to_bin-text_of :
    (sz : ℕ) (crc : Text → ℕ) (rs : List Text)
    → All Row rs
    → length (text_of rs) ≤ sz
    → text_to_bin sz crc (text_of rs) ≡ written (u32_bytes (crc (segment sz rs)) ++ segment sz rs)
unfolding text_to_bin
text_to_bin-text_of sz crc rs all fits =
    rw
      (
        rows-text_of (suc (length (text_of rs))) rs (omega (arith, length-text_of rs)) all,
        ltb-false sz (length (image_of rs)) (omega (arith, length-image_of rs)),
      )
      refl

replicate-pos : (k : ℕ) → 0 < k → replicate {A = ℕ} k 0 ≡ 0 ∷ replicate (k - 1) 0
replicate-pos zero h = elim h [ ]
replicate-pos (suc k) h = let e : suc k - 1 ≡ k = omega arith in rw e refl

length-segment : (sz : ℕ) (rs : List Text) → length (image_of rs) ≤ sz → length (segment sz rs) ≡ sz
length-segment sz rs fits = omega (
  arith,
  length-append (image_of rs) (replicate (sz - length (image_of rs)) 0),
  length-replicate {A = ℕ} (sz - length (image_of rs)) 0,
)

segments-done :
    (fuel sz : ℕ) (rx : Regex) (args : Arguments) (seg stream whole out : Text)
    → overlay (take sz stream) seg ≡ whole
    → scan rx args whole whole 0 ≡ (true, out)
    → segments (suc fuel) sz rx args seg stream ≡ out
unfolding segments
segments-done fuel sz rx args seg stream whole out h k = rw (h, k, segments) refl

module _ (sz : ℕ) (crc : Text → ℕ) (rx : Regex) (args : Arguments) (junk : Text)
    (full : length junk ≡ sz) where
  read_segment :
      (rs : List Text)
      → length (image_of rs) ≤ sz
      → overlay (take sz (segment sz rs)) junk ≡ segment sz rs
  read_segment rs fits =
      ap (λ (t : Text). overlay t junk)
        (take-all sz (segment sz rs) (omega (arith, length-segment sz rs fits)))
      ∙ overlay-all (segment sz rs) junk (length-segment sz rs fits ∙ sym full)

  -- A configuration with at least one row, in rows of 1 to 254 characters, with room for a zero behind
  -- it in the segment: the binary image that is made of it is read back as the same rows in their order,
  -- each as the filter leaves it.
  pub bin_to_text-text_to_bin :
      (r : Text) (rs : List Text) (file : Text)
      → All Row (r ∷ rs)
      → length (text_of (r ∷ rs)) < sz
      → text_to_bin sz crc (text_of (r ∷ rs)) ≡ written file
      → bin_to_text sz rx args junk file ≡ text_of (map (apply_filter rx args) (r ∷ rs))
  unfolding bin_to_text u32_bytes
  bin_to_text-text_to_bin r rs file all fits made =
      let small : length (image_of (r ∷ rs)) < sz = omega (arith, length-image_of (r ∷ rs)) in
      let file_lem : file ≡ u32_bytes (crc (segment sz (r ∷ rs))) ++ segment sz (r ∷ rs) =
        cc (made, text_to_bin-text_of sz crc (r ∷ rs) all (omega arith)) in
      ap (bin_to_text sz rx args junk) file_lem
      ∙ segments-done _ sz rx args junk (segment sz (r ∷ rs)) (segment sz (r ∷ rs)) _
          (read_segment (r ∷ rs) (omega arith))
          (ap (λ (z : Text). scan rx args (image_of (r ∷ rs) ++ z) (image_of (r ∷ rs) ++ z) 0)
              (replicate-pos (sz - length (image_of (r ∷ rs))) (omega arith))
            ∙ scan-image_of rx args r rs _ all)

get_line-long :
    (room : ℕ) (r rest : Text)
    → All (λ (c : ℕ). c ≢ 10) r
    → room < length r
    → ((get_line room (r ++ rest)).0 ≡ take room r) × ((get_line room (r ++ rest)).2 ≡ false)
unfolding get_line
get_line-long room [] rest plain h = elim h [ ]
get_line-long zero (c ∷ r) rest (p, plain) h =
    (rw (==-false c 10 p, get_line) refl, rw (==-false c 10 p, get_line) refl)
get_line-long (suc room) (c ∷ r) rest (p, plain) h =
    let ih = get_line-long room r rest plain (omega arith) in
    let e = get_line-char room c (r ++ rest) p in rw e (ap (◌∷◌ c) ih.0, ih.1)

-- A row of 255 characters or more ends the loop: its first 254 characters are the last that are taken
-- of the text, and all the rows behind it are lost.
pub rows-long :
    (fuel : ℕ) (r rest : Text)
    → All (λ (c : ℕ). c ≢ 10) r
    → 254 < length r
    → rows (suc fuel) (r ++ rest) ≡ take 254 r
unfolding rows
rows-long fuel r rest plain h =
    let line = get_line-long 254 r rest plain h in rw (line.1, rows) line.0
