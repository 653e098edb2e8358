-- ===== src/UbootConf/Rows.antt =====
-- The rows of a configuration in the loops of src/utils/regisetup/uboot_conf/uboot_conf.cpp.
use regiboard.Base.{
  ℕ, zero, suc, ◌≤◌, ◌<◌, ◌≡◌, ◌≢◌, refl, ap, ◌∙◌, List, [], ◌∷◌, ◌++◌, Bool, true, All, length,
  ==-false, arith, append_assoc, map, length-append,
}
use regiboard.Base.Text.{Text}
use regiboard.UbootConf.{Regex, Arguments, apply_filter, c_string, prepend, scan, get_line, rows}

-- A character of a row: it ends neither the row of a text nor that of an image.
pub record Plain (c : ℕ) : Type 0 where
  pub not_zero : c ≢ 0
  pub not_lf : c ≢ 10

pub record Row (r : Text) : Type 0 where
  pub some_char : 0 < length r
  pub fits : length r ≤ 254
  pub plain : All Plain r

abbrev pub text_of : List Text → Text
text_of [] = []
text_of (r ∷ rs) = r ++ 10 ∷ text_of rs

abbrev pub image_of : List Text → Text
image_of [] = []
image_of (r ∷ rs) = r ++ 0 ∷ image_of rs

abbrev pub put_char : ℕ → Text × Text × Bool → Text × Text × Bool
put_char c (row, rest, good) = (c ∷ row, rest, good)

pub get_line-char :
    (room c : ℕ) (cs : Text) → c ≢ 10 → get_line (suc room) (c ∷ cs) ≡ put_char c (get_line room cs)
unfolding get_line
get_line-char room c cs h = rw (==-false c 10 h, get_line) refl

get_line-row :
    (room : ℕ) (r rest : Text)
    → All Plain r
    → length r ≤ room
    → get_line room (r ++ 10 ∷ rest) ≡ (r ++ 0 ∷ [], rest, true)
unfolding get_line
get_line-row room [] rest plain fits = refl
get_line-row zero (c ∷ r) rest plain fits = elim fits [ ]
get_line-row (suc room) (c ∷ r) rest (p, plain) fits =
    get_line-char room c (r ++ 10 ∷ rest) p.not_lf
    ∙ ap (put_char c) (get_line-row room r rest plain (omega arith))

rows-next :
    (fuel : ℕ) (text row rest : Text)
    → get_line 254 text ≡ (row, rest, true)
    → rows (suc fuel) text ≡ row ++ rows fuel rest
unfolding rows
rows-next fuel text row rest h = rw (h, rows) refl

-- The copies of the rows of a text are the rows of the image.
pub rows-text_of :
    (fuel : ℕ) (rs : List Text)
    → length rs < fuel
    → All Row rs
    → rows fuel (text_of rs) ≡ image_of rs
rows-text_of zero rs h all = elim h [ ]
rows-text_of (suc fuel) [] h all = unfold rows get_line in refl
rows-text_of (suc fuel) (r ∷ rs) h (row, all) =
    rows-next fuel _ _ _ (get_line-row 254 r (text_of rs) row.plain row.fits)
    ∙ ap (λ (t : Text). r ++ 0 ∷ [] ++ t) (rows-text_of fuel rs (omega arith) all)
    ∙ append_assoc r (0 ∷ []) (image_of rs)

pub length-image_of : (rs : List Text) → length (image_of rs) ≡ length (text_of rs)
length-image_of [] = refl
length-image_of (r ∷ rs) = omega (
  arith,
  length-append r (0 ∷ image_of rs),
  length-append r (10 ∷ text_of rs),
  length-image_of rs,
)

pub length-text_of : (rs : List Text) → length rs ≤ length (text_of rs)
length-text_of [] = omega arith
length-text_of (r ∷ rs) = omega (arith, length-append r (10 ∷ text_of rs), length-text_of rs)

c_string-Plain : (r s : Text) → All Plain r → c_string (r ++ 0 ∷ s) ≡ r
c_string-Plain [] s plain = refl
c_string-Plain (c ∷ r) s (p, plain) = rw (==-false c 0 p.not_zero, c_string-Plain r s plain) refl

module _ (rx : Regex) (args : Arguments) where
  abbrev filtered : Text → Text
  filtered row = apply_filter rx args row ++ 10 ∷ []

  scan-to_zero :
      (row r s : Text)
      → All Plain r
      → scan rx args row (r ++ 0 ∷ s) 0 ≡ prepend (filtered (c_string row)) (scan rx args s s 1)
  unfolding scan
  scan-to_zero row [] s plain = refl
  scan-to_zero row (c ∷ r) s (p, plain) = rw (==-false c 0 p.not_zero) (scan-to_zero row r s plain)

  scan-Row :
      (r s : Text) (end_of_conf : ℕ)
      → Row r
      → scan rx args (r ++ 0 ∷ s) (r ++ 0 ∷ s) end_of_conf
        ≡ prepend (filtered r) (scan rx args s s 1)
  unfolding scan
  scan-Row [] s end_of_conf row = absurd (omega (arith, row.some_char))
  scan-Row (c ∷ r) s end_of_conf row = rw (==-false c 0 row.plain.0.not_zero) (
      scan-to_zero (c ∷ (r ++ 0 ∷ s)) r s row.plain.1
      ∙ ap (λ (t : Text). prepend (filtered t) (scan rx args s s 1))
          (c_string-Plain (c ∷ r) s row.plain))

  scan-rest :
      (rs : List Text) (z : Text)
      → All Row rs
      → scan rx args (image_of rs ++ 0 ∷ z) (image_of rs ++ 0 ∷ z) 1
        ≡ (true, text_of (map (apply_filter rx args) rs))
  unfolding scan
  scan-rest [] z all = refl
  scan-rest (r ∷ rs) z (row, all) =
      ap (λ (t : Text). scan rx args t t 1) (append_assoc r (0 ∷ image_of rs) (0 ∷ z))
      ∙ scan-Row r (image_of rs ++ 0 ∷ z) 1 row
      ∙ ap (prepend (filtered r)) (scan-rest rs z all)
      ∙ ap (λ (t : Text). (true, t)) (append_assoc (apply_filter rx args r) (10 ∷ []) _)

  -- The loop over a segment with at least one row, up to the zero behind them.
  pub scan-image_of :
      (r : Text) (rs : List Text) (z : Text)
      → All Row (r ∷ rs)
      → scan rx args (image_of (r ∷ rs) ++ 0 ∷ z) (image_of (r ∷ rs) ++ 0 ∷ z) 0
        ≡ (true, text_of (map (apply_filter rx args) (r ∷ rs)))
  scan-image_of r rs z (row, all) =
      ap (λ (t : Text). scan rx args t t 0) (append_assoc r (0 ∷ image_of rs) (0 ∷ z))
      ∙ scan-Row r (image_of rs ++ 0 ∷ z) 0 row
      ∙ ap (prepend (filtered r)) (scan-rest rs z all)
      ∙ ap (λ (t : Text). (true, t)) (append_assoc (apply_filter rx args r) (10 ∷ []) _)
