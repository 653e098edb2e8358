-- ===== src/UbootConf/Runs.antt =====
-- Runs of the model of src/utils/regisetup/uboot_conf/uboot_conf.cpp at concrete inputs.
use regiboard.Base.{
  ℕ, zero, suc, ◌≡◌, ◌≢◌, ◌<◌, refl, [], ◌∷◌, ◌++◌, Option, none, some, false, ◌==◌, if◌then◌else◌,
  All, arith, map, replicate, take, bytes_eq,
}
use mathlib.Core.Option
use regiboard.Base.Text.{Text, codes}
use regiboard.UbootConf.{
  Arguments, read, apply_filter, bin_to_text, rows, u32_bytes, parse_args, replace, replace_match,
}
use regiboard.UbootConf.Rows.{Plain, Row, text_of}
use regiboard.UbootConf.RoundTrip.{text_to_bin-text_of, bin_to_text-text_to_bin, rows-long, segment}

-- The two sides of the first "=" of a row.
abbrev sides : Text → Option (Text × Text)
sides [] = none
sides (c ∷ cs) =
    let rest = Option.map (λ (s : Text × Text). (c ∷ s.0, s.1)) (sides cs) in
    if c == b'=' then some ([], cs) else rest

abbrev arguments : Arguments
arguments = record {
  input = codes "uboot.bin";
  output = codes "uboot.conf";
  oper = read;
  board_id = codes "1.2";
  lcd_model = codes "X";
  ts_model = codes "X";
}

letter-Plain : (c : ℕ) → 32 < c → Plain c
letter-Plain c h = record { not_zero = λ e. omega arith; not_lf = λ e. omega arith }

abbrev row : Text
row = codes "board_id=X"

row-Row : Row row
row-Row = record {
  some_char = omega arith;
  fits = omega arith;
  plain = (
    letter-Plain 98 (omega arith),
    (
      letter-Plain 111 (omega arith),
      (
        letter-Plain 97 (omega arith),
        (
          letter-Plain 114 (omega arith),
          (
            letter-Plain 100 (omega arith),
            (
              letter-Plain 95 (omega arith),
              (
                letter-Plain 105 (omega arith),
                (
                  letter-Plain 100 (omega arith),
                  (letter-Plain 61 (omega arith), (letter-Plain 88 (omega arith), tt)),
                ),
              ),
            ),
          ),
        ),
      ),
    ),
  );
}

abbrev other : Text
other = codes "a=1"

other-Row : Row other
other-Row = record {
  some_char = omega arith;
  fits = omega arith;
  plain = (
    letter-Plain 97 (omega arith),
    (letter-Plain 61 (omega arith), (letter-Plain 49 (omega arith), tt)),
  );
}

bin_to_text-text_to_bin_example :
    bin_to_text 16 sides arguments (replicate 16 7) (u32_bytes 5 ++ segment 16 (row ∷ other ∷ []))
    ≡ text_of (map (apply_filter sides arguments) (row ∷ other ∷ []))
bin_to_text-text_to_bin_example =
    bin_to_text-text_to_bin 16 (λ seg. 5) sides arguments (replicate 16 7) refl row (other ∷ [])
      (u32_bytes 5 ++ segment 16 (row ∷ other ∷ [])) (row-Row, (other-Row, tt)) (omega arith)
      (text_to_bin-text_of 16 (λ seg. 5) (row ∷ other ∷ []) (row-Row, (other-Row, tt))
        (omega arith))

filter_test :
    map (apply_filter sides arguments) (row ∷ other ∷ []) ≡ codes "board_id=1.2" ∷ other ∷ []
unfolding apply_filter replace_match replace bytes_eq
filter_test = refl

many_a : (n : ℕ) → All (λ (c : ℕ). c ≢ 10) (replicate n 97)
many_a zero = tt
many_a (suc n) = (λ e. omega arith, many_a n)

rows-long_example : rows 3 (replicate 255 97 ++ 10 ∷ other) ≡ take 254 (replicate 255 97)
rows-long_example = rows-long 2 (replicate 255 97) (10 ∷ other) (many_a 255) (omega arith)

args_test : (parse_args false [] [] (codes "r") [] [] []).oper ≡ read
unfolding parse_args bytes_eq
args_test = refl
