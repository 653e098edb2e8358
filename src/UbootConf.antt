-- ===== src/UbootConf.antt =====
-- src/utils/regisetup/uboot_conf/uboot_conf.cpp: the environment of U-Boot as a text and as a binary
-- image. `sz` is ENV_SIZE, `crc` the checksum of zlib, and `rx` boost::regex_match with the expression
-- "([^=]+)=(.*)", from a row to its two groups.
pub mod RoundTrip
pub mod Rows
pub mod Fuel
pub mod Runs
use regiboard.Base.{
  ℕ, zero, suc, ◌+◌, ◌-◌, ◌/◌, ◌%◌, ◌^◌, List, [], ◌∷◌, ◌++◌, Option, none, some, Bool, true, false,
  ◌==◌, ◌&&◌, not, if◌then◌else◌, length, take, drop, overlay, replicate, bytes_eq, ltb, leb,
}
use regiboard.Base.Text.{Text, codes}

pub data Operation : Type 0 where
  read write unknown : Operation

pub record Arguments : Type 0 where
  pub input : Text
  pub output : Text
  pub oper : Operation
  pub board_id : Text
  pub lcd_model : Text
  pub ts_model : Text

abbrev pub undef : Text
undef = codes "X"

-- ParseArgs, from the values that boost::program_options has read.
unfoldable pub parse_args : Bool → Text → Text → Text → Text → Text → Text → Arguments
parse_args help input output command board lcd ts =
    if help
    then record {
      input = [];
      output = [];
      oper = unknown;
      board_id = [];
      lcd_model = [];
      ts_model = [];
    }
    else record {
      input = input;
      output = output;
      oper = if bytes_eq command (codes "w") then write else read;
      board_id = board;
      lcd_model = lcd;
      ts_model = ts;
    }

abbrev pub Regex : Type 0
Regex = Text → Option (Text × Text)

is_new : Text → Text → Text → Bool
is_new name key value = bytes_eq name key && not (bytes_eq value undef)

-- The rows that ApplyFilter replaces.
unfoldable pub replace : Arguments → Text → Text → Text
unfolding is_new
replace args name row =
    if is_new name (codes "board_id") args.board_id
    then codes "board_id=" ++ args.board_id
    else if is_new name (codes "lcd_model") args.lcd_model
    then codes "lcd_model=" ++ args.lcd_model
    else if is_new name (codes "ts_model") args.ts_model
    then codes "ts_model=" ++ args.ts_model
    else row

unfoldable pub replace_match : Arguments → Option (Text × Text) → Text → Text
replace_match args none row = row
replace_match args (some (name, value)) row = replace args name row

-- ApplyFilter
unfoldable pub apply_filter : Regex → Arguments → Text → Text
apply_filter rx args row = replace_match args (rx row) row

-- The text up to its zero, as a pointer to it is read.
abbrev pub c_string : Text → Text
c_string [] = []
c_string (c ∷ cs) = let rest = c_string cs in if c == 0 then [] else c ∷ rest

-- What is written, and whether the end of the configuration has been met.
abbrev pub Scanned : Type 0
Scanned = Bool × Text

abbrev pub prepend : Text → Scanned → Scanned
prepend t (done, out) = (done, t ++ out)

leftover : Regex → Arguments → Text → Text
leftover rx args [] = []
leftover rx args (c ∷ cs) = apply_filter rx args (c ∷ cs)

-- The loop of BinToText over a segment: `row` is the segment from `row_off` on, the other list the
-- segment from `off` on.
unfoldable pub scan : Regex → Arguments → Text → Text → ℕ → Scanned
unfolding leftover
scan rx args row [] end_of_conf = (false, leftover rx args row)
scan rx args row (b ∷ seg) end_of_conf =
    let end' = if b == 0 then (end_of_conf + 1) % 256 else 0 in
    let next_row =
      prepend (apply_filter rx args (c_string row) ++ 10 ∷ []) (scan rx args seg seg end') in
    let same_row = scan rx args row seg end' in
    if end' == 1 then next_row else if ltb 1 end' then (true, []) else same_row

-- The loop of BinToText over the stream, on fuel: a read that gets fewer bytes than the segment has
-- leaves the rest of the segment as it is, and ends the loop.
unfoldable pub segments : ℕ → ℕ → Regex → Arguments → Text → Text → Text
segments zero sz rx args seg stream = []
segments (suc fuel) sz rx args seg stream =
    let seg' = overlay (take sz stream) seg in
    let (done, out) = scan rx args seg' seg' 0 in
    let rest = segments fuel sz rx args seg' (drop sz stream) in
    if done then out else if leb sz (length stream) then out ++ rest else out

-- BinToText behind the checksum; `seg` is what the new segment holds. A segment has a byte at least, so
-- the bytes of the stream are fuel enough.
unfoldable pub bin_to_text : ℕ → Regex → Arguments → Text → Text → Text
bin_to_text sz rx args seg file = segments (suc (length file)) sz rx args seg (drop 4 file)

-- std::istream::getline into a row of `room` characters and a zero: the gcount() bytes of the row, the
-- rest of the stream, and whether the stream is still good.
unfoldable pub get_line : ℕ → Text → Text × Text × Bool
get_line room [] = ([], [], false)
get_line room (c ∷ cs) = elim (c == 10) [
  | true ↦ (0 ∷ [], cs, true)
  | false ↦ elim room [
    | zero ↦ ([], c ∷ cs, false)
    | suc more ↦ (let (row, rest, good) = get_line more cs in (c ∷ row, rest, good))
  ]
]

-- The loop of TextToBin, on fuel: all that it copies into the segment.
unfoldable pub rows : ℕ → Text → Text
rows zero text = []
rows (suc fuel) text =
    let (row, rest, good) = get_line 254 text in
    let more = rows fuel rest in if good then row ++ more else row

-- The bytes of a number in memory, on the little-endian host.
unfoldable pub u32_bytes : ℕ → Text
u32_bytes n = n % 256 ∷ n / 256 % 256 ∷ n / 2 ^ 16 % 256 ∷ n / 2 ^ 24 % 256 ∷ []

-- What TextToBin writes, or that it copies more than the segment can hold.
pub data Written : Type 0 where
  overrun : Written
  written : Text → Written

-- TextToBin. A row takes a character at least, so the characters are fuel enough.
unfoldable pub text_to_bin : ℕ → (Text → ℕ) → Text → Written
text_to_bin sz crc text =
    let copied = rows (suc (length text)) text in
    let seg = copied ++ replicate (sz - length copied) 0 in
    if ltb sz (length copied) then overrun else written (u32_bytes (crc seg) ++ seg)

-- main behind ParseArgs, from the input file, if it opens, and whether the output file does: the exit code,
-- and what is written into the output file, if it is opened. `seg` is what a new segment holds.
unfoldable pub run :
    ℕ → (Text → ℕ) → Regex → Text → Arguments → Option Text → Bool → ℕ × Option Written
run sz crc rx seg args file opens =
    let text = bin_to_text sz rx args seg in
    elim args.oper [
      | unknown ↦ (0, none)
      | read ↦ elim file [
        | none ↦ (1, none)
        | some bytes ↦ (if opens then (0, some (written (text bytes))) else (1, none))
      ]
      | write ↦ elim file [
        | none ↦ (1, none)
        | some bytes ↦ (if opens then (0, some (text_to_bin sz crc bytes)) else (1, none))
      ]
    ]
