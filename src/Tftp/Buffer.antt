-- ===== src/Tftp/Buffer.antt =====
-- class TFtp::Packet::Buffer of src/utils/regiloader/tftp.cpp, and the fields that TFtp::Packet adds
-- to it and reads from it. A pointer with a size is the list of those bytes, none for the null
-- pointer; -1 as a size_t is `npos`.
pub mod Laws
use regiboard.Base.{
  ℕ, zero, suc, ◌+◌, ◌-◌, ◌*◌, ◌/◌, ◌%◌, ◌^◌, List, [], ◌∷◌, Option, none, some, Bool, true, false,
  ◌==◌, ◌&&◌, if◌then◌else◌, length, set, get_or, take, replicate, overlay, ltb, leb,
}

abbrev pub max_size : ℕ
max_size = 516

abbrev npos : ℕ
npos = 2 ^ 64 - 1

pub record Buffer : Type 0 where
  pub bytes : List ℕ
  pub size : ℕ

pub clear : Buffer
clear = record { bytes = replicate max_size 0; size = 0 }

-- memcpy of `size` bytes at most; `max_size` bounds what is copied.
pub set_data : Option (List ℕ) → Buffer → Bool × Buffer
set_data none b = (false, b)
set_data (some []) b = (false, b)
set_data (some (x ∷ xs)) b =
    let src = x ∷ xs in
    let size = if ltb (length src) max_size then length src else max_size in
    (true, record { bytes = overlay (take size src) b.bytes; size = size })

-- The loop of AddArray stops at the end of the source or of the buffer.
pub add_loop : List ℕ → Buffer → Buffer
add_loop [] b = b
add_loop (x ∷ xs) b =
    let rest = add_loop xs (record { bytes = set b.bytes b.size x; size = b.size + 1 }) in
    if ltb b.size max_size then rest else b

pub add_array : Option (List ℕ) → Buffer → Bool × Buffer
add_array none b = (false, b)
add_array (some []) b = (false, b)
add_array (some (x ∷ xs)) b = (leb (b.size + length (x ∷ xs)) max_size, add_loop (x ∷ xs) b)

-- The loop of GetArray from `i`, with the bytes left to get.
pub get_loop : ℕ → ℕ → List ℕ → List ℕ
get_loop zero i bytes = []
get_loop (suc n) i bytes =
    let rest = get_loop n (i + 1) bytes in if ltb i max_size then get_or bytes i 0 ∷ rest else []

-- GetArray into `out`, whose bytes stay where nothing is copied. The end of the range wraps.
pub get_array : ℕ → List ℕ → Buffer → Bool × List ℕ
get_array offs [] b = (false, [])
get_array offs (o ∷ os) b =
    let out = o ∷ os in
    let end = (offs + length out) % 2 ^ 64 in
    if leb max_size offs
    then (false, out)
    else (leb end max_size, overlay (get_loop (length out) offs b.bytes) out)

-- LSB2MSB of the two bytes of a word of the host, which stores the low byte first.
abbrev pub msb_bytes : ℕ → List ℕ
msb_bytes val = val / 256 ∷ val % 256 ∷ []

pub add_u16 : ℕ → Buffer → Bool × Buffer
add_u16 val b = add_array (some (msb_bytes val)) b

add_byte : ℕ → Buffer → Bool × Buffer
add_byte val b = add_array (some (val ∷ [])) b

-- The second call is made only if the first one succeeded.
add_string : List ℕ → Buffer → Bool × Buffer
add_string val b =
    let (res, b') = add_array (some val) b in if res then add_byte 0 b' else (false, b')

-- GetVal of a word: `t0` and `t1` are what the variable held before. The result is the next offset and
-- the value.
pub get_u16 : ℕ → ℕ → ℕ → Buffer → ℕ × ℕ
get_u16 t0 t1 offs b =
    let (res, t) = get_array offs (t0 ∷ t1 ∷ []) b in
    (if res then offs + 2 else npos, get_or t 0 0 * 256 + get_or t 1 0)

-- GetVal of a text: the loop looks for a zero from `i` on, with the bytes left before `max_size`.
pub scan_zero : ℕ → ℕ → List ℕ → ℕ
scan_zero zero i bytes = i
scan_zero (suc n) i bytes =
    let rest = scan_zero n (i + 1) bytes in if get_or bytes i 0 == 0 then i else rest

-- `beyond` is the byte behind the array, which is read when no zero was found.
pub get_string : ℕ → ℕ → Buffer → ℕ × List ℕ
get_string beyond offs b =
    let i = scan_zero (max_size - offs) offs b.bytes in
    if leb max_size offs
    then (npos, [])
    else (if get_or b.bytes i beyond == 0 then i + 1 else i, get_loop (i - offs) offs b.bytes)
