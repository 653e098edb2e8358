-- ===== src/Ftdi.antt =====
-- src/utils/regitest/ttyusb_test/ttyusb_test.cpp: the fields of the configuration of a USB chip, and its
-- memory. `value` is none for -1, else the 32 bits of the number.
pub mod Bits
pub mod Cells
pub mod Merge
pub mod Apart
pub mod Layout
pub mod Loops
pub mod RoundTrip
pub mod Sum
pub mod Runs
use regiboard.Base.{
  ℕ, zero, suc, ◌+◌, ◌-◌, ◌*◌, ◌/◌, ◌%◌, ◌^◌, List, [], ◌∷◌, Option, none, some, if◌then◌else◌,
  length, get_or, set, replicate, ltb, leb, ◌==◌, ◌||◌, bit_xor,
}
use Prim.Native.Nat.{bit_and, bit_or}
use regiboard.Base.Text.{Text}

pub record Field : Type 0 where
  pub addr : ℕ
  pub offs : ℕ
  pub mask : ℕ
  pub value : Option ℕ

abbrev pub unset : ℕ → ℕ → ℕ → Field
unset a o m = record { addr = a; offs = o; mask = m; value = none }

-- Config, without the names, which are only printed.
abbrev pub config : List Field
config =
    unset 0x00 3 1
    ∷ unset 0x01 3 1
    ∷ unset 0x00 7 1
    ∷ unset 0x01 7 1
    ∷ unset 0x02 0 0xFFFF
    ∷ unset 0x04 0 0xFFFF
    ∷ unset 0x06 0 0xFF
    ∷ unset 0x07 0 0xFF
    ∷ unset 0x08 5 1
    ∷ unset 0x08 6 1
    ∷ unset 0x08 7 1
    ∷ unset 0x09 0 0xFF
    ∷ unset 0x0A 0 1
    ∷ unset 0x0A 1 1
    ∷ unset 0x0A 2 1
    ∷ unset 0x0A 3 1
    ∷ unset 0x0A 4 1
    ∷ unset 0x0B 4 1
    ∷ unset 0x0B 5 1
    ∷ unset 0x0B 6 1
    ∷ unset 0x0B 7 1
    ∷ unset 0x0C 0 0xFFFF
    ∷ unset 0x15 0 0xF
    ∷ unset 0x18 0 0xFF
    ∷ []

abbrev pub eeprom_size : ℕ
eeprom_size = 128

-- EEPROMField::operator= for each field in turn.
abbrev pub configure : List Field → List ℕ → List Field
configure [] vs = []
configure (f ∷ fs) [] = f ∷ fs
configure (f ∷ fs) (v ∷ vs) = record f { value = some v } ∷ configure fs vs

-- The bytes of the block that a field lies in; the other fields are passed over.
unfoldable pub width : Field → ℕ
width f = if leb f.mask 0xFF then 1 else if leb f.mask 0xFFFF then 2 else 0

-- A block of some bytes, on the little-endian host.
abbrev pub load : ℕ → ℕ → Text → ℕ
load zero a mem = 0
load (suc w) a mem = get_or mem a 0 + 256 * load w (a + 1) mem

abbrev pub store : ℕ → ℕ → ℕ → Text → Text
store zero a n mem = mem
store (suc w) a n mem = store w (a + 1) (n / 256) (set mem a (n % 256))

-- What EncodeEEPROM puts into a block of `bits` bits for a value.
unfoldable pub merge : ℕ → ℕ → ℕ → ℕ → ℕ → ℕ
merge bits offs mask v block =
    bit_or (bit_and block (2 ^ bits - 1 - mask * 2 ^ offs % 2 ^ bits)) (v * 2 ^ offs) % 2 ^ bits

-- The write of EncodeEEPROM; none is an access out of the array.
unfoldable pub encode_value : Field → ℕ → Text → Option Text
unfolding width merge
encode_value f v mem =
    let w = width f in
    if leb (f.addr + w) (length mem)
    then some (store w f.addr (merge (8 * w) f.offs f.mask v (load w f.addr mem)) mem)
    else none

abbrev pub encode_if_set : Field → Option ℕ → Text → Option Text
encode_if_set f none mem = some mem
encode_if_set f (some v) mem = encode_value f v mem

-- The turn of EncodeEEPROM for a field.
unfoldable pub encode_field : ℕ → Field → Text → Option Text
unfolding width
encode_field size f mem =
    if leb size f.offs || (width f == 0) then some mem else encode_if_set f f.value mem

unfoldable pub encode_fields : ℕ → List Field → Text → Option Text
encode_fields size [] mem = some mem
encode_fields size (f ∷ fs) mem = elim (encode_field size f mem) [
  | none ↦ none
  | some mem' ↦ encode_fields size fs mem'
]

-- The checksum of the first words.
abbrev pub rotate : ℕ → ℕ
rotate x = bit_or (x * 2) (x / 2 ^ 15) % 2 ^ 16

unfoldable pub checksum : ℕ → ℕ → ℕ → Text → ℕ
checksum zero a sum mem = sum
checksum (suc n) a sum mem = checksum n (a + 2) (rotate (bit_xor (load 2 a mem) sum)) mem

-- The end of EncodeEEPROM: the checksum becomes the last word. An array without a word has none to write.
unfoldable pub seal : ℕ → Text → Option Text
unfolding checksum
seal size mem =
    let last = size / 2 - 1 in
    if ltb size 2
    then none
    else if leb (2 * (size / 2)) (length mem)
    then some (store 2 (2 * last) (checksum last 0 0xAAAA mem) mem)
    else none

-- EncodeEEPROM
unfoldable pub encode : ℕ → List Field → Text → Option Text
encode size fields mem = elim (encode_fields size fields mem) [
  | none ↦ none
  | some mem' ↦ seal size mem'
]

-- The turn of DecodeEEPROM for a field.
unfoldable pub decode_field : ℕ → Field → Text → Option Field
decode_field size f mem =
    let w = width f in
    let v = bit_and (load w f.addr mem / 2 ^ f.offs) f.mask in
    if leb size f.offs || (w == 0)
    then some f
    else if leb (f.addr + w) (length mem)
    then some (record f { value = some v })
    else none

-- DecodeEEPROM
unfoldable pub decode : ℕ → List Field → Text → Option (List Field)
decode size [] mem = some []
decode size (f ∷ fs) mem = elim (decode_field size f mem) [
  | none ↦ none
  | some f' ↦ elim (decode size fs mem) [ none ↦ none | some rest ↦ some (f' ∷ rest) ]
]

-- The assignments of InteractWithFTDIDevice, in the order of the fields: the descriptor of the device gives
-- the vendor and the product, and the function of TXDEN stays as it was read.
unfoldable pub device_values : ℕ → ℕ → ℕ → List ℕ
device_values vendor product txden =
    1
    ∷ 1
    ∷ 1
    ∷ 1
    ∷ vendor
    ∷ product
    ∷ 0
    ∷ 0x08
    ∷ 0
    ∷ 1
    ∷ 1
    ∷ 100 / 2
    ∷ 0
    ∷ 0
    ∷ 0
    ∷ 1
    ∷ 0
    ∷ 1
    ∷ 1
    ∷ 1
    ∷ 1
    ∷ 0x0200
    ∷ txden
    ∷ 0x46
    ∷ []

-- WriteFTDIConfig: the bytes for the chip; the library says how many of them count.
unfoldable pub write_config : ℕ → List Field → Option Text
write_config size fields = encode size fields (replicate eeprom_size 0)
