-- ===== src/Ftdi/Runs.antt =====
-- Runs of the model of src/utils/regitest/ttyusb_test/ttyusb_test.cpp at concrete inputs.
use regiboard.Base.{
  ℕ, zero, suc, ◌+◌, ◌*◌, ◌<◌, get_or, ◌≡◌, refl, List, [], ◌∷◌, some, none, replicate, arith,
}
use regiboard.Base.Text.{Text}
use regiboard.Ftdi.{
  config, configure, width, encode, encode_value, encode_field, encode_fields, merge, decode,
  decode_field, device_values,
}
use regiboard.Ftdi.RoundTrip.{InRange, decode-encode, encode-image, image}
use regiboard.Ftdi.Sum.{encode-checksum, Bytes, words, words_sum}

-- The values that InteractWithFTDIDevice sets, for the device 0403:6011; TXDEN keeps what was read.
abbrev values : List ℕ
values =
    1 ∷ 1 ∷ 1 ∷ 1 ∷ 0x0403 ∷ 0x6011 ∷ 0 ∷ 8 ∷ 0 ∷ 1 ∷ 1 ∷ 50 ∷ 0 ∷ 0 ∷ 0 ∷ 1 ∷ 0 ∷ 1 ∷ 1 ∷ 1 ∷ 1
    ∷ 0x0200 ∷ 5 ∷ 0x46 ∷ []

values_test : device_values 0x0403 0x6011 5 ≡ values
unfolding device_values
values_test = refl

abbrev erased : Text
erased = replicate 128 0xFF

values-InRange : InRange config values
values-InRange = ground arith

decode-encode_example :
    (mem' : Text) × (encode 128 (configure config values) erased ≡ some mem')
    × (decode 128 (configure config (replicate 24 0)) mem' ≡ some (configure config values))
decode-encode_example = decode-encode (replicate 24 0) values erased values-InRange refl refl

replicate-lt : (n i : ℕ) → get_or (replicate n 0xFF) i 0 < 256
replicate-lt zero i = omega arith
replicate-lt (suc n) zero = omega arith
replicate-lt (suc n) (suc i) = replicate-lt n i

erased-Bytes : Bytes erased
erased-Bytes = replicate-lt 128

encode-checksum_example :
    get_or (image values erased) 126 0 + 256 * get_or (image values erased) 127 0
    ≡ words_sum (words 63 0 (image values erased)) 0xAAAA
encode-checksum_example =
    encode-checksum (configure config values) erased (image values erased) refl erased-Bytes
      (encode-image values erased values-InRange refl)

decode_test :
    decode 24 (record { addr = 2; offs = 0; mask = 0xFFFF; value = none } ∷ []) (0 ∷ 0 ∷ 3 ∷ 4 ∷ [])
    ≡ some (record { addr = 2; offs = 0; mask = 0xFFFF; value = some 0x0403 } ∷ [])
unfolding decode decode_field width
decode_test = refl

-- The guard of the loops looks at the place of a field in its block, not at its address: a field behind the
-- end of the memory is not passed over.
short_memory_test : encode_fields 2 (configure config values) (0 ∷ 0 ∷ []) ≡ none
unfolding encode_fields encode_field encode_value width merge
short_memory_test = refl
