-- ===== src/Ymodem/Crc.antt =====
-- class YModem::Crc of src/utils/regiloader/ymodem.cpp: the table and the checksum.
-- A Value is a uint16_t: every shift to the left is cut to 16 bits.
pub mod Reference
use Prim.Native.Nat.{bit_and}
use regiboard.Base.{
  ℕ, zero, suc, ◌+◌, ◌*◌, ◌/◌, ◌%◌, List, [], ◌∷◌, get_or, ◌==◌, if◌then◌else◌, bit_xor,
}

abbrev pub poly : ℕ
poly = 0x1021

abbrev pub table_size : ℕ
table_size = 256

pub data InitialValue : Type 0 where
  zeros non_zero1 non_zero2 : InitialValue

abbrev pub initial : InitialValue → ℕ
initial zeros = 0
initial non_zero1 = 0xffff
initial non_zero2 = 0x1D0F

-- The inner loop of the constructor; the rounds left are the first argument.
table_loop : ℕ → ℕ → ℕ → ℕ
table_loop zero temp a = temp
table_loop (suc j) temp a =
    table_loop j
      (if bit_and (bit_xor temp a) 0x8000 == 0
        then temp * 2 % 65536
        else bit_xor (temp * 2) poly % 65536)
      (a * 2 % 65536)

table_entry : ℕ → ℕ
unfolding table_loop
table_entry i = table_loop 8 0 (i * 256 % 65536)

-- The outer loop from index `i`, with the rounds left.
table_from : ℕ → ℕ → List ℕ
unfolding table_entry
table_from zero i = []
table_from (suc n) i = table_entry i ∷ table_from n (i + 1)

pub table : List ℕ
unfolding table_from
table = table_from table_size 0

pub record Crc : Type 0 where
  pub ini_value : ℕ
  pub entries : List ℕ

unfoldable pub make : InitialValue → Crc
unfolding table
make val = record { ini_value = initial val; entries = table }

-- One round of Compute. The index is below 256 for a 16-bit `crc`, see the child module.
round : List ℕ → ℕ → ℕ → ℕ
round entries crc b = bit_xor (crc * 256) (get_or entries (bit_xor (crc / 256) (b % 256)) 0) % 65536

compute_loop : List ℕ → List ℕ → ℕ → ℕ
unfolding round
compute_loop entries [] crc = crc
compute_loop entries (b ∷ bs) crc = compute_loop entries bs (round entries crc b)

-- `(crc >> 8) | ((crc & 0xFF) << 8)`; the two halves share no bit.
unfoldable pub swap_bytes : ℕ → ℕ
swap_bytes crc = crc / 256 + crc % 256 * 256

unfoldable pub compute : Crc → List ℕ → ℕ
unfolding compute_loop swap_bytes
compute c bs = swap_bytes (compute_loop c.entries bs c.ini_value)
