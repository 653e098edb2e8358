-- ===== src/Ymodem/Crc/Reference.antt =====
-- The table-driven checksum of class YModem::Crc against the bitwise shift register.
use regiboard.Base.{
  ℕ, zero, suc, ◌+◌, ◌*◌, ◌/◌, ◌%◌, ◌<◌, ◌≡◌, ◌⊎◌, refl, sym, ap, ap₂, ◌∙◌, List, [], ◌∷◌, get_or,
  ◌==◌, leb, if◌then◌else◌, bit_xor, Bool, true, ◌&&◌, arith, All, inl, inr,
}
use regiboard.Base.Bits.{
  bit_xor_comm, bit_xor_assoc, bit_xor-div, bit_xor-mod, bit_xor-lt, bit_xor-zero,
  bit_xor_right_comm, bit_xor_shift, bit_xor_split,
}
use native.Mathlib.Nat.{mod-eq_of_lt}
use regiboard.Ymodem.Crc.{
  poly, InitialValue, initial, zeros, non_zero1, non_zero2, table_entry, table_from, table,
  table_size, make, round, compute_loop, compute, swap_bytes,
}

-- The shift register of the protocol: one bit, one byte, a message.
pub shift : ℕ → ℕ
shift x = if leb 32768 x then bit_xor (x * 2 % 65536) poly else x * 2 % 65536

shift_by : ℕ → ℕ → ℕ
unfolding shift
shift_by zero x = x
shift_by (suc n) x = shift_by n (shift x)

shift8 : ℕ → ℕ
unfolding shift_by
shift8 x = shift_by 8 x

pub reference : List ℕ → ℕ → ℕ
unfolding shift8
reference [] crc = crc
reference (b ∷ bs) crc = reference bs (shift8 (bit_xor crc (b * 256)))

-- Two functions that agree on every number below `n`, by evaluation.
module _ (f g : ℕ → ℕ) where
  agree_below : ℕ → Bool
  agree_below zero = true
  agree_below (suc n) = (f n == g n) && agree_below n

  agree_below→eq : (n : ℕ) → agree_below n ≡ true → (i : ℕ) → i < n → f i ≡ g i
  unfolding agree_below
  agree_below→eq zero e i h = absurd (omega arith)
  agree_below→eq (suc n) e i h = ground (arith, agree_below→eq n (ground arith) i)

table_entry-shift8 : (i : ℕ) → i < 256 → table_entry i ≡ shift8 (i * 256)
unfolding agree_below table_entry shift8
table_entry-shift8 = agree_below→eq table_entry (λ i. shift8 (i * 256)) 256 refl

shift8_low : (i : ℕ) → i < 256 → shift8 i ≡ i * 256
unfolding agree_below shift8
shift8_low = agree_below→eq shift8 (λ i. i * 256) 256 refl

get_or-table_from : (n j i : ℕ) → i < n → get_or (table_from n j) i 0 ≡ table_entry (j + i)
unfolding table_from
get_or-table_from zero j i h = absurd (omega arith)
get_or-table_from (suc n) j zero h = ap table_entry (omega arith)
get_or-table_from (suc n) j (suc i) h =
    get_or-table_from n (j + 1) i (omega arith) ∙ ap table_entry (omega arith)

get_or-table : (i : ℕ) → i < 256 → get_or table i 0 ≡ table_entry i
get_or-table i h =
    unfold table in (get_or-table_from table_size 0 i h ∙ ap table_entry (omega arith))

double-xor : (a b : ℕ) → bit_xor a b * 2 % 65536 ≡ bit_xor (a * 2 % 65536) (b * 2 % 65536)
double-xor a b =
    ap (λ (t : ℕ). t % 65536) (sym (bit_xor_shift a b)) ∙ bit_xor-mod 16 (a * 2) (b * 2)

top-xor : (a b : ℕ) → bit_xor a b / 32768 ≡ bit_xor (a / 32768) (b / 32768)
top-xor a b = bit_xor-div 15 a b

cancel_poly : (a b : ℕ) → bit_xor (bit_xor a poly) (bit_xor b poly) ≡ bit_xor a b
cancel_poly a b =
    ap (bit_xor (bit_xor a poly)) (bit_xor_comm b poly)
    ∙ sym (bit_xor_assoc (bit_xor a poly) poly b)
    ∙ ap (λ (t : ℕ). bit_xor t b) (bit_xor_assoc a poly poly ∙ bit_xor-zero a)

top_cases : (a : ℕ) → a < 65536 → (a / 32768 ≡ 0) ⊎ (a / 32768 ≡ 1)
top_cases a h = omega arith

shift_low : (a : ℕ) → a / 32768 ≡ 0 → shift a ≡ a * 2 % 65536
unfolding shift
shift_low a h = ground arith

shift_high : (a : ℕ) → a / 32768 ≡ 1 → shift a ≡ bit_xor (a * 2 % 65536) poly
unfolding shift
shift_high a h = ground arith

-- The register is linear.
shift-xor : (a b : ℕ) → a < 65536 → b < 65536 → shift (bit_xor a b) ≡ bit_xor (shift a) (shift b)
shift-xor a b ha hb = elim (top_cases a ha) [
  | inl p ↦ elim (top_cases b hb) [
    | inl q ↦
        rw (shift_low a p, shift_low b q, shift_low (bit_xor a b) (top-xor a b ∙ rw (p, q) refl))
          (double-xor a b)
    | inr q ↦
        rw (shift_low a p, shift_high b q, shift_high (bit_xor a b) (top-xor a b ∙ rw (p, q) refl))
          (rw (double-xor a b) (bit_xor_assoc _ _ poly))
  ]
  | inr p ↦ elim (top_cases b hb) [
    | inl q ↦
        rw (shift_high a p, shift_low b q, shift_high (bit_xor a b) (top-xor a b ∙ rw (p, q) refl))
          (rw (double-xor a b) (bit_xor_right_comm _ _ poly))
    | inr q ↦
        rw (shift_high a p, shift_high b q, shift_low (bit_xor a b) (top-xor a b ∙ rw (p, q) refl))
          (rw (double-xor a b) (sym (cancel_poly _ _)))
  ]
]

shift-lt : (a : ℕ) → shift a < 65536
unfolding shift
shift-lt a = ground (arith, bit_xor-lt 16 (a * 2 % 65536) poly)

shift_by-xor :
    (n a b : ℕ)
    → a < 65536
    → b < 65536
    → shift_by n (bit_xor a b) ≡ bit_xor (shift_by n a) (shift_by n b)
unfolding shift_by
shift_by-xor zero a b ha hb = refl
shift_by-xor (suc n) a b ha hb =
    ap (shift_by n) (shift-xor a b ha hb)
    ∙ shift_by-xor n (shift a) (shift b) (shift-lt a) (shift-lt b)

shift_by-lt : (n a : ℕ) → a < 65536 → shift_by n a < 65536
unfolding shift_by
shift_by-lt zero a h = h
shift_by-lt (suc n) a h = shift_by-lt n (shift a) (shift-lt a)

module _ (crc b : ℕ) (hc : crc < 65536) (hb : b < 256) where
  high : bit_xor crc (b * 256) / 256 ≡ bit_xor (crc / 256) (b % 256)
  high = bit_xor-div 8 crc (b * 256) ∙ ap (bit_xor (crc / 256)) (omega arith)

  low : bit_xor crc (b * 256) % 256 ≡ crc % 256
  low =
      bit_xor-mod 8 crc (b * 256)
      ∙ ap (bit_xor (crc % 256)) (omega arith)
      ∙ bit_xor-zero (crc % 256)

  message-lt : bit_xor crc (b * 256) < 65536
  message-lt = bit_xor-lt 16 crc (b * 256) hc (omega arith)

  -- The index of the table never leaves it.
  pub index-lt : bit_xor (crc / 256) (b % 256) < table_size
  index-lt = bit_xor-lt 8 (crc / 256) (b % 256) (omega arith) (omega arith)

  parts :
      shift8 (bit_xor crc (b * 256))
      ≡ bit_xor (shift8 (bit_xor (crc / 256) (b % 256) * 256)) (crc % 256 * 256)
  unfolding shift8
  parts =
      let h = bit_xor (crc / 256) (b % 256) in
      let l = crc % 256 in
      ap shift8 whole
      ∙ shift_by-xor 8 (h * 256) l (omega (arith, index-lt)) (omega arith)
      ∙ ap (bit_xor (shift8 (h * 256))) (shift8_low l (omega arith))
    where
      whole : bit_xor crc (b * 256) ≡ bit_xor (bit_xor (crc / 256) (b % 256) * 256) (crc % 256)
      whole = omega (
        arith,
        high,
        low,
        bit_xor_split 8 (bit_xor (crc / 256) (b % 256)) (crc % 256) (omega arith),
      )

  round-shift8 : round table crc b ≡ shift8 (bit_xor crc (b * 256))
  unfolding round
  round-shift8 =
      let h = bit_xor (crc / 256) (b % 256) in
      bit_xor-mod 16 (crc * 256) (get_or table h 0)
      ∙ ap₂ bit_xor left right
      ∙ bit_xor_comm (crc % 256 * 256) (shift8 (h * 256))
      ∙ sym parts
    where
      left : crc * 256 % 65536 ≡ crc % 256 * 256
      left = omega arith

      right :
          get_or table (bit_xor (crc / 256) (b % 256)) 0 % 65536
          ≡ shift8 (bit_xor (crc / 256) (b % 256) * 256)
      right =
          let e = get_or-table _ index-lt ∙ table_entry-shift8 _ index-lt in
          ap (λ (t : ℕ). t % 65536) e
          ∙ mod-eq_of_lt (unfold shift8 in shift_by-lt 8 _ (omega (arith, index-lt)))

shift8-lt : (a : ℕ) → a < 65536 → shift8 a < 65536
unfolding shift8
shift8-lt a h = shift_by-lt 8 a h

compute_loop-reference :
    (bs : List ℕ) (crc : ℕ)
    → crc < 65536
    → All (λ b. b < 256) bs
    → compute_loop table bs crc ≡ reference bs crc
unfolding compute_loop reference
compute_loop-reference [] crc h a = refl
compute_loop-reference (b ∷ bs) crc h (hb, a) = rw (round-shift8 crc b h hb) (
    compute_loop-reference bs (shift8 (bit_xor crc (b * 256))) (shift8-lt _ (message-lt crc b h hb))
      a)

initial-lt : (val : InitialValue) → initial val < 65536
initial-lt zeros = omega arith
initial-lt non_zero1 = omega arith
initial-lt non_zero2 = omega arith

-- For every initial value and every message of bytes the table-driven checksum is that of the
-- bitwise shift register of the polynomial 0x1021, with its two bytes exchanged.
pub compute-reference :
    (val : InitialValue) (bs : List ℕ)
    → All (λ b. b < 256) bs
    → compute (make val) bs ≡ swap_bytes (reference bs (initial val))
unfolding compute make
compute-reference val bs a =
    ap swap_bytes (compute_loop-reference bs (initial val) (initial-lt val) a)

-- The register stays a 16-bit word.
pub reference-lt :
    (bs : List ℕ) (crc : ℕ) → crc < 65536 → All (λ b. b < 256) bs → reference bs crc < 65536
unfolding reference
reference-lt [] crc h a = h
reference-lt (b ∷ bs) crc h (hb, a) = reference-lt bs _ (shift8-lt _ (message-lt crc b h hb)) a
