-- ===== src/Ftdi/Sum.antt =====
-- The checksum that EncodeEEPROM of src/utils/regitest/ttyusb_test/ttyusb_test.cpp leaves in the memory.
use regiboard.Base.{
  ◌-◌, ◌/◌, ◌%◌, ltb, set, get_or, subst, ℕ, zero, suc, ◌+◌, ◌*◌, ◌^◌, ◌≤◌, ◌<◌, ◌≡◌, inl, inr,
  refl, sym, ap, ◌∙◌, List, [], ◌∷◌, Option, none, some, some-injective, none-ne-some, Option-cases,
  Bool, true, false, ◌==◌, if◌then◌else◌, ◌||◌, length, leb, bit_xor, arith,
}
use regiboard.Base.Text.{Text}
use regiboard.Ftdi.{
  Field, width, load, store, encode, encode_value, encode_if_set, encode_field, encode_fields,
  checksum, rotate,
}
use Prim.Native.Nat.{bit_or}
use regiboard.Base.Bits.{bit_xor-lt}
use regiboard.Ftdi.Bits.{bit_or_half, max_zero}
use regiboard.Ftdi.Cells.{load-store, load-store_ne, length-store}
use regiboard.Ftdi.Loops.{encode_fields-next}
use regiboard.Ftdi.RoundTrip.{encode-next, seal-full}

checksum-store :
    (k a sum n : ℕ) (mem : Text)
    → a + 2 * k ≤ 126
    → checksum k a sum (store 2 126 n mem) ≡ checksum k a sum mem
unfolding checksum
checksum-store zero a sum n mem h = refl
checksum-store (suc k) a sum n mem h =
    ap (λ (word : ℕ). checksum k (a + 2) (rotate (bit_xor word sum)) (store 2 126 n mem))
      (load-store_ne 2 a 2 126 n mem (inl (omega arith)))
    ∙ checksum-store k (a + 2) _ n mem (omega arith)

checksum-lt : (k a sum : ℕ) (mem : Text) → sum < 2 ^ 16 → checksum k a sum mem < 2 ^ 16
unfolding checksum
checksum-lt zero a sum mem h = h
checksum-lt (suc k) a sum mem h = checksum-lt k (a + 2) _ mem (omega arith)

encode_fields-crash :
    (f : Field) (fs : List Field) (mem : Text)
    → encode_field 128 f mem ≡ none
    → encode_fields 128 (f ∷ fs) mem ≡ none
unfolding encode_fields
encode_fields-crash f fs mem h = rw (h, encode_fields) refl

encode-crash :
    (fs : List Field) (mem : Text) → encode_fields 128 fs mem ≡ none → encode 128 fs mem ≡ none
unfolding encode
encode-crash fs mem h = rw (h, encode) refl

-- A property of memories that the writes keep is kept by the fields.
module _ (P : Text → Type 0) (keeps : (w a n : ℕ) (mem : Text) → P mem → P (store w a n mem)) where
  -- A write that may be out of the array.
  guarded-keeps :
      (b : Bool) (mem' done : Text) → P done → (if b then some done else none) ≡ some mem' → P mem'
  guarded-keeps true mem' done ok h = subst P (some-injective _ _ h) ok
  guarded-keeps false mem' done ok h = absurd (none-ne-some _ h)

  encode_if_set-keeps :
      (f : Field) (value : Option ℕ) (mem mem' : Text)
      → P mem
      → encode_if_set f value mem ≡ some mem'
      → P mem'
  unfolding encode_value
  encode_if_set-keeps f none mem mem' ok h = subst P (some-injective _ _ h) ok
  encode_if_set-keeps f (some v) mem mem' ok h =
      guarded-keeps (leb (f.addr + width f) (length mem)) mem' _ (keeps (width f) f.addr _ mem ok) h

  encode_field-keeps :
      (size : ℕ) (f : Field) (mem mem' : Text)
      → P mem
      → encode_field size f mem ≡ some mem'
      → P mem'
  unfolding encode_field
  encode_field-keeps size f mem mem' ok h = skipped (leb size f.offs || (width f == 0)) h
    where
      skipped :
          (b : Bool) → (if b then some mem else encode_if_set f f.value mem) ≡ some mem' → P mem'
      skipped true e = subst P (some-injective _ _ e) ok
      skipped false e = encode_if_set-keeps f f.value mem mem' ok e

  encode_fields-keeps :
      (fs : List Field) (mem mem' : Text) → P mem → encode_fields 128 fs mem ≡ some mem' → P mem'
  encode_fields-keeps [] mem mem' ok h = unfold encode_fields in subst P (some-injective _ _ h) ok
  encode_fields-keeps (f ∷ fs) mem mem' ok h = elim (Option-cases (encode_field 128 f mem)) [
    | inl crash ↦ absurd (none-ne-some _ (sym (encode_fields-crash f fs mem crash) ∙ h))
    | inr (mid, e) ↦
        encode_fields-keeps fs mid mem' (encode_field-keeps 128 f mem mid ok e)
          (sym (encode_fields-next f fs mem mid e) ∙ h)
  ]

abbrev pub Bytes : Text → Type 0
Bytes mem = (i : ℕ) → get_or mem i 0 < 256

Bytes-set : (mem : Text) (a v : ℕ) → v < 256 → Bytes mem → Bytes (set mem a v)
Bytes-set [] a v h ok i = ok i
Bytes-set (x ∷ xs) zero v h ok zero = h
Bytes-set (x ∷ xs) zero v h ok (suc i) = ok (suc i)
Bytes-set (x ∷ xs) (suc a) v h ok zero = ok zero
Bytes-set (x ∷ xs) (suc a) v h ok (suc i) = Bytes-set xs a v h (λ k. ok (suc k)) i

Bytes-store : (w a n : ℕ) (mem : Text) → Bytes mem → Bytes (store w a n mem)
Bytes-store zero a n mem ok = ok
Bytes-store (suc w) a n mem ok =
    Bytes-store w (a + 1) (n / 256) (set mem a (n % 256))
      (Bytes-set mem a (n % 256) (omega arith) ok)

-- The checksum in the words of its purpose: each word of 16 bits is added by exclusive or, and the result is
-- turned to the left by one bit, the highest bit becoming the lowest.
abbrev pub turned : ℕ → ℕ
turned x = if ltb x 32768 then 2 * x else 2 * (x - 32768) + 1

abbrev pub words : ℕ → ℕ → Text → List ℕ
words zero a mem = []
words (suc k) a mem = (get_or mem a 0 + 256 * get_or mem (a + 1) 0) ∷ words k (a + 2) mem

abbrev pub words_sum : List ℕ → ℕ → ℕ
words_sum [] sum = sum
words_sum (w ∷ ws) sum = words_sum ws (turned (bit_xor w sum))

bit_or_zero_fuel : (n x : ℕ) → x < n → bit_or x 0 ≡ x
bit_or_zero_fuel zero x h = elim h [ ]
bit_or_zero_fuel (suc n) zero h = refl
bit_or_zero_fuel (suc n) (suc x) h =
    let rest = bit_or_zero_fuel n (suc x / 2) (omega arith) in
    bit_or_half (suc x) 0 ∙ rw rest (omega (arith, max_zero (suc x % 2)))

-- An even number and a bit.
bit_or-even : (x b : ℕ) → b < 2 → bit_or (x * 2) b ≡ x * 2 + b
bit_or-even x b h =
    let half : x * 2 / 2 ≡ x = omega arith in
    let none : b / 2 ≡ 0 = omega arith in
    let even : x * 2 % 2 ≡ 0 = omega arith in
    let low : b % 2 ≡ b = omega arith in
    bit_or_half (x * 2) b
    ∙ rw (half, none, even, low, bit_or_zero_fuel (suc x) x (omega arith)) (omega arith)

rotate-turned : (x : ℕ) → x < 2 ^ 16 → rotate x ≡ turned x
rotate-turned x h = let e = bit_or-even x (x / 2 ^ 15) (omega arith) in rw e (ground arith)

checksum-words :
    (k a sum : ℕ) (mem : Text)
    → Bytes mem
    → sum < 2 ^ 16
    → checksum k a sum mem ≡ words_sum (words k a mem) sum
unfolding checksum
checksum-words zero a sum mem ok h = refl
checksum-words (suc k) a sum mem ok h =
    let word : load 2 a mem ≡ get_or mem a 0 + 256 * get_or mem (a + 1) 0 = omega arith in
    let low = ok a in
    let high = ok (a + 1) in
    let small : bit_xor (get_or mem a 0 + 256 * get_or mem (a + 1) 0) sum < 2 ^ 16 =
      bit_xor-lt 16 _ sum (omega arith) h in
    rw (word, rotate-turned _ small) (checksum-words k (a + 2) _ mem ok (ground arith))

-- Whatever fields EncodeEEPROM writes into a memory of 128 bytes, and whatever their values: when it
-- returns, the last word of the memory that it leaves is the checksum of the 63 words before it: from 0xAAAA
-- on, each word is added by exclusive or, and the sum is turned to the left by one of its 16 bits.
pub encode-checksum :
    (fields : List Field) (mem mem' : Text)
    → length mem ≡ 128
    → Bytes mem
    → encode 128 fields mem ≡ some mem'
    → get_or mem' 126 0 + 256 * get_or mem' 127 0 ≡ words_sum (words 63 0 mem') 0xAAAA
encode-checksum fields mem mem' full bytes h = elim (Option-cases (encode_fields 128 fields mem)) [
  | inl crash ↦ absurd (none-ne-some _ (sym (encode-crash fields mem crash) ∙ h))
  | inr (mid, e) ↦
      (let kept =
          encode_fields-keeps (λ m. length m ≡ 128) (λ w a n m ok. length-store w a n m ∙ ok) fields
            mem mid full e in
        let bytes' = encode_fields-keeps Bytes Bytes-store fields mem mid bytes e in
        let sum : ℕ = checksum 63 0 0xAAAA mid in
        let same : mem' ≡ store 2 126 sum mid =
          some-injective _ _ (sym h ∙ encode-next fields mem mid e ∙ seal-full mid kept) in
        let last : load 2 126 mem' ≡ checksum 63 0 0xAAAA mem' = rw same (
          load-store 2 126 sum mid (omega arith) (checksum-lt 63 0 0xAAAA mid (omega arith))
          ∙ sym (checksum-store 63 0 0xAAAA sum mid (omega arith))) in
        let word : get_or mem' 126 0 + 256 * get_or mem' 127 0 ≡ load 2 126 mem' = omega arith in
        word
        ∙ last
        ∙ checksum-words 63 0 0xAAAA mem'
            (subst Bytes (sym same) (Bytes-store 2 126 sum mid bytes')) (omega arith))
]
