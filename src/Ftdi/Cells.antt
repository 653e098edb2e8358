-- ===== src/Ftdi/Cells.antt =====
-- A field in the memory of src/utils/regitest/ttyusb_test/ttyusb_test.cpp: what is read behind a write.
use Prim.Native.Nat.{bit_and}
use native.Mathlib.Nat.{pow-succ'}
use regiboard.Base.{
  ℕ, zero, suc, ◌+◌, ◌*◌, ◌/◌, ◌%◌, ◌^◌, ◌≤◌, ◌<◌, ◌≡◌, ◌⊎◌, inl, refl, ap₂, ◌∙◌, Bool, true,
  length, get_or, set, ltb, arith, length-set, get_or-set_self, get_or-set_ne,
}
use regiboard.Base.Text.{Text}
use regiboard.Ftdi.{load, store, merge}

-- The kinds of field: a single bit, the low half of a byte, a byte and a word.
pub data Kind : Type 0 where
  flag : ℕ → Kind
  nibble byte word : Kind

abbrev pub offs_of : Kind → ℕ
offs_of (flag o) = o
offs_of nibble = 0
offs_of byte = 0
offs_of word = 0

abbrev pub mask_of : Kind → ℕ
mask_of (flag o) = 1
mask_of nibble = 0xF
mask_of byte = 0xFF
mask_of word = 0xFFFF

abbrev pub width_of : Kind → ℕ
width_of (flag o) = 1
width_of nibble = 1
width_of byte = 1
width_of word = 2

-- A flag lies within its byte.
abbrev pub proper : Kind → Bool
proper (flag o) = ltb o 8
proper nibble = true
proper byte = true
proper word = true

abbrev pub write : ℕ → Kind → ℕ → Text → Text
write a k v mem =
    store (width_of k) a
      (merge (8 * width_of k) (offs_of k) (mask_of k) v (load (width_of k) a mem)) mem

abbrev pub read : ℕ → Kind → Text → ℕ
read a k mem = bit_and (load (width_of k) a mem / 2 ^ offs_of k) (mask_of k)

pub length-store : (w a n : ℕ) (mem : Text) → length (store w a n mem) ≡ length mem
length-store zero a n mem = refl
length-store (suc w) a n mem =
    length-store w (a + 1) (n / 256) (set mem a (n % 256)) ∙ length-set mem a (n % 256)

-- A block keeps its contents under a write that ends before it or begins behind it.
get_or-store :
    (w a n i : ℕ) (mem : Text)
    → (i < a) ⊎ (a + w ≤ i)
    → get_or (store w a n mem) i 0 ≡ get_or mem i 0
get_or-store zero a n i mem h = refl
get_or-store (suc w) a n i mem h =
    get_or-store w (a + 1) (n / 256) i (set mem a (n % 256)) (omega arith)
    ∙ get_or-set_ne mem a i (n % 256) 0 (λ e. omega arith)

pub load-store_ne :
    (w' b w a n : ℕ) (mem : Text)
    → (b + w' ≤ a) ⊎ (a + w ≤ b)
    → load w' b (store w a n mem) ≡ load w' b mem
load-store_ne zero b w a n mem h = refl
load-store_ne (suc w') b w a n mem h =
    ap₂ (λ (x y : ℕ). x + 256 * y) (get_or-store w a n b mem (omega arith))
      (load-store_ne w' (b + 1) w a n mem (omega arith))

pub load-store :
    (w a n : ℕ) (mem : Text) → a + w ≤ length mem → n < 256 ^ w → load w a (store w a n mem) ≡ n
load-store zero a n mem fits small = omega arith
load-store (suc w) a n mem fits small =
    let mem' : Text = set mem a (n % 256) in
    let lower : n / 256 < 256 ^ w = omega (arith, pow-succ' 256 w) in
    let tail =
      load-store w (a + 1) (n / 256) mem' (omega (arith, length-set mem a (n % 256))) lower in
    let head : get_or (store w (a + 1) (n / 256) mem') a 0 ≡ n % 256 =
      get_or-store w (a + 1) (n / 256) a mem' (inl (omega arith))
      ∙ get_or-set_self mem a (n % 256) 0 (omega arith) in
    rw (head, tail) (omega arith)
