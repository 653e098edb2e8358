-- ===== src/Ftdi/Bits.antt =====
-- Or and and at single digits and at low masks, for the fields of
-- src/utils/regitest/ttyusb_test/ttyusb_test.cpp.
use Prim.Native.Nat.{max, bitwise, digits, bit_and, bit_or, bit_and-bitwise, bit_or-bitwise}
use native.Mathlib.Nat.{le_refl, pow-succ', one-le-pow, div-div-eq-div-mul}
use regiboard.Base.Bits.{mod_digit}
use regiboard.Base.{
  ℕ, zero, suc, ◌+◌, ◌-◌, ◌*◌, ◌/◌, ◌%◌, ◌^◌, ◌≤◌, ◌<◌, ◌≡◌, refl, sym, ap, ◌∙◌, min, arith,
}

module _ (z : ℕ → ℕ) (f : ℕ → ℕ → ℕ) where
  -- Fuel above the first number is not used.
  enough : (n a b : ℕ) → a ≤ n → digits z f (suc n) a b ≡ digits z f n a b
  enough zero zero b h = refl
  enough zero (suc a) b h = absurd (omega arith)
  enough (suc n) zero b h = refl
  enough (suc n) (suc a) b h = rw (enough n (suc a / 2) (b / 2) (omega arith)) refl

  spare : (k a b : ℕ) → digits z f (k + a) a b ≡ digits z f a a b
  spare zero a b = let e : zero + a ≡ a = omega arith in rw e refl
  spare (suc k) a b =
      let e : suc k + a ≡ suc (k + a) = omega arith in
      rw e (enough (k + a) a b (omega arith) ∙ spare k a b)

  halves :
      (a b : ℕ)
      → bitwise z f (suc a) b ≡ bitwise z f (suc a / 2) (b / 2) * 2 + f (suc a % 2) (b % 2)
  halves a b =
      let e : (a - suc a / 2) + suc a / 2 ≡ a = omega arith in
      let fuel : digits z f a (suc a / 2) (b / 2) ≡ digits z f (suc a / 2) (suc a / 2) (b / 2) =
        ap (λ (n : ℕ). digits z f n (suc a / 2) (b / 2)) (sym e)
        ∙ spare (a - suc a / 2) (suc a / 2) (b / 2) in
      omega (arith, fuel)

pub bit_or_half : (a b : ℕ) → bit_or a b ≡ bit_or (a / 2) (b / 2) * 2 + max (a % 2) (b % 2)
bit_or_half zero b = simp bit_or-bitwise (omega arith)
bit_or_half (suc a) b = simp bit_or-bitwise (halves (λ y. y) max a b)

pub bit_and_half : (a b : ℕ) → bit_and a b ≡ bit_and (a / 2) (b / 2) * 2 + min (a % 2) (b % 2)
bit_and_half zero b = simp bit_and-bitwise (omega arith)
bit_and_half (suc a) b = simp bit_and-bitwise (halves (λ y. 0) min a b)

abbrev pub bit : ℕ → ℕ → ℕ
bit zero a = a % 2
bit (suc k) a = bit k (a / 2)

min_one : (a : ℕ) → min (a % 2) 1 ≡ a % 2
min_one a = grind arith

max_digit : (a b : ℕ) → max (a % 2) (b % 2) ≤ 1
max_digit a b = grind arith

min_digit : (a b : ℕ) → min (a % 2) (b % 2) ≤ 1
min_digit a b = grind arith

bit_or-div : (a b : ℕ) → bit_or a b / 2 ≡ bit_or (a / 2) (b / 2)
bit_or-div a b = omega (arith, bit_or_half a b, max_digit a b)

bit_and-div : (a b : ℕ) → bit_and a b / 2 ≡ bit_and (a / 2) (b / 2)
bit_and-div a b = omega (arith, bit_and_half a b, min_digit a b)

pub bit-bit_or : (k a b : ℕ) → bit k (bit_or a b) ≡ max (bit k a) (bit k b)
bit-bit_or zero a b = omega (arith, bit_or_half a b, max_digit a b)
bit-bit_or (suc k) a b = rw (bit_or-div a b) (bit-bit_or k (a / 2) (b / 2))

pub bit-bit_and : (k a b : ℕ) → bit k (bit_and a b) ≡ min (bit k a) (bit k b)
bit-bit_and zero a b = omega (arith, bit_and_half a b, min_digit a b)
bit-bit_and (suc k) a b = rw (bit_and-div a b) (bit-bit_and k (a / 2) (b / 2))

pub bit_and-zero : (n a : ℕ) → a ≤ n → bit_and a 0 ≡ 0
bit_and-zero zero a h = let e : a ≡ 0 = omega arith in rw e refl
bit_and-zero (suc n) a h =
    let ih = bit_and-zero n (a / 2) (omega arith) in
    omega (arith, bit_and_half a 0, ih, min_digit a 0)

pub bit_and-mask : (k a : ℕ) → bit_and a (2 ^ k - 1) ≡ a % 2 ^ k
bit_and-mask zero a = bit_and-zero a a (le_refl a) ∙ omega arith
bit_and-mask (suc k) a =
    let p : 1 ≤ 2 ^ k = one-le-pow k 2 (omega arith) in
    let double : 2 ^ suc k ≡ 2 * 2 ^ k = pow-succ' 2 k in
    let low : (2 * 2 ^ k - 1) / 2 ≡ 2 ^ k - 1 = omega arith in
    let odd : (2 * 2 ^ k - 1) % 2 ≡ 1 = omega arith in
    rw
      (
        double,
        mod_digit (2 ^ k) a p,
        bit_and_half a (2 * 2 ^ k - 1),
        low,
        odd,
        bit_and-mask k (a / 2),
      )
      (omega (arith, min_digit a 1, min_one a))

half_div : (k a : ℕ) → a / 2 / 2 ^ k ≡ a / 2 ^ suc k
half_div k a = rw (pow-succ' 2 k) (div-div-eq-div-mul a 2 (2 ^ k))

pub bit-div : (k a : ℕ) → bit k a ≡ a / 2 ^ k % 2
bit-div zero a = let e : a / 2 ^ zero ≡ a = omega arith in rw e refl
bit-div (suc k) a = bit-div k (a / 2) ∙ ap (λ (n : ℕ). n % 2) (half_div k a)

pub bit-mod : (n k a : ℕ) → k < n → bit k (a % 2 ^ n) ≡ bit k a
bit-mod zero k a h = elim h [ ]
bit-mod (suc n) zero a h =
    let p : 1 ≤ 2 ^ n = one-le-pow n 2 (omega arith) in
    rw (pow-succ' 2 n, mod_digit (2 ^ n) a p) (omega arith)
bit-mod (suc n) (suc k) a h =
    let p : 1 ≤ 2 ^ n = one-le-pow n 2 (omega arith) in
    let e : (a / 2 % 2 ^ n * 2 + a % 2) / 2 ≡ a / 2 % 2 ^ n = omega arith in
    rw (pow-succ' 2 n, mod_digit (2 ^ n) a p, e) (bit-mod n k (a / 2) (omega arith))

pub max_zero : (n : ℕ) → max 0 n ≡ n
max_zero n = grind arith

min_zero : (n : ℕ) → min n 0 ≡ 0
min_zero n = grind arith

-- A number takes the low digits that a mask has cleared.
pub bit_or-cleared : (k b c v : ℕ) → c % 2 ^ k ≡ 0 → bit_or (bit_and b c) v % 2 ^ k ≡ v % 2 ^ k
bit_or-cleared zero b c v h = omega arith
bit_or-cleared (suc k) b c v h =
    let p : 1 ≤ 2 ^ k = one-le-pow k 2 (omega arith) in
    let low : c % (2 * 2 ^ k) ≡ 0 = rw (← pow-succ' 2 k) h in
    let digit : c % 2 ≡ 0 = omega (arith, low, mod_digit (2 ^ k) c p) in
    let rest : c / 2 % 2 ^ k ≡ 0 = omega (arith, low, mod_digit (2 ^ k) c p) in
    let x : ℕ = bit_and b c in
    let even : x % 2 ≡ 0 =
      omega (arith, bit-bit_and 0 b c, digit, min_zero (b % 2), ap (min (b % 2)) digit) in
    let half : x / 2 ≡ bit_and (b / 2) (c / 2) = bit_and-div b c in
    let whole : bit_or x v / 2 ≡ bit_or (x / 2) (v / 2) = bit_or-div x v in
    let last : bit_or x v % 2 ≡ v % 2 =
      bit-bit_or 0 x v ∙ ap (λ (n : ℕ). max n (v % 2)) even ∙ max_zero (v % 2) in
    let ih = bit_or-cleared k (b / 2) (c / 2) (v / 2) rest in
    rw
      (
        pow-succ' 2 k,
        mod_digit (2 ^ k) (bit_or x v) p,
        mod_digit (2 ^ k) v p,
        whole,
        last,
        half,
        ih,
      )
      refl
