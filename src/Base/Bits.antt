-- ===== src/Base/Bits.antt =====
-- Exclusive or at variables: the lowest digit, and the laws that checksums use.
use Prim.Native.Nat.{
  ℕ, zero, suc, ◌+◌, ◌*◌, ◌/◌, ◌%◌, ◌^◌, ◌≤◌, ◌<◌, bit_xor, digits, differ, bit_xor-bitwise,
}
use mathlib.Core.Logic.{◌⊎◌, inl, inr}
use mathlib.Core.Path.{◌≡◌, refl, sym, ap, ap₂, ◌∙◌, subst}
use native.Mathlib.Nat.{
  pow-suc, pow-succ', div-div-eq-div-mul, div-add-mod, mul-add-mod_self_left, mod-eq_of_lt, mod-lt,
  mod-one, one-le-pow,
}
use native.Mathlib.Omega.{arith}

-- The recursion on digits with `n` units of fuel.
abbrev xor_digits : ℕ → ℕ → ℕ → ℕ
xor_digits n x y = digits (λ r. r) differ n x y

one_less : (n x y : ℕ) → x ≤ n → xor_digits (suc n) x y ≡ xor_digits n x y
one_less zero zero y le = refl
one_less (suc n) zero y le = refl
one_less zero (suc x) y le = absurd (omega arith)
one_less (suc n) (suc x) y le = rw (one_less n (suc x / 2) (y / 2) (omega arith)) refl

-- Fuel above the first number is not used.
trim : (n x y : ℕ) → x ≤ n → xor_digits n x y ≡ xor_digits x x y
trim zero x y le = let e : x ≡ 0 = omega arith in rw e refl
trim (suc n) x y le =
    let split : (x ≤ n) ⊎ (x ≡ suc n) = omega arith in
    elim split [ inl small ↦ one_less n x y small ∙ trim n x y small | inr e ↦ rw e refl ]

xor_digits-suc :
    (x y : ℕ) → bit_xor (suc x) y ≡ bit_xor (suc x / 2) (y / 2) * 2 + differ (suc x % 2) (y % 2)
xor_digits-suc x y = omega (
  arith,
  bit_xor-bitwise (suc x) y,
  bit_xor-bitwise (suc x / 2) (y / 2),
  trim x (suc x / 2) (y / 2) (omega arith),
)

differ_lem : (x y : ℕ) → x < 2 → y < 2 → differ x y ≡ (x + y) % 2
differ_lem zero y h k = omega arith
differ_lem (suc zero) zero h k = refl
differ_lem (suc zero) (suc zero) h k = refl
differ_lem (suc zero) (suc (suc y)) h k = absurd (omega arith)
differ_lem (suc (suc x)) y h k = absurd (omega arith)

bit_xor_step : (a b : ℕ) → bit_xor a b ≡ bit_xor (a / 2) (b / 2) * 2 + (a % 2 + b % 2) % 2
bit_xor_step zero b = simp bit_xor-bitwise (omega arith)
bit_xor_step (suc a) b =
    omega (arith, xor_digits-suc a b, differ_lem (suc a % 2) (b % 2) (omega arith) (omega arith))

bit_xor-half : (a b : ℕ) → bit_xor a b / 2 ≡ bit_xor (a / 2) (b / 2)
bit_xor-half a b = omega (arith, bit_xor_step a b)

bit_xor_low : (a b : ℕ) → bit_xor a b % 2 ≡ (a % 2 + b % 2) % 2
bit_xor_low a b = omega (arith, bit_xor_step a b)

-- The laws go from the halves to the whole, with a bound on the arguments as fuel.
xor_comm_fuel : (n a b : ℕ) → a + b ≤ n → bit_xor a b ≡ bit_xor b a
xor_comm_fuel zero a b h =
    let p : a ≡ 0 = omega arith in let q : b ≡ 0 = omega arith in rw (p, q) refl
xor_comm_fuel (suc n) a b h =
    omega (arith, bit_xor_step a b, bit_xor_step b a, xor_comm_fuel n (a / 2) (b / 2) (omega arith))

pub bit_xor_comm : (a b : ℕ) → bit_xor a b ≡ bit_xor b a
bit_xor_comm a b = xor_comm_fuel (a + b) a b (omega arith)

assoc_step :
    (a b c : ℕ)
    → bit_xor (bit_xor (a / 2) (b / 2)) (c / 2) ≡ bit_xor (a / 2) (bit_xor (b / 2) (c / 2))
    → bit_xor (bit_xor a b) c ≡ bit_xor a (bit_xor b c)
assoc_step a b c ih = omega (arith, left, right, bit_xor_low a b, bit_xor_low b c, ih)
  where
    left :
        bit_xor (bit_xor a b) c
        ≡ bit_xor (bit_xor (a / 2) (b / 2)) (c / 2) * 2 + (bit_xor a b % 2 + c % 2) % 2
    left = rw (← bit_xor-half a b) (bit_xor_step (bit_xor a b) c)

    right :
        bit_xor a (bit_xor b c)
        ≡ bit_xor (a / 2) (bit_xor (b / 2) (c / 2)) * 2 + (a % 2 + bit_xor b c % 2) % 2
    right = rw (← bit_xor-half b c) (bit_xor_step a (bit_xor b c))

xor_assoc_fuel : (n a b c : ℕ) → a + b + c ≤ n → bit_xor (bit_xor a b) c ≡ bit_xor a (bit_xor b c)
xor_assoc_fuel zero a b c h =
    let p : a ≡ 0 = omega arith in
    let q : b ≡ 0 = omega arith in let r : c ≡ 0 = omega arith in rw (p, q, r) refl
xor_assoc_fuel (suc n) a b c h =
    assoc_step a b c (xor_assoc_fuel n (a / 2) (b / 2) (c / 2) (omega arith))

pub bit_xor_assoc : (a b c : ℕ) → bit_xor (bit_xor a b) c ≡ bit_xor a (bit_xor b c)
bit_xor_assoc a b c = xor_assoc_fuel (a + b + c) a b c (omega arith)

-- Shifts and masks commute with exclusive or.
pub bit_xor-div : (k a b : ℕ) → bit_xor a b / 2 ^ k ≡ bit_xor (a / 2 ^ k) (b / 2 ^ k)
bit_xor-div zero a b = rw (one_pow a, one_pow b, one_pow (bit_xor a b)) refl
  where
    one_pow : (x : ℕ) → x / 2 ^ zero ≡ x
    one_pow x = omega arith
bit_xor-div (suc k) a b =
    rw (half_first a, half_first b, half_first (bit_xor a b), bit_xor-half a b)
      (bit_xor-div k (a / 2) (b / 2))
  where
    half_first : (x : ℕ) → x / 2 ^ suc k ≡ x / 2 / 2 ^ k
    half_first x =
        let e : 2 ^ suc k ≡ 2 * 2 ^ k = omega (arith, pow-suc 2 k) in
        rw e (sym (div-div-eq-div-mul x 2 (2 ^ k)))

pub mod_digit : (m x : ℕ) → 0 < m → x % (2 * m) ≡ x / 2 % m * 2 + x % 2
mod_digit m x h =
    ap (λ (t : ℕ). t % (2 * m)) split
    ∙ mul-add-mod_self_left (2 * m) (x / 2 / m) _
    ∙ mod-eq_of_lt (omega (arith, mod-lt (x / 2) h))
  where
    split : x ≡ 2 * m * (x / 2 / m) + (x / 2 % m * 2 + x % 2)
    split = omega (arith, div-add-mod (x / 2) m)

-- The lowest digits are joined apart from the rest.
bit_xor_double :
    (a b r s : ℕ) → r < 2 → s < 2 → bit_xor (a * 2 + r) (b * 2 + s) ≡ bit_xor a b * 2 + (r + s) % 2
bit_xor_double a b r s hr hs = rw (bit_xor_step (a * 2 + r) (b * 2 + s)) (rw (p, q) (omega arith))
  where
    p : (a * 2 + r) / 2 ≡ a
    p = omega arith

    q : (b * 2 + s) / 2 ≡ b
    q = omega arith

pub bit_xor-mod : (k a b : ℕ) → bit_xor a b % 2 ^ k ≡ bit_xor (a % 2 ^ k) (b % 2 ^ k)
bit_xor-mod zero a b = rw (mod-one a, mod-one b) (mod-one (bit_xor a b))
bit_xor-mod (suc k) a b =
    rw (pow-succ' 2 k, mod_digit (2 ^ k) (bit_xor a b) pos, bit_xor-half a b, bit_xor_low a b)
      (rw (bit_xor-mod k (a / 2) (b / 2)) (sym whole))
  where
    pos : 0 < 2 ^ k
    pos = one-le-pow k 2 (omega arith)

    whole :
        bit_xor (a % (2 * 2 ^ k)) (b % (2 * 2 ^ k))
        ≡ bit_xor (a / 2 % 2 ^ k) (b / 2 % 2 ^ k) * 2 + (a % 2 + b % 2) % 2
    whole =
        rw (mod_digit (2 ^ k) a pos, mod_digit (2 ^ k) b pos)
          (bit_xor_double (a / 2 % 2 ^ k) (b / 2 % 2 ^ k) (a % 2) (b % 2) (omega arith)
            (omega arith))

-- An exclusive or of `k`-bit words is one.
pub bit_xor-lt : (k a b : ℕ) → a < 2 ^ k → b < 2 ^ k → bit_xor a b < 2 ^ k
bit_xor-lt k a b ha hb = subst (λ t. t < 2 ^ k) low (mod-lt (bit_xor a b) (omega arith))
  where
    low : bit_xor a b % 2 ^ k ≡ bit_xor a b
    low = rw (bit_xor-mod k a b, mod-eq_of_lt ha, mod-eq_of_lt hb) refl

zero-bit_xor : (a : ℕ) → bit_xor 0 a ≡ a
zero-bit_xor a = bit_xor-bitwise 0 a

pub bit_xor-zero : (a : ℕ) → bit_xor a 0 ≡ a
bit_xor-zero a = bit_xor_comm a 0 ∙ zero-bit_xor a

-- Exchanges that move the last operand.
pub bit_xor_right_comm : (a b c : ℕ) → bit_xor (bit_xor a b) c ≡ bit_xor (bit_xor a c) b
bit_xor_right_comm a b c =
    bit_xor_assoc a b c ∙ ap (bit_xor a) (bit_xor_comm b c) ∙ sym (bit_xor_assoc a c b)

pub bit_xor_shift : (a b : ℕ) → bit_xor (a * 2) (b * 2) ≡ bit_xor a b * 2
bit_xor_shift a b = omega (
  arith,
  bit_xor_double a b 0 0 (omega arith) (omega arith),
  ap₂ bit_xor (plus_zero (a * 2)) (plus_zero (b * 2)),
)
  where
    plus_zero : (x : ℕ) → x + 0 ≡ x
    plus_zero x = omega arith

-- A number is the exclusive or of its high part and its low part.
pub bit_xor_split : (k q r : ℕ) → r < 2 ^ k → bit_xor (q * 2 ^ k) r ≡ q * 2 ^ k + r
bit_xor_split zero q r h =
    let e : r ≡ 0 = omega arith in rw e (bit_xor-zero (q * 2 ^ zero) ∙ omega arith)
bit_xor_split (suc k) q r h = omega (
  arith,
  bit_xor_step (q * 2 ^ suc k) r,
  ap (λ (t : ℕ). bit_xor t (r / 2)) half,
  double,
  bit_xor_split k q (r / 2) (omega (arith, pow-succ' 2 k)),
)
  where
    double : q * 2 ^ suc k ≡ 2 * (q * 2 ^ k)
    double = omega (arith, ap (λ (t : ℕ). q * t) (pow-succ' 2 k))

    half : q * 2 ^ suc k / 2 ≡ q * 2 ^ k
    half = omega (arith, double)
