-- ===== src/Ftdi/Merge.antt =====
-- The bits of a byte or word into which EncodeEEPROM of src/utils/regitest/ttyusb_test/ttyusb_test.cpp puts
-- a value.
use Prim.Native.Nat.{max, bit_and, bit_or}
use native.Mathlib.Nat.{mod-lt, one-le-pow}
use regiboard.Base.{
  ℕ, zero, suc, ◌-◌, ◌*◌, ◌/◌, ◌%◌, ◌^◌, ◌≤◌, ◌<◌, ◌≡◌, ◌≢◌, ◌⊎◌, inl, inr, refl, sym, ap, ap₂, ◌∙◌,
  min, Bool, true, false, ◌==◌, ==_iff, ==-true, ==-false, ◌&&◌, if◌then◌else◌, arith,
}
use regiboard.Ftdi.{merge}
use regiboard.Ftdi.Bits.{bit, bit-div, bit-mod, bit-bit_or, bit-bit_and, bit_or-cleared}

abbrev all_below : ℕ → (ℕ → Bool) → Bool
all_below zero p = true
all_below (suc n) p = p n && all_below n p

pub &&-both : (a b : Bool) → (a && b) ≡ true → (a ≡ true) × (b ≡ true)
&&-both true b h = (refl, h)
&&-both false b h = grind (arith, h)

all_below-holds : (n k : ℕ) (p : ℕ → Bool) → all_below n p ≡ true → k < n → p k ≡ true
all_below-holds zero k p h lt = elim lt [ ]
all_below-holds (suc n) k p h lt =
    let both = &&-both (p n) (all_below n p) h in
    let split : (k < n) ⊎ (k ≡ n) = omega arith in
    elim split [ inl less ↦ all_below-holds n k p both.1 less | inr e ↦ rw e both.0 ]

-- The mask of a flag without the flag, digit by digit, and its value in its place.
abbrev kept_digit : ℕ → ℕ → ℕ
kept_digit o p = if o == p then 0 else 1

abbrev new_digit : ℕ → ℕ → ℕ → ℕ
new_digit v o p = if o == p then v else 0

abbrev kept_test : ℕ → ℕ → Bool
kept_test o p = bit p (2 ^ 8 - 1 - 1 * 2 ^ o % 2 ^ 8) == kept_digit o p

abbrev new_test : ℕ → ℕ → ℕ → Bool
new_test v o p = bit p (v * 2 ^ o) == new_digit v o p

kept_tests : all_below 8 (λ o. all_below 8 (kept_test o)) ≡ true
kept_tests = refl

new_tests : all_below 2 (λ v. all_below 8 (λ o. all_below 8 (new_test v o))) ≡ true
new_tests = refl

kept_digit_lem : (o p : ℕ) → o < 8 → p < 8 → bit p (2 ^ 8 - 1 - 1 * 2 ^ o % 2 ^ 8) ≡ kept_digit o p
kept_digit_lem o p ho hp =
    let row = all_below-holds 8 o (λ o'. all_below 8 (kept_test o')) kept_tests ho in
    (==_iff _ _).0 (all_below-holds 8 p (kept_test o) row hp)

new_digit_lem : (v o p : ℕ) → v < 2 → o < 8 → p < 8 → bit p (v * 2 ^ o) ≡ new_digit v o p
new_digit_lem v o p hv ho hp =
    let rows =
      all_below-holds 2 v (λ v'. all_below 8 (λ o'. all_below 8 (new_test v' o'))) new_tests hv in
    let row = all_below-holds 8 o (λ o'. all_below 8 (new_test v o')) rows ho in
    (==_iff _ _).0 (all_below-holds 8 p (new_test v o) row hp)

-- A flag of a byte behind a write of a flag.
merge-flag :
    (o p v block : ℕ)
    → o < 8
    → p < 8
    → v ≤ 1
    → bit p (merge 8 o 1 v block) ≡ max (min (bit p block) (kept_digit o p)) (new_digit v o p)
unfolding merge
merge-flag o p v block ho hp hv =
    let cleared : ℕ = 2 ^ 8 - 1 - 1 * 2 ^ o % 2 ^ 8 in
    bit-mod 8 p (bit_or (bit_and block cleared) (v * 2 ^ o)) hp
    ∙ bit-bit_or p (bit_and block cleared) (v * 2 ^ o)
    ∙ ap₂ max (bit-bit_and p block cleared ∙ ap (min (bit p block)) (kept_digit_lem o p ho hp))
        (new_digit_lem v o p (omega arith) ho hp)

bit-lt : (k a : ℕ) → bit k a ≤ 1
bit-lt zero a = omega arith
bit-lt (suc k) a = bit-lt k (a / 2)

pub merge-lt : (bits o m v block : ℕ) → merge bits o m v block < 2 ^ bits
unfolding merge
merge-lt bits o m v block = mod-lt _ (one-le-pow bits 2 (omega arith))

pub merge-flag_self : (o v block : ℕ) → o < 8 → v ≤ 1 → merge 8 o 1 v block / 2 ^ o % 2 ≡ v
merge-flag_self o v block h hv =
    sym (bit-div o (merge 8 o 1 v block))
    ∙ merge-flag o o v block h h hv
    ∙ rw (==-true o o refl) (grind (arith, bit-lt o block))

pub merge-flag_ne :
    (o p v block : ℕ)
    → o < 8
    → p < 8
    → v ≤ 1
    → o ≢ p
    → merge 8 o 1 v block / 2 ^ p % 2 ≡ block / 2 ^ p % 2
merge-flag_ne o p v block ho hp hv ne =
    sym (bit-div p (merge 8 o 1 v block))
    ∙ merge-flag o p v block ho hp hv
    ∙ rw (==-false o p ne) (grind (arith, bit-lt p block))
    ∙ bit-div p block

pub merge-nibble : (v block : ℕ) → v ≤ 0xF → merge 8 0 0xF v block % 2 ^ 4 ≡ v
unfolding merge
merge-nibble v block h =
    omega (arith, bit_or-cleared 4 block (2 ^ 8 - 1 - 0xF * 2 ^ 0 % 2 ^ 8) (v * 2 ^ 0) refl)

pub merge-byte : (v block : ℕ) → v ≤ 0xFF → merge 8 0 0xFF v block % 2 ^ 8 ≡ v
unfolding merge
merge-byte v block h =
    omega (arith, bit_or-cleared 8 block (2 ^ 8 - 1 - 0xFF * 2 ^ 0 % 2 ^ 8) (v * 2 ^ 0) refl)

pub merge-word : (v block : ℕ) → v ≤ 0xFFFF → merge 16 0 0xFFFF v block % 2 ^ 16 ≡ v
unfolding merge
merge-word v block h =
    omega (arith, bit_or-cleared 16 block (2 ^ 16 - 1 - 0xFFFF * 2 ^ 0 % 2 ^ 16) (v * 2 ^ 0) refl)
