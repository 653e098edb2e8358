-- ===== src/Ftdi/Apart.antt =====
-- Reads of fields behind writes in src/utils/regitest/ttyusb_test/ttyusb_test.cpp: of the same field, and
-- of a field that shares no bit with it.
use Prim.Native.Nat.{bit_and}
use regiboard.Base.{
  ℕ, ◌+◌, ◌*◌, ◌/◌, ◌^◌, ◌≤◌, ◌<◌, ◌≡◌, ◌≢◌, ◌⊎◌, inl, inr, refl, sym, ap, ◌∙◌, Bool, true, false,
  ◌==◌, ==_iff, ◌&&◌, ◌||◌, not, length, leb, ltb-lt, leb-le, ==-ne, arith,
}
use regiboard.Base.Text.{Text}
use regiboard.Ftdi.{load, merge}
use regiboard.Ftdi.Bits.{bit_and-mask}
use regiboard.Ftdi.Cells.{
  Kind, flag, nibble, byte, word, offs_of, mask_of, width_of, proper, write, read, load-store,
  load-store_ne,
}
use regiboard.Ftdi.Merge.{
  &&-both, merge-lt, merge-flag_self, merge-flag_ne, merge-nibble, merge-byte, merge-word,
}

abbrev merged : ℕ → Kind → ℕ → Text → ℕ
merged a k v mem = merge (8 * width_of k) (offs_of k) (mask_of k) v (load (width_of k) a mem)

load-write :
    (a : ℕ) (k : Kind) (v : ℕ) (mem : Text)
    → a + width_of k ≤ length mem
    → load (width_of k) a (write a k v mem) ≡ merged a k v mem
load-write a k v mem fits = load-store (width_of k) a (merged a k v mem) mem fits (small k)
  where
    small : (j : Kind) → merged a j v mem < 256 ^ width_of j
    small (flag o) = merge-lt 8 o 1 v _
    small nibble = merge-lt 8 0 0xF v _
    small byte = merge-lt 8 0 0xFF v _
    small word = merge-lt 16 0 0xFFFF v _

-- A field that has been written is read as its value.
pub read-write :
    (a : ℕ) (k : Kind) (v : ℕ) (mem : Text)
    → proper k ≡ true
    → v ≤ mask_of k
    → a + width_of k ≤ length mem
    → read a k (write a k v mem) ≡ v
read-write a k v mem ok small fits =
    ap (λ (n : ℕ). bit_and (n / 2 ^ offs_of k) (mask_of k)) (load-write a k v mem fits)
    ∙ value k ok small
  where
    value :
        (j : Kind)
        → proper j ≡ true
        → v ≤ mask_of j
        → bit_and (merged a j v mem / 2 ^ offs_of j) (mask_of j) ≡ v
    value (flag o) ok' h = bit_and-mask 1 _ ∙ merge-flag_self o v _ (ltb-lt o 8 ok') h
    value nibble ok' h = bit_and-mask 4 _ ∙ omega (arith, merge-nibble v (load 1 a mem) h)
    value byte ok' h = bit_and-mask 8 _ ∙ omega (arith, merge-byte v (load 1 a mem) h)
    value word ok' h = bit_and-mask 16 _ ∙ omega (arith, merge-word v (load 2 a mem) h)

-- Two flags at different places of a byte.
abbrev pub flags_apart : ℕ → Kind → ℕ → Kind → Bool
flags_apart a (flag o) b (flag p) = (a == b) && not (o == p)
flags_apart a k b j = false

-- Fields that share no bit.
abbrev pub apart : ℕ → Kind → ℕ → Kind → Bool
apart a k b j = (leb (b + width_of j) a || leb (a + width_of k) b) || flags_apart a k b j

or_cases : (a b : Bool) → (a || b) ≡ true → (a ≡ true) ⊎ (b ≡ true)
or_cases true b h = inl refl
or_cases false b h = inr h

module _ (a b v : ℕ) (mem : Text) where
  read-flag_ne :
      (o p : ℕ)
      → o < 8
      → p < 8
      → v ≤ 1
      → a + 1 ≤ length mem
      → flags_apart a (flag o) b (flag p) ≡ true
      → read b (flag p) (write a (flag o) v mem) ≡ read b (flag p) mem
  read-flag_ne o p ho hp hv fits h =
      let both = &&-both (a == b) (not (o == p)) h in
      let e : b ≡ a = sym ((==_iff a b).0 both.0) in
      let ne : o ≢ p = ==-ne o p (grind (arith, both.1)) in
      rw e (
        ap (λ (n : ℕ). bit_and (n / 2 ^ p) 1) (load-write a (flag o) v mem fits)
        ∙ bit_and-mask 1 _
        ∙ merge-flag_ne o p v (load 1 a mem) ho hp hv ne
        ∙ sym (bit_and-mask 1 _))

  flags_ne :
      (k j : Kind)
      → proper k ≡ true
      → proper j ≡ true
      → v ≤ mask_of k
      → a + width_of k ≤ length mem
      → flags_apart a k b j ≡ true
      → read b j (write a k v mem) ≡ read b j mem
  flags_ne (flag o) (flag p) ok ok' hv fits h =
      read-flag_ne o p (ltb-lt o 8 ok) (ltb-lt p 8 ok') hv fits h
  flags_ne (flag o) nibble ok ok' hv fits h = absurd (grind (arith, h))
  flags_ne (flag o) byte ok ok' hv fits h = absurd (grind (arith, h))
  flags_ne (flag o) word ok ok' hv fits h = absurd (grind (arith, h))
  flags_ne nibble j ok ok' hv fits h = absurd (grind (arith, h))
  flags_ne byte j ok ok' hv fits h = absurd (grind (arith, h))
  flags_ne word j ok ok' hv fits h = absurd (grind (arith, h))

  -- A write leaves a field alone that shares no bit with the one written.
  pub read-write_ne :
      (k j : Kind)
      → proper k ≡ true
      → proper j ≡ true
      → v ≤ mask_of k
      → a + width_of k ≤ length mem
      → apart a k b j ≡ true
      → read b j (write a k v mem) ≡ read b j mem
  read-write_ne k j ok ok' hv fits h = elim (or_cases _ _ h) [
    | inr flags ↦ flags_ne k j ok ok' hv fits flags
    | inl far ↦
        ap (λ (n : ℕ). bit_and (n / 2 ^ offs_of j) (mask_of j))
          (load-store_ne (width_of j) b (width_of k) a _ mem (elim (or_cases _ _ far) [
            | inl before ↦ inl (leb-le _ _ before)
            | inr behind ↦ inr (leb-le _ _ behind)
          ]))
  ]
