-- ===== src/Ftdi/RoundTrip.antt =====
-- From the fields to the memory and back in src/utils/regitest/ttyusb_test/ttyusb_test.cpp.
use regiboard.Base.{ℕ, suc, ◌≤◌, ◌≡◌, refl, ap, ◌∙◌, List, [], ◌∷◌, map, some, true, length, arith}
use regiboard.Base.Text.{Text}
use regiboard.Ftdi.{
  Field, config, configure, unset, store, encode, encode_fields, decode, seal, checksum,
}
use regiboard.Ftdi.Cells.{flag, nibble, byte, word, offs_of, mask_of, length-store}
use regiboard.Ftdi.Layout.{
  Place, field_at, fields_at, writes, separate, Holds, length-writes, writes-Stored, Stored-store,
}
use regiboard.Ftdi.Loops.{encode_fields-writes, decode-Stored}

abbrev layout : List Place
layout =
    (0x00, flag 3)
    ∷ (0x01, flag 3)
    ∷ (0x00, flag 7)
    ∷ (0x01, flag 7)
    ∷ (0x02, word)
    ∷ (0x04, word)
    ∷ (0x06, byte)
    ∷ (0x07, byte)
    ∷ (0x08, flag 5)
    ∷ (0x08, flag 6)
    ∷ (0x08, flag 7)
    ∷ (0x09, byte)
    ∷ (0x0A, flag 0)
    ∷ (0x0A, flag 1)
    ∷ (0x0A, flag 2)
    ∷ (0x0A, flag 3)
    ∷ (0x0A, flag 4)
    ∷ (0x0B, flag 4)
    ∷ (0x0B, flag 5)
    ∷ (0x0B, flag 6)
    ∷ (0x0B, flag 7)
    ∷ (0x0C, word)
    ∷ (0x15, nibble)
    ∷ (0x18, byte)
    ∷ []

layout-separate : separate layout ≡ true
layout-separate = refl

-- A value for each field, none above its mask.
abbrev pub InRange : List Field → List ℕ → Type 0
InRange [] [] = Unit
InRange [] (v ∷ vs) = ⊥
InRange (f ∷ fs) [] = ⊥
InRange (f ∷ fs) (v ∷ vs) = (v ≤ f.mask) × InRange fs vs

abbrev blank : Place → Field
blank (a, k) = unset a (offs_of k) (mask_of k)

configure-places :
    (xs : List Place) (vs : List ℕ)
    → length vs ≡ length xs
    → configure (map blank xs) vs ≡ fields_at xs vs
configure-places [] vs e = refl
configure-places (x ∷ xs) [] e = absurd (omega arith)
configure-places (x ∷ xs) (v ∷ vs) e =
    ap (◌∷◌ (field_at x v)) (configure-places xs vs (omega arith))

InRange-Holds : (xs : List Place) (vs : List ℕ) → InRange (map blank xs) vs → Holds xs vs
InRange-Holds [] [] h = tt
InRange-Holds [] (v ∷ vs) h = h
InRange-Holds (x ∷ xs) [] h = h
InRange-Holds (x ∷ xs) (v ∷ vs) (small, h) = (small, InRange-Holds xs vs h)

length-Holds : (xs : List Place) (vs : List ℕ) → Holds xs vs → length vs ≡ length xs
length-Holds [] [] h = refl
length-Holds [] (v ∷ vs) h = elim h [ ]
length-Holds (x ∷ xs) [] h = elim h [ ]
length-Holds (x ∷ xs) (v ∷ vs) (small, h) = ap suc (length-Holds xs vs h)

-- The bytes that EncodeEEPROM leaves.
abbrev pub image : List ℕ → Text → Text
image vs mem = let fields = writes layout vs mem in store 2 126 (checksum 63 0 0xAAAA fields) fields

pub encode-next :
    (fs : List Field) (mem mem' : Text)
    → encode_fields 128 fs mem ≡ some mem'
    → encode 128 fs mem ≡ seal 128 mem'
unfolding encode
encode-next fs mem mem' h = rw (h, encode) refl

pub seal-full :
    (mem : Text)
    → length mem ≡ 128
    → seal 128 mem ≡ some (store 2 126 (checksum 63 0 0xAAAA mem) mem)
unfolding seal
seal-full mem full = rw (full, seal) refl

pub encode-image :
    (vs : List ℕ) (mem : Text)
    → InRange config vs
    → length mem ≡ 128
    → encode 128 (configure config vs) mem ≡ some (image vs mem)
encode-image vs mem h full =
    let hold = InRange-Holds layout vs h in
    ap (λ (fs : List Field). encode 128 fs mem)
      (configure-places layout vs (length-Holds layout vs hold))
    ∙ encode-next (fields_at layout vs) mem (writes layout vs mem)
        (encode_fields-writes layout vs mem full layout-separate hold)
    ∙ seal-full (writes layout vs mem) (length-writes layout vs mem ∙ full)

-- Values for all the fields of the configuration, none above the mask of its field, and a memory of 128
-- bytes, whatever it holds: EncodeEEPROM writes all of them without an access out of the array, and
-- DecodeEEPROM reads the same values from what it has written, whatever values the fields had.
pub decode-encode :
    (us vs : List ℕ) (mem : Text)
    → InRange config vs
    → length us ≡ length vs
    → length mem ≡ 128
    → (mem' : Text) × (encode 128 (configure config vs) mem ≡ some mem')
      × (decode 128 (configure config us) mem' ≡ some (configure config vs))
decode-encode us vs mem h same full =
    let hold = InRange-Holds layout vs h in
    let many = length-Holds layout vs hold in
    let kept = length-store 2 126 _ (writes layout vs mem) ∙ length-writes layout vs mem ∙ full in
    (
      image vs mem,
      encode-image vs mem h full,
      rw (configure-places layout vs many, configure-places layout us (same ∙ many))
          (decode-Stored layout us vs (image vs mem) kept layout-separate (same ∙ many) hold (
            Stored-store layout vs _ _ layout-separate
              (writes-Stored layout vs mem full layout-separate hold))),
    )
