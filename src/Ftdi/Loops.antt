-- ===== src/Ftdi/Loops.antt =====
-- The turns of EncodeEEPROM and DecodeEEPROM for a field of a known kind, in src/utils/regitest/ttyusb_test/ttyusb_test.cpp.
use regiboard.Base.{
  ℕ, ◌==◌, ◌+◌, ◌<◌, ◌≡◌, refl, ◌∙◌, List, [], ◌∷◌, some, true, false, length, ltb-lt, leb-true,
  leb-false, arith,
}
use regiboard.Base.Text.{Text}
use regiboard.Ftdi.{Field, width, encode_value, encode_field, encode_fields, decode_field, decode}
use regiboard.Ftdi.Cells.{Kind, flag, nibble, byte, word, offs_of, width_of, proper, write, read}
use regiboard.Ftdi.Merge.{&&-both}
use regiboard.Ftdi.Layout.{
  Place, field_at, fields_at, writes, good, clear_of, separate, Holds, Stored, Good, good-Good,
  length-write,
}

width-field_at : (a v : ℕ) (k : Kind) → width (field_at (a, k) v) ≡ width_of k
unfolding width
width-field_at a v (flag o) = refl
width-field_at a v nibble = refl
width-field_at a v byte = refl
width-field_at a v word = refl

offs-lt : (k : Kind) → proper k ≡ true → offs_of k < 8
offs-lt (flag o) h = ltb-lt o 8 h
offs-lt nibble h = omega arith
offs-lt byte h = omega arith
offs-lt word h = omega arith

width-pos : (k : Kind) → (width_of k == 0) ≡ false
width-pos (flag o) = refl
width-pos nibble = refl
width-pos byte = refl
width-pos word = refl

encode_field-write :
    (x : Place) (v : ℕ) (mem : Text)
    → Good x
    → length mem ≡ 128
    → encode_field 128 (field_at x v) mem ≡ some (write x.0 x.1 v mem)
unfolding encode_field encode_value
encode_field-write (a, k) v mem g full =
    let low = offs-lt k g.is_proper in
    let front = g.in_front in
    rw
      (
        width-field_at a v k,
        leb-false 128 (offs_of k) (omega arith),
        width-pos k,
        leb-true (a + width_of k) (length mem) (omega arith),
      )
      refl

decode_field-read :
    (x : Place) (u v : ℕ) (mem : Text)
    → Good x
    → length mem ≡ 128
    → read x.0 x.1 mem ≡ v
    → decode_field 128 (field_at x u) mem ≡ some (field_at x v)
unfolding decode_field
decode_field-read (a, k) u v mem g full h =
    let low = offs-lt k g.is_proper in
    let front = g.in_front in
    rw
      (
        width-field_at a u k,
        leb-false 128 (offs_of k) (omega arith),
        width-pos k,
        leb-true (a + width_of k) (length mem) (omega arith),
        h,
      )
      refl

pub encode_fields-next :
    (f : Field) (fs : List Field) (mem mem' : Text)
    → encode_field 128 f mem ≡ some mem'
    → encode_fields 128 (f ∷ fs) mem ≡ encode_fields 128 fs mem'
unfolding encode_fields
encode_fields-next f fs mem mem' h = rw (h, encode_fields) refl

pub encode_fields-writes :
    (xs : List Place) (vs : List ℕ) (mem : Text)
    → length mem ≡ 128
    → separate xs ≡ true
    → Holds xs vs
    → encode_fields 128 (fields_at xs vs) mem ≡ some (writes xs vs mem)
unfolding encode_fields
encode_fields-writes [] vs mem full s h = refl
encode_fields-writes (x ∷ xs) [] mem full s h = elim h [ ]
encode_fields-writes (x ∷ xs) (v ∷ vs) mem full s (small, h) =
    let sep = &&-both (good x) _ s in
    let more = &&-both (clear_of x xs) _ sep.1 in
    encode_fields-next (field_at x v) (fields_at xs vs) mem (write x.0 x.1 v mem)
      (encode_field-write x v mem (good-Good x sep.0) full)
    ∙ (encode_fields-writes xs vs (write x.0 x.1 v mem) (length-write x v mem ∙ full) more.1 h)

decode-next :
    (f f' : Field) (fs fs' : List Field) (mem : Text)
    → decode_field 128 f mem ≡ some f'
    → decode 128 fs mem ≡ some fs'
    → decode 128 (f ∷ fs) mem ≡ some (f' ∷ fs')
unfolding decode
decode-next f f' fs fs' mem h k = rw (h, k, decode) refl

pub decode-Stored :
    (xs : List Place) (us vs : List ℕ) (mem : Text)
    → length mem ≡ 128
    → separate xs ≡ true
    → length us ≡ length xs
    → Holds xs vs
    → Stored xs vs mem
    → decode 128 (fields_at xs us) mem ≡ some (fields_at xs vs)
unfolding decode
decode-Stored [] us vs mem full s e h st = refl
decode-Stored (x ∷ xs) [] vs mem full s e h st = absurd (omega arith)
decode-Stored (x ∷ xs) (u ∷ us) [] mem full s e h st = elim h [ ]
decode-Stored (x ∷ xs) (u ∷ us) (v ∷ vs) mem full s e (small, h) (here, st) =
    let sep = &&-both (good x) _ s in
    let more = &&-both (clear_of x xs) _ sep.1 in
    decode-next (field_at x u) (field_at x v) (fields_at xs us) (fields_at xs vs) mem
      (decode_field-read x u v mem (good-Good x sep.0) full here)
      (decode-Stored xs us vs mem full more.1 (omega arith) h st)
