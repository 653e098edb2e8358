-- ===== src/Ftdi/Layout.antt =====
-- The loops of EncodeEEPROM and DecodeEEPROM in src/utils/regitest/ttyusb_test/ttyusb_test.cpp over fields
-- of the four kinds that share no bit.
use regiboard.Base.{
  ℕ, ◌+◌, ◌/◌, ◌^◌, ◌≤◌, ◌≡◌, inl, refl, ap, ◌∙◌, List, [], ◌∷◌, some, Bool, true, ◌&&◌, length,
  leb, leb-le, arith,
}
use Prim.Native.Nat.{bit_and}
use regiboard.Base.Text.{Text}
use regiboard.Ftdi.{Field, store}
use regiboard.Ftdi.Cells.{
  Kind, offs_of, mask_of, width_of, proper, write, read, length-store, load-store_ne,
}
use regiboard.Ftdi.Merge.{&&-both}
use regiboard.Ftdi.Apart.{apart, read-write, read-write_ne}

abbrev pub Place : Type 0
Place = ℕ × Kind

abbrev pub field_at : Place → ℕ → Field
field_at (a, k) v = record { addr = a; offs = offs_of k; mask = mask_of k; value = some v }

abbrev pub fields_at : List Place → List ℕ → List Field
fields_at [] vs = []
fields_at (x ∷ xs) [] = []
fields_at (x ∷ xs) (v ∷ vs) = field_at x v ∷ fields_at xs vs

abbrev pub writes : List Place → List ℕ → Text → Text
writes [] vs mem = mem
writes (x ∷ xs) [] mem = mem
writes (x ∷ xs) (v ∷ vs) mem = writes xs vs (write x.0 x.1 v mem)

-- A place in front of the checksum.
abbrev pub good : Place → Bool
good x = proper x.1 && leb (x.0 + width_of x.1) 126

abbrev pub clear_of : Place → List Place → Bool
clear_of x [] = true
clear_of x (y ∷ ys) = apart y.0 y.1 x.0 x.1 && clear_of x ys

abbrev pub separate : List Place → Bool
separate [] = true
separate (x ∷ xs) = good x && (clear_of x xs && separate xs)

abbrev pub Holds : List Place → List ℕ → Type 0
Holds [] [] = Unit
Holds [] (v ∷ vs) = ⊥
Holds (x ∷ xs) [] = ⊥
Holds (x ∷ xs) (v ∷ vs) = (v ≤ mask_of x.1) × Holds xs vs

-- Each place holds the value that belongs to it.
abbrev pub Stored : List Place → List ℕ → Text → Type 0
Stored [] vs mem = Unit
Stored (x ∷ xs) [] mem = Unit
Stored (x ∷ xs) (v ∷ vs) mem = (read x.0 x.1 mem ≡ v) × Stored xs vs mem

pub record Good (x : Place) : Type 0 where
  pub is_proper : proper x.1 ≡ true
  pub in_front : x.0 + width_of x.1 ≤ 126

pub good-Good : (x : Place) → good x ≡ true → Good x
good-Good x h =
    let both = &&-both (proper x.1) _ h in
    record { is_proper = both.0; in_front = leb-le _ _ both.1 }

pub length-write : (x : Place) (v : ℕ) (mem : Text) → length (write x.0 x.1 v mem) ≡ length mem
length-write x v mem = length-store (width_of x.1) x.0 _ mem

pub length-writes :
    (xs : List Place) (vs : List ℕ) (mem : Text) → length (writes xs vs mem) ≡ length mem
length-writes [] vs mem = refl
length-writes (x ∷ xs) [] mem = refl
length-writes (x ∷ xs) (v ∷ vs) mem =
    length-writes xs vs (write x.0 x.1 v mem) ∙ length-write x v mem

read-writes :
    (x : Place) (ys : List Place) (vs : List ℕ) (mem : Text)
    → Good x
    → length mem ≡ 128
    → clear_of x ys ≡ true
    → separate ys ≡ true
    → Holds ys vs
    → read x.0 x.1 (writes ys vs mem) ≡ read x.0 x.1 mem
read-writes x [] vs mem g full c s h = refl
read-writes x (y ∷ ys) [] mem g full c s h = refl
read-writes x (y ∷ ys) (v ∷ vs) mem g full c s (small, h) =
    let front = &&-both (apart y.0 y.1 x.0 x.1) (clear_of x ys) c in
    let sep = &&-both (good y) _ s in
    let more = &&-both (clear_of y ys) _ sep.1 in
    let gy = good-Good y sep.0 in
    let fits = gy.in_front in
    read-writes x ys vs (write y.0 y.1 v mem) g (length-write y v mem ∙ full) front.1 more.1 h
    ∙ read-write_ne y.0 x.0 v mem y.1 x.1 gy.is_proper g.is_proper small (omega arith) front.0

-- What is written is stored.
pub writes-Stored :
    (xs : List Place) (vs : List ℕ) (mem : Text)
    → length mem ≡ 128
    → separate xs ≡ true
    → Holds xs vs
    → Stored xs vs (writes xs vs mem)
writes-Stored [] vs mem full s h = tt
writes-Stored (x ∷ xs) [] mem full s h = tt
writes-Stored (x ∷ xs) (v ∷ vs) mem full s (small, h) =
    let sep = &&-both (good x) _ s in
    let more = &&-both (clear_of x xs) _ sep.1 in
    let g = good-Good x sep.0 in
    let fits = g.in_front in
    let full' = length-write x v mem ∙ full in
    (
      read-writes x xs vs (write x.0 x.1 v mem) g full' more.0 more.1 h
          ∙ read-write x.0 x.1 v mem g.is_proper small (omega arith),
      writes-Stored xs vs (write x.0 x.1 v mem) full' more.1 h,
    )

-- The checksum stands behind the fields.
pub Stored-store :
    (xs : List Place) (vs : List ℕ) (n : ℕ) (mem : Text)
    → separate xs ≡ true
    → Stored xs vs mem
    → Stored xs vs (store 2 126 n mem)
Stored-store [] vs n mem s h = tt
Stored-store (x ∷ xs) [] n mem s h = tt
Stored-store (x ∷ xs) (v ∷ vs) n mem s (here, h) =
    let sep = &&-both (good x) _ s in
    let more = &&-both (clear_of x xs) _ sep.1 in
    let g = good-Good x sep.0 in
    (
      ap (λ (b : ℕ). bit_and (b / 2 ^ offs_of x.1) (mask_of x.1))
            (load-store_ne (width_of x.1) x.0 2 126 n mem (inl g.in_front))
          ∙ here,
      Stored-store xs vs n mem more.1 h,
    )
