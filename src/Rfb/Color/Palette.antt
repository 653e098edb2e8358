-- ===== src/Rfb/Color/Palette.antt =====
-- The palette of src/utils/regirfb/framebuf.cpp.
use regiboard.Base.{
  Bool, true, false, not, ◌&&◌, ◌==◌, ==-ne, ℕ, zero, suc, ◌+◌, ◌%◌, ◌≤◌, ◌<◌, ◌≡◌, ◌≢◌, refl, ap,
  ◌∙◌, List, [], ◌∷◌, All, length, get_or, set, length-set, get_or-set_self, get_or-set_ne, arith,
}
use regiboard.Rfb.Color.{
  Quad, default_quad, default_quads, get_id, colors, put_colors, generate_palette, lane,
}

pub get_id-lt : (q : Quad) → get_id q < 256
unfolding get_id
get_id-lt q = omega arith

pub length-default_quads : (n iter : ℕ) → length (default_quads n iter) ≡ n
unfolding default_quads
length-default_quads zero iter = refl
length-default_quads (suc n) iter = ap suc (length-default_quads n ((iter + 1) % 256))

get_or-default_quads :
    (n iter i : ℕ) (d : Quad)
    → i < n
    → iter + n ≤ 256
    → get_or (default_quads n iter) i d ≡ default_quad (iter + i)
unfolding default_quads
get_or-default_quads zero iter i d h k = elim h [ ]
get_or-default_quads (suc n) iter zero d h k = ap default_quad (omega arith)
get_or-default_quads (suc zero) iter (suc i) d h k = absurd (omega arith)
get_or-default_quads (suc (suc n)) iter (suc i) d h k =
    let e : (iter + 1) % 256 ≡ iter + 1 = omega arith in
    ap (λ (j : ℕ). get_or (default_quads (suc n) j) i d) e
    ∙ get_or-default_quads (suc n) (iter + 1) i d (omega arith) (omega arith)
    ∙ ap default_quad (omega arith)

pub length-put_colors : (cs palette : List Quad) → length (put_colors cs palette) ≡ length palette
unfolding put_colors
length-put_colors [] palette = refl
length-put_colors (c ∷ cs) palette =
    length-put_colors cs (set palette (get_id c) c) ∙ length-set palette (get_id c) c

abbrev pub Other : ℕ → List Quad → Type 0
Other i cs = All (λ (c : Quad). get_id c ≢ i) cs

put_colors-Other :
    (cs palette : List Quad) (i : ℕ) (d : Quad)
    → Other i cs
    → get_or (put_colors cs palette) i d ≡ get_or palette i d
unfolding put_colors
put_colors-Other [] palette i d h = refl
put_colors-Other (c ∷ cs) palette i d (ne, h) =
    put_colors-Other cs (set palette (get_id c) c) i d h ∙ get_or-set_ne palette (get_id c) i c d ne

-- Each colour has a place of its own.
abbrev pub Distinct : List Quad → Type 0
Distinct [] = Unit
Distinct (c ∷ cs) = Other (get_id c) cs × Distinct cs

put_colors-Distinct :
    (cs palette : List Quad) (d : Quad)
    → length palette ≡ 256
    → Distinct cs
    → All (λ (c : Quad). get_or (put_colors cs palette) (get_id c) d ≡ c) cs
unfolding put_colors
put_colors-Distinct [] palette d full h = tt
put_colors-Distinct (c ∷ cs) palette d full (other, h) = (
  put_colors-Other cs (set palette (get_id c) c) (get_id c) d other
      ∙ get_or-set_self palette (get_id c) c d (omega (arith, get_id-lt c)),
  put_colors-Distinct cs (set palette (get_id c) c) d (length-set palette (get_id c) c ∙ full) h,
)

abbrev is_other : ℕ → List Quad → Bool
is_other i [] = true
is_other i (c ∷ cs) = not (get_id c == i) && is_other i cs

abbrev are_distinct : List Quad → Bool
are_distinct [] = true
are_distinct (c ∷ cs) = is_other (get_id c) cs && are_distinct cs

not_and : (a b : Bool) → (not a && b) ≡ true → (a ≡ false) × (b ≡ true)
not_and true b h = grind (arith, h)
not_and false b h = (refl, h)

both_true : (a b : Bool) → (a && b) ≡ true → (a ≡ true) × (b ≡ true)
both_true true b h = (refl, h)
both_true false b h = grind (arith, h)

pub is_other-Other : (i : ℕ) (cs : List Quad) → is_other i cs ≡ true → Other i cs
is_other-Other i [] h = tt
is_other-Other i (c ∷ cs) h =
    let two = not_and (get_id c == i) (is_other i cs) h in
    (==-ne (get_id c) i two.0, is_other-Other i cs two.1)

are_distinct-Distinct : (cs : List Quad) → are_distinct cs ≡ true → Distinct cs
are_distinct-Distinct [] h = tt
are_distinct-Distinct (c ∷ cs) h =
    let two = both_true (is_other (get_id c) cs) (are_distinct cs) h in
    (is_other-Other (get_id c) cs two.0, are_distinct-Distinct cs two.1)

colors-are_distinct : are_distinct colors ≡ true
unfolding get_id
colors-are_distinct = refl

pub length-generate_palette : length generate_palette ≡ 256
unfolding generate_palette
length-generate_palette =
    length-put_colors colors (default_quads 256 0) ∙ length-default_quads 256 0

-- Every colour of the table stands in the palette at its own place, and every other place holds the grey
-- of its number.
pub generate_palette-colors :
    (d : Quad)
    → All (λ (c : Quad). get_or generate_palette (get_id c) d ≡ c) colors
      × ((i : ℕ) → i < 256 → Other i colors → get_or generate_palette i d ≡ default_quad i)
unfolding generate_palette
generate_palette-colors d = (
  put_colors-Distinct colors (default_quads 256 0) d (length-default_quads 256 0)
      (are_distinct-Distinct colors colors-are_distinct),
  λ i h other.
      put_colors-Other colors (default_quads 256 0) i d other
      ∙ get_or-default_quads 256 0 i d h (omega arith)
      ∙ ap default_quad (omega arith),
)

-- The loops in assembler give a pixel the place that GetId gives its colour.
pub lane-get_id :
    (x y z w : ℕ)
    → x < 256
    → y < 256
    → z < 256
    → lane x y z ≡ get_id (record { red = x; green = y; blue = z; reserved = w })
unfolding lane get_id
lane-get_id x y z w hx hy hz = omega arith
