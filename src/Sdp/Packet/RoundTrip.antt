-- ===== src/Sdp/Packet/RoundTrip.antt =====
-- What AddVal writes into the 16 bytes of src/utils/regiloader/sdp.cpp, GetVal reads.
use regiboard.Base.{
  ℕ, ◌+◌, ◌-◌, ◌%◌, ◌^◌, ◌<◌, ◌≡◌, ◌≢◌, refl, sym, ap, ◌∙◌, List, [], ◌∷◌, length, ltb, ltb-true,
  leb-false, Bool-cases, inl, inr, length-set, get_or-set_self, get_or-set_ne, arith,
}
use regiboard.Sdp.Packet.{
  packet_size, u32_bytes, u32_value, place, first_place, store, load, add_loop, get_loop, add_arr,
  get_arr, add_u32, add_msb_u32, get_u32, get_msb_u32,
}

length-store : (p : List ℕ) (i a : ℕ) → length (store p i a) ≡ length p
unfolding store
length-store p i a = elim (Bool-cases (ltb i packet_size)) [
  | inl e ↦ rw e (length-set p i a)
  | inr e ↦ rw e refl
]

load-store_self : (p : List ℕ) (i a old : ℕ) → i < 16 → length p ≡ 16 → load (store p i a) i old ≡ a
unfolding store load
load-store_self p i a old h full =
    rw (ltb-true i 16 h) (get_or-set_self p i a 0 (omega (arith, full)))

load-store_ne : (p : List ℕ) (i j a old : ℕ) → i ≢ j → load (store p i a) j old ≡ load p j old
unfolding store load
load-store_ne p i j a old h = elim (Bool-cases (ltb i 16)) [
  | inl e ↦ rw (e, get_or-set_ne p i j a 0 h) refl
  | inr e ↦ rw e refl
]

module _ (p : List ℕ) (i0 i1 i2 i3 a b c d : ℕ) (full : length p ≡ 16) (h0 : i0 < 16) (h1 : i1 < 16)
    (h2 : i2 < 16) (h3 : i3 < 16) (n01 : i0 ≢ i1) (n02 : i0 ≢ i2) (n03 : i0 ≢ i3) (n12 : i1 ≢ i2)
    (n13 : i1 ≢ i3) (n23 : i2 ≢ i3) where
  p1 : List ℕ
  p1 = store p i0 a

  p2 : List ℕ
  p2 = store p1 i1 b

  p3 : List ℕ
  p3 = store p2 i2 c

  four : List ℕ
  four = store p3 i3 d

  full1 : length p1 ≡ 16
  unfolding p1
  full1 = length-store p i0 a ∙ full

  full2 : length p2 ≡ 16
  unfolding p2
  full2 = length-store p1 i1 b ∙ full1

  full3 : length p3 ≡ 16
  unfolding p3
  full3 = length-store p2 i2 c ∙ full2

  four-load :
      (x y z w : ℕ)
      → load four i0 x ∷ load four i1 y ∷ load four i2 z ∷ load four i3 w ∷ [] ≡ a ∷ b ∷ c ∷ d ∷ []
  unfolding four p3 p2 p1
  four-load x y z w =
      rw
        (
          load-store_self p3 i3 d w h3 full3,
          load-store_ne p3 i3 i2 d z (λ e. n23 (sym e)),
          load-store_self p2 i2 c z h2 full2,
          load-store_ne p3 i3 i1 d y (λ e. n13 (sym e)),
          load-store_ne p2 i2 i1 c y (λ e. n12 (sym e)),
          load-store_self p1 i1 b y h1 full1,
          load-store_ne p3 i3 i0 d x (λ e. n03 (sym e)),
          load-store_ne p2 i2 i0 c x (λ e. n02 (sym e)),
          load-store_ne p1 i1 i0 b x (λ e. n01 (sym e)),
          load-store_self p i0 a x h0 full,
        )
        refl

value-bytes : (v : ℕ) → v < 2 ^ 32 → u32_value (u32_bytes v) ≡ v
value-bytes v h = omega arith

-- What AddVal writes of a 32-bit number at an offset up to 12 that is inside the request, GetVal reads there.
pub get-add_u32 :
    (req offs v old : ℕ) (p : List ℕ)
    → length p ≡ 16
    → offs + 3 < 16
    → offs < req
    → v < 2 ^ 32
    → get_u32 req offs old (add_u32 req offs v p) ≡ v
unfolding get_u32 add_u32 add_arr get_arr add_loop get_loop place first_place four p3 p2 p1
get-add_u32 req offs v old p full h hr hv = rw (leb-false req (offs % 256) (omega arith)) (
    ap u32_value (
      four-load p ((offs % 256 + 0) % 256) ((offs % 256 + 1) % 256) ((offs % 256 + 2) % 256)
        ((offs % 256 + 3) % 256) _ _ _ _ full (omega arith) (omega arith) (omega arith)
        (omega arith) (omega arith) (omega arith) (omega arith) (omega arith) (omega arith)
        (omega arith) _ _ _ _)
    ∙ value-bytes v hv)

-- What AddMsbVal writes of a 32-bit number at an offset up to 12, all four bytes inside the request, GetMsbVal
-- reads there.
pub get-add_msb_u32 :
    (req offs v old : ℕ) (p : List ℕ)
    → length p ≡ 16
    → offs + 3 < 16
    → offs + 3 < req
    → v < 2 ^ 32
    → get_msb_u32 req offs old (add_msb_u32 req offs v p) ≡ v
unfolding get_msb_u32 add_msb_u32 add_arr get_arr add_loop get_loop place first_place four p3 p2 p1
get-add_msb_u32 req offs v old p full h hr hv =
    rw (leb-false req ((offs + 3) % 256) (omega arith)) (
      ap u32_value (
        four-load p (((offs + 3) % 256 + 256 - 0) % 256) (((offs + 3) % 256 + 256 - 1) % 256)
          (((offs + 3) % 256 + 256 - 2) % 256) (((offs + 3) % 256 + 256 - 3) % 256) _ _ _ _ full
          (omega arith) (omega arith) (omega arith) (omega arith) (omega arith) (omega arith)
          (omega arith) (omega arith) (omega arith) (omega arith) _ _ _ _)
      ∙ value-bytes v hv)
