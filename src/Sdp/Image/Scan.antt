-- ===== src/Sdp/Image/Scan.antt =====
-- The search of src/utils/regiloader/sdp.cpp for the header of an image.
use regiboard.Base.{
  ℕ, ◌≡◌, ◌≢◌, ◌⊎◌, inl, inr, refl, sym, ap, ◌∙◌, subst, List, some, ◌==◌, ==-true, ==-false,
  ==_iff, ==-ne, some-injective, none-ne-some, Bool-cases, arith,
}
use regiboard.Sdp.Commands.{write_file, crash, request}
use regiboard.Sdp.Commands.Layout.{request-crash}
use regiboard.Sdp.Image.{
  barker, barker_53, dcd_ptr, dcd_tag, boot_data_ptr, self_ptr, u32_sub, Image, new_image,
  try_header, take_dcd, init_header, firmware_of,
}

-- A header of an image with its DCD at offset `h`.
pub record IsHeader (m : ℕ → ℕ) (h : ℕ) : Type 0 where
  pub place : (h ≡ 0) ⊎ ((h ≡ 0x400) ⊎ (h ≡ 0x800))
  pub marked : barker m h ≡ barker_53
  pub has_dcd : dcd_ptr m h ≢ 0
  pub tagged : m (u32_sub (dcd_ptr m h) (self_ptr m h)) ≡ dcd_tag

-- Every header of an image so far is one.
Found : (ℕ → ℕ) → Image → Type 0
Found m img = (h : ℕ) → img.header ≡ some h → IsHeader m h

take_dcd-Found :
    (m : ℕ → ℕ) (h : ℕ) (img : Image)
    → (h ≡ 0) ⊎ ((h ≡ 0x400) ⊎ (h ≡ 0x800))
    → barker m h ≡ barker_53
    → dcd_ptr m h ≢ 0
    → Found m img
    → Found m (take_dcd m h img)
unfolding take_dcd Found
take_dcd-Found m h img at_place mark ptr f =
    elim (Bool-cases (m (u32_sub (dcd_ptr m h) (self_ptr m h)) == dcd_tag)) [
      | inl e ↦ rw e (λ k q. subst (IsHeader m) (some-injective h k q) (record {
        place = at_place;
        marked = mark;
        has_dcd = ptr;
        tagged = (==_iff _ dcd_tag).0 e;
      }))
      | inr e ↦ rw e (λ k q. f k q)
    ]

try_header-Found :
    (m : ℕ → ℕ) (h : ℕ) (img : Image)
    → (h ≡ 0) ⊎ ((h ≡ 0x400) ⊎ (h ≡ 0x800))
    → Found m img
    → Found m (try_header m h img)
unfolding try_header
try_header-Found m h img at_place f = elim (Bool-cases (barker m h == barker_53)) [
  | inr e ↦ rw e f
  | inl e ↦ elim (Bool-cases (dcd_ptr m h == 0)) [
    | inl z ↦ rw (e, z) (unfold Found in f)
    | inr z ↦
        rw (e, z)
          (take_dcd-Found m h _ at_place ((==_iff _ barker_53).0 e) (==-ne (dcd_ptr m h) 0 z)
            (unfold Found in f))
  ]
]

-- The header that is found stands at 0, 0x400 or 0x800, has the barker, and points to a DCD with its tag.
pub init_header-IsHeader :
    (m : ℕ → ℕ) (h : ℕ) → (init_header m new_image).header ≡ some h → IsHeader m h
unfolding init_header new_image Found
init_header-IsHeader m = try_header-Found m 0x800 _ (inr (inr refl)) (
    try_header-Found m 0x400 _ (inr (inl refl))
      (try_header-Found m 0 new_image (inl refl) (λ h e. absurd (none-ne-some h e))))

-- No other place has the barker.
abbrev pub Only : (ℕ → ℕ) → ℕ → Type 0
Only m h = (k : ℕ) → (k ≡ 0) ⊎ ((k ≡ 0x400) ⊎ (k ≡ 0x800)) → k ≢ h → barker m k ≢ barker_53

try_header-skip :
    (m : ℕ → ℕ) (h : ℕ) (img : Image) → barker m h ≢ barker_53 → try_header m h img ≡ img
unfolding try_header
try_header-skip m h img e = rw (==-false (barker m h) barker_53 e) refl

-- The scan of an image with one barker is one turn of its loop.
init_header-Only :
    (m : ℕ → ℕ) (h : ℕ)
    → (h ≡ 0) ⊎ ((h ≡ 0x400) ⊎ (h ≡ 0x800))
    → Only m h
    → init_header m new_image ≡ try_header m h new_image
unfolding init_header
init_header-Only m h (inl e) only =
    try_header-skip m 0x800 _ (only 0x800 (inr (inr refl)) (omega arith))
    ∙ try_header-skip m 0x400 _ (only 0x400 (inr (inl refl)) (omega arith))
    ∙ ap (λ (k : ℕ). try_header m k new_image) (sym e)
init_header-Only m h (inr (inl e)) only =
    try_header-skip m 0x800 _ (only 0x800 (inr (inr refl)) (omega arith))
    ∙ ap (try_header m 0x400) (try_header-skip m 0 new_image (only 0 (inl refl) (omega arith)))
    ∙ ap (λ (k : ℕ). try_header m k new_image) (sym e)
init_header-Only m h (inr (inr e)) only =
    ap (try_header m 0x800) (
      ap (try_header m 0x400) (try_header-skip m 0 new_image (only 0 (inl refl) (omega arith)))
      ∙ try_header-skip m 0x400 new_image (only 0x400 (inr (inl refl)) (omega arith)))
    ∙ ap (λ (k : ℕ). try_header m k new_image) (sym e)

try_header-take :
    (m : ℕ → ℕ) (h : ℕ) (img : Image)
    → IsHeader m h
    → ((try_header m h img).header ≡ some h)
      × ((try_header m h img).boot ≡ some (u32_sub (boot_data_ptr m h) (self_ptr m h)))
unfolding try_header take_dcd
try_header-take m h img v =
    rw
      (
        ==-true (barker m h) barker_53 v.marked,
        ==-false (dcd_ptr m h) 0 v.has_dcd,
        ==-true (m (u32_sub (dcd_ptr m h) (self_ptr m h))) dcd_tag v.tagged,
      )
      (refl, refl)

-- An image with one barker, at the place of a header, is found with its boot data.
pub init_header-found :
    (m : ℕ → ℕ) (h : ℕ)
    → IsHeader m h
    → Only m h
    → ((init_header m new_image).header ≡ some h)
      × ((init_header m new_image).boot ≡ some (u32_sub (boot_data_ptr m h) (self_ptr m h)))
init_header-found m h v only =
    rw (init_header-Only m h v.place only) (try_header-take m h new_image v)

-- An image with one barker whose header names no DCD: the request that loads it reads a null pointer.
pub init_header-crash :
    (m : ℕ → ℕ) (h : ℕ) (bytes : List ℕ)
    → (h ≡ 0) ⊎ ((h ≡ 0x400) ⊎ (h ≡ 0x800))
    → barker m h ≡ barker_53
    → dcd_ptr m h ≡ 0
    → Only m h
    → request (write_file (some (firmware_of m bytes (init_header m new_image)))) ≡ crash
unfolding try_header firmware_of new_image
init_header-crash m h bytes at_place mark none_there only =
    rw (init_header-Only m h at_place only) (
      request-crash _
        (rw (==-true (barker m h) barker_53 mark, ==-true (dcd_ptr m h) 0 none_there) refl)
        (rw (==-true (barker m h) barker_53 mark, ==-true (dcd_ptr m h) 0 none_there) refl))
