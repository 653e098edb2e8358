-- ===== src/Tftp/Buffer/Laws.antt =====
-- What a TFtp::Packet::Buffer holds after its operations.
use regiboard.Base.{
  ℕ, zero, suc, ◌+◌, ◌-◌, ◌*◌, ◌≤◌, ◌<◌, ◌≡◌, ◌≢◌, refl, ap, ◌∙◌, List, [], ◌∷◌, ◌++◌, append_assoc,
  append-nil, some, true, length, set, get_or, take, overlay, leb, ltb-true, ltb-false, leb-false,
  ==-false, arith, length-set, take-set, length-append, length-replicate, take-all, overlay-all,
  All,
}
use regiboard.Tftp.Buffer.{
  Buffer, max_size, clear, set_data, add_loop, add_array, get_loop, get_array, msb_bytes, add_u16,
  get_u16, scan_zero, get_string,
}

-- The bytes of the buffer up to its size.
pub record Holds (xs : List ℕ) (b : Buffer) : Type 0 where
  pub room : length b.bytes ≡ max_size
  pub counted : b.size ≡ length xs
  pub filled : take b.size b.bytes ≡ xs

pub clear-Holds : Holds [] clear
unfolding clear
clear-Holds = record { room = length-replicate max_size zero; counted = refl; filled = refl }

add_one-Holds :
    (xs : List ℕ) (y : ℕ) (b : Buffer)
    → Holds xs b
    → length xs < max_size
    → Holds (xs ++ y ∷ []) (record { bytes = set b.bytes b.size y; size = b.size + 1 })
add_one-Holds xs y b h lt = record {
  room = length-set b.bytes b.size y ∙ h.room;
  counted = omega (arith, length-append xs (y ∷ []), h.counted);
  filled =
      ap (λ (t : ℕ). take t (set b.bytes b.size y)) {x = b.size + 1} {y = suc b.size} (omega arith)
      ∙ take-set b.bytes b.size y (omega (arith, h.room, h.counted))
      ∙ ap (λ (t : List ℕ). t ++ y ∷ []) h.filled;
}

add_loop-Holds :
    (ys xs : List ℕ) (b : Buffer)
    → Holds xs b
    → length xs + length ys ≤ max_size
    → Holds (xs ++ ys) (add_loop ys b)
unfolding add_loop
add_loop-Holds [] xs b h fits = rw (append-nil xs) h
add_loop-Holds (y ∷ ys) xs b h fits =
    let next = add_one-Holds xs y b h (omega arith) in
    rw (ltb-true b.size max_size (omega (arith, h.counted)), ← append_assoc xs (y ∷ []) ys)
      (add_loop-Holds ys (xs ++ y ∷ []) _ next (omega (arith, length-append xs (y ∷ []))))

-- AddArray of bytes that fit appends them and succeeds.
pub add_array-Holds :
    (y : ℕ) (ys xs : List ℕ) (b : Buffer)
    → Holds xs b
    → length xs + length (y ∷ ys) ≤ max_size
    → ((add_array (some (y ∷ ys)) b).0 ≡ true)
      × Holds (xs ++ y ∷ ys) (add_array (some (y ∷ ys)) b).1
unfolding add_array
add_array-Holds y ys xs b h fits = (ground (arith, h.counted), add_loop-Holds (y ∷ ys) xs b h fits)

pub add_u16-Holds :
    (val : ℕ) (xs : List ℕ) (b : Buffer)
    → Holds xs b
    → length xs + 2 ≤ max_size
    → ((add_u16 val b).0 ≡ true) × Holds (xs ++ msb_bytes val) (add_u16 val b).1
unfolding add_u16
add_u16-Holds val xs b h fits = add_array-Holds _ _ xs b h fits

-- What add_loop does when the rest does not fit: it stops at the end of the buffer.
add_loop-full : (ys : List ℕ) (b : Buffer) → max_size ≤ b.size → add_loop ys b ≡ b
unfolding add_loop
add_loop-full [] b h = refl
add_loop-full (y ∷ ys) b h = rw (ltb-false b.size max_size h) refl

add_loop-take :
    (ys xs : List ℕ) (n : ℕ) (b : Buffer)
    → Holds xs b
    → length xs + n ≡ max_size
    → Holds (xs ++ take n ys) (add_loop ys b)
unfolding add_loop
add_loop-take [] xs zero b h e = rw (append-nil xs) h
add_loop-take [] xs (suc n) b h e = rw (append-nil xs) h
add_loop-take (y ∷ ys) xs zero b h e =
    rw (add_loop-full (y ∷ ys) b (omega (arith, h.counted)), append-nil xs) h
add_loop-take (y ∷ ys) xs (suc n) b h e =
    rw (ltb-true b.size max_size (omega (arith, h.counted)), ← append_assoc xs (y ∷ []) (take n ys))
      (add_loop-take ys (xs ++ y ∷ []) n _ (add_one-Holds xs y b h (omega arith))
        (omega (arith, length-append xs (y ∷ []))))

-- AddArray of one byte or more to a buffer with any contents: what fits into 516 bytes is appended, and
-- the result says whether all did.
pub add_array-take :
    (y : ℕ) (ys xs : List ℕ) (b : Buffer)
    → Holds xs b
    → length xs ≤ max_size
    → Holds (xs ++ take (max_size - length xs) (y ∷ ys)) (add_array (some (y ∷ ys)) b).1
      × ((add_array (some (y ∷ ys)) b).0 ≡ leb (length xs + length (y ∷ ys)) max_size)
unfolding add_array
add_array-take y ys xs b h room =
    (add_loop-take (y ∷ ys) xs (max_size - length xs) b h (omega arith), rw h.counted refl)

-- Texts in a buffer: `pre` stands before the text, a zero and `post` behind it.
get_or-append : (pre post : List ℕ) (x d : ℕ) → get_or (pre ++ x ∷ post) (length pre) d ≡ x
get_or-append [] post x d = refl
get_or-append (p ∷ pre) post x d = get_or-append pre post x d

module _ (post : List ℕ) where
  scan_zero-text :
      (t pre : List ℕ) (n : ℕ)
      → All (λ c. c ≢ 0) t
      → length t < n
      → scan_zero n (length pre) (pre ++ (t ++ 0 ∷ post)) ≡ length pre + length t
  unfolding scan_zero
  scan_zero-text [] pre zero a h = elim h [ ]
  scan_zero-text (c ∷ t) pre zero a h = elim h [ ]
  scan_zero-text [] pre (suc n) a h = rw (get_or-append pre post 0 0) (omega arith)
  scan_zero-text (c ∷ t) pre (suc n) (hc, a) h =
      let ih = scan_zero-text t (pre ++ c ∷ []) n a (omega arith) in
      let e : length (pre ++ c ∷ []) ≡ length pre + 1 = length-append pre (c ∷ []) in
      rw (get_or-append pre (t ++ 0 ∷ post) c 0, ==-false c 0 hc)
        ((rw (e, append_assoc pre (c ∷ []) (t ++ 0 ∷ post)) at ih) ∙ omega arith)

  get_loop-text :
      (t pre : List ℕ)
      → length pre + length t ≤ max_size
      → get_loop (length t) (length pre) (pre ++ (t ++ post)) ≡ t
  unfolding get_loop
  get_loop-text [] pre h = refl
  get_loop-text (c ∷ t) pre h =
      let ih = get_loop-text t (pre ++ c ∷ []) (omega (arith, length-append pre (c ∷ []))) in
      let e : length (pre ++ c ∷ []) ≡ length pre + 1 = length-append pre (c ∷ []) in
      rw (get_or-append pre (t ++ post) c 0, ltb-true (length pre) max_size (omega arith))
        (ap (◌∷◌ c) (rw (e, append_assoc pre (c ∷ []) (t ++ post)) at ih))

-- In a full buffer GetVal reads a text without zeros that a zero ends, and returns the offset behind it.
pub get_string-text :
    (beyond : ℕ) (pre t post : List ℕ) (b : Buffer)
    → b.bytes ≡ pre ++ (t ++ 0 ∷ post)
    → length b.bytes ≡ max_size
    → All (λ c. c ≢ 0) t
    → get_string beyond (length pre) b ≡ (length pre + length t + 1, t)
unfolding get_string
get_string-text beyond pre t post b e full a =
    rw
      (
        e,
        scan_zero-text post t pre (max_size - length pre) a (omega (arith, sizes)),
        leb-false max_size (length pre) (omega (arith, sizes)),
      )
      (rw (the_end, left, get_loop-text (0 ∷ post) t pre (omega (arith, sizes))) refl)
  where
    the_end : get_or (pre ++ (t ++ 0 ∷ post)) (length pre + length t) beyond ≡ 0
    the_end =
        rw (← append_assoc pre t (0 ∷ post), ← length-append pre t)
          (get_or-append (pre ++ t) post 0 beyond)

    left : length pre + length t - length pre ≡ length t
    left = omega arith

    sizes : length pre + length t < max_size
    sizes =
        omega
          (arith, full, ap length e, length-append pre (t ++ 0 ∷ post), length-append t (0 ∷ post))

-- GetVal of a word at the front of a buffer.
pub get_u16-front :
    (t0 t1 x y : ℕ) (rest : List ℕ) (b : Buffer)
    → b.bytes ≡ x ∷ y ∷ rest
    → get_u16 t0 t1 0 b ≡ (2, x * 256 + y)
unfolding get_u16 get_array get_loop
get_u16-front t0 t1 x y rest b e = rw e refl

-- set_data of a source that fills the buffer.
pub set_data-full :
    (x : ℕ) (xs : List ℕ) (b : Buffer)
    → length (x ∷ xs) ≡ max_size
    → length b.bytes ≡ max_size
    → set_data (some (x ∷ xs)) b ≡ (true, record { bytes = x ∷ xs; size = max_size })
unfolding set_data
set_data-full x xs b h room =
    rw (ltb-false (length (x ∷ xs)) max_size (omega arith))
      (λ i. (true, record { bytes = whole i; size = max_size }))
  where
    src : List ℕ
    src = x ∷ xs

    whole : overlay (take max_size src) b.bytes ≡ src
    whole =
        ap (λ (t : List ℕ). overlay t b.bytes) (take-all max_size src (omega arith))
        ∙ overlay-all src b.bytes (omega arith)
