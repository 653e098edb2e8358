-- ===== src/Ymodem/Transfer/Receiver.antt =====
-- What arrives of a file that src/utils/regiloader/ymodem.cpp sends, and how a receiver reads it.
use regiboard.Base.{
  ℕ, zero, suc, ◌+◌, ◌-◌, ◌*◌, ◌/◌, ◌%◌, ◌≤◌, ◌<◌, ◌≡◌, refl, sym, ap, ap₂, subst, ◌⊎◌, ◌∙◌, List,
  [], ◌∷◌, ◌++◌, append_assoc, append-nil, ◌==◌, ==_iff, Bool-cases, inl, inr, if◌then◌else◌, ltb,
  length, take, drop, replicate, arith, length-take, length-drop, length-append, length-replicate,
  take-append, take-append_add, drop-append_add, take-all, take-append-drop,
}
use regiboard.Ymodem.Crc.Reference.{reference}
use regiboard.Ymodem.Frames.{frame_size, next_number}
use regiboard.Ymodem.Frames.Layout.{frame_bytes, AreBytes}
use regiboard.Ymodem.Transfer.{decimal, decimal_loop}

-- A block, filled up with zeros.
abbrev pub pad : List ℕ → List ℕ
pad bs = bs ++ replicate (frame_size - length bs) 0

-- What a receiver gets for a file in `k` blocks, numbered from `n`.
pub wire_blocks : ℕ → ℕ → List ℕ → List ℕ
wire_blocks zero n content = []
wire_blocks (suc k) n content =
    frame_bytes n (pad (take frame_size content))
    ++ wire_blocks k (next_number n) (drop frame_size content)

pub wire_blocks-suc :
    (k n : ℕ) (content : List ℕ)
    → wire_blocks (suc k) n content
      ≡ frame_bytes n (pad (take frame_size content))
        ++ wire_blocks k (next_number n) (drop frame_size content)
unfolding wire_blocks
wire_blocks-suc k n content = refl

pub wire_blocks_one :
    (n : ℕ) (content : List ℕ)
    → wire_blocks 1 n content ≡ frame_bytes n (pad (take frame_size content))
unfolding wire_blocks
wire_blocks_one n content = append-nil _

pub total :
    (was_send : ℕ) (content : List ℕ)
    → was_send + length content
      ≡ was_send + length (take frame_size content) + length (drop frame_size content)
total was_send content =
    omega (arith, length-take frame_size content, length-drop frame_size content)

-- A receiver: of each frame of 1029 bytes it keeps the data.
pub receive : ℕ → List ℕ → List ℕ
receive zero bytes = []
receive (suc k) bytes = take frame_size (drop 3 bytes) ++ receive k (drop (frame_size + 5) bytes)

pub AreBytes-take : (n : ℕ) (xs : List ℕ) → AreBytes xs → AreBytes (take n xs)
AreBytes-take zero xs a = tt
AreBytes-take (suc n) [] a = tt
AreBytes-take (suc n) (x ∷ xs) (h, a) = (h, AreBytes-take n xs a)

pub AreBytes-drop : (n : ℕ) (xs : List ℕ) → AreBytes xs → AreBytes (drop n xs)
AreBytes-drop zero xs a = a
AreBytes-drop (suc n) [] a = tt
AreBytes-drop (suc n) (x ∷ xs) (h, a) = AreBytes-drop n xs a

pub frame-pad :
    (bs : List ℕ)
    → (if length bs == frame_size then bs else bs ++ replicate (frame_size - length bs) 0) ≡ pad bs
frame-pad bs = elim (Bool-cases (length bs == frame_size)) [
  | inl e ↦
      let z : frame_size - length bs ≡ 0 = omega (arith, (==_iff (length bs) frame_size).0 e) in
      rw (e, z) (sym (append-nil bs))
  | inr e ↦ rw e refl
]

AreBytes-decimal_loop : (k n : ℕ) (acc : List ℕ) → AreBytes acc → AreBytes (decimal_loop k n acc)
unfolding decimal_loop
AreBytes-decimal_loop zero n acc a = a
AreBytes-decimal_loop (suc k) n acc a = elim (Bool-cases (ltb n 10)) [
  | inl e ↦ rw e (ground arith, a)
  | inr e ↦ rw e (AreBytes-decimal_loop k (n / 10) _ (omega arith, a))
]

pub AreBytes-decimal : (n : ℕ) → AreBytes (decimal n)
unfolding decimal
AreBytes-decimal n = AreBytes-decimal_loop 10 n [] tt

length-pad : (bs : List ℕ) → length bs ≤ frame_size → length (pad bs) ≡ frame_size
length-pad bs h = omega (
  arith,
  length-append bs (replicate (frame_size - length bs) 0),
  length-replicate {0} (frame_size - length bs) zero,
)

-- The receiver finds the data of a frame, and the frame that follows.
receive_frame :
    (k n : ℕ) (bs rest : List ℕ)
    → length bs ≡ frame_size
    → receive (suc k) (frame_bytes n bs ++ rest) ≡ bs ++ receive k rest
unfolding receive
receive_frame k n bs rest h = rw (append_assoc bs _ rest) (ap₂ ◌++◌ front (ap (receive k) behind))
  where
    tail : List ℕ
    tail = reference bs 0 / 256 ∷ reference bs 0 % 256 ∷ rest

    front : take frame_size (bs ++ tail) ≡ bs
    front = subst (λ (t : ℕ). take t (bs ++ tail) ≡ bs) h (take-append bs tail)

    behind : drop (frame_size + 2) (bs ++ tail) ≡ rest
    behind = subst (λ (t : ℕ). drop (t + 2) (bs ++ tail) ≡ rest) h (drop-append_add bs tail 2)

frame_cases : (n : ℕ) → (n < frame_size) ⊎ (frame_size ≤ n)
frame_cases n = omega arith

pad_short :
    (content rest : List ℕ)
    → length content < frame_size
    → take (length content) (pad (take frame_size content) ++ rest) ≡ content
pad_short content rest h =
    rw (take-all frame_size content (omega arith), append_assoc content _ rest)
      (take-append content _)

pad_full :
    (content rest : List ℕ)
    → frame_size ≤ length content
    → take (length content) (pad (take frame_size content) ++ rest)
      ≡ take frame_size content ++ take (length (drop frame_size content)) rest
pad_full content rest h =
    let block = take frame_size content in
    let z : frame_size - length block ≡ 0 = omega (arith, length-take frame_size content) in
    let e : length content ≡ length block + length (drop frame_size content) =
      omega (arith, length-take frame_size content, length-drop frame_size content) in
    rw (z, append-nil block, e) (take-append_add block rest _)

-- The receiver gets a file of at most `k` blocks back, whatever follows them.
pub receive-wire_blocks :
    (k n : ℕ) (content rest : List ℕ)
    → length content ≤ k * frame_size
    → take (length content) (receive k (wire_blocks k n content ++ rest)) ≡ content
receive-wire_blocks zero n [] rest h = refl
receive-wire_blocks zero n (x ∷ xs) rest h = absurd (omega arith)
receive-wire_blocks (suc k) n content rest h =
    let block = take frame_size content in
    let more = drop frame_size content in
    let tail = wire_blocks k (next_number n) more in
    rw
      (
        wire_blocks-suc k n content,
        append_assoc (frame_bytes n (pad block)) tail rest,
        receive_frame k n (pad block) (tail ++ rest)
            (length-pad block (omega (arith, length-take frame_size content))),
      )
      (elim (frame_cases (length content)) [
        | inl short ↦ pad_short content _ short
        | inr full ↦
            pad_full content _ full
            ∙ ap (◌++◌ block) (
                receive-wire_blocks k (next_number n) more rest
                  (omega (arith, length-drop frame_size content)))
            ∙ take-append-drop frame_size content
      ])
