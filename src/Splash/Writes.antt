-- ===== src/Splash/Writes.antt =====
-- The writes of src/utils/regisplash/main.cpp into the memory of the screen.
use regiboard.Base.{
  ℕ, ◌+◌, ◌-◌, ◌≤◌, ◌<◌, ◌≡◌, ◌⊎◌, inl, inr, refl, sym, ap, ◌∙◌, ◌++◌, leb-true, leb-false, length,
  take, drop, get_or, length-append, length-take, length-drop, get_or-front, get_or-behind,
  get_or-drop, get_or-take, none, some, arith,
}
use regiboard.Base.Text.{Text}
use regiboard.Splash.{write_at}

abbrev pub patched : ℕ → Text → Text → Text
patched off bytes mem = take off mem ++ (bytes ++ drop (off + length bytes) mem)

pub write_at-patched :
    (off : ℕ) (bytes mem : Text)
    → off + length bytes ≤ length mem
    → write_at off bytes mem ≡ some (patched off bytes mem)
unfolding write_at
write_at-patched off bytes mem h = rw (leb-true (off + length bytes) (length mem) h) refl

pub write_at-behind :
    (off : ℕ) (bytes mem : Text) → length mem < off + length bytes → write_at off bytes mem ≡ none
unfolding write_at
write_at-behind off bytes mem h = rw (leb-false (off + length bytes) (length mem) h) refl

pub length-patched :
    (off : ℕ) (bytes mem : Text)
    → off + length bytes ≤ length mem
    → length (patched off bytes mem) ≡ length mem
length-patched off bytes mem h = omega (
  arith,
  length-append (take off mem) (bytes ++ drop (off + length bytes) mem),
  length-append bytes (drop (off + length bytes) mem),
  length-take off mem,
  length-drop (off + length bytes) mem,
)

-- The bytes that are written.
pub get_or-patched :
    (off : ℕ) (bytes mem : Text) (i : ℕ)
    → off + length bytes ≤ length mem
    → i < length bytes
    → get_or (patched off bytes mem) (off + i) 0 ≡ get_or bytes i 0
get_or-patched off bytes mem i h lt =
    let front : length (take off mem) ≡ off = omega (arith, length-take off mem) in
    ap (λ (n : ℕ). get_or (patched off bytes mem) (n + i) 0) (sym front)
    ∙ get_or-behind (take off mem) (bytes ++ drop (off + length bytes) mem) i 0
    ∙ get_or-front bytes (drop (off + length bytes) mem) i 0 lt

-- A byte in front of them or behind them.
pub get_or-patched_ne :
    (off : ℕ) (bytes mem : Text) (i : ℕ)
    → off + length bytes ≤ length mem
    → (i < off) ⊎ (off + length bytes ≤ i)
    → get_or (patched off bytes mem) i 0 ≡ get_or mem i 0
get_or-patched_ne off bytes mem i h (inl before) =
    get_or-front (take off mem) (bytes ++ drop (off + length bytes) mem) i 0
      (omega (arith, length-take off mem))
    ∙ get_or-take off mem i 0 before
get_or-patched_ne off bytes mem i h (inr behind) =
    let front : length (take off mem) ≡ off = omega (arith, length-take off mem) in
    let n : ℕ = off + length bytes in
    let split : i ≡ off + (length bytes + (i - n)) = omega arith in
    let whole : n + (i - n) ≡ i = omega arith in
    ap (λ (j : ℕ). get_or (patched off bytes mem) j 0)
      (split ∙ ap (λ (m : ℕ). m + (length bytes + (i - n))) (sym front))
    ∙ get_or-behind (take off mem) (bytes ++ drop n mem) (length bytes + (i - n)) 0
    ∙ get_or-behind bytes (drop n mem) (i - n) 0
    ∙ get_or-drop n mem (i - n) 0
    ∙ ap (λ (j : ℕ). get_or mem j 0) whole
