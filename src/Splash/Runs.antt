-- ===== src/Splash/Runs.antt =====
-- Runs of the model of src/utils/regisplash/main.cpp.
use regiboard.Base.{
  ℕ, ◌+◌, ◌*◌, ◌-◌, ◌<◌, ◌≡◌, refl, [], ◌∷◌, ◌++◌, get_or, replicate, length-replicate, some, arith,
}
use regiboard.Base.Text.{Text}
use regiboard.Splash.{Screen, Headers, read_headers, Printed, crash, printed, print_bmp}
use regiboard.Splash.Shown.{print_bmp-shown, print_bmp-crash}

-- A bitmap of 2 by 2 points of 24 bits, its rows padded to 8 bytes.
abbrev two_by_two : Text
two_by_two =
    (66 ∷ 77 ∷ 70 ∷ 0 ∷ 0 ∷ 0 ∷ 0 ∷ 0 ∷ 0 ∷ 0 ∷ 54 ∷ 0 ∷ 0 ∷ 0 ∷ [])
    ++ ((40 ∷ 0 ∷ 0 ∷ 0 ∷ 2 ∷ 0 ∷ 0 ∷ 0 ∷ 2 ∷ 0 ∷ 0 ∷ 0 ∷ 1 ∷ 0 ∷ 24 ∷ 0 ∷ 0 ∷ 0 ∷ 0 ∷ 0 ∷ 16 ∷ 0
          ∷ 0 ∷ 0 ∷ [])
        ++ (replicate 16 0
            ++ (1 ∷ 2 ∷ 3 ∷ 4 ∷ 5 ∷ 6 ∷ 0 ∷ 0 ∷ 11 ∷ 12 ∷ 13 ∷ 14 ∷ 15 ∷ 16 ∷ 0 ∷ 0 ∷ [])))

abbrev screen : ℕ → Screen
screen height = record {
  width = 3;
  height = height;
  depth = 3;
  buffer = replicate (3 * height * 3) 0;
}

abbrev new_bytes : ℕ → Text
new_bytes n = replicate n 7

print_bmp-shown_example :
    (mem : Text) × (print_bmp new_bytes (some two_by_two) (screen 4) ≡ printed mem)
    × ((i j : ℕ)
        → i < 2
        → j < 6
        → get_or mem ((1 + 2 - i) * 9 + (0 + j)) 0 ≡ get_or two_by_two (54 + (i * 8 + j)) 0)
unfolding read_headers regiboard.Splash.le_at
print_bmp-shown_example =
    print_bmp-shown new_bytes two_by_two (screen 4) refl (omega arith) (omega arith) (omega arith)
      (omega arith) (omega arith) (omega arith) (λ n. length-replicate n 7) refl (omega arith)
      (omega arith) (omega arith)

print_bmp-crash_example : print_bmp new_bytes (some two_by_two) (screen 2) ≡ crash
unfolding read_headers regiboard.Splash.le_at
print_bmp-crash_example =
    print_bmp-crash new_bytes two_by_two (screen 2) refl (omega arith) (omega arith) (omega arith)
      (omega arith) (omega arith) (omega arith) (λ n. length-replicate n 7) refl (omega arith) refl
