-- ===== src/Tftp/Server/Files.antt =====
-- The published files of src/utils/regiloader/tftp.cpp.
use regiboard.Base.{
  ℕ, ◌≡◌, ◌≢◌, ◌<◌, refl, List, Option, none, some, true, false, length, ==-false, Bool-cases, inl,
  inr, bytes_eq, bytes_eq_refl, bytes_eq→eq, arith,
}
use regiboard.Tftp.Session.{find_file}
use regiboard.Tftp.Server.{insert_file, publish_file}

-- What was published first stays.
pub or_else : Option (List ℕ) → List ℕ → List ℕ
or_else none path = path
or_else (some old) path = old

find-insert :
    (o : Option (List ℕ)) (name path : List ℕ) (dir : List (List ℕ × List ℕ))
    → find_file name dir ≡ o
    → find_file name (insert_file o name path dir) ≡ some (or_else o path)
unfolding insert_file find_file or_else
find-insert none name path dir h = rw (bytes_eq_refl name) refl
find-insert (some old) name path dir h = h

bytes_eq-false : (xs ys : List ℕ) → xs ≢ ys → bytes_eq xs ys ≡ false
bytes_eq-false xs ys h = elim (Bool-cases (bytes_eq xs ys)) [
  | inl e ↦ absurd (h (bytes_eq→eq xs ys e))
  | inr e ↦ e
]

find-insert_ne :
    (o : Option (List ℕ)) (name other path : List ℕ) (dir : List (List ℕ × List ℕ))
    → name ≢ other
    → find_file other (insert_file o name path dir) ≡ find_file other dir
unfolding insert_file find_file
find-insert_ne none name other path dir h = rw (bytes_eq-false name other h) refl
find-insert_ne (some old) name other path dir h = refl

-- Publishing a file under a name, both not empty, makes the name known: with its path, or with the path
-- that was published first. No other name is touched.
pub publish_file-find :
    (name other path : List ℕ) (dir : List (List ℕ × List ℕ))
    → 0 < length name
    → 0 < length path
    → name ≢ other
    → ((publish_file name path dir).0 ≡ true)
      × ((find_file name (publish_file name path dir).1 ≡ some (or_else (find_file name dir) path))
          × (find_file other (publish_file name path dir).1 ≡ find_file other dir))
unfolding publish_file
publish_file-find name other path dir hn hp ne =
    rw (==-false (length path) 0 (omega arith), ==-false (length name) 0 (omega arith))
      (
        refl,
        (
          find-insert (find_file name dir) name path dir refl,
          find-insert_ne (find_file name dir) name other path dir ne,
        ),
      )
