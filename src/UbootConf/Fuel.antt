-- ===== src/UbootConf/Fuel.antt =====
-- The loops of src/utils/regisetup/uboot_conf/uboot_conf.cpp come to an end: how often they turn.
use regiboard.Base.{
  ℕ, zero, suc, ◌<◌, ◌≡◌, inl, inr, refl, ap, [], ◌∷◌, ◌++◌, Bool, Bool-cases, true, false, ◌==◌,
  if◌then◌else◌, length, length-drop, leb, leb-le, arith, drop, take, overlay,
}
use regiboard.Base.Text.{Text}
use regiboard.UbootConf.{Regex, Arguments, segments, get_line, rows}

-- A row that leaves the stream good has taken a character from it.
abbrev Shorter : Text → Text × Text × Bool → Type 0
Shorter text (row, rest, good) = good ≡ true → length rest < length text

get_line-Shorter : (room : ℕ) (text : Text) → Shorter text (get_line room text)
unfolding get_line
get_line-Shorter room [] = λ e. absurd (grind (arith, e))
get_line-Shorter zero (c ∷ cs) = elim (Bool-cases (c == 10)) [
  | inl e ↦ rw (e, get_line) (λ h. omega arith)
  | inr e ↦ rw (e, get_line) (λ h. absurd (grind (arith, h)))
]
get_line-Shorter (suc k) (c ∷ cs) =
    let ih = get_line-Shorter k cs in
    elim (Bool-cases (c == 10)) [
      | inl e ↦ rw (e, get_line) (λ h. omega arith)
      | inr e ↦ rw (e, get_line) (λ h. let less = ih h in omega arith)
    ]

-- The loop of TextToBin takes no more turns than the text has characters, and one.
pub rows-fuel :
    (n m : ℕ) (text : Text) → length text < n → length text < m → rows n text ≡ rows m text
unfolding rows
rows-fuel zero m text hn hm = elim hn [ ]
rows-fuel (suc n) zero text hn hm = elim hm [ ]
rows-fuel (suc n) (suc m) text hn hm =
    next (get_line 254 text).2 (get_line-Shorter 254 text)
      (λ less. rows-fuel n m (get_line 254 text).1 (omega arith) (omega arith))
  where
    row : Text
    row = (get_line 254 text).0

    rest : Text
    rest = (get_line 254 text).1

    next :
        (good : Bool)
        → (good ≡ true → length rest < length text)
        → (length rest < length text → rows n rest ≡ rows m rest)
        → (if good then row ++ rows n rest else row) ≡ (if good then row ++ rows m rest else row)
    next true h ih = ap (◌++◌ row) (ih (h refl))
    next false h ih = refl

-- The loop of BinToText over segments of at least one byte takes no more turns than the stream has bytes,
-- and one: with more turns it writes the same.
pub segments-fuel :
    (n m sz : ℕ) (rx : Regex) (args : Arguments) (seg stream : Text)
    → 0 < sz
    → length stream < n
    → length stream < m
    → segments n sz rx args seg stream ≡ segments m sz rx args seg stream
unfolding segments
segments-fuel zero m sz rx args seg stream pos hn hm = elim hn [ ]
segments-fuel (suc n) zero sz rx args seg stream pos hn hm = elim hm [ ]
segments-fuel (suc n) (suc m) sz rx args seg stream pos hn hm =
    elim (Bool-cases (leb sz (length stream))) [
      | inr e ↦ rw (e, segments) refl
      | inl e ↦
          (let full = leb-le sz (length stream) e in
            let same =
              segments-fuel n m sz rx args (overlay (take sz stream) seg) (drop sz stream) pos
                (omega (arith, length-drop sz stream)) (omega (arith, length-drop sz stream)) in
            rw (e, same, segments) refl)
    ]
