-- ===== src/Loader/Recipe/Split.antt =====
-- The loop of main in src/utils/regiloader/regiloader.cpp that takes a recipe apart at each "->".
use regiboard.Base.{
  ℕ, zero, suc, ◌+◌, ◌≤◌, ◌<◌, ◌≡◌, refl, sym, ap, ap₂, subst, ◌∙◌, List, [], ◌∷◌, ◌++◌, Option,
  none, some, Bool, true, false, ◌==◌, ◌&&◌, if◌then◌else◌, ◌≢◌, ◌⊎◌, inl, inr, Option-cases, All,
  take, drop, length, length-append, length-drop, drop-append_add, take-append, arith,
}
use mathlib.Core.Option
use regiboard.Base.Text.{Text}
use regiboard.Loader.Recipe.{find_delimiter, split_loop, split_recipe}

-- The actions with the delimiter between them.
abbrev pub join : List Text → Text
join [] = []
join (act ∷ []) = act
join (act ∷ next ∷ acts) = act ++ b'-' ∷ b'>' ∷ join (next ∷ acts)

abbrev pub Undivided : Text → Type 0
Undivided act = find_delimiter act ≡ none

-- What a delimiter at `n` says of the text.
record IsFirst (t : Text) (n : ℕ) : Type 0 where
  fits : n + 2 ≤ length t
  parts : take n t ++ b'-' ∷ b'>' ∷ drop (suc (suc n)) t ≡ t
  front : Undivided (take n t)

-- How the search ends at a character, by its test and by what it finds behind.
unmatched :
    (b : Bool) (o : Option ℕ)
    → (if b then some 0 else Option.map suc o) ≡ none
    → (b ≡ false) × (o ≡ none)
unmatched true o h = cc
unmatched false none h = (refl, refl)
unmatched false (some n) h = cc

matched :
    (b : Bool) (o : Option ℕ) (n : ℕ)
    → (if b then some 0 else Option.map suc o) ≡ some n
    → (b ≡ true) × (n ≡ 0) ⊎ ((m : ℕ) × (b ≡ false) × (o ≡ some m) × (n ≡ suc m))
matched true o n h = inl (refl, cc)
matched false none n h = cc
matched false (some m) n h = inr (m, refl, refl, cc)

find_delimiter-cons : (c d : ℕ) (r : Text) → Undivided (c ∷ d ∷ r) → Undivided (d ∷ r)
unfolding find_delimiter
find_delimiter-cons c d r h = (unmatched ((c == b'-') && (d == b'>')) (find_delimiter (d ∷ r)) h).1

find_delimiter-append :
    (act rest : Text)
    → Undivided act
    → find_delimiter (act ++ b'-' ∷ b'>' ∷ rest) ≡ some (length act)
unfolding find_delimiter
find_delimiter-append [] rest h = refl
find_delimiter-append (c ∷ []) rest h = ground arith
find_delimiter-append (c ∷ d ∷ r) rest h =
    let e = unmatched ((c == b'-') && (d == b'>')) (find_delimiter (d ∷ r)) h in
    rw (e.0, find_delimiter-append (d ∷ r) rest e.1) refl

IsFirst-here : (c d : ℕ) (r : Text) → ((c == b'-') && (d == b'>')) ≡ true → IsFirst (c ∷ d ∷ r) 0
unfolding find_delimiter
IsFirst-here c d r h = record {
  fits = omega arith;
  parts = ap₂ (λ (a b : ℕ). a ∷ b ∷ r) (ground arith) (ground arith);
  front = refl;
}

Undivided-cons :
    (c d : ℕ) (r : Text) (m : ℕ)
    → ((c == b'-') && (d == b'>')) ≡ false
    → Undivided (take m (d ∷ r))
    → Undivided (c ∷ take m (d ∷ r))
unfolding find_delimiter
Undivided-cons c d r zero h k = refl
Undivided-cons c d r (suc m) h k = rw (h, k) refl

IsFirst-cons :
    (c d : ℕ) (r : Text) (m : ℕ)
    → ((c == b'-') && (d == b'>')) ≡ false
    → IsFirst (d ∷ r) m
    → IsFirst (c ∷ d ∷ r) (suc m)
IsFirst-cons c d r m h first = record {
  fits = omega (arith, first.fits);
  parts = ap (◌∷◌ c) first.parts;
  front = Undivided-cons c d r m h first.front;
}

find_delimiter-IsFirst : (t : Text) (n : ℕ) → find_delimiter t ≡ some n → IsFirst t n
unfolding find_delimiter
find_delimiter-IsFirst [] n h = cc
find_delimiter-IsFirst (c ∷ []) n h = cc
find_delimiter-IsFirst (c ∷ d ∷ r) n h =
    elim (matched ((c == b'-') && (d == b'>')) (find_delimiter (d ∷ r)) n h) [
      | inl e ↦ subst (IsFirst (c ∷ d ∷ r)) (sym e.1) (IsFirst-here c d r e.0)
      | inr (m, no_match, later, q) ↦
          subst (IsFirst (c ∷ d ∷ r)) (sym q)
            (IsFirst-cons c d r m no_match (find_delimiter-IsFirst (d ∷ r) m later))
    ]

-- One turn of the loop, by what the search finds.
split_loop-last : (fuel : ℕ) (t : Text) → Undivided t → split_loop (suc fuel) t ≡ t ∷ []
unfolding split_loop
split_loop-last fuel t h = rw (h, split_loop) refl

split_loop-next :
    (fuel : ℕ) (t : Text) (n : ℕ)
    → find_delimiter t ≡ some n
    → split_loop (suc fuel) t ≡ take n t ∷ split_loop fuel (drop (suc (suc n)) t)
unfolding split_loop
split_loop-next fuel t n h = rw (h, split_loop) refl

drop-delimiter :
    (act rest : Text) → drop (suc (suc (length act))) (act ++ b'-' ∷ b'>' ∷ rest) ≡ rest
drop-delimiter act rest =
    let e : suc (suc (length act)) ≡ length act + 2 = omega arith in
    rw e (drop-append_add act (b'-' ∷ b'>' ∷ rest) 2)

split_loop-join :
    (fuel : ℕ) (act : Text) (acts : List Text)
    → length acts < fuel
    → All Undivided (act ∷ acts)
    → split_loop fuel (join (act ∷ acts)) ≡ act ∷ acts
split_loop-join zero act acts h all = elim h [ ]
split_loop-join (suc fuel) act [] h all = split_loop-last fuel act all.0
split_loop-join (suc fuel) act (next ∷ acts) h all =
    split_loop-next fuel _ (length act) (find_delimiter-append act (join (next ∷ acts)) all.0)
    ∙ ap₂ (λ (a r : Text). a ∷ split_loop fuel r) (take-append act _)
        (drop-delimiter act (join (next ∷ acts)))
    ∙ ap (◌∷◌ act) (split_loop-join fuel next acts (omega arith) all.1)

length-join : (act : Text) (acts : List Text) → length acts ≤ length (join (act ∷ acts))
length-join act [] = omega arith
length-join act (next ∷ acts) =
    omega (arith, length-join next acts, length-append act (b'-' ∷ b'>' ∷ join (next ∷ acts)))

-- A recipe that is written with "->" between actions that do not hold it is taken apart into these
-- actions.
pub split_recipe-join :
    (act : Text) (acts : List Text)
    → All Undivided (act ∷ acts)
    → split_recipe (join (act ∷ acts)) ≡ act ∷ acts
unfolding split_recipe
split_recipe-join act acts all =
    split_loop-join _ act acts (omega (arith, length-join act acts)) all

-- A text taken apart: no part holds the delimiter, and the parts with it between them are the text.
pub record Divides (t : Text) (acts : List Text) : Type 0 where
  pub some_act : acts ≢ []
  pub undivided : All Undivided acts
  pub joined : join acts ≡ t

join-cons :
    (act : Text) (acts : List Text) → acts ≢ [] → join (act ∷ acts) ≡ act ++ b'-' ∷ b'>' ∷ join acts
join-cons act [] h = absurd (h refl)
join-cons act (next ∷ acts) h = refl

Divides-cons :
    (t : Text) (n : ℕ) (acts : List Text)
    → IsFirst t n
    → Divides (drop (suc (suc n)) t) acts
    → Divides t (take n t ∷ acts)
Divides-cons t n acts first rest = record {
  some_act = λ e. cc;
  undivided = (first.front, rest.undivided);
  joined =
      join-cons (take n t) acts rest.some_act
      ∙ ap (λ (r : Text). take n t ++ b'-' ∷ b'>' ∷ r) rest.joined
      ∙ first.parts;
}

split_loop-Divides : (fuel : ℕ) (t : Text) → length t < fuel → Divides t (split_loop fuel t)
split_loop-Divides zero t h = elim h [ ]
split_loop-Divides (suc fuel) t h = elim (Option-cases (find_delimiter t)) [
  | inl e ↦
      subst (Divides t) (sym (split_loop-last fuel t e))
        (record { some_act = λ q. cc; undivided = (e, tt); joined = refl })
  | inr (n, e) ↦
      let first = find_delimiter-IsFirst t n e in
      subst (Divides t) (sym (split_loop-next fuel t n e)) (
        Divides-cons t n _ first (
          split_loop-Divides fuel (drop (suc (suc n)) t)
            (omega (arith, first.fits, length-drop (suc (suc n)) t))))
]

-- The loop takes every text apart: it yields an action at least, no action holds a "->", and the
-- actions with "->" between them are the text again.
pub split_recipe-Divides : (t : Text) → Divides t (split_recipe t)
unfolding split_recipe
split_recipe-Divides t = split_loop-Divides (suc (length t)) t (omega arith)
