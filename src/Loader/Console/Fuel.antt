-- ===== src/Loader/Console/Fuel.antt =====
-- The loops of SkipLines and ParseUntil in src/utils/regiloader/regiloader.cpp come to an end: every read
-- takes a turn of the port.
use regiboard.Base.{
  ℕ, zero, suc, ◌+◌, ◌<◌, ◌≡◌, refl, List, [], ◌∷◌, ◌++◌, Option, none, some, Bool, true, false,
  ◌==◌, ◌&&◌, ◌||◌, if◌then◌else◌, length, ltb, arith,
}
use regiboard.Base.Text.{Text, codes}
use regiboard.Loader.Asio.{Event, Reader, run, read_loop, reading_was_failed}
use regiboard.Loader.Asio
use regiboard.Loader.State.{
  World, SysInfo, Result, ok, waits, crash, Action, pure, gets, ◌>>=◌, ◌>>◌,
}
use regiboard.Loader.Info.{parse_test}
use regiboard.Loader.Console.{
  is_cr, read_turns, read_byte, set_globals, skip_loop, fill_with, fill_line, take_line, parse_loop,
}

-- What a read leaves of the turns.
abbrev Takes : ℕ → Option (Reader × List (List Event)) → Type 0
Takes n none = Unit
Takes n (some (r, turns)) = length turns < n

Takes-suc : (n : ℕ) (o : Option (Reader × List (List Event))) → Takes n o → Takes (suc n) o
Takes-suc n none h = tt
Takes-suc n (some (r, turns)) h = omega arith

read_loop-Takes :
    (tries amount : ℕ) (turns : List (List Event)) (r : Reader)
    → Takes (length turns) (read_loop tries amount turns r)
unfolding read_loop
read_loop-Takes tries amount [] r = tt
read_loop-Takes tries amount (turn ∷ turns) r =
    either (ltb (run turn r).try_num tries && ltb (run turn r).was_processed amount) (
      Takes-suc (length turns) (read_loop tries amount turns (run turn r))
        (read_loop-Takes tries amount turns (run turn r)))
  where
    either :
        (more : Bool)
        → Takes (suc (length turns)) (read_loop tries amount turns (run turn r))
        → Takes
            (suc (length turns))
            (if more then read_loop tries amount turns (run turn r) else some (run turn r, turns))
    either true h = h
    either false h = omega arith

-- A result that leaves fewer turns.
abbrev pub Leaves : {A : Type 0} → ℕ → Result A → Type 0
Leaves n (ok a w) = length w.turns < n
Leaves n (waits w) = Unit
Leaves n crash = Unit

read_turns-Leaves :
    (n : ℕ) (o : Option (Reader × List (List Event))) (w : World)
    → Takes n o
    → Leaves n (read_turns o w)
unfolding read_turns
read_turns-Leaves n none w h = tt
read_turns-Leaves n (some (r, turns)) w h = h

pub read_byte-Leaves :
    (tries buff : ℕ) (w : World) → Leaves (length w.turns) (read_byte tries buff w)
unfolding read_byte Asio.read
read_byte-Leaves tries buff w =
    read_turns-Leaves (length w.turns) _ w (read_loop-Takes tries 1 w.turns _)

fill_with-Leaves :
    (n : ℕ) (o : Option SysInfo) (w : World) → length w.turns < n → Leaves n (fill_with o w)
unfolding fill_with
fill_with-Leaves n none w h = tt
fill_with-Leaves n (some inf) w h = h

take_line-Leaves :
    (n : ℕ) (kept : Bool) (str : Text) (w : World)
    → length w.turns < n
    → Leaves n (take_line kept str w)
unfolding take_line fill_line
take_line-Leaves n false str w h = h
take_line-Leaves n true str w h = fill_with-Leaves n _ w h

-- Two continuations of an action that agree on the worlds that it leaves.
bind_same :
    {A B : Type 0} (n : ℕ) (m : Action A) (f g : A → Action B) (w : World)
    → Leaves n (m w)
    → ((a : A) (v : World) → length v.turns < n → f a v ≡ g a v)
    → (m >>= f) w ≡ (m >>= g) w
bind_same {A} {B} n m f g w h same = ends (m w) h
  where
    ends : (r : Result A) → Leaves n r → ◌>>=◌ (λ u. r) f w ≡ ◌>>=◌ (λ u. r) g w
    ends (ok a v) few = same a v few
    ends (waits v) few = refl
    ends crash few = refl

-- Two branches that agree.
if_same :
    {A : Type 0} (b : Bool) (x y x' y' : Action A) (w : World)
    → x w ≡ x' w
    → y w ≡ y' w
    → (if b then x else y) w ≡ (if b then x' else y') w
if_same true x y x' y' w h k = h
if_same false x y x' y' w h k = k

-- The loop of SkipLines does the same on every fuel that is more than the turns of the port.
pub skip_loop-fuel :
    (n m limit lines resp : ℕ) (w : World)
    → length w.turns < n
    → length w.turns < m
    → skip_loop n limit lines resp w ≡ skip_loop m limit lines resp w
unfolding skip_loop
skip_loop-fuel zero m limit lines resp w hn hm = elim hn [ ]
skip_loop-fuel (suc n) zero limit lines resp w hn hm = elim hm [ ]
skip_loop-fuel (suc n) (suc m) limit lines resp w hn hm =
    bind_same (length w.turns) (read_byte 1 resp) _ _ w (read_byte-Leaves 1 resp w) (λ r v few.
      let lines' = if is_cr r.buff then lines + 1 else lines in
      if_same (ltb lines' limit) (skip_loop n limit lines' r.buff) (pure tt)
        (skip_loop m limit lines' r.buff) (pure tt) v
        (skip_loop-fuel n m limit lines' r.buff v (omega arith) (omega arith)) refl)

module _ (wait_for : Text) (kept : Bool) (str : Text) (total : ℕ) (r : Reader) where
  -- What ParseUntil does behind a read, from its tests on.
  abbrev gather : ℕ → Action Bool
  gather n =
      let str' = str ++ r.buff ∷ [] in
      gets (λ w. parse_test w.regex str' (wait_for ++ codes "(.*)")) >>= λ found.
      if found then pure true else parse_loop n wait_for kept str' (total + 1) r.buff

  abbrev drop_cr : ℕ → Action Bool
  drop_cr n = if is_cr r.buff then parse_loop n wait_for kept str total r.buff else gather n

  abbrev end_line : ℕ → Action Bool
  end_line n = take_line kept str >> parse_loop n wait_for kept [] 0 r.buff

  abbrev next_byte : ℕ → Action Bool
  next_byte n = if (r.buff == 0x0A) || ltb 256 total then end_line n else drop_cr n

abbrev mark_failed : Action Bool
mark_failed = set_globals (λ g. record g { parse_timeout_fail = true }) >> pure false

-- The loop of ParseUntil does the same on every fuel that is more than the turns of the port.
parse_loop-fuel :
    (n m : ℕ) (wait_for : Text) (kept : Bool) (str : Text) (total resp : ℕ) (w : World)
    → length w.turns < n
    → length w.turns < m
    → parse_loop n wait_for kept str total resp w ≡ parse_loop m wait_for kept str total resp w
unfolding parse_loop
parse_loop-fuel zero m wait_for kept str total resp w hn hm = elim hn [ ]
parse_loop-fuel (suc n) zero wait_for kept str total resp w hn hm = elim hm [ ]
parse_loop-fuel (suc n) (suc m) wait_for kept str total resp w hn hm =
    bind_same (length w.turns) (read_byte 10 resp) _ _ w (read_byte-Leaves 10 resp w) (λ r v few.
      let again : (s : Text) (t : ℕ)
          → parse_loop n wait_for kept s t r.buff v ≡ parse_loop m wait_for kept s t r.buff v =
        λ s t. parse_loop-fuel n m wait_for kept s t r.buff v (omega arith) (omega arith) in
      let str' = str ++ r.buff ∷ [] in
      let line : end_line wait_for kept str total r n v ≡ end_line wait_for kept str total r m v =
        bind_same (length w.turns) (take_line kept str) _ _ v
          (take_line-Leaves (length w.turns) kept str v few)
          (λ a u less.
            parse_loop-fuel n m wait_for kept [] 0 r.buff u (omega arith) (omega arith)) in
      if_same (reading_was_failed 10 r) mark_failed (next_byte wait_for kept str total r n)
        mark_failed (next_byte wait_for kept str total r m) v refl
        (if_same ((r.buff == 0x0A) || ltb 256 total) (end_line wait_for kept str total r n)
          (drop_cr wait_for kept str total r n) (end_line wait_for kept str total r m)
          (drop_cr wait_for kept str total r m) v line
          (if_same (is_cr r.buff) (parse_loop n wait_for kept str total r.buff)
            (gather wait_for kept str total r n) (parse_loop m wait_for kept str total r.buff)
            (gather wait_for kept str total r m) v (again str total)
            (if_same (parse_test v.regex str' (wait_for ++ codes "(.*)")) (pure true)
              (parse_loop n wait_for kept str' (total + 1) r.buff) (pure true)
              (parse_loop m wait_for kept str' (total + 1) r.buff) v refl
              (again str' (total + 1))))))
