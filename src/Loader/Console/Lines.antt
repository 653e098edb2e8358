-- ===== src/Loader/Console/Lines.antt =====
-- ParseUntil of src/utils/regiloader/regiloader.cpp on the bytes that the board sends.
use regiboard.Base.{
  ℕ, suc, ◌+◌, ◌-◌, ◌≤◌, ◌<◌, ◌≡◌, ◌≢◌, refl, sym, ap, ap₂, ◌∙◌, List, [], ◌∷◌, ◌++◌, Option, Bool,
  true, false, if◌then◌else◌, replicate, length, length-append, ltb-false, ==-false, append-nil,
  append_assoc, arith,
}
use regiboard.Base.Text.{Text, codes}
use regiboard.Loader.Asio.{Event, Reader, reading_was_failed}
use regiboard.Loader.Asio
use regiboard.Loader.Asio.Reads.{silent, byte, read-byte, read-failed}
use regiboard.Loader.State.{World, ok, Action, pure, >>=-ok}
use regiboard.Loader.Info.{parse_test}
use regiboard.Loader.Console.{read_turns, read_byte, parse_loop, parse_until, send_to}

-- What arrives: each byte behind some turns without one.
abbrev pub turns_of : List (ℕ × ℕ) → List (List Event) → List (List Event)
turns_of [] turns = turns
turns_of ((k, b) ∷ bytes) turns = replicate k silent ++ byte b ∷ turns_of bytes turns

-- A byte that neither ends a line nor is dropped.
pub record Plain (b : ℕ) : Type 0 where
  pub not_lf : b ≢ 0x0A
  pub not_cr : b ≢ 0x0D

read_byte-byte :
    (k resp b : ℕ) (turns : List (List Event)) (w : World)
    → k < 10
    → w.turns ≡ replicate k silent ++ byte b ∷ turns
    → read_byte 10 resp w
      ≡ ok (record { was_processed = 1; try_num = 0; buff = b }) (record w { turns = turns })
unfolding read_byte read_turns
read_byte-byte k resp b turns w h e =
    ap (λ (t : List (List Event)). read_turns (Asio.read 10 resp t) w) e
    ∙ ap (λ (r : Option (Reader × List (List Event))). read_turns r w)
        (read-byte 10 (omega arith) k resp b turns h)

read_byte-failed :
    (resp : ℕ) (turns : List (List Event)) (w : World)
    → w.turns ≡ replicate 10 silent ++ turns
    → read_byte 10 resp w
      ≡ ok (record { was_processed = 0; try_num = 10; buff = resp }) (record w { turns = turns })
unfolding read_byte read_turns
read_byte-failed resp turns w e =
    ap (λ (t : List (List Event)). read_turns (Asio.read 10 resp t) w) e
    ∙ ap (λ (r : Option (Reader × List (List Event))). read_turns r w)
        (read-failed 10 (omega arith) 9 resp turns refl).0

module _ (wait_for : Text) (kept : Bool) where
  -- The loop behind a byte that has been read.
  go_on : ℕ → Text → ℕ → ℕ → Bool → Action Bool
  go_on fuel str total b found =
      if found then pure true else parse_loop fuel wait_for kept str (total + 1) b

  parse_loop-byte :
      (fuel : ℕ) (str : Text) (total resp k b : ℕ) (turns : List (List Event)) (w : World)
      (found : Bool)
      → k < 10
      → w.turns ≡ replicate k silent ++ byte b ∷ turns
      → Plain b
      → total ≤ 256
      → parse_test w.regex (str ++ b ∷ []) (wait_for ++ codes "(.*)") ≡ found
      → parse_loop (suc fuel) wait_for kept str total resp w
        ≡ go_on fuel (str ++ b ∷ []) total b found (record w { turns = turns })
  unfolding parse_loop go_on reading_was_failed
  parse_loop-byte fuel str total resp k b turns w found h e plain few test =
      >>=-ok (read_byte 10 resp) _ w _ _ (read_byte-byte k resp b turns w h e)
      ∙ rw
          (
            ==-false b 0x0A plain.not_lf,
            ==-false b 0x0D plain.not_cr,
            ltb-false 256 total few,
            test,
          )
          refl

-- The bytes behind `str` that do not complete the expression.
abbrev pub Unmet : (Text → Text → Option (List Text)) → Text → Text → List (ℕ × ℕ) → Type 0
Unmet rx exp str [] = Unit
Unmet rx exp str ((k, b) ∷ bytes) =
    (k < 10)
    × Plain b
    × (parse_test rx (str ++ b ∷ []) (exp ++ codes "(.*)") ≡ false)
    × Unmet rx exp (str ++ b ∷ []) bytes

abbrev pub text_of : List (ℕ × ℕ) → Text
text_of [] = []
text_of ((k, b) ∷ bytes) = b ∷ text_of bytes

-- What the buffer holds behind the bytes.
abbrev last_of : ℕ → List (ℕ × ℕ) → ℕ
last_of resp [] = resp
last_of resp ((k, b) ∷ bytes) = last_of b bytes

length-turns_of :
    (bytes : List (ℕ × ℕ)) (turns : List (List Event))
    → length bytes + length turns ≤ length (turns_of bytes turns)
length-turns_of [] turns = omega arith
length-turns_of ((k, b) ∷ bytes) turns = omega (
  arith,
  length-turns_of bytes turns,
  length-append (replicate k silent) (byte b ∷ turns_of bytes turns),
)

module _ (wait_for : Text) (kept : Bool) where
  parse_loop-failed :
      (fuel : ℕ) (str : Text) (total resp : ℕ) (turns : List (List Event)) (w : World)
      → w.turns ≡ replicate 10 silent ++ turns
      → parse_loop (suc fuel) wait_for kept str total resp w
        ≡ ok false
            (record w { turns = turns; globals = record (w.globals) { parse_timeout_fail = true } })
  unfolding parse_loop
  parse_loop-failed fuel str total resp turns w e =
      >>=-ok (read_byte 10 resp) _ w _ _ (read_byte-failed resp turns w e)
      ∙ rw ((read-failed 10 (omega arith) 9 resp turns refl).1) refl

  parse_loop-Unmet :
      (bytes : List (ℕ × ℕ)) (fuel : ℕ) (str : Text) (total resp : ℕ) (turns : List (List Event))
      (w : World)
      → w.turns ≡ turns_of bytes turns
      → total + length bytes ≤ 257
      → Unmet w.regex wait_for str bytes
      → parse_loop (length bytes + fuel) wait_for kept str total resp w
        ≡ parse_loop fuel wait_for kept
            (str ++ text_of bytes)
            (total + length bytes)
            (last_of resp bytes)
            (record w { turns = turns })
  unfolding go_on
  parse_loop-Unmet [] fuel str total resp turns w e few unmet = λ i.
      parse_loop (zero_fuel i) wait_for kept (sym (append-nil str) i) (zero_total i) resp
        (record w { turns = e i })
    where
      zero_fuel : 0 + fuel ≡ fuel
      zero_fuel = omega arith

      zero_total : total ≡ total + 0
      zero_total = omega arith
  parse_loop-Unmet ((k, b) ∷ bytes) fuel str total resp turns w e few unmet =
      let one : suc (length bytes) + fuel ≡ suc (length bytes + fuel) = omega arith in
      let all : total + 1 + length bytes ≡ total + suc (length bytes) = omega arith in
      ap (λ (n : ℕ). parse_loop n wait_for kept str total resp w) one
      ∙ parse_loop-byte wait_for kept (length bytes + fuel) str total resp k b
          (turns_of bytes turns) w false unmet.0 e unmet.1 (omega arith) unmet.2
      ∙ parse_loop-Unmet bytes fuel (str ++ b ∷ []) (total + 1) b turns
          (record w { turns = turns_of bytes turns }) refl (omega arith) unmet.3
      ∙ ap₂
          (λ (s : Text) (n : ℕ).
            parse_loop fuel wait_for kept s n (last_of b bytes) (record w { turns = turns }))
          (append_assoc str (b ∷ []) (text_of bytes)) all

  -- The turns of a world are fuel for the bytes that they bring, and for one more turn.
  parse_until-fuel :
      (bytes : List (ℕ × ℕ)) (turns : List (List Event)) (w : World)
      → w.turns ≡ turns_of bytes turns
      → length bytes ≤ 257
      → Unmet w.regex wait_for [] bytes
      → parse_until wait_for kept w
        ≡ parse_loop
            (suc (length w.turns - length bytes))
            wait_for
            kept
            (text_of bytes)
            (length bytes)
            (last_of 0 bytes)
            (record w { turns = turns })
  unfolding parse_until
  parse_until-fuel bytes turns w e few unmet =
      let enough : suc (length w.turns) ≡ length bytes + suc (length w.turns - length bytes) =
        omega (arith, length-turns_of bytes turns, ap (length {A = List Event}) e) in
      let none_before : 0 + length bytes ≡ length bytes = omega arith in
      ap (λ (n : ℕ). parse_loop n wait_for kept [] 0 0 w) enough
      ∙ parse_loop-Unmet bytes _ [] 0 0 turns w e (omega arith) unmet
      ∙ ap
          (λ (n : ℕ).
            parse_loop (suc (length w.turns - length bytes)) wait_for kept (text_of bytes) n
              (last_of 0 bytes) (record w { turns = turns }))
          none_before

  -- Fewer than 257 bytes of a line that do not complete the expression, then one that does, each behind at
  -- most nine timeouts: ParseUntil returns true behind that byte, and only the turns of the port have
  -- been used.
  pub parse_until-found :
      (bytes : List (ℕ × ℕ)) (k b : ℕ) (turns : List (List Event)) (w : World)
      → w.turns ≡ turns_of bytes (replicate k silent ++ byte b ∷ turns)
      → length bytes < 257
      → Unmet w.regex wait_for [] bytes
      → k < 10
      → Plain b
      → parse_test w.regex (text_of bytes ++ b ∷ []) (wait_for ++ codes "(.*)") ≡ true
      → parse_until wait_for kept w ≡ ok true (record w { turns = turns })
  unfolding go_on
  parse_until-found bytes k b turns w e few unmet h plain test =
      parse_until-fuel bytes _ w e (omega arith) unmet
      ∙ parse_loop-byte wait_for kept _ (text_of bytes) (length bytes) _ k b turns
          (record w { turns = replicate k silent ++ byte b ∷ turns }) true h refl plain
          (omega arith) test

  -- After at most 257 bytes of a line that do not complete the expression, each behind at most nine
  -- timeouts, ten timeouts in a row end ParseUntil: it returns false and marks the failure.
  pub parse_until-failed :
      (bytes : List (ℕ × ℕ)) (turns : List (List Event)) (w : World)
      → w.turns ≡ turns_of bytes (replicate 10 silent ++ turns)
      → length bytes ≤ 257
      → Unmet w.regex wait_for [] bytes
      → parse_until wait_for kept w
        ≡ ok false
            (record w { turns = turns; globals = record (w.globals) { parse_timeout_fail = true } })
  parse_until-failed bytes turns w e few unmet =
      parse_until-fuel bytes _ w e few unmet
      ∙ parse_loop-failed _ (text_of bytes) (length bytes) _ turns
          (record w { turns = replicate 10 silent ++ turns }) refl

-- After a read that has failed nothing is sent any more, to the boot loader or to the shell.
pub send_to-failed :
    (prompt cmd : Text) (kept : Bool) (w : World)
    → w.globals.parse_timeout_fail ≡ true
    → send_to prompt cmd kept w ≡ ok false w
unfolding send_to
send_to-failed prompt cmd kept w h = rw h refl
