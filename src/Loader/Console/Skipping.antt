-- ===== src/Loader/Console/Skipping.antt =====
-- SkipLines of src/utils/regiloader/regiloader.cpp when the board falls silent.
use regiboard.Base.{
  ℕ, zero, suc, ◌+◌, ◌≡◌, refl, ap, ◌∙◌, List, ◌∷◌, ◌++◌, Option, Bool, if◌then◌else◌, replicate,
  length, length-append, length-replicate, ltb-true, ltb-false, arith,
}
use regiboard.Loader.Asio.{Event, Reader}
use regiboard.Loader.Asio
use regiboard.Loader.Asio.Reads.{silent, byte, read-byte, read-failed}
use regiboard.Loader.State.{World, ok, pure, >>=-ok}
use regiboard.Loader.Console.{read_turns, read_byte, skip_loop, skip_lines}

read_byte-silent :
    (resp : ℕ) (turns : List (List Event)) (w : World)
    → w.turns ≡ silent ∷ turns
    → read_byte 1 resp w
      ≡ ok (record { was_processed = 0; try_num = 1; buff = resp }) (record w { turns = turns })
unfolding read_byte read_turns
read_byte-silent resp turns w e =
    ap (λ (t : List (List Event)). read_turns (Asio.read 1 resp t) w) e
    ∙ ap (λ (r : Option (Reader × List (List Event))). read_turns r w)
        (read-failed 1 (omega arith) 0 resp turns refl).0

read_byte-cr :
    (turns : List (List Event)) (w : World)
    → w.turns ≡ byte 0x0D ∷ turns
    → read_byte 1 0 w
      ≡ ok (record { was_processed = 1; try_num = 0; buff = 0x0D }) (record w { turns = turns })
unfolding read_byte read_turns
read_byte-cr turns w e =
    ap (λ (t : List (List Event)). read_turns (Asio.read 1 0 t) w) e
    ∙ ap (λ (r : Option (Reader × List (List Event))). read_turns r w)
        (read-byte 1 (omega arith) 0 0 0x0D turns (omega arith))

-- The lines that are counted behind a carriage return while nothing arrives.
skip_loop-silent :
    (n fuel limit lines : ℕ) (turns : List (List Event)) (w : World)
    → lines + suc n ≡ limit
    → w.turns ≡ replicate (suc n) silent ++ turns
    → skip_loop (suc n + fuel) limit lines 0x0D w ≡ ok tt (record w { turns = turns })
unfolding skip_loop
skip_loop-silent zero fuel limit lines turns w h e =
    let one : suc zero + fuel ≡ suc fuel = omega arith in
    ap (λ (k : ℕ). skip_loop k limit lines 0x0D w) one
    ∙ >>=-ok (read_byte 1 0x0D) _ w _ _ (read_byte-silent 0x0D turns w e)
    ∙ rw (ltb-false (lines + 1) limit (omega arith)) refl
skip_loop-silent (suc n) fuel limit lines turns w h e =
    let one : suc (suc n) + fuel ≡ suc (suc n + fuel) = omega arith in
    let rest = record w { turns = replicate (suc n) silent ++ turns } in
    ap (λ (k : ℕ). skip_loop k limit lines 0x0D w) one
    ∙ >>=-ok (read_byte 1 0x0D) _ w _ _ (read_byte-silent 0x0D _ w e)
    ∙ ap
        (λ (b : Bool).
          (if b then skip_loop (suc n + fuel) limit (lines + 1) 0x0D else pure tt) rest)
        (ltb-true (lines + 1) limit (omega arith))
    ∙ skip_loop-silent n fuel limit (lines + 1) turns rest (omega arith) refl

-- One carriage return and n + 1 seconds of silence pass for n + 2 lines: a read that times out leaves
-- the carriage return in the buffer, and it is counted again.
pub skip_lines-silent :
    (n : ℕ) (turns : List (List Event)) (w : World)
    → w.turns ≡ byte 0x0D ∷ replicate (suc n) silent ++ turns
    → skip_lines (suc (suc n)) w ≡ ok tt (record w { turns = turns })
unfolding skip_lines skip_loop
skip_lines-silent n turns w e =
    let rest = record w { turns = replicate (suc n) silent ++ turns } in
    let len : length w.turns ≡ suc n + suc (length turns) =
      ap (length {A = List Event}) e
      ∙ omega (
        arith,
        length-append (replicate (suc n) silent) turns,
        length-replicate (suc n) silent,
      ) in
    ap (λ (k : ℕ). skip_loop (suc k) (suc (suc n)) 0 0 w) len
    ∙ >>=-ok (read_byte 1 0) _ w _ _ (read_byte-cr _ w e)
    ∙ ap
        (λ (b : Bool).
          (if b then skip_loop (suc n + suc (length turns)) (suc (suc n)) (0 + 1) 0x0D else pure tt)
            rest)
        (ltb-true (0 + 1) (suc (suc n)) (omega arith))
    ∙ skip_loop-silent n (suc (length turns)) (suc (suc n)) (0 + 1) turns rest (omega arith) refl
