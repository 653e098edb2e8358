-- ===== src/Loader/Asio/Reads.antt =====
-- The three ends of a read in src/utils/regiloader/asio_helper.cpp.
use regiboard.Base.{
  ℕ, zero, suc, ◌+◌, ◌%◌, ◌^◌, ◌<◌, ◌≡◌, refl, ap, ◌∙◌, List, [], ◌∷◌, ◌++◌, some, true, false,
  ltb-true, ltb-false, replicate, arith,
}
use regiboard.Loader.Asio.{
  Event, arrived, timer, Reader, read_handler, timer_handler, handle, run, read_loop, read,
  reading_was_failed,
}

-- A turn without a byte: the timer expires and cancels the read.
abbrev pub silent : List Event
silent = timer false true ∷ arrived true [] ∷ []

-- A turn with a byte, which cancels the timer.
abbrev pub byte : ℕ → List Event
byte b = arrived false (b ∷ []) ∷ timer true false ∷ []

replicate_front :
    (k : ℕ) (turns : List (List Event))
    → replicate (suc k) silent ++ turns ≡ replicate k silent ++ silent ∷ turns
replicate_front zero turns = refl
replicate_front (suc k) turns = ap (◌∷◌ silent) (replicate_front k turns)

module _ (tries : ℕ) (small : tries < 2 ^ 32) where
  abbrev waiting : ℕ → ℕ → Reader
  waiting n buff = record { was_processed = 0; try_num = n; buff = buff }

  read_loop-silent :
      (n buff : ℕ) (turns : List (List Event))
      → n + 1 < tries
      → read_loop tries 1 (silent ∷ turns) (waiting n buff)
        ≡ read_loop tries 1 turns (waiting (n + 1) buff)
  unfolding read_loop run handle read_handler timer_handler
  read_loop-silent n buff turns h =
      let e : (n + 1) % 2 ^ 32 ≡ n + 1 = omega arith in rw (e, ltb-true (n + 1) tries h) refl

  read_loop-last :
      (n buff : ℕ) (turns : List (List Event))
      → n + 1 ≡ tries
      → read_loop tries 1 (silent ∷ turns) (waiting n buff) ≡ some (waiting tries buff, turns)
  unfolding read_loop run handle read_handler timer_handler
  read_loop-last n buff turns h =
      let e : (n + 1) % 2 ^ 32 ≡ tries = omega arith in
      rw (e, ltb-false tries tries (omega arith)) refl

  read_loop-byte :
      (n buff b : ℕ) (turns : List (List Event))
      → 0 < tries
      → read_loop tries 1 (byte b ∷ turns) (waiting n buff)
        ≡ some (record { was_processed = 1; try_num = 0; buff = b }, turns)
  unfolding read_loop run handle read_handler timer_handler
  read_loop-byte n buff b turns h = rw (ltb-true 0 tries h) refl

  read_loop-Silent :
      (k n buff : ℕ) (turns : List (List Event))
      → k + n < tries
      → read_loop tries 1 (replicate k silent ++ turns) (waiting n buff)
        ≡ read_loop tries 1 turns (waiting (k + n) buff)
  read_loop-Silent zero n buff turns h =
      ap (λ (m : ℕ). read_loop tries 1 turns (waiting m buff)) (omega arith)
  read_loop-Silent (suc k) n buff turns h =
      read_loop-silent n buff _ (omega arith)
      ∙ read_loop-Silent k (n + 1) buff turns (omega arith)
      ∙ ap (λ (m : ℕ). read_loop tries 1 turns (waiting m buff)) (omega arith)

  -- A byte that arrives after fewer silent turns than there are tries is read; the read has not failed,
  -- and nothing behind the byte is taken.
  pub read-byte :
      (k buff b : ℕ) (turns : List (List Event))
      → k < tries
      → read tries buff (replicate k silent ++ byte b ∷ turns)
        ≡ some (record { was_processed = 1; try_num = 0; buff = b }, turns)
  unfolding read
  read-byte k buff b turns h =
      read_loop-Silent k 0 buff (byte b ∷ turns) (omega arith)
      ∙ read_loop-byte (k + 0) buff b turns (omega arith)

  -- As many silent turns as there are tries end a read that has failed, with the buffer as it was.
  pub read-failed :
      (k buff : ℕ) (turns : List (List Event))
      → suc k ≡ tries
      → (read tries buff (replicate (suc k) silent ++ turns) ≡ some (waiting tries buff, turns))
        × (reading_was_failed tries (waiting tries buff) ≡ true)
  unfolding read reading_was_failed
  read-failed k buff turns h = (
    replicate-last
        ∙ read_loop-Silent k 0 buff (silent ∷ turns) (omega arith)
        ∙ read_loop-last (k + 0) buff turns (omega arith),
    rw (ltb-false tries tries (omega arith)) refl,
  )
    where
      replicate-last :
          read_loop tries 1 (replicate (suc k) silent ++ turns) (waiting 0 buff)
          ≡ read_loop tries 1 (replicate k silent ++ silent ∷ turns) (waiting 0 buff)
      replicate-last =
          ap (λ (l : List (List Event)). read_loop tries 1 l (waiting 0 buff))
            (replicate_front k turns)
