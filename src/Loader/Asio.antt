-- ===== src/Loader/Asio.antt =====
-- class AsioIface of src/utils/regiloader/asio_helper.cpp: a read of a byte with a time limit. What
-- boost::asio brings is a list of events for each turn of io_service::run.
pub mod Reads
use regiboard.Base.{
  ℕ, zero, suc, ◌+◌, ◌%◌, ◌^◌, List, [], ◌∷◌, Option, none, some, Bool, true, false, ◌==◌, ◌&&◌,
  not, if◌then◌else◌, ltb, get_or, length,
}

-- A read with its bytes, and an end of the timer with the word whether it has expired.
pub data Event : Type 0 where
  arrived : Bool → List ℕ → Event
  timer : Bool → Bool → Event

-- The fields that change, and the first byte of the caller's buffer.
pub record Reader : Type 0 where
  pub was_processed : ℕ
  pub try_num : ℕ
  pub buff : ℕ

-- ReadHandler: it counts a single byte only; the bytes are in the buffer all the same.
unfoldable pub read_handler : Bool → List ℕ → Reader → Reader
read_handler err bytes r =
    let r' : Reader = record r { buff = get_or bytes 0 r.buff } in
    if not err && (length bytes == 1) then record r' { was_processed = 1 } else r'

-- TimerHandler
unfoldable pub timer_handler : Bool → Bool → Reader → Reader
timer_handler err expired r =
    if not err && expired
    then record r { try_num = (r.try_num + 1) % 2 ^ 32 }
    else record r { try_num = 0 }

unfoldable pub handle : Event → Reader → Reader
handle (arrived err bytes) r = read_handler err bytes r
handle (timer err expired) r = timer_handler err expired r

-- One turn of io_service::run.
unfoldable pub run : List Event → Reader → Reader
run [] r = r
run (e ∷ es) r = run es (handle e r)

-- The loop of Read for `amount` bytes and `tries` tries, with the turns that are left. It still waits
-- when they are used up.
unfoldable pub read_loop : ℕ → ℕ → List (List Event) → Reader → Option (Reader × List (List Event))
read_loop tries amount [] r = none
read_loop tries amount (turn ∷ turns) r =
    let r' = run turn r in
    let rest = read_loop tries amount turns r' in
    if ltb r'.try_num tries && ltb r'.was_processed amount then rest else some (r', turns)

-- AsioIface::Read of a byte by an object with a port; `buff` is what the caller's buffer holds.
unfoldable pub read : ℕ → ℕ → List (List Event) → Option (Reader × List (List Event))
read tries buff turns =
    read_loop tries 1 turns (record { was_processed = 0; try_num = 0; buff = buff })

-- ReadingWasFailed
unfoldable pub reading_was_failed : ℕ → Reader → Bool
reading_was_failed tries r = not (ltb r.try_num tries)
