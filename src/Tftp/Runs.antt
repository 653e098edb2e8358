-- ===== src/Tftp/Runs.antt =====
-- Tests of the model of src/utils/regiloader/tftp.cpp, and its theorems at concrete inputs.
use regiboard.Base.{
  ℕ, ◌≡◌, ◌≢◌, refl, ap, List, [], ◌∷◌, ◌++◌, true, false, Option, some, length, take, replicate,
  bytes_eq, arith,
}
use regiboard.Tftp.Buffer.{Buffer, max_size}
use regiboard.Tftp.Packets.{Mode, unknown, octet, rrq, Junk, Packet, data_packet, rrq_content}
use regiboard.Tftp.Packets.Layout.{data_packet-Holds, write_packet-data, request_bytes, mode_text}
use regiboard.Tftp.Session.{Session, is_idling, new_session, find_file}
use regiboard.Tftp.Session.Upload.{sends, Closed}
use regiboard.Tftp.Handlers.{handler_timer}
use regiboard.Tftp.Handlers.Retries.{rounds_lost, waiting_for, rounds_lost-sends}
use regiboard.Tftp.Server.{Turn, arrived, written, returned, run}
use regiboard.Tftp.Server.Whole.{ack_turns, run-download}
use regiboard.Tftp.Server.Alone.{vacant, ran_of, live, first_session, run-live, run-unopened}
use regiboard.Tftp.Download.{arrive, acknowledge, datagrams, reassemble, request_datagram}
use regiboard.Tftp.Download.Complete.{download}

-- The file "a" with the path "p" and three bytes.
abbrev name : List ℕ
name = 97 ∷ []

abbrev path : List ℕ
path = 112 ∷ []

abbrev content : List ℕ
content = 1 ∷ 2 ∷ 3 ∷ []

abbrev dir : List (List ℕ × List ℕ)
dir = (name, path) ∷ []

abbrev host : List ℕ → Option (List ℕ)
host p = some content

abbrev junk : Junk
junk = record { beyond = 7; t0 = 8; t1 = 9; old_mode = octet }

abbrev after : List ℕ
after = 5 ∷ 6 ∷ []

-- A new session that is open.
abbrev opened : Session
opened = record (new_session 0 (replicate max_size 0)) { alive = true }

-- Two modes with different texts differ.
octet-known : octet ≢ unknown
octet-known e =
    let h : length (mode_text octet) ≡ length (mode_text unknown) =
      ap (λ (m : Mode). length (mode_text m)) e in
    omega (arith, h)

opened-quiet : (is_idling opened.task.kind ≡ true) × (opened.timeout ≡ false)
unfolding new_session is_idling
opened-quiet = (refl, refl)

opened-full : length opened.buff ≡ max_size
unfolding new_session
opened-full = refl

published : find_file name dir ≡ some path
unfolding find_file bytes_eq
published = refl

download_example :
    Closed false (sends opened.calls ++ datagrams 1 1 content) (
      acknowledge junk after host dir 1 1
        (arrive junk after host dir (request_datagram 97 [] octet) opened))
    × (reassemble (datagrams 1 1 content) ≡ content)
download_example =
    download junk after host dir refl 97 [] path octet content 0 opened (omega arith) octet-known
      (omega arith, tt) published refl (omega arith) (omega arith) (omega arith) (opened-quiet.0)
      refl opened-full

abbrev block : Packet
block = data_packet 1 content

block-full : block.buff.size ≢ 0
block-full = omega (arith, (data_packet-Holds 1 1 (2 ∷ 3 ∷ []) (omega arith)).counted)

rounds_lost-sends_example :
    (sends (rounds_lost 30 (waiting_for block 0 opened)).calls
      ≡ sends opened.calls ++ replicate 30 (take block.buff.size block.buff.bytes))
    × ((rounds_lost 30 (waiting_for block 0 opened)).timeout ≡ false)
    × ((handler_timer false true (waiting_for block 11 opened)).timeout ≡ true)
rounds_lost-sends_example =
    rounds_lost-sends block (write_packet-data 1 content) block-full 30 0 opened (omega arith)
      (opened-quiet.1)

name-content : name ≢ content
name-content e = let h : length name ≡ length content = ap length e in omega (arith, h)

-- The bytes of a request for "a", and zeros.
abbrev request_buffer : Buffer
request_buffer = record { bytes = request_bytes name octet (replicate 508 0); size = max_size }

abbrev request_packet : Packet
request_packet = record { opcode = rrq; buff = request_buffer; content = rrq_content [] octet }

-- A turn with a request for the file, and a turn whose socket fails.
abbrev request_turn : Turn
request_turn = record {
  failed = false;
  file_sz = 0;
  buff = replicate max_size 0;
  events = (0, arrived false (request_datagram 97 [] octet)) ∷ (3, written false) ∷ [];
  err = false;
}

abbrev failed_turn : Turn
failed_turn = record request_turn { failed = true; events = [] }

run-live_example :
    run junk after host (request_turn ∷ request_turn ∷ []) (vacant dir)
    ≡ ran_of dir (
        live junk after host dir
          (request_turn ∷ request_turn ∷ [])
          (first_session junk after host dir request_turn))
run-live_example = run-live junk after host dir request_turn (request_turn ∷ [])

run-unopened_example :
    run junk after host (failed_turn ∷ request_turn ∷ []) (vacant dir) ≡ returned true (vacant dir)
run-unopened_example = run-unopened junk after host dir failed_turn (request_turn ∷ []) refl

abbrev asking_turn : Turn
asking_turn = record request_turn {
  events = (0, arrived false (request_datagram 97 [] octet)) ∷ [];
}

run-download_example :
    run junk after host (asking_turn ∷ ack_turns 1 1 request_turn) (vacant dir)
    ≡ returned true (vacant dir)
run-download_example =
    run-download junk after host dir refl 97 [] path octet 1 (2 ∷ 3 ∷ []) 0 asking_turn request_turn
      (omega arith) octet-known (omega arith, tt) published refl (omega arith) (omega arith)
      (omega arith) refl refl refl refl
