-- ===== src/Ymodem/Runs.antt =====
-- Tests of the model of src/utils/regiloader/ymodem.cpp, and its theorems at concrete inputs.
use regiboard.Base.{
  ℕ, ◌+◌, ◌^◌, ◌%◌, ◌≡◌, refl, List, [], ◌∷◌, ◌++◌, some, length, get_or, replicate, arith,
}
use regiboard.Serial.{Wire, Script, scripted}
use regiboard.Ymodem.Crc.{zeros, non_zero1, make, compute, swap_bytes, initial}
use regiboard.Ymodem.Crc.Reference.{compute-reference, reference}
use regiboard.Ymodem.Frames.{eot, ack, request, initial_frame, new_frame}
use regiboard.Ymodem.Frames.Layout.{frame_bytes, initial_frame_overlap, frame_of}
use regiboard.Ymodem.Transfer.{crash, overrun, decimal, decimal_loop, send_file}
use regiboard.Ymodem.Transfer.Receiver.{wire_blocks}
use regiboard.Ymodem.Transfer.Complete.{
  AfterFile, Received, send_file-Received, send_file-AfterFile, send_file-empty, send_file-overrun,
}

abbrev read_head_script :
    (p : Script) (b : ℕ) (bs : List ℕ) → p.replies ≡ b ∷ bs → (scripted.read_byte p).0 ≡ some b
read_head_script p b bs h = rw h refl

abbrev incoming_script :
    (p : Script) (b : ℕ) (bs : List ℕ) → p.replies ≡ b ∷ bs → (scripted.read_byte p).1.replies ≡ bs
incoming_script p b bs h = rw h refl

sent_script_list :
    (p : Script) (r : List ℕ) → p.replies ≡ r → (scripted.read_byte p).1.written ≡ p.written
sent_script_list p [] h = rw h refl
sent_script_list p (b ∷ bs) h = rw h refl

-- The scripted port keeps what the documentation promises.
abbrev scripted_wire : Wire scripted
scripted_wire = record {
  sent = λ p. p.written;
  incoming = λ p. p.replies;
  write_count = λ bs p. refl;
  sent-write = λ bs p. refl;
  incoming-write = λ bs p. refl;
  is_open-write = λ bs p. refl;
  read_head = read_head_script;
  incoming-read = incoming_script;
  sent-read = λ p. sent_script_list p p.replies refl;
  is_open-read = λ p. refl;
}

-- The text "123456789".
abbrev digits : List ℕ
digits = 49 ∷ 50 ∷ 51 ∷ 52 ∷ 53 ∷ 54 ∷ 55 ∷ 56 ∷ 57 ∷ []

compute-digits : compute (make zeros) digits ≡ swap_bytes 0x31C3
unfolding compute make
compute-digits = refl

compute-reference_example :
    compute (make non_zero1) digits ≡ swap_bytes (reference digits (initial non_zero1))
compute-reference_example = compute-reference non_zero1 digits (
  omega arith,
  (
    omega arith,
    (
      omega arith,
      (omega arith, (omega arith, (omega arith, (omega arith, (omega arith, (omega arith, tt)))))),
    ),
  ),
)

-- A script with the replies of a transfer of one block.
abbrev port : Script
port = record {
  written = [];
  replies = request ∷ ack ∷ request ∷ ack ∷ ack ∷ ack ∷ request ∷ ack ∷ [];
}

-- The name "fw" of a file of 7 bytes: the size stands over the "f".
abbrev name : List ℕ
name = 102 ∷ 119 ∷ []

abbrev size : List ℕ
size = 55 ∷ []

one_digit :
    (length (decimal (length size % 2 ^ 32)) ≡ 1)
    × (length (decimal (length {A = ℕ} [] % 2 ^ 32)) ≡ 1)
unfolding decimal decimal_loop
one_digit = (refl, refl)

initial_frame_overlap_example :
    (frame : List ℕ) × (initial_frame (name ∷ size ∷ []) ≡ some frame)
    × (get_or frame 0 0 ≡ get_or size 0 0)
    × (get_or frame 3 0 ≡ 0)
initial_frame_overlap_example =
    initial_frame_overlap name size (omega arith) 0 3 (omega arith) (omega arith) (omega arith)

send_file-AfterFile_example :
    AfterFile scripted scripted_wire
      (((((([] ++ frame_bytes 0 (frame_of name (decimal (length size % 2 ^ 32))))
              ++ wire_blocks 1 1 size)
            ++ eot ∷ [])
          ++ eot ∷ [])
        ++ frame_bytes 0 new_frame))
      []
      (send_file scripted name (some size) port)
send_file-AfterFile_example =
    send_file-AfterFile scripted scripted_wire 0 102 (119 ∷ []) size [] [] port
      (omega arith, (omega arith, tt)) (omega arith, tt) (omega (arith, one_digit.0)) (omega arith)
      (omega arith) (record { opened = refl; written = refl; to_come = refl })

send_file-empty_example : send_file scripted name (some []) port ≡ crash
send_file-empty_example =
    send_file-empty scripted scripted_wire 102 (119 ∷ []) [] (ack ∷ ack ∷ request ∷ ack ∷ []) port
      (omega arith, (omega arith, tt)) (omega (arith, one_digit.1))
      (record { opened = refl; written = refl; to_come = refl })

-- A path of 1022 bytes.
send_file-overrun_example : send_file scripted (47 ∷ replicate 1021 97) (some size) port ≡ overrun
send_file-overrun_example =
    send_file-overrun scripted scripted_wire 47 (replicate 1021 97) size port refl
      (omega (arith, one_digit.0))

send_file-Received_example :
    Received scripted scripted_wire
      (length {A = ℕ} [] + 1029)
      1
      size
      (send_file scripted name (some size) port)
send_file-Received_example =
    send_file-Received scripted scripted_wire 0 102 (119 ∷ []) size [] [] port
      (omega arith, (omega arith, tt)) (omega arith, tt) (omega (arith, one_digit.0)) (omega arith)
      (omega arith) (record { opened = refl; written = refl; to_come = refl })
