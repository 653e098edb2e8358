-- ===== src/Ymodem/Transfer.antt =====
-- class YModem of src/utils/regiloader/ymodem.cpp: responses of the receiver and SendFile.
pub mod Receiver
pub mod Blocks
pub mod Complete
use regiboard.Base.{
  ℕ, zero, suc, ◌+◌, ◌-◌, ◌*◌, ◌/◌, ◌%◌, ◌^◌, List, [], ◌∷◌, ◌++◌, Option, none, some, Bool, true,
  false, ◌==◌, not, ◌&&◌, ◌||◌, if◌then◌else◌, length, set, replicate, take, drop, overlay, ltb,
}
use regiboard.Serial.{Serial}
use regiboard.Ymodem.Frames.{
  Packet, signal_packet, body_packet, stx, eot, ack, request, frame_size, new_frame, Sequence,
  sequence_send, sequence_reset, initial_frame,
}

-- `(unsigned)resp[0]`: the byte is read into a signed char.
from_char : ℕ → ℕ
from_char b = if ltb b 128 then b else 2 ^ 32 - 256 + b

-- snprintf with "%u": the decimal digits of a 32-bit number, which are ten at most.
unfoldable pub decimal_loop : ℕ → ℕ → List ℕ → List ℕ
decimal_loop zero n acc = acc
decimal_loop (suc k) n acc =
    let more = decimal_loop k (n / 10) ((b'0' + n % 10) ∷ acc) in
    if ltb n 10 then (b'0' + n) ∷ acc else more

unfoldable pub decimal : ℕ → List ℕ
unfolding decimal_loop
decimal n = decimal_loop 10 n []

-- How SendFile ends: it returns, or it divides by a zero file size, or it writes behind the initial frame. `stuck` is no outcome of the
-- program: the loop of the model ran out of rounds.
pub data Outcome {ℓ} (A : Type ℓ) : Type ℓ where
  done : A → Outcome A
  crash overrun : Outcome A
  stuck : Outcome A

-- std::fstream over the file: the bytes behind the read position; a short read fails the stream,
-- and a failed stream reads nothing.
pub record Stream : Type 0 where
  pub rest : List ℕ
  pub good : Bool

pub read_stream : ℕ → Stream → List ℕ × Stream
read_stream n st =
    if st.good
    then (take n st.rest, record { rest = drop n st.rest; good = not (ltb (length st.rest) n) })
    else ([], st)

module _ (s : Serial) where
  open s use {Port, is_open, read_byte}

  pub is_response : ℕ → Port → Bool × Port
  unfolding from_char
  is_response expect p =
      let (byte, p') = read_byte p in
      if is_open p
      then elim byte [ none ↦ (false, p') | some b ↦ (expect == from_char b, p') ]
      else (false, p)

  -- The loop over `tries`, with the rounds left.
  wait_loop : ℕ → ℕ → Port → Bool × Port
  wait_loop zero expect p = (false, p)
  wait_loop (suc n) expect p =
      let (b, p') = is_response expect p in
      elim b [ true ↦ (true, p') | false ↦ wait_loop n expect p' ]

  pub wait_for_response : ℕ → Port → Bool × Port
  wait_for_response expect p = wait_loop 255 expect p

  -- `seq.Send(...) && IsResponse(...)`
  send_and_check : Packet → Sequence → Port → Bool × Sequence × Port
  send_and_check pkt q p =
      let (sent, q', p') = sequence_send s pkt q p in
      let (b, p'') = is_response ack p' in if sent then (b, q', p'') else (false, q', p')

  -- SendInitialPkt behind the frame.
  pub send_initial : Option (List ℕ) → Sequence → Port → Outcome (Bool × Sequence × Port)
  send_initial none q p = overrun
  send_initial (some frame) q p = done (send_and_check (body_packet stx frame) q p)

  pub send_initial_pkt : List (List ℕ) → Sequence → Port → Outcome (Bool × Sequence × Port)
  unfolding send_initial
  send_initial_pkt [] q p = done (false, q, p)
  send_initial_pkt (m ∷ ms) q p = send_initial (initial_frame (m ∷ ms)) q p

  pub send_closing_pkt : Sequence → Port → Bool × Sequence × Port
  send_closing_pkt q p = send_and_check (body_packet stx new_frame) (sequence_reset q) p

  -- One round of the do-while of SendFile up to the response: whether it was an acknowledgement, the
  -- bytes read, and the state. A short read leaves zeros behind what was read.
  pub block_round : Stream → Sequence → Port → Bool × ℕ × Stream × Sequence × Port
  block_round st q p =
      let (bytes, st') = read_stream frame_size st in
      let was_read = length bytes in
      let frame =
        if was_read == frame_size then bytes else bytes ++ replicate (frame_size - was_read) 0 in
      let (b, q', p') = sequence_send s (body_packet stx frame) q p in
      let (acked, p'') = is_response ack p' in (acked, was_read, st', q', p'')

  -- The do-while, with the rounds left first. `crash` is the division of `was_send * 100` by a file
  -- size of zero.
  pub send_blocks : ℕ → ℕ → ℕ → Stream → Sequence → Port → Outcome (Sequence × Port)
  send_blocks zero file_size was_send st q p = stuck
  send_blocks (suc n) file_size was_send st q p =
      let (acked, was_read, st', q', p') = block_round st q p in
      let sent = was_send + was_read in
      let rest = send_blocks n file_size sent st' q' p' in
      if not acked
      then done (q', p')
      else if file_size == 0
      then crash
      else if ltb sent file_size
      then rest
      else done (q', p')

  -- What SendFile does behind the loop.
  pub finish : Sequence → Port → Bool × Port
  finish q p =
      let (b, q', p') = sequence_send s (signal_packet eot) q p in
      let p1 = (is_response ack p').1 in
      let (b', q'', p2) = sequence_send s (signal_packet eot) q' p1 in
      let p3 = (is_response ack p2).1 in
      let p4 = (is_response request p3).1 in (true, (send_closing_pkt q'' p4).2)

  -- What follows the loop, if it returns.
  pub close_transfer : Outcome (Sequence × Port) → Outcome (Bool × Port)
  close_transfer (done (q, p)) = done (finish q p)
  close_transfer crash = crash
  close_transfer overrun = overrun
  close_transfer stuck = stuck

  -- What follows the initial packet, whose response SendFile does not look at.
  pub after_initial : List ℕ → Outcome (Bool × Sequence × Port) → Outcome (Bool × Port)
  after_initial content (done (b, q1, p1)) =
      let (ready, p2) = is_response request p1 in
      let st : Stream = record { rest = content; good = true } in
      let size = length content in
      if not ready
      then done (false, p2)
      else close_transfer (send_blocks (size + 1) size 0 st q1 p2)
  after_initial content crash = crash
  after_initial content overrun = overrun
  after_initial content stuck = stuck

  pub send_file : List ℕ → Option (List ℕ) → Port → Outcome (Bool × Port)
  unfolding after_initial
  send_file [] file p = done (false, p)
  send_file (c ∷ cs) none p = done (false, p)
  send_file (c ∷ cs) (some content) p =
      let p0 = (wait_for_response request p).1 in
      let q0 : Sequence = record { pkt_num = 0; has_port = true } in
      let names = (c ∷ cs) ∷ decimal (length content % 2 ^ 32) ∷ [] in
      let first = send_initial_pkt names q0 p0 in
      if not (is_open p) then done (false, p) else after_initial content first
