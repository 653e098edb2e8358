-- ===== src/Ymodem/Transfer/Complete.antt =====
-- A transfer whose every packet is acknowledged, from the first request to the closing packet.
use regiboard.Base.{
  sym, ap, ◌∙◌, take, drop, append_assoc, drop-append, length-append, ℕ, suc, ◌+◌, ◌*◌, ◌%◌, ◌^◌,
  ◌≤◌, ◌<◌, ◌≡◌, refl, List, [], ◌∷◌, ◌++◌, Bool, true, some, length, replicate, arith,
}
use regiboard.Serial.{Serial, Wire}
use regiboard.Ymodem.Frames.{
  stx, eot, ack, request, signal_packet, body_packet, frame_size, new_frame, Sequence,
  sequence_send, next_number, sequence_reset,
}
use regiboard.Ymodem.Frames.Layout.{
  frame_bytes, send_packet-Wrote, send_signal-Wrote, AreBytes, AreBytes-zeros, AreBytes-frame_of,
  length-frame_bytes, length-frame_of, frame_of, initial_frame-frame_of, initial_frame-behind,
}
use regiboard.Ymodem.Transfer.{
  Outcome, done, crash, overrun, stuck, is_response, wait_loop, wait_for_response, send_and_check,
  send_initial, send_initial_pkt, after_initial, send_closing_pkt, finish, close_transfer,
  send_file, decimal,
}
use regiboard.Ymodem.Transfer.Receiver.{wire_blocks, receive, receive-wire_blocks, AreBytes-decimal}
use regiboard.Ymodem.Transfer.Blocks.{
  At, heard, sent_packet, AfterBlocks, send_blocks-AfterBlocks, send_blocks-empty,
}

module _ (s : Serial) (w : Wire s) where
  open s use {Port, is_open, read_byte}
  open w use {sent, incoming, read_head, incoming-read, sent-read, is_open-read}

  -- A packet and its acknowledgement.
  acknowledged :
      (bs log replies : List ℕ) (q : Sequence) (p : Port)
      → q.pkt_num < 256
      → q.has_port ≡ true
      → AreBytes bs
      → At s w log (ack ∷ replies) p
      → let r = send_and_check s (body_packet stx bs) q p in
        (r.1 ≡ record { pkt_num = next_number q.pkt_num; has_port = true })
        × At s w (log ++ frame_bytes q.pkt_num bs) replies r.2
  unfolding send_and_check sequence_send
  acknowledged bs log replies q p hn hp hb a =
      let a1 =
        sent_packet s w (body_packet stx bs) (frame_bytes q.pkt_num bs) log (ack ∷ replies) q p
          (send_packet-Wrote s w bs q.pkt_num p hn hb) a in
      rw hp (refl, (heard s w ack _ replies _ (omega arith) a1).1)

  wait_loop-At :
      (n : ℕ) (log replies : List ℕ) (p : Port)
      → At s w log (request ∷ replies) p
      → At s w log replies (wait_loop s (suc n) request p).1
  unfolding wait_loop
  wait_loop-At n log replies p a =
      let h = heard s w request log replies p (omega arith) a in rw (h.0, wait_loop) h.1

  wait-At :
      (log replies : List ℕ) (p : Port)
      → At s w log (request ∷ replies) p
      → At s w log replies (wait_for_response s request p).1
  unfolding wait_for_response
  wait-At log replies p a = wait_loop-At 254 log replies p a

  signalled :
      (log replies : List ℕ) (q : Sequence) (p : Port)
      → q.has_port ≡ true
      → At s w log (ack ∷ replies) p
      → let r = sequence_send s (signal_packet eot) q p in
        (r.1.has_port ≡ true) × At s w (log ++ eot ∷ []) replies (is_response s ack r.2).1
  unfolding sequence_send
  signalled log replies q p hp a =
      let a1 =
        sent_packet s w (signal_packet eot) (eot ∷ []) log (ack ∷ replies) q p
          (send_signal-Wrote s w eot q.pkt_num p) a in
      rw hp (refl, (heard s w ack _ replies _ (omega arith) a1).1)

  finish-At :
      (log tail : List ℕ) (q : Sequence) (p : Port)
      → q.has_port ≡ true
      → At s w log (ack ∷ ack ∷ request ∷ ack ∷ tail) p
      → ((finish s q p).0 ≡ true)
        × At s w (((log ++ eot ∷ []) ++ eot ∷ []) ++ frame_bytes 0 new_frame) tail (finish s q p).1
  unfolding finish send_closing_pkt sequence_reset
  finish-At log tail q p hp a =
      let s1 = signalled log _ q p hp a in
      let s2 = signalled (log ++ eot ∷ []) (request ∷ ack ∷ tail) _ _ s1.0 s1.1 in
      let first : 0 < 256 = omega arith in
      let h = heard s w request _ (ack ∷ tail) _ (omega arith) s2.1 in
      (refl, (acknowledged new_frame _ tail _ _ first s2.0 (AreBytes-zeros frame_size) h.1).1)

  abbrev pub AfterFile : List ℕ → List ℕ → Outcome (Bool × Port) → Type 0
  AfterFile log tail (done (b, p)) = (b ≡ true) × At s w log tail p
  AfterFile log tail crash = ⊥
  AfterFile log tail overrun = ⊥
  AfterFile log tail stuck = ⊥

  close_transfer-AfterFile :
      (log tail : List ℕ) (o : Outcome (Sequence × Port))
      → AfterBlocks s w log (ack ∷ ack ∷ request ∷ ack ∷ tail) o
      → AfterFile
          (((log ++ eot ∷ []) ++ eot ∷ []) ++ frame_bytes 0 new_frame)
          tail
          (close_transfer s o)
  unfolding close_transfer
  close_transfer-AfterFile log tail (done (q, p)) h = finish-At log tail q p h.0 h.1
  close_transfer-AfterFile log tail crash h = h
  close_transfer-AfterFile log tail overrun h = h
  close_transfer-AfterFile log tail stuck h = h

  -- A file of bytes of `k + 1` blocks, with a name that is not empty and fits into the initial frame with the
  -- digits of the size and a zero for each, goes out whole over an open port that keeps what its
  -- documentation promises when every packet is acknowledged: SendFile returns true, and the log has
  -- grown by the initial frame, the blocks numbered from 1, two signals for the end, and the closing frame.
  pub send_file-AfterFile :
      (k c : ℕ) (cs content log tail : List ℕ) (p : Port)
      → AreBytes (c ∷ cs)
      → AreBytes content
      → length (c ∷ cs) + 1 + length (decimal (length content % 2 ^ 32)) < frame_size
      → k * frame_size < length content
      → length content ≤ suc k * frame_size
      → At s w log
          (request ∷ ack ∷ request ∷ (replicate (suc k) ack ++ (ack ∷ ack ∷ request ∷ ack ∷ tail)))
          p
      → AfterFile
          ((((((log ++ frame_bytes 0 (frame_of (c ∷ cs) (decimal (length content % 2 ^ 32))))
                  ++ wire_blocks (suc k) 1 content)
                ++ eot ∷ [])
              ++ eot ∷ [])
            ++ frame_bytes 0 new_frame))
          tail
          (send_file s (c ∷ cs) (some content) p)
  unfolding send_file send_initial_pkt send_initial after_initial next_number
  send_file-AfterFile k c cs content log tail p hc hb fits lo hi a =
      let file_size = length content in
      let size : List ℕ = decimal (file_size % 2 ^ 32) in
      let q0 : Sequence = record { pkt_num = 0; has_port = true } in
      let a0 = wait-At log _ p a in
      let a1 =
        acknowledged (frame_of (c ∷ cs) size) log _ q0 _ (omega arith) refl
          (AreBytes-frame_of (c ∷ cs) _ hc (AreBytes-decimal (file_size % 2 ^ 32))) a0 in
      let h = heard s w request _ _ _ (omega arith) a1.1 in
      let b =
        send_blocks-AfterBlocks s w k (file_size + 1) 0 content _ (ack ∷ ack ∷ request ∷ ack ∷ tail)
          (record { pkt_num = 1; has_port = true }) _ (omega arith) refl hb lo hi (omega arith)
          h.1 in
      let z : 0 + file_size ≡ file_size = omega arith in
      rw (a.opened, initial_frame-frame_of (c ∷ cs) size fits, h.0, a1.0)
        (close_transfer-AfterFile _ tail _ (rw z at b))

  -- An empty file, whose name is not empty and fits into the initial frame with the digit of the size and a
  -- zero for each, is not sent: when the receiver asks for it and acknowledges the initial frame and a first
  -- block of zeros, the percentage of the progress is a division by zero.
  pub send_file-empty :
      (c : ℕ) (cs log tail : List ℕ) (p : Port)
      → AreBytes (c ∷ cs)
      → length (c ∷ cs) + 1 + length (decimal (0 % 2 ^ 32)) < frame_size
      → At s w log (request ∷ ack ∷ request ∷ ack ∷ tail) p
      → send_file s (c ∷ cs) (some []) p ≡ crash
  unfolding send_file send_initial_pkt send_initial after_initial next_number close_transfer
  send_file-empty c cs log tail p hc fits a =
      let size : List ℕ = decimal (0 % 2 ^ 32) in
      let q0 : Sequence = record { pkt_num = 0; has_port = true } in
      let a0 = wait-At log _ p a in
      let a1 =
        acknowledged (frame_of (c ∷ cs) size) log _ q0 _ (omega arith) refl
          (AreBytes-frame_of (c ∷ cs) _ hc (AreBytes-decimal (0 % 2 ^ 32))) a0 in
      let h = heard s w request _ _ _ (omega arith) a1.1 in
      let b =
        send_blocks-empty s w 0 _ tail (record { pkt_num = 1; has_port = true }) _ (omega arith)
          refl h.1 in
      rw (a.opened, initial_frame-frame_of (c ∷ cs) size fits, h.0, a1.0, b) refl

  -- A path that is not empty, whose bytes, with the digits of the size and a zero for each, do not fit into the
  -- 1024 bytes of the initial frame, makes SendFile over an open port write behind the frame, whatever the
  -- receiver answers.
  pub send_file-overrun :
      (c : ℕ) (cs content : List ℕ) (p : Port)
      → is_open p ≡ true
      → frame_size ≤ length (c ∷ cs) + 1 + length (decimal (length content % 2 ^ 32))
      → send_file s (c ∷ cs) (some content) p ≡ overrun
  unfolding send_file send_initial_pkt send_initial after_initial
  send_file-overrun c cs content p opened long =
      rw (opened, initial_frame-behind (c ∷ cs) (decimal (length content % 2 ^ 32)) long) refl

  -- What a receiver that starts behind `n` bytes, and keeps the data of `k` frames, has of the transfer.
  abbrev pub Received : ℕ → ℕ → List ℕ → Outcome (Bool × Port) → Type 0
  Received n k content (done (b, p)) = take (length content) (receive k (drop n (sent p))) ≡ content
  Received n k content crash = ⊥
  Received n k content overrun = ⊥
  Received n k content stuck = ⊥

  AfterFile-Received :
      (n k : ℕ) (front content tail : List ℕ) (o : Outcome (Bool × Port))
      → length front ≡ n
      → length content ≤ k * frame_size
      → AfterFile
          (((((front ++ wire_blocks k 1 content) ++ eot ∷ []) ++ eot ∷ [])
            ++ frame_bytes 0 new_frame))
          tail
          o
      → Received n k content o
  AfterFile-Received n k front content tail (done (b, p)) e hi h =
      let ends : List ℕ = eot ∷ eot ∷ frame_bytes 0 new_frame in
      let log : sent p ≡ front ++ (wire_blocks k 1 content ++ ends) =
        h.1.written
        ∙ append_assoc ((front ++ wire_blocks k 1 content) ++ eot ∷ []) _ _
        ∙ append_assoc (front ++ wire_blocks k 1 content) _ _
        ∙ append_assoc front _ _ in
      let behind : drop n (sent p) ≡ wire_blocks k 1 content ++ ends =
        ap (drop n) log
        ∙ ap (λ (i : ℕ). drop i (front ++ (wire_blocks k 1 content ++ ends))) (sym e)
        ∙ drop-append front (wire_blocks k 1 content ++ ends) in
      ap (λ (bytes : List ℕ). take (length content) (receive k bytes)) behind
      ∙ receive-wire_blocks k 1 content ends hi
  AfterFile-Received n k front content tail crash e hi h = h
  AfterFile-Received n k front content tail overrun e hi h = h
  AfterFile-Received n k front content tail stuck e hi h = h

  -- For a file of bytes of `k + 1` blocks, a name that is not empty and fits into the initial frame with the
  -- digits of the size and a zero for each, and an open port that keeps what its documentation promises, over
  -- which every packet is acknowledged: SendFile returns, and a receiver that skips what was written before
  -- and the initial frame of 1029 bytes, and keeps the 1024 bytes behind the first three of each of `k + 1`
  -- frames of 1029, has the file, up to its length, in what SendFile has written.
  pub send_file-Received :
      (k c : ℕ) (cs content log tail : List ℕ) (p : Port)
      → AreBytes (c ∷ cs)
      → AreBytes content
      → length (c ∷ cs) + 1 + length (decimal (length content % 2 ^ 32)) < frame_size
      → k * frame_size < length content
      → length content ≤ suc k * frame_size
      → At s w log
          (request ∷ ack ∷ request ∷ (replicate (suc k) ack ++ (ack ∷ ack ∷ request ∷ ack ∷ tail)))
          p
      → Received (length log + 1029) (suc k) content (send_file s (c ∷ cs) (some content) p)
  send_file-Received k c cs content log tail p hc hb fits lo hi a =
      let size : List ℕ = decimal (length content % 2 ^ 32) in
      let front : List ℕ = log ++ frame_bytes 0 (frame_of (c ∷ cs) size) in
      AfterFile-Received (length log + 1029) (suc k) front content tail _
        (omega (
          arith,
          length-append log (frame_bytes 0 (frame_of (c ∷ cs) size)),
          length-frame_bytes 0 (frame_of (c ∷ cs) size),
          length-frame_of (c ∷ cs) size,
        ))
        hi (send_file-AfterFile k c cs content log tail p hc hb fits lo hi a)
