-- ===== src/Ymodem/Transfer/Blocks.antt =====
-- The loop of YModem::SendFile, src/utils/regiloader/ymodem.cpp, when every block is acknowledged.
use regiboard.Base.{
  ℕ, zero, suc, ◌+◌, ◌-◌, ◌*◌, ◌≤◌, ◌<◌, ◌≡◌, refl, ap, ◌∙◌, List, [], ◌∷◌, ◌++◌, append_assoc,
  true, false, not, ltb, ltb-true, ltb-false, ==-false, length, take, drop, replicate, arith,
  length-take, length-drop,
}
use regiboard.Serial.{Serial, Wire}
use regiboard.Ymodem.Frames.{
  stx, ack, body_packet, frame_size, Sequence, Packet, sequence_send, next_number, send_packet,
}
use regiboard.Ymodem.Frames.Layout.{
  Wrote, frame_bytes, send_packet-Wrote, AreBytes, AreBytes-append, AreBytes-zeros,
}
use regiboard.Ymodem.Transfer.{
  Outcome, done, crash, overrun, stuck, Stream, read_stream, is_response, block_round, send_blocks,
}
use regiboard.Ymodem.Transfer.Receiver.{
  pad, wire_blocks, wire_blocks-suc, wire_blocks_one, total, AreBytes-take, AreBytes-drop,
  frame-pad,
}

module _ (s : Serial) (w : Wire s) where
  open s use {Port, is_open, read_byte}
  open w use {sent, incoming, read_head, incoming-read, sent-read, is_open-read}

  -- The port between two calls: open, with this log and these bytes to come.
  pub record At (log replies : List ℕ) (p : Port) : Type 0 where
    pub opened : is_open p ≡ true
    pub written : sent p ≡ log
    pub to_come : incoming p ≡ replies

  -- A response that is there and is the expected one.
  pub heard :
      (e : ℕ) (log replies : List ℕ) (p : Port)
      → e < 128
      → At log (e ∷ replies) p
      → ((is_response s e p).0 ≡ true) × At log replies (is_response s e p).1
  unfolding is_response
  heard e log replies p he a =
      rw (a.opened, read_head p e replies a.to_come)
        (
          ground arith,
          record {
            opened = is_open-read p ∙ a.opened;
            written = sent-read p ∙ a.written;
            to_come = incoming-read p e replies a.to_come;
          },
        )

  pub sent_packet :
      (pkt : Packet) (bs log replies : List ℕ) (q : Sequence) (p : Port)
      → Wrote s w bs p (send_packet s pkt q.pkt_num p)
      → At log replies p
      → At (log ++ bs) replies (send_packet s pkt q.pkt_num p).1
  sent_packet pkt bs log replies q p h a = record {
    opened = h.open_still ∙ a.opened;
    written = h.log ∙ ap (λ (x : List ℕ). x ++ bs) a.written;
    to_come = h.replies ∙ a.to_come;
  }

  -- One round of the loop: the block goes out, and its acknowledgement comes in.
  round-At :
      (content log replies : List ℕ) (q : Sequence) (p : Port)
      → q.pkt_num < 256
      → q.has_port ≡ true
      → AreBytes content
      → At log (ack ∷ replies) p
      → (p' : Port) × (block_round s (record { rest = content; good = true }) q p ≡ (
        true,
        length (take frame_size content),
        record { rest = drop frame_size content; good = not (ltb (length content) frame_size) },
        record { pkt_num = next_number q.pkt_num; has_port = true },
        p',
      ))
        × At (log ++ frame_bytes q.pkt_num (pad (take frame_size content))) replies p'
  unfolding block_round read_stream sequence_send
  round-At content log replies q p hn hp hb a =
      let block = take frame_size content in
      let pkt = body_packet stx (pad block) in
      let p1 = (send_packet s pkt q.pkt_num p).1 in
      let a1 =
        sent_packet pkt (frame_bytes q.pkt_num (pad block)) log (ack ∷ replies) q p
          (send_packet-Wrote s w (pad block) q.pkt_num p hn (
            AreBytes-append block _ (AreBytes-take frame_size content hb)
              (AreBytes-zeros (frame_size - length block))))
          a in
      let h = heard ack _ replies p1 (omega arith) a1 in
      ((is_response s ack p1).1, rw (hp, frame-pad block, h.0) refl, h.1)

  abbrev pub AfterBlocks : List ℕ → List ℕ → Outcome (Sequence × Port) → Type 0
  AfterBlocks log replies (done (q, p)) = (q.has_port ≡ true) × At log replies p
  AfterBlocks log replies crash = ⊥
  AfterBlocks log replies overrun = ⊥
  AfterBlocks log replies stuck = ⊥

  next_number-lt : (n : ℕ) → n < 256 → next_number n < 256
  unfolding next_number
  next_number-lt n h = ground arith

  -- The two ways on from an acknowledged round.
  module _ (n file_size was_send m : ℕ) (st st' : Stream) (q q' : Sequence) (p p' : Port)
      (e : block_round s st q p ≡ (true, m, st', q', p')) (bytes : 0 < file_size) where
    send_blocks_more :
        was_send + m < file_size
        → send_blocks s (suc n) file_size was_send st q p
          ≡ send_blocks s n file_size (was_send + m) st' q' p'
    unfolding send_blocks
    send_blocks_more h =
        rw (e, ==-false file_size 0 (omega arith), ltb-true (was_send + m) file_size h) refl

    send_blocks_last :
        file_size ≤ was_send + m → send_blocks s (suc n) file_size was_send st q p ≡ done (q', p')
    unfolding send_blocks
    send_blocks_last h =
        rw (e, ==-false file_size 0 (omega arith), ltb-false (was_send + m) file_size h) refl

  -- The loop sends the file in `k + 1` blocks and ends, if its rounds are enough.
  pub send_blocks-AfterBlocks :
      (k n was_send : ℕ) (content log tail : List ℕ) (q : Sequence) (p : Port)
      → q.pkt_num < 256
      → q.has_port ≡ true
      → AreBytes content
      → k * frame_size < length content
      → length content ≤ suc k * frame_size
      → k < n
      → At log (replicate (suc k) ack ++ tail) p
      → AfterBlocks (log ++ wire_blocks (suc k) q.pkt_num content) tail (
          send_blocks s n
            (was_send + length content)
            was_send
            (record { rest = content; good = true })
            q
            p)
  send_blocks-AfterBlocks k zero was_send content log tail q p hn hp hb lo hi hk a =
      absurd (omega arith)
  send_blocks-AfterBlocks zero (suc n) was_send content log tail q p hn hp hb lo hi hk a =
      let (p', e, a') = round-At content log tail q p hn hp hb a in
      rw
        (
          send_blocks_last n (was_send + length content) was_send _ _ _ q _ p p' e (omega arith)
              (omega (arith, length-take frame_size content)),
          wire_blocks_one q.pkt_num content,
        )
        (refl, a')
  send_blocks-AfterBlocks (suc k) (suc n) was_send content log tail q p hn hp hb lo hi hk a =
      let (p', e, a') = round-At content log (replicate (suc k) ack ++ tail) q p hn hp hb a in
      let more = drop frame_size content in
      let full : ltb (length content) frame_size ≡ false = ltb-false _ _ (omega arith) in
      rw
        (
          send_blocks_more n (was_send + length content) was_send _ _ _ q _ p p' e (omega arith)
              (omega (arith, length-take frame_size content)),
          full,
          total was_send content,
          wire_blocks-suc (suc k) q.pkt_num content,
          ← append_assoc log (frame_bytes q.pkt_num (pad (take frame_size content)))
              (wire_blocks (suc k) (next_number q.pkt_num) more),
        )
        (send_blocks-AfterBlocks k n (was_send + length (take frame_size content)) more _ tail _ p'
          (next_number-lt q.pkt_num hn) refl (AreBytes-drop frame_size content hb)
          (omega (arith, length-drop frame_size content))
          (omega (arith, length-drop frame_size content)) (omega arith) a')

  -- The first round of an empty file, acknowledged, divides by its size.
  pub send_blocks-empty :
      (n : ℕ) (log replies : List ℕ) (q : Sequence) (p : Port)
      → q.pkt_num < 256
      → q.has_port ≡ true
      → At log (ack ∷ replies) p
      → send_blocks s (suc n) 0 0 (record { rest = []; good = true }) q p ≡ crash
  unfolding send_blocks
  send_blocks-empty n log replies q p hn hp a =
      let (p', e, a') = round-At [] log replies q p hn hp tt a in rw e refl
