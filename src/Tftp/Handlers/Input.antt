-- ===== src/Tftp/Handlers/Input.antt =====
-- From a datagram to the packet that TFtp::Session::Process takes, src/utils/regiloader/tftp.cpp.
use regiboard.Base.{
  ℕ, suc, ◌+◌, ◌≤◌, ◌≡◌, refl, ap, ◌∙◌, List, [], ◌∷◌, ◌++◌, append_assoc, append-nil, Option, none,
  some, Bool, false, length, get_or, take, drop, overlay, replicate, arith, length-append,
  length-overlay, length-drop, take-all, overlay-front,
}
use regiboard.Tftp.Buffer.{Buffer, max_size, set_data}
use regiboard.Tftp.Buffer.Laws.{set_data-full}
use regiboard.Tftp.Packets.{Packet, read_packet, Junk}
use regiboard.Tftp.Session.{
  Session, ask, cancel_timer, receive_from, start_timer, response_timeout_ms, accept_on,
  async_accept, receive, setup_timer, buff_max_size,
}
use regiboard.Tftp.Session.Upload.{sends, sends-append}
use regiboard.Tftp.Handlers.{
  handler_write, handler_read, detect_input_pkt, packet_for, fill_packet, input_from,
}

-- What DetectInputPkt puts into the buffer of the new packet.
abbrev pub packet_bytes : List ℕ → List ℕ → List ℕ → List ℕ
packet_bytes payload buff after = payload ++ (drop (suc (suc (length payload))) buff ++ after)

-- A packet of the kind of the operation, filled with the datagram behind its first two bytes.
abbrev pub filled : Packet → List ℕ → Packet
filled pkt bytes = record pkt { buff = record { bytes = bytes; size = max_size } }

module _ (j : Junk) (after : List ℕ) (o0 o1 x : ℕ) (payload : List ℕ) (pkt : Packet) (s : Session)
    (fits : length (x ∷ payload) ≤ 256) (two : length after ≡ 2) (roomy : length s.buff ≡ max_size)
    (known : packet_for j o1 ≡ some pkt) (clean : length pkt.buff.bytes ≡ max_size) where
  abbrev pub new_buff : List ℕ
  new_buff = o0 ∷ o1 ∷ (x ∷ payload ++ drop (suc (suc (length (x ∷ payload)))) s.buff)

  arrived : overlay (take buff_max_size (o0 ∷ o1 ∷ x ∷ payload)) s.buff ≡ new_buff
  arrived =
      ap (λ (d : List ℕ). overlay d s.buff)
        (take-all buff_max_size (o0 ∷ o1 ∷ x ∷ payload) (omega arith))
      ∙ overlay-front (o0 ∷ o1 ∷ x ∷ payload) s.buff (omega arith)

  pub packet_bytes-full : length (packet_bytes (x ∷ payload) s.buff after) ≡ max_size
  packet_bytes-full = omega (
    arith,
    length-append (x ∷ payload) (drop (suc (suc (length (x ∷ payload)))) s.buff ++ after),
    length-append (drop (suc (suc (length (x ∷ payload)))) s.buff) after,
    length-drop (suc (suc (length (x ∷ payload)))) s.buff,
  )

  pub new_buff-full : length new_buff ≡ max_size
  new_buff-full = omega (
    arith,
    length-append (x ∷ payload) (drop (suc (suc (length (x ∷ payload)))) s.buff),
    length-drop (suc (suc (length (x ∷ payload)))) s.buff,
  )

  source :
      take (buff_max_size + buff_max_size) (drop 2 new_buff ++ after)
      ≡ packet_bytes (x ∷ payload) s.buff after
  source =
      ap (take max_size) (append_assoc (x ∷ payload) _ after)
      ∙ take-all max_size (packet_bytes (x ∷ payload) s.buff after)
          (omega (arith, packet_bytes-full))

  -- The session after a datagram of a known operation.
  abbrev pub read_session : Session
  read_session = record (ask cancel_timer s) {
    buff = new_buff;
    input = some (read_packet j (filled pkt (packet_bytes (x ∷ payload) s.buff after))).1;
  }

  fill :
      fill_packet j after new_buff pkt
      ≡ (read_packet j (filled pkt (packet_bytes (x ∷ payload) s.buff after))).1
  unfolding fill_packet
  fill =
      ap
        (λ (src : List ℕ).
          (read_packet j (record pkt { buff = (set_data (some src) pkt.buff).1 })).1)
        source
      ∙ ap (λ (r : Bool × Buffer). (read_packet j (record pkt { buff = r.1 })).1)
          (set_data-full x _ pkt.buff packet_bytes-full clean)

  pub handler_read-known : handler_read j after false (o0 ∷ o1 ∷ x ∷ payload) s ≡ read_session
  unfolding handler_read detect_input_pkt input_from
  handler_read-known =
      ap
        (λ (b : List ℕ).
          input_from (packet_for j (get_or b 1 0)) j after
            (record (ask cancel_timer s) { buff = b }))
        arrived
      ∙ ap
          (λ (o : Option Packet).
            input_from o j after (record (ask cancel_timer s) { buff = new_buff }))
          known
      ∙ ap (λ (p : Packet). record (ask cancel_timer s) { buff = new_buff; input = some p }) fill

-- A finished write leaves the session as it was, waiting for the next datagram.
pub record Awaits (s s' : Session) : Type 0 where
  pub alive : s'.alive ≡ s.alive
  pub task : s'.task ≡ s.task
  pub sent : sends s'.calls ≡ sends s.calls
  pub roomy : length s'.buff ≡ length s.buff
  pub input : s'.input ≡ none
  pub calm : s'.timeout ≡ false

accept_on-Awaits :
    (o : Option Packet) (ms : ℕ) (s : Session)
    → o ≡ none
    → Awaits s (accept_on o (record s { timeout_ms = ms }))
unfolding accept_on receive setup_timer ask sends
accept_on-Awaits none ms s h = record {
  alive = refl;
  task = refl;
  sent = quiet;
  roomy = length-overlay (replicate buff_max_size 0) s.buff;
  input = refl;
  calm = refl;
}
  where
    quiet :
        sends ((s.calls ++ receive_from buff_max_size ∷ []) ++ start_timer ms ∷ []) ≡ sends s.calls
    quiet =
        sends-append (s.calls ++ receive_from buff_max_size ∷ []) _
        ∙ append-nil _
        ∙ sends-append s.calls _
        ∙ append-nil _
accept_on-Awaits (some pkt) ms s h = cc

pub handler_write-Awaits : (s : Session) → s.input ≡ none → Awaits s (handler_write false s)
unfolding handler_write async_accept
handler_write-Awaits s h = accept_on-Awaits s.input response_timeout_ms s h
