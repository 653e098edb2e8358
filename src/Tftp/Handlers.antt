-- ===== src/Tftp/Handlers.antt =====
-- The handlers of TFtp::Session, src/utils/regiloader/tftp.cpp: what a timer, a finished write and an
-- arrived datagram do to a session.
pub mod Retries
pub mod Input
use regiboard.Base.{
  ℕ, ◌+◌, ◌%◌, List, [], ◌∷◌, ◌++◌, Option, none, some, Bool, true, false, ◌==◌, ◌&&◌, not,
  if◌then◌else◌, leb, take, drop, overlay, get_or,
}
use regiboard.Tftp.Buffer.{Buffer, set_data}
use regiboard.Tftp.Packets.{
  Packet, new_rrq, new_data, new_ack, new_error, read_packet, write_packet, Junk, code, rrq, dat,
  ack, error,
}
use regiboard.Tftp.Session.{
  Session, ask, cancel_socket, cancel_timer, tries_limit, start_transaction, response_timeout_ms,
  async_accept, buff_max_size,
}

-- The retransmission of HandlerTimer: the output packet again, or no more tries.
resend : Session → Session
resend s = elim s.output [
  | none ↦ record s { timeout_tries = tries_limit }
  | some pkt ↦
      let pkt' = write_packet pkt in start_transaction pkt' (record s { output = some pkt' })
]

give_up : Session → Session
give_up s =
    if leb tries_limit s.timeout_tries then record s { timeout = true; timeout_tries = 0 } else s

-- HandlerTimer; `_timeout_tries` is a uint8_t.
pub handler_timer : Bool → Bool → Session → Session
handler_timer err expired s =
    if not err && expired
    then give_up
        (resend (record (ask cancel_socket s) { timeout_tries = (s.timeout_tries + 1) % 256 }))
    else s

-- HandlerWrite
pub handler_write : Bool → Session → Session
handler_write err s =
    if err then s else async_accept (record s { timeout_ms = response_timeout_ms })

-- The packet that an operation code stands for. Unset fields of a new packet come from `j`.
unfoldable pub packet_for : Junk → ℕ → Option Packet
packet_for j op =
    if op == code rrq
    then some (new_rrq j.old_mode)
    else if op == code dat
    then some (new_data j.t0)
    else if op == code ack
    then some (new_ack j.t0)
    else if op == code error
    then some (new_error j.t0)
    else none

-- The data are taken from the third byte of `_buff` on, 516 of them: the last two are the bytes
-- `after` the array.
pub fill_packet : Junk → List ℕ → List ℕ → Packet → Packet
fill_packet j after buff pkt =
    let src = take (buff_max_size + buff_max_size) (drop 2 buff ++ after) in
    (read_packet j (record pkt { buff = (set_data (some src) pkt.buff).1 })).1

pub input_from : Option Packet → Junk → List ℕ → Session → Session
input_from none j after s = s
input_from (some pkt) j after s = record s { input = some (fill_packet j after s.buff pkt) }

-- DetectInputPkt looks at the second byte.
pub detect_input_pkt : Junk → List ℕ → Session → Session
detect_input_pkt j after s = input_from (packet_for j (get_or s.buff 1 0)) j after s

-- HandlerRead, with the datagram that boost::asio has put into the buffer.
pub handler_read : Junk → List ℕ → Bool → List ℕ → Session → Session
handler_read j after err datagram s =
    let buff = overlay (take buff_max_size datagram) s.buff in
    if err then s else detect_input_pkt j after (record (ask cancel_timer s) { buff = buff })
