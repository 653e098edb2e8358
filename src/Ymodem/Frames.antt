-- ===== src/Ymodem/Frames.antt =====
-- class YModem::Packet, YModem::Packet::Sequence, and the frames that YModem builds
-- (src/utils/regiloader/ymodem.cpp). The host stores the low byte of a word first.
pub mod Layout
use regiboard.Base.{
  ℕ, zero, suc, ◌+◌, ◌-◌, ◌*◌, ◌/◌, ◌%◌, List, [], ◌∷◌, ◌++◌, Option, none, some, Bool, true, false,
  ◌==◌, not, if◌then◌else◌, length, ltb, set, replicate,
}
use regiboard.Serial.{Serial}
use regiboard.Ymodem.Crc
use regiboard.Ymodem.Crc.{zeros, make, compute}

-- enum Signal
abbrev pub stx : ℕ
stx = 0x02

abbrev pub eot : ℕ
eot = 0x04

abbrev pub ack : ℕ
ack = 0x06

abbrev nak : ℕ
nak = 0x15

abbrev pub request : ℕ
request = 67

abbrev pub frame_size : ℕ
frame_size = 1024

-- A packet: its signal, and the bytes behind the pointer, none for the null pointer.
pub record Packet : Type 0 where
  pub signal : ℕ
  pub body : Option (List ℕ)

abbrev pub signal_packet : ℕ → Packet
signal_packet t = record { signal = t; body = none }

abbrev pub body_packet : ℕ → List ℕ → Packet
body_packet t bs = record { signal = t; body = some bs }

module _ (s : Serial) where
  open s use {Port, write}

  -- Packet::SendArray
  pub send_array : List ℕ → Port → Bool × Port
  send_array bs p = let (n, p') = write bs p in (n == length bs, p')

  -- `res = res && SendArray(...)`: nothing is written once a write fell short.
  pub and_send : List ℕ → Bool × Port → Bool × Port
  unfolding send_array
  and_send bs (true, p) = send_array bs p
  and_send bs (false, p) = (false, p)

  -- Packet::Send with data, behind the signal byte.
  pub send_body : List ℕ → ℕ → Bool × Port → Bool × Port
  unfolding and_send
  send_body bs pkt_num r =
      let crc = compute (make zeros) bs in
      let inv_pkt_num = (255 + 256 - pkt_num) % 256 in
      and_send (crc % 256 ∷ crc / 256 % 256 ∷ [])
        (and_send bs (and_send (inv_pkt_num ∷ []) (and_send (pkt_num ∷ []) r)))

  -- Packet::Send
  pub send_packet : Packet → ℕ → Port → Bool × Port
  unfolding send_body send_array
  send_packet pkt pkt_num p =
      let r = send_array (pkt.signal ∷ []) p in
      elim pkt.body [ none ↦ r | some bs ↦ if pkt.signal == stx then send_body bs pkt_num r else r ]

-- class Sequence: the number of the next packet, and whether a port is set.
pub record Sequence : Type 0 where
  pub pkt_num : ℕ
  pub has_port : Bool

-- Sequence::Send looks at no result of the packet, and 255 is followed by 0.
unfoldable pub next_number : ℕ → ℕ
next_number n = if n == 255 then 0 else n + 1

module _ (s : Serial) where
  open s use {Port}

  unfoldable pub sequence_send : Packet → Sequence → Port → Bool × Sequence × Port
  sequence_send pkt q p =
      if q.has_port
      then (true, record q { pkt_num = next_number q.pkt_num }, (send_packet s pkt q.pkt_num p).1)
      else (false, q, p)

unfoldable pub sequence_reset : Sequence → Sequence
sequence_reset q = record q { pkt_num = 0 }

-- YModem::NewFrame
abbrev pub new_frame : List ℕ
new_frame = replicate frame_size 0

-- A write into a frame; none is one out of the array.
unfoldable pub put_byte : List ℕ → ℕ → ℕ → Option (List ℕ)
put_byte frame i v = if ltb i (length frame) then some (set frame i v) else none

-- The inner loop of SendInitialPkt writes each message from index 0 on.
unfoldable pub copy_message : List ℕ → ℕ → List ℕ → Option (List ℕ)
copy_message [] i frame = some frame
copy_message (c ∷ cs) i frame = elim (put_byte frame i c) [
  | none ↦ none
  | some frame' ↦ copy_message cs (i + 1) frame'
]

-- A message, and the zero at `total`, which counts all the messages and their zeros.
unfoldable pub put_message : List ℕ → ℕ → List ℕ → Option (List ℕ)
put_message m total frame = elim (copy_message m 0 frame) [
  | none ↦ none
  | some frame' ↦ put_byte frame' (total + length m) 0
]

-- The outer loop.
unfoldable pub initial_loop : List (List ℕ) → ℕ → List ℕ → Option (List ℕ)
initial_loop [] total frame = some frame
initial_loop (m ∷ ms) total frame = elim (put_message m total frame) [
  | none ↦ none
  | some frame' ↦ initial_loop ms (total + length m + 1) frame'
]

unfoldable pub initial_frame : List (List ℕ) → Option (List ℕ)
initial_frame ms = initial_loop ms 0 new_frame
