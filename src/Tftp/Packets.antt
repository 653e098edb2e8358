-- ===== src/Tftp/Packets.antt =====
-- The packet classes of src/utils/regiloader/tftp.cpp. Fields that a constructor leaves unset are its
-- arguments.
pub mod Layout
use regiboard.Base.{
  ℕ, zero, suc, ◌+◌, ◌-◌, ◌*◌, ◌/◌, ◌%◌, ◌^◌, List, [], ◌∷◌, Option, none, some, Bool, true, false,
  ◌==◌, ◌&&◌, if◌then◌else◌, length, ltb, bytes_eq, ◌≡◌, refl,
}
use regiboard.Tftp.Buffer.{Buffer, clear, set_data, add_array, add_u16, get_u16, get_string}

pub data Opcode : Type 0 where
  rrq wrq dat ack error : Opcode

abbrev pub code : Opcode → ℕ
code rrq = 1
code wrq = 2
code dat = 3
code ack = 4
code error = 5

pub data Mode : Type 0 where
  unknown netascii octet mail : Mode

-- What the classes add to TFtp::Packet.
pub data Content : Type 0 where
  rrq_content : List ℕ → Mode → Content
  data_content : ℕ → Content
  ack_content : ℕ → Content
  error_content : ℕ → List ℕ → Content

pub record Packet : Type 0 where
  pub opcode : Opcode
  pub buff : Buffer
  pub content : Content

-- The constructors without arguments.
unfoldable pub new_rrq : Mode → Packet
new_rrq m = record { opcode = rrq; buff = clear; content = rrq_content [] m }

pub new_data : ℕ → Packet
new_data id = record { opcode = dat; buff = clear; content = data_content id }

unfoldable pub new_ack : ℕ → Packet
new_ack id = record { opcode = ack; buff = clear; content = ack_content id }

pub new_error : ℕ → Packet
new_error c = record { opcode = error; buff = clear; content = error_content c [] }

new_error_with : ℕ → List ℕ → Packet
new_error_with c msg = record { opcode = error; buff = clear; content = error_content c msg }

-- Packet::Write
pub base_write : Opcode → Buffer
base_write opc = (add_u16 (code opc) clear).1

-- PacketData(id, data, size): the opcode, the number of the block and the data.
pub data_packet : ℕ → List ℕ → Packet
data_packet id bytes = record {
  opcode = dat;
  buff = (add_array (some bytes) (add_u16 id (base_write dat)).1).1;
  content = data_content id;
}

-- PacketData::IsLastBlock
is_last_block : Packet → Bool
is_last_block pkt = ltb pkt.buff.size 512

-- The virtual Write: only a read request writes anything.
pub write_packet : Packet → Packet
write_packet pkt = elim pkt.content [
  | rrq_content name m ↦ record pkt { buff = base_write rrq }
  | data_content id ↦ pkt
  | ack_content id ↦ pkt
  | error_content c msg ↦ pkt
]

-- The texts "netascii", "octet" and "mail".
abbrev pub netascii_text : List ℕ
netascii_text = b'n' ∷ b'e' ∷ b't' ∷ b'a' ∷ b's' ∷ b'c' ∷ b'i' ∷ b'i' ∷ []

abbrev pub octet_text : List ℕ
octet_text = b'o' ∷ b'c' ∷ b't' ∷ b'e' ∷ b't' ∷ []

abbrev pub mail_text : List ℕ
mail_text = b'm' ∷ b'a' ∷ b'i' ∷ b'l' ∷ []

-- PacketRRQ::Read keeps the mode that was there when the text is none of the three.
pub read_mode : List ℕ → Mode → Bool × Mode
read_mode text m =
    if bytes_eq text netascii_text
    then (true, netascii)
    else if bytes_eq text octet_text
    then (true, octet)
    else if bytes_eq text mail_text
    then (true, mail)
    else (false, m)

-- What lies outside the buffer and in unset variables when a packet is read.
pub record Junk : Type 0 where
  pub beyond : ℕ
  pub t0 : ℕ
  pub t1 : ℕ
  pub old_mode : Mode

-- The virtual Read, with its result.
pub read_packet : Junk → Packet → Bool × Packet
read_packet j pkt = elim pkt.content [
  | rrq_content old m ↦
      let (offs, name) = get_string j.beyond 0 pkt.buff in
      let (offs', text) = get_string j.beyond offs pkt.buff in
      let (res, m') = read_mode text m in (res, record pkt { content = rrq_content name m' })
  | data_content id ↦ (true, pkt)
  | ack_content id ↦
      let (offs, id') = get_u16 j.t0 j.t1 0 pkt.buff in
      (true, record pkt { content = ack_content id' })
  | error_content c old ↦
      let (offs, c') = get_u16 j.t0 j.t1 0 pkt.buff in
      let (offs', msg) = get_string j.beyond offs pkt.buff in
      (true, record pkt { content = error_content c' msg })
]
