-- ===== src/Tftp/Packets/Layout.antt =====
-- The bytes of the data packets of src/utils/regiloader/tftp.cpp, and what is read from requests and
-- acknowledgements.
use regiboard.Base.{
  ℕ, ◌+◌, ◌*◌, ◌/◌, ◌%◌, ◌≤◌, ◌≡◌, ◌≢◌, refl, sym, ◌∙◌, List, [], ◌∷◌, ◌++◌, append_assoc, true,
  length, arith, length-append, bytes_eq, All,
}
use regiboard.Tftp.Buffer.{max_size, msb_bytes}
use regiboard.Tftp.Buffer.Laws.{
  Holds, clear-Holds, add_array-Holds, add_u16-Holds, get_string-text, get_u16-front,
}
use regiboard.Tftp.Packets.{
  Opcode, dat, code, Mode, unknown, netascii, octet, mail, rrq_content, ack_content, Packet,
  base_write, data_packet, write_packet, read_mode, read_packet, Junk, netascii_text, octet_text,
  mail_text,
}

-- The datagram of a block: operation 3, the number of the block, the data.
abbrev pub data_datagram : ℕ → List ℕ → List ℕ
data_datagram id bytes = 0 ∷ 3 ∷ id / 256 ∷ id % 256 ∷ bytes

base_write-Holds : (opc : Opcode) → Holds (msb_bytes (code opc)) (base_write opc)
unfolding base_write
base_write-Holds opc = (add_u16-Holds (code opc) [] _ clear-Holds (omega arith)).1

-- The constructor of PacketData builds the datagram of the block, for any block that is not empty.
pub data_packet-Holds :
    (id x : ℕ) (xs : List ℕ)
    → length (x ∷ xs) ≤ 512
    → Holds (data_datagram id (x ∷ xs)) (data_packet id (x ∷ xs)).buff
unfolding data_packet
data_packet-Holds id x xs h =
    let number = add_u16-Holds id _ _ (base_write-Holds dat) (omega arith) in
    (add_array-Holds x xs _ _ number.1 (omega arith)).1

-- Write changes nothing in a data packet, so a retransmission is the same datagram.
pub write_packet-data :
    (id : ℕ) (bytes : List ℕ) → write_packet (data_packet id bytes) ≡ data_packet id bytes
unfolding write_packet data_packet
write_packet-data id bytes = refl

-- The modes of a request.
abbrev pub mode_text : Mode → List ℕ
mode_text unknown = []
mode_text netascii = netascii_text
mode_text octet = octet_text
mode_text mail = mail_text

read_mode-text : (m old : Mode) → m ≢ unknown → read_mode (mode_text m) old ≡ (true, m)
unfolding read_mode bytes_eq
read_mode-text unknown old h = absurd (h refl)
read_mode-text netascii old h = refl
read_mode-text octet old h = refl
read_mode-text mail old h = refl

mode_text-nonzero : (m : Mode) → All (λ c. c ≢ 0) (mode_text m)
mode_text-nonzero unknown = tt
mode_text-nonzero netascii = omega arith
mode_text-nonzero octet = omega arith
mode_text-nonzero mail = omega arith

-- The bytes of a request behind its operation code.
abbrev pub request_bytes : List ℕ → Mode → List ℕ → List ℕ
request_bytes name m rest = name ++ 0 ∷ (mode_text m ++ 0 ∷ rest)

-- In a full buffer that starts with a name without zeros, a zero, the text of a known mode and a zero,
-- PacketRRQ::Read finds the name and the mode.
pub read_packet-request :
    (j : Junk) (m : Mode) (name rest : List ℕ) (pkt : Packet) (old : List ℕ) (old_mode : Mode)
    → m ≢ unknown
    → All (λ c. c ≢ 0) name
    → pkt.content ≡ rrq_content old old_mode
    → pkt.buff.bytes ≡ request_bytes name m rest
    → length pkt.buff.bytes ≡ max_size
    → read_packet j pkt ≡ (true, record pkt { content = rrq_content name m })
unfolding read_packet
read_packet-request j m name rest pkt old old_mode hm hn hc hb full =
    let first = get_string-text j.beyond [] name (mode_text m ++ 0 ∷ rest) pkt.buff hb full hn in
    let second =
      get_string-text j.beyond (name ++ 0 ∷ []) (mode_text m) rest pkt.buff
        (hb ∙ sym (append_assoc name (0 ∷ []) (mode_text m ++ 0 ∷ rest))) full
        (mode_text-nonzero m) in
    let offs : length (name ++ 0 ∷ []) ≡ 0 + length name + 1 =
      omega (arith, length-append name (0 ∷ [])) in
    let second' = rw offs at second in rw (hc, first, second', read_mode-text m old_mode hm) refl

-- PacketACK::Read finds the number of the block.
pub read_packet-ack :
    (j : Junk) (x y old : ℕ) (rest : List ℕ) (pkt : Packet)
    → pkt.content ≡ ack_content old
    → pkt.buff.bytes ≡ x ∷ y ∷ rest
    → read_packet j pkt ≡ (true, record pkt { content = ack_content (x * 256 + y) })
unfolding read_packet
read_packet-ack j x y old rest pkt hc hb =
    rw (hc, get_u16-front j.t0 j.t1 x y rest pkt.buff hb) refl
