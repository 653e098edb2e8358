-- ===== src/Sdp/Commands.antt =====
-- The packet classes of src/utils/regiloader/sdp.cpp: the bytes of each request and what its reply means.
pub mod Layout
use regiboard.Base.{
  ℕ, ◌+◌, ◌-◌, ◌%◌, ◌^◌, List, [], ◌∷◌, Option, none, some, Bool, true, false, ◌==◌, ◌&&◌,
  if◌then◌else◌, length, ltb, replicate,
}
use regiboard.Sdp.Packet.{
  packet_size, u32_bytes, u32_value, add_arr, add_u32, add_msb_u32, add_u8, get_u32, get_msb_u32,
}

pub data DataSize : Type 0 where
  byte half_word word : DataSize

abbrev pub size_code : DataSize → ℕ
size_code byte = 0x08
size_code half_word = 0x10
size_code word = 0x20

-- PktWriteMem::GetSizeFor
abbrev size_for : DataSize → ℕ
size_for byte = 1
size_for half_word = 2
size_for word = 4

-- What PktWriteF takes from its firmware: the boot data and the header may be missing.
pub record Firmware : Type 0 where
  pub has_boot : Bool
  pub self_ptr : Option ℕ
  pub contents : Option (List ℕ)

pub data Command : Type 0 where
  status complete : Command
  write_mem : ℕ → ℕ → Command
  read_mem : ℕ → DataSize → Command
  write_file : Option Firmware → Command

-- The arguments of the constructor of SdpPacket.
abbrev cmd_id : Command → ℕ
cmd_id status = 0x05
cmd_id complete = 0x05
cmd_id (write_mem addr value) = 0x02
cmd_id (read_mem addr size) = 0x01
cmd_id (write_file firm) = 0x04

-- The constructor cuts the size of the reply to that of a packet.
clip : ℕ → ℕ
clip n = if ltb packet_size n then packet_size else n

pub resp_size : Command → ℕ
resp_size status = clip 4
resp_size complete = clip 4
resp_size (write_mem addr value) = clip 8
resp_size (read_mem addr size) = clip (4 + size_for size)
resp_size (write_file firm) = clip 4

abbrev pub req_size : Command → ℕ
req_size status = 11
req_size complete = 11
req_size (write_mem addr value) = 16
req_size (read_mem addr size) = 16
req_size (write_file firm) = 16

-- A packet, a refusal, or a null pointer that is read.
pub data Written : Type 0 where
  wrote : List ℕ → Written
  refused crash : Written

-- GetSize of a firmware: the bytes of the file.
firm_size : Option (List ℕ) → ℕ
firm_size none = 0
firm_size (some bytes) = length bytes

-- PktWriteF::Write()
write_firm : ℕ → Option ℕ → List ℕ → Written
write_firm size none p = crash
write_firm size (some self) p =
    wrote (add_u8 16 15 0xAA (add_msb_u32 16 7 (size % 2 ^ 32) (add_msb_u32 16 2 self p)))

-- The virtual Write().
pub write : Command → List ℕ → Written
write status p = wrote p
write complete p = wrote p
write (write_mem addr value) p =
    wrote (add_u32 16 11 value (add_u8 16 6 0x20 (add_u32 16 2 addr p)))
write (read_mem addr size) p =
    wrote (add_msb_u32 16 7 1 (add_u8 16 6 (size_code size) (add_u32 16 2 addr p)))
write (write_file none) p = refused
write (write_file (some f)) p =
    if f.has_boot then write_firm (firm_size f.contents) f.self_ptr p else refused

-- The command goes twice to the front of what was written.
finish_request : Command → Written → Written
finish_request c (wrote p) = wrote (add_arr (req_size c) 0 (cmd_id c ∷ cmd_id c ∷ []) false p)
finish_request c refused = refused
finish_request c crash = crash

-- The request of SdpPacket::Send: zeros, Write(), the command twice.
pub request : Command → Written
request c = finish_request c (write c (replicate packet_size 0))

pub data Transfer : Type 0 where
  stop go_on error : Transfer

abbrev pub otherwise : ℕ
otherwise = 0x56787856

stop_if : Bool → Transfer
stop_if true = stop
stop_if false = error

go_on_if : Bool → Transfer
go_on_if true = go_on
go_on_if false = error

-- The virtual Read, with `_value` of a memory read. `old` is what the variables held before.
pub read : Command → ℕ → List ℕ → Transfer × ℕ
read status old p = (stop_if (get_u32 11 0 old p == 0xF0F0F0F0), 0)
read complete old p = (stop_if (get_u32 11 0 old p == 0x88888888), 0)
read (write_mem addr value) old p =
    (stop_if ((get_u32 16 0 old p == otherwise) && (get_u32 16 4 old p == 0x128A8A12)), 0)
read (read_mem addr size) old p =
    (stop_if (get_u32 16 0 old p == otherwise), get_msb_u32 16 4 old p)
read (write_file firm) old p = (go_on_if (get_u32 16 0 old p == otherwise), 0)
