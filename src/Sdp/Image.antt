-- ===== src/Sdp/Image.antt =====
-- class ImxFirmware of src/utils/regiloader/sdp.cpp. The file is a memory from byte offsets to bytes. The
-- structures DCD and DCDCmd are read as the compiler lays them out: their 16-bit `length` is aligned to
-- offset 2 and little-endian, and the byte behind it is at offset 4.
pub mod Scan
pub mod Orders
use regiboard.Sdp.Commands.{Firmware}
use regiboard.Base.{
  ℕ, zero, suc, ◌+◌, ◌-◌, ◌*◌, ◌/◌, ◌%◌, ◌^◌, List, [], ◌∷◌, ◌++◌, Option, none, some, Bool, true,
  false, ◌==◌, ◌&&◌, not, if◌then◌else◌, length, ltb, get_or,
}

abbrev pub barker_53 : ℕ
barker_53 = 0x402000D1

abbrev pub dcd_tag : ℕ
dcd_tag = 0xD2

abbrev pub cmd_tag : ℕ
cmd_tag = 0xCC

abbrev pub u16_at : (ℕ → ℕ) → ℕ → ℕ
u16_at m p = m p + 256 * m (p + 1)

abbrev pub u32_at : (ℕ → ℕ) → ℕ → ℕ
u32_at m p = m p + 256 * m (p + 1) + 65536 * m (p + 2) + 16777216 * m (p + 3)

-- A difference of two uint32_t.
abbrev pub u32_sub : ℕ → ℕ → ℕ
u32_sub a b = (a + 2 ^ 32 - b) % 2 ^ 32

pub record DcdPair : Type 0 where
  pub addr : ℕ
  pub val_mask : ℕ

pub record DcdCmd : Type 0 where
  pub tag : ℕ
  pub size : ℕ
  pub parameter : ℕ
  pub pairs : List DcdPair

pub record Dcd : Type 0 where
  pub tag : ℕ
  pub size : ℕ
  pub version : ℕ
  pub cmd_list : List DcdCmd

-- The fields of Imx53IVT, by their offsets.
abbrev pub barker : (ℕ → ℕ) → ℕ → ℕ
barker m h = u32_at m h

abbrev pub dcd_ptr : (ℕ → ℕ) → ℕ → ℕ
dcd_ptr m h = u32_at m (h + 12)

abbrev pub boot_data_ptr : (ℕ → ℕ) → ℕ → ℕ
boot_data_ptr m h = u32_at m (h + 16)

abbrev pub self_ptr : (ℕ → ℕ) → ℕ → ℕ
self_ptr m h = u32_at m (h + 20)

-- `_header` and `_boot` are offsets into the file.
pub record Image : Type 0 where
  pub header : Option ℕ
  pub boot : Option ℕ
  pub dcd : Dcd

pub new_image : Image
new_image = record {
  header = none;
  boot = none;
  dcd = record { tag = 0; size = 0; version = 0; cmd_list = [] };
}

-- The loop of InitDCDListOfCommandsPairs, with the pairs that it takes and the pointer behind them.
pub pairs_loop : (ℕ → ℕ) → ℕ → ℕ → List DcdPair × ℕ
pairs_loop m zero p = ([], p)
pairs_loop m (suc k) p =
    let (ps, q) = pairs_loop m k (p + 8) in
    if (u32_at m p == 0) && (u32_at m (p + 4) == 0)
    then ([], p)
    else (record { addr = u32_at m p; val_mask = u32_at m (p + 4) } ∷ ps, q)

-- InitDCDListOfCommandsPairs; a length below 4 gives no pair.
pub init_pairs : (ℕ → ℕ) → ℕ → DcdCmd → DcdCmd × ℕ
init_pairs m p cmd =
    let (ps, q) = pairs_loop m ((cmd.size - 4) / 8) p in (record cmd { pairs = cmd.pairs ++ ps }, q)

-- The loop of InitDCDListOfCommands, on fuel.
pub commands_loop : (ℕ → ℕ) → ℕ → ℕ → ℕ → List DcdCmd
commands_loop m zero list_end p = []
commands_loop m (suc fuel) list_end p =
    let (cmd, q) =
      init_pairs m (p + 4)
        (record { tag = m p; size = u16_at m (p + 2); parameter = m (p + 4); pairs = [] }) in
    let rest = commands_loop m fuel list_end q in
    if ltb p list_end then if m p == cmd_tag then cmd ∷ rest else [] else []

-- InitDCDListOfCommands. Every turn moves by 4 bytes at least, so `size` turns are enough.
pub init_commands : (ℕ → ℕ) → ℕ → Dcd → Dcd
init_commands m p d =
    if d.size == 4
    then d
    else record d { cmd_list = d.cmd_list ++ commands_loop m d.size (p + (d.size - 4)) p }

-- The part of InitHeader for a DCD: it changes the header only behind a right tag.
take_dcd : (ℕ → ℕ) → ℕ → Image → Image
take_dcd m h img =
    let p = u32_sub (dcd_ptr m h) (self_ptr m h) in
    let d : Dcd = record {
      tag = m p;
      size = u16_at m (p + 2);
      version = m (p + 4);
      cmd_list = img.dcd.cmd_list;
    } in
    if m p == dcd_tag
    then record img { header = some h; dcd = init_commands m (p + 4) d }
    else record img { dcd = d }

-- One turn of the loop of InitHeader.
try_header : (ℕ → ℕ) → ℕ → Image → Image
try_header m h img =
    let img' : Image = record img { boot = some (u32_sub (boot_data_ptr m h) (self_ptr m h)) } in
    if barker m h == barker_53 then if dcd_ptr m h == 0 then img' else take_dcd m h img' else img

-- InitHeader of a file that is loaded: offsets 0, 0x400 and 0x800.
pub init_header : (ℕ → ℕ) → Image → Image
init_header m img = try_header m 0x800 (try_header m 0x400 (try_header m 0 img))

-- What PktWriteF finds in a firmware: GetBootData, GetIvtData()->self_ptr, GetData.
pub firmware_of : (ℕ → ℕ) → List ℕ → Image → Firmware
firmware_of m bytes img = record {
  has_boot = elim img.boot [ none ↦ false | some b ↦ true ];
  self_ptr = elim img.header [ none ↦ none | some h ↦ some (self_ptr m h) ];
  contents = some bytes;
}
