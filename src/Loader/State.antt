-- ===== src/Loader/State.antt =====
-- The data of src/utils/regiloader/regiloader.cpp: its structures, its global variables, and the world
-- that it acts on.
use regiboard.Base.{
  ℕ, ◌+◌, ◌-◌, ◌%◌, ◌^◌, List, [], ◌∷◌, ◌++◌, Option, none, some, Bool, false, if◌then◌else◌, ltb,
  bytes_eq, ◌≡◌, ap,
}
use regiboard.Base.Text.{Text, codes, decimal, hex_pair}
use regiboard.Loader.Asio.{Event}
use regiboard.Sdp.Link as SdpLink

pub record Range : Type 0 where
  pub from : ℕ
  pub to : ℕ

-- Range::Length of uint64_t.
abbrev pub length_of : Range → ℕ
length_of r = (r.to + 2 ^ 64 - r.from) % 2 ^ 64

pub record Package : Type 0 where
  pub name : Text
  pub version : Text

-- `mtd_id` is not set by the constructor.
pub record Partition : Type 0 where
  pub name : Text
  pub mtd_id : ℕ
  pub area : Range

pub record PeripheralsInfo : Type 0 where
  pub spi : List Text
  pub uarts : List Text
  pub partitions : List Partition
  pub usb_uart : List Text
  pub rtc : Text
  pub ts : Text
  pub lcd : Text

pub record SysInfo : Type 0 where
  pub board : Text
  pub u_boot_build : Text
  pub kernel_build : Text
  pub gcc_ver : Text
  pub ct_ng_ver : Text
  pub cpu : Text
  pub ddr : Text
  pub dram_size : Text
  pub nor : Text
  pub nor_size : Text
  pub nand : Text
  pub nand_size : Text
  pub sd_mmc : Text
  pub eth : Text
  pub board_ip : Text
  pub board_hw_addr : Text
  pub loadaddr : Text
  pub kernel : PeripheralsInfo
  pub packets : List Package
  pub wait_for_reboot : Bool
  pub upload_fail : Bool
  pub boot_from_nand : Bool
  pub mk_part_fail : Bool

-- SysInfo(): `mk_part_fail` is left unset.
abbrev pub new_sys_info : Bool → SysInfo
new_sys_info unset = record {
  board = [];
  u_boot_build = [];
  kernel_build = [];
  gcc_ver = [];
  ct_ng_ver = [];
  cpu = [];
  ddr = [];
  dram_size = [];
  nor = [];
  nor_size = [];
  nand = [];
  nand_size = [];
  sd_mmc = [];
  eth = [];
  board_ip = [];
  board_hw_addr = [];
  loadaddr = [];
  kernel = record {
    spi = [];
    uarts = [];
    partitions = [];
    usb_uart = [];
    rtc = [];
    ts = [];
    lcd = [];
  };
  packets = [];
  wait_for_reboot = false;
  upload_fail = false;
  boot_from_nand = false;
  mk_part_fail = unset;
}

-- The counters of SysState and its models; `file_path` is where they are saved.
pub record SysState : Type 0 where
  pub stand : ℕ
  pub batch : ℕ
  pub device : ℕ
  pub lcd_model : Text
  pub ts_model : Text
  pub file_path : Text

pub record Network : Type 0 where
  pub ip : Text
  pub mask : Text
  pub port : Text

pub record Settings : Type 0 where
  pub tty_dev : Text
  pub imx_img : Text
  pub kernel_img : Text
  pub kernel_mods : Text
  pub rootfs_img : Text
  pub mtd_utils : Text
  pub acts : Text
  pub packets : Text
  pub config : Text
  pub rbf : Text
  pub uboot_pswd : Text
  pub use_tftp : Network

-- The static variables.
pub record Globals : Type 0 where
  pub eth_is_ready : Bool
  pub already_has_been : Bool
  pub shell_prompt : Text
  pub parts_are_ready : Bool
  pub parse_timeout_fail : Bool
  pub sys_inf : SysInfo
  pub sys_state : SysState

-- What the program asks for, in order: bytes for the port, a file by YModem, a run of the TFTP server,
-- the [Enter] of the operator, a port that is closed or opened, a file that is written,
-- the files that the server has from the start.
pub data Call : Type 0 where
  write : Text → Call
  send_file : Text → Call
  run_server : Call
  wait_enter close_port open_port : Call
  save_counters : SysState → Call
  save_info : SysState → SysInfo → Call
  publish : List (Text × Text) → Call

-- What lies outside: boost::regex_match as a function from a text and an expression to the groups, the
-- clock, the sizes that the arithmetic of floats gives for each try, what an unset field holds, the files,
-- what lies behind the bytes of an image, the turns of the port, the results
-- of the runs of the server, the keys that the operator has typed, and for each packet of the serial download protocol the attempts to send it.
pub record World : Type 0 where
  pub regex : Text → Text → Option (List Text)
  pub time : Text
  pub vol_size : ℕ → ℕ → ℕ
  pub unset_id : ℕ
  pub files : Text → Option (List ℕ)
  pub beyond : ℕ
  pub turns : List (List Event)
  pub runs : List Bool
  pub answers : List ℕ
  pub attempts : List (List SdpLink.Attempt)
  pub link : SdpLink.Link
  pub calls : List Call
  pub globals : Globals

-- A program that ends with a value, or waits for more than the world brings.
pub data Result (A : Type 0) : Type 0 where
  ok : A → World → Result A
  waits : World → Result A
  crash : Result A

abbrev pub Action : Type 0 → Type 0
Action A = World → Result A

abbrev pub pure : {A : Type 0} → A → Action A
pure a w = ok a w

infixl 5 ◌>>=◌ ◌>>◌
abbrev pub ◌>>=◌ : {A B : Type 0} → Action A → (A → Action B) → Action B
◌>>=◌ m f w = elim (m w) [ ok a w' ↦ f a w' | waits w' ↦ waits w' | crash ↦ crash ]

pub >>=-ok :
    {A B : Type 0} (m : Action A) (f : A → Action B) (w v : World) (a : A)
    → m w ≡ ok a v
    → (m >>= f) w ≡ f a v
>>=-ok m f w v a e = ap (λ (r : Result _). ◌>>=◌ (λ u. r) f w) e

abbrev pub ◌>>◌ : {A B : Type 0} → Action A → Action B → Action B
m >> k = m >>= λ a. k

-- `if (not m) return false;` in front of the rest.
infixr 4 ◌>>&◌
abbrev pub ◌>>&◌ : Action Bool → Action Bool → Action Bool
m >>& k = m >>= λ b. if b then k else pure false

abbrev pub gets : {A : Type 0} → (World → A) → Action A
gets f w = ok (f w) w

abbrev pub modify : (World → World) → Action Unit
modify f w = ok tt (f w)

abbrev pub ask : Call → Action Unit
ask c = modify (λ w. record w { calls = w.calls ++ c ∷ [] })

abbrev pub set_globals : (Globals → Globals) → Action Unit
set_globals f = modify (λ w. record w { globals = f w.globals })

abbrev pub set_info : (SysInfo → SysInfo) → Action Unit
set_info f = set_globals (λ g. record g { sys_inf = f g.sys_inf })

-- std::cin.get: the next key of the operator.
abbrev pub next_key : List ℕ → World → Result ℕ
next_key [] w = waits w
next_key (k ∷ ks) w = ok k (record w { answers = ks })

abbrev pub read_key : Action ℕ
read_key w = next_key w.answers w

-- The same for an [Enter], whatever the key is.
abbrev pub wait_key : Action ℕ
wait_key = ask wait_enter >> read_key

-- SysState::CheckBatchCapacity
abbrev pub check_batch_capacity : SysState → SysState
check_batch_capacity s =
    if ltb s.device 256 then s else record s { batch = (s.batch + 1) % 2 ^ 32; device = 1 }

-- SysState::GetDeviceId
abbrev pub get_device_id : SysState → Text
get_device_id s =
    decimal s.stand ++ codes "." ++ decimal s.batch ++ codes "." ++ decimal s.device ++ codes " "

-- GetHwAddr
abbrev pub get_hw_addr : SysState → Text
get_hw_addr s =
    codes "00:60:2F:"
    ++ hex_pair s.stand
    ++ codes ":"
    ++ hex_pair s.batch
    ++ codes ":"
    ++ hex_pair s.device

-- FindPartition: the first one with the name.
unfoldable pub find_partition : Text → List Partition → Option Partition
find_partition name [] = none
find_partition name (p ∷ ps) = if bytes_eq p.name name then some p else find_partition name ps

-- A write through the pointer that FindPartition returns.
unfoldable pub set_mtd_id : Text → ℕ → List Partition → List Partition
set_mtd_id name id [] = []
set_mtd_id name id (p ∷ ps) =
    let rest = set_mtd_id name id ps in
    if bytes_eq p.name name then record p { mtd_id = id } ∷ ps else p ∷ rest
