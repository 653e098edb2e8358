-- ===== src/Loader/Startup.antt =====
-- src/utils/regiloader/regiloader.cpp before the first recipe: the arguments, the counters from their file,
-- the files that are published, and main. The command line comes as the values that
-- boost::program_options has read, a JSON file as what `get` finds in it.
pub mod Arguments
pub mod Published
use regiboard.Base.{
  ℕ, zero, suc, ◌+◌, ◌%◌, ◌^◌, List, [], ◌∷◌, ◌++◌, Option, none, some, Bool, true, false, ◌==◌,
  ◌&&◌, not, if◌then◌else◌, length, take, drop, bytes_eq,
}
use mathlib.Core.Option
use regiboard.Base.Text.{Text, codes, decimal}
use regiboard.Tftp.Server.{publish_file}
use regiboard.Loader.State.{
  Settings, Network, Partition, Package, World, Globals, SysInfo, SysState, Call, Action, pure,
  ◌>>=◌, ◌>>◌, ask, set_globals, publish, length_of, Result, gets,
}
use regiboard.Loader.Info.{parse_test}
use regiboard.Loader.Install.{uboot_img, kernel_img, kernel_mods, root_fs_img, mtd_utils, rbf_name}
use regiboard.Loader.Recipe.{boards, split_recipe}

pub record Options : Type 0 where
  pub help : Bool
  pub tty : Text
  pub img : Text
  pub kernel : Text
  pub kernel_mods : Text
  pub rootfs : Text
  pub utils : Text
  pub acts : Text
  pub packets : Text
  pub tftp : Text
  pub conf : Text
  pub rbf : Text
  pub uboot_pswd : Text

-- std::string::find_first_of("/")
unfoldable pub find_slash : Text → Option ℕ
find_slash [] = none
find_slash (c ∷ cs) =
    let later = find_slash cs in if c == b'/' then some 0 else Option.map suc later

-- substr(0, off) and substr(off + 1), where `none` is npos, and npos + 1 is 0.
unfoldable pub before : Option ℕ → Text → Text
before none text = text
before (some off) text = take off text

unfoldable pub behind : Option ℕ → Text → Text
behind none text = text
behind (some off) text = drop (off + 1) text

unfoldable pub network : Text → Network
network arg = record {
  ip = before (find_slash arg) arg;
  mask = behind (find_slash arg) arg;
  port = decimal 6969;
}

-- ParseArgs: no settings when only the help is asked for.
unfoldable pub parse_args : Options → Option Settings
parse_args o =
    if o.help
    then none
    else some (record {
      tty_dev = o.tty;
      imx_img = o.img;
      kernel_img = o.kernel;
      kernel_mods = o.kernel_mods;
      rootfs_img = o.rootfs;
      mtd_utils = o.utils;
      acts = o.acts;
      packets = o.packets;
      config = o.conf;
      rbf = o.rbf;
      uboot_pswd = o.uboot_pswd;
      use_tftp = network o.tftp;
    })

-- What put writes under a key of a property tree.
pub data Value : Type 0 where
  number : ℕ → Value
  text : Text → Value

-- SysState::Save: what is put into the tree.
unfoldable pub counters_tree : SysState → List (Text × Value)
counters_tree s =
    (codes "stand_id", number s.stand)
    ∷ (codes "batch_id", number s.batch)
    ∷ (codes "device_id", number s.device)
    ∷ (codes "lcd_model", text s.lcd_model)
    ∷ (codes "ts_model", text s.ts_model)
    ∷ []

-- SysState::LoadFrom: the file cannot be read, or a key is missing and `get` throws.
pub data Loaded : Type 0 where
  unread : SysState → Loaded
  thrown : Loaded
  loaded : SysState → Loaded

-- A tree that has been read: get<unsigned> and get<std::string> of a key, where `none` is an exception.
pub record Tree : Type 0 where
  pub get_unsigned : Text → Option ℕ
  pub get_string : Text → Option Text

unfoldable pub or_throw : {A : Type 0} → Option A → (A → Loaded) → Loaded
or_throw none f = thrown
or_throw (some a) f = f a

unfoldable pub load_from : Option Tree → Text → SysState → Loaded
load_from none path s = unread (record s { file_path = path })
load_from (some tree) path s = or_throw (tree.get_unsigned (codes "stand_id")) (λ stand.
    or_throw (tree.get_unsigned (codes "batch_id")) (λ batch.
      or_throw (tree.get_unsigned (codes "device_id")) (λ device.
        or_throw (tree.get_string (codes "lcd_model")) (λ lcd.
          or_throw (tree.get_string (codes "ts_model")) (λ ts. loaded (record {
            stand = stand;
            batch = batch;
            device = device;
            lcd_model = lcd;
            ts_model = ts;
            file_path = path;
          }))))))

-- SaveSysInfoToJson: what is put into the tree. `made` is what WasManufacturedBy puts, and the length of
-- a partition is cut to 32 bits.
unfoldable pub partition_puts : List Partition → List (Text × Value)
partition_puts [] = []
partition_puts (p ∷ ps) =
    (codes "partitions." ++ p.name, number (length_of p.area % 2 ^ 32)) ∷ partition_puts ps

unfoldable pub package_puts : List Package → List (Text × Value)
package_puts [] = []
package_puts (p ∷ ps) = (codes "packets." ++ p.name, text p.version) ∷ package_puts ps

unfoldable pub manufactured_by : Option Text → Text → List (Text × Value)
manufactured_by none time = (codes "manufacture.time", text time) ∷ []
manufactured_by (some host) time =
    (codes "manufacture.host", text host) ∷ (codes "manufacture.time", text time) ∷ []

unfoldable pub info_tree : List (Text × Value) → SysInfo → List (Text × Value)
info_tree made inf =
    made
    ++ ((codes "board", text inf.board)
        ∷ (codes "cpu", text inf.cpu)
        ∷ (codes "uboot", text inf.u_boot_build)
        ∷ (codes "kernel", text inf.kernel_build)
        ∷ (codes "gcc", text inf.gcc_ver)
        ∷ (codes "crosstool", text inf.ct_ng_ver)
        ∷ (codes "dram.size", text inf.dram_size)
        ∷ (codes "dram.freq", text inf.ddr)
        ∷ (codes "nor.size", text inf.nor_size)
        ∷ (codes "nor.model", text inf.nor)
        ∷ (codes "nand.size", text inf.nand_size)
        ∷ (codes "nand.model", text inf.nand)
        ∷ (codes "mac_addr", text inf.board_hw_addr)
        ∷ (codes "rtc", text inf.kernel.rtc)
        ∷ (codes "ts", text inf.kernel.ts)
        ∷ (codes "lcd", text inf.kernel.lcd)
        ∷ (codes "spi", number (length inf.kernel.spi))
        ∷ (codes "uart", number (length inf.kernel.uarts))
        ∷ (codes "usb-uart", number (length inf.kernel.usb_uart))
        ∷ (partition_puts inf.kernel.partitions ++ package_puts inf.packets))

unfoldable pub info_file : Text → SysState → Text
info_file path s =
    path
    ++ codes "/board-"
    ++ decimal s.stand
    ++ codes "."
    ++ decimal s.batch
    ++ codes "."
    ++ decimal s.device
    ++ codes ".json"

-- An entry of a directory, as boost::filesystem takes it apart.
pub record Entry : Type 0 where
  pub path : Text
  pub extension : Text
  pub stem : Text
  pub filename : Text

abbrev pub Files : Type 0
Files = List (Text × Text)

-- Server::PublishFile, by what it does to the list of files.
unfoldable pub add_file : Text → Text → Files → Files
add_file name path dir = (publish_file name path dir).1

-- PublishDir; `none` is no directory.
unfoldable pub publish_entry : (Text → Text → Option (List Text)) → Entry → Files → Files
publish_entry rx e dir =
    if not (bytes_eq e.extension (codes ".ipk"))
    then dir
    else if parse_test rx e.stem (codes "regigraf(.*)")
    then add_file (codes "regigraf.ipk") e.path dir
    else add_file e.filename e.path dir

unfoldable pub publish_entries : (Text → Text → Option (List Text)) → List Entry → Files → Files
publish_entries rx [] dir = dir
publish_entries rx (e ∷ es) dir = publish_entries rx es (publish_entry rx e dir)

unfoldable pub publish_dir :
    (Text → Text → Option (List Text)) → Option (List Entry) → Files → Files
publish_dir rx none dir = dir
publish_dir rx (some es) dir = publish_entries rx es dir

-- PublishRegigrafLicense, by the file that it publishes.
unfoldable pub publish_license : Files → Files
publish_license dir = add_file (codes "license.xml") (codes "/tmp/regigraf_license.xml") dir

unfoldable pub publish_settings : Settings → Files
publish_settings set = add_file rbf_name set.rbf (
    add_file mtd_utils set.mtd_utils (
      add_file root_fs_img set.rootfs_img (
        add_file kernel_mods set.kernel_mods (
          add_file kernel_img set.kernel_img
            (add_file (uboot_img ++ codes ".bin") (set.imx_img ++ codes ".bin") [])))))

-- The calls of main that publish files.
unfoldable pub published :
    (Text → Text → Option (List Text)) → Option (List Entry) → Settings → Files
published rx entries set = publish_license (publish_dir rx entries (publish_settings set))

-- main behind the file with the counters.
unfoldable pub start : Option (List Entry) → Settings → Loaded → Action Unit
start entries set (unread s) = set_globals (λ g. record g { sys_state = s })
start entries set thrown = λ w. Result.crash
start entries set (loaded s) =
    set_globals (λ g. record g { sys_state = s })
    >> (gets (λ w. w.regex) >>= λ rx.
        ask (publish (published rx entries set)) >> boards set (split_recipe set.acts))

unfoldable pub start_with :
    (Text → Option Tree) → Option (List Entry) → Option Settings → Action Unit
start_with read_json entries none = pure tt
start_with read_json entries (some set) = gets (λ w. w.globals.sys_state) >>= λ s.
    let path = set.config ++ codes "/regiloader.json" in
    start entries set (load_from (read_json path) path s)

-- main, with the entries of the directory of packets.
unfoldable pub main : (Text → Option Tree) → Option (List Entry) → Options → Action Unit
main read_json entries o = start_with read_json entries (parse_args o)
