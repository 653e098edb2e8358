-- ===== src/Loader/Register.antt =====
-- src/utils/regiloader/regiloader.cpp: the check of the hardware, the registration of a board, the license.
pub mod Counters
use regiboard.Base.{
  ℕ, zero, suc, ◌+◌, ◌-◌, ◌%◌, ◌^◌, List, [], ◌∷◌, ◌++◌, Option, none, some, Bool, true, false,
  ◌==◌, ◌&&◌, ◌||◌, not, if◌then◌else◌, ltb, length, bytes_eq,
}
use regiboard.Base.Text.{Text, codes, decimal}
use regiboard.Loader.State.{
  World, Globals, SysInfo, SysState, Call, Result, ok, waits, crash, Action, pure, ◌>>=◌, ◌>>◌,
  ◌>>&◌, gets, modify, ask, set_globals, save_counters, save_info, check_batch_capacity,
  get_device_id,
}
use regiboard.Loader.Console.{send_cmd, parse_until, send_to_shell}
use regiboard.Loader.Install.{login_to_regiboard}

-- The counters behind a registered board; `device` is a uint32_t.
unfoldable pub next_device : SysState → SysState
next_device s = check_batch_capacity (record s { device = (s.device + 1) % 2 ^ 32 })

-- SysState::Save
unfoldable pub save : SysState → Action Unit
save s = if ltb 0 (length s.file_path) then ask (save_counters s) else pure tt

-- The end of RegisterBoard: the description of the board is saved, the counters move on and are saved.
unfoldable pub record_board : Action Bool
record_board = gets (λ w. w.globals) >>= λ g.
    ask (save_info g.sys_state g.sys_inf)
    >> set_globals (λ g'. record g' { sys_state = next_device g'.sys_state })
    >> (save (next_device g.sys_state) >> pure true)

-- RegisterBoard
unfoldable pub register_board : Text → Action Bool
register_board pswd =
    login_to_regiboard
    >> ((gets (λ w. get_device_id w.globals.sys_state) >>= λ id.
          send_to_shell (codes "uboot_conf --if=/dev/mtd1 --of=/tmp/uboot.conf --board=" ++ id)
            false)
        >> (send_to_shell (codes "uboot_conf --of=/dev/mtd1 --if=/tmp/uboot.conf --do=w") false
            >> (send_cmd (codes "passwd root")
                >> (parse_until (codes "New password:") false
                    >>& (send_cmd pswd
                        >> (parse_until (codes "Retype password:") false
                            >>& (send_to_shell pswd false >> record_board)))))))

-- ValidateHardware: every comparison is made, and all of them must hold.
unfoldable pub validate_hardware : SysInfo → Bool
validate_hardware inf =
    bytes_eq (codes "Freescale i.MX53 family 2.1V at 800 MHz") inf.cpu
    && bytes_eq (codes "1 GB") inf.dram_size
    && bytes_eq (codes "332800000Hz") inf.ddr
    && bytes_eq (codes "1000 KBytes") inf.nor_size
    && bytes_eq (codes "at45db321d") inf.nor
    && bytes_eq (codes "1 GiB") inf.nand_size
    && bytes_eq (codes "MT29F8G08ABABA") inf.nand
    && bytes_eq (codes "FEC0") inf.eth
    && bytes_eq (codes "ADS7843") inf.kernel.ts
    && bytes_eq (codes "ds3231") inf.kernel.rtc
    && (length inf.kernel.spi == 3)
    && (length inf.kernel.uarts == 5)
    && (length inf.kernel.usb_uart == 12)
    && (length inf.kernel.partitions == 5)

-- struct RegigrafLicense, with the values of its constructor.
pub record License : Type 0 where
  pub math_chans : ℕ
  pub math_tables : ℕ
  pub math_tables_sz : ℕ
  pub analog_out : ℕ
  pub analog_in : ℕ
  pub discrete_in : ℕ
  pub interface_in : ℕ
  pub relays : ℕ
  pub events : ℕ
  pub setpoints : ℕ
  pub groups : ℕ
  pub channels : ℕ
  pub ethernet : Bool

abbrev pub new_license : License
new_license = record {
  math_chans = 48;
  math_tables = 12;
  math_tables_sz = 2500;
  analog_out = 48;
  analog_in = 48;
  discrete_in = 12;
  interface_in = 48;
  relays = 32;
  events = 32;
  setpoints = 8;
  groups = 16;
  channels = 48;
  ethernet = true;
}

unfoldable pub attribute : Text → ℕ → Text
attribute name n = name ++ codes "=\"" ++ decimal n ++ codes "\" "

unfoldable pub truth : Bool → Text
truth true = codes "TRUE"
truth false = codes "FALSE"

-- RegigrafLicense::GenXml
unfoldable pub gen_xml : License → Text
gen_xml l =
    codes "<?xml version=\"1.0\" encoding=\"UTF-8\" ?>\n"
    ++ codes "<regigraf board=\"1772\" "
    ++ codes "math_chans=\""
    ++ truth (ltb 0 l.math_chans)
    ++ codes "\" "
    ++ attribute (codes "mchannels_count") l.math_chans
    ++ attribute (codes "mtables_count") l.math_tables
    ++ attribute (codes "mtables_max_lines") l.math_tables_sz
    ++ attribute (codes "analogs_out_count") l.analog_out
    ++ attribute (codes "analogs_in_count") l.analog_in
    ++ attribute (codes "discretes_in_count") l.discrete_in
    ++ attribute (codes "interfaces_in_count") l.interface_in
    ++ attribute (codes "relays_count") l.relays
    ++ attribute (codes "events_count") l.events
    ++ attribute (codes "setpoints_count") l.setpoints
    ++ attribute (codes "groups_count") l.groups
    ++ attribute (codes "channels_count") l.channels
    ++ codes "eth=\""
    ++ truth l.ethernet
    ++ codes "\" "
    ++ codes "/>"
