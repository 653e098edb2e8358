-- ===== src/Loader/Runs.antt =====
-- Runs of the modules of the boot loader program at concrete inputs.
use regiboard.Base.{
  ℕ, ◌≤◌, ◌<◌, ◌≡◌, ◌≢◌, ◌↔◌, refl, List, [], ◌∷◌, ◌++◌, Option, none, some, Bool, true, false,
  ◌==◌, if◌then◌else◌, All, replicate, length, arith, bytes_eq,
}
use regiboard.Base.Text.{Text, codes, decimal}
use regiboard.Loader.State.{
  World, Settings, SysState, Result, ok, waits, crash, new_sys_info, get_hw_addr,
}
use regiboard.Loader.Asio.{Event, read}
use regiboard.Loader.Asio.Reads.{silent, byte, read-byte}
use regiboard.Loader.Recipe.{
  do_action, do_id, identify, run_actions, split_recipe, find_delimiter, is_set, find_name,
}
use regiboard.Loader.Recipe.Split.{Undivided, Divides, split_recipe-Divides}
use regiboard.Loader.Recipe.Actions.{Done, run_actions_iff, do_action-unpacks}
use regiboard.Loader.Install.{unpack_root_fs}
use regiboard.Loader.Asio
use regiboard.Loader.Info.{parse_test, on}
use regiboard.Loader.Console.{
  switch_shell, send_to_shell, send_to, send_cmd, parse_until, parse_loop, read_byte, read_turns,
}
use regiboard.Loader.Install.{login_to_regiboard}
use regiboard.Loader.Register.{register_board, record_board, next_device, save}
use regiboard.Loader.Frame.Registering.{registered, run_actions-registered, run_actions-unheard}
use regiboard.Loader.Console.{skip_lines}
use regiboard.Loader.Console.Lines.{turns_of, Plain, parse_until-found, parse_until-failed}
use regiboard.Loader.Console.Skipping.{skip_lines-silent}
use regiboard.Loader.Startup.{find_slash, network, Tree, Entry, published}
use regiboard.Loader.Startup.Arguments.{network-append}
use regiboard.Loader.Startup.Published.{Finds, named_files, published-named_files}
use regiboard.Loader.Register.Counters.{
  IsCounted, devices_after, devices_after-differ, get_hw_addr-length,
}

abbrev counters : SysState
counters = record {
  stand = 1;
  batch = 3;
  device = 254;
  lcd_model = codes "G150XGE-L04";
  ts_model = codes "ADS7843E";
  file_path = [];
}

counters-IsCounted : IsCounted counters
counters-IsCounted = omega arith

devices_after-differ_example : (devices_after 0 counters).device ≢ (devices_after 1 counters).device
unfolding next_device
devices_after-differ_example =
    devices_after-differ 0 1 counters counters-IsCounted (omega arith) (omega arith) refl

get_hw_addr-length_example :
    (counters.batch < 256 → length (get_hw_addr counters) ≡ 17)
    × (256 ≤ counters.batch → counters.batch < 4096 → length (get_hw_addr counters) ≡ 18)
get_hw_addr-length_example = get_hw_addr-length counters (omega arith) counters-IsCounted

hw_addr_test : get_hw_addr counters ≡ codes "00:60:2F:01:03:FE"
hw_addr_test = refl

actions-Undivided : All Undivided (codes "uboot" ∷ codes "kernel_eth" ∷ codes "register" ∷ [])
unfolding find_delimiter
actions-Undivided = (refl, (refl, (refl, tt)))

split_recipe-Divides_example : Divides (codes "uboot->>a->") (split_recipe (codes "uboot->>a->"))
split_recipe-Divides_example = split_recipe-Divides (codes "uboot->>a->")

abbrev settings : Settings
settings = record {
  tty_dev = codes "/dev/ttyUSB0";
  imx_img = codes "u-boot";
  kernel_img = codes "uImage";
  kernel_mods = codes "modules.tar.gz";
  rootfs_img = codes "rootfs.tar.gz";
  mtd_utils = codes "mtd-utils.tar.gz";
  acts = codes "register";
  packets = [];
  config = [];
  rbf = codes "firmware.rbf";
  uboot_pswd = codes "secret";
  use_tftp = record { ip = []; mask = []; port = codes "6969" };
}

-- A console on which every prompt is "#".
abbrev prompts : Text → Text → Option (List Text)
prompts text exp = if bytes_eq text (codes "#") then some [] else none

abbrev world : List (List Event) → Bool → World
world turns failed = record {
  regex = prompts;
  time = [];
  vol_size = λ n size. size;
  unset_id = 0;
  files = λ path. none;
  beyond = 0;
  turns = turns;
  runs = [];
  answers = [];
  attempts = [];
  link = record { session = false; rcv = []; was_read = false; timeout = false; calls = [] };
  calls = [];
  globals = record {
    eth_is_ready = false;
    already_has_been = false;
    shell_prompt = [];
    parts_are_ready = false;
    parse_timeout_fail = failed;
    sys_inf = new_sys_info false;
    sys_state = counters;
  };
}

abbrev recipe : List Text
recipe = codes "register" ∷ codes "test_hw" ∷ []

-- Six prompts answer the registration of a board.
abbrev console : World
console = world (replicate 6 (byte 35)) false

abbrev end_of : Result Bool → World
end_of (ok b w) = w
end_of (waits w) = w
end_of crash = console

run_actions-registered_example :
    (end_of (run_actions settings recipe console)).globals.sys_state ≡ registered recipe counters
unfolding run_actions do_action do_id identify find_name bytes_eq register_board login_to_regiboard
    switch_shell send_to_shell send_to send_cmd parse_until parse_loop read_byte read_turns
    Asio.read Asio.read_loop Asio.run Asio.handle Asio.read_handler Asio.timer_handler
    Asio.reading_was_failed parse_test on record_board next_device save
run_actions-registered_example =
    run_actions-registered settings recipe console (end_of (run_actions settings recipe console))
      refl

run_actions-unheard_example : run_actions settings recipe (world [] true) ≢ ok true console
run_actions-unheard_example =
    run_actions-unheard settings (codes "register") (codes "test_hw" ∷ []) (world [] true) console
      refl

run_actions_iff_example :
    (run_actions settings (codes "test_hw" ∷ []) console ≡ ok true console)
    ↔ Done settings (codes "test_hw" ∷ []) console console
run_actions_iff_example = run_actions_iff settings (codes "test_hw" ∷ []) console console

do_action-unpacks_example :
    All
      (λ (name : Text). do_action settings name ≡ unpack_root_fs)
      (codes "mtd_utils"
        ∷ codes "install_kernel"
        ∷ codes "install_uboot"
        ∷ codes "install_regigraf"
        ∷ codes "install_firmware"
        ∷ [])
unfolding is_set
do_action-unpacks_example = do_action-unpacks settings refl refl

read-byte_example :
    read 10 0 (replicate 3 silent ++ byte 65 ∷ byte 66 ∷ [])
    ≡ some (record { was_processed = 1; try_num = 0; buff = 65 }, byte 66 ∷ [])
read-byte_example = read-byte 10 (omega arith) 3 0 65 (byte 66 ∷ []) (omega arith)

network-append_example :
    network (codes "10.0.0.1/255.0.0.0")
    ≡ record { ip = codes "10.0.0.1"; mask = codes "255.0.0.0"; port = decimal 6969 }
unfolding find_slash
network-append_example = network-append (codes "10.0.0.1") (codes "255.0.0.0") refl

-- A file with the counters.
abbrev tree : Tree
tree = record {
  get_unsigned = λ key.
      if bytes_eq key (codes "stand_id")
      then some 1
      else if bytes_eq key (codes "batch_id")
      then some 3
      else if bytes_eq key (codes "device_id")
      then some 254
      else none;
  get_string = λ key.
      if bytes_eq key (codes "lcd_model")
      then some (codes "G150XGE-L04")
      else if bytes_eq key (codes "ts_model")
      then some (codes "ADS7843E")
      else none;
}

abbrev kernel_packet : Entry
kernel_packet = record {
  path = codes "output/uImage.ipk";
  extension = codes ".ipk";
  stem = codes "uImage";
  filename = codes "uImage";
}

published-named_files_example :
    All (Finds (published prompts (some (kernel_packet ∷ [])) settings)) (named_files settings)
published-named_files_example =
    published-named_files prompts (some (kernel_packet ∷ [])) settings
      (omega arith, (omega arith, (omega arith, (omega arith, (omega arith, (omega arith, tt))))))

-- A prompt behind two bytes.
abbrev prompt_after : Text → Text → Option (List Text)
prompt_after text exp = if length text == 3 then some [] else none

abbrev arriving : List (ℕ × ℕ)
arriving = (0, 65) ∷ (9, 66) ∷ []

abbrev hearing : World
hearing = record (world (turns_of arriving (replicate 2 silent ++ byte 67 ∷ [])) false) {
  regex = prompt_after;
}

letter-Plain : (b : ℕ) → 32 ≤ b → Plain b
letter-Plain b h = record { not_lf = λ e. omega arith; not_cr = λ e. omega arith }

parse_until-found_example : parse_until [] true hearing ≡ ok true (record hearing { turns = [] })
unfolding parse_test on
parse_until-found_example =
    parse_until-found [] true arriving 2 67 [] hearing refl (omega arith)
      (
        omega arith,
        letter-Plain 65 (omega arith),
        refl,
        (omega arith, letter-Plain 66 (omega arith), refl, tt),
      )
      (omega arith) (letter-Plain 67 (omega arith)) refl

abbrev dying : World
dying = record hearing { turns = turns_of arriving (replicate 10 silent ++ []) }

parse_until-failed_example :
    parse_until [] true dying
    ≡ ok false (record dying {
      turns = [];
      globals = record (dying.globals) { parse_timeout_fail = true };
    })
unfolding parse_test on
parse_until-failed_example = parse_until-failed [] true arriving [] dying refl (omega arith) (
  omega arith,
  letter-Plain 65 (omega arith),
  refl,
  (omega arith, letter-Plain 66 (omega arith), refl, tt),
)

abbrev quiet : World
quiet = world (byte 0x0D ∷ replicate 9 silent ++ []) false

skip_lines-silent_example : skip_lines 10 quiet ≡ ok tt (record quiet { turns = [] })
skip_lines-silent_example = skip_lines-silent 8 [] quiet refl
