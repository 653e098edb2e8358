-- ===== src/Loader/Recipe.antt =====
-- The recipes of src/utils/regiloader/regiloader.cpp: what an action is, how a recipe is parsed and run.
pub mod Split
pub mod Actions
use regiboard.Base.{
  ℕ, zero, suc, ◌+◌, ◌-◌, List, [], ◌∷◌, ◌++◌, Option, none, some, Bool, true, false, ◌==◌, ◌&&◌,
  ◌||◌, not, if◌then◌else◌, ltb, length, bytes_eq, take, drop,
}
use mathlib.Core.Option
use regiboard.Base.Text.{Text, codes}
use regiboard.Loader.State.{
  Settings, World, Globals, SysInfo, SysState, Call, Result, ok, waits, crash, Action, pure, ◌>>=◌,
  ◌>>◌, ◌>>&◌, gets, modify, ask, set_globals, new_sys_info, wait_key, read_key, close_port,
  open_port,
}
use regiboard.Loader.Boot.{
  upload_uboot, wait_for_welcome, setup_nor, upload_kernel_over_uart, upload_kernel_over_eth,
  upload_kernel_with_old_sys,
}
use regiboard.Loader.Install.{
  upload_root_fs_over_eth, upload_and_install_tools, upload_and_install_kernel,
  upload_and_install_uboot, upload_and_install_regigraf, upload_and_install_firmware,
  unpack_root_fs, setup_booting, upload_kernel_and_debug,
}
use regiboard.Loader.Register.{register_board, validate_hardware}

-- RecipeAct::Id
pub data ActId : Type 0 where
  unknown uboot enter_uboot setup_nor_memory kernel_uart kernel_eth kernel_debug kernel_old_sys :
      ActId
  root_fs mtd_tools install_kernel install_uboot install_regigraf install_firmware : ActId
  unpack_rootfs setup_boot register validate_hw test_hw : ActId

-- The names of RecipeAct.
abbrev pub names : List (Text × ActId)
names =
    (codes "uboot", uboot)
    ∷ (codes "enter_uboot", enter_uboot)
    ∷ (codes "setup_nor", setup_nor_memory)
    ∷ (codes "kernel_uart", kernel_uart)
    ∷ (codes "kernel_eth", kernel_eth)
    ∷ (codes "kernel_old_sys", kernel_old_sys)
    ∷ (codes "rootfs", root_fs)
    ∷ (codes "mtd_utils", mtd_tools)
    ∷ (codes "install_kernel", install_kernel)
    ∷ (codes "install_uboot", install_uboot)
    ∷ (codes "install_regigraf", install_regigraf)
    ∷ (codes "install_firmware", install_firmware)
    ∷ (codes "unpack_rootfs", unpack_rootfs)
    ∷ (codes "setup_booting", setup_boot)
    ∷ (codes "register", register)
    ∷ (codes "validate_hw", validate_hw)
    ∷ (codes "test_hw", test_hw)
    ∷ (codes "kernel_dbg", kernel_debug)
    ∷ []

unfoldable pub find_name : Text → List (Text × ActId) → ActId
find_name act [] = unknown
find_name act ((name, id) ∷ rest) = if bytes_eq name act then id else find_name act rest

-- RecipeAct::Identify
unfoldable pub identify : Text → ActId
identify act = find_name act names

unfoldable pub is_set : Text → Bool
is_set [] = false
is_set (c ∷ cs) = true

-- The loop of DoAction behind SetupNor, on fuel: the boot loader again, until it is loaded.
unfoldable pub upload_again : ℕ → Text → Action Bool
upload_again zero file = waits
upload_again (suc fuel) file =
    upload_uboot file >>= λ loaded. if loaded then pure true else upload_again fuel file

-- The case of SetupNor: the port is closed and opened. Every turn of the loop takes attempts, so these
-- are fuel enough.
unfoldable pub setup_nor_case : Settings → Action Bool
setup_nor_case set = setup_nor set.uboot_pswd >>= λ again.
    if again
    then ask close_port
      >> ask open_port
      >> (λ w. upload_again (suc (length w.attempts)) (set.imx_img ++ codes ".imx") w)
    else pure true

-- The cases of DoAction that have no `break` fall through to the next one.
unfoldable pub case_unpack_rootfs : Settings → Action Bool
case_unpack_rootfs set = if is_set set.rootfs_img then unpack_root_fs else pure false

unfoldable pub case_install_firmware : Settings → Action Bool
case_install_firmware set =
    if is_set set.use_tftp.ip
    then upload_and_install_firmware set.use_tftp
    else case_unpack_rootfs set

unfoldable pub case_install_regigraf : Settings → Action Bool
case_install_regigraf set =
    if is_set set.use_tftp.ip
    then upload_and_install_regigraf set.use_tftp
    else case_install_firmware set

unfoldable pub has_utils : Settings → Bool
has_utils set = is_set set.mtd_utils && is_set set.use_tftp.ip

unfoldable pub case_install_uboot : Settings → Action Bool
case_install_uboot set =
    if has_utils set then upload_and_install_uboot set.use_tftp else case_install_regigraf set

unfoldable pub case_install_kernel : Settings → Action Bool
case_install_kernel set =
    if has_utils set then upload_and_install_kernel set.use_tftp else case_install_uboot set

unfoldable pub case_mtd_utils : Settings → Action Bool
case_mtd_utils set =
    if has_utils set then upload_and_install_tools set.use_tftp else case_install_kernel set

-- The switch of DoAction. The address of the TFTP server is that of the settings.
unfoldable pub do_id : Settings → ActId → Action Bool
do_id set unknown = pure false
do_id set uboot = upload_uboot (set.imx_img ++ codes ".imx")
do_id set enter_uboot = wait_for_welcome set.uboot_pswd
do_id set setup_nor_memory = setup_nor_case set
do_id set kernel_uart =
    if is_set set.kernel_img
    then upload_kernel_over_uart set.kernel_img set.uboot_pswd
    else pure false
do_id set kernel_eth =
    if is_set set.kernel_img && is_set set.use_tftp.ip
    then upload_kernel_over_eth set.use_tftp.ip set.uboot_pswd
    else pure false
do_id set kernel_debug =
    if is_set set.use_tftp.ip
    then upload_kernel_and_debug set.use_tftp set.use_tftp.ip set.uboot_pswd
    else pure false
do_id set kernel_old_sys = upload_kernel_with_old_sys set.use_tftp.ip set.uboot_pswd
do_id set root_fs =
    if is_set set.rootfs_img && is_set set.use_tftp.ip
    then upload_root_fs_over_eth set.use_tftp
    else pure false
do_id set mtd_tools = case_mtd_utils set
do_id set install_kernel = case_install_kernel set
do_id set install_uboot = case_install_uboot set
do_id set install_regigraf = case_install_regigraf set
do_id set install_firmware = case_install_firmware set
do_id set unpack_rootfs = case_unpack_rootfs set
do_id set setup_boot = setup_booting
do_id set register = register_board set.uboot_pswd
do_id set validate_hw = gets (λ w. validate_hardware w.globals.sys_inf)
do_id set test_hw = pure true

-- DoAction, with a server and a port.
unfoldable pub do_action : Settings → Text → Action Bool
do_action set act = do_id set (identify act)

-- The loop of ExecuteRecipe: `false` when an action or a read of the console has failed.
unfoldable pub run_actions : Settings → List Text → Action Bool
run_actions set [] = pure true
run_actions set (act ∷ acts) = do_action set act >>= λ done.
    gets (λ w. w.globals.parse_timeout_fail) >>= λ failed.
    if not done || failed then pure false else run_actions set acts

-- ExecuteRecipe: `true` when the operator goes on with the next board.
unfoldable pub execute_recipe : Settings → List Text → Action Bool
execute_recipe set recipe =
    wait_key
    >> set_globals (λ g. record g { parse_timeout_fail = false })
    >> run_actions set recipe
    >> (read_key >>= λ key. pure ((key == 10) || (key == b'y') || (key == b'Y')))

-- The loop of main over the boards, on fuel.
unfoldable pub boards_loop : ℕ → Settings → List Text → Action Unit
boards_loop zero set recipe = waits
boards_loop (suc fuel) set recipe = execute_recipe set recipe >>= λ more.
    if more
    then set_globals (λ g. record g { sys_inf = new_sys_info false })
      >> ask close_port
      >> ask open_port
      >> boards_loop fuel set recipe
    else ask close_port

-- Every board takes an answer of the operator, so these are fuel enough.
unfoldable pub boards : Settings → List Text → Action Unit
boards set recipe w = boards_loop (suc (length w.answers)) set recipe w

-- Where the next "->" stands in the rest of the recipe.
unfoldable pub find_delimiter : Text → Option ℕ
find_delimiter [] = none
find_delimiter (c ∷ []) = none
find_delimiter (c ∷ d ∷ rest) =
    let later = find_delimiter (d ∷ rest) in
    if (c == b'-') && (d == b'>') then some 0 else Option.map suc later

-- The loop of main over the recipe, on fuel.
unfoldable pub split_loop : ℕ → Text → List Text
split_loop zero text = []
split_loop (suc fuel) text = elim (find_delimiter text) [
  | none ↦ text ∷ []
  | some n ↦ take n text ∷ split_loop fuel (drop (suc (suc n)) text)
]

-- Every turn drops two characters at least, so the length is fuel enough.
unfoldable pub split_recipe : Text → List Text
split_recipe text = split_loop (suc (length text)) text
