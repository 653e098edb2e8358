-- ===== src/Loader/Frame/Actions.antt =====
-- The actions of a recipe in src/utils/regiloader/regiloader.cpp: which of them keep to the frame.
use regiboard.Base.{ℕ, zero, suc, ◌≢◌, refl, true, ◌++◌, length}
use regiboard.Base.Text.{Text, codes}
use regiboard.Loader.State.{Settings, close_port, open_port}
use regiboard.Loader.Recipe.{
  ActId, unknown, uboot, enter_uboot, setup_nor_memory, kernel_uart, kernel_eth, kernel_debug,
  kernel_old_sys, root_fs, mtd_tools, install_kernel, install_uboot, install_regigraf,
  install_firmware, unpack_rootfs, setup_boot, register, validate_hw, test_hw, upload_again,
  setup_nor_case, case_unpack_rootfs, case_install_firmware, case_install_regigraf,
  case_install_uboot, case_install_kernel, case_mtd_utils, do_id,
}
use regiboard.Loader.Frame.{Keeps, Keeps-bind, Keeps-if, Keeps-pure, keeps_rules}
use regiboard.Loader.Frame.Commands.{ask-Keeps}
use regiboard.Loader.Frame.Booting.{
  upload_uboot-Keeps, wait_for_welcome-Keeps, setup_nor-Keeps, upload_kernel_over_uart-Keeps,
  upload_kernel_over_eth-Keeps, upload_kernel_with_old_sys-Keeps,
}
use regiboard.Loader.Frame.Installing.{
  upload_root_fs_over_eth-Keeps, upload_and_install_tools-Keeps, upload_and_install_kernel-Keeps,
  upload_and_install_uboot-Keeps, upload_and_install_regigraf-Keeps,
  upload_and_install_firmware-Keeps, unpack_root_fs-Keeps, setup_booting-Keeps,
  upload_kernel_and_debug-Keeps,
}

upload_again-Keeps : (fuel : ℕ) (file : Text) → Keeps (upload_again fuel file)
unfolding upload_again
upload_again-Keeps zero file = search keeps_rules
upload_again-Keeps (suc fuel) file =
    let again = upload_again-Keeps fuel file in
    Keeps-bind (upload_uboot-Keeps file)
      (λ loaded. Keeps-if loaded _ _ (Keeps-pure {a = true}) again)

upload_run-Keeps : (file : Text) → Keeps (λ w. upload_again (suc (length w.attempts)) file w)
upload_run-Keeps file = record { within = λ w. (upload_again-Keeps _ file).within w }

setup_nor_case-Keeps : (set : Settings) → Keeps (setup_nor_case set)
unfolding setup_nor_case
setup_nor_case-Keeps set = Keeps-bind (setup_nor-Keeps _) (λ again.
    Keeps-if again _ _
      (Keeps-bind (Keeps-bind (ask-Keeps close_port) (λ a. ask-Keeps open_port))
        (λ a. upload_run-Keeps (set.imx_img ++ codes ".imx")))
      (Keeps-pure {a = true}))

case_unpack_rootfs-Keeps : (set : Settings) → Keeps (case_unpack_rootfs set)
unfolding case_unpack_rootfs
case_unpack_rootfs-Keeps set = search (keeps_rules, unpack_root_fs-Keeps)

case_install_firmware-Keeps : (set : Settings) → Keeps (case_install_firmware set)
unfolding case_install_firmware
case_install_firmware-Keeps set =
    search (keeps_rules, upload_and_install_firmware-Keeps, case_unpack_rootfs-Keeps)

case_install_regigraf-Keeps : (set : Settings) → Keeps (case_install_regigraf set)
unfolding case_install_regigraf
case_install_regigraf-Keeps set =
    search (keeps_rules, upload_and_install_regigraf-Keeps, case_install_firmware-Keeps)

case_install_uboot-Keeps : (set : Settings) → Keeps (case_install_uboot set)
unfolding case_install_uboot
case_install_uboot-Keeps set =
    search (keeps_rules, upload_and_install_uboot-Keeps, case_install_regigraf-Keeps)

case_install_kernel-Keeps : (set : Settings) → Keeps (case_install_kernel set)
unfolding case_install_kernel
case_install_kernel-Keeps set =
    search (keeps_rules, upload_and_install_kernel-Keeps, case_install_uboot-Keeps)

case_mtd_utils-Keeps : (set : Settings) → Keeps (case_mtd_utils set)
unfolding case_mtd_utils
case_mtd_utils-Keeps set =
    search (keeps_rules, upload_and_install_tools-Keeps, case_install_kernel-Keeps)

pub do_id-Keeps : (set : Settings) (id : ActId) → id ≢ register → Keeps (do_id set id)
unfolding do_id
do_id-Keeps set unknown h = search keeps_rules
do_id-Keeps set uboot h = upload_uboot-Keeps _
do_id-Keeps set enter_uboot h = wait_for_welcome-Keeps _
do_id-Keeps set setup_nor_memory h = setup_nor_case-Keeps set
do_id-Keeps set kernel_uart h = search (keeps_rules, upload_kernel_over_uart-Keeps)
do_id-Keeps set kernel_eth h = search (keeps_rules, upload_kernel_over_eth-Keeps)
do_id-Keeps set kernel_debug h = search (keeps_rules, upload_kernel_and_debug-Keeps)
do_id-Keeps set kernel_old_sys h = upload_kernel_with_old_sys-Keeps _ _
do_id-Keeps set root_fs h = search (keeps_rules, upload_root_fs_over_eth-Keeps)
do_id-Keeps set mtd_tools h = case_mtd_utils-Keeps set
do_id-Keeps set install_kernel h = case_install_kernel-Keeps set
do_id-Keeps set install_uboot h = case_install_uboot-Keeps set
do_id-Keeps set install_regigraf h = case_install_regigraf-Keeps set
do_id-Keeps set install_firmware h = case_install_firmware-Keeps set
do_id-Keeps set unpack_rootfs h = case_unpack_rootfs-Keeps set
do_id-Keeps set setup_boot h = setup_booting-Keeps
do_id-Keeps set register h = absurd (h refl)
do_id-Keeps set validate_hw h = search keeps_rules
do_id-Keeps set test_hw h = search keeps_rules
