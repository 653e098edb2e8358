-- ===== src/Loader/Frame/Installing.antt =====
-- What src/utils/regiloader/regiloader.cpp installs behind the running kernel keeps to the frame.
use regiboard.Base.{ℕ, zero, suc, ◌+◌, true, Option, none, some, length}
use regiboard.Base.Text.{Text}
use regiboard.Loader.State.{Network, Partition}
use regiboard.Loader.Install.{
  init_network, download_from_tftp, upload_root_fs_over_eth, try_volume, volume_loop, make_volume,
  mk_ubi_fs_partition, unpack_root_fs, unpack_archive, upload_and_install_tools,
  upload_kernel_modules_and_install, install_kernel, upload_and_install_kernel, install_uboot,
  upload_and_install_uboot, upload_and_install_packet, update_list_of_packets, login_to_regiboard,
  setup_regigraf_license, upload_and_install_regigraf, upload_and_install_firmware, setup_booting,
  upload_kernel_and_debug,
}
use regiboard.Loader.Frame.{Keeps, Keeps-bind, Keeps-if, Keeps-gets, Keeps-pure, keeps_rules}
use regiboard.Loader.Frame.Commands.{console_rules, send_to_shell-Keeps}
use regiboard.Loader.Frame.Booting.{
  run_tftp-Keeps, wait_for_welcome-Keeps, upload_kernel_over_eth-Keeps,
}

init_network-Keeps : (mask : Text) → Keeps (init_network mask)
unfolding init_network
init_network-Keeps mask = search console_rules depth 12

pub download_from_tftp-Keeps :
    (tftpd : Network) (request path : Text) → Keeps (download_from_tftp tftpd request path)
unfolding download_from_tftp
download_from_tftp-Keeps tftpd request path =
    search (console_rules, init_network-Keeps, run_tftp-Keeps) depth 12

pub upload_root_fs_over_eth-Keeps : (tftpd : Network) → Keeps (upload_root_fs_over_eth tftpd)
unfolding upload_root_fs_over_eth
upload_root_fs_over_eth-Keeps tftpd = download_from_tftp-Keeps _ _ _

try_volume-Keeps :
    (ubi_id : ℕ) (vol_name : Text) (size : ℕ) → Keeps (try_volume ubi_id vol_name size)
unfolding try_volume
try_volume-Keeps ubi_id vol_name size = search console_rules depth 9

volume_loop-Keeps :
    (fuel n ubi_id : ℕ) (vol_name : Text) (max_size : ℕ)
    → Keeps (volume_loop fuel n ubi_id vol_name max_size)
unfolding volume_loop
volume_loop-Keeps zero n ubi_id vol_name max_size = search keeps_rules
volume_loop-Keeps (suc fuel) n ubi_id vol_name max_size =
    let again = volume_loop-Keeps fuel (n + 1) ubi_id vol_name max_size in
    Keeps-bind Keeps-gets (λ size.
      Keeps-bind (try_volume-Keeps ubi_id vol_name size)
        (λ failed. Keeps-if failed _ _ again (Keeps-pure {a = true})))

volume_run-Keeps :
    (ubi_id : ℕ) (vol_name : Text) (max_size : ℕ)
    → Keeps (λ w. volume_loop (suc (length w.turns)) 0 ubi_id vol_name max_size w)
volume_run-Keeps ubi_id vol_name max_size = record {
  within = λ w. (volume_loop-Keeps _ 0 ubi_id vol_name max_size).within w;
}

make_volume-Keeps :
    (ubi_id : ℕ) (vol_name : Text) (part : Option Partition)
    → Keeps (make_volume ubi_id vol_name part)
unfolding make_volume
make_volume-Keeps ubi_id vol_name none = search keeps_rules
make_volume-Keeps ubi_id vol_name (some part) =
    Keeps-bind
      (Keeps-bind (Keeps-bind (send_to_shell-Keeps _ _) (λ a. send_to_shell-Keeps _ _))
        (λ a. send_to_shell-Keeps _ _))
      (λ a. volume_run-Keeps ubi_id vol_name _)

mk_ubi_fs_partition-Keeps :
    (ubi_id : ℕ) (vol_name : Text) → Keeps (mk_ubi_fs_partition ubi_id vol_name)
unfolding mk_ubi_fs_partition
mk_ubi_fs_partition-Keeps ubi_id vol_name = search (keeps_rules, make_volume-Keeps)

pub unpack_root_fs-Keeps : Keeps unpack_root_fs
unfolding unpack_root_fs
unpack_root_fs-Keeps = search (console_rules, mk_ubi_fs_partition-Keeps) depth 30

unpack_archive-Keeps : (path : Text) → Keeps (unpack_archive path)
unfolding unpack_archive
unpack_archive-Keeps path = search console_rules

ruleset install_rules = (console_rules, download_from_tftp-Keeps, unpack_archive-Keeps)

pub upload_and_install_tools-Keeps : (tftpd : Network) → Keeps (upload_and_install_tools tftpd)
unfolding upload_and_install_tools
upload_and_install_tools-Keeps tftpd = search install_rules

upload_kernel_modules_and_install-Keeps :
    (tftpd : Network) → Keeps (upload_kernel_modules_and_install tftpd)
unfolding upload_kernel_modules_and_install
upload_kernel_modules_and_install-Keeps tftpd = search install_rules

install_kernel-Keeps :
    (tftpd : Network) (part : Option Partition) → Keeps (install_kernel tftpd part)
unfolding install_kernel
install_kernel-Keeps tftpd none = search keeps_rules
install_kernel-Keeps tftpd (some part) =
    search (console_rules, upload_kernel_modules_and_install-Keeps) depth 9

pub upload_and_install_kernel-Keeps : (tftpd : Network) → Keeps (upload_and_install_kernel tftpd)
unfolding upload_and_install_kernel
upload_and_install_kernel-Keeps tftpd = search (install_rules, install_kernel-Keeps) depth 9

install_uboot-Keeps : (part : Option Partition) → Keeps (install_uboot part)
unfolding install_uboot
install_uboot-Keeps none = search keeps_rules
install_uboot-Keeps (some part) = search console_rules depth 15

pub upload_and_install_uboot-Keeps : (tftpd : Network) → Keeps (upload_and_install_uboot tftpd)
unfolding upload_and_install_uboot
upload_and_install_uboot-Keeps tftpd = search (install_rules, install_uboot-Keeps) depth 9

upload_and_install_packet-Keeps :
    (tftpd : Network) (ipk_name : Text) → Keeps (upload_and_install_packet tftpd ipk_name)
unfolding upload_and_install_packet
upload_and_install_packet-Keeps tftpd ipk_name = search install_rules depth 9

update_list_of_packets-Keeps : Keeps update_list_of_packets
unfolding update_list_of_packets
update_list_of_packets-Keeps = search console_rules

pub login_to_regiboard-Keeps : Keeps login_to_regiboard
unfolding login_to_regiboard
login_to_regiboard-Keeps = search console_rules

ruleset board_rules = (
  install_rules, upload_and_install_packet-Keeps, update_list_of_packets-Keeps,
  login_to_regiboard-Keeps,
)

pub upload_and_install_regigraf-Keeps :
    (tftpd : Network) → Keeps (upload_and_install_regigraf tftpd)
unfolding upload_and_install_regigraf setup_regigraf_license
upload_and_install_regigraf-Keeps tftpd = search board_rules depth 30

pub upload_and_install_firmware-Keeps :
    (tftpd : Network) → Keeps (upload_and_install_firmware tftpd)
unfolding upload_and_install_firmware
upload_and_install_firmware-Keeps tftpd = search board_rules depth 9

pub setup_booting-Keeps : Keeps setup_booting
unfolding setup_booting
setup_booting-Keeps = search console_rules depth 9

pub upload_kernel_and_debug-Keeps :
    (tftpd : Network) (ip pswd : Text) → Keeps (upload_kernel_and_debug tftpd ip pswd)
unfolding upload_kernel_and_debug
upload_kernel_and_debug-Keeps tftpd ip pswd =
    search
      (
        console_rules, wait_for_welcome-Keeps, upload_kernel_over_eth-Keeps,
        upload_kernel_modules_and_install-Keeps,
      )
      depth 9
