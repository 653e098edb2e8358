-- ===== src/Loader/Install.antt =====
-- src/utils/regiloader/regiloader.cpp behind the running kernel: files from the TFTP server, partitions,
-- and what is installed on the board. The server of the program is always there (`srv != 0`).
use regiboard.Base.{
  ℕ, zero, suc, ◌+◌, [], ◌∷◌, ◌++◌, Option, none, some, Bool, true, false, ◌&&◌, ◌||◌, not,
  if◌then◌else◌, length, bytes_eq,
}
use regiboard.Base.Text.{Text, codes, decimal, hex}
use regiboard.Loader.State.{
  Network, Partition, World, waits, Action, pure, ◌>>=◌, ◌>>◌, ◌>>&◌, gets, set_globals, set_info,
  find_partition, length_of, get_hw_addr,
}
use regiboard.Loader.Console.{
  send_cmd, parse_until, send_to_shell, switch_shell, update_list_of_partitions,
}
use regiboard.Loader.Boot.{run_tftp, wait_for_welcome, upload_kernel_over_eth}
use regiboard.Loader.Console.{send_to_uboot}

abbrev pub regigraf_prompt : Text
regigraf_prompt = codes "(.*)\\@regigraf"

abbrev pub regigraf_login : Text
regigraf_login = codes "regigraf login:"

-- The names under which main publishes files, and by which the board asks for them.
abbrev pub uboot_img : Text
uboot_img = codes "u-boot"

abbrev pub kernel_img : Text
kernel_img = codes "uImage"

abbrev pub kernel_mods : Text
kernel_mods = codes "linux-kernel-modules.tar.gz"

abbrev pub root_fs_img : Text
root_fs_img = codes "rootfs.tar.gz"

abbrev pub mtd_utils : Text
mtd_utils = codes "mtd-utils.tar.gz"

abbrev pub rbf_name : Text
rbf_name = codes "cortex_a8.regigraf.1772.53.UNIVERSAL-last.rbf"

abbrev root_fs_tar_gz : Text
root_fs_tar_gz = codes "/tmp/rootfs.tar.gz"

unfoldable pub is_empty : Text → Bool
is_empty [] = true
is_empty (c ∷ cs) = false

-- The network of the board, in DownloadFromTFtp.
unfoldable pub init_network : Text → Action Unit
init_network mask = gets (λ w. get_hw_addr w.globals.sys_state) >>= λ hw.
    send_to_shell (codes "ifconfig eth0 up hw ether " ++ hw) false
    >> send_to_shell (codes "udhcpc") true
    >> (gets (λ w. w.globals.sys_inf.board_ip) >>= λ ip.
        send_to_shell
          (codes "ifconfig eth0 "
            ++ ip
            ++ codes " "
            ++ (if is_empty mask then [] else codes "netmask " ++ mask))
          false
        >> set_globals (λ g. record g { eth_is_ready = true }))

unfoldable pub needs_network : World → Bool
needs_network w =
    not w.globals.eth_is_ready && not (bytes_eq w.globals.shell_prompt regigraf_prompt)

-- DownloadFromTFtp
unfoldable pub download_from_tftp : Network → Text → Text → Action Bool
download_from_tftp tftpd request path =
    if is_empty tftpd.ip || is_empty request || is_empty path
    then pure false
    else (gets needs_network >>= λ needed. if needed then init_network tftpd.mask else pure tt)
      >> send_cmd (
          codes "tftp -l "
          ++ path
          ++ codes " -g -r "
          ++ request
          ++ codes " "
          ++ tftpd.ip
          ++ codes ":"
          ++ tftpd.port)
      >> (run_tftp >>& (gets (λ w. w.globals.shell_prompt) >>= λ prompt. parse_until prompt false))

-- UploadRootFsOverEth
unfoldable pub upload_root_fs_over_eth : Network → Action Bool
upload_root_fs_over_eth tftpd = download_from_tftp tftpd root_fs_img root_fs_tar_gz

-- One turn of the loop of MkUbiFsPartition: `true` when the volume could not be made.
unfoldable pub try_volume : ℕ → Text → ℕ → Action Bool
try_volume ubi_id vol_name size =
    set_info (λ inf. record inf { mk_part_fail = false })
    >> send_to_shell
        (codes "ubimkvol /dev/ubi"
          ++ decimal ubi_id
          ++ codes " -N "
          ++ vol_name
          ++ codes " -s "
          ++ decimal size)
        true
    >> gets (λ w. w.globals.sys_inf.mk_part_fail)

-- The loop, on fuel; `n` counts the tries, which get smaller sizes.
unfoldable pub volume_loop : ℕ → ℕ → ℕ → Text → ℕ → Action Bool
volume_loop zero n ubi_id vol_name max_size = waits
volume_loop (suc fuel) n ubi_id vol_name max_size = gets (λ w. w.vol_size n max_size) >>= λ size.
    try_volume ubi_id vol_name size >>= λ failed.
    if failed then volume_loop fuel (n + 1) ubi_id vol_name max_size else pure true

-- The size of a partition is the length of its area. A try that fails has read the console, so the
-- turns are fuel enough.
unfoldable pub make_volume : ℕ → Text → Option Partition → Action Bool
make_volume ubi_id vol_name none = pure false
make_volume ubi_id vol_name (some part) =
    send_to_shell (codes "ubidetach /dev/ubi_ctrl -d " ++ decimal ubi_id) false
    >> send_to_shell (codes "ubiformat /dev/mtd" ++ decimal part.mtd_id) false
    >> send_to_shell (codes "ubiattach /dev/ubi_ctrl -m " ++ decimal part.mtd_id) false
    >> λ w. volume_loop (suc (length w.turns)) 0 ubi_id vol_name (length_of part.area) w

-- MkUbiFsPartition
unfoldable pub mk_ubi_fs_partition : ℕ → Text → Action Bool
mk_ubi_fs_partition ubi_id vol_name =
    gets (λ w. find_partition vol_name w.globals.sys_inf.kernel.partitions) >>= λ part.
    make_volume ubi_id vol_name part

-- UnpackRootFs
unfoldable pub unpack_root_fs : Action Bool
unpack_root_fs =
    update_list_of_partitions
    >> send_to_shell (codes "umount /mnt/") false
    >> mk_ubi_fs_partition 0 (codes "rootfs")
    >> send_to_shell (codes "mount -t ubifs ubi0:rootfs /mnt/") false
    >> send_to_shell (codes "umount /mnt/home") false
    >> mk_ubi_fs_partition 1 (codes "storage")
    >> send_to_shell (codes "mkdir /mnt/home") false
    >> send_to_shell (codes "mount -t ubifs ubi1:storage /mnt/home") false
    >> send_to_shell (codes "gunzip /tmp/rootfs.tar.gz") false
    >> send_to_shell (codes "cd /mnt && tar xvf /tmp/rootfs.tar") false
    >> (gets (λ w. get_hw_addr w.globals.sys_state) >>= λ hw.
        set_info (λ inf. record inf { board_hw_addr = hw })
        >> send_to_shell (codes "echo " ++ hw ++ codes " > /mnt/etc/hwaddr") false
        >> send_to_shell (codes "sync") false
        >> pure true)

-- The two commands that unpack an archive, `path` without ".gz".
unfoldable pub unpack_archive : Text → Action Bool
unpack_archive path =
    send_to_shell (codes "gunzip " ++ path ++ codes ".gz") false
    >> send_to_shell (codes "tar xvf " ++ path ++ codes " -C /") false
    >> pure true

-- UploadAndInstallTools
unfoldable pub upload_and_install_tools : Network → Action Bool
upload_and_install_tools tftpd =
    download_from_tftp tftpd mtd_utils (codes "/tmp/" ++ mtd_utils)
    >>& unpack_archive (codes "/tmp/mtd-utils.tar")

-- UploadKernelModulesAndInstall
unfoldable pub upload_kernel_modules_and_install : Network → Action Bool
upload_kernel_modules_and_install tftpd =
    download_from_tftp tftpd kernel_mods (codes "/tmp/" ++ kernel_mods)
    >>& unpack_archive (codes "/tmp/linux-kernel-modules.tar")

-- The kernel in its partition, in UploadAndInstallKernel.
unfoldable pub install_kernel : Network → Option Partition → Action Bool
install_kernel tftpd none = pure false
install_kernel tftpd (some part) =
    send_to_shell
      (codes "mtd_debug erase /dev/mtd"
        ++ decimal part.mtd_id
        ++ codes " 0 0x"
        ++ hex (length_of part.area))
      false
    >> send_to_shell
        (codes "nandwrite -p /dev/mtd" ++ decimal part.mtd_id ++ codes " /tmp/" ++ kernel_img) false
    >> upload_kernel_modules_and_install tftpd

-- UploadAndInstallKernel
unfoldable pub upload_and_install_kernel : Network → Action Bool
upload_and_install_kernel tftpd =
    download_from_tftp tftpd kernel_img (codes "/tmp/" ++ kernel_img)
    >>& (update_list_of_partitions
        >> (gets (λ w. find_partition (codes "kernel") w.globals.sys_inf.kernel.partitions)
            >>= λ part. install_kernel tftpd part))

-- The boot loader in its partition, in UploadAndInstallUBoot.
unfoldable pub install_uboot : Option Partition → Action Bool
install_uboot none = pure false
install_uboot (some part) =
    send_to_shell
      (codes "flashcp -v /tmp/" ++ uboot_img ++ codes ".bin /dev/mtd" ++ decimal part.mtd_id) false
    >> (gets (λ w. w.globals.sys_state) >>= λ st.
        send_to_shell
          (codes "uboot_conf --if=/dev/mtd1 --of=/tmp/uboot.conf --lcd="
            ++ st.lcd_model
            ++ codes " --ts="
            ++ st.ts_model
            ++ codes " ")
          false
        >> send_to_shell (codes "uboot_conf --of=/dev/mtd1 --if=/tmp/uboot.conf --do=w") false
        >> (gets (λ w. w.time) >>= λ time.
            send_to_shell (codes "date -s '" ++ time ++ codes "'") false
            >> send_to_shell (codes "hwclock -w -f /dev/rtc0") false
            >> pure true))

-- UploadAndInstallUBoot
unfoldable pub upload_and_install_uboot : Network → Action Bool
upload_and_install_uboot tftpd =
    download_from_tftp tftpd (uboot_img ++ codes ".bin")
      (codes "/tmp/" ++ (uboot_img ++ codes ".bin"))
    >>& (update_list_of_partitions
        >> (gets (λ w. find_partition (codes "bootloader") w.globals.sys_inf.kernel.partitions)
            >>= λ part. install_uboot part))

-- UploadAndInstallPacket
unfoldable pub upload_and_install_packet : Network → Text → Action Bool
upload_and_install_packet tftpd ipk_name =
    download_from_tftp tftpd ipk_name (codes "/tmp/" ++ ipk_name)
    >>& (send_to_shell (codes "ipkg-cl install /tmp/" ++ ipk_name) false >> pure true)

-- UpdateListOfPackets
unfoldable pub update_list_of_packets : Action Bool
update_list_of_packets =
    set_info (λ inf. record inf { packets = [] })
    >> send_to_shell (codes "ipkg-cl list_installed") true
    >> pure true

-- LoginToRegiboard
unfoldable pub login_to_regiboard : Action Bool
login_to_regiboard = switch_shell regigraf_prompt >> send_to_shell (codes "root") false >> pure true

-- SetupRegigrafLicense
unfoldable pub setup_regigraf_license : Network → Text → Action Bool
setup_regigraf_license tftpd path =
    download_from_tftp tftpd (codes "license.xml") (path ++ codes "license.xml")

-- UploadAndInstallRegigraf
unfoldable pub upload_and_install_regigraf : Network → Action Bool
upload_and_install_regigraf tftpd =
    send_to_shell (codes "mount -t ubifs ubi0:rootfs /mnt") false
    >> send_to_shell (codes "mount --move /sys  /mnt/sys") false
    >> send_to_shell (codes "mount --move /proc /mnt/proc") false
    >> send_to_shell (codes "mount --move /dev  /mnt/dev") false
    >> send_to_shell (codes "mount --move /tmp  /mnt/tmp") false
    >> send_cmd (codes "exec switch_root /mnt /sbin/init")
    >> (parse_until regigraf_login false
        >>& (login_to_regiboard
            >> send_to_shell (codes "mount -t ubifs ubi1:storage /home") false
            >> upload_and_install_packet tftpd (codes "++DFB.ipk")
            >> upload_and_install_packet tftpd (codes "regirfb.ipk")
            >> upload_and_install_packet tftpd (codes "regisetup.ipk")
            >> upload_and_install_packet tftpd (codes "regigraf.ipk")
            >> update_list_of_packets
            >> setup_regigraf_license tftpd (codes "/home/regigraf/")))

-- UploadAndInstallFirmware
unfoldable pub upload_and_install_firmware : Network → Action Bool
upload_and_install_firmware tftpd =
    download_from_tftp tftpd rbf_name (codes "/tmp/" ++ rbf_name)
    >>& (send_to_shell
          (codes "/home/regigraf/regiunpacker --file /tmp/"
            ++ rbf_name
            ++ codes " --exe 'ipkg-cl update && ipkg-cl upgrade'")
          false
        >> update_list_of_packets
        >> pure true)

-- SetupBooting
unfoldable pub setup_booting : Action Bool
setup_booting =
    send_to_shell (codes "rb_fuses_imx53v2_spi_flash.sh") false
    >> send_cmd (codes "reboot")
    >> (parse_until regigraf_login false >>& pure true)

-- UploadKernelAndDebug
unfoldable pub upload_kernel_and_debug : Network → Text → Text → Action Bool
upload_kernel_and_debug tftpd srv_ip pswd =
    wait_for_welcome pswd
    >>& (send_to_uboot (codes "setenv dyndbg 'file i2c-imx.c +p'") false
        >> (upload_kernel_over_eth srv_ip pswd >>& upload_kernel_modules_and_install tftpd))
