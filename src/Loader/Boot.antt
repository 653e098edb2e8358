-- ===== src/Loader/Boot.antt =====
-- src/utils/regiloader/regiloader.cpp up to a kernel that runs: the boot loader over the serial download
-- protocol, its console, the kernel by YModem or by TFTP.
use regiboard.Base.{
  ℕ, zero, suc, List, [], ◌∷◌, ◌++◌, Option, none, some, Bool, true, false, ◌&&◌, not,
  if◌then◌else◌, length, get_or,
}
use regiboard.Base.Text.{Text, codes, decimal}
use regiboard.Sdp.Commands.{
  Command, status, complete, write_mem, read_mem, write_file, word, Firmware,
}
use regiboard.Sdp.Image.{DcdPair, DcdCmd, new_image, init_header, firmware_of}
use regiboard.Sdp.Link as SdpLink
use regiboard.Loader.State.{
  World, Result, ok, waits, crash, Action, pure, ◌>>=◌, ◌>>◌, ◌>>&◌, gets, ask, set_globals,
  set_info, send_file, run_server, wait_key,
}
use regiboard.Loader.Console.{send_cmd, skip_lines, parse_until, send_to_uboot, send_to_shell}

-- A call of Send of a packet, by what it ends with.
unfoldable pub sent : SdpLink.Sent → World → Result (Bool × ℕ)
sent SdpLink.unfinished w = waits w
sent SdpLink.null_read w = crash
sent (SdpLink.done b value l) w = ok (b, value) (record w { link = l })

-- The attempts that the world brings for one call.
unfoldable pub with_attempts :
    (List SdpLink.Attempt → SdpLink.Link → SdpLink.Sent)
    → List (List SdpLink.Attempt)
    → World
    → Result (Bool × ℕ)
with_attempts f [] w = waits w
with_attempts f (now ∷ rest) w = sent (f now w.link) (record w { attempts = rest })

-- SdpPacket::Send with a number of tries.
unfoldable pub send_packet : ℕ → Command → Action Bool
send_packet tries c w =
    (with_attempts (λ now. SdpLink.send_again tries now c) w.attempts >>= λ r. pure r.0) w

-- SdpPacket::Send, once.
unfoldable pub first_attempt : Command → List SdpLink.Attempt → SdpLink.Link → SdpLink.Sent
first_attempt c [] l = SdpLink.unfinished
first_attempt c (a ∷ more) l = SdpLink.send a.is_open a.count a.old a.tries c l

unfoldable pub send_once : Command → Action (Bool × ℕ)
send_once c w = with_attempts (first_attempt c) w.attempts w

-- UploadDCD: the value that is read back decides between `continue` and `break` in a loop of one turn.
unfoldable pub upload_pairs : List DcdPair → Action Unit
upload_pairs [] = pure tt
upload_pairs (p ∷ ps) =
    send_once (write_mem p.addr p.val_mask) >> send_once (read_mem p.addr word) >> upload_pairs ps

unfoldable pub upload_dcd : List DcdCmd → Action Bool
upload_dcd [] = pure true
upload_dcd (c ∷ cs) = upload_pairs c.pairs >> upload_dcd cs

-- ImxFirmware::LoadFromFile, with what PktWriteF and UploadDCD take from the firmware.
unfoldable pub load_from_file : ℕ → Option (List ℕ) → Firmware × List DcdCmd
load_from_file beyond none = (record { has_boot = false; self_ptr = none; contents = none }, [])
load_from_file beyond (some bytes) =
    let m = λ (i : ℕ). get_or bytes i beyond in
    let img = init_header m new_image in (firmware_of m bytes img, img.dcd.cmd_list)

-- UploadUBoot
unfoldable pub upload_uboot : Text → Action Bool
upload_uboot file =
    send_packet 3 status
    >>& (gets (λ w. load_from_file w.beyond (w.files file)) >>= λ firm.
        upload_dcd firm.1 >> (send_packet 3 (write_file (some firm.0)) >>& send_packet 3 complete))

-- The part of WaitForWelcomeFromUBoot behind the greeting: the password, and the second save of the
-- environment.
unfoldable pub enter_uboot : Text → Action Bool
enter_uboot [] = send_to_uboot [] false >> pure true
enter_uboot (c ∷ pswd) =
    send_cmd []
    >> (parse_until (codes "Enter password:") false
        >>& (send_to_uboot (c ∷ pswd) false >> pure true))

unfoldable pub greet_uboot : Text → Action Bool
greet_uboot pswd =
    parse_until (codes "Hit any key to stop autoboot") true
    >>& (set_globals (λ g. record g { already_has_been = true })
        >> (enter_uboot pswd
            >>& (gets (λ w. w.globals.sys_inf.wait_for_reboot) >>= λ reboot.
                if reboot then send_to_uboot (codes "save") true >> pure true else pure true)))

-- WaitForWelcomeFromUBoot, which does nothing when the console has been entered before.
unfoldable pub wait_for_welcome : Text → Action Bool
wait_for_welcome pswd =
    gets (λ w. w.globals.already_has_been && not w.globals.sys_inf.wait_for_reboot) >>= λ entered.
    if entered then pure true else greet_uboot pswd

-- SetupNor: true when the board has to be switched off and on, after the operator has done so.
unfoldable pub setup_nor : Text → Action Bool
setup_nor pswd =
    wait_for_welcome pswd
    >>& (send_to_uboot (codes "usedefenv") true
        >> send_to_uboot (codes "save") true
        >> (gets (λ w. w.globals.sys_inf.wait_for_reboot) >>= λ reboot.
            if reboot then wait_key >> pure true else pure false))

-- UploadKernelBegin
unfoldable pub upload_kernel_begin : Text → Action Bool
upload_kernel_begin pswd =
    wait_for_welcome pswd
    >>& (set_info
          (λ inf. record inf { kernel = record (inf.kernel) { partitions = []; usb_uart = [] } })
        >> (gets (λ w. w.globals.sys_inf.boot_from_nand) >>= λ nand.
            (if nand then pure true else send_to_uboot (codes "setenv nandroot") true)
            >> send_to_uboot (codes "run conf_hw") true
            >> send_to_uboot (codes "run bootargs_nand") true
            >> pure true))

abbrev pub ram_fs_prompt : Text
ram_fs_prompt = codes "(.*)regiboard \\(initramfs\\)"

-- UploadKernelEnd
unfoldable pub upload_kernel_end : Action Bool
upload_kernel_end =
    set_globals (λ g. record g {
      eth_is_ready = false;
      already_has_been = false;
      parts_are_ready = false;
      shell_prompt = ram_fs_prompt;
    })
    >> (parse_until
          (codes
            "\\[([^\\]]+)\\] usb 2-1.3: FTDI USB Serial Device converter now attached to ttyUSB11")
          true
        >>& (set_info (λ inf. record inf {
          kernel = record (inf.kernel) { usb_uart = inf.kernel.usb_uart ++ codes "ttyUSB11" ∷ [] };
        })
            >> skip_lines 10
            >> send_to_shell [] false
            >> pure true))

-- UploadKernelOverUart; what YModem::SendFile returns is not looked at.
unfoldable pub upload_kernel_over_uart : Text → Text → Action Bool
upload_kernel_over_uart file pswd =
    upload_kernel_begin pswd
    >>& (send_cmd (codes "loady ${loadaddr} 115200; bootm ${loadaddr}")
        >> skip_lines 2
        >> ask (send_file file)
        >> upload_kernel_end)

-- TFtp::Server::Run, with the next result that the world brings.
unfoldable pub next_run : List Bool → World → Result Bool
next_run [] w = waits w
next_run (b ∷ bs) w = ok b (record w { runs = bs })

unfoldable pub run_tftp : Action Bool
run_tftp = ask run_server >> λ w. next_run w.runs w

unfoldable pub set_upload_fail : Bool → Action Unit
set_upload_fail b = set_info (λ inf. record inf { upload_fail = b })

-- One turn of the loop of UploadKernelOverEth: `true` when the kernel could not be loaded.
unfoldable pub try_kernel : Text → Text → Action Bool
try_kernel ip pswd =
    set_upload_fail false
    >> send_to_uboot (codes "setenv tftpdstp " ++ decimal 6969) false
    >> send_cmd (codes "dhcp ${loadaddr} " ++ ip ++ codes ":uImage; bootm ${loadaddr}")
    >> (run_tftp >>= λ served.
        (if served then pure tt else set_upload_fail true)
        >> gets (λ w. w.globals.sys_inf.upload_fail))

-- The loop, on fuel.
unfoldable pub upload_kernel_loop : ℕ → Text → Text → Action Bool
upload_kernel_loop zero ip pswd = waits
upload_kernel_loop (suc fuel) ip pswd =
    upload_kernel_begin pswd
    >>& (try_kernel ip pswd >>= λ failed.
        if failed then upload_kernel_loop fuel ip pswd else upload_kernel_end)

-- UploadKernelOverEth. Every turn of the loop takes a result of the server, so these are fuel enough.
unfoldable pub upload_kernel_over_eth : Text → Text → Action Bool
upload_kernel_over_eth ip pswd w = upload_kernel_loop (suc (length w.runs)) ip pswd w

-- UploadKernelWithOldSys
unfoldable pub upload_kernel_with_old_sys : Text → Text → Action Bool
upload_kernel_with_old_sys ip pswd =
    wait_for_welcome pswd
    >>& (set_info (λ inf. record inf { boot_from_nand = true }) >> upload_kernel_over_eth ip pswd)
