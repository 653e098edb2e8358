-- ===== src/Loader/Frame/Booting.antt =====
-- The boot loader and the kernel in src/utils/regiloader/regiloader.cpp keep to the frame.
use regiboard.Base.{ℕ, zero, suc, refl, Bool, List, [], ◌∷◌}
use regiboard.Base.Text.{Text}
use regiboard.Sdp.Link as SdpLink
use regiboard.Sdp.Commands.{Command}
use regiboard.Sdp.Image.{DcdPair, DcdCmd}
use regiboard.Loader.State.{World, run_server}
use regiboard.Loader.Boot.{
  sent, with_attempts, send_packet, send_once, upload_pairs, upload_dcd, upload_uboot, enter_uboot,
  greet_uboot, wait_for_welcome, setup_nor, upload_kernel_begin, upload_kernel_end,
  upload_kernel_over_uart, next_run, run_tftp, set_upload_fail, try_kernel, upload_kernel_loop,
  upload_kernel_over_eth, upload_kernel_with_old_sys,
}
use regiboard.Loader.Frame.{
  Keeps, Within, Frame-refl, Keeps-bind, Keeps-if, Keeps-pure, keeps_rules,
}
use regiboard.Loader.Frame.Commands.{console_rules, ask-Keeps}

sent-Within : (s : SdpLink.Sent) (w : World) → Within w (sent s w)
unfolding sent
sent-Within SdpLink.unfinished w = Frame-refl w
sent-Within SdpLink.null_read w = tt
sent-Within (SdpLink.done b value l) w = record { counters = refl; failure = λ h. h }

with_attempts-Within :
    (f : List SdpLink.Attempt → SdpLink.Link → SdpLink.Sent) (l : List (List SdpLink.Attempt))
    (w : World)
    → Within w (with_attempts f l w)
unfolding with_attempts sent
with_attempts-Within f [] w = Frame-refl w
with_attempts-Within f (now ∷ rest) w = of_sent (f now w.link)
  where
    of_sent : (s : SdpLink.Sent) → Within w (sent s (record w { attempts = rest }))
    of_sent SdpLink.unfinished = record { counters = refl; failure = λ h. h }
    of_sent SdpLink.null_read = tt
    of_sent (SdpLink.done b value l) = record { counters = refl; failure = λ h. h }

send_once-Keeps : (c : Command) → Keeps (send_once c)
unfolding send_once
send_once-Keeps c = record { within = λ w. with_attempts-Within _ w.attempts w }

send_packet-Keeps : (tries : ℕ) (c : Command) → Keeps (send_packet tries c)
unfolding send_packet
send_packet-Keeps tries c = record {
  within = λ w.
      (Keeps-bind {m = λ v. with_attempts _ w.attempts v}
          (record { within = λ v. with_attempts-Within _ w.attempts v }) (λ r. Keeps-pure)).within
        w;
}

upload_pairs-Keeps : (ps : List DcdPair) → Keeps (upload_pairs ps)
unfolding upload_pairs
upload_pairs-Keeps [] = search keeps_rules
upload_pairs-Keeps (p ∷ ps) =
    Keeps-bind (Keeps-bind (send_once-Keeps _) (λ a. send_once-Keeps _))
      (λ a. upload_pairs-Keeps ps)

upload_dcd-Keeps : (cs : List DcdCmd) → Keeps (upload_dcd cs)
unfolding upload_dcd
upload_dcd-Keeps [] = search keeps_rules
upload_dcd-Keeps (c ∷ cs) = Keeps-bind (upload_pairs-Keeps c.pairs) (λ a. upload_dcd-Keeps cs)

pub upload_uboot-Keeps : (file : Text) → Keeps (upload_uboot file)
unfolding upload_uboot
upload_uboot-Keeps file = search (keeps_rules, send_packet-Keeps, upload_dcd-Keeps) depth 9

enter_uboot-Keeps : (pswd : Text) → Keeps (enter_uboot pswd)
unfolding enter_uboot
enter_uboot-Keeps [] = search console_rules
enter_uboot-Keeps (c ∷ pswd) = search console_rules depth 9

pub wait_for_welcome-Keeps : (pswd : Text) → Keeps (wait_for_welcome pswd)
unfolding wait_for_welcome greet_uboot
wait_for_welcome-Keeps pswd = search (console_rules, enter_uboot-Keeps) depth 15

pub setup_nor-Keeps : (pswd : Text) → Keeps (setup_nor pswd)
unfolding setup_nor
setup_nor-Keeps pswd = search (console_rules, wait_for_welcome-Keeps) depth 15

upload_kernel_begin-Keeps : (pswd : Text) → Keeps (upload_kernel_begin pswd)
unfolding upload_kernel_begin
upload_kernel_begin-Keeps pswd = search (console_rules, wait_for_welcome-Keeps) depth 15

upload_kernel_end-Keeps : Keeps upload_kernel_end
unfolding upload_kernel_end
upload_kernel_end-Keeps = search console_rules depth 15

pub upload_kernel_over_uart-Keeps : (file pswd : Text) → Keeps (upload_kernel_over_uart file pswd)
unfolding upload_kernel_over_uart
upload_kernel_over_uart-Keeps file pswd =
    search (console_rules, upload_kernel_begin-Keeps, upload_kernel_end-Keeps) depth 9

next_run-Within : (runs : List Bool) (w : World) → Within w (next_run runs w)
unfolding next_run
next_run-Within [] w = Frame-refl w
next_run-Within (b ∷ bs) w = record { counters = refl; failure = λ h. h }

next_run-Keeps : Keeps (λ w. next_run w.runs w)
next_run-Keeps = record { within = λ w. next_run-Within w.runs w }

pub run_tftp-Keeps : Keeps run_tftp
unfolding run_tftp
run_tftp-Keeps = Keeps-bind (ask-Keeps run_server) (λ a. next_run-Keeps)

try_kernel-Keeps : (ip pswd : Text) → Keeps (try_kernel ip pswd)
unfolding try_kernel set_upload_fail
try_kernel-Keeps ip pswd = search (console_rules, run_tftp-Keeps) depth 12

upload_kernel_loop-Keeps : (fuel : ℕ) (ip pswd : Text) → Keeps (upload_kernel_loop fuel ip pswd)
unfolding upload_kernel_loop
upload_kernel_loop-Keeps zero ip pswd = search keeps_rules
upload_kernel_loop-Keeps (suc fuel) ip pswd =
    let again = upload_kernel_loop-Keeps fuel ip pswd in
    Keeps-bind (upload_kernel_begin-Keeps pswd) (λ b.
      Keeps-if b _ _
        (Keeps-bind (try_kernel-Keeps ip pswd)
          (λ failed. Keeps-if failed _ _ again upload_kernel_end-Keeps))
        Keeps-pure)

pub upload_kernel_over_eth-Keeps : (ip pswd : Text) → Keeps (upload_kernel_over_eth ip pswd)
unfolding upload_kernel_over_eth
upload_kernel_over_eth-Keeps ip pswd = record {
  within = λ w. (upload_kernel_loop-Keeps _ ip pswd).within w;
}

pub upload_kernel_with_old_sys-Keeps : (ip pswd : Text) → Keeps (upload_kernel_with_old_sys ip pswd)
unfolding upload_kernel_with_old_sys
upload_kernel_with_old_sys-Keeps ip pswd =
    search (console_rules, wait_for_welcome-Keeps, upload_kernel_over_eth-Keeps) depth 9
