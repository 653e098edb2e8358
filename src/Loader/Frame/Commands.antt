-- ===== src/Loader/Frame/Commands.antt =====
-- The console of src/utils/regiloader/regiloader.cpp keeps to the frame.
use regiboard.Base.{
  ℕ, zero, suc, ◌≡◌, refl, ◌∙◌, Bool, true, false, List, [], ◌∷◌, Option, none, some,
}
use regiboard.Base.Text.{Text}
use regiboard.Loader.Asio.{Event, Reader}
use regiboard.Loader.State.{
  World, Globals, SysInfo, Call, ask, set_globals, set_info, next_key, read_key, wait_key,
}
use regiboard.Loader.Console.{
  send_cmd, read_turns, read_byte, skip_loop, skip_lines, fill_with, fill_line, take_line,
  parse_loop, parse_until, send_to, send_to_uboot, send_to_shell, switch_shell,
  update_list_of_partitions,
}
use regiboard.Loader.Frame.{Frame, Keeps, Within, Frame-refl, Keeps-modify, keeps_rules}

pub ask-Keeps : (c : Call) → Keeps (ask c)
ask-Keeps c = Keeps-modify (λ w. record { counters = refl; failure = λ h. h })

pub set_info-Keeps : (f : SysInfo → SysInfo) → Keeps (set_info f)
set_info-Keeps f = Keeps-modify (λ w. record { counters = refl; failure = λ h. h })

next_key-Within : (ks : List ℕ) (w : World) → Within w (next_key ks w)
next_key-Within [] w = Frame-refl w
next_key-Within (k ∷ ks) w = record { counters = refl; failure = λ h. h }

pub read_key-Keeps : Keeps read_key
read_key-Keeps = record { within = λ w. next_key-Within w.answers w }

pub wait_key-Keeps : Keeps wait_key
wait_key-Keeps = search (keeps_rules, ask-Keeps, read_key-Keeps)

pub send_cmd-Keeps : (cmd : Text) → Keeps (send_cmd cmd)
unfolding send_cmd
send_cmd-Keeps cmd = ask-Keeps _

read_turns-Within :
    (r : Option (Reader × List (List Event))) (w : World) → Within w (read_turns r w)
unfolding read_turns
read_turns-Within none w = Frame-refl w
read_turns-Within (some (r, turns)) w = record { counters = refl; failure = λ h. h }

read_byte-Keeps : (tries buff : ℕ) → Keeps (read_byte tries buff)
unfolding read_byte
read_byte-Keeps tries buff = record { within = λ w. read_turns-Within _ w }

skip_loop-Keeps : (fuel limit lines resp : ℕ) → Keeps (skip_loop fuel limit lines resp)
unfolding skip_loop
skip_loop-Keeps zero limit lines resp = search keeps_rules
skip_loop-Keeps (suc fuel) limit lines resp =
    let ih = skip_loop-Keeps fuel limit in search (keeps_rules, read_byte-Keeps, ih)

pub skip_lines-Keeps : (limit : ℕ) → Keeps (skip_lines limit)
unfolding skip_lines
skip_lines-Keeps limit = record { within = λ w. (skip_loop-Keeps _ limit 0 0).within w }

fill_with-Within : (inf : Option SysInfo) (w : World) → Within w (fill_with inf w)
unfolding fill_with
fill_with-Within none w = tt
fill_with-Within (some inf) w = record { counters = refl; failure = λ h. h }

fill_line-Keeps : (str : Text) → Keeps (fill_line str)
unfolding fill_line
fill_line-Keeps str = record { within = λ w. fill_with-Within _ w }

take_line-Keeps : (kept : Bool) (str : Text) → Keeps (take_line kept str)
unfolding take_line
take_line-Keeps false str = search keeps_rules
take_line-Keeps true str = fill_line-Keeps str

pub set_globals-Keeps :
    (f : Globals → Globals)
    → ((g : Globals) → (f g).sys_state ≡ g.sys_state)
    → ((g : Globals) → (f g).parse_timeout_fail ≡ g.parse_timeout_fail)
    → Keeps (set_globals f)
set_globals-Keeps f same_counters same_mark =
    Keeps-modify
      (λ w. record { counters = same_counters w.globals; failure = λ h. same_mark w.globals ∙ h })

mark-Keeps : Keeps (set_globals (λ g. record g { parse_timeout_fail = true }))
mark-Keeps = Keeps-modify (λ w. record { counters = refl; failure = λ h. refl })

parse_loop-Keeps :
    (fuel : ℕ) (wait_for : Text) (kept : Bool) (str : Text) (total resp : ℕ)
    → Keeps (parse_loop fuel wait_for kept str total resp)
unfolding parse_loop
parse_loop-Keeps zero wait_for kept str total resp = search keeps_rules
parse_loop-Keeps (suc fuel) wait_for kept str total resp =
    let ih = parse_loop-Keeps fuel wait_for kept in
    search (keeps_rules, read_byte-Keeps, take_line-Keeps, mark-Keeps, ih) depth 9

pub parse_until-Keeps : (wait_for : Text) (kept : Bool) → Keeps (parse_until wait_for kept)
unfolding parse_until
parse_until-Keeps wait_for kept = record {
  within = λ w. (parse_loop-Keeps _ wait_for kept [] 0 0).within w;
}

send_to-Keeps : (prompt cmd : Text) (kept : Bool) → Keeps (send_to prompt cmd kept)
unfolding send_to
send_to-Keeps prompt cmd kept = search (keeps_rules, send_cmd-Keeps, parse_until-Keeps)

pub send_to_uboot-Keeps : (cmd : Text) (kept : Bool) → Keeps (send_to_uboot cmd kept)
unfolding send_to_uboot
send_to_uboot-Keeps cmd kept = send_to-Keeps _ cmd kept

pub send_to_shell-Keeps : (cmd : Text) (kept : Bool) → Keeps (send_to_shell cmd kept)
unfolding send_to_shell
send_to_shell-Keeps cmd kept = search (keeps_rules, send_to-Keeps)

pub switch_shell-Keeps : (prompt : Text) → Keeps (switch_shell prompt)
unfolding switch_shell
switch_shell-Keeps prompt = set_globals-Keeps _ (λ g. refl) (λ g. refl)

pub update_list_of_partitions-Keeps : Keeps update_list_of_partitions
unfolding update_list_of_partitions
update_list_of_partitions-Keeps = search (keeps_rules, send_to_shell-Keeps, set_globals-Keeps)

pub ruleset console_rules = (
  keeps_rules, refl, set_globals-Keeps, ask-Keeps, set_info-Keeps, read_key-Keeps, send_cmd-Keeps,
  skip_lines-Keeps, parse_until-Keeps, send_to_uboot-Keeps, send_to_shell-Keeps, switch_shell-Keeps,
  update_list_of_partitions-Keeps,
)
