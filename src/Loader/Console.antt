-- ===== src/Loader/Console.antt =====
-- The console of the board in src/utils/regiloader/regiloader.cpp: commands that are sent, and what is
-- read up to a prompt.
pub mod Lines
pub mod Skipping
pub mod Fuel
use regiboard.Base.{
  ℕ, zero, suc, ◌+◌, ◌-◌, List, [], ◌∷◌, ◌++◌, Option, none, some, Bool, true, false, ◌==◌, ◌||◌,
  not, if◌then◌else◌, ltb, leb, length,
}
use regiboard.Base.Text.{Text, codes}
use regiboard.Loader.Asio.{Event, Reader, reading_was_failed}
use regiboard.Loader.Asio
use regiboard.Loader.State.{
  World, Globals, SysInfo, Call, Result, ok, waits, crash, Action, pure, ◌>>=◌, ◌>>◌, ◌>>&◌, gets,
  modify, ask, set_globals, set_info, write,
}
use regiboard.Loader.Info.{parse_test, fill_in_sys_info}

abbrev pub uboot_prompt : Text
uboot_prompt = codes "Regiboard U-Boot >"

-- SendCmd
unfoldable pub send_cmd : Text → Action Unit
send_cmd cmd = ask (write (cmd ++ codes "\r"))

-- A read of one byte by an object with `tries` tries, into a buffer that holds `buff`.
unfoldable pub read_turns : Option (Reader × List (List Event)) → World → Result Reader
read_turns none w = waits w
read_turns (some (r, turns)) w = ok r (record w { turns = turns })

unfoldable pub read_byte : ℕ → ℕ → Action Reader
read_byte tries buff w = read_turns (Asio.read tries buff w.turns) w

abbrev is_cr : ℕ → Bool
is_cr b = b == 0x0D

-- The loop of SkipLines, on fuel; `resp` keeps its byte when nothing is read.
unfoldable pub skip_loop : ℕ → ℕ → ℕ → ℕ → Action Unit
skip_loop zero limit lines resp = waits
skip_loop (suc fuel) limit lines resp = read_byte 1 resp >>= λ r.
    (let lines' = if is_cr r.buff then lines + 1 else lines in
      if ltb lines' limit then skip_loop fuel limit lines' r.buff else pure tt)

-- SkipLines. Every read takes a turn, so the turns are fuel enough.
unfoldable pub skip_lines : ℕ → Action Unit
skip_lines limit w = skip_loop (suc (length w.turns)) limit 0 0 w

-- What ParseUntil does with a line: `kept` says whether it has a SysInfo to fill in.
unfoldable pub fill_with : Option SysInfo → World → Result Unit
fill_with none w = crash
fill_with (some inf) w = ok tt (record w { globals = record (w.globals) { sys_inf = inf } })

unfoldable pub fill_line : Text → Action Unit
fill_line str w = fill_with (fill_in_sys_info w.regex w.unset_id str w.globals.sys_inf) w

unfoldable pub take_line : Bool → Text → Action Unit
take_line false str = pure tt
take_line true str = fill_line str

-- The loop of ParseUntil, on fuel; `resp` holds what the buffer holds.
unfoldable pub parse_loop : ℕ → Text → Bool → Text → ℕ → ℕ → Action Bool
parse_loop zero wait_for kept str total resp = waits
parse_loop (suc fuel) wait_for kept str total resp = read_byte 10 resp >>= λ r.
    (if reading_was_failed 10 r
      then set_globals (λ g. record g { parse_timeout_fail = true }) >> pure false
      else if (r.buff == 0x0A) || ltb 256 total
      then take_line kept str >> parse_loop fuel wait_for kept [] 0 r.buff
      else if is_cr r.buff
      then parse_loop fuel wait_for kept str total r.buff
      else let str' = str ++ r.buff ∷ [] in
        gets (λ w. parse_test w.regex str' (wait_for ++ codes "(.*)")) >>= λ found.
        if found then pure true else parse_loop fuel wait_for kept str' (total + 1) r.buff)

-- ParseUntil. Every read takes a turn, so the turns are fuel enough.
unfoldable pub parse_until : Text → Bool → Action Bool
parse_until wait_for kept w = parse_loop (suc (length w.turns)) wait_for kept [] 0 0 w

-- SendToUBoot and SendToShell send nothing after a read that has failed.
unfoldable pub send_to : Text → Text → Bool → Action Bool
send_to prompt cmd kept = gets (λ w. w.globals.parse_timeout_fail) >>= λ failed.
    if failed then pure false else send_cmd cmd >> parse_until prompt kept

unfoldable pub send_to_uboot : Text → Bool → Action Bool
send_to_uboot cmd kept = send_to uboot_prompt cmd kept

unfoldable pub send_to_shell : Text → Bool → Action Bool
send_to_shell cmd kept = gets (λ w. w.globals.shell_prompt) >>= λ prompt. send_to prompt cmd kept

-- SwitchShell
unfoldable pub switch_shell : Text → Action Unit
switch_shell prompt = set_globals (λ g. record g { shell_prompt = prompt })

-- UpdateListOfPartitions
unfoldable pub update_list_of_partitions : Action Unit
update_list_of_partitions = gets (λ w. w.globals.parts_are_ready) >>= λ ready.
    if ready
    then pure tt
    else send_to_shell (codes "cat /proc/mtd") true
      >> set_globals (λ g. record g { parts_are_ready = true })
