-- ===== src/Loader/Info.antt =====
-- Parse and FillInSysInfo of src/utils/regiloader/regiloader.cpp: what a line of the board's console
-- tells. boost::regex_match is the argument `rx`, from a text and an expression to the groups.
use regiboard.Base.{
  ℕ, ◌+◌, ◌-◌, ◌*◌, ◌%◌, ◌^◌, List, [], ◌∷◌, ◌++◌, Option, none, some, Bool, true, false,
  if◌then◌else◌, ltb, leb, length, get_or,
}
use mathlib.Core.Option.{map}
use regiboard.Base.Text.{Text, codes}
use regiboard.Loader.State.{
  Range, Package, Partition, PeripheralsInfo, SysInfo, find_partition, set_mtd_id,
}

-- A group of a match, which is empty if the match has fewer.
abbrev pub group : List Text → ℕ → Text
group gs id = get_or gs id []

unfoldable pub matched : Option (List Text) → Text → ℕ → Text
matched none old id = old
matched (some gs) old id = group gs id

-- Parse into a text: one that is there is kept.
unfoldable pub parse_text : (Text → Text → Option (List Text)) → Text → Text → ℕ → Text → Text
parse_text rx str exp id [] = matched (rx str exp) [] id
parse_text rx str exp id (c ∷ old) = c ∷ old

-- `if (Parse(...)) { ... return true; }` in front of the rest.
unfoldable pub on : {R : Type 0} → Option (List Text) → (List Text → R) → R → R
on none f rest = rest
on (some gs) f rest = f gs

-- Parse with no text for a result.
unfoldable pub parse_test : (Text → Text → Option (List Text)) → Text → Text → Bool
parse_test rx str exp = on (rx str exp) (λ gs. true) false

-- std::stoull and std::stoi of digits; they throw when the number is too large.
unfoldable pub digit_value : ℕ → ℕ
digit_value c = if leb b'a' c then c - 87 else c - 48

unfoldable pub number_loop : ℕ → Text → ℕ → ℕ
number_loop base [] acc = acc
number_loop base (c ∷ cs) acc = number_loop base cs (acc * base + digit_value c)

unfoldable pub bounded : ℕ → ℕ → Option ℕ
bounded limit n = if ltb n limit then some n else none

unfoldable pub number : ℕ → ℕ → Text → Option ℕ
number base limit text = bounded limit (number_loop base text 0)

-- The lines of the boot loader.
unfoldable pub fill_boot : (Text → Text → Option (List Text)) → Text → SysInfo → SysInfo
fill_boot rx str inf = record inf {
  board = parse_text rx str (codes "Board:(\\s*)(.+)") 2 inf.board;
  u_boot_build = parse_text rx str (codes "U-Boot(\\s*)(.+)") 2 inf.u_boot_build;
  cpu = parse_text rx str (codes "CPU:(\\s*)(.+)") 2 inf.cpu;
  ddr = parse_text rx str (codes "ddr clock([^:]*): (.+)") 2 inf.ddr;
  dram_size = parse_text rx str (codes "DRAM:(\\s*)(.+)") 2 inf.dram_size;
  nand = parse_text rx str (codes "Description([^:]*): (.+)") 2 inf.nand;
  nand_size = parse_text rx str (codes "Chip Size([^:]*): (.+)") 2 inf.nand_size;
  sd_mmc = parse_text rx str (codes "MMC:(\\s*)([^:]+)(.*)") 2 inf.sd_mmc;
  eth = parse_text rx str (codes "FEC0(.*)") 0 inf.eth;
  loadaddr = parse_text rx str (codes "loadaddr=(.+)") 1 inf.loadaddr;
}

-- The version of the kernel, from a line that has it.
unfoldable pub fill_kernel : (Text → Text → Option (List Text)) → Text → Text → SysInfo → SysInfo
fill_kernel rx str kernel_ver inf =
    let kernel_builder = parse_text rx str (codes "(.+)\\(([a-z@A-Z]+)\\) \\(gcc(.+)") 2 [] in
    let kernel_build_dt = parse_text rx str (codes "(.+)PREEMPT (.*)") 2 [] in
    record inf {
      gcc_ver = parse_text rx str (codes "(.+)gcc version (.+) \\(prerelease\\)(.+)") 2 inf.gcc_ver;
      ct_ng_ver = parse_text rx str (codes "(.+)crosstool-NG ([^\\)]+)\\)(.+)") 2 inf.ct_ng_ver;
      kernel_build =
          kernel_ver ++ codes " (" ++ kernel_builder ++ codes ": " ++ kernel_build_dt ++ codes ")";
    }

-- The NOR memory: a model that is there already is not parsed again.
unfoldable pub on_nor :
    (Text → Text → Option (List Text)) → Text → SysInfo → Option SysInfo → Option SysInfo
on_nor rx str inf rest =
    if ltb 0 (length inf.nor)
    then rest
    else on (rx str (codes "(.+)mxc_dataflash spi([^\\:]+): ([a-zA-Z0-9]+)(.+)"))
        (λ gs. some (record inf {
          nor = group gs 3;
          nor_size = parse_text rx str (codes "(.+)\\(([^\\)]+)\\) pagesize(.+)") 2 inf.nor_size;
        }))
        rest

unfoldable pub fill_devices : (Text → Text → Option (List Text)) → Text → SysInfo → SysInfo
fill_devices rx str inf = record inf {
  kernel = record (inf.kernel) {
    ts = parse_text rx str (codes "(.+)input: ([^ ]+) Touchscreen as (.+)") 2 inf.kernel.ts;
    lcd = parse_text rx str (codes "(.+)Regiboard LCD setup: (.+)") 2 inf.kernel.lcd;
    rtc =
        parse_text rx str (codes "(.+)rtc-([^:]+): rtc core: registered ([^ ]+) as rtc0") 3
          inf.kernel.rtc;
  };
}

unfoldable pub with_kernel : SysInfo → (PeripheralsInfo → PeripheralsInfo) → SysInfo
with_kernel inf f = record inf { kernel = f inf.kernel }

-- A partition from the kernel's log; its `mtd_id` is `unset`.
unfoldable pub add_partition : ℕ → Option ℕ → Option ℕ → Text → SysInfo → Option SysInfo
add_partition unset (some from) (some to) name inf =
    let area : Range = record { from = from; to = to } in
    let part : Partition = record { name = name; mtd_id = unset; area = area } in
    some (with_kernel inf (λ k. record k { partitions = k.partitions ++ part ∷ [] }))
add_partition unset none to name inf = none
add_partition unset (some from) none name inf = none

-- The number of a partition, a uint8_t.
unfoldable pub number_partition : Option ℕ → Text → SysInfo → Option SysInfo
number_partition none name inf = none
number_partition (some id) name inf =
    some (with_kernel inf (λ k. record k { partitions = set_mtd_id name (id % 256) k.partitions }))

unfoldable pub is_found : Option Partition → Bool
is_found none = false
is_found (some p) = true

unfoldable pub number_found : (Text → Text → Option (List Text)) → Text → SysInfo → Option SysInfo
number_found rx str inf =
    on (rx str (codes "mtd([0-9]+): ([0-9a-z]+) ([0-9a-z]+) \"([^\"]+)\""))
      (λ gs.
        if is_found (find_partition (group gs 4) inf.kernel.partitions)
        then number_partition (number 10 (2 ^ 31) (group gs 1)) (group gs 4) inf
        else some inf)
      (some inf)

-- The tests behind the numbers of the partitions.
unfoldable pub fill_status : (Text → Text → Option (List Text)) → Text → SysInfo → SysInfo
fill_status rx str inf =
    on (rx str (codes "Lease of ([0-9\\.]+)(.*)")) (λ gs. record inf { board_ip = group gs 1 })
      (on (rx str (codes "Please Power Cycle the board(.*)"))
        (λ gs. record inf { wait_for_reboot = true })
        (on (rx str (codes "(.*)ERROR: can't get kernel image(.*)"))
          (λ gs. record inf { upload_fail = true })
          (on (rx str (codes "(.+) - ([0-9\\-\\.]+) -(.*)"))
            (λ gs.
              let pkt : Package = record { name = group gs 1; version = group gs 2 } in
              record inf { packets = inf.packets ++ pkt ∷ [] })
            (on (rx str (codes "(.*)UBI error: ubi_create_volume(.*)"))
              (λ gs. record inf { mk_part_fail = true }) inf))))

-- The lists of devices and partitions.
unfoldable pub fill_lists : (Text → Text → Option (List Text)) → ℕ → Text → SysInfo → Option SysInfo
fill_lists rx unset str inf =
    on (rx str (codes "(.+)CSPI: ([^\\x20]+)(.+)"))
      (λ gs. some (with_kernel inf (λ k. record k { spi = k.spi ++ group gs 2 ∷ [] })))
      (on (rx str (codes "(.+)mxcintuart.(\\d+): (\\w+)(.+)"))
        (λ gs. some (with_kernel inf (λ k. record k { uarts = k.uarts ++ group gs 3 ∷ [] })))
        (on (rx str (codes "(.+)USB Serial Device converter now attached to (\\w+)"))
          (λ gs.
            some (with_kernel inf (λ k. record k { usb_uart = k.usb_uart ++ group gs 2 ∷ [] })))
          (on (rx str (codes "(.+)0x([0-9a-f]+)-0x([0-9a-f]+) : \"(\\w+)\""))
            (λ gs.
              add_partition unset (number 16 (2 ^ 64) (group gs 2))
                (number 16 (2 ^ 64) (group gs 3)) (group gs 4) inf)
            (map (fill_status rx str) (number_found rx str inf)))))

-- FillInSysInfo; `none` is an exception of std::stoull or std::stoi.
unfoldable pub fill_in_sys_info :
    (Text → Text → Option (List Text)) → ℕ → Text → SysInfo → Option SysInfo
fill_in_sys_info rx unset str inf =
    let inf' = fill_boot rx str inf in
    on (rx str (codes "(.+)Linux version ([0-9a-z\\.\\-]+)(.+)"))
      (λ gs. some (fill_kernel rx str (group gs 2) inf'))
      (on_nor rx str inf' (fill_lists rx unset str (fill_devices rx str inf')))
