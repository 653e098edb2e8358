-- ===== src/Sdp/Runs.antt =====
-- Tests of the model of src/utils/regiloader/sdp.cpp, and its theorems at concrete inputs.
use regiboard.Base.{
  ◌-◌, ltb, ◌==◌, if◌then◌else◌, subst, ℕ, ◌+◌, ◌≡◌, ◌≢◌, ◌↔◌, refl, sym, List, [], ◌∷◌, ◌++◌,
  false, some, inl, inr, get_or, replicate, arith,
}
use regiboard.Sdp.Commands.{status, write_file, request, crash, read}
use regiboard.Sdp.Commands.Layout.{read-Accepts, reply, success, Accepts}
use regiboard.Sdp.Link.{send_tries}
use regiboard.Sdp.Link.Tries.{send_tries-answered, lost, answered, linked, Got, writes}
use regiboard.Sdp.Image.{barker, barker_53, commands_loop, init_header, new_image, firmware_of}
use regiboard.Sdp.Image.Orders.{commands_loop-fuel}
use regiboard.Sdp.Image.Scan.{IsHeader, Only, init_header-found, init_header-crash}

abbrev zeros : List ℕ
zeros = replicate 16 0

read-Accepts_example :
    ((read status 0 (reply 0xF0F0F0F0 0 (replicate 8 0))).0 ≡ success status)
    ↔ Accepts status 0xF0F0F0F0 0
read-Accepts_example =
    read-Accepts status 0 0xF0F0F0F0 0 (replicate 8 0) (omega arith) (omega arith)

abbrev answer : List ℕ
answer = 0xF0 ∷ 0xF0 ∷ 0xF0 ∷ 0xF0 ∷ []

abbrev packet : List ℕ
packet = 5 ∷ 5 ∷ replicate 9 0

send_tries-answered_example :
    Got answer (writes [] ++ replicate 2 packet) (
      send_tries 4 4 packet
        (replicate 1 lost ++ answered answer ∷ [])
        (linked zeros false false []))
send_tries-answered_example =
    send_tries-answered 1 4 4 packet answer zeros [] false false [] (omega arith) (omega arith)
      (omega arith) refl refl

-- Two commands: one with a pair, one without pairs.
abbrev orders : List ℕ
orders = 0xCC ∷ 0 ∷ 12 ∷ 0 ∷ (0x54 ∷ 0x85 ∷ 0xFA ∷ 0x53 ∷ 0 ∷ 0 ∷ 0x30 ∷ 0 ∷ 0xCC ∷ 1 ∷ 4 ∷ 0 ∷ [])

abbrev orders_memory : ℕ → ℕ
orders_memory i = get_or orders i 0

commands_loop-fuel_example :
    commands_loop orders_memory (4 + 100) 16 0 ≡ commands_loop orders_memory 4 16 0
commands_loop-fuel_example = commands_loop-fuel orders_memory 4 100 16 0 (omega arith)

-- An image with its header at 0x400 and its DCD at 0x420, and the same without the DCD.
abbrev header_bytes : ℕ → List ℕ
header_bytes at_low =
    0xD1
    ∷ 0
    ∷ 0x20
    ∷ 0x40
    ∷ 0
    ∷ 0
    ∷ 0
    ∷ 0
    ∷ 0
    ∷ 0
    ∷ 0
    ∷ 0
    ∷ at_low
    ∷ (if at_low == 0 then 0 else 4)
    ∷ 0
    ∷ 0
    ∷ 0x80
    ∷ 4
    ∷ 0
    ∷ 0
    ∷ 0
    ∷ 0
    ∷ 0
    ∷ 0
    ∷ 0
    ∷ 0
    ∷ 0
    ∷ 0
    ∷ 0
    ∷ 0
    ∷ 0
    ∷ 0
    ∷ 0xD2
    ∷ 0
    ∷ 4
    ∷ 0x40
    ∷ []

abbrev image_memory : ℕ → ℕ → ℕ
image_memory at_low i = if ltb i 0x400 then 0 else get_or (header_bytes at_low) (i - 0x400) 0

abbrev image_IsHeader : IsHeader (image_memory 0x20) 0x400
image_IsHeader = record {
  place = inr (inl refl);
  marked = refl;
  has_dcd = omega arith;
  tagged = refl;
}

image_Only : (n : ℕ) → Only (image_memory n) 0x400
image_Only n k (inl e) ne =
    subst (λ (x : ℕ). barker (image_memory n) x ≢ barker_53) (sym e) (omega arith)
image_Only n k (inr (inl e)) ne = absurd (ne e)
image_Only n k (inr (inr e)) ne =
    subst (λ (x : ℕ). barker (image_memory n) x ≢ barker_53) (sym e) (omega arith)

init_header-found_example :
    ((init_header (image_memory 0x20) new_image).header ≡ some 0x400)
    × ((init_header (image_memory 0x20) new_image).boot ≡ some 0x480)
init_header-found_example =
    init_header-found (image_memory 0x20) 0x400 image_IsHeader (image_Only 0x20)

init_header-crash_example :
    request
      (write_file (some (firmware_of (image_memory 0) [] (init_header (image_memory 0) new_image))))
    ≡ crash
init_header-crash_example =
    init_header-crash (image_memory 0) 0x400 [] (inr (inl refl)) refl refl (image_Only 0)
