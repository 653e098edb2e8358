-- ===== src/Sdp/Packet.antt =====
-- The 16 bytes of class SdpPacket of src/utils/regiloader/sdp.cpp. Offsets are uint8_t and wrap.
pub mod RoundTrip
use regiboard.Base.{
  ℕ, zero, suc, ◌+◌, ◌-◌, ◌*◌, ◌/◌, ◌%◌, ◌^◌, List, [], ◌∷◌, Option, none, some, Bool, true, false,
  if◌then◌else◌, length, ltb, leb, set, get_or,
}

abbrev pub packet_size : ℕ
packet_size = 16

-- The bytes of a FieldU32, on a little-endian machine.
abbrev pub u32_bytes : ℕ → List ℕ
u32_bytes v = v % 256 ∷ v / 256 % 256 ∷ v / 65536 % 256 ∷ v / 16777216 % 256 ∷ []

abbrev pub u32_value : List ℕ → ℕ
u32_value bs =
    get_or bs 0 0 + 256 * get_or bs 1 0 + 65536 * get_or bs 2 0 + 16777216 * get_or bs 3 0

-- Where byte `src` of an array goes: down from `offs` when the most significant byte comes first.
unfoldable pub place : Bool → ℕ → ℕ → ℕ
place true offs src = (offs + 256 - src) % 256
place false offs src = (offs + src) % 256

unfoldable pub first_place : Bool → ℕ → ℕ → ℕ
first_place true offs size = (offs + (size - 1)) % 256
first_place false offs size = offs % 256

unfoldable pub store : List ℕ → ℕ → ℕ → List ℕ
store p dst x = if ltb dst packet_size then set p dst x else p

unfoldable pub add_loop : Bool → ℕ → ℕ → List ℕ → List ℕ → List ℕ
add_loop msb offs src [] p = p
add_loop msb offs src (x ∷ arr) p = add_loop msb offs (src + 1) arr (store p (place msb offs src) x)

-- SdpPacket::AddArr of an array that is there; an empty one adds nothing.
unfoldable pub add_arr : ℕ → ℕ → List ℕ → Bool → List ℕ → List ℕ
add_arr req_size offs arr msb p =
    let start = first_place msb offs (length arr) in
    if leb req_size start then p else add_loop msb start 0 arr p

unfoldable pub load : List ℕ → ℕ → ℕ → ℕ
load p src old = if ltb src packet_size then get_or p src 0 else old

unfoldable pub get_loop : Bool → ℕ → ℕ → List ℕ → List ℕ → List ℕ
get_loop msb offs src p [] = []
get_loop msb offs src p (old ∷ arr) =
    load p (place msb offs src) old ∷ get_loop msb offs (src + 1) p arr

-- SdpPacket::GetArr; what it does not find keeps its old value.
unfoldable pub get_arr : ℕ → ℕ → List ℕ → Bool → List ℕ → List ℕ
get_arr req_size offs arr msb p =
    let start = first_place msb offs (length arr) in
    if leb req_size start then arr else get_loop msb start 0 p arr

unfoldable pub add_u32 : ℕ → ℕ → ℕ → List ℕ → List ℕ
add_u32 req_size offs v p = add_arr req_size offs (u32_bytes v) false p

unfoldable pub add_msb_u32 : ℕ → ℕ → ℕ → List ℕ → List ℕ
add_msb_u32 req_size offs v p = add_arr req_size offs (u32_bytes v) true p

unfoldable pub add_u8 : ℕ → ℕ → ℕ → List ℕ → List ℕ
add_u8 req_size offs v p = add_arr req_size offs (v ∷ []) false p

unfoldable pub get_u32 : ℕ → ℕ → ℕ → List ℕ → ℕ
get_u32 req_size offs old p = u32_value (get_arr req_size offs (u32_bytes old) false p)

pub get_msb_u32 : ℕ → ℕ → ℕ → List ℕ → ℕ
get_msb_u32 req_size offs old p = u32_value (get_arr req_size offs (u32_bytes old) true p)
