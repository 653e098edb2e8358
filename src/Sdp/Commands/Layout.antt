-- ===== src/Sdp/Commands/Layout.antt =====
-- The replies that src/utils/regiloader/sdp.cpp takes for a success, and the request for a firmware without
-- a header.
use regiboard.Base.{
  ℕ, ◌^◌, ◌<◌, ◌≡◌, ◌↔◌, refl, ap, List, ◌++◌, none, some, Bool, true, false, ◌==◌, ◌&&◌, arith,
  ==_iff,
}
use regiboard.Sdp.Packet.{
  u32_bytes, u32_value, get_u32, get_loop, get_arr, load, place, first_place,
}
use regiboard.Sdp.Commands.{
  Firmware, Command, status, complete, write_mem, read_mem, write_file, crash, write_firm, write,
  finish_request, request, Transfer, stop, go_on, error, otherwise, stop_if, go_on_if, read,
}

-- A firmware with boot data but without a header is a null pointer that is read.
pub request-crash :
    (f : Firmware) → f.has_boot ≡ true → f.self_ptr ≡ none → request (write_file (some f)) ≡ crash
unfolding request finish_request write write_firm
request-crash f b h = rw (b, h) refl

-- What a command waits for in the two words of its reply.
pub Accepts : Command → ℕ → ℕ → Type 0
Accepts status v w = v ≡ 0xF0F0F0F0
Accepts complete v w = v ≡ 0x88888888
Accepts (write_mem addr value) v w = (v ≡ otherwise) × (w ≡ 0x128A8A12)
Accepts (read_mem addr size) v w = v ≡ otherwise
Accepts (write_file firm) v w = v ≡ otherwise

-- The outcome of a command that is understood.
pub success : Command → Transfer
success status = stop
success complete = stop
success (write_mem addr value) = stop
success (read_mem addr size) = stop
success (write_file firm) = go_on

abbrev pub reply : ℕ → ℕ → List ℕ → List ℕ
reply v w rest = u32_bytes v ++ (u32_bytes w ++ rest)

u32_value-bytes : (v : ℕ) → v < 2 ^ 32 → u32_value (u32_bytes v) ≡ v
u32_value-bytes v h = omega arith

get_u32-first : (old v w : ℕ) (rest : List ℕ) → v < 2 ^ 32 → get_u32 16 0 old (reply v w rest) ≡ v
unfolding get_u32 get_arr get_loop load place first_place
get_u32-first old v w rest h = u32_value-bytes v h

get_u32-short : (old v w : ℕ) (rest : List ℕ) → v < 2 ^ 32 → get_u32 11 0 old (reply v w rest) ≡ v
unfolding get_u32 get_arr get_loop load place first_place
get_u32-short old v w rest h = u32_value-bytes v h

get_u32-second : (old v w : ℕ) (rest : List ℕ) → w < 2 ^ 32 → get_u32 16 4 old (reply v w rest) ≡ w
unfolding get_u32 get_arr get_loop load place first_place
get_u32-second old v w rest h = u32_value-bytes w h

is_stop : Transfer → Bool
is_stop stop = true
is_stop go_on = false
is_stop error = false

is_go_on : Transfer → Bool
is_go_on stop = false
is_go_on go_on = true
is_go_on error = false

stop_if-true : (b : Bool) → stop_if b ≡ stop → b ≡ true
unfolding stop_if is_stop
stop_if-true true h = refl
stop_if-true false h = ap is_stop h

go_on_if-true : (b : Bool) → go_on_if b ≡ go_on → b ≡ true
unfolding go_on_if is_go_on
go_on_if-true true h = refl
go_on_if-true false h = ap is_go_on h

word-stop : (x y : ℕ) → (stop_if (x == y) ≡ stop) ↔ (x ≡ y)
unfolding stop_if
word-stop x y =
    ((λ h. (==_iff x y).0 (stop_if-true (x == y) h)), (λ h. ap stop_if ((==_iff x y).1 h)))

word-go_on : (x y : ℕ) → (go_on_if (x == y) ≡ go_on) ↔ (x ≡ y)
unfolding go_on_if
word-go_on x y =
    ((λ h. (==_iff x y).0 (go_on_if-true (x == y) h)), (λ h. ap go_on_if ((==_iff x y).1 h)))

and-true : (a b : Bool) → ((a && b) ≡ true) → (a ≡ true) × (b ≡ true)
and-true true b h = (refl, h)
and-true false b h = (h, ground arith)

words-stop : (x y x' y' : ℕ) → (stop_if ((x == y) && (x' == y')) ≡ stop) ↔ ((x ≡ y) × (x' ≡ y'))
unfolding stop_if
words-stop x y x' y' = (
  (λ h.
      let both = and-true (x == y) (x' == y') (stop_if-true ((x == y) && (x' == y')) h) in
      ((==_iff x y).0 both.0, (==_iff x' y').0 both.1)),
  (λ h. rw ((==_iff x y).1 h.0, (==_iff x' y').1 h.1) refl),
)

-- A reply is taken for a success exactly when its words are the ones that the command waits for; a file
-- goes on to its contents then, and every other command is done.
pub read-Accepts :
    (c : Command) (old v w : ℕ) (rest : List ℕ)
    → v < 2 ^ 32
    → w < 2 ^ 32
    → ((read c old (reply v w rest)).0 ≡ success c) ↔ Accepts c v w
unfolding read success Accepts
read-Accepts status old v w rest hv hw = rw (get_u32-short old v w rest hv) (word-stop v 0xF0F0F0F0)
read-Accepts complete old v w rest hv hw =
    rw (get_u32-short old v w rest hv) (word-stop v 0x88888888)
read-Accepts (write_mem addr value) old v w rest hv hw =
    rw (get_u32-first old v w rest hv, get_u32-second old v w rest hw)
      (words-stop v otherwise w 0x128A8A12)
read-Accepts (read_mem addr size) old v w rest hv hw =
    rw (get_u32-first old v w rest hv) (word-stop v otherwise)
read-Accepts (write_file firm) old v w rest hv hw =
    rw (get_u32-first old v w rest hv) (word-go_on v otherwise)
