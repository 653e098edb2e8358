-- ===== src/Rfb/Requests.antt =====
-- src/utils/regirfb/main.cpp and ipc.cpp: the requests that the server answers. The server of webapp is not
-- modelled: a handler gets the path and the arguments of a request.
pub mod Serving
pub mod Refinement
pub mod Command
use mathlib.Core.Option
use regiboard.Base.{
  ℕ, zero, suc, ◌+◌, ◌-◌, ◌*◌, ◌/◌, ◌%◌, ◌^◌, List, [], ◌∷◌, ◌++◌, Bool, true, false, not, ◌&&◌,
  ◌||◌, if◌then◌else◌, ltb, leb, ◌==◌, length, take, drop, bytes_eq, Option, none, some,
}
use regiboard.Base.Text.{Text, codes, decimal}
use regiboard.Rfb.Frames.{
  Screen, Frame, Constants, get_frame, frame_body, Prepared, prepare_bmp_frame,
}

-- JsonPair
unfoldable pub json_pair : Text → Text → Text
json_pair name val = codes "\"" ++ (name ++ (codes "\": \"" ++ (val ++ codes "\"")))

unfoldable pub starts : Text → Text → Bool
starts [] text = true
starts (p ∷ ps) [] = false
starts (p ∷ ps) (c ∷ cs) = (p == c) && starts ps cs

-- std::string::find
unfoldable pub find : Text → Text → Option ℕ
find part [] = if starts part [] then some 0 else none
find part (c ∷ cs) =
    let later = find part cs in if starts part (c ∷ cs) then some 0 else Option.map suc later

abbrev pub is_some : Option ℕ → Bool
is_some none = false
is_some (some n) = true

unfoldable pub holds : Text → Text → Bool
holds part text = is_some (find part text)

pub record Device : Type 0 where
  pub orientation : Text
  pub board_id : Text

unfoldable pub board_of : Text → Option ℕ → Device → Device
board_of word none d = d
board_of word (some off) d = record d { board_id = drop (off + 6) word }

-- A turn of the loop of GetDeviceInfo, for a word of the command line of the kernel.
unfoldable pub read_word : Text → Device → Device
read_word word d =
    if holds (codes "lcd=") word && holds (codes "_VERTICAL") word
    then record d { orientation = codes "vertical" }
    else board_of word (find (codes "board=") word) d

unfoldable pub read_words : List Text → Device → Device
read_words [] d = d
read_words (w ∷ ws) d = read_words ws (read_word w d)

abbrev pub is_space : ℕ → Bool
is_space c = (c == 32) || (leb 9 c && leb c 13)

-- What the extractions of the loop give from `word` on, which holds the last one: an extraction behind the
-- last word fails and leaves it as it is, when the text does not end with it.
unfoldable pub extractions : Text → Text → Text → List Text
extractions last [] [] = last ∷ []
extractions last (c ∷ cs) [] = (c ∷ cs) ∷ []
extractions last word (c ∷ text) =
    let longer = extractions last (word ++ c ∷ []) text in
    let skipped = extractions last [] text in
    let ended = extractions word [] text in
    if not (is_space c) then longer else if length word == 0 then skipped else word ∷ ended

abbrev pub unknown_device : Device
unknown_device = record { orientation = codes "horizontal"; board_id = codes "x.x.x" }

-- The loop of GetDeviceInfo over /proc/cmdline; none when it does not open.
unfoldable pub read_device : Option Text → Device
read_device none = unknown_device
read_device (some text) = read_words (extractions [] [] text) unknown_device

-- GetDeviceInfo
unfoldable pub get_device_info : Option Text → Text
get_device_info cmdline =
    let d = read_device cmdline in
    codes "{\"display\": {"
    ++ (json_pair (codes "orientation") d.orientation
        ++ (codes "},\"board\": {" ++ (json_pair (codes "id") d.board_id ++ codes "}}")))

-- The command of UpdateFirm.
unfoldable pub update_command : Text → Text
update_command url = codes "/etc/init.d/S39gui update '" ++ (url ++ codes "'")

-- An int.
pub data ℤ : Type 0 where
  pos negsuc : ℕ → ℤ

unfoldable pub print_int : ℤ → Text
print_int (pos n) = decimal n
print_int (negsuc n) = b'-' ∷ decimal (suc n)

-- The message of SendNewCoords; snprintf cuts the texts to the size of their arrays.
pub record Message : Type 0 where
  pub mtype : ℕ
  pub cmd : Text
  pub result : Text

unfoldable pub coords_message : ℤ → ℤ → ℤ → Message
coords_message x y what = record {
  mtype = 1;
  cmd = take 127 (
      codes "got coords; x="
      ++ (print_int x ++ (codes " y=" ++ (print_int y ++ (codes " what=" ++ print_int what)))));
  result = take 4 (codes "OK");
}

-- What a handler asks for.
pub data Call : Type 0 where
  send : Message → Call
  system : Text → Call
  header_200 : Call

-- UpdateFirm: the result of `system` is only printed.
unfoldable pub update_firm : Text → List Call
update_firm url = if length url == 0 then [] else system (update_command url) ∷ []

-- The arguments of a request.
pub record Request : Type 0 where
  pub x : ℤ
  pub y : ℤ
  pub s : ℤ
  pub from : Text

unfoldable pub is_one : ℤ → Bool
is_one (pos n) = n == 1
is_one (negsuc n) = false

unfoldable pub mouse_calls : Request → List Call
mouse_calls r = if is_one r.s then send (coords_message r.x r.y r.s) ∷ [] else []

-- Update, the handler of /action/update.
unfoldable pub update : List Text → Request → Bool × List Call
update [] r = (false, [])
update (p ∷ path) r =
    let mouse = if bytes_eq p (codes "mouse") then mouse_calls r else [] in
    let firmware = if bytes_eq p (codes "firmware") then update_firm r.from else [] in
    (true, mouse ++ (firmware ++ header_200 ∷ []))

-- How long PrepareFrame sleeps behind the frame, in microseconds; the times are in nanoseconds.
unfoldable pub frame_pause : ℕ → ℕ → ℕ
frame_pause from to =
    let diff = (to + 2 ^ 64 - from) % 2 ^ 64 in
    if ltb diff 250000000 then (250000000 - diff) / 1000 else 0

-- The task of SendFrame: none before the first, else whether it is done.
pub record Server : Type 0 where
  pub screen : Screen
  pub known : Option Constants
  pub task : Option Bool

unfoldable pub is_idle : Option Bool → Bool
is_idle none = true
is_idle (some done) = done

-- SendFrame, the handler of /request/frame.bmp: a new task, when there is none or it is done, and the body
-- of the response; none is a null pointer.
unfoldable pub send_frame : Server → Option Text × Server
send_frame v =
    (frame_body (get_frame v.screen), if is_idle v.task then record v { task = some false } else v)
