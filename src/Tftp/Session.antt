-- ===== src/Tftp/Session.antt =====
-- class TFtp::Session of src/utils/regiloader/tftp.cpp: one client. What boost::asio is asked to do is
-- a log of calls; what it answers comes in as the arguments of the handlers. The files of the host are
-- an argument, a function from a path to the contents.
pub mod Upload
use regiboard.Base.{
  ℕ, zero, suc, ◌+◌, ◌-◌, ◌*◌, ◌/◌, ◌%◌, ◌^◌, List, [], ◌∷◌, ◌++◌, Option, none, some, Bool, true,
  false, ◌==◌, ◌&&◌, ◌||◌, not, if◌then◌else◌, length, ltb, leb, bytes_eq, take, drop, overlay,
  replicate, get_or,
}
use regiboard.Tftp.Buffer.{Buffer, set_data, max_size}
use regiboard.Tftp.Packets.{
  Opcode, rrq, wrq, dat, ack, error, Mode, unknown, Content, rrq_content, data_content, ack_content,
  error_content, Packet, new_rrq, new_data, new_ack, new_error, data_packet, write_packet,
  read_packet, Junk, code,
}

pub data TaskType : Type 0 where
  idling uploading waiting : TaskType

-- std::fstream over a file of the host.
pub record File : Type 0 where
  pub is_open : Bool
  pub good : Bool
  pub contents : List ℕ
  pub pos : ℕ

pub record Task : Type 0 where
  pub kind : TaskType
  pub mode : Mode
  pub file : File
  pub file_sz : ℕ

-- The calls of boost::asio.
pub data Call : Type 0 where
  send_to : List ℕ → Call
  receive_from : ℕ → Call
  start_timer : ℕ → Call
  cancel_socket cancel_timer close_socket : Call

pub record Session : Type 0 where
  pub alive : Bool
  pub input : Option Packet
  pub output : Option Packet
  pub buff : List ℕ
  pub task : Task
  pub timeout : Bool
  pub timeout_tries : ℕ
  pub timeout_ms : ℕ
  pub calls : List Call

abbrev request_timeout_ms : ℕ
request_timeout_ms = 10000

abbrev pub response_timeout_ms : ℕ
response_timeout_ms = 2000

-- kBuffMaxSize counts 16-bit words of `_buff`, which has 516 bytes.
abbrev pub buff_max_size : ℕ
buff_max_size = max_size / 2

abbrev pub tries_limit : ℕ
tries_limit = 12

unfoldable pub ask : Call → Session → Session
ask c s = record s { calls = s.calls ++ c ∷ [] }

-- The constructor: an empty path opens no file. `file_sz` and `_buff` are not set.
unfoldable pub new_session : ℕ → List ℕ → Session
new_session file_sz buff = record {
  alive = false;
  input = none;
  output = none;
  buff = buff;
  task = record {
    kind = idling;
    mode = unknown;
    file = record { is_open = false; good = false; contents = []; pos = 0 };
    file_sz = file_sz;
  };
  timeout = false;
  timeout_tries = 0;
  timeout_ms = request_timeout_ms;
  calls = [];
}

-- Session::Open of the server's end point; `failed` is the error of the socket.
unfoldable pub open_session : Bool → Session → Bool × Session
open_session failed s =
    let s' = if s.alive then record (ask close_socket s) { alive = false } else s in
    if failed then (false, s') else (true, record s' { alive = true })

pub close : Session → Session
close s = record (ask close_socket s) {
  alive = false;
  task = record (s.task) { file = record (s.task.file) { is_open = false } };
}

-- Task::DetectFileSize
pub detect_file_size : Task → Task
detect_file_size t =
    if t.file.is_open
    then record t { file_sz = length t.file.contents; file = record (t.file) { pos = 0 } }
    else t

-- std::fstream::open, which a missing file fails.
pub open_file : Option (List ℕ) → File → File
open_file none f = record f { good = false }
open_file (some bytes) f = record { is_open = true; good = true; contents = bytes; pos = 0 }

-- std::fstream::read of `n` bytes.
pub read_file : ℕ → File → List ℕ × File
read_file n f =
    let bytes = take n (drop f.pos f.contents) in
    (bytes, record f { pos = f.pos + length bytes; good = leb n (length bytes) })

-- Session::Send
unfoldable pub send : List ℕ → Session → Session
send bytes s = ask (send_to bytes) (record s { input = none })

-- Packet::StartTransaction
unfoldable pub start_transaction : Packet → Session → Session
start_transaction pkt s =
    if pkt.buff.size == 0 then s else send (take pkt.buff.size pkt.buff.bytes) s

-- Session::PushPacket of a packet that is there.
pub push_packet : Packet → Session → Session
push_packet pkt s =
    let pkt' = write_packet pkt in start_transaction pkt' (record s { output = some pkt' })

unfoldable pub pop_packet : Session → Option Packet × Session
pop_packet s = (s.input, record s { input = none })

-- Session::SetupTimer
unfoldable pub setup_timer : Session → Session
setup_timer s = ask (start_timer s.timeout_ms) (record s { timeout = false })

-- Session::Receive
unfoldable pub receive : ℕ → Session → Session
receive n s = setup_timer (ask (receive_from n) (record s { input = none }))

-- Session::AsyncAccept, by the input that is there. It clears `buff_max_size` bytes, half of the array.
unfoldable pub accept_on : Option Packet → Session → Session
accept_on (some pkt) s = s
accept_on none s =
    receive buff_max_size (record s { buff = overlay (replicate buff_max_size 0) s.buff })

unfoldable pub async_accept : Session → Session
async_accept s = accept_on s.input s

abbrev pub block_size : ℕ
block_size = max_size - 4

pub is_uploading : TaskType → Bool
is_uploading idling = false
is_uploading uploading = true
is_uploading waiting = false

-- The test of ProcessTask for a task with nothing to do.
pub not_ready : Task → Bool
not_ready t = not (is_uploading t.kind) || not t.file.is_open || not t.file.good

-- `kTail`, a subtraction of size_t.
pub tail_size : Task → ℕ
tail_size t = (t.file_sz + 2 ^ 64 - t.file.pos) % 2 ^ 64

-- Session::ProcessTask
pub process_task : ℕ → Session → Bool × Session
process_task block_id s =
    let tail = tail_size s.task in
    let (bytes, f) = read_file (if ltb block_size tail then block_size else tail) s.task.file in
    if not_ready s.task then (false, s) else if tail == 0 then (false, s) else (
      true,
      push_packet (data_packet block_id bytes) (record s { task = record (s.task) { file = f } }),
    )

-- std::map::find of the published files.
unfoldable pub find_file : List ℕ → List (List ℕ × List ℕ) → Option (List ℕ)
find_file name [] = none
find_file name ((n, path) ∷ dir) = if bytes_eq n name then some path else find_file name dir

unfoldable pub is_idling : TaskType → Bool
is_idling idling = true
is_idling uploading = false
is_idling waiting = false

-- The task of a request: it uploads what the path opens.
pub started : Option (List ℕ) → Mode → Session → Session
started opened m s = record s {
  task =
      detect_file_size
        (record (s.task) { kind = uploading; mode = m; file = open_file opened s.task.file });
}

-- A read request for a file that is published.
pub start_upload : (List ℕ → Option (List ℕ)) → List ℕ → Mode → Session → Session
start_upload host path m s =
    if is_idling s.task.kind then (process_task 1 (started (host path) m s)).1 else s

-- An acknowledgement of block `id`.
pub next_block : ℕ → Session → Session
next_block id s =
    let (more, s') = process_task ((id + 1) % 65536) s in
    if is_uploading s.task.kind && more then s' else close s

-- A read request, with the path that is published for its name.
unfoldable pub answer : (List ℕ → Option (List ℕ)) → Option (List ℕ) → Mode → Session → Session
answer host none m s = close s
answer host (some path) m s = start_upload host path m s

unfoldable pub dispatch :
    (List ℕ → Option (List ℕ)) → List (List ℕ × List ℕ) → Content → Session → Session
dispatch host dir (rrq_content name m) s = answer host (find_file name dir) m s
dispatch host dir (ack_content id) s = next_block id s
dispatch host dir (error_content c msg) s = close s
dispatch host dir (data_content id) s = close s

-- Session::Process
unfoldable pub process : (List ℕ → Option (List ℕ)) → List (List ℕ × List ℕ) → Session → Session
process host dir s =
    let (pkt, s') = pop_packet s in elim pkt [ none ↦ s' | some p ↦ dispatch host dir p.content s' ]
