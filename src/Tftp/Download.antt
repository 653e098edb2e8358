-- ===== src/Tftp/Download.antt =====
-- A whole download: the request, the acknowledgements and the blocks of src/utils/regiloader/tftp.cpp,
-- from datagram to datagram.
pub mod Acks
pub mod Request
pub mod Complete
use regiboard.Base.{
  ℕ, zero, suc, ◌+◌, ◌-◌, ◌*◌, ◌/◌, ◌%◌, ◌^◌, ◌≤◌, ◌<◌, ◌≡◌, ◌≢◌, refl, sym, ap, ◌∙◌, subst, List,
  [], ◌∷◌, ◌++◌, append_assoc, append-nil, Option, none, some, Bool, true, false, if◌then◌else◌,
  length, take, drop, All, arith, length-append, length-take, length-drop, take-append-drop,
  bytes_eq_refl, drop-all,
}
use regiboard.Tftp.Buffer.{max_size, clear}
use regiboard.Tftp.Buffer.Laws.{clear-Holds}
use regiboard.Tftp.Packets.{
  Packet, Mode, unknown, octet, rrq_content, ack_content, new_rrq, new_ack, read_packet, Junk,
}
use regiboard.Tftp.Packets.Layout.{
  data_datagram, request_bytes, mode_text, read_packet-request, read_packet-ack,
}
use regiboard.Tftp.Session.{
  Session, Task, Call, ask, cancel_timer, block_size, is_idling, next_block, answer, dispatch,
  process, pop_packet, find_file, start_upload,
}
use regiboard.Tftp.Session.Upload.{
  sends, sends-append, Has, Serving, Closed, next_block-Serving, next_block-Closed,
  start_upload-Serving,
}
use regiboard.Tftp.Handlers.{handler_write, handler_read, packet_for}
use regiboard.Tftp.Handlers.Input.{
  packet_bytes, packet_bytes-full, filled, new_buff, new_buff-full, read_session,
  handler_read-known, Awaits, handler_write-Awaits,
}

-- A datagram that arrives, and the poll of the server behind it.
unfoldable pub arrive :
    Junk → List ℕ → (List ℕ → Option (List ℕ)) → List (List ℕ × List ℕ) → List ℕ → Session → Session
arrive j after host dir datagram s = process host dir (handler_read j after false datagram s)

-- A datagram that arrives after the last write is done.
unfoldable pub deliver :
    Junk → List ℕ → (List ℕ → Option (List ℕ)) → List (List ℕ × List ℕ) → List ℕ → Session → Session
deliver j after host dir datagram s = arrive j after host dir datagram (handler_write false s)

-- The acknowledgement of a block.
abbrev pub ack_datagram : ℕ → List ℕ
ack_datagram id = 0 ∷ 4 ∷ id / 256 ∷ id % 256 ∷ []

-- A client that acknowledges `k` blocks from number `n` on.
pub acknowledge :
    Junk → List ℕ → (List ℕ → Option (List ℕ)) → List (List ℕ × List ℕ) → ℕ → ℕ → Session → Session
acknowledge j after host dir zero n s = s
acknowledge j after host dir (suc k) n s =
    acknowledge j after host dir k (n + 1) (deliver j after host dir (ack_datagram (n % 65536)) s)

-- The datagrams of the blocks of `rest`, from number `n` on; numbers are 16 bits wide.
pub datagrams : ℕ → ℕ → List ℕ → List (List ℕ)
datagrams zero n rest = []
datagrams (suc k) n rest =
    data_datagram (n % 65536) (take block_size rest) ∷ datagrams k (n + 1) (drop block_size rest)

-- What the client puts together: the data behind the first four bytes of each datagram.
pub reassemble : List (List ℕ) → List ℕ
reassemble [] = []
reassemble (d ∷ ds) = drop 4 d ++ reassemble ds

pub reassemble-datagrams :
    (k n : ℕ) (rest : List ℕ) → length rest ≤ k * 512 → reassemble (datagrams k n rest) ≡ rest
unfolding reassemble datagrams
reassemble-datagrams zero n [] h = refl
reassemble-datagrams zero n (x ∷ xs) h = absurd (omega arith)
reassemble-datagrams (suc k) n rest h =
    let more = length-drop 512 rest in
    ap (◌++◌ (take 512 rest)) (reassemble-datagrams k (n + 1) (drop 512 rest) (omega arith))
    ∙ take-append-drop 512 rest

-- The datagram of a read request.
abbrev pub request_datagram : ℕ → List ℕ → Mode → List ℕ
request_datagram c name m = 0 ∷ 1 ∷ c ∷ request_bytes name m []

-- The session that takes an acknowledgement, once it has popped the packet.
pub quiet : (s : Session) (buff : List ℕ) → Session
quiet s buff = record (ask cancel_timer s) { buff = buff; input = none }

pub quiet-Serving :
    {b : Bool} (log : List (List ℕ)) (rest buff : List ℕ) (s s' : Session)
    → Serving b log rest s
    → Awaits s s'
    → length buff ≡ max_size
    → Serving false log rest (quiet s' buff)
unfolding quiet ask sends
quiet-Serving log rest buff s s' v aw full = record {
  living = aw.alive ∙ v.living;
  waits = refl;
  work = subst (Has rest) (sym aw.task) v.work;
  sent = sends-append s'.calls _ ∙ append-nil _ ∙ aw.sent ∙ v.sent;
  roomy = full;
  calm = aw.calm;
}
