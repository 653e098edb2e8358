-- ===== src/Sdp/Link.antt =====
-- SdpPacket::Send of src/utils/regiloader/sdp.cpp: the handlers, the tries, the reply. What boost::asio
-- brings is a list of events for each turn of io_service::run; what it is asked to do is a log of calls.
pub mod Tries
use regiboard.Base.{
  ℕ, zero, suc, ◌+◌, ◌-◌, List, [], ◌∷◌, ◌++◌, Option, none, some, Bool, true, false, ◌==◌, ◌&&◌,
  ◌||◌, not, if◌then◌else◌, length, ltb, take, replicate, overlay,
}
use regiboard.Sdp.Packet.{packet_size}
use regiboard.Sdp.Commands.{
  Command, status, complete, write_mem, read_mem, write_file, Firmware, Written, wrote, refused,
  crash, request, resp_size, req_size, Transfer, stop, go_on, error, read,
}

-- A finished write, a finished read with its bytes, an end of the timer and whether it has expired.
pub data Event : Type 0 where
  written : Bool → Event
  arrived : Bool → List ℕ → Event
  timer : Bool → Bool → Event

pub data Call : Type 0 where
  write_some write_all : List ℕ → Call
  read_exactly : ℕ → Call
  start_timer cancel_timer cancel_port : Call

-- The fields of SdpPacket that a transfer uses; `rcv` is `rcv_packet`.
pub record Link : Type 0 where
  pub session : Bool
  pub rcv : List ℕ
  pub was_read : Bool
  pub timeout : Bool
  pub calls : List Call

pub ask : Call → Link → Link
ask c l = record l { calls = l.calls ++ c ∷ [] }

-- CreateTimer
create_timer : Link → Link
create_timer l = ask start_timer l

-- HandlerRead
handler_read : ℕ → Bool → List ℕ → Link → Link
handler_read size err bytes l =
    let ok = not err && (length bytes == size) in
    let l' : Link = record l { rcv = overlay bytes l.rcv; was_read = ok } in
    if ok then ask cancel_timer l' else l'

-- ReadArray
read_array : ℕ → Link → Bool × Link
read_array size l =
    let n = if ltb packet_size size then packet_size else size in
    if size == 0 then (false, l) else (
      true,
      create_timer (ask (read_exactly n) (record l { rcv = overlay (replicate n 0) l.rcv })),
    )

stop_waiting : Link → Link
stop_waiting l = record (ask cancel_timer l) { timeout = true }

-- HandlerWrite
handler_write : ℕ → Bool → Link → Link
handler_write size err l =
    let (ok, l') = read_array size l in
    if not l.session || err then stop_waiting l else if ok then l' else stop_waiting l'

-- HandlerTimeout
handler_timeout : Bool → Bool → Link → Link
handler_timeout err expired l =
    let l' : Link = record l { timeout = true } in
    if not err && expired then if l.session then ask cancel_port l' else l' else l

handle : ℕ → Event → Link → Link
handle size (written err) l = handler_write size err l
handle size (arrived err bytes) l = handler_read size err bytes l
handle size (timer err expired) l = handler_timeout err expired l

-- One turn of io_service::run.
run : ℕ → List Event → Link → Link
run size [] l = l
run size (e ∷ es) l = run size es (handle size e l)

-- The loop of TransferData; it still waits when the turns are used up.
transfer_loop : ℕ → List (List Event) → Link → Option Link
transfer_loop size [] l = none
transfer_loop size (turn ∷ turns) l =
    let l' = run size turn l in
    let rest = transfer_loop size turns l' in
    if not l'.was_read && not l'.timeout then rest else some l'

-- TransferData
transfer_data : ℕ → List (List Event) → Link → Option Link
transfer_data size turns l =
    transfer_loop size turns (record l { was_read = false; timeout = false })

pub data Tried : Type 0 where
  waits : Tried
  failed replied : Link → Tried

-- What follows a try: its reply, or the next one.
after_try : Option Link → (Link → Tried) → Tried
after_try none next = waits
after_try (some l) next = if l.was_read && not l.timeout then replied l else next l

-- The loop of Send over its tries, of which `k` are left.
pub send_tries : ℕ → ℕ → List ℕ → List (List (List Event)) → Link → Tried
send_tries zero size out tries l = failed l
send_tries (suc k) size out [] l = waits
send_tries (suc k) size out (turns ∷ tries) l =
    after_try (transfer_data size turns (create_timer (ask (write_some out) l)))
      (send_tries k size out tries)

abbrev max_tries : ℕ
max_tries = 4

pub data Sent : Type 0 where
  unfinished null_read : Sent
  done : Bool → ℕ → Link → Sent

-- The virtual Write(port), which sends the contents of a firmware; `count` is what boost::asio::write
-- returns.
write_firm_data : ℕ → Option (List ℕ) → Link → Bool × Link
write_firm_data count none l = (false, l)
write_firm_data count (some bytes) l = (count == length bytes, ask (write_all bytes) l)

write_port : ℕ → Command → Link → Bool × Link
write_port count status l = (true, l)
write_port count complete l = (true, l)
write_port count (write_mem addr value) l = (true, l)
write_port count (read_mem addr size) l = (true, l)
write_port count (write_file none) l = (false, l)
write_port count (write_file (some f)) l = write_firm_data count f.contents l

-- What Read says ends the command, or sends the data behind it.
finish : ℕ → Command → Transfer × ℕ → Link → Sent
finish count c (stop, value) l = done true value l
finish count c (error, value) l = done false value l
finish count c (go_on, value) l = let (ok, l') = write_port count c l in done ok value l'

after_tries : ℕ → ℕ → Command → Tried → Sent
after_tries count old c waits = unfinished
after_tries count old c (failed l) = done false 0 (record l { session = false })
after_tries count old c (replied l) =
    finish count c (read c old (take packet_size l.rcv)) (record l { session = false })

-- The part of Send behind the request.
exchange : ℕ → ℕ → List (List (List Event)) → Command → Written → Link → Sent
exchange count old tries c refused l = done false 0 l
exchange count old tries c crash l = null_read
exchange count old tries c (wrote packet) l = after_tries count old c (
    send_tries max_tries (resp_size c) (take (req_size c) packet) tries
      (record l { session = true }))

-- SdpPacket::Send of a port that is open or not.
pub send : Bool → ℕ → ℕ → List (List (List Event)) → Command → Link → Sent
send false count old tries c l = done false 0 l
send true count old tries c l = exchange count old tries c (request c) l

-- What the world brings to one call of Send.
pub record Attempt : Type 0 where
  pub is_open : Bool
  pub count : ℕ
  pub old : ℕ
  pub tries : List (List (List Event))

after_attempt : Sent → (Link → Sent) → Sent
after_attempt unfinished next = unfinished
after_attempt null_read next = null_read
after_attempt (done true value l) next = done true value l
after_attempt (done false value l) next = next l

-- SdpPacket::Send with its own number of tries.
pub send_again : ℕ → List Attempt → Command → Link → Sent
send_again zero attempts c l = done false 0 l
send_again (suc tries) [] c l = unfinished
send_again (suc tries) (a ∷ attempts) c l =
    after_attempt (send a.is_open a.count a.old a.tries c l) (send_again tries attempts c)
