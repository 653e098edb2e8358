-- ===== src/Tftp/Session/Upload.antt =====
-- One file to one client of src/utils/regiloader/tftp.cpp: what a session sends for each acknowledgement.
use regiboard.Base.{
  Bool, ℕ, ◌+◌, ◌%◌, ◌^◌, ◌≤◌, ◌<◌, ◌≡◌, refl, sym, ap, ◌∙◌, List, [], ◌∷◌, ◌++◌, append-nil,
  Option, none, some, true, false, if◌then◌else◌, length, take, drop, arith, ltb, leb-true,
  ==-false, length-take, length-drop, drop-drop, take-min, drop-min, min, Bool-cases, inl, inr,
}
use regiboard.Tftp.Buffer.{max_size}
use regiboard.Tftp.Packets.{data_packet, Mode}
use regiboard.Tftp.Packets.Layout.{data_datagram, data_packet-Holds, write_packet-data}
use regiboard.Tftp.Session.{
  Session, Task, uploading, Call, send_to, receive_from, start_timer, cancel_socket, cancel_timer,
  close_socket, ask, close, detect_file_size, open_file, read_file, send, start_transaction,
  push_packet, block_size, is_uploading, is_idling, started, not_ready, tail_size, process_task,
  start_upload, next_block,
}

-- The datagrams among the calls of boost::asio.
unfoldable pub sends : List Call → List (List ℕ)
sends [] = []
sends (send_to bytes ∷ cs) = bytes ∷ sends cs
sends (receive_from n ∷ cs) = sends cs
sends (start_timer n ∷ cs) = sends cs
sends (cancel_socket ∷ cs) = sends cs
sends (cancel_timer ∷ cs) = sends cs
sends (close_socket ∷ cs) = sends cs

pub sends-append : (xs ys : List Call) → sends (xs ++ ys) ≡ sends xs ++ sends ys
unfolding sends
sends-append [] ys = refl
sends-append (send_to bytes ∷ cs) ys = ap (◌∷◌ bytes) (sends-append cs ys)
sends-append (receive_from n ∷ cs) ys = sends-append cs ys
sends-append (start_timer n ∷ cs) ys = sends-append cs ys
sends-append (cancel_socket ∷ cs) ys = sends-append cs ys
sends-append (cancel_timer ∷ cs) ys = sends-append cs ys
sends-append (close_socket ∷ cs) ys = sends-append cs ys

-- A task that is uploading and has `rest` still to send.
pub record Has (rest : List ℕ) (t : Task) : Type 0 where
  pub busy : t.kind ≡ uploading
  pub opened : t.file.is_open ≡ true
  pub fine : t.file.good ≡ true
  pub left : drop t.file.pos t.file.contents ≡ rest
  pub sized : t.file_sz ≡ length t.file.contents
  pub inside : t.file.pos ≤ length t.file.contents
  pub small : length t.file.contents < 2 ^ 64

not_ready-false : (rest : List ℕ) (t : Task) → Has rest t → not_ready t ≡ false
unfolding not_ready is_uploading
not_ready-false rest t h = rw (h.busy, h.opened, h.fine) refl

-- What is left has the size that ProcessTask computes.
tail_size-length : (rest : List ℕ) (t : Task) → Has rest t → tail_size t ≡ length rest
unfolding tail_size
tail_size-length rest t h =
    omega
      (arith, ap length h.left, length-drop t.file.pos t.file.contents, h.sized, h.inside, h.small)

block_length : (n : ℕ) → (if ltb block_size n then block_size else n) ≡ min block_size n
block_length n = elim (Bool-cases (ltb block_size n)) [
  | inl e ↦ rw e (ground arith)
  | inr e ↦ rw e (ground arith)
]

-- Pushing a block sends its datagram.
push_packet-data :
    (id x : ℕ) (xs : List ℕ) (s : Session)
    → length (x ∷ xs) ≤ block_size
    → push_packet (data_packet id (x ∷ xs)) s
      ≡ send (data_datagram id (x ∷ xs)) (record s { output = some (data_packet id (x ∷ xs)) })
unfolding push_packet start_transaction
push_packet-data id x xs s h =
    let b = data_packet-Holds id x xs h in
    rw
      (
        write_packet-data id (x ∷ xs),
        ==-false (data_packet id (x ∷ xs)).buff.size 0 (omega (arith, b.counted)),
        b.filled,
      )
      refl

-- ProcessTask with nothing left does nothing and says so.
process_task-end : (id : ℕ) (s : Session) → Has [] s.task → process_task id s ≡ (false, s)
unfolding process_task
process_task-end id s h = rw (not_ready-false [] s.task h, tail_size-length [] s.task h) refl

read_file-block :
    (rest : List ℕ) (t : Task)
    → Has rest t
    → (read_file (min block_size (length rest)) t.file).0 ≡ take block_size rest
unfolding read_file
read_file-block rest t h =
    ap (take (min block_size (length rest))) h.left ∙ take-min block_size rest

-- The task behind one block.
next_task : List ℕ → Task → Task
next_task rest t = record t { file = (read_file (min block_size (length rest)) t.file).1 }

-- ProcessTask with something left sends the next block of it, at most 512 bytes.
process_task-block :
    (id x : ℕ) (xs : List ℕ) (s : Session)
    → Has (x ∷ xs) s.task
    → process_task id s ≡ (
      true,
      send (data_datagram id (take block_size (x ∷ xs))) (record s {
        output = some (data_packet id (take block_size (x ∷ xs)));
        task = next_task (x ∷ xs) s.task;
      }),
    )
unfolding process_task next_task
process_task-block id x xs s h =
    rw
      (
        not_ready-false _ s.task h,
        tail_size-length _ s.task h,
        block_length (length (x ∷ xs)),
        ==-false (length (x ∷ xs)) 0 (omega arith),
        read_file-block (x ∷ xs) s.task h,
        push_packet-data id x (take 511 xs) _ (omega (arith, length-take 511 xs)),
      )
      refl

read_count :
    (rest : List ℕ) (t : Task)
    → Has rest t
    → length (take (min block_size (length rest)) (drop t.file.pos t.file.contents))
      ≡ min block_size (length rest)
read_count rest t h =
    ap (λ (x : List ℕ). length (take (min block_size (length rest)) x)) h.left
    ∙ omega (arith, length-take (min block_size (length rest)) rest)

next_task-Has :
    (rest : List ℕ) (t : Task) → Has rest t → Has (drop block_size rest) (next_task rest t)
unfolding next_task read_file
next_task-Has rest t h = record {
  busy = h.busy;
  opened = h.opened;
  fine = leb-true _ _ (omega (arith, read_count rest t h));
  left =
      ap (λ (k : ℕ). drop (t.file.pos + k) t.file.contents) (read_count rest t h)
      ∙ sym (drop-drop t.file.pos (min block_size (length rest)) t.file.contents)
      ∙ ap (drop (min block_size (length rest))) h.left
      ∙ drop-min block_size rest;
  sized = h.sized;
  inside = omega (
    arith,
    read_count rest t h,
    h.inside,
    ap length h.left,
    length-drop t.file.pos t.file.contents,
  );
  small = h.small;
}

-- Between two acknowledgements: a live session with no input, that has sent `log` and has `rest` left.
pub record Serving (b : Bool) (log : List (List ℕ)) (rest : List ℕ) (s : Session) : Type 0 where
  pub living : s.alive ≡ true
  pub waits : s.input ≡ none
  pub work : Has rest s.task
  pub sent : sends s.calls ≡ log
  pub roomy : length s.buff ≡ max_size
  pub calm : s.timeout ≡ b

-- A closed session that has sent `log`.
pub record Closed (b : Bool) (log : List (List ℕ)) (s : Session) : Type 0 where
  pub dead : s.alive ≡ false
  pub sent : sends s.calls ≡ log
  pub calm : s.timeout ≡ b

-- The datagram of the next block goes behind the log.
process_task-Serving :
    {b : Bool} (id x : ℕ) (xs : List ℕ) (log : List (List ℕ)) (s : Session)
    → Serving b log (x ∷ xs) s
    → ((process_task id s).0 ≡ true)
      × Serving b
          (log ++ data_datagram id (take block_size (x ∷ xs)) ∷ [])
          (drop block_size (x ∷ xs))
          (process_task id s).1
process_task-Serving id x xs log s v = rw (process_task-block id x xs s v.work) (
  refl,
  unfold send ask in
      record {
        living = v.living;
        waits = refl;
        work = next_task-Has (x ∷ xs) s.task v.work;
        sent =
            sends-append s.calls _
            ∙ unfold sends in
              ap (λ (l : List (List ℕ)). l ++ data_datagram id (take block_size (x ∷ xs)) ∷ [])
                v.sent;
        roomy = v.roomy;
        calm = v.calm;
      },
)

is_uploading-true : (rest : List ℕ) (t : Task) → Has rest t → is_uploading t.kind ≡ true
unfolding is_uploading
is_uploading-true rest t h = rw h.busy refl

close-Closed :
    {b : Bool} (log : List (List ℕ)) (s : Session)
    → sends s.calls ≡ log
    → s.timeout ≡ b
    → Closed b log (close s)
unfolding close ask sends
close-Closed log s h calm = record {
  dead = refl;
  sent = sends-append s.calls (close_socket ∷ []) ∙ append-nil (sends s.calls) ∙ h;
  calm = calm;
}

-- An acknowledgement brings the next block, or the end when nothing is left.
pub next_block-Serving :
    {b : Bool} (id x : ℕ) (xs : List ℕ) (log : List (List ℕ)) (s : Session)
    → Serving b log (x ∷ xs) s
    → Serving b
        (log ++ data_datagram ((id + 1) % 65536) (take block_size (x ∷ xs)) ∷ [])
        (drop block_size (x ∷ xs))
        (next_block id s)
unfolding next_block
next_block-Serving id x xs log s v =
    let r = process_task-Serving ((id + 1) % 65536) x xs log s v in
    rw (is_uploading-true _ s.task v.work, r.0) r.1

pub next_block-Closed :
    {b : Bool} (id : ℕ) (log : List (List ℕ)) (s : Session)
    → Serving b log [] s
    → Closed b log (next_block id s)
unfolding next_block
next_block-Closed id log s v =
    rw (is_uploading-true _ s.task v.work, process_task-end ((id + 1) % 65536) s v.work)
      (close-Closed log s v.sent v.calm)

started-Serving :
    {b : Bool} (bytes : List ℕ) (m : Mode) (log : List (List ℕ)) (s : Session)
    → s.alive ≡ true
    → s.input ≡ none
    → length s.buff ≡ max_size
    → sends s.calls ≡ log
    → length bytes < 2 ^ 64
    → s.timeout ≡ b
    → Serving b log bytes (started (some bytes) m s)
unfolding started open_file detect_file_size
started-Serving bytes m log s living waits roomy sent small calm = record {
  living = living;
  waits = waits;
  work = record {
    busy = refl;
    opened = refl;
    fine = refl;
    left = refl;
    sized = refl;
    inside = omega arith;
    small = small;
  };
  sent = sent;
  roomy = roomy;
  calm = calm;
}

-- The first block follows the request for a file that is there and not empty.
pub start_upload-Serving :
    {b : Bool} (host : List ℕ → Option (List ℕ)) (path : List ℕ) (m : Mode) (x : ℕ) (xs : List ℕ)
    (log : List (List ℕ)) (s : Session)
    → is_idling s.task.kind ≡ true
    → s.alive ≡ true
    → s.input ≡ none
    → length s.buff ≡ max_size
    → sends s.calls ≡ log
    → host path ≡ some (x ∷ xs)
    → length (x ∷ xs) < 2 ^ 64
    → s.timeout ≡ b
    → Serving b
        (log ++ data_datagram 1 (take block_size (x ∷ xs)) ∷ [])
        (drop block_size (x ∷ xs))
        (start_upload host path m s)
unfolding start_upload
start_upload-Serving host path m x xs log s idle living waits roomy sent there small calm =
    rw (idle, there)
      (process_task-Serving 1 x xs log (started (some (x ∷ xs)) m s)
        (started-Serving (x ∷ xs) m log s living waits roomy sent small calm)).1
