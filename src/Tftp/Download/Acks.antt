-- ===== src/Tftp/Download/Acks.antt =====
-- The acknowledgements of a download from src/utils/regiloader/tftp.cpp.
use regiboard.Base.{
  Bool, ℕ, zero, suc, ◌+◌, ◌*◌, ◌/◌, ◌%◌, ◌≤◌, ◌<◌, ◌≡◌, refl, sym, ap, ◌∙◌, subst, List, [], ◌∷◌,
  ◌++◌, append_assoc, append-nil, Option, some, false, length, take, drop, arith, length-drop,
}
use regiboard.Tftp.Buffer.{max_size}
use regiboard.Tftp.Buffer.Laws.{clear-Holds}
use regiboard.Tftp.Packets.{new_ack, Junk}
use regiboard.Tftp.Packets.Layout.{data_datagram, read_packet-ack}
use regiboard.Tftp.Session.{Session, block_size, next_block, dispatch, process, pop_packet}
use regiboard.Tftp.Session.Upload.{Serving, Closed, next_block-Serving, next_block-Closed}
use regiboard.Tftp.Handlers.{handler_write, handler_read, packet_for}
use regiboard.Tftp.Handlers.Input.{
  packet_bytes, filled, new_buff, handler_read-known, handler_write-Awaits,
}
use regiboard.Tftp.Download.{
  arrive, deliver, ack_datagram, acknowledge, datagrams, quiet, quiet-Serving,
}

module _ (j : Junk) (after : List ℕ) (host : List ℕ → Option (List ℕ))
    (dir : List (List ℕ × List ℕ)) (two : length after ≡ 2) where
  packet_for-ack : packet_for j 4 ≡ some (new_ack j.t0)
  unfolding packet_for
  packet_for-ack = refl

  ack_clean : length (new_ack j.t0).buff.bytes ≡ max_size
  unfolding new_ack
  ack_clean = clear-Holds.room

  module _ (s : Session) (roomy : length s.buff ≡ max_size) (x y : ℕ) where
    ack_buff : List ℕ
    ack_buff =
        new_buff j after 0 4 x (y ∷ []) (new_ack j.t0) s (omega arith) two roomy packet_for-ack
          ack_clean

    ack_buff-full : length ack_buff ≡ max_size
    unfolding ack_buff
    ack_buff-full = omega (arith, length-drop 4 s.buff, roomy)

    read-ack :
        process host dir (handler_read j after false (0 ∷ 4 ∷ x ∷ y ∷ []) s)
        ≡ next_block (x * 256 + y) (quiet s ack_buff)
    unfolding process dispatch pop_packet quiet ack_buff new_ack
    read-ack =
        rw
          (
            handler_read-known j after 0 4 x (y ∷ []) (new_ack j.t0) s (omega arith) two roomy
                packet_for-ack ack_clean,
            read_packet-ack j x y j.t0 _
                (filled (new_ack j.t0) (packet_bytes (x ∷ y ∷ []) s.buff after)) refl refl,
          )
          refl

  number_bytes : (id : ℕ) → id / 256 * 256 + id % 256 ≡ id
  number_bytes id = omega arith

  -- An acknowledgement brings the session to next_block, as it was but for its buffer.
  record Delivered (id : ℕ) (log : List (List ℕ)) (rest : List ℕ) (s : Session) : Type 0 where
    before : Session
    serving : Serving false log rest before
    delivered : deliver j after host dir (ack_datagram id) s ≡ next_block id before

  deliver-Delivered :
      {b : Bool} (id : ℕ) (log : List (List ℕ)) (rest : List ℕ) (s : Session)
      → Serving b log rest s
      → Delivered id log rest s
  unfolding deliver arrive
  deliver-Delivered id log rest s v =
      let aw = handler_write-Awaits s v.waits in
      let roomy = aw.roomy ∙ v.roomy in
      record {
        before =
            quiet (handler_write false s)
              (ack_buff (handler_write false s) roomy (id / 256) (id % 256));
        serving = quiet-Serving log rest _ s _ v aw (ack_buff-full _ roomy (id / 256) (id % 256));
        delivered =
            read-ack (handler_write false s) roomy (id / 256) (id % 256)
            ∙ ap
                (λ (k : ℕ). next_block k (
                  quiet (handler_write false s)
                    (ack_buff (handler_write false s) roomy (id / 256) (id % 256))))
                (number_bytes id);
      }

  pub deliver-Serving :
      {b : Bool} (id x : ℕ) (xs : List ℕ) (log : List (List ℕ)) (s : Session)
      → Serving b log (x ∷ xs) s
      → Serving false
          (log ++ data_datagram ((id + 1) % 65536) (take block_size (x ∷ xs)) ∷ [])
          (drop block_size (x ∷ xs))
          (deliver j after host dir (ack_datagram id) s)
  deliver-Serving id x xs log s v =
      let d = deliver-Delivered id log (x ∷ xs) s v in
      subst (Serving false _ _) (sym d.delivered)
        (next_block-Serving id x xs log d.before d.serving)

  pub deliver-Closed :
      {b : Bool} (id : ℕ) (log : List (List ℕ)) (s : Session)
      → Serving b log [] s
      → Closed false log (deliver j after host dir (ack_datagram id) s)
  deliver-Closed id log s v =
      let d = deliver-Delivered id log [] s v in
      subst (Closed false log) (sym d.delivered) (next_block-Closed id log d.before d.serving)

  pub next_number : (n : ℕ) → (n % 65536 + 1) % 65536 ≡ (n + 1) % 65536
  next_number n = omega arith

  -- A client that acknowledges every block gets every block, and the last acknowledgement closes the session.
  pub acknowledge-Closed :
      (k n : ℕ) {b : Bool} (rest : List ℕ) (log : List (List ℕ)) (s : Session)
      → Serving b log rest s
      → length rest ≤ k * 512
      → k * 512 < length rest + 512
      → Closed false (log ++ datagrams k (n + 1) rest) (acknowledge j after host dir (suc k) n s)
  unfolding acknowledge datagrams
  acknowledge-Closed zero n [] log s v hi lo =
      subst
        (λ (l : List (List ℕ)).
          Closed false l (deliver j after host dir (ack_datagram (n % 65536)) s))
        (sym (append-nil log)) (deliver-Closed (n % 65536) log s v)
  acknowledge-Closed zero n (x ∷ xs) log s v hi lo = absurd (omega arith)
  acknowledge-Closed (suc k) n [] log s v hi lo = absurd (omega arith)
  acknowledge-Closed (suc k) n (x ∷ xs) log s v hi lo =
      let first = deliver-Serving (n % 65536) x xs log s v in
      let first' = rw (next_number n) at first in
      let more = length-drop 512 (x ∷ xs) in
      let r =
        acknowledge-Closed k (n + 1) (drop 512 (x ∷ xs)) _ _ first' (omega arith) (omega arith) in
      subst (λ (l : List (List ℕ)). Closed false l (acknowledge j after host dir (suc (suc k)) n s))
        (append_assoc log _ _) r
