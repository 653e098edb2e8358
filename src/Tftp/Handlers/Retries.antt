-- ===== src/Tftp/Handlers/Retries.antt =====
-- The retransmissions of TFtp::Session, src/utils/regiloader/tftp.cpp.
use regiboard.Base.{
  ℕ, ◌⊎◌, inl, inr, Bool, zero, suc, ◌+◌, ◌%◌, ◌<◌, ◌≡◌, ◌≢◌, refl, sym, ap, ◌∙◌, List, [], ◌∷◌,
  ◌++◌, append_assoc, append-nil, none, some, true, false, ==-false, leb-false, take, replicate,
  arith,
}
use regiboard.Tftp.Packets.{Packet, write_packet}
use regiboard.Tftp.Session.{
  Session, send_to, cancel_socket, ask, send, start_transaction, receive_from, buff_max_size,
  async_accept, accept_on, receive, setup_timer,
}
use regiboard.Tftp.Session.Upload.{sends, sends-append}
use regiboard.Tftp.Handlers.{resend, give_up, handler_timer, handler_write}

-- A round without an answer: the timer expires, and the write that it has asked for is done, which starts the
-- timer again.
pub round_lost : Session → Session
round_lost s = handler_write false (handler_timer false true s)

pub rounds_lost : ℕ → Session → Session
unfolding round_lost
rounds_lost zero s = s
rounds_lost (suc n) s = rounds_lost n (round_lost s)

-- A session that waits for an answer to `pkt`, after `t` retransmissions.
abbrev pub waiting_for : Packet → ℕ → Session → Session
waiting_for pkt t s = record s { output = some pkt; timeout_tries = t }

-- The session behind one more retransmission.
abbrev resent : Packet → Session → Session
resent pkt s = record s {
  input = none;
  calls = (s.calls ++ cancel_socket ∷ []) ++ send_to (take pkt.buff.size pkt.buff.bytes) ∷ [];
}

last_try : (t : ℕ) → t < 12 → (t < 11) ⊎ (t ≡ 11)
last_try t h = omega arith

module _ (pkt : Packet) (same : write_packet pkt ≡ pkt) (full : pkt.buff.size ≢ 0) where
  handler_timer-next :
      (t : ℕ) (s : Session)
      → t < 11
      → handler_timer false true (waiting_for pkt t s) ≡ waiting_for pkt (t + 1) (resent pkt s)
  unfolding handler_timer resend give_up start_transaction send ask
  handler_timer-next t s h =
      rw (same, ==-false pkt.buff.size 0 full, leb-false 12 ((t + 1) % 256) (omega arith))
        (ap (λ (k : ℕ). waiting_for pkt k (resent pkt s)) (omega arith))

  handler_timer-last :
      (s : Session)
      → handler_timer false true (waiting_for pkt 11 s)
        ≡ record (waiting_for pkt 0 (resent pkt s)) { timeout = true }
  unfolding handler_timer resend give_up start_transaction send ask
  handler_timer-last s = rw (same, ==-false pkt.buff.size 0 full) refl

  sends-resent :
      (s : Session)
      → sends (resent pkt s).calls ≡ sends s.calls ++ take pkt.buff.size pkt.buff.bytes ∷ []
  sends-resent s =
      sends-append (s.calls ++ cancel_socket ∷ []) _
      ∙ unfold sends in
        ap (λ (l : List (List ℕ)). l ++ take pkt.buff.size pkt.buff.bytes ∷ [])
          (sends-append s.calls _ ∙ append-nil _)

  -- The session behind the round.
  abbrev rearmed : Session → Session
  rearmed s = handler_write false (resent pkt s)

  -- The end of the write clears the timeout that a handler of the timer has set.
  handler_write-waiting :
      (b : Bool) (t : ℕ) (s : Session)
      → handler_write false (record (waiting_for pkt t (resent pkt s)) { timeout = b })
        ≡ waiting_for pkt t (rearmed s)
  unfolding handler_write async_accept accept_on receive setup_timer ask
  handler_write-waiting b t s = refl

  round-next :
      (t : ℕ) (s : Session)
      → t < 11
      → round_lost (waiting_for pkt t s) ≡ waiting_for pkt (t + 1) (rearmed s)
  unfolding round_lost
  round-next t s h =
      ap (handler_write false) (handler_timer-next t s h)
      ∙ handler_write-waiting s.timeout (t + 1) s

  round-last : (s : Session) → round_lost (waiting_for pkt 11 s) ≡ waiting_for pkt 0 (rearmed s)
  unfolding round_lost
  round-last s = ap (handler_write false) (handler_timer-last s) ∙ handler_write-waiting true 0 s

  round-some :
      (t : ℕ) (s : Session)
      → t < 12
      → (t' : ℕ) × (t' < 12) × (round_lost (waiting_for pkt t s) ≡ waiting_for pkt t' (rearmed s))
  round-some t s h = elim (last_try t h) [
    | inl more ↦ (t + 1, omega arith, round-next t s more)
    | inr e ↦ (0, omega arith, ap (λ (k : ℕ). round_lost (waiting_for pkt k s)) e ∙ round-last s)
  ]

  rearmed-calm : (s : Session) → (rearmed s).timeout ≡ false
  unfolding handler_write async_accept accept_on receive setup_timer ask
  rearmed-calm s = refl

  sends-rearmed :
      (s : Session)
      → sends (rearmed s).calls ≡ sends s.calls ++ take pkt.buff.size pkt.buff.bytes ∷ []
  unfolding handler_write async_accept accept_on receive setup_timer ask sends
  sends-rearmed s =
      sends-append ((resent pkt s).calls ++ receive_from buff_max_size ∷ []) _
      ∙ append-nil _
      ∙ sends-append (resent pkt s).calls _
      ∙ append-nil _
      ∙ sends-resent s

  -- A packet that is not empty and that Write leaves as it is, as a block of data, and a client that is
  -- gone, in a session without a timeout and with fewer than 12 tries: however many rounds go by, each sends the packet once more and ends without a timeout. The twelfth
  -- expiry in a row sets the timeout, but the end of its write clears it.
  pub rounds_lost-sends :
      (n t : ℕ) (s : Session)
      → t < 12
      → s.timeout ≡ false
      → (sends (rounds_lost n (waiting_for pkt t s)).calls
          ≡ sends s.calls ++ replicate n (take pkt.buff.size pkt.buff.bytes))
        × ((rounds_lost n (waiting_for pkt t s)).timeout ≡ false)
        × ((handler_timer false true (waiting_for pkt 11 s)).timeout ≡ true)
  unfolding rounds_lost
  rounds_lost-sends zero t s h calm = (
    sym (append-nil (sends s.calls)),
    calm,
    ap (λ (q : Session). q.timeout) (handler_timer-last s),
  )
  rounds_lost-sends (suc n) t s h calm =
      let (t', h', e) = round-some t s h in
      let r = rounds_lost-sends n t' (rearmed s) h' (rearmed-calm s) in
      let more : sends (rounds_lost (suc n) (waiting_for pkt t s)).calls
          ≡ sends (rearmed s).calls ++ replicate n (take pkt.buff.size pkt.buff.bytes) =
        ap (λ (q : Session). sends (rounds_lost n q).calls) e ∙ r.0 in
      (
        more
            ∙ ap (λ (l : List (List ℕ)). l ++ replicate n (take pkt.buff.size pkt.buff.bytes))
                (sends-rearmed s)
            ∙ append_assoc (sends s.calls) _ _,
        ap (λ (q : Session). (rounds_lost n q).timeout) e ∙ r.1,
        ap (λ (q : Session). q.timeout) (handler_timer-last s),
      )
