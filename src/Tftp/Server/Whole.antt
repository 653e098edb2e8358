-- ===== src/Tftp/Server/Whole.antt =====
-- A whole run of the server of src/utils/regiloader/tftp.cpp, for a client that downloads a file.
use regiboard.Base.{
  ℕ, zero, suc, ◌+◌, ◌*◌, ◌%◌, ◌^◌, ◌≤◌, ◌<◌, ◌≡◌, ◌≢◌, refl, sym, ap, ◌∙◌, subst, List, [], ◌∷◌,
  ◌++◌, All, Option, some, Bool, true, false, length, take, drop, length-drop, length-overlay,
  replicate, arith,
}
use regiboard.Tftp.Buffer.{max_size}
use regiboard.Tftp.Packets.{Mode, unknown, Junk}
use regiboard.Tftp.Packets.Layout.{data_datagram, request_bytes}
use regiboard.Tftp.Session.{
  Session, block_size, is_idling, find_file, process, buff_max_size, new_session, open_session,
  async_accept, accept_on, receive, setup_timer, ask, pop_packet,
}
use regiboard.Tftp.Session.Upload.{sends, Serving}
use regiboard.Tftp.Download.{ack_datagram, request_datagram, deliver, arrive}
use regiboard.Tftp.Download.Acks.{deliver-Serving, deliver-Closed}
use regiboard.Tftp.Download.Request.{arrive-request}
use regiboard.Tftp.Server.{Turn, Event, written, arrived, handle, returned, run}
use regiboard.Tftp.Server.Alone.{
  live, ended, own_events, vacant, ran_of, live-dead, run-live, first_session,
}

-- A turn in which the datagram of an acknowledgement comes in behind the last write.
abbrev pub ack_turn : ℕ → Turn
ack_turn n = record {
  failed = false;
  file_sz = 0;
  buff = [];
  events = (0, written false) ∷ (0, arrived false (ack_datagram (n % 65536))) ∷ [];
  err = false;
}

-- The acknowledgements of `k` blocks from number `n` on, and a turn at the end.
abbrev pub ack_turns : ℕ → ℕ → Turn → List Turn
ack_turns zero n last = last ∷ []
ack_turns (suc k) n last = ack_turn n ∷ ack_turns k (n + 1) last

module _ (j : Junk) (after : List ℕ) (host : List ℕ → Option (List ℕ))
    (dir : List (List ℕ × List ℕ)) (two : length after ≡ 2) where
  live-goes :
      (t : Turn) (ts : List Turn) (s : Session)
      → (process host dir s).alive ≡ true
      → (process host dir s).timeout ≡ false
      → t.err ≡ false
      → live j after host dir (t ∷ ts) s
        ≡ live j after host dir ts (own_events j after t.events (process host dir s))
  unfolding live
  live-goes t ts s living calm fine = rw (living, calm, fine) refl

  -- Behind an acknowledgement the poll finds the session that `deliver` yields.
  live-acks :
      (k n : ℕ) (rest : List ℕ) (log : List (List ℕ)) (s : Session) (last : Turn)
      → Serving false log rest (process host dir s)
      → length rest ≤ k * 512
      → k * 512 < length rest + 512
      → live j after host dir (ack_turns (suc k) n last) s ≡ ended true
  unfolding deliver arrive handle
  live-acks zero n [] log s last v hi lo =
      let done = deliver-Closed j after host dir two (n % 65536) log (process host dir s) v in
      live-goes (ack_turn n) (last ∷ []) s v.living v.calm refl
      ∙ live-dead j after host dir last [] _ done.dead done.calm
  live-acks zero n (x ∷ xs) log s last v hi lo = absurd (omega arith)
  live-acks (suc k) n [] log s last v hi lo = absurd (omega arith)
  live-acks (suc k) n (x ∷ xs) log s last v hi lo =
      let next = deliver-Serving j after host dir two (n % 65536) x xs log (process host dir s) v in
      let more = length-drop 512 (x ∷ xs) in
      live-goes (ack_turn n) (ack_turns (suc k) (n + 1) last) s v.living v.calm refl
      ∙ live-acks k (n + 1) (drop 512 (x ∷ xs)) _ _ last next (omega arith) (omega arith)

  -- The first session, polled before anything has come in.
  abbrev polled : Bool → Turn → Session
  polled b t = process host dir (async_accept (open_session b (new_session t.file_sz t.buff)).1)

  abbrev Opened : Turn → Session → Type 0
  Opened t s =
      (s.alive ≡ true)
      × (s.timeout ≡ false)
      × (is_idling s.task.kind ≡ true)
      × (length s.buff ≡ length t.buff)

  polled-Opened : (t : Turn) → Opened t (polled false t)
  unfolding open_session async_accept accept_on receive setup_timer ask process pop_packet
      new_session is_idling
  polled-Opened t = (refl, refl, refl, length-overlay (replicate buff_max_size 0) t.buff)

  polled-Opened_unfailed : (t : Turn) → t.failed ≡ false → Opened t (polled t.failed t)
  polled-Opened_unfailed t h = subst (λ (b : Bool). Opened t (polled b t)) (sym h) (polled-Opened t)

  -- A client downloads a published file of 1 to 2^64-1 bytes that the host has, by a request of at most 258
  -- bytes with a name that is not empty and has no zeros, and a known mode, which comes in during the first
  -- turn of Run on a server without sessions, on a socket that opens and with a buffer of 516 bytes. When
  -- it acknowledges each of the `k + 1` blocks, a turn for each, Run returns true in the turn behind them, and
  -- leaves a server without sessions.
  pub run-download :
      (c : ℕ) (name path : List ℕ) (m : Mode) (x : ℕ) (xs : List ℕ) (k : ℕ) (t last : Turn)
      → length (c ∷ request_bytes name m []) ≤ 256
      → m ≢ unknown
      → All (λ z. z ≢ 0) (c ∷ name)
      → find_file (c ∷ name) dir ≡ some path
      → host path ≡ some (x ∷ xs)
      → length (x ∷ xs) < 2 ^ 64
      → k * 512 < length (x ∷ xs)
      → length (x ∷ xs) ≤ suc k * 512
      → t.failed ≡ false
      → t.err ≡ false
      → t.events ≡ (0, arrived false (request_datagram c name m)) ∷ []
      → length t.buff ≡ max_size
      → run j after host (t ∷ ack_turns (suc k) 1 last) (vacant dir) ≡ returned true (vacant dir)
  unfolding arrive handle
  run-download c name path m x xs k t last fits known clean published there small lo hi opens fine
        asked roomy =
      let s : Session = polled t.failed t in
      let o = polled-Opened_unfailed t opens in
      let log : List (List ℕ) = sends s.calls ++ data_datagram 1 (take block_size (x ∷ xs)) ∷ [] in
      let rest : List ℕ = drop block_size (x ∷ xs) in
      let first : Serving false log rest (arrive j after host dir (request_datagram c name m) s) =
        subst
          (λ (b : Bool). Serving b log rest (arrive j after host dir (request_datagram c name m) s))
          o.1
          (arrive-request j after host dir two c name path m x xs s fits known clean published there
            small o.2 o.0 (o.3 ∙ roomy)) in
      let more = length-drop 512 (x ∷ xs) in
      run-live j after host dir t (ack_turns (suc k) 1 last)
      ∙ ap (ran_of dir) (
          live-goes t (ack_turns (suc k) 1 last) (first_session j after host dir t) o.0 o.1 fine
          ∙ ap
              (λ (es : List (ℕ × Event)).
                live j after host dir (ack_turns (suc k) 1 last) (own_events j after es s))
              asked
          ∙ live-acks k 1 rest log _ last first (omega arith) (omega arith))
