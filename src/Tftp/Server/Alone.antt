-- ===== src/Tftp/Server/Alone.antt =====
-- Server::Run of src/utils/regiloader/tftp.cpp holds one session at a time.
use regiboard.Base.{
  ℕ, zero, suc, ◌≡◌, refl, ap, ◌∙◌, List, [], ◌∷◌, Option, none, some, Bool, true, false, ◌||◌, not,
  if◌then◌else◌,
}
use regiboard.Tftp.Packets.{Junk}
use regiboard.Tftp.Session.{
  Session, new_session, open_session, async_accept, accept_on, receive, setup_timer, ask,
  pop_packet, process,
}
use regiboard.Tftp.Server.{
  Event, handle, handle_at, handle_all, Server, poll, Turn, Ran, goes_on, returned, accept_new,
  after_poll, turn, next_turn, run,
}

-- How the life of a session ends, or where it stands.
pub data Life : Type 0 where
  living broken : Session → Life
  ended : Bool → Life

-- The events of the session, which has the number 0.
abbrev pub own_events : Junk → List ℕ → List (ℕ × Event) → Session → Session
own_events j after [] s = s
own_events j after ((zero, e) ∷ es) s = own_events j after es (handle j after e s)
own_events j after ((suc n, e) ∷ es) s = own_events j after es s

abbrev if_done : Bool → Session → Life → Life
if_done true s later = ended (not s.timeout)
if_done false s later = later

abbrev if_failed : Bool → Session → Life → Life
if_failed true s later = broken s
if_failed false s later = later

-- One session alone: poll, events, poll, and so on, up to its end or a failure of io_service::run.
unfoldable pub live :
    Junk → List ℕ → (List ℕ → Option (List ℕ)) → List (List ℕ × List ℕ) → List Turn → Session → Life
live j after host dir [] s = living s
live j after host dir (t ∷ ts) s =
    let s' = process host dir s in
    let next = own_events j after t.events s' in
    let later = live j after host dir ts next in
    if_done (not s'.alive || s'.timeout) s' (if_failed t.err next later)

abbrev pub lone : List (List ℕ × List ℕ) → Session → Server
lone dir s = record { has_new = true; sessions = s ∷ []; pub_files = dir }

abbrev pub vacant : List (List ℕ × List ℕ) → Server
vacant dir = record { has_new = false; sessions = []; pub_files = dir }

-- The server around the session.
abbrev pub ran_of : List (List ℕ × List ℕ) → Life → Ran
ran_of dir (living s) = goes_on (lone dir s)
ran_of dir (broken s) = returned false (lone dir s)
ran_of dir (ended res) = returned res (vacant dir)

handle_all-own :
    (j : Junk) (after : List ℕ) (es : List (ℕ × Event)) (s : Session)
    → handle_all j after es (s ∷ []) ≡ own_events j after es s ∷ []
unfolding handle_all handle_at
handle_all-own j after [] s = refl
handle_all-own j after ((zero, e) ∷ es) s = handle_all-own j after es (handle j after e s)
handle_all-own j after ((suc n, e) ∷ es) s = handle_all-own j after es s

module _ (j : Junk) (after : List ℕ) (host : List ℕ → Option (List ℕ))
    (dir : List (List ℕ × List ℕ)) where
  -- The end of a turn, for a failure of io_service::run or none.
  run_failed :
      (b : Bool) (v : Server) (s : Session) (next : Server → Ran) (later : Life)
      → v ≡ lone dir s
      → next (lone dir s) ≡ ran_of dir later
      → next_turn (if b then returned false v else goes_on v) next
        ≡ ran_of dir (if_failed b s later)
  unfolding next_turn
  run_failed true v s next later e h = ap (returned false) e
  run_failed false v s next later e h = ap next e ∙ h

  -- The turn behind the poll, for a session that is done or not.
  after_poll-lone :
      (t : Turn) (b : Bool) (s s' : Session) (next : Server → Ran) (later : Life)
      → next (lone dir (own_events j after t.events s')) ≡ ran_of dir later
      → next_turn
          (after_poll j after t
            (lone dir s)
            (if b then (some (not s'.timeout), []) else (none, s' ∷ [])))
          next
        ≡ ran_of dir (if_done b s' (if_failed t.err (own_events j after t.events s') later))
  unfolding after_poll next_turn
  after_poll-lone t true s s' next later h = refl
  after_poll-lone t false s s' next later h =
      run_failed t.err (record (lone dir s) { sessions = handle_all j after t.events (s' ∷ []) })
        (own_events j after t.events s') next later
        (ap (λ (ss : List Session). record (lone dir s) { sessions = ss })
          (handle_all-own j after t.events s'))
        h

  pub run-lone :
      (ts : List Turn) (s : Session)
      → run j after host ts (lone dir s) ≡ ran_of dir (live j after host dir ts s)
  unfolding run live turn accept_new poll
  run-lone [] s = refl
  run-lone (t ∷ ts) s =
      let s' = process host dir s in
      after_poll-lone t (not s'.alive || s'.timeout) s s' (run j after host ts)
        (live j after host dir ts (own_events j after t.events s'))
        (run-lone ts (own_events j after t.events s'))

  -- The session that Run makes for its first turn.
  abbrev pub first_session : Turn → Session
  first_session t = async_accept (open_session t.failed (new_session t.file_sz t.buff)).1

  -- Run on a server without sessions is the life of one session, the one that it makes in its first turn, and
  -- no turn makes another: it returns whether the session ended without a timeout, and leaves a server
  -- without sessions again, or returns false with the session, when io_service::run fails.
  pub run-live :
      (t : Turn) (ts : List Turn)
      → run j after host (t ∷ ts) (vacant dir)
        ≡ ran_of dir (live j after host dir (t ∷ ts) (first_session t))
  unfolding run turn accept_new
  run-live t ts = run-lone (t ∷ ts) (first_session t)

  unopened :
      (file_sz : ℕ) (buff : List ℕ)
      → ((process host dir (async_accept (open_session true (new_session file_sz buff)).1)).alive
          ≡ false)
        × ((process host dir
              (async_accept (open_session true (new_session file_sz buff)).1)).timeout
            ≡ false)
  unfolding open_session async_accept accept_on receive setup_timer ask process pop_packet
      new_session
  unopened file_sz buff = (refl, refl)

  -- A turn at a session that is not alive, and has not timed out.
  pub live-dead :
      (t : Turn) (ts : List Turn) (s : Session)
      → (process host dir s).alive ≡ false
      → (process host dir s).timeout ≡ false
      → live j after host dir (t ∷ ts) s ≡ ended true
  unfolding live
  live-dead t ts s dead quiet = rw (dead, quiet) refl

  -- When the socket of the new session does not open, Run returns true all the same, in its first turn.
  pub run-unopened :
      (t : Turn) (ts : List Turn)
      → t.failed ≡ true
      → run j after host (t ∷ ts) (vacant dir) ≡ returned true (vacant dir)
  run-unopened t ts h =
      run-live t ts
      ∙ ap
          (λ (b : Bool). ran_of dir (
            live j after host dir (t ∷ ts)
              (async_accept (open_session b (new_session t.file_sz t.buff)).1)))
          h
      ∙ ap (ran_of dir) (
          live-dead t ts (async_accept (open_session true (new_session t.file_sz t.buff)).1)
            (unopened t.file_sz t.buff).0 (unopened t.file_sz t.buff).1)
