-- ===== src/Tftp/Server.antt =====
-- class TFtp::Server of src/utils/regiloader/tftp.cpp. What the handlers of boost::asio bring during a call
-- of io_service::run is a list of events, each for one of the sessions.
pub mod Files
pub mod Alone
pub mod Whole
use regiboard.Base.{
  ℕ, zero, suc, List, [], ◌∷◌, Option, none, some, Bool, true, false, ◌==◌, ◌||◌, not,
  if◌then◌else◌, length,
}
use regiboard.Tftp.Packets.{Junk}
use regiboard.Tftp.Session.{Session, new_session, open_session, async_accept, process, find_file}
use regiboard.Tftp.Handlers.{handler_timer, handler_write, handler_read}

-- std::map::insert keeps what is there.
unfoldable pub insert_file :
    Option (List ℕ) → List ℕ → List ℕ → List (List ℕ × List ℕ) → List (List ℕ × List ℕ)
insert_file none name path dir = (name, path) ∷ dir
insert_file (some old) name path dir = dir

-- Server::PublishFile
unfoldable pub publish_file :
    List ℕ → List ℕ → List (List ℕ × List ℕ) → Bool × List (List ℕ × List ℕ)
publish_file name path dir =
    if length path == 0
    then (false, dir)
    else if length name == 0
    then (false, dir)
    else (true, insert_file (find_file name dir) name path dir)

pub data Event : Type 0 where
  timer : Bool → Bool → Event
  written : Bool → Event
  arrived : Bool → List ℕ → Event

unfoldable pub handle : Junk → List ℕ → Event → Session → Session
handle j after (timer err expired) s = handler_timer err expired s
handle j after (written err) s = handler_write err s
handle j after (arrived err datagram) s = handler_read j after err datagram s

-- The event of the session with the number `n`.
pub handle_at : Junk → List ℕ → ℕ → Event → List Session → List Session
handle_at j after n e [] = []
handle_at j after zero e (s ∷ ss) = handle j after e s ∷ ss
handle_at j after (suc n) e (s ∷ ss) = s ∷ handle_at j after n e ss

pub handle_all : Junk → List ℕ → List (ℕ × Event) → List Session → List Session
handle_all j after [] ss = ss
handle_all j after ((n, e) ∷ es) ss = handle_all j after es (handle_at j after n e ss)

pub record Server : Type 0 where
  pub has_new : Bool
  pub sessions : List Session
  pub pub_files : List (List ℕ × List ℕ)

-- The poll of the sessions: the first one that is closed or has timed out leaves the list and ends Run.
pub poll :
    (List ℕ → Option (List ℕ)) → List (List ℕ × List ℕ) → List Session → Option Bool × List Session
poll host dir [] = (none, [])
poll host dir (s ∷ ss) =
    let s' = process host dir s in
    let (res, ss') = poll host dir ss in
    if not s'.alive || s'.timeout then (some (not s'.timeout), ss) else (res, s' ∷ ss')

-- What the world brings to one turn of Run: the socket of a new session fails or not, the memory that the
-- session takes over, the events, the error of io_service::run.
pub record Turn : Type 0 where
  pub failed : Bool
  pub file_sz : ℕ
  pub buff : List ℕ
  pub events : List (ℕ × Event)
  pub err : Bool

pub data Ran : Type 0 where
  goes_on : Server → Ran
  returned : Bool → Server → Ran

-- A new session, when there is none that waits.
pub accept_new : Turn → Server → Server
accept_new t v =
    let s = async_accept (open_session t.failed (new_session t.file_sz t.buff)).1 in
    if v.has_new then v else record v { has_new = true; sessions = s ∷ v.sessions }

pub after_poll : Junk → List ℕ → Turn → Server → Option Bool × List Session → Ran
after_poll j after t v (some res, ss) = returned res (record v { has_new = false; sessions = ss })
after_poll j after t v (none, ss) =
    let v' : Server = record v { sessions = handle_all j after t.events ss } in
    if t.err then returned false v' else goes_on v'

pub turn : Junk → List ℕ → (List ℕ → Option (List ℕ)) → Turn → Server → Ran
turn j after host t v =
    let v' = accept_new t v in after_poll j after t v' (poll host v'.pub_files v'.sessions)

pub next_turn : Ran → (Server → Ran) → Ran
next_turn (goes_on v) next = next v
next_turn (returned res v) next = returned res v

-- Server::Run, for the turns that the world brings.
pub run : Junk → List ℕ → (List ℕ → Option (List ℕ)) → List Turn → Server → Ran
run j after host [] v = goes_on v
run j after host (t ∷ ts) v = next_turn (turn j after host t v) (run j after host ts)
