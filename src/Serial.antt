-- ===== src/Serial.antt =====
-- The serial port, boost::asio::serial_port, as ymodem.cpp uses it through the blocking calls
-- boost::asio::write and boost::asio::read. The library is not part of the repository, so the port
-- is an interface: a type of port states and its operations.
use regiboard.Base.{ℕ, ◌≡◌, List, [], ◌∷◌, ◌++◌, Bool, true, Option, none, some, length}

pub record Serial : Type 1 where
  pub Port : Type 0
  pub is_open : Port → Bool
  -- boost::asio::write: the number of bytes written, and the port after it.
  pub write : List ℕ → Port → ℕ × Port
  -- boost::asio::read of one byte: the byte, or none if fewer bytes than one were read.
  pub read_byte : Port → Option ℕ × Port

-- What the documentation of the library promises: a blocking write sends all its bytes in order, and
-- a blocking read takes the bytes that arrive in order. `incoming` is all that will ever arrive.
pub record Wire (s : Serial) : Type 0 where
  pub sent : s.Port → List ℕ
  pub incoming : s.Port → List ℕ
  pub write_count : (bs : List ℕ) (p : s.Port) → (s.write bs p).0 ≡ length bs
  pub sent-write : (bs : List ℕ) (p : s.Port) → sent (s.write bs p).1 ≡ sent p ++ bs
  pub incoming-write : (bs : List ℕ) (p : s.Port) → incoming (s.write bs p).1 ≡ incoming p
  pub is_open-write : (bs : List ℕ) (p : s.Port) → s.is_open (s.write bs p).1 ≡ s.is_open p
  pub read_head :
      (p : s.Port) (b : ℕ) (bs : List ℕ) → incoming p ≡ b ∷ bs → (s.read_byte p).0 ≡ some b
  pub incoming-read :
      (p : s.Port) (b : ℕ) (bs : List ℕ) → incoming p ≡ b ∷ bs → incoming (s.read_byte p).1 ≡ bs
  pub sent-read : (p : s.Port) → sent (s.read_byte p).1 ≡ sent p
  pub is_open-read : (p : s.Port) → s.is_open (s.read_byte p).1 ≡ s.is_open p

-- A port that plays a script: it is open, remembers what is written and reads from a list.
pub record Script : Type 0 where
  pub written : List ℕ
  pub replies : List ℕ

abbrev script_read : Script → List ℕ → Option ℕ × Script
script_read p [] = (none, p)
script_read p (b ∷ bs) = (some b, record p { replies = bs })

abbrev pub scripted : Serial
scripted = record {
  Port = Script;
  is_open = λ p. true;
  write = λ bs p. (length bs, record p { written = p.written ++ bs });
  read_byte = λ p. script_read p p.replies;
}
