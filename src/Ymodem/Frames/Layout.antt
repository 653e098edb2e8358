-- ===== src/Ymodem/Frames/Layout.antt =====
-- What class YModem::Packet puts on the wire, and the contents of the initial frame.
use regiboard.Base.{
  length-append, none, some, inl, inr, ltb-true, ltb-false, ℕ, zero, suc, ◌+◌, ◌-◌, ◌/◌, ◌%◌, ◌≤◌,
  ◌<◌, ◌≡◌, ◌⊎◌, refl, ap, ◌∙◌, List, [], ◌∷◌, ◌++◌, append_assoc, Bool, true, false, length, set,
  get_or, replicate, All, arith, length-set, get_or-set_ne, get_or-set_self, length-replicate,
  ==_iff,
}
use regiboard.Serial.{Serial, Wire}
use regiboard.Ymodem.Crc.{zeros, make, compute, swap_bytes}
use regiboard.Ymodem.Crc.Reference.{reference, compute-reference, reference-lt}
use regiboard.Ymodem.Frames.{
  stx, signal_packet, body_packet, frame_size, new_frame, send_array, and_send, send_body,
  send_packet, put_byte, copy_message, put_message, initial_loop, initial_frame,
}

-- The frame of a data packet in the words of the protocol: the signal, the number, its complement,
-- the data, and the checksum with its high byte first.
abbrev pub frame_bytes : ℕ → List ℕ → List ℕ
frame_bytes n bs = let r = reference bs 0 in stx ∷ n ∷ (255 - n) ∷ (bs ++ (r / 256 ∷ r % 256 ∷ []))

checksum_bytes :
    (bs : List ℕ)
    → All (λ b. b < 256) bs
    → (compute (make zeros) bs % 256 ≡ reference bs 0 / 256)
      × (compute (make zeros) bs / 256 % 256 ≡ reference bs 0 % 256)
unfolding swap_bytes
checksum_bytes bs a = omega (arith, compute-reference zeros bs a, reference-lt bs 0 (omega arith) a)

module _ (s : Serial) (w : Wire s) where
  open s use {Port, is_open, write}
  open w use {sent, incoming, write_count, sent-write, incoming-write, is_open-write}

  -- A call that wrote `bs` in full, and left the rest of the port alone.
  pub record Wrote (bs : List ℕ) (p : Port) (r : Bool × Port) : Type 0 where
    pub full : r.0 ≡ true
    pub log : sent r.1 ≡ sent p ++ bs
    pub replies : incoming r.1 ≡ incoming p
    pub open_still : is_open r.1 ≡ is_open p

  send_array-Wrote : (bs : List ℕ) (p : Port) → Wrote bs p (send_array s bs p)
  unfolding send_array
  send_array-Wrote bs p = record {
    full = (==_iff _ _).1 (write_count bs p);
    log = sent-write bs p;
    replies = incoming-write bs p;
    open_still = is_open-write bs p;
  }

  and_send-Wrote :
      (bs cs : List ℕ) (p : Port) (r : Bool × Port)
      → Wrote bs p r
      → Wrote (bs ++ cs) p (and_send s cs r)
  unfolding and_send
  and_send-Wrote bs cs p (true, p') h =
      let k = send_array-Wrote cs p' in
      record {
        full = k.full;
        log = k.log ∙ ap (λ (x : List ℕ). x ++ cs) h.log ∙ append_assoc (sent p) bs cs;
        replies = k.replies ∙ h.replies;
        open_still = k.open_still ∙ h.open_still;
      }
  and_send-Wrote bs cs p (false, p') h = cc (h.full)

  send_body-Wrote :
      (bs : List ℕ) (n : ℕ) (p : Port) (r : Bool × Port)
      → n < 256
      → All (λ b. b < 256) bs
      → Wrote (stx ∷ []) p r
      → Wrote (frame_bytes n bs) p (send_body s bs n r)
  unfolding send_body
  send_body-Wrote bs n p r hn a h =
      let inv : (255 + 256 - n) % 256 ≡ 255 - n = omega arith in
      let c = checksum_bytes bs a in
      rw (inv, c.0, c.1)
        (and_send-Wrote _ _ p _
          (and_send-Wrote _ bs p _ (and_send-Wrote _ _ p _ (and_send-Wrote _ (n ∷ []) p r h))))

  -- Packet::Send writes a data packet of bytes as the protocol lays it out: the type, the number, its
  -- complement, the data, the checksum.
  pub send_packet-Wrote :
      (bs : List ℕ) (n : ℕ) (p : Port)
      → n < 256
      → All (λ b. b < 256) bs
      → Wrote (frame_bytes n bs) p (send_packet s (body_packet stx bs) n p)
  unfolding send_packet
  send_packet-Wrote bs n p hn a = send_body-Wrote bs n p _ hn a (send_array-Wrote (stx ∷ []) p)

  -- A packet with no data is its signal alone.
  pub send_signal-Wrote :
      (t n : ℕ) (p : Port) → Wrote (t ∷ []) p (send_packet s (signal_packet t) n p)
  unfolding send_packet
  send_signal-Wrote t n p = send_array-Wrote (t ∷ []) p

-- The writes into a frame that are inside it, one after the other.
pub spread : List ℕ → ℕ → List ℕ → List ℕ
spread [] i frame = frame
spread (c ∷ cs) i frame = spread cs (i + 1) (set frame i c)

-- The initial frame of SendInitialPkt.
length-spread : (cs : List ℕ) (i : ℕ) (frame : List ℕ) → length (spread cs i frame) ≡ length frame
unfolding spread
length-spread [] i frame = refl
length-spread (c ∷ cs) i frame = length-spread cs (i + 1) (set frame i c) ∙ length-set frame i c

-- A message that is written from `i` on changes nothing outside its own bytes.
get_or-spread_out :
    (cs : List ℕ) (i j : ℕ) (frame : List ℕ)
    → (j < i) ⊎ (i + length cs ≤ j)
    → get_or (spread cs i frame) j 0 ≡ get_or frame j 0
unfolding spread
get_or-spread_out [] i j frame h = refl
get_or-spread_out (c ∷ cs) i j frame h =
    get_or-spread_out cs (i + 1) j (set frame i c) (omega arith)
    ∙ get_or-set_ne frame i j c 0 (omega arith)

get_or-spread_in :
    (cs : List ℕ) (i k : ℕ) (frame : List ℕ)
    → k < length cs
    → i + length cs ≤ length frame
    → get_or (spread cs i frame) (i + k) 0 ≡ get_or cs k 0
unfolding spread
get_or-spread_in [] i k frame h f = absurd (omega arith)
get_or-spread_in (c ∷ cs) i zero frame h f =
    get_or-spread_out cs (i + 1) (i + 0) (set frame i c) (omega arith)
    ∙ ap (λ (t : ℕ). get_or (set frame i c) t 0) {x = i + 0} {y = i} (omega arith)
    ∙ get_or-set_self frame i c 0 (omega arith)
get_or-spread_in (c ∷ cs) i (suc k) frame h f =
    ap (λ (t : ℕ). get_or (spread cs (i + 1) (set frame i c)) t 0) {x = i + suc k} {y = i + 1 + k}
      (omega arith)
    ∙ get_or-spread_in cs (i + 1) k (set frame i c) (omega arith)
        (omega (arith, length-set frame i c))

get_or-zeros : (n i : ℕ) → ◌≡◌ {A = ℕ} (get_or (replicate n 0) i 0) 0
get_or-zeros zero i = refl
get_or-zeros (suc n) zero = refl
get_or-zeros (suc n) (suc i) = get_or-zeros n i

-- Writing a zero over a frame whose byte there is zero, or elsewhere, is not seen.
get_or-set_zero : (frame : List ℕ) (i j : ℕ) → get_or frame j 0 ≡ 0 → get_or (set frame i 0) j 0 ≡ 0
get_or-set_zero [] i j h = refl
get_or-set_zero (x ∷ xs) zero zero h = refl
get_or-set_zero (x ∷ xs) zero (suc j) h = h
get_or-set_zero (x ∷ xs) (suc i) zero h = h
get_or-set_zero (x ∷ xs) (suc i) (suc j) h = get_or-set_zero xs i j h

-- Every frame holds bytes.
abbrev pub AreBytes : List ℕ → Type 0
AreBytes bs = All (λ b. b < 256) bs

pub AreBytes-append : (xs ys : List ℕ) → AreBytes xs → AreBytes ys → AreBytes (xs ++ ys)
AreBytes-append [] ys hx hy = hy
AreBytes-append (x ∷ xs) ys (h, hx) hy = (h, AreBytes-append xs ys hx hy)

pub AreBytes-zeros : (n : ℕ) → AreBytes (replicate n 0)
AreBytes-zeros zero = tt
AreBytes-zeros (suc n) = (omega arith, AreBytes-zeros n)

AreBytes-set : (xs : List ℕ) (i v : ℕ) → v < 256 → AreBytes xs → AreBytes (set xs i v)
AreBytes-set [] i v h a = tt
AreBytes-set (x ∷ xs) zero v h (hx, a) = (h, a)
AreBytes-set (x ∷ xs) (suc i) v h (hx, a) = (hx, AreBytes-set xs i v h a)

AreBytes-spread :
    (cs : List ℕ) (i : ℕ) (frame : List ℕ)
    → AreBytes cs
    → AreBytes frame
    → AreBytes (spread cs i frame)
unfolding spread
AreBytes-spread [] i frame hc hf = hf
AreBytes-spread (c ∷ cs) i frame (h, hc) hf =
    AreBytes-spread cs (i + 1) (set frame i c) hc (AreBytes-set frame i c h hf)

-- The frame for a name and the digits of a size.
pub frame_of : List ℕ → List ℕ → List ℕ
frame_of name digits =
    set (spread digits 0 (set (spread name 0 new_frame) (0 + length name) 0))
      (0 + length name + 1 + length digits) 0

pub AreBytes-frame_of :
    (name digits : List ℕ) → AreBytes name → AreBytes digits → AreBytes (frame_of name digits)
unfolding frame_of
AreBytes-frame_of name digits hn hd = AreBytes-set _ _ 0 (omega arith) (
    AreBytes-spread digits 0 _ hd (
      AreBytes-set _ _ 0 (omega arith)
        (AreBytes-spread name 0 new_frame hn (AreBytes-zeros frame_size))))

inside_or_behind : (i n : ℕ) → (i < n) ⊎ (n ≤ i)
inside_or_behind i n = omega arith

put_byte-inside :
    (frame : List ℕ) (i v : ℕ) → i < length frame → put_byte frame i v ≡ some (set frame i v)
unfolding put_byte
put_byte-inside frame i v h = rw (ltb-true i (length frame) h) refl

put_byte-behind : (frame : List ℕ) (i v : ℕ) → length frame ≤ i → put_byte frame i v ≡ none
unfolding put_byte
put_byte-behind frame i v h = rw (ltb-false i (length frame) h) refl

copy_message-spread :
    (cs : List ℕ) (i : ℕ) (frame : List ℕ)
    → i + length cs ≤ length frame
    → copy_message cs i frame ≡ some (spread cs i frame)
unfolding spread copy_message
copy_message-spread [] i frame h = refl
copy_message-spread (c ∷ cs) i frame h =
    rw (copy_message, put_byte-inside frame i c (omega arith))
      (copy_message-spread cs (i + 1) (set frame i c) (omega (arith, length-set frame i c)))

copy_message-behind :
    (cs : List ℕ) (i : ℕ) (frame : List ℕ)
    → i ≤ length frame
    → length frame < i + length cs
    → copy_message cs i frame ≡ none
unfolding copy_message
copy_message-behind [] i frame le h = absurd (omega arith)
copy_message-behind (c ∷ cs) i frame le h = elim (inside_or_behind i (length frame)) [
  | inl inside ↦
      rw (copy_message, put_byte-inside frame i c inside)
        (copy_message-behind cs (i + 1) (set frame i c) (omega (arith, length-set frame i c))
          (omega (arith, length-set frame i c)))
  | inr behind ↦ rw (copy_message, put_byte-behind frame i c behind) refl
]

pub length-frame_of : (name digits : List ℕ) → length (frame_of name digits) ≡ frame_size
unfolding frame_of
length-frame_of name digits = omega (
  arith,
  length-set (spread digits 0 (set (spread name 0 new_frame) (0 + length name) 0))
      (0 + length name + 1 + length digits) 0,
  length-spread digits 0 (set (spread name 0 new_frame) (0 + length name) 0),
  length-set (spread name 0 new_frame) (0 + length name) 0,
  length-spread name 0 new_frame,
  length-replicate {0} frame_size zero,
)

pub length-frame_bytes : (n : ℕ) (bs : List ℕ) → length (frame_bytes n bs) ≡ length bs + 5
length-frame_bytes n bs =
    omega (arith, length-append bs (reference bs 0 / 256 ∷ reference bs 0 % 256 ∷ []))

put_message-spread :
    (m : List ℕ) (total : ℕ) (frame : List ℕ)
    → total + length m < length frame
    → put_message m total frame ≡ some (set (spread m 0 frame) (total + length m) 0)
unfolding put_message
put_message-spread m total frame h =
    rw (copy_message-spread m 0 frame (omega arith), put_message)
      (put_byte-inside (spread m 0 frame) (total + length m) 0
        (omega (arith, length-spread m 0 frame)))

put_message-behind :
    (m : List ℕ) (total : ℕ) (frame : List ℕ)
    → length frame ≤ total + length m
    → put_message m total frame ≡ none
unfolding put_message
put_message-behind m total frame h = elim (inside_or_behind (length frame) (length m)) [
  | inl long ↦ rw (copy_message-behind m 0 frame (omega arith) (omega arith), put_message) refl
  | inr short ↦
      rw (copy_message-spread m 0 frame (omega arith), put_message)
        (put_byte-behind (spread m 0 frame) (total + length m) 0
          (omega (arith, length-spread m 0 frame)))
]

first_frame : List ℕ → List ℕ
first_frame name = set (spread name 0 new_frame) (0 + length name) 0

length-first_frame : (name : List ℕ) → length (first_frame name) ≡ frame_size
unfolding first_frame
length-first_frame name = omega (
  arith,
  length-set (spread name 0 new_frame) (0 + length name) 0,
  length-spread name 0 new_frame,
  length-replicate {0} frame_size zero,
)

-- The frame of SendInitialPkt, when the name, the digits and a zero for each fit into it; else a write is
-- out of the array.
pub initial_frame-frame_of :
    (name digits : List ℕ)
    → length name + 1 + length digits < frame_size
    → initial_frame (name ∷ digits ∷ []) ≡ some (frame_of name digits)
unfolding initial_frame initial_loop frame_of first_frame
initial_frame-frame_of name digits h =
    rw
      (
        put_message-spread name 0 new_frame (omega (arith, length-replicate {0} frame_size zero)),
        initial_loop,
        put_message-spread digits (0 + length name + 1) (first_frame name)
            (omega (arith, length-first_frame name)),
        initial_loop,
      )
      refl

pub initial_frame-behind :
    (name digits : List ℕ)
    → frame_size ≤ length name + 1 + length digits
    → initial_frame (name ∷ digits ∷ []) ≡ none
unfolding initial_frame initial_loop first_frame
initial_frame-behind name digits h = elim (inside_or_behind (length name) frame_size) [
  | inl short ↦
      rw
        (
          put_message-spread name 0 new_frame (omega (arith, length-replicate {0} frame_size zero)),
          initial_loop,
          put_message-behind digits (0 + length name + 1) (first_frame name)
              (omega (arith, length-first_frame name)),
        )
        refl
  | inr long ↦
      rw
        (
          put_message-behind name 0 new_frame (omega (arith, length-replicate {0} frame_size zero)),
          initial_loop,
        )
        refl
]

module _ (name digits : List ℕ) (short : length digits ≤ length name) where
  -- Where the size has at most as many digits as the file's name has bytes, and both fit into the frame
  -- with a zero for each, the digits stand over the start of the name, and no byte behind the name is
  -- set.
  pub initial_frame_overlap :
      (k j : ℕ)
      → length name + 1 + length digits < frame_size
      → k < length digits
      → length name ≤ j
      → (frame : List ℕ) × (initial_frame (name ∷ digits ∷ []) ≡ some frame)
        × (get_or frame k 0 ≡ get_or digits k 0)
        × (get_or frame j 0 ≡ 0)
  unfolding frame_of first_frame
  initial_frame_overlap k j fits hk hj =
      (frame_of name digits, initial_frame-frame_of name digits fits, over, behind)
    where
      roomy : 0 + length digits ≤ length (first_frame name)
      roomy = omega (arith, length-first_frame name)

      over : get_or (frame_of name digits) k 0 ≡ get_or digits k 0
      over =
          get_or-set_ne _ (0 + length name + 1 + length digits) k 0 0 (omega arith)
          ∙ ap (λ (t : ℕ). get_or (spread digits 0 (first_frame name)) t 0) {x = k} {y = 0 + k}
              (omega arith)
          ∙ get_or-spread_in digits 0 k (first_frame name) hk roomy

      behind : get_or (frame_of name digits) j 0 ≡ 0
      behind = get_or-set_zero _ _ j (
          get_or-spread_out digits 0 j (first_frame name) (omega arith)
          ∙ get_or-set_zero (spread name 0 new_frame) (0 + length name) j
              (get_or-spread_out name 0 j new_frame (omega arith) ∙ get_or-zeros frame_size j))
