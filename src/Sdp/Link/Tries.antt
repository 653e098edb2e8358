-- ===== src/Sdp/Link/Tries.antt =====
-- The tries of SdpPacket::Send of src/utils/regiloader/sdp.cpp.
use regiboard.Base.{
  ℕ, zero, suc, ◌≤◌, ◌<◌, ◌≡◌, refl, sym, ap, ◌∙◌, subst, List, [], ◌∷◌, ◌++◌, append_assoc,
  append-nil, some, Bool, true, false, length, ltb-false, ==-true, ==-false, take, replicate,
  overlay, length-overlay, take-overlay, arith,
}
use regiboard.Sdp.Link.{
  Event, written, arrived, timer, Call, write_some, write_all, read_exactly, start_timer,
  cancel_timer, cancel_port, Link, ask, create_timer, handler_read, read_array, handler_write,
  handler_timeout, handle, run, transfer_loop, transfer_data, Tried, waits, failed, replied,
  after_try, send_tries,
}

-- The packets among the calls.
pub writes : List Call → List (List ℕ)
writes [] = []
writes (write_some bytes ∷ cs) = bytes ∷ writes cs
writes (write_all bytes ∷ cs) = writes cs
writes (read_exactly n ∷ cs) = writes cs
writes (start_timer ∷ cs) = writes cs
writes (cancel_timer ∷ cs) = writes cs
writes (cancel_port ∷ cs) = writes cs

writes-append : (xs ys : List Call) → writes (xs ++ ys) ≡ writes xs ++ writes ys
unfolding writes
writes-append [] ys = refl
writes-append (write_some bytes ∷ cs) ys = ap (◌∷◌ bytes) (writes-append cs ys)
writes-append (write_all bytes ∷ cs) ys = writes-append cs ys
writes-append (read_exactly n ∷ cs) ys = writes-append cs ys
writes-append (start_timer ∷ cs) ys = writes-append cs ys
writes-append (cancel_timer ∷ cs) ys = writes-append cs ys
writes-append (cancel_port ∷ cs) ys = writes-append cs ys

-- A try without an answer: the read is cancelled when the timer expires.
abbrev pub lost : List (List Event)
lost = (written false ∷ timer false true ∷ arrived true [] ∷ []) ∷ []

-- A try with an answer, which cancels the timer.
abbrev pub answered : List ℕ → List (List Event)
answered bytes = (written false ∷ arrived false bytes ∷ timer true false ∷ []) ∷ []

-- A link with an open session.
abbrev pub linked : List ℕ → Bool → Bool → List Call → Link
linked rcv was_read timeout calls = record {
  session = true;
  rcv = rcv;
  was_read = was_read;
  timeout = timeout;
  calls = calls;
}

-- The calls of one try up to its read.
abbrev asked : ℕ → List ℕ → List Call → List Call
asked size out calls =
    (((calls ++ write_some out ∷ []) ++ start_timer ∷ []) ++ read_exactly size ∷ [])
    ++ start_timer ∷ []

abbrev cleared : ℕ → List ℕ → List ℕ
cleared size rcv = overlay (replicate size 0) rcv

read_array-cleared :
    (size : ℕ) (l : Link)
    → 0 < size
    → size ≤ 16
    → read_array size l
      ≡ (true, create_timer (ask (read_exactly size) (record l { rcv = cleared size l.rcv })))
unfolding read_array
read_array-cleared size l pos fits = rw (==-false size 0 (omega arith), ltb-false 16 size fits) refl

transfer-lost :
    (size : ℕ) (out rcv : List ℕ) (w t : Bool) (calls : List Call)
    → 0 < size
    → size ≤ 16
    → transfer_data size lost (create_timer (ask (write_some out) (linked rcv w t calls)))
      ≡ some (linked (cleared size rcv) false true (asked size out calls ++ cancel_port ∷ []))
unfolding transfer_data transfer_loop run handle handler_write handler_timeout handler_read
    create_timer ask
transfer-lost size out rcv w t calls pos fits = rw (read_array-cleared size _ pos fits) refl

transfer-answered :
    (size : ℕ) (out rcv bytes : List ℕ) (w t : Bool) (calls : List Call)
    → 0 < size
    → size ≤ 16
    → length bytes ≡ size
    → transfer_data size
        (answered bytes)
        (create_timer (ask (write_some out) (linked rcv w t calls)))
      ≡ some (
          linked
            (overlay bytes (cleared size rcv))
            true
            false
            (asked size out calls ++ cancel_timer ∷ []))
unfolding transfer_data transfer_loop run handle handler_write handler_timeout handler_read
    create_timer ask
transfer-answered size out rcv bytes w t calls pos fits full =
    rw (read_array-cleared size _ pos fits, ==-true (length bytes) size full) refl

writes-asked :
    (size : ℕ) (out : List ℕ) (calls : List Call) (c : Call)
    → writes (c ∷ []) ≡ []
    → writes (asked size out calls ++ c ∷ []) ≡ writes calls ++ out ∷ []
unfolding writes
writes-asked size out calls c h =
    writes-append (asked size out calls) (c ∷ [])
    ∙ ap (◌++◌ (writes (asked size out calls))) h
    ∙ append-nil _
    ∙ writes-append (((calls ++ write_some out ∷ []) ++ start_timer ∷ []) ++ read_exactly size ∷ [])
        _
    ∙ append-nil _
    ∙ writes-append ((calls ++ write_some out ∷ []) ++ start_timer ∷ []) _
    ∙ append-nil _
    ∙ writes-append (calls ++ write_some out ∷ []) _
    ∙ append-nil _
    ∙ writes-append calls _

-- The tries ended with a reply that starts with `bytes`, after the packets `log`.
pub Got : List ℕ → List (List ℕ) → Tried → Type 0
Got bytes log waits = ⊥
Got bytes log (failed l) = ⊥
Got bytes log (replied l) = (take (length bytes) l.rcv ≡ bytes) × (writes l.calls ≡ log)

-- The tries ended without a reply, after the packets `log`.
pub Lost : List (List ℕ) → Tried → Type 0
Lost log waits = ⊥
Lost log (failed l) = writes l.calls ≡ log
Lost log (replied l) = ⊥

cleared-length : (size : ℕ) (rcv : List ℕ) → length (cleared size rcv) ≡ length rcv
cleared-length size rcv = length-overlay (replicate size 0) rcv

-- A command whose first `n` tries go without an answer and whose next one is answered in full takes this
-- answer, when it may try more than `n` times; it has written its packet once for each try. The reply has
-- 1 to 16 bytes.
pub send_tries-answered :
    (n k size : ℕ) (out bytes rcv : List ℕ) (rest : List (List (List Event))) (w t : Bool)
    (calls : List Call)
    → n < k
    → 0 < size
    → size ≤ 16
    → length bytes ≡ size
    → length rcv ≡ 16
    → Got bytes
        (writes calls ++ replicate (suc n) out)
        (send_tries k size out (replicate n lost ++ answered bytes ∷ rest) (linked rcv w t calls))
unfolding send_tries after_try Got
send_tries-answered n zero size out bytes rcv rest w t calls lt pos fits full roomy =
    absurd (omega arith)
send_tries-answered zero (suc k) size out bytes rcv rest w t calls lt pos fits full roomy =
    rw (transfer-answered size out rcv bytes w t calls pos fits full) (
      take-overlay bytes (cleared size rcv) (omega (arith, cleared-length size rcv)),
      writes-asked size out calls cancel_timer (unfold writes in refl),
    )
send_tries-answered (suc n) (suc k) size out bytes rcv rest w t calls lt pos fits full roomy =
    let calls' = asked size out calls ++ cancel_port ∷ [] in
    let e = writes-asked size out calls cancel_port (unfold writes in refl) in
    rw (transfer-lost size out rcv w t calls pos fits) (
      subst
        (λ (log : List (List ℕ)). Got bytes log (
          send_tries k size out (replicate n lost ++ answered bytes ∷ rest)
            (linked (cleared size rcv) false true calls')))
        (ap (λ (log : List (List ℕ)). log ++ replicate (suc n) out) e
          ∙ append_assoc (writes calls) _ _)
        (send_tries-answered n k size out bytes (cleared size rcv) rest false true calls'
          (omega arith) pos fits full (cleared-length size rcv ∙ roomy)))

-- A command with a reply of 1 to 16 bytes that no try gets an answer for fails, after writing its packet once for each try.
pub send_tries-lost :
    (k size : ℕ) (out rcv : List ℕ) (rest : List (List (List Event))) (w t : Bool)
    (calls : List Call)
    → 0 < size
    → size ≤ 16
    → Lost
        (writes calls ++ replicate k out)
        (send_tries k size out (replicate k lost ++ rest) (linked rcv w t calls))
unfolding send_tries after_try Lost
send_tries-lost zero size out rcv rest w t calls pos fits = sym (append-nil (writes calls))
send_tries-lost (suc k) size out rcv rest w t calls pos fits =
    let calls' = asked size out calls ++ cancel_port ∷ [] in
    let e = writes-asked size out calls cancel_port (unfold writes in refl) in
    rw (transfer-lost size out rcv w t calls pos fits) (
      subst
        (λ (log : List (List ℕ)). Lost log (
          send_tries k size out (replicate k lost ++ rest)
            (linked (cleared size rcv) false true calls')))
        (ap (λ (log : List (List ℕ)). log ++ replicate k out) e ∙ append_assoc (writes calls) _ _)
        (send_tries-lost k size out (cleared size rcv) rest false true calls' pos fits))
