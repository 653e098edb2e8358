-- ===== src/Tftp/Download/Complete.antt =====
-- A whole download from src/utils/regiloader/tftp.cpp.
use regiboard.Base.{
  false, ℕ, suc, ◌*◌, ◌^◌, ◌≤◌, ◌<◌, ◌≡◌, ◌≢◌, subst, List, [], ◌∷◌, ◌++◌, append_assoc, Option,
  some, true, length, drop, All, arith, length-drop,
}
use regiboard.Tftp.Buffer.{max_size}
use regiboard.Tftp.Packets.{Mode, unknown, Junk}
use regiboard.Tftp.Packets.Layout.{request_bytes}
use regiboard.Tftp.Session.{Session, is_idling, find_file}
use regiboard.Tftp.Session.Upload.{sends, Closed}
use regiboard.Tftp.Download.{
  arrive, acknowledge, datagrams, reassemble, reassemble-datagrams, request_datagram,
}
use regiboard.Tftp.Download.Acks.{acknowledge-Closed}
use regiboard.Tftp.Download.Request.{arrive-request}

module _ (j : Junk) (after : List ℕ) (host : List ℕ → Option (List ℕ))
    (dir : List (List ℕ × List ℕ)) (two : length after ≡ 2) where
  -- A client asks an idle, open session for a published file of 1 to 2^64-1 bytes that the host has, by a
  -- request of at most 258 bytes with a name that is not empty, has no zeros, and a known mode. It then
  -- acknowledges each block, `k + 1` of them by the bounds on `k`. It is sent every block of the file once,
  -- in order, numbered from 1 modulo 65536; the data of these datagrams are the file; and the last
  -- acknowledgement closes the session.
  pub download :
      (c : ℕ) (name path : List ℕ) (m : Mode) (content : List ℕ) (k : ℕ) (s : Session)
      → length (c ∷ request_bytes name m []) ≤ 256
      → m ≢ unknown
      → All (λ z. z ≢ 0) (c ∷ name)
      → find_file (c ∷ name) dir ≡ some path
      → host path ≡ some content
      → length content < 2 ^ 64
      → k * 512 < length content
      → length content ≤ suc k * 512
      → is_idling s.task.kind ≡ true
      → s.alive ≡ true
      → length s.buff ≡ max_size
      → Closed false (sends s.calls ++ datagrams (suc k) 1 content) (
          acknowledge j after host dir
            (suc k)
            1
            (arrive j after host dir (request_datagram c name m) s))
        × (reassemble (datagrams (suc k) 1 content) ≡ content)
  unfolding datagrams
  download c name path m [] k s fits known clean published there small lo hi idle living roomy =
      absurd (omega arith)
  download c name path m (x ∷ xs) k s fits known clean published there small lo hi idle living
        roomy =
      let first =
        arrive-request j after host dir two c name path m x xs s fits known clean published there
          small idle living roomy in
      let more = length-drop 512 (x ∷ xs) in
      let r =
        acknowledge-Closed j after host dir two k 1 (drop 512 (x ∷ xs)) _ _ first (omega arith)
          (omega arith) in
      (
        subst
            (λ (l : List (List ℕ)). Closed false l (
              acknowledge j after host dir (suc k) 1
                (arrive j after host dir (request_datagram c name m) s)))
            (append_assoc (sends s.calls) _ _) r,
        reassemble-datagrams (suc k) 1 (x ∷ xs) hi,
      )
