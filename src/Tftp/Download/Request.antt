-- ===== src/Tftp/Download/Request.antt =====
-- The request of a download from src/utils/regiloader/tftp.cpp.
use regiboard.Base.{
  ℕ, suc, ◌^◌, ◌≤◌, ◌<◌, ◌≡◌, ◌≢◌, refl, ap, ◌∙◌, List, [], ◌∷◌, ◌++◌, append_assoc, append-nil,
  Option, some, true, false, length, take, drop, All,
}
use regiboard.Tftp.Buffer.{max_size}
use regiboard.Tftp.Buffer.Laws.{clear-Holds}
use regiboard.Tftp.Packets.{Mode, unknown, rrq_content, new_rrq, Junk}
use regiboard.Tftp.Packets.Layout.{data_datagram, request_bytes, mode_text, read_packet-request}
use regiboard.Tftp.Session.{
  Session, ask, block_size, is_idling, answer, dispatch, process, pop_packet, find_file,
}
use regiboard.Tftp.Session.Upload.{sends, sends-append, Serving, start_upload-Serving}
use regiboard.Tftp.Handlers.{handler_read, packet_for}
use regiboard.Tftp.Handlers.Input.{
  packet_bytes, packet_bytes-full, filled, new_buff, new_buff-full, handler_read-known,
}
use regiboard.Tftp.Download.{arrive, request_datagram, quiet}

module _ (j : Junk) (after : List ℕ) (host : List ℕ → Option (List ℕ))
    (dir : List (List ℕ × List ℕ)) (two : length after ≡ 2) where
  packet_for-request : packet_for j 1 ≡ some (new_rrq j.old_mode)
  unfolding packet_for
  packet_for-request = refl

  request_clean : length (new_rrq j.old_mode).buff.bytes ≡ max_size
  unfolding new_rrq
  request_clean = clear-Holds.room

  module _ (s : Session) (roomy : length s.buff ≡ max_size) (c : ℕ) (name : List ℕ) (m : Mode)
      (fits : length (c ∷ request_bytes name m []) ≤ 256) (known : m ≢ unknown)
      (clean : All (λ x. x ≢ 0) (c ∷ name)) where
    request_buff : List ℕ
    request_buff =
        new_buff j after 0 1 c (request_bytes name m []) (new_rrq j.old_mode) s fits two roomy
          packet_for-request request_clean

    request_rest : List ℕ
    request_rest = drop (suc (suc (suc (length (request_bytes name m []))))) s.buff ++ after

    request_buff-full : length request_buff ≡ max_size
    unfolding request_buff
    request_buff-full =
        new_buff-full j after 0 1 c (request_bytes name m []) (new_rrq j.old_mode) s fits two roomy
          packet_for-request request_clean

    request_bytes-append :
        (rest : List ℕ) → request_bytes name m [] ++ rest ≡ request_bytes name m rest
    request_bytes-append rest =
        append_assoc name _ rest
        ∙ ap (λ (l : List ℕ). name ++ 0 ∷ l) (append_assoc (mode_text m) (0 ∷ []) rest)

    read-request :
        process host dir (handler_read j after false (request_datagram c name m) s)
        ≡ dispatch host dir (rrq_content (c ∷ name) m) (quiet s request_buff)
    unfolding process pop_packet quiet request_buff new_rrq request_rest
    read-request =
        rw
          (
            handler_read-known j after 0 1 c (request_bytes name m []) (new_rrq j.old_mode) s fits
                two roomy packet_for-request request_clean,
            read_packet-request j m (c ∷ name) request_rest
                (filled (new_rrq j.old_mode)
                  (packet_bytes (c ∷ request_bytes name m []) s.buff after))
                [] j.old_mode known clean refl (ap (◌∷◌ c) (request_bytes-append request_rest))
                (packet_bytes-full j after 0 1 c (request_bytes name m []) (new_rrq j.old_mode) s
                  fits two roomy packet_for-request request_clean),
          )
          refl

  -- A request for a published file of the host brings the first block.
  pub arrive-request :
      (c : ℕ) (name path : List ℕ) (m : Mode) (x : ℕ) (xs : List ℕ) (s : Session)
      → length (c ∷ request_bytes name m []) ≤ 256
      → m ≢ unknown
      → All (λ z. z ≢ 0) (c ∷ name)
      → find_file (c ∷ name) dir ≡ some path
      → host path ≡ some (x ∷ xs)
      → length (x ∷ xs) < 2 ^ 64
      → is_idling s.task.kind ≡ true
      → s.alive ≡ true
      → length s.buff ≡ max_size
      → Serving s.timeout
          (sends s.calls ++ data_datagram 1 (take block_size (x ∷ xs)) ∷ [])
          (drop block_size (x ∷ xs))
          (arrive j after host dir (request_datagram c name m) s)
  unfolding arrive dispatch answer
  arrive-request c name path m x xs s fits known clean published there small idle living roomy =
      rw (read-request s roomy c name m fits known clean, published)
        (start_upload-Serving host path m x xs (sends s.calls)
          (quiet s (request_buff s roomy c name m fits known clean)) (unfold quiet ask in idle)
          (unfold quiet ask in living) (unfold quiet ask in refl)
          (unfold quiet in request_buff-full s roomy c name m fits known clean)
          (unfold quiet ask in sends-append s.calls _ ∙ unfold sends in append-nil _) there small
          (unfold quiet ask in refl))
