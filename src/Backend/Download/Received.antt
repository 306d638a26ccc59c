-- ===== src/Backend/Download/Received.antt =====
-- A download from the stored file to the agent's destination.
use mathlib.Core.Path.{subst}
use mathlib.Core.List.{append-nil, append_assoc}
use sagiri_guard.Base.{
  ℕ, zero, suc, ◌+◌, ◌%◌, ◌^◌, ◌<◌, ◌≡◌, refl, sym, ap, ◌∙◌, Bool, true, false, List, [], ◌∷◌, ◌++◌,
  none, some, String, ◌==◌, length, take, drop, is_nil, length-append, arith,
}
use sagiri_guard.Base.Text.{Text}
use sagiri_guard.Base.Map.{lookup}
use sagiri_guard.Base.Results.{ok}
use sagiri_guard.Backend.Files.{write_at}
use sagiri_guard.Backend.Files.Writes.{write_at-append}
use sagiri_guard.Backend.Backup.{BackupSession, download}
use sagiri_guard.Backend.Backup.Sessions.{validate_session}
use sagiri_guard.Backend.Transfer.{Transfer, is_authorized}
use sagiri_guard.Backend.Transfer.Client.{
  Laid, Ends, Ends-if, Ends-sent, nil_of, length-take-drop, end-if, shorter,
}
use sagiri_guard.Backend.Download.{
  Frame, file_meta, file_done, buffer_size, serve_loop, chunk_frames, close_file, send_file,
  send_session, StartRequest, handle_backup_download_start, finished, receive_file,
}

serve_loop-Ends :
    (fuel size : ℕ) (sends : ℕ → Bool) (k offset : ℕ) (rest : Text)
    → 0 < size
    → offset + length rest < 2 ^ 32
    → Ends offset rest (serve_loop fuel size sends k offset rest)
unfolding serve_loop
serve_loop-Ends zero size sends k offset rest h b = λ e. ground arith
serve_loop-Ends (suc fuel) size sends k offset rest h b =
    Ends-if offset rest (is_nil rest) _ _ (λ n e. nil_of rest n)
      (λ n.
        Ends-if offset rest (sends k) _ _
          (λ s. Ends-sent size offset rest _ h n (
            let len = length-take-drop size rest in
            let next : (offset + length (take size rest)) % 2 ^ 32
                ≡ offset + length (take size rest) =
              omega (arith, len) in
            subst
              (λ o.
                Ends (offset + length (take size rest)) (drop size rest)
                  (serve_loop fuel size sends (suc k) o (drop size rest)))
              (sym next)
              (serve_loop-Ends fuel size sends (suc k) (offset + length (take size rest))
                (drop size rest) h (omega (arith, len)))))
          (λ s e. ground arith))

serve_loop-ends :
    (fuel size : ℕ) (sends : ℕ → Bool) (k offset : ℕ) (rest : Text)
    → 0 < size
    → length rest < fuel
    → ((j : ℕ) → sends j ≡ true)
    → (serve_loop fuel size sends k offset rest).1 ≡ true
unfolding serve_loop
serve_loop-ends zero size sends k offset rest h f d = ground arith
serve_loop-ends (suc fuel) size sends k offset rest h f d = end-if (is_nil rest) _ (λ n.
    let s = shorter size rest h n in
    rw (d k) (
      serve_loop-ends fuel size sends (suc k) ((offset + length (take size rest)) % 2 ^ 32)
        (drop size rest) h (omega (arith, s)) d))

-- chunks that are laid out end up one behind the other, and the end of the file ends the loop
receive_file-Laid :
    (before rest old : Text) (cs : List (ℕ × Text)) (tail : List Frame)
    → Laid (length before) rest cs
    → receive_file
        (chunk_frames cs ++ (file_done ∷ tail))
        (record { position = length before; content = write_at 0 before old })
      ≡ (
        finished,
        record { position = length (before ++ rest); content = write_at 0 (before ++ rest) old },
      )
unfolding receive_file
receive_file-Laid before rest old [] tail l =
    ap (λ t. (finished, record { position = length t; content = write_at 0 t old }))
      (sym (append-nil before) ∙ ap (λ t. before ++ t) (sym l))
receive_file-Laid before rest old ((o, chunk) ∷ cs) tail (at, n, rest', split, l) =
    let fs = chunk_frames cs ++ (file_done ∷ tail) in
    ap
      (λ p.
        receive_file fs (record {
          position = p;
          content = write_at (length before) chunk (write_at 0 before old);
        }))
      (sym (length-append before chunk))
    ∙ ap (λ c. receive_file fs (record { position = length (before ++ chunk); content = c }))
        (write_at-append before chunk old)
    ∙ receive_file-Laid (before ++ chunk) rest' old cs tail
        (subst (λ k. Laid k rest' cs) (sym (length-append before chunk)) l)
    ∙ ap (λ t. (finished, record { position = length t; content = write_at 0 t old }))
        (append_assoc before chunk rest' ∙ ap (λ t. before ++ t) (sym split))

close_file-done :
    (frames : List Frame) (r : List (ℕ × Text) × Bool)
    → r.1 ≡ true
    → close_file true frames r ≡ (none, frames ++ (chunk_frames r.0 ++ (file_done ∷ [])))
unfolding close_file
close_file-done frames (cs, true) e = refl
close_file-done frames (cs, false) e = ground arith

-- A device that may download a file: it is authorized, and its request opens a session whose file
-- is stored.
pub record CanDownload {V : Type 0} (device : String) (req : StartRequest) (content : Text)
    (st : Transfer V) : Type 0 where
  pub authorized : is_authorized device st ≡ true
  pub enabled : st.enabled ≡ true
  pub id_named : (req.session_id == "") ≡ false
  pub token_named : (req.token == "") ≡ false
  pub session : BackupSession
  pub valid : validate_session req.session_id req.token download st.sessions ≡ ok session
  pub stored : lookup session.final_path st.files.contents ≡ some content
  pub opens : st.files.open_works ≡ true

module _ {V : Type 0} (sends : ℕ → Bool) where
  started_lem :
      (device : String) (req : StartRequest) (content : Text) (st : Transfer V)
      (c : CanDownload device req content st)
      → sends 0 ≡ true
      → handle_backup_download_start sends true device (some req) st
        ≡ close_file true (file_meta c.session.file_name c.session.file_size ∷ []) (
            serve_loop
              (suc (length content))
              buffer_size
              sends
              1
              req.offset
              (drop req.offset content))
  unfolding handle_backup_download_start send_session send_file
  started_lem device req content st c d =
      rw (c.authorized, c.enabled, c.id_named, c.token_named, c.valid, d, c.stored, c.opens) refl

  -- A download that a device may start, from the start of a file that is shorter than 2^32 bytes
  -- and with every send succeeding, has no error, and the agent's loop ends well with the file's
  -- bytes, followed by what the destination had beyond their length before.
  pub download_roundtrip :
      (device : String) (req : StartRequest) (content old : Text) (st : Transfer V)
      → CanDownload device req content st
      → req.offset ≡ 0
      → length content < 2 ^ 32
      → ((j : ℕ) → sends j ≡ true)
      → let (e, frames) = handle_backup_download_start sends true device (some req) st in
        (e ≡ none)
        × (receive_file frames (record { position = 0; content = old }) ≡ (
          finished,
          record { position = length content; content = content ++ drop (length content) old },
        ))
  unfolding receive_file
  download_roundtrip device req content old st c z b d =
      let opening : List Frame = file_meta c.session.file_name c.session.file_size ∷ [] in
      let loop = serve_loop (suc (length content)) buffer_size sends 1 0 content in
      let whole : handle_backup_download_start sends true device (some req) st
          ≡ (none, opening ++ (chunk_frames loop.0 ++ (file_done ∷ []))) =
        started_lem device req content st c (d 0)
        ∙ ap
            (λ o.
              close_file true opening
                (serve_loop (suc (length content)) buffer_size sends 1 o (drop o content)))
            z
        ∙ close_file-done opening loop (
            serve_loop-ends (suc (length content)) buffer_size sends 1 0 content (omega arith)
              (omega arith) d) in
      let laid =
        serve_loop-Ends (suc (length content)) buffer_size sends 1 0 content (omega arith)
          (omega (arith, b))
          (serve_loop-ends (suc (length content)) buffer_size sends 1 0 content (omega arith)
            (omega arith) d) in
      (
        ap (λ r. r.0) whole,
        ap (λ r. receive_file r.1 (record { position = 0; content = old })) whole
            ∙ receive_file-Laid [] content old loop.0 [] laid,
      )
