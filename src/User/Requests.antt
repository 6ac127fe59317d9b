-- ===== src/User/Requests.antt =====
-- src/user.c: download_next_file. If `Z` holds in front of it, `J` holds behind it, however it
-- returns: either the process is to shut down, or a file is asked for and the state is
-- DC_USER_FILE_LENGTH.
use microdc.Prelude.{
  ℕ, ◌^◌, ◌<◌, ◌≡◌, refl, ◌∙◌, arith, Bool, false, Option, none, some, List, [], ◌∷◌,
}
use microdc.Prelude.Text.{Bytes}
use microdc.Prelude.Exec.{Exec, ◌>>=◌, ◌>>◌, when, or_else}
use microdc.Prelude.Exec.Triple.{
  Triple, Triple-stop, Triple-gets, Triple-bind, Triple-when, Triple-front, Triple-back,
  Triple-call, Triple-or_else,
}
use microdc.User.State.{UserState, file_length, Request, Conn, read_io}
use microdc.User.Stable.{
  Holds, Dying, Leaves, Lasting, Dead-Lasting, Leaves-Dead, Leaves-read_env, Leaves-read_io,
  Leaves-device, Triple-change, Leaves-report, Leaves-screen_writer, Leaves-user_putf,
  terminate_process-stops, fatal_error-stops,
}
use microdc.User.Files.{
  View, At, Leaves-end_download, Leaves-requested_names, Leaves-prepare_download,
}
use microdc.User.Comm.{fatal_error, terminate_process}
use microdc.User.Download.{
  end_download, request_file, request_or, begin_download, download_from, download_next_file,
  skip_download,
}

-- `m` turns `Z` into `J`, however it returns
abbrev pub Turns : {A : Type 0} → View → View → Exec Conn A → Type 0
Turns Z J m = Triple (Holds (At Z)) m (λ _. Holds (At J)) (Holds (At J))

-- What download_next_file needs of `Z` and `J`.
pub record Asks (Z J : View) : Type 0 where
  pub front : Lasting (At Z)
  -- a process that is to shut down
  pub over : {s : UserState} {d p z : ℕ} → Z false s d p z → J false s d p z
  -- a file is asked for
  pub asked :
      {r : Bool} {s : UserState} {d p z : ℕ} (p' z' : ℕ)
      → Z r s d p z
      → p' < 2 ^ 64
      → z' < 2 ^ 64
      → J r file_length d p' z'

module _ (Z J : View) (asks : Asks Z J) where
  pub gone : (c : Conn) → Dying (At Z) c → Holds (At J) c
  gone c h = record { holds = rw h.1 (asks.over (rw (← h.1) h.0.holds)) }

  pub or_end :
      {A : Type 0} {m : Exec Conn A}
      → Leaves (At Z) m
      → Leaves (At Z) (or_else m (end_download false))
  or_end t = Triple-or_else t (
      Leaves-Dead (
        Leaves-end_download (λ r s d p z. Z r s d p z × (r ≡ false)) (Dead-Lasting asks.front)
          false))

  request_file-Turns :
      (share_file : Bytes) (size resume_pos : ℕ)
      → Turns Z J (request_file share_file size resume_pos)
  unfolding request_file
  request_file-Turns share_file size resume_pos =
      Triple-bind (Triple-back (λ _ s h. h) gone (Leaves-read_env _)) λ remote.
        Triple-bind (Triple-back (λ _ s h. h) gone (or_end (Leaves-user_putf asks.front _)))
          λ _. Triple-change _ λ r k h. asks.asked _ _ h (omega arith) (omega arith)

  request_or-Turns :
      (share_file : Bytes) (size : ℕ) {next : Exec Conn Unit} (found : Option ℕ)
      → Turns Z J next
      → Turns Z J (request_or share_file size next found)
  request_or-Turns share_file size none h = h
  request_or-Turns share_file size (some resume_pos) h =
      request_file-Turns share_file size resume_pos

  -- a part that keeps `Z`, and then one that turns it into `J`
  pub Turns-bind :
      {A B : Type 0} {m : Exec Conn A} {f : A → Exec Conn B}
      → Leaves (At Z) m
      → ((a : A) → Turns Z J (f a))
      → Turns Z J (m >>= f)
  Turns-bind t h = Triple-bind (Triple-back (λ _ s h. h) gone t) h

  pub Turns-terminate : Turns Z J terminate_process
  Turns-terminate = Triple-back (λ _ c h. gone c h) gone (terminate_process-stops asks.front)

  pub Turns-fatal : Turns Z J fatal_error
  Turns-fatal =
      Triple-back (λ _ c h. gone c h) gone (fatal_error-stops asks.front {R = Dying (At Z)})

  begin_download-Turns :
      {next : Exec Conn Unit} (r : Option Request)
      → Turns Z J next
      → Turns Z J (begin_download next r)
  unfolding begin_download
  begin_download-Turns none h = Turns-bind (Leaves-screen_writer asks.front) λ _. Turns-terminate
  begin_download-Turns (some r) h = Turns-bind (Leaves-requested_names Z asks.front r) λ names.
      Turns-bind (Leaves-prepare_download Z asks.front r.is_list names.0 names.1)
        λ found. request_or-Turns names.1 r.size found h

  -- the test of user_running at the start
  while_running :
      {m : Exec Conn Unit}
      → Turns Z J m
      → Turns Z J (read_io (λ io. io.user_running) >>= λ running. when running m)
  unfolding read_io
  while_running {m} h =
      Triple-bind {Q = λ running c. Holds (At Z) c × (c.user_running ≡ running)}
        (Triple-gets _ λ c p. (p, refl))
        λ running.
          Triple-when running m (λ _. Triple-front (λ c p. p.0) h) (λ e c p. gone c (p.0, p.1 ∙ e))

  pub download_from-Turns : (answers : List (Option Request)) → Turns Z J (download_from answers)
  unfolding download_from
  download_from-Turns [] = while_running (Turns-bind (Leaves-report asks.front _) λ _. Turns-fatal)
  download_from-Turns (r ∷ rest) = while_running (
      Turns-bind (Leaves-report asks.front _) λ _.
        Turns-bind (Leaves-device _ λ io. refl)
          λ _. begin_download-Turns r (download_from-Turns rest))

  pub download_next_file-Turns : Turns Z J download_next_file
  unfolding download_next_file
  download_next_file-Turns = Turns-bind (Leaves-read_io _) download_from-Turns

  pub end_then_next : (success : Bool) → Turns Z J (end_download success >> download_next_file)
  end_then_next success =
      Turns-bind (Leaves-end_download Z asks.front success) λ _. download_next_file-Turns

  pub skip_download-stops :
      {A : Type 0} {Q : A → Conn → Type 0} → Triple (Holds (At Z)) skip_download Q (Holds (At J))
  unfolding skip_download
  skip_download-stops =
      Triple-bind (Triple-back (λ _ s h. h) gone (Leaves-end_download Z asks.front false))
        λ _. Triple-bind (Triple-call download_next_file-Turns) λ _. Triple-stop (λ s h. h)
