-- ===== src/User/Files.antt =====
-- src/user.c: the steps of transfers that leave alone what the protocol goes by: the state, the
-- position, and the sizes. A property of these is kept by ending a transfer, and by all that looks
-- for the file of the next one.
use microdc.Prelude.{ℕ, Bool, false}
use microdc.Prelude.Text.{Bytes}
use microdc.User.State.{
  UserState, Request, FileStatus, missing, unreadable, irregular, regular, Core,
}
use microdc.User.Stable.{
  Leaves, Lasting, Leaves-pure, Leaves-if, Leaves-read_core, Leaves-read_env, Leaves-bind,
  Leaves-when, Leaves-change, Leaves-ask, Leaves-put, Leaves-fatal_error, Leaves-warn,
}
use microdc.User.Download.{
  close_download, end_download, requested_names, fresh, refused, resume_position, prepare_download,
}
use microdc.User.Upload.{end_upload}

-- A property of what the protocol goes by: whether the process runs, its state, and data_size,
-- file_pos and file_size.
abbrev pub View : Type 1
View = Bool → UserState → ℕ → ℕ → ℕ → Type 0

abbrev pub At : View → Bool → Core → Type 0
At J r k = J r k.user_state k.data_size k.file_pos k.file_size

module _ (J : View) (lasting : Lasting (At J)) where
  pub Leaves-close_download : (success : Bool) → Leaves (At J) (close_download success)
  unfolding close_download
  Leaves-close_download success = Leaves-bind (Leaves-read_core _) λ is_open.
      Leaves-if is_open
        (Leaves-bind (Leaves-ask _) λ closed.
          Leaves-bind (Leaves-when _ (Leaves-warn lasting))
            λ _. Leaves-bind (Leaves-change _ λ r k h. h) λ _. Leaves-pure _)
        (Leaves-pure _)

  pub Leaves-end_download : (success : Bool) → Leaves (At J) (end_download success)
  unfolding end_download
  Leaves-end_download success = Leaves-bind (Leaves-close_download success) λ ok.
      Leaves-bind (Leaves-put _) λ sent.
        Leaves-bind (Leaves-when _ (Leaves-fatal_error lasting)) λ _. Leaves-change _ λ r k h. h

  pub Leaves-end_upload : (success : Bool) → Leaves (At J) (end_upload success)
  unfolding end_upload
  Leaves-end_upload success =
      Leaves-bind (Leaves-change _ λ r k h. h)
        λ _. Leaves-bind (Leaves-put _) λ ok. Leaves-when _ (Leaves-fatal_error lasting)

  pub Leaves-requested_names : (r : Request) → Leaves (At J) (requested_names r)
  unfolding requested_names
  Leaves-requested_names r = Leaves-bind (Leaves-read_env _) λ e.
      Leaves-bind (Leaves-read_core _)
        λ supported. Leaves-if r.is_list (Leaves-pure _) (Leaves-pure _)

  Leaves-fresh : Leaves (At J) fresh
  Leaves-fresh = Leaves-bind (Leaves-change _ λ r k h. h) λ _. Leaves-pure _

  Leaves-refused : Leaves (At J) refused
  Leaves-refused =
      Leaves-bind (Leaves-warn lasting)
        λ _. Leaves-bind (Leaves-end_download false) λ _. Leaves-pure _

  Leaves-resume_position : (found : FileStatus) → Leaves (At J) (resume_position found)
  unfolding resume_position
  Leaves-resume_position missing = Leaves-fresh
  Leaves-resume_position unreadable = Leaves-refused
  Leaves-resume_position (irregular size) = Leaves-refused
  Leaves-resume_position (regular size) =
      Leaves-bind (Leaves-change _ λ r k h. h) λ _. Leaves-pure _

  pub Leaves-prepare_download :
      (is_list : Bool) (local_file share_file : Bytes)
      → Leaves (At J) (prepare_download is_list local_file share_file)
  unfolding prepare_download
  Leaves-prepare_download is_list local_file share_file = Leaves-bind (Leaves-read_env _) λ conv.
      Leaves-bind (Leaves-change _ λ r k h. h) λ _.
        Leaves-if is_list Leaves-fresh
          (Leaves-bind (Leaves-ask _) λ status. Leaves-resume_position (status local_file))
