-- ===== src/User/Sending.antt =====
-- src/user.c: the functions that open a file for the other user and send it. They keep each
-- property that does not mind which of the three states of a sender comes next.
use microdc.Prelude.{ℕ, refl, Bool, true, false}
use microdc.Prelude.Text.{Bytes, same, codes}
use microdc.Prelude.Exec.{Exec}
use microdc.Prelude.Exec.Triple.{
  Keeps, Keeps-pure, Keeps-stop, Keeps-if, Keeps-or_else, Keeps-expect, Keeps-bind, Keeps-call,
  Keeps-when,
}
use microdc.User.State.{
  UserState, get, send_get, data_send, AdcgetType, file, Core, Env, Conn, ask, read_core, read_env,
}
use microdc.User.Comm.{user_putf}
use microdc.User.Stable.{
  Holds, Lasting, Keeps-Leaves, Leaves-read_core, Leaves-read_io, Leaves-read_env, Leaves-device,
  Leaves-change, Leaves-ask, Leaves-put, Leaves-report, Leaves-screen_writer, Leaves-user_putf,
  fault-stops,
}
use microdc.User.Files.{View, At, Leaves-end_upload}
use microdc.User.Upload.{
  end_upload, refuse_upload, check_names, open_upload_file_main, open_upload_file, upload_file,
  open_upload_file_block, adcget_name, adcget_type, open_upload_file_adcget,
}

pub record Sends (U : View) : Type 0 where
  pub lasting : Lasting (At U)
  pub opened :
      {r : Bool} {s : UserState} {d p z : ℕ} (p' z' : ℕ) → U r s d p z → U r send_get d p' z'
  pub ended : {r : Bool} {s : UserState} {d p z : ℕ} → U r s d p z → U r get d p z
  pub started : {r : Bool} {s : UserState} {d p z : ℕ} → U r s d p z → U r data_send d p z

module _ (U : View) (sends : Sends U) where
  abbrev Kept : {A : Type 0} → Exec Conn A → Type 0
  Kept m = Keeps (Holds (At U)) m

  keeps_core : {A : Type 0} (f : Core → A) → Kept (read_core f)
  keeps_core f = Keeps-Leaves (Leaves-read_core f)

  keeps_env : {A : Type 0} (f : Env → A) → Kept (read_env f)
  keeps_env f = Keeps-Leaves (Leaves-read_env f)

  keeps_ask : {A : Type 0} (f : Env → ℕ → A) → Kept (ask f)
  keeps_ask f = Keeps-Leaves (Leaves-ask f)

  pub Keeps-user_putf : (text : Bytes) → Kept (user_putf text)
  Keeps-user_putf text = Keeps-Leaves (Leaves-user_putf sends.lasting text)

  pub Keeps-end_upload : (success : Bool) → Kept (end_upload success)
  Keeps-end_upload success = Keeps-Leaves (Leaves-end_upload U sends.lasting success)

  Keeps-refuse_upload : {A : Type 0} (reason : Bytes) → Kept (refuse_upload {A = A} reason)
  unfolding refuse_upload
  Keeps-refuse_upload reason = Keeps-bind (Keeps-Leaves (Leaves-screen_writer sends.lasting)) λ _.
      Keeps-bind (Keeps-call (Keeps-user_putf _))
        λ _. Keeps-bind (Keeps-end_upload false) λ _. Keeps-stop

  Keeps-check_names : (str : Bytes) (type : AdcgetType) → Kept (check_names str type)
  unfolding check_names
  Keeps-check_names str type = Keeps-bind (Keeps-Leaves (Leaves-put _)) λ ok.
      Keeps-bind (Keeps-when _ Keeps-stop) λ _. Keeps-bind (keeps_ask _) λ reply.
        Keeps-bind (Keeps-expect reply (Keeps-pure tt)) λ pair.
          Keeps-bind (Keeps-when _ (Keeps-bind (Keeps-call (Keeps-user_putf _)) λ _. Keeps-stop))
            λ _.
              Keeps-bind (Keeps-when _ (Keeps-Leaves (fault-stops sends.lasting)))
                λ _. Keeps-bind (keeps_env _) λ base. Keeps-Leaves (Leaves-change _ λ r k h. h)

  Keeps-open_upload_file_main :
      (str : Bytes) (offset : ℕ) (type : AdcgetType) → Kept (open_upload_file_main str offset type)
  unfolding open_upload_file_main
  Keeps-open_upload_file_main str offset type =
      Keeps-bind
        (Keeps-if _ _ _ (Keeps-Leaves (Leaves-change _ λ r k h. h)) (Keeps-check_names str type))
        λ _. Keeps-bind (keeps_core _) λ k.
          Keeps-bind (Keeps-expect _ (Keeps-Leaves (fault-stops sends.lasting))) λ name.
            Keeps-bind (keeps_env _) λ e. Keeps-bind (keeps_ask _) λ status.
              Keeps-bind (Keeps-expect _ (Keeps-refuse_upload _)) λ size.
                Keeps-bind (Keeps-when _ (Keeps-refuse_upload _)) λ _.
                  Keeps-bind (keeps_ask _) λ opens.
                    Keeps-bind (Keeps-Leaves (Leaves-change _ λ r k h. h)) λ _.
                      Keeps-bind (Keeps-when _ (Keeps-refuse_upload _)) λ _.
                        Keeps-bind (keeps_ask _) λ seeks.
                          Keeps-bind (Keeps-when _ (Keeps-refuse_upload _))
                            λ _. Keeps-Leaves (Leaves-change _ λ r k h. sends.opened offset size h)

  pub Keeps-open_upload_file : (str : Bytes) (offset : ℕ) → Kept (open_upload_file str offset)
  unfolding open_upload_file
  Keeps-open_upload_file str offset = Keeps-bind (Keeps-open_upload_file_main str offset file) λ _.
      Keeps-bind (Keeps-Leaves (Leaves-change _ λ r k h. h)) λ _.
        Keeps-bind (keeps_core _) λ size. Keeps-or_else (Keeps-user_putf _) (Keeps-end_upload false)

  pub Keeps-upload_file : Kept upload_file
  unfolding upload_file
  Keeps-upload_file = Keeps-bind (keeps_core _) λ k.
      Keeps-if _ _ _
        (Keeps-bind (Keeps-end_upload true)
          λ _. Keeps-Leaves (Leaves-change _ λ r k h. sends.ended h))
        (Keeps-bind (Keeps-Leaves (Leaves-report sends.lasting _)) λ _.
          Keeps-bind (Keeps-Leaves (Leaves-device _ λ io. refl)) λ _.
            Keeps-bind (Keeps-Leaves (Leaves-read_io _)) λ queued.
              Keeps-bind (Keeps-when _ (Keeps-Leaves (fault-stops sends.lasting)))
                λ _. Keeps-Leaves (Leaves-change _ λ r k h. sends.started h))

  pub Keeps-open_upload_file_block :
      (str : Bytes) (offset numbytes : ℕ) → Kept (open_upload_file_block str offset numbytes)
  unfolding open_upload_file_block
  Keeps-open_upload_file_block str offset numbytes =
      Keeps-bind (Keeps-open_upload_file_main str offset file) λ _.
        Keeps-bind (Keeps-Leaves (Leaves-change _ λ r k h. h)) λ _. Keeps-bind (keeps_core _) λ k.
          Keeps-bind (Keeps-or_else (Keeps-user_putf _) (Keeps-end_upload false))
            λ _. Keeps-upload_file

  Keeps-adcget_name : (t : AdcgetType) (str : Bytes) → Kept (adcget_name t str)
  unfolding adcget_name
  Keeps-adcget_name t str = Keeps-if _ _ _ (Keeps-pure _) (
      Keeps-bind (keeps_env _) λ name.
        Keeps-bind (Keeps-expect _ (Keeps-Leaves (fault-stops sends.lasting)))
          λ plain. Keeps-pure _)

  Keeps-adcget_type : (type : Bytes) → Kept (adcget_type type)
  unfolding adcget_type
  Keeps-adcget_type type = Keeps-if (same (codes "file") type) _ _ (Keeps-pure _) (
      Keeps-if (same (codes "tthl") type) _ _ (Keeps-pure _)
        (Keeps-bind (Keeps-or_else (Keeps-user_putf _) (Keeps-end_upload false)) λ _. Keeps-pure _))

  pub Keeps-open_upload_file_adcget :
      (type str : Bytes) (offset numbytes : ℕ)
      → Kept (open_upload_file_adcget type str offset numbytes)
  unfolding open_upload_file_adcget
  Keeps-open_upload_file_adcget type str offset numbytes = Keeps-bind (Keeps-adcget_type type) λ t.
      Keeps-bind (Keeps-adcget_name t str) λ pair.
        Keeps-bind (Keeps-Leaves (Leaves-screen_writer sends.lasting)) λ _.
          Keeps-bind (Keeps-open_upload_file_main pair.1 offset pair.0) λ _.
            Keeps-bind (Keeps-Leaves (Leaves-change _ λ r k h. h)) λ _.
              Keeps-bind (keeps_core _) λ k.
                Keeps-bind (Keeps-or_else (Keeps-user_putf _) (Keeps-end_upload false))
                  λ _. Keeps-upload_file
