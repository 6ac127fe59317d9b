-- ===== src/User/Download.antt =====
-- src/user.c: receiving files. The main process says which; its answers are a list, on which
-- download_next_file recurs.
use microdc.Prelude.{
  ℕ, ◌+◌, ◌-◌, ◌%◌, ◌^◌, ◌==◌, ltb, ◌&&◌, not, Bool, true, false, Option, none, some, List, [],
  ◌++◌, ◌∷◌, length, if◌then◌else◌,
}
use mathlib.Core.Option
use microdc.Prelude.Text.{Bytes, codes, decimal}
use microdc.Prelude.Exec.{Exec, pure, stop, ◌>>=◌, ◌>>◌, when, call, or_else}
use microdc.Fs.{translate_local_to_remote}
use microdc.User.State.{
  data_recv, file_length, Request, FileStatus, missing, unreadable, irregular, regular, Conn,
  download_ended, check_download, transfer_start, device, change, ask, read_core, read_io, read_env,
  put,
}
use microdc.User.Comm.{
  fatal_error, report, screen_writer, warn, terminate_process, send_user_status, user_putf,
}

-- uint64_t
abbrev pub word : ℕ → ℕ
word n = n % 2 ^ 64

abbrev pub word_sub : ℕ → ℕ → ℕ
word_sub a b = (a + 2 ^ 64 - b) % 2 ^ 64

abbrev pub or_empty : Option Bytes → Bytes
or_empty none = []
or_empty (some s) = s

-- the close in end_download; the result is the new value of `success`
unfoldable pub close_download : Bool → Exec Conn Bool
close_download success = do
  is_open ← read_core (λ k. k.transfer_open)
  if is_open
      then (do
        closed ← ask (λ e. e.closes)
        when (not closed) warn
        change (λ k. record k { transfer_open = false })
        pure (success && closed))
      else pure success

-- end_download
unfoldable pub end_download : Bool → Exec Conn Unit
end_download success = do
  success' ← close_download success
  ok ← put (download_ended success')
  when (not ok) fatal_error
  change (λ k. record k { share_file = none; local_file = none })

abbrev any : {A : Type 0} → (A → Bool) → List A → Bool
any p [] = false
any p (x ∷ xs) = if p x then true else any p xs

-- the names of a request: those of the file list depend on what the user supports
unfoldable pub requested_names : Request → Exec Conn (Bytes × Bytes)
requested_names r = do
  e ← read_env (λ e. e)
  supported ← read_core (λ k. k.supported)
  if r.is_list
      then (let name =
            if any (λ s. e.same_case s (codes "XmlBZList")) supported
            then codes "/files.xml.bz2"
            else codes "/MyList.DcLst" in
          pure (r.local_name ++ (b'.' ∷ e.base_name name), name))
      else pure (r.local_name, r.share_name)

abbrev pub fresh : Exec Conn (Option ℕ)
fresh = do change (λ k. record k { local_exists = false }); pure (some 0)

abbrev pub refused : Exec Conn (Option ℕ)
refused = do warn; end_download false; pure none

-- the position to resume from; `none` after an error, when end_download is done
unfoldable pub resume_position : FileStatus → Exec Conn (Option ℕ)
resume_position missing = fresh
resume_position unreadable = refused
resume_position (irregular size) = refused
resume_position (regular size) = do change (λ k. record k { local_exists = true }); pure (some size)

-- from the names of the request to the position to resume from
unfoldable pub prepare_download : Bool → Bytes → Bytes → Exec Conn (Option ℕ)
prepare_download is_list local_file share_file = do
  conv ← read_env (λ e. e.fs_to_main local_file)
  change (λ k. record k { share_file = some share_file; local_file = some conv })
  if is_list then fresh else (do status ← ask (λ e. e.status); resume_position (status local_file))

-- the $Get message, and the new state
unfoldable pub request_file : Bytes → ℕ → ℕ → Exec Conn Unit
request_file share_file size resume_pos = do
  remote ← read_env (λ e. e.main_to_hub (translate_local_to_remote share_file))
  or_else
      (user_putf (
        codes "$Get " ++ (remote ++ (codes "$" ++ (decimal (word (resume_pos + 1)) ++ codes "|")))))
      (end_download false)
  change (λ k. record k {
    user_state = file_length;
    file_size = word size;
    file_pos = word resume_pos;
    transfer_pos = word resume_pos;
  })

abbrev pub request_or : Bytes → ℕ → Exec Conn Unit → Option ℕ → Exec Conn Unit
request_or share_file size next none = next
request_or share_file size next (some resume_pos) = request_file share_file size resume_pos

-- the answer to DC_MSG_CHECK_DOWNLOAD; `next` asks for the next file
unfoldable pub begin_download : Exec Conn Unit → Option Request → Exec Conn Unit
begin_download next none = do screen_writer; terminate_process
begin_download next (some r) = do
  names ← requested_names r
  found ← prepare_download r.is_list names.0 names.1
  request_or names.1 r.size next found

-- download_next_file, with the answers that are still to come
unfoldable pub download_from : List (Option Request) → Exec Conn Unit
download_from [] = do
  running ← read_io (λ io. io.user_running)
  when running (do report check_download; fatal_error)
download_from (r ∷ rest) = do
  let next = download_from rest
  running ← read_io (λ io. io.user_running)
  when running (do
    report check_download
    device (λ io. record io { downloads = rest })
    begin_download next r)

-- download_next_file
unfoldable pub download_next_file : Exec Conn Unit
download_next_file = do answers ← read_io (λ io. io.downloads); download_from answers

-- end_download(ucl, false, ...); download_next_file(ucl); return
unfoldable pub skip_download : {A : Type 0} → Exec Conn A
skip_download = do end_download false; call download_next_file; stop

-- the size of the file against the size that was expected
unfoldable pub check_size : ℕ → Exec Conn Unit
check_size size = do
  expected ← read_core (λ k. k.file_size)
  if expected == 2 ^ 64 - 1
      then change (λ k. record k { file_size = word size })
      else when (ltb size expected) skip_download

-- open, which must make the file unless it exists, and lseek
unfoldable pub open_local : Exec Conn Unit
open_local = do
  k ← read_core (λ k. k)
  e ← read_env (λ e. e)
  opened ← ask (λ e. e.opens_write)
  let ok = opened k.local_exists (e.main_to_fs (or_empty k.local_file))
  change (λ k. record k { transfer_open = ok })
  when (not ok) (do warn; skip_download)
  seeks ← ask (λ e. e.seeks)
  when (not (k.file_pos == 0) && not (seeks k.file_pos)) (do warn; skip_download)

-- open_download_file
unfoldable pub open_download_file : ℕ → Exec Conn Unit
open_download_file size = do
  check_size size
  open_local
  or_else (user_putf (codes "$Send|")) (end_download false)
  k ← read_core (λ k. k)
  e ← read_env (λ e. e)
  report
      (transfer_start k.local_file (Option.map e.hub_to_main k.share_file) k.file_pos k.file_size)
  change (λ k. record k { data_size = word_sub k.file_size k.file_pos })
  left ← read_core (λ k. k.data_size)
  if left == 0
      then (do end_download true; download_next_file)
      else change (λ k. record k { user_state = data_recv })

-- user_handle_command in state DC_USER_DATA_RECV
unfoldable pub receive_data : Bytes → Exec Conn Unit
receive_data bytes = do
  write ← ask (λ e. e.writes)
  when (not (write bytes)) (do warn; end_download false; terminate_process; stop)
  change (λ k. record k {
    file_pos = word (k.file_pos + length bytes);
    transfer_pos = word (k.transfer_pos + length bytes);
    data_size = word_sub k.data_size (length bytes);
  })
  pos ← read_core (λ k. k.file_pos)
  call (send_user_status pos)
  k ← read_core (λ k. k)
  when (k.file_pos == k.file_size) (do end_download true; download_next_file)
