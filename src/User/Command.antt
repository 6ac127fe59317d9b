-- ===== src/User/Command.antt =====
-- src/user.c: user_handle_command.
use microdc.Prelude.{
  ℕ, ◌-◌, ◌^◌, ◌==◌, leb, ◌||◌, not, Bool, true, false, Option, none, some, [], ◌∷◌, length, drop,
  if◌then◌else◌,
}
use microdc.Prelude.Int.{ℤ, pos, negsuc}
use microdc.Prelude.Text.{Bytes, codes, same, starts, c_string}
use microdc.Prelude.Exec.{Exec, pure, ◌>>=◌, ◌>>◌, when, or_else, expect}
use microdc.IntParse.{parse_uint64, parse_int64}
use microdc.User.State.{get, send_get, file_length, data_recv, Conn, read_core, read_env, is_state}
use microdc.User.Comm.{fault, screen_writer, warn, terminate_process, give_up, check_state}
use microdc.User.Download.{end_download, skip_download, open_download_file, receive_data}
use microdc.User.Upload.{
  end_upload, open_upload_file, open_upload_file_block, open_upload_file_adcget, upload_file,
}
use microdc.User.Handshake.{on_mynick, on_lock, on_supports, on_direction, on_key}
use microdc.User.Tokens.{strsep, strtok, split_plain}

-- the name and the offset, counted from 1, when strtok has cut the text at the first '$'
abbrev pub get_token : Bool → Option (Bytes × Bytes) → Exec Conn (Bytes × ℕ)
get_token unnamed none = do warn; pure ([], 0)
get_token true (some cut) = pure ([], 0)
get_token false (some cut) = do
  when (length cut.1 == 0) give_up
  offset ← expect (parse_uint64 cut.1) give_up
  pure (cut.0, offset - 1)

-- the name and the offset of $Get; no name if the text begins with '$'
unfoldable pub get_request : Bytes → Exec Conn (Bytes × ℕ)
get_request text = get_token (starts (codes "$") text) (strtok b'$' text)

unfoldable pub on_get : Bytes → Exec Conn Unit
on_get buf = do
  now ← read_core (λ k. k.user_state)
  when (not (is_state now send_get || is_state now get)) give_up
  (name, offset) ← get_request (c_string (drop 5 buf))
  now' ← read_core (λ k. k.user_state)
  when (is_state now' send_get) (end_upload false)
  conv ← read_env (λ e. e.utf8_to_main name)
  when (not (length name == 0)) (open_upload_file conv offset)

unfoldable pub on_maxed_out : Exec Conn Unit
on_maxed_out = do check_state file_length; end_download false; terminate_process

unfoldable pub on_file_length : Bytes → Exec Conn Unit
on_file_length buf = do
  check_state file_length
  size ← expect (parse_uint64 (c_string (drop 12 buf))) skip_download
  open_download_file size

unfoldable pub on_error : Exec Conn Unit
on_error = do
  now ← read_core (λ k. k.user_state)
  if is_state now file_length then skip_download else give_up

unfoldable pub on_send : Exec Conn Unit
on_send = do check_state send_get; upload_file

-- the start of $UGetBlock and $ADCGET: a wrong state is refused twice
unfoldable pub check_get : Exec Conn Unit
check_get = or_else (check_state get) give_up

-- sscanf writes the name and a null to an array of 10240 bytes.
unfoldable pub on_ugetblock : Bytes → Exec Conn Unit
on_ugetblock buf = do
  check_get
  scan ← read_env (λ e. e.scan_block)
  (offset, size, name) ← expect (scan (c_string (drop 11 buf))) give_up
  when (leb 10240 (length name)) fault
  conv ← read_env (λ e. e.utf8_to_main name)
  screen_writer
  open_upload_file_block conv offset size

-- an int64_t in a uint64_t
abbrev pub as_uint64 : ℤ → ℕ
as_uint64 (pos n) = n
as_uint64 (negsuc n) = 2 ^ 64 - 1 - n

-- flags are ignored
unfoldable pub warn_flags : Option Bytes → Exec Conn Unit
warn_flags none = pure tt
warn_flags (some flags) = warn

-- the words of $ADCGET behind its type
unfoldable pub adcget_numbers : Bytes → Exec Conn (ℕ × ℕ)
adcget_numbers text = do
  let (start, rest) = strsep (λ b. b == b' ') text
  numbers ← expect rest give_up
  n_start ← expect (parse_uint64 start) give_up
  let (count, flags) = strsep (λ b. b == b' ' || b == 13 || b == 10) numbers
  n_count ← expect (parse_int64 count) give_up
  warn_flags flags
  pure (n_start, as_uint64 n_count)

-- `filename[0]`, if it is not a space; behind an empty name the loop reads on
unfoldable pub name_start : Bytes → Exec Conn (ℕ × Bytes)
name_start [] = fault
name_start (b ∷ s) = if b == b' ' then give_up else pure (b, s)

unfoldable pub on_adcget : Bytes → Exec Conn Unit
on_adcget buf = do
  check_get
  let (type, rest) = strsep (λ b. b == b' ') (c_string (drop 8 buf))
  when (length type == 0) give_up
  text ← expect rest give_up
  (first, behind) ← name_start text
  (name, numbers) ← expect (split_plain first behind) give_up
  (offset, count) ← adcget_numbers numbers
  open_upload_file_adcget type (first ∷ name) offset count

-- the branches of user_handle_command, by the start of the message
unfoldable pub dispatch : Bytes → Exec Conn Unit
dispatch buf =
    if starts (codes "$MyNick ") buf
    then on_mynick buf
    else if starts (codes "$Lock ") buf
    then on_lock buf
    else if starts (codes "$Supports ") buf
    then on_supports buf
    else if starts (codes "$Direction ") buf
    then on_direction buf
    else if starts (codes "$Key ") buf
    then on_key buf
    else if starts (codes "$Get ") buf
    then on_get buf
    else if same (codes "$MaxedOut") buf
    then on_maxed_out
    else if starts (codes "$FileLength ") buf
    then on_file_length buf
    else if starts (codes "$Error ") buf
    then on_error
    else if starts (codes "$Send") buf
    then on_send
    else if starts (codes "$UGetBlock ") buf
    then on_ugetblock buf
    else if starts (codes "$ADCGET ") buf
    then on_adcget buf
    else pure tt

-- user_handle_command
unfoldable pub user_handle_command : Bytes → Exec Conn Unit
user_handle_command buf = do
  now ← read_core (λ k. k.user_state)
  if is_state now data_recv then receive_data buf else dispatch buf
