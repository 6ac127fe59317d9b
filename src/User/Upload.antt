-- ===== src/User/Upload.antt =====
-- src/user.c: sending files, asked for by $Get, $UGetBlock or $ADCGET.
use microdc.Prelude.{
  ℕ, zero, suc, ◌+◌, ◌-◌, ◌^◌, ◌==◌, ltb, leb, ◌&&◌, ◌||◌, not, Bool, true, false, Option, none,
  some, [], ◌++◌, ◌∷◌, length, drop, if◌then◌else◌,
}
use mathlib.Core.Option
use microdc.Prelude.Text.{Bytes, codes, decimal, same, starts, c_string}
use microdc.Prelude.Exec.{Exec, pure, stop, ◌>>=◌, ◌>>◌, when, call, or_else, expect}
use microdc.Fs.{translate_remote_to_local}
use microdc.User.State.{
  get, send_get, data_send, AdcgetType, file, tth, tthl, FileStatus, missing, unreadable, irregular,
  regular, Conn, upload_ended, check_upload, transfer_start, device, change, ask, read_core,
  read_io, read_env, put,
}
use microdc.User.Comm.{fatal_error, fault, report, screen_writer, user_putf}
use microdc.User.Download.{word, word_sub, or_empty}

-- end_upload
unfoldable pub end_upload : Bool → Exec Conn Unit
end_upload success = do
  change (λ k. record k { transfer_open = false; share_file = none; local_file = none })
  ok ← put (upload_ended success)
  when (not ok) fatal_error

-- the message is shown, the user gets an $Error, and the upload is over
unfoldable pub refuse_upload : {A : Type 0} → Bytes → Exec Conn A
refuse_upload reason = do
  screen_writer
  call (user_putf (codes "$Error " ++ (reason ++ codes "|")))
  end_upload false
  stop

abbrev is_file : AdcgetType → Bool
is_file file = true
is_file _ = false

abbrev is_null : Option Bytes → Bool
is_null none = true
is_null (some name) = false

-- the names of a file that the main process allows to be sent; base_name reads the name it is given
unfoldable pub check_names : Bytes → AdcgetType → Exec Conn Unit
check_names str type = do
  let name = if is_file type then translate_remote_to_local str else str
  ok ← put (check_upload type name)
  when (not ok) stop
  reply ← ask (λ e. e.get_upload)
  (may_upload, local_name) ← expect reply (pure tt)
  when (not may_upload) (do call (user_putf (codes "$MaxedOut|")); stop)
  when (not (is_file type) && is_null local_name) fault
  base ← read_env (λ e. e.base_name (or_empty local_name))
  change (λ k. record k {
    share_file = some (if is_file type then name else base);
    local_file = local_name;
  })

-- stat(...) < 0, or the size of what is there
abbrev pub stat_size : FileStatus → Option ℕ
stat_size missing = none
stat_size unreadable = none
stat_size (irregular size) = some size
stat_size (regular size) = some size

-- open_upload_file_main, whose callers return if it fails; without a file, quotearg gets a null
-- pointer
unfoldable pub open_upload_file_main : Bytes → ℕ → AdcgetType → Exec Conn Unit
open_upload_file_main str offset type = do
  if length str == 0 then change (λ k. record k { local_file = none }) else check_names str type
  k ← read_core (λ k. k)
  name ← expect k.local_file fault
  e ← read_env (λ e. e)
  let conv = e.main_to_fs name
  status ← ask (λ e. e.status)
  size ← expect (stat_size (status conv)) (refuse_upload (codes "File Not Available"))
  when (ltb size offset) (refuse_upload (codes "Offset out of range"))
  opens ← ask (λ e. e.opens_read)
  change (λ k. record k { transfer_open = opens conv })
  when (not (opens conv)) (refuse_upload (codes "File Not Available"))
  seeks ← ask (λ e. e.seeks)
  when (not (offset == 0) && not (seeks offset)) (refuse_upload (codes "File Not Available"))
  change (λ k. record k {
    file_pos = offset;
    transfer_pos = offset;
    user_state = send_get;
    file_size = size;
  })

-- open_upload_file
unfoldable pub open_upload_file : Bytes → ℕ → Exec Conn Unit
open_upload_file str offset = do
  open_upload_file_main str offset file
  change (λ k. record k { final_pos = k.file_size })
  size ← read_core (λ k. k.file_size)
  or_else (user_putf (codes "$FileLength " ++ (decimal size ++ codes "|"))) (end_upload false)

-- upload_file
unfoldable pub upload_file : Exec Conn Unit
upload_file = do
  k ← read_core (λ k. k)
  if k.final_pos == k.file_pos
      then (do end_upload true; change (λ k. record k { user_state = get }))
      else (do
        report (transfer_start k.local_file k.share_file k.file_pos k.final_pos)
        device (λ io. record io { writes_on = true })
        queued ← read_io (λ io. length io.sendq)
        when (not (queued == 0)) fault
        change (λ k. record k { user_state = data_send }))

-- where a block of `numbytes` bytes ends; (uint64_t) -1 asks for all
unfoldable pub block_end : ℕ → ℕ → ℕ → ℕ
block_end offset numbytes size =
    if numbytes == 2 ^ 64 - 1 || leb size (word (offset + numbytes))
    then size
    else word (offset + numbytes)

-- open_upload_file_block
unfoldable pub open_upload_file_block : Bytes → ℕ → ℕ → Exec Conn Unit
open_upload_file_block str offset numbytes = do
  open_upload_file_main str offset file
  change (λ k. record k { final_pos = block_end offset numbytes k.file_size })
  k ← read_core (λ k. k)
  or_else
      (user_putf (codes "$Sending " ++ (decimal (word_sub k.final_pos k.file_pos) ++ codes "|")))
      (end_upload false)
  upload_file

-- *s1++ = *s2++
abbrev pub emit : (Bytes → Option Bytes) → Bytes → Option Bytes
emit rest [] = none
emit rest (b ∷ src) = Option.map (λ out. b ∷ out) (rest src)

-- one round of the loop that removes the escapes of a name, on the bytes from `*s2` on
abbrev pub unescape_round : (Bytes → Option Bytes) → Bytes → Option Bytes
unescape_round rest [] = none
unescape_round rest (b ∷ src) = if b == b'\\' then emit rest src else emit rest (b ∷ src)

-- The loop makes a round for each byte of the name, since what `*s1` runs over is unchanged;
-- `none` if it reads behind the null.
unfoldable pub unescape_rounds : ℕ → Bytes → Option Bytes
unescape_rounds zero src = some []
unescape_rounds (suc n) src = unescape_round (unescape_rounds n) src

unfoldable pub unescape_name : Bytes → Option Bytes
unescape_name name = Option.map c_string (unescape_rounds (length name) (name ++ (0 ∷ [])))

-- the name and the kind of file that $ADCGET asks for
unfoldable pub adcget_name : AdcgetType → Bytes → Exec Conn (AdcgetType × Bytes)
adcget_name t str =
    if length str == 43 && starts (codes "TTH/") str then pure (root t, drop 4 str) else (do
      name ← read_env (λ e. e.utf8_to_main str)
      plain ← expect (unescape_name name) fault
      pure (t, plain))
  where
    root : AdcgetType → AdcgetType
    root tthl = tthl
    root _ = tth

-- the `type` word of $ADCGET; an unknown one gets an error and goes on as a file
unfoldable pub adcget_type : Bytes → Exec Conn AdcgetType
adcget_type type =
    if same (codes "file") type
    then pure file
    else if same (codes "tthl") type
    then pure tthl
    else (do
      or_else (user_putf (codes "$Error Unknown ADCGET type: " ++ (type ++ codes "|")))
          (end_upload false)
      pure file)

-- open_upload_file_adcget
unfoldable pub open_upload_file_adcget : Bytes → Bytes → ℕ → ℕ → Exec Conn Unit
open_upload_file_adcget type str offset numbytes = do
  t ← adcget_type type
  (t', filename) ← adcget_name t str
  screen_writer
  open_upload_file_main filename offset t'
  change (λ k. record k { final_pos = block_end offset numbytes k.file_size })
  k ← read_core (λ k. k)
  or_else
      (user_putf (
        codes "$ADCSND "
        ++ (type
            ++ (codes " "
                ++ (str
                    ++ (codes " "
                        ++ (decimal k.transfer_pos
                            ++ (codes " "
                                ++ (decimal (word_sub k.final_pos k.transfer_pos)
                                    ++ codes "|")))))))))
      (end_upload false)
  upload_file
