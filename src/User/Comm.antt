-- ===== src/User/Comm.antt =====
-- src/user.c: messages to the main process and commands to the other user.
use microdc.Prelude.{
  ℕ, zero, suc, ◌==◌, ltb, ◌&&◌, not, Bool, true, false, Option, none, some, ◌++◌, length, drop,
  if◌then◌else◌,
}
use microdc.Prelude.Text.{Bytes}
use microdc.Prelude.Exec.{Exec, pure, stop, ◌>>=◌, ◌>>◌, when}
use microdc.User.State.{
  UserState, Direction, Message, Sent, sent, again, interrupted, failed, Conn, device, ask,
  read_core, read_io, put, is_state, terminating, transfer_status, screen_put, want_download,
  validate_dir, get_my_nick, validate_nick,
}

-- fatal_error; its own warning is no longer sent
unfoldable pub fatal_error : Exec Conn Unit
fatal_error = device (λ io. record io { muted = true; user_running = false })

-- The process is gone: an assertion failed, or what C does is undefined.
unfoldable pub fault : {A : Type 0} → Exec Conn A
fault = do device (λ io. record io { faulted = true; user_running = false }); stop

-- a message to the main process; if it cannot be sent, fatal_error and return
unfoldable pub report : Message → Exec Conn Unit
report m = do ok ← put m; if ok then pure tt else (do fatal_error; stop)

-- user_screen_writer, which flag_putf and dump_command call
unfoldable pub screen_writer : Exec Conn Unit
screen_writer = do ok ← put screen_put; if ok then pure tt else fatal_error

-- warn, warn_socket_error and warn_file_error
unfoldable pub warn : Exec Conn Unit
warn = do muted ← read_io (λ io. io.muted); if muted then pure tt else screen_writer

-- terminate_process
unfoldable pub terminate_process : Exec Conn Unit
terminate_process = do
  device (λ io. record io { user_running = false })
  ok ← put terminating
  if ok then pure tt else fatal_error

-- warn(...); terminate_process(ucl); return
unfoldable pub give_up : {A : Type 0} → Exec Conn A
give_up = do warn; terminate_process; stop

-- check_state, whose callers return if it fails
unfoldable pub check_state : UserState → Exec Conn Unit
check_state state = do
  now ← read_core (λ k. k.user_state)
  if is_state now state then pure tt else give_up

-- send_user_status
unfoldable pub send_user_status : ℕ → Exec Conn Unit
send_user_status pos = report (transfer_status pos)

-- the value of a question to the main process; fatal_error and return if there is none
unfoldable pub answer : {A : Type 0} → Option A → Exec Conn A
answer (some a) = pure a
answer none = do fatal_error; stop

abbrev left : Sent → Bytes → Bytes
left (sent n) q = drop n q
left _ q = q

-- byteq_write: what was sent leaves the queue
unfoldable pub write_sendq : Exec Conn Sent
write_sendq = do
  q ← read_io (λ io. io.sendq)
  write ← ask (λ e. e.write_socket)
  let res = write q
  device (λ io. record io { sendq = left res io.sendq })
  pure res

-- res == 0 || (res < 0 && errno != EAGAIN)
abbrev pub is_broken : Sent → Bool
is_broken (sent zero) = true
is_broken (sent (suc n)) = false
is_broken again = false
is_broken interrupted = true
is_broken failed = true

-- res == 0 || (res < 0 && errno != EAGAIN && errno != EINTR)
abbrev pub is_lost : Sent → Bool
is_lost (sent zero) = true
is_lost (sent (suc n)) = false
is_lost again = false
is_lost interrupted = false
is_lost failed = true

-- user_putf, whose callers return if it fails
unfoldable pub user_putf : Bytes → Exec Conn Unit
user_putf text = do
  oldcur ← read_io (λ io. length io.sendq)
  device (λ io. record io { sendq = io.sendq ++ text })
  data_size ← read_core (λ k. k.data_size)
  when (data_size == 0) screen_writer
  res ← write_sendq
  when (is_broken res) give_up
  cur ← read_io (λ io. length io.sendq)
  when (oldcur == 0 && ltb 0 cur) (device (λ io. record io { writes_on = true }))

-- wants_to_download
unfoldable pub wants_to_download : Exec Conn Bool
wants_to_download = do report want_download; reply ← ask (λ e. e.get_bool); answer reply

-- direction_validate
unfoldable pub direction_validate : Direction → Exec Conn Unit
direction_validate dir = do
  report (validate_dir dir)
  reply ← ask (λ e. e.get_bool)
  valid ← answer reply
  when (not valid) give_up

-- get_our_nick
unfoldable pub get_our_nick : Exec Conn Bytes
get_our_nick = do report get_my_nick; reply ← ask (λ e. e.get_nick); answer reply

-- nick_validate
unfoldable pub nick_validate : Bytes → Exec Conn Unit
nick_validate nick = do
  report (validate_nick nick)
  reply ← ask (λ e. e.get_bool)
  valid ← answer reply
  when (not valid) give_up
