-- ===== src/User/Loop.antt =====
-- src/user.c: what the main loop calls when a descriptor is ready, and the main loop.
use microdc.Prelude.{
  ℕ, zero, suc, ◌+◌, ◌-◌, ◌^◌, ◌==◌, ltb, leb, ◌&&◌, not, min, Bool, true, false, Option, none,
  some, List, [], ◌++◌, ◌∷◌, length, drop, take, if◌then◌else◌,
}
use microdc.Prelude.Text.{Bytes, codes}
use microdc.Prelude.Exec.{Exec, pure, stop, ◌>>=◌, ◌>>◌, when, call}
use microdc.User.State.{
  connect, mynick, get, data_send, Sent, sent, Received, got, later, broken, Signal, sigusr1, Conn,
  device, change, ask, read_core, read_io, read_env, is_state,
}
use microdc.User.Comm.{
  fatal_error, fault, screen_writer, warn, terminate_process, give_up, send_user_status,
  write_sendq, is_lost, get_our_nick, user_putf,
}
use microdc.User.Download.{word, word_sub}
use microdc.User.Upload.{end_upload}
use microdc.User.Handshake.{own_lock}
use microdc.User.Command.{user_handle_command}

-- The loop of user_input_available over the receive queue `buf`, of which `rest` stands from `c`
-- on; `skip` bytes of it are passed by `c += size - 1`. The result is `start`.
unfoldable pub handle_input : Bytes → ℕ → ℕ → ℕ → Bytes → Exec Conn ℕ
handle_input buf start c skip [] = pure start
handle_input buf start c (suc skip) (b ∷ rest) = handle_input buf start (c + 1) skip rest
handle_input buf start c zero (b ∷ rest) = do
  data_size ← read_core (λ k. k.data_size)
  if ltb 0 data_size
      then (do
        let size = min data_size (length buf - start)
        call (user_handle_command (take size (drop start buf)))
        running ← read_io (λ io. io.user_running)
        if running
            then handle_input buf (start + size) (c + 1) (size - 1) rest
            else pure (start + size))
      else if b == b'|'
      then (do
        when (ltb 0 (c - start)) screen_writer
        call (user_handle_command (take (c - start) (drop start buf)))
        running ← read_io (λ io. io.user_running)
        if running then handle_input buf (c + 1) (c + 1) 0 rest else pure (c + 1))
      else handle_input buf start (c + 1) 0 rest

-- byteq_read on the socket; EAGAIN and EINTR are no errors
unfoldable pub read_recvq : Received → Exec Conn Unit
read_recvq (got []) = give_up
read_recvq (got (b ∷ bytes)) = device (λ io. record io { recvq = io.recvq ++ b ∷ bytes })
read_recvq later = pure tt
read_recvq broken = give_up

-- user_input_available. The counters `start` and `c` are of type int, `size` and user_recvq_last
-- are uint32_t. From 2 ^ 31 bytes in the queue on they can overflow, which is undefined for int and
-- counts as a fault here; with fewer bytes none of them does.
unfoldable pub user_input_available : Exec Conn Unit
user_input_available = do
  res ← ask (λ e. e.read_socket)
  read_recvq res
  io ← read_io (λ io. io)
  when (leb (2 ^ 31) (length io.recvq)) fault
  start ← handle_input io.recvq 0 io.recvq_last 0 (drop io.recvq_last io.recvq)
  device
      (λ io. record io { recvq = drop start io.recvq; recvq_last = length (drop start io.recvq) })

-- the branch of DC_USER_CONNECT
unfoldable pub finish_connect : Exec Conn Unit
finish_connect = do
  connected ← ask (λ e. e.connects)
  when (not connected) give_up
  device (λ io. record io { writes_on = false; reads = true })
  change (λ k. record k { user_state = mynick })
  we_connected ← read_core (λ k. k.we_connected)
  when we_connected (do
    nick ← get_our_nick
    hub_nick ← read_env (λ e. e.main_to_hub nick)
    screen_writer
    user_putf (codes "$MyNick " ++ (hub_nick ++ codes "|"))
    user_putf (codes "$Lock " ++ (own_lock ++ codes " Pk=MICRODCABCABCABCABCAB|")))

-- byteq_full_read_upto into the empty queue. Its result is the number of bytes read, which is less
-- than `block` at the end of the file or on an error.
unfoldable pub fill_sendq : ℕ → Bytes → Exec Conn Unit
fill_sendq block bytes = do
  device (λ io. record io { sendq = bytes })
  when (ltb (length bytes) block) (do warn; end_upload false; terminate_process; stop)
  change (λ k. record k { file_pos = word (k.file_pos + length bytes) })

-- `res` as a uint64_t
abbrev pub res_of : Sent → ℕ
res_of (sent n) = n
res_of _ = 2 ^ 64 - 1

-- the branch of DC_USER_DATA_SEND
unfoldable pub send_data : Exec Conn Unit
send_data = do
  k ← read_core (λ k. k)
  when (k.file_size == 0) fault
  let block = min 65536 (word_sub k.final_pos k.file_pos)
  queued ← read_io (λ io. length io.sendq)
  when (ltb 0 block && queued == 0)
      (do read ← ask (λ e. e.read_file); fill_sendq block (read block))
  filled ← read_io (λ io. length io.sendq)
  when (filled == 0) fault
  res ← write_sendq
  when (is_lost res) (do warn; end_upload false; terminate_process; stop)
  change (λ k. record k { transfer_pos = word (k.transfer_pos + res_of res) })
  left ← read_io (λ io. length io.sendq)
  pos ← read_core (λ k. k.file_pos)
  call (send_user_status (word_sub pos left))
  k' ← read_core (λ k. k)
  when (k'.file_pos == k'.final_pos && left == 0) (do
    device (λ io. record io { writes_on = false })
    end_upload true
    change (λ k. record k { user_state = get }))

-- the branch of the other states
unfoldable pub flush_sendq : Exec Conn Unit
flush_sendq = do
  queued ← read_io (λ io. length io.sendq)
  when (ltb 0 queued) (do res ← write_sendq; when (is_lost res) give_up)
  left ← read_io (λ io. length io.sendq)
  when (left == 0) (device (λ io. record io { writes_on = false }))

-- user_now_writable
unfoldable pub user_now_writable : Exec Conn Unit
user_now_writable = do
  now ← read_core (λ k. k.user_state)
  if is_state now connect
      then finish_connect
      else if is_state now data_send
      then send_data
      else flush_sendq

abbrev pub on_signal : Signal → Exec Conn Unit
on_signal sigusr1 = pure tt
on_signal _ = give_up

-- read_signal_input
unfoldable pub read_signal_input : Exec Conn Unit
read_signal_input = do signal ← ask (λ e. e.read_signal); on_signal signal

-- main_request_fd_writable
unfoldable pub main_request_fd_writable : Exec Conn Unit
main_request_fd_writable = do ok ← ask (λ e. e.writes_main); when (not ok) fatal_error

-- main_result_fd_readable
unfoldable pub main_result_fd_readable : Exec Conn Unit
main_result_fd_readable = do
  ok ← ask (λ e. e.reads_main)
  if ok then (do warn; device (λ io. record io { user_running = false })) else fatal_error

-- What select reports.
pub record Ready : Type 0 where
  pub signal_in : Bool
  pub main_out : Bool
  pub main_in : Bool
  pub user_out : Bool
  pub user_in : Bool

-- if (ucl->user_running && FD_ISSET(...)) handler(ucl);
unfoldable pub if_ready : Bool → Exec Conn Unit → Exec Conn Unit
if_ready ready handler = do
  running ← read_io (λ io. io.user_running)
  when (running && ready) (call handler)

-- one round of the loop of user_main
unfoldable pub serve_ready : Ready → Exec Conn Unit
serve_ready r = do
  if_ready r.signal_in read_signal_input
  if_ready r.main_out main_request_fd_writable
  if_ready r.main_in main_result_fd_readable
  if_ready r.user_out user_now_writable
  if_ready r.user_in user_input_available

-- The loop of user_main, for the results that select has; `none` is an error.
unfoldable pub main_loop : List (Option Ready) → Exec Conn Unit
main_loop [] = pure tt
main_loop (none ∷ rest) = do running ← read_io (λ io. io.user_running); when running warn
main_loop (some r ∷ rest) = do
  let next = main_loop rest
  running ← read_io (λ io. io.user_running)
  when running (do serve_ready r; next)
