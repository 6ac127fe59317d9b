-- ===== src/User/State.antt =====
-- src/user.c: the state of the process that talks to one other user. `core` holds the fields of
-- DCUserConnLocal that the protocol is about, `io` the queues and the pipes to the main process,
-- and `env` what the outside answers: a function of the number of the question. The queues are
-- given by their contents.
use microdc.Prelude.{ℕ, ◌+◌, Bool, true, false, Option, List, [], ◌++◌, ◌∷◌}
use microdc.Prelude.Text.{Bytes}
use microdc.Prelude.Exec.{Exec, pure, gets, ◌>>=◌, ◌>>◌, modify}

-- DCUserState
pub data UserState : Type 0 where
  disconnected : UserState
  connect : UserState
  mynick : UserState
  lock : UserState
  direction : UserState
  supports : UserState
  key : UserState
  get : UserState
  send_get : UserState
  file_length : UserState
  data_recv : UserState
  data_send : UserState

-- DCTransferDirection
pub data Direction : Type 0 where
  unknown : Direction
  send : Direction
  receive : Direction

-- DCAdcgetType
pub data AdcgetType : Type 0 where
  file : AdcgetType
  tth : AdcgetType
  tthl : AdcgetType

-- What the main process answers to DC_MSG_CHECK_DOWNLOAD; `is_list` is flag == DC_TF_LIST.
pub record Request : Type 0 where
  pub local_name : Bytes
  pub share_name : Bytes
  pub size : ℕ
  pub is_list : Bool

-- The messages to the main process, without the texts that are only shown.
pub data Message : Type 0 where
  terminating : Message
  transfer_status : ℕ → Message
  screen_put : Message
  want_download : Message
  validate_dir : Direction → Message
  get_my_nick : Message
  validate_nick : Bytes → Message
  download_ended : Bool → Message
  check_download : Message
  transfer_start : Option Bytes → Option Bytes → ℕ → ℕ → Message
  upload_ended : Bool → Message
  check_upload : AdcgetType → Bytes → Message

-- What a write to the socket results in: the number of bytes sent, or -1 and errno.
pub data Sent : Type 0 where
  sent : ℕ → Sent
  again : Sent
  interrupted : Sent
  failed : Sent

-- What a read from the socket results in.
pub data Received : Type 0 where
  got : Bytes → Received
  later : Received
  broken : Received

-- lstat or stat: no such file, another error, or the size of a file that is not or is regular
pub data FileStatus : Type 0 where
  missing : FileStatus
  unreadable : FileStatus
  irregular : ℕ → FileStatus
  regular : ℕ → FileStatus

-- What is read from the signal pipe.
pub data Signal : Type 0 where
  sigterm : Signal
  sigalrm : Signal
  sigusr1 : Signal
  no_signal : Signal

pub record Env : Type 0 where
  -- msgq_put_sync returned more than 0
  pub put_sync : ℕ → Bool
  -- msgq_get_sync of the types that are read; `none` is a result of 0 or less
  pub get_bool : ℕ → Option Bool
  pub get_nick : ℕ → Option Bytes
  pub get_upload : ℕ → Option (Bool × Option Bytes)
  -- msgq_write and msgq_read returned more than 0
  pub writes_main : ℕ → Bool
  pub reads_main : ℕ → Bool
  pub read_signal : ℕ → Signal
  pub write_socket : ℕ → Bytes → Sent
  pub read_socket : ℕ → Received
  -- getsockopt succeeded and reports no error
  pub connects : ℕ → Bool
  pub status : ℕ → Bytes → FileStatus
  -- open, lseek, and a full_write that wrote everything
  pub opens_write : ℕ → Bool → Bytes → Bool
  pub opens_read : ℕ → Bytes → Bool
  pub seeks : ℕ → ℕ → Bool
  pub writes : ℕ → Bytes → Bool
  pub closes : ℕ → Bool
  -- full_read from the position of an open file: the bytes read, at most the given number
  pub read_file : ℕ → ℕ → Bytes
  -- sscanf(s, "%" PRIu64 "%" PRIu64 "%*c%[^\n]", ...) == 3, with what it stored
  pub scan_block : Bytes → Option (ℕ × ℕ × Bytes)
  -- conversions between character sets, which leave a text that they cannot convert
  pub fs_to_main : Bytes → Bytes
  pub main_to_fs : Bytes → Bytes
  pub hub_to_main : Bytes → Bytes
  pub main_to_hub : Bytes → Bytes
  pub utf8_to_main : Bytes → Bytes
  -- base_name of Gnulib, and strcasecmp(a, b) == 0
  pub base_name : Bytes → Bytes
  pub same_case : Bytes → Bytes → Bool

pub record Core : Type 0 where
  pub user_state : UserState
  pub user_nick : Option Bytes
  pub supported : List Bytes
  pub data_size : ℕ
  pub dir_rand : ℕ
  pub we_connected : Bool
  pub our_dir : Direction
  pub share_file : Option Bytes
  pub local_file : Option Bytes
  -- transfer_fd >= 0
  pub transfer_open : Bool
  pub file_pos : ℕ
  pub final_pos : ℕ
  pub file_size : ℕ
  pub transfer_pos : ℕ
  pub local_exists : Bool

pub record Io : Type 0 where
  -- how many questions were put to the outside
  pub clock : ℕ
  pub user_running : Bool
  -- warn_writer is default_warn_writer
  pub muted : Bool
  pub sendq : Bytes
  pub recvq : Bytes
  pub recvq_last : ℕ
  -- the socket is in user_read_fds, in user_write_fds
  pub reads : Bool
  pub writes_on : Bool
  -- an assertion failed, or what the C code does is undefined
  pub faulted : Bool
  pub told : List Message
  -- the answers to DC_MSG_CHECK_DOWNLOAD that are still to come; `none` is a null local_file, and
  -- behind the last one the main process is gone
  pub downloads : List (Option Request)

pub record Conn : Type 0 where
  pub core : Core
  pub open core use *
  pub io : Io
  pub open io use *
  pub env : Env

unfoldable pub change : (Core → Core) → Exec Conn Unit
change f = modify (λ c. record c { core = f c.core })

unfoldable pub device : (Io → Io) → Exec Conn Unit
device f = modify (λ c. record c { io = f c.io })

-- An answer from the outside.
unfoldable pub ask : {A : Type 0} → (Env → ℕ → A) → Exec Conn A
ask f = do
  c ← gets (λ c. c)
  device (λ io. record io { clock = io.clock + 1 })
  pure (f c.env c.clock)

unfoldable pub read_core : {A : Type 0} → (Core → A) → Exec Conn A
read_core f = gets (λ c. f c.core)

unfoldable pub read_io : {A : Type 0} → (Io → A) → Exec Conn A
read_io f = gets (λ c. f c.io)

unfoldable pub read_env : {A : Type 0} → (Env → A) → Exec Conn A
read_env f = gets (λ c. f c.env)

-- msgq_put_sync, which succeeded
unfoldable pub put : Message → Exec Conn Bool
put m = do
  ok ← ask (λ e. e.put_sync)
  device (λ io. record io { told = io.told ++ m ∷ [] })
  pure ok

abbrev pub is_state : UserState → UserState → Bool
is_state disconnected disconnected = true
is_state connect connect = true
is_state mynick mynick = true
is_state lock lock = true
is_state direction direction = true
is_state supports supports = true
is_state key key = true
is_state get get = true
is_state send_get send_get = true
is_state file_length file_length = true
is_state data_recv data_recv = true
is_state data_send data_send = true
is_state _ _ = false
