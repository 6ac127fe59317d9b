-- ===== src/Tests/Peer.antt =====
-- The theorems on src/user.c at a connection that receives a file.
use microdc.Prelude.{
  ◌+◌, ◌-◌, ◌%◌, ◌^◌, ◌≤◌, ◌<◌, ◌≡◌, ◌≢◌, refl, ap, arith, Bool, true, false, none, some, [], ◌∷◌,
  length,
}
use microdc.Prelude.Text.{codes}
use microdc.User.State.{
  mynick, is_state, data_recv, receive, Env, Core, Io, Conn, change, device, ask, put, read_core,
  read_env, read_io, sent, got, missing, sigterm,
}
use microdc.User.Handshake.{on_mynick, introduce, choose_direction}
use microdc.User.Upload.{block_end}
use microdc.User.Comm.{
  check_state, nick_validate, report, answer, get_our_nick, user_putf, write_sendq, screen_writer,
}
use microdc.Prelude.Exec.{pure, gets, modify, ◌>>=◌}
use microdc.User.Command.{dispatch, user_handle_command}
use microdc.User.Framing.{IsFramed, command-IsFramed}
use microdc.User.Graph.{edge, command-edge}
use microdc.User.Handshaking.{advances, command-advances}
use microdc.User.Loop.{Ready, main_loop}
use microdc.User.Queue.{main_loop-IsFramed}
use microdc.User.Bounds.{opposite, choose_direction-opposite, block_end_lem}

-- An outside on which all goes well: five bytes stand ready at the socket.
abbrev outside : Env
outside = record {
  put_sync = λ n. true;
  get_bool = λ n. some true;
  get_nick = λ n. some (codes "me");
  get_upload = λ n. some (true, some (codes "/f"));
  writes_main = λ n. true;
  reads_main = λ n. true;
  read_signal = λ n. sigterm;
  write_socket = λ n bytes. sent (length bytes);
  read_socket = λ n. got (codes "hello");
  connects = λ n. true;
  status = λ n name. missing;
  opens_write = λ n exists name. true;
  opens_read = λ n name. true;
  seeks = λ n offset. true;
  writes = λ n bytes. true;
  closes = λ n. true;
  read_file = λ n count. [];
  scan_block = λ text. none;
  fs_to_main = λ name. name;
  main_to_fs = λ name. name;
  hub_to_main = λ name. name;
  main_to_hub = λ name. name;
  utf8_to_main = λ name. name;
  base_name = λ name. name;
  same_case = λ a b. false;
}

-- five of eight bytes are missing
abbrev receiver : Core
receiver = record {
  user_state = data_recv;
  user_nick = some (codes "you");
  supported = [];
  data_size = 5;
  dir_rand = 7;
  we_connected = true;
  our_dir = receive;
  share_file = some (codes "/f");
  local_file = some (codes "f");
  transfer_open = true;
  file_pos = 3;
  final_pos = 0;
  file_size = 8;
  transfer_pos = 3;
  local_exists = true;
}

abbrev idle : Bool → Io
idle running = record {
  clock = 0;
  user_running = running;
  muted = false;
  sendq = [];
  recvq = [];
  recvq_last = 0;
  reads = true;
  writes_on = false;
  faulted = false;
  told = [];
  downloads = none ∷ [];
}

abbrev receiving : Bool → Conn
receiving running = record { core = receiver; io = idle running; env = outside }

receiving-IsFramed : IsFramed (receiving true)
receiving-IsFramed = record {
  phase = λ e. (omega arith, omega arith, omega arith, omega arith, refl);
}

command-IsFramed_example : IsFramed (user_handle_command (codes "hello") (receiving true)).1
command-IsFramed_example =
    command-IsFramed (codes "hello") (receiving true) receiving-IsFramed λ running here. omega arith

abbrev readable : Ready
readable = record {
  signal_in = false;
  main_out = false;
  main_in = false;
  user_out = false;
  user_in = true;
}

main_loop-IsFramed_example : IsFramed (main_loop (some readable ∷ []) (receiving true)).1
main_loop-IsFramed_example =
    main_loop-IsFramed (some readable ∷ []) (receiving true) receiving-IsFramed

command-edge_example :
    edge data_recv (user_handle_command (codes "hel") (receiving true)).1.user_state ≡ true
command-edge_example = command-edge (codes "hel") (receiving true) λ running here. omega arith

-- the other side speaks first
abbrev greeted : Conn
greeted = record {
  core = record receiver { user_state = mynick; data_size = 0; we_connected = false };
  io = idle true;
  env = outside;
}

greeted-runs : (user_handle_command (codes "$MyNick you") greeted).1.user_running ≡ true
unfolding user_handle_command read_core dispatch on_mynick check_state read_env nick_validate report
    put ask device answer change introduce get_our_nick user_putf write_sendq screen_writer read_io
    pure gets modify ◌>>=◌
greeted-runs = refl

command-advances_example :
    (mynick ≡ mynick)
    × (advances mynick (user_handle_command (codes "$MyNick you") greeted).1.user_state ≡ true)
command-advances_example =
    command-advances mynick (codes "$MyNick you") greeted refl refl
      (λ e. absurd (ground (arith, ap (λ s. is_state s data_recv) e))) greeted-runs

choose_direction_example :
    choose_direction true true 8 3 ≡ opposite (choose_direction true true 3 8)
choose_direction_example = choose_direction-opposite true true 3 8 λ e. absurd (omega arith)

block_end_example :
    (4 + 3 < 2 ^ 64 → (4 ≤ block_end 4 3 10) × (block_end 4 3 10 ≤ 10))
    × (block_end 4 (2 ^ 64 - 1) 10 ≡ 10)
    × (2 ^ 64 ≤ 4 + 3 → 3 ≢ 2 ^ 64 - 1 → (4 + 3) % 2 ^ 64 < 10 → block_end 4 3 10 < 4)
block_end_example = block_end_lem 4 3 10 (omega arith) (omega arith) (omega arith)
