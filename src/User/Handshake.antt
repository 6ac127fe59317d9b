-- ===== src/User/Handshake.antt =====
-- src/user.c: the handshake of two users, as far as $Key.
use microdc.Prelude.{
  ℕ, ltb, leb, length, not, Bool, true, false, Option, none, some, ◌++◌, drop, if◌then◌else◌,
}
use microdc.Prelude.Text.{Bytes, codes, decimal, same, c_string}
use microdc.Prelude.Exec.{Exec, ◌>>=◌, ◌>>◌, when, expect}
use microdc.IntParse.{parse_uint16}
use microdc.Message.{decode_lock}
use microdc.User.State.{
  mynick, lock, direction, supports, key, get, Direction, send, receive, Conn, change, read_core,
  read_env,
}
use microdc.User.Comm.{
  screen_writer, warn, give_up, check_state, user_putf, wants_to_download, direction_validate,
  get_our_nick, nick_validate,
}
use microdc.User.Download.{download_next_file}
use microdc.User.Tokens.{words, strtok, before}

abbrev pub own_lock : Bytes
own_lock = codes "EXTENDEDPROTOCOLABCABCABCABCABCABCA"

abbrev pub base_key : ℕ
base_key = 5

-- $MyNick and $Lock, as the side that is called sends them
unfoldable pub introduce : Exec Conn Unit
introduce = do
  nick ← get_our_nick
  hub_nick ← read_env (λ e. e.main_to_hub nick)
  user_putf (codes "$MyNick " ++ (hub_nick ++ codes "|"))
  user_putf (codes "$Lock " ++ (own_lock ++ codes " Pk=MICRODCABCABCABCABCAB|"))

unfoldable pub on_mynick : Bytes → Exec Conn Unit
on_mynick buf = do
  check_state mynick
  nick ← read_env (λ e. e.hub_to_main (c_string (drop 8 buf)))
  nick_validate nick
  change (λ k. record k { user_nick = some nick })
  we_connected ← read_core (λ k. k.we_connected)
  when (not we_connected) introduce
  change (λ k. record k { user_state = lock })

unfoldable pub direction_word : Bool → Bytes
direction_word true = codes "Download"
direction_word false = codes "Upload"

-- decode_lock tells the main process of a lock that is too short.
unfoldable pub on_lock : Bytes → Exec Conn Unit
on_lock buf = do
  check_state lock
  let text = before (codes " Pk=") (drop 6 buf)
  when (same text (drop 6 buf)) warn
  when (ltb (length text) 3) screen_writer
  let answer = decode_lock text base_key
  download ← wants_to_download
  user_putf (codes "$Supports MiniSlots XmlBZList ADCGet TTHF|")
  rand ← read_core (λ k. k.dir_rand)
  user_putf (
      codes "$Direction "
      ++ (direction_word download ++ (codes " " ++ (decimal rand ++ codes "|"))))
  user_putf (codes "$Key " ++ (c_string answer ++ codes "|"))
  change (λ k. record k { user_state = supports })

unfoldable pub on_supports : Bytes → Exec Conn Unit
on_supports buf = do
  check_state supports
  change (λ k. record k {
    supported = k.supported ++ words (c_string (drop 10 buf));
    user_state = direction;
  })

abbrev pub is_download : Bytes → Option Bool
is_download token =
    if same (codes "Upload") token
    then some false
    else if same (codes "Download") token
    then some true
    else none

-- The direction that comes out; `none` if neither side wants to download.
unfoldable pub choose_direction : Bool → Bool → ℕ → ℕ → Option Direction
choose_direction true true remote_rand dir_rand =
    if leb dir_rand remote_rand then some send else some receive
choose_direction true false remote_rand dir_rand = some send
choose_direction false true remote_rand dir_rand = some receive
choose_direction false false remote_rand dir_rand = none

unfoldable pub on_direction : Bytes → Exec Conn Unit
on_direction buf = do
  check_state direction
  first ← expect (strtok b' ' (c_string (drop 11 buf))) give_up
  they_download ← expect (is_download first.0) give_up
  second ← expect (strtok b' ' first.1) give_up
  remote_rand ← expect (parse_uint16 second.0) give_up
  we_download ← wants_to_download
  dir_rand ← read_core (λ k. k.dir_rand)
  our_dir ← expect (choose_direction they_download we_download remote_rand dir_rand) give_up
  change (λ k. record k { our_dir = our_dir })
  direction_validate our_dir
  change (λ k. record k { user_state = key })

abbrev pub is_send : Direction → Bool
is_send send = true
is_send _ = false

-- A wrong key is only warned about.
unfoldable pub on_key : Bytes → Exec Conn Unit
on_key buf = do
  check_state key
  let expected = c_string (decode_lock own_lock base_key)
  when (not (same expected (c_string (drop 5 buf)))) warn
  dir ← read_core (λ k. k.our_dir)
  if is_send dir then change (λ k. record k { user_state = get }) else download_next_file
