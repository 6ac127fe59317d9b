-- ===== src/User/Queue.antt =====
-- src/user.c: the main loop and the functions that it calls keep data_size and the state in
-- agreement. So user_input_available hands to user_handle_command what its state expects: data,
-- and no more than is missing, in DC_USER_DATA_RECV, and commands in the other states.
use microdc.Prelude.{
  ℕ, zero, suc, ◌+◌, ◌-◌, ◌≤◌, ◌==◌, ltb, ◌||◌, min, ◌≡◌, refl, arith, Bool, true, false, Option,
  none, some, List, [], ◌∷◌, length, take, length-take,
}
use microdc.Prelude.Text.{Bytes}
use microdc.Prelude.Exec.{Exec, stop, ◌>>=◌, when, call}
use microdc.Prelude.Exec.Triple.{
  Triple, Keeps, Triple-gets, Triple-bind, Triple-if, Triple-front, Triple-back, Triple-call,
  Triple-modify, Keeps-pure, Keeps-stop, Keeps-bind, Keeps-if, Keeps-when, Keeps-call,
}
use microdc.User.State.{
  UserState, connect, mynick, get, data_send, data_recv, Received, got, later, broken, Signal,
  sigterm, sigalrm, sigusr1, no_signal, Conn, device, change, read_core, is_state,
}
use microdc.User.Comm.{give_up, screen_writer, warn, terminate_process}
use microdc.User.Upload.{end_upload}
use microdc.User.Stable.{
  Holds, Leaves, Lasting, Keeps-Leaves, Leaves-read_core, Leaves-read_io, Leaves-read_env,
  Leaves-when, Leaves-device, Leaves-change, Leaves-ask, fault-stops, Leaves-fatal_error,
  Leaves-screen_writer, Leaves-warn, Leaves-terminate_process, Leaves-send_user_status,
  Leaves-write_sendq, Leaves-give_up, Leaves-user_putf, Leaves-get_our_nick,
}
use microdc.User.Files.{View, At, Leaves-end_upload}
use microdc.User.Command.{user_handle_command}
use microdc.User.Commands.{command_lem}
use microdc.User.Framing.{
  Phase, Framed, Opening, Measured, Uploading, is_sender, IsFramed, framed-Serves, no-run, outcome,
}
use microdc.User.Loop.{
  handle_input, read_recvq, user_input_available, finish_connect, fill_sendq, send_data,
  flush_sendq, user_now_writable, on_signal, read_signal_input, main_request_fd_writable,
  main_result_fd_readable, Ready, if_ready, serve_ready, main_loop,
}

abbrev Kept : {A : Type 0} → Exec Conn A → Type 0
Kept m = Keeps (Holds (At Framed)) m

framed : Lasting (At Framed)
framed = record { dies = λ r k h e. no-run e }

fits_data : (d n : ℕ) (xs : Bytes) → length (take (min d n) xs) ≤ d
fits_data d n xs = rw (length-take (min d n) xs) (omega arith)

no_data : (s : UserState) (d p z n : ℕ) → ltb 0 d ≡ false → s ≡ data_recv → Phase s d p z → n ≤ d
no_data data_recv d p z n e here h = absurd (ground (arith, h.0))
no_data _ d p z n e here h = absurd (ground arith)

KnownSize : ℕ → Conn → Type 0
KnownSize d c = Holds (At Framed) c × (c.data_size ≡ d)

handle_data :
    (d n : ℕ) (xs : Bytes)
    → Triple
        (KnownSize d)
        (call (user_handle_command (take (min d n) xs)))
        (λ _. Holds (At Framed))
        (Holds (At Framed))
unfolding KnownSize
handle_data d n xs = Triple-call (
    Triple-front (λ c p. (p.0, λ running here. rw p.1 (fits_data d n xs)))
      (command_lem Framed Framed Opening Measured Uploading framed-Serves _))

handle_text :
    (d : ℕ) (buf : Bytes)
    → ltb 0 d ≡ false
    → Triple
        (KnownSize d)
        (call (user_handle_command buf))
        (λ _. Holds (At Framed))
        (Holds (At Framed))
unfolding KnownSize
handle_text d buf e = Triple-call (
    Triple-front
      (λ c p.
        (p.0, λ running here. no_data _ c.data_size _ _ _ (rw p.1 e) here (p.0.holds running)))
      (command_lem Framed Framed Opening Measured Uploading framed-Serves buf))

-- dump_command in front of a command
shown :
    (d : ℕ) (b : Bool)
    → Triple (KnownSize d) (when b screen_writer) (λ _. KnownSize d) (Holds (At Framed))
unfolding KnownSize
shown d b =
    let sized : Lasting (At λ r s d' p z. Framed r s d' p z × (d' ≡ d)) = record {
      dies = λ r k h. ((λ e. no-run e), h.1);
    } in
    Triple-front (λ c p. record { holds = (p.0.holds, p.1) })
      (Triple-back (λ _ c p. (record { holds = p.holds.0 }, p.holds.1))
        (λ c p. record { holds = p.0.holds.0 }) (Leaves-when b (Leaves-screen_writer sized)))

pub handle_input-Keeps :
    (buf : Bytes) (start c skip : ℕ) (rest : Bytes) → Kept (handle_input buf start c skip rest)
unfolding handle_input read_core KnownSize
handle_input-Keeps buf start c skip [] = Keeps-pure _
handle_input-Keeps buf start c (suc skip) (b ∷ rest) =
    handle_input-Keeps buf start (c + 1) skip rest
handle_input-Keeps buf start c zero (b ∷ rest) =
    Triple-bind {Q = KnownSize} (Triple-gets _ λ c p. (p, refl)) λ d.
      Triple-if (ltb 0 d) _ _
        (λ _. Triple-bind (handle_data d _ _) λ _.
          Keeps-bind (Keeps-Leaves (Leaves-read_io _)) λ running.
            Keeps-if running _ _
              (handle_input-Keeps buf (start + min d (length buf - start)) (c + 1)
                (min d (length buf - start) - 1) rest)
              (Keeps-pure _))
        (λ e.
          Triple-if (b == b'|') _ _
            (λ _. Triple-bind (shown d _) λ _. Triple-bind (handle_text d _ e) λ _.
              Keeps-bind (Keeps-Leaves (Leaves-read_io _)) λ running.
                Keeps-if running _ _ (handle_input-Keeps buf (c + 1) (c + 1) 0 rest) (Keeps-pure _))
            (λ _. Triple-front (λ c p. p.0) (handle_input-Keeps buf start (c + 1) 0 rest)))

still : {A : Type 0} {m : Exec Conn A} → Leaves (At Framed) m → Kept m
still t = Keeps-Leaves t

refused : {A : Type 0} → Kept (give_up {A = A})
refused = Keeps-Leaves (Leaves-give_up framed)

read_recvq-Keeps : (res : Received) → Kept (read_recvq res)
unfolding read_recvq
read_recvq-Keeps (got []) = refused
read_recvq-Keeps (got (b ∷ bytes)) = still (Leaves-device _ λ io. refl)
read_recvq-Keeps later = Keeps-pure tt
read_recvq-Keeps broken = refused

input-Keeps : Kept user_input_available
unfolding user_input_available
input-Keeps = Keeps-bind (still (Leaves-ask _)) λ res. Keeps-bind (read_recvq-Keeps res) λ _.
    Keeps-bind (still (Leaves-read_io _)) λ io.
      Keeps-bind (Keeps-when _ (still (fault-stops framed)))
        λ _. Keeps-bind (handle_input-Keeps _ _ _ _ _) λ start. still (Leaves-device _ λ io. refl)

flush-Keeps : Kept flush_sendq
unfolding flush_sendq
flush-Keeps = Keeps-bind (still (Leaves-read_io _)) λ queued.
    Keeps-bind
      (Keeps-when _ (Keeps-bind (still (Leaves-write_sendq framed)) λ res. Keeps-when _ refused))
      λ _.
        Keeps-bind (still (Leaves-read_io _))
          λ left. Keeps-when _ (still (Leaves-device _ λ io. refl))

abbrev Quiet : {A : Type 0} → View → Exec Conn A → Type 0
Quiet I m = Keeps (Holds (At I)) m

-- what a kept condition says in the end
ends :
    {A : Type 0} {m : Exec Conn A} (I : View)
    → ((r : Bool) (s : UserState) (d p z : ℕ) → I r s d p z → Framed r s d p z)
    → Quiet I m
    → Triple (Holds (At I)) m (λ _. Holds (At Framed)) (Holds (At Framed))
ends I h t = Triple-back (λ _ c p. out c p) out t
  where
    out : (c : Conn) → Holds (At I) c → Holds (At Framed) c
    out c p = record { holds = h _ _ _ _ _ p.holds }

sending : Lasting (At Uploading)
sending = record { dies = λ r k h e. no-run e }

-- warn, end_upload, terminate_process and return
give_up_upload :
    Quiet Uploading
      (warn >>= λ _. end_upload false >>= λ _. terminate_process >>= λ _. stop {A = Unit {0}})
give_up_upload = Keeps-bind (Keeps-Leaves (Leaves-warn sending)) λ _.
    Keeps-bind (Keeps-Leaves (Leaves-end_upload Uploading sending false))
      λ _. Keeps-bind (Keeps-Leaves (Leaves-terminate_process sending)) λ _. Keeps-stop

fill_sendq-Keeps : (block : ℕ) (bytes : Bytes) → Quiet Uploading (fill_sendq block bytes)
unfolding fill_sendq
fill_sendq-Keeps block bytes =
    Keeps-bind (Keeps-Leaves (Leaves-device _ λ io. refl))
      λ _. Keeps-bind (Keeps-when _ give_up_upload) λ _. Keeps-Leaves (Leaves-change _ λ r k h. h)

sent_all : Quiet Uploading (
    device (λ io. record io { writes_on = false }) >>= λ _.
    end_upload true >>= λ _. change (λ k. record k { user_state = get }))
sent_all = Keeps-bind (Keeps-Leaves (Leaves-device _ λ io. refl)) λ _.
    Keeps-bind (Keeps-Leaves (Leaves-end_upload Uploading sending true))
      λ _. Keeps-Leaves (Leaves-change _ λ r k h e. ((h e).0, refl))

-- user_running = false
stopped : Kept (device (λ io. record io { user_running = false }))
unfolding device
stopped = Triple-modify _ λ c h. record { holds = λ e. no-run e }

send-Keeps : Quiet Uploading send_data
unfolding send_data
send-Keeps = Keeps-bind (Keeps-Leaves (Leaves-read_core _)) λ k.
    Keeps-bind (Keeps-when _ (Keeps-Leaves (fault-stops sending))) λ _.
      Keeps-bind (Keeps-Leaves (Leaves-read_io _)) λ queued.
        Keeps-bind
          (Keeps-when _ (Keeps-bind (Keeps-Leaves (Leaves-ask _)) λ read. fill_sendq-Keeps _ _))
          λ _. Keeps-bind (Keeps-Leaves (Leaves-read_io _)) λ filled.
            Keeps-bind (Keeps-when _ (Keeps-Leaves (fault-stops sending))) λ _.
              Keeps-bind (Keeps-Leaves (Leaves-write_sendq sending)) λ res.
                Keeps-bind (Keeps-when _ give_up_upload) λ _.
                  Keeps-bind (Keeps-Leaves (Leaves-change _ λ r k h. h)) λ _.
                    Keeps-bind (Keeps-Leaves (Leaves-read_io _)) λ left.
                      Keeps-bind (Keeps-Leaves (Leaves-read_core _)) λ pos.
                        Keeps-bind (Keeps-call (Keeps-Leaves (Leaves-send_user_status sending _)))
                          λ _.
                            Keeps-bind (Keeps-Leaves (Leaves-read_core _))
                              λ k'. Keeps-when _ sent_all

-- The socket is connected: the state is DC_USER_CONNECT or already DC_USER_MYNICK.
abbrev Early : View
Early r s d p z = r ≡ true → (d ≡ 0) × ((is_state s connect || is_state s mynick) ≡ true)

early : Lasting (At Early)
early = record { dies = λ r k h e. no-run e }

early-Phase :
    (s : UserState) (d p z : ℕ)
    → d ≡ 0
    → (is_state s connect || is_state s mynick) ≡ true
    → Phase s d p z
early-Phase connect d p z h e = h
early-Phase mynick d p z h e = h
early-Phase _ d p z h e = absurd (ground arith)

connect-Keeps : Quiet Early finish_connect
unfolding finish_connect
connect-Keeps = Keeps-bind (Keeps-Leaves (Leaves-ask _)) λ connected.
    Keeps-bind (Keeps-when _ (Keeps-Leaves (Leaves-give_up early))) λ _.
      Keeps-bind (Keeps-Leaves (Leaves-device _ λ io. refl)) λ _.
        Keeps-bind (Keeps-Leaves (Leaves-change _ λ r k h e. ((h e).0, refl))) λ _.
          Keeps-bind (Keeps-Leaves (Leaves-read_core _)) λ we_connected. Keeps-when _ (
            Keeps-bind (Keeps-Leaves (Leaves-get_our_nick early)) λ nick.
              Keeps-bind (Keeps-Leaves (Leaves-read_env _)) λ hub_nick.
                Keeps-bind (Keeps-Leaves (Leaves-screen_writer early)) λ _.
                  Keeps-bind (Keeps-Leaves (Leaves-user_putf early _))
                    λ _. Keeps-Leaves (Leaves-user_putf early _))

in_connect :
    (s : UserState) (d p z : ℕ)
    → is_state s connect ≡ true
    → Phase s d p z
    → (d ≡ 0) × ((is_state s connect || is_state s mynick) ≡ true)
in_connect connect d p z e h = (h, refl)
in_connect _ d p z e h = absurd (ground arith)

in_data_send :
    (s : UserState) (d p z : ℕ)
    → is_state s data_send ≡ true
    → Phase s d p z
    → (d ≡ 0) × (is_sender s ≡ true)
in_data_send data_send d p z e h = (h, refl)
in_data_send _ d p z e h = absurd (ground arith)

writable-Keeps : Kept user_now_writable
unfolding user_now_writable read_core
writable-Keeps =
    Triple-bind {Q = λ now c. Holds (At Framed) c × (c.user_state ≡ now)}
      (Triple-gets _ λ c p. (p, refl))
      λ now.
        Triple-if (is_state now connect) _ _
          (λ e.
            Triple-front
              (λ c p. record { holds = λ run. in_connect _ _ _ _ (rw p.1 e) (p.0.holds run) })
              (ends Early (λ r s d p z h run. early-Phase s d p z (h run).0 (h run).1)
                connect-Keeps))
          (λ _.
            Triple-if (is_state now data_send) _ _
              (λ e.
                Triple-front
                  (λ c p. record { holds = λ run. in_data_send _ _ _ _ (rw p.1 e) (p.0.holds run) })
                  (ends Uploading (λ r s d p z h. framed-Serves.uploaded h) send-Keeps))
              (λ _. Triple-front (λ c p. p.0) flush-Keeps))

signal-Keeps : (signal : Signal) → Kept (on_signal signal)
signal-Keeps sigusr1 = Keeps-pure tt
signal-Keeps sigterm = refused
signal-Keeps sigalrm = refused
signal-Keeps no_signal = refused

if_ready-Keeps : (ready : Bool) {m : Exec Conn Unit} → Kept m → Kept (if_ready ready m)
unfolding if_ready
if_ready-Keeps ready t =
    Keeps-bind (still (Leaves-read_io _)) λ running. Keeps-when _ (Keeps-call t)

serve_ready-Keeps : (r : Ready) → Kept (serve_ready r)
unfolding serve_ready read_signal_input main_request_fd_writable main_result_fd_readable
serve_ready-Keeps r =
    Keeps-bind (if_ready-Keeps r.signal_in (Keeps-bind (still (Leaves-ask _)) signal-Keeps)) λ _.
      Keeps-bind
        (if_ready-Keeps r.main_out (
          Keeps-bind (still (Leaves-ask _)) λ ok. Keeps-when _ (still (Leaves-fatal_error framed))))
        λ _.
          Keeps-bind
            (if_ready-Keeps r.main_in (
              Keeps-bind (still (Leaves-ask _)) λ ok.
                Keeps-if ok _ _ (Keeps-bind (still (Leaves-warn framed)) λ _. stopped)
                  (still (Leaves-fatal_error framed))))
            λ _.
              Keeps-bind (if_ready-Keeps r.user_out writable-Keeps)
                λ _. if_ready-Keeps r.user_in input-Keeps

main_loop-Keeps : (rounds : List (Option Ready)) → Kept (main_loop rounds)
unfolding main_loop
main_loop-Keeps [] = Keeps-pure tt
main_loop-Keeps (none ∷ rest) =
    Keeps-bind (still (Leaves-read_io _)) λ running. Keeps-when _ (still (Leaves-warn framed))
main_loop-Keeps (some r ∷ rest) =
    Keeps-bind (still (Leaves-read_io _))
      λ running. Keeps-when _ (Keeps-bind (serve_ready-Keeps r) λ _. main_loop-Keeps rest)

-- The main loop keeps the agreement of data_size and the state, whatever select and the other
-- calls of the system report, and in whatever order.
pub main_loop-IsFramed :
    (rounds : List (Option Ready)) (c : Conn) → IsFramed c → IsFramed (main_loop rounds c).1
main_loop-IsFramed rounds c h = record {
  phase =
      (outcome (Holds (At Framed)) _ _
        ((main_loop-Keeps rounds).at c (record { holds = h.phase }))).holds;
}
