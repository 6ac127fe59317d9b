-- ===== src/User/Stable.antt =====
-- src/user.c: what the messages to the main process and to the other user leave alone. A property
-- of `core` and of `user_running` that a process which shuts down cannot lose is kept by all of
-- them; and they return early only if the process is to shut down.
use microdc.Prelude.{ℕ, ◌≡◌, refl, Bool, false, Option, none, some, if◌then◌else◌}
use microdc.Prelude.Text.{Bytes}
use microdc.Prelude.Exec.{Exec, pure, stop, gets, ◌>>=◌, ◌>>◌, when}
use microdc.Prelude.Exec.Triple.{
  Triple, Keeps, Triple-pure, Triple-stop, Triple-gets, Triple-bind, Triple-if, Triple-when,
  Triple-modify, Triple-front, Triple-back,
}
use microdc.User.State.{
  UserState, Direction, Message, Core, Io, Env, Conn, terminating, device, change, ask, read_core,
  read_io, read_env, put,
}
use microdc.User.Comm.{
  fatal_error, fault, report, screen_writer, warn, terminate_process, give_up, check_state,
  send_user_status, answer, write_sendq, user_putf, wants_to_download, direction_validate,
  get_our_nick, nick_validate,
}

pub record Holds (I : Bool → Core → Type 0) (c : Conn) : Type 0 where
  pub holds : I c.user_running c.core

-- the process is to shut down
abbrev pub Dying : (Bool → Core → Type 0) → Conn → Type 0
Dying I c = Holds I c × (c.user_running ≡ false)

-- `m` leaves `I` true, and returns early only if the process is to shut down
abbrev pub Leaves : {A : Type 0} → (Bool → Core → Type 0) → Exec Conn A → Type 0
Leaves I m = Triple (Holds I) m (λ _. Holds I) (Dying I)

-- the process that shuts down cannot lose `I`
pub record Lasting (I : Bool → Core → Type 0) : Type 0 where
  pub dies : (r : Bool) (k : Core) → I r k → I false k

module _ {A : Type 0} {I : Bool → Core → Type 0} where
  pub Keeps-Leaves : {m : Exec Conn A} → Leaves I m → Keeps (Holds I) m
  Keeps-Leaves t = Triple-back (λ a s h. h) (λ s h. h.0) t

  pub Leaves-pure : (a : A) → Leaves I (pure a)
  Leaves-pure a = Triple-pure a (λ s h. h)

  pub Leaves-if :
      (b : Bool) {m n : Exec Conn A} → Leaves I m → Leaves I n → Leaves I (if b then m else n)
  Leaves-if b {m} {n} h g = Triple-if b m n (λ _. h) (λ _. g)

  pub Leaves-gets : (f : Conn → A) → Leaves I (gets f)
  Leaves-gets f = Triple-gets f (λ s h. h)

  pub Leaves-read_core : (f : Core → A) → Leaves I (read_core f)
  unfolding read_core
  Leaves-read_core f = Leaves-gets (λ c. f c.core)

  pub Leaves-read_io : (f : Io → A) → Leaves I (read_io f)
  unfolding read_io
  Leaves-read_io f = Leaves-gets (λ c. f c.io)

  pub Leaves-read_env : (f : Env → A) → Leaves I (read_env f)
  unfolding read_env
  Leaves-read_env f = Leaves-gets (λ c. f c.env)

module _ {I : Bool → Core → Type 0} where
  pub Leaves-bind :
      {A B : Type 0} {m : Exec Conn A} {f : A → Exec Conn B}
      → Leaves I m
      → ((a : A) → Leaves I (f a))
      → Leaves I (m >>= f)
  Leaves-bind h g = Triple-bind h g

  pub Leaves-when : (b : Bool) {m : Exec Conn Unit} → Leaves I m → Leaves I (when b m)
  Leaves-when b {m} h = Triple-when b m (λ _. h) (λ _ s p. p)

  -- the queues and the pipes may change, but not whether the process runs
  pub Leaves-device :
      (f : Io → Io) → ((io : Io) → (f io).user_running ≡ io.user_running) → Leaves I (device f)
  unfolding device
  Leaves-device f same = Triple-modify _ λ c h. record { holds = rw (same c.io) h.holds }

  pub Leaves-change :
      (f : Core → Core) → ((r : Bool) (k : Core) → I r k → I r (f k)) → Leaves I (change f)
  unfolding change
  Leaves-change f keep =
      Triple-modify _ λ c h. record { holds = keep c.user_running c.core h.holds }

  -- `f` may also make another property true
  pub Triple-change :
      {I' : Bool → Core → Type 0} {R : Conn → Type 0} (f : Core → Core)
      → ((r : Bool) (k : Core) → I r k → I' r (f k))
      → Triple (Holds I) (change f) (λ _. Holds I') R
  unfolding change
  Triple-change f turn =
      Triple-modify _ λ c h. record { holds = turn c.user_running c.core h.holds }

  pub Leaves-ask : {A : Type 0} (f : Env → ℕ → A) → Leaves I (ask f)
  unfolding ask
  Leaves-ask f =
      Leaves-bind (Leaves-gets _) λ c. Leaves-bind (Leaves-device _ λ io. refl) λ _. Leaves-pure _

  pub Leaves-put : (m : Message) → Leaves I (put m)
  unfolding put
  Leaves-put m =
      Leaves-bind (Leaves-ask _) λ ok. Leaves-bind (Leaves-device _ λ io. refl) λ _. Leaves-pure _

module _ {I : Bool → Core → Type 0} (lasting : Lasting I) where
  -- the process no longer runs behind it
  pub fatal_error-stops : {R : Conn → Type 0} → Triple (Holds I) fatal_error (λ _. Dying I) R
  unfolding fatal_error device
  fatal_error-stops =
      Triple-modify _ λ c h. (record { holds = lasting.dies c.user_running c.core h.holds }, refl)

  die : {A : Type 0} {Q : A → Conn → Type 0} → Triple (Holds I) (fatal_error >> stop) Q (Dying I)
  die = Triple-bind fatal_error-stops λ _. Triple-stop (λ s h. h)

  pub Leaves-fatal_error : Leaves I fatal_error
  Leaves-fatal_error = Triple-back (λ _ s h. h.0) (λ s h. h) (fatal_error-stops {R = Dying I})

  pub fault-stops : {A : Type 0} {Q : A → Conn → Type 0} → Triple (Holds I) fault Q (Dying I)
  unfolding fault device
  fault-stops =
      Triple-bind {Q = λ _. Dying I}
        (Triple-modify _
          λ c h. (record { holds = lasting.dies c.user_running c.core h.holds }, refl))
        λ _. Triple-stop (λ s h. h)

  pub Leaves-report : (m : Message) → Leaves I (report m)
  unfolding report
  Leaves-report m =
      Triple-bind (Leaves-put m) λ ok. Triple-if ok _ _ (λ _. Leaves-pure tt) (λ _. die)

  pub Leaves-screen_writer : Leaves I screen_writer
  unfolding screen_writer
  Leaves-screen_writer =
      Leaves-bind (Leaves-put _) λ ok. Leaves-if ok (Leaves-pure tt) Leaves-fatal_error

  pub Leaves-warn : Leaves I warn
  unfolding warn
  Leaves-warn =
      Leaves-bind (Leaves-read_io _) λ muted. Leaves-if muted (Leaves-pure tt) Leaves-screen_writer

abbrev pub Dead : (Bool → Core → Type 0) → Bool → Core → Type 0
Dead I r k = I r k × (r ≡ false)

alive : {I : Bool → Core → Type 0} {c : Conn} → Holds (Dead I) c → Dying I c
alive h = (record { holds = h.holds.0 }, h.holds.1)

dying : {I : Bool → Core → Type 0} (c : Conn) → Dying I c → Holds (Dead I) c
dying c h = record { holds = (h.0.holds, h.1) }

pub Dead-Lasting : {I : Bool → Core → Type 0} → Lasting I → Lasting (Dead I)
Dead-Lasting lasting = record { dies = λ r k h. (lasting.dies r k h.0, refl) }

-- a process that is to shut down stays so
pub Leaves-Dead :
    {I : Bool → Core → Type 0} {A : Type 0} {m : Exec Conn A}
    → Leaves (Dead I) m
    → Triple (Dying I) m (λ _. Dying I) (Dying I)
Leaves-Dead t = Triple-front dying (Triple-back (λ _ s h. alive h) (λ s h. alive h.0) t)

module _ {I : Bool → Core → Type 0} (lasting : Lasting I) where
  pub terminate_process-stops : Triple (Holds I) terminate_process (λ _. Dying I) (Dying I)
  unfolding terminate_process device
  terminate_process-stops =
      Triple-bind
        (Triple-modify _
          λ c h. (record { holds = lasting.dies c.user_running c.core h.holds }, refl))
        λ _.
          Triple-back (λ _ s h. alive h) (λ s h. alive h.0)
            (Triple-front dying (rest (Dead-Lasting lasting)))
    where
      rest :
          Lasting (Dead I)
          → Leaves (Dead I) (do ok ← put terminating; if ok then pure tt else fatal_error)
      rest again =
          Leaves-bind (Leaves-put _) λ ok. Leaves-if ok (Leaves-pure tt) (Leaves-fatal_error again)

  pub Leaves-terminate_process : Leaves I terminate_process
  Leaves-terminate_process = Triple-back (λ _ s h. h.0) (λ s h. h) terminate_process-stops

  pub give_up-stops : {A : Type 0} {Q : A → Conn → Type 0} → Triple (Holds I) give_up Q (Dying I)
  unfolding give_up
  give_up-stops =
      Triple-bind (Leaves-warn lasting)
        λ _. Triple-bind terminate_process-stops λ _. Triple-stop (λ s h. h)

  pub Leaves-give_up : {A : Type 0} → Leaves I (give_up {A = A})
  Leaves-give_up = give_up-stops

  pub Leaves-check_state : (state : UserState) → Leaves I (check_state state)
  unfolding check_state
  Leaves-check_state state =
      Leaves-bind (Leaves-read_core _) λ now. Leaves-if _ (Leaves-pure tt) Leaves-give_up

  pub Leaves-send_user_status : (pos : ℕ) → Leaves I (send_user_status pos)
  unfolding send_user_status
  Leaves-send_user_status pos = Leaves-report lasting _

  pub Leaves-answer : {A : Type 0} (o : Option A) → Leaves I (answer o)
  unfolding answer
  Leaves-answer (some a) = Leaves-pure a
  Leaves-answer none = die lasting

  pub Leaves-write_sendq : Leaves I write_sendq
  unfolding write_sendq
  Leaves-write_sendq = Leaves-bind (Leaves-read_io _) λ q.
      Leaves-bind (Leaves-ask _)
        λ write. Leaves-bind (Leaves-device _ λ io. refl) λ _. Leaves-pure _

  pub Leaves-user_putf : (text : Bytes) → Leaves I (user_putf text)
  unfolding user_putf
  Leaves-user_putf text = Leaves-bind (Leaves-read_io _) λ oldcur.
      Leaves-bind (Leaves-device _ λ io. refl) λ _. Leaves-bind (Leaves-read_core _) λ size.
        Leaves-bind (Leaves-when _ (Leaves-screen_writer lasting)) λ _.
          Leaves-bind Leaves-write_sendq λ res.
            Leaves-bind (Leaves-when _ Leaves-give_up)
              λ _. Leaves-bind (Leaves-read_io _) λ cur. Leaves-when _ (Leaves-device _ λ io. refl)

  pub Leaves-wants_to_download : Leaves I wants_to_download
  unfolding wants_to_download
  Leaves-wants_to_download =
      Leaves-bind (Leaves-report lasting _) λ _. Leaves-bind (Leaves-ask _) Leaves-answer

  pub Leaves-direction_validate : (dir : Direction) → Leaves I (direction_validate dir)
  unfolding direction_validate
  Leaves-direction_validate dir = Leaves-bind (Leaves-report lasting _) λ _.
      Leaves-bind (Leaves-ask _)
        λ reply. Leaves-bind (Leaves-answer reply) λ valid. Leaves-when _ Leaves-give_up

  pub Leaves-get_our_nick : Leaves I get_our_nick
  unfolding get_our_nick
  Leaves-get_our_nick =
      Leaves-bind (Leaves-report lasting _) λ _. Leaves-bind (Leaves-ask _) Leaves-answer

  pub Leaves-nick_validate : (nick : Bytes) → Leaves I (nick_validate nick)
  unfolding nick_validate
  Leaves-nick_validate nick = Leaves-bind (Leaves-report lasting _) λ _.
      Leaves-bind (Leaves-ask _)
        λ reply. Leaves-bind (Leaves-answer reply) λ valid. Leaves-when _ Leaves-give_up
