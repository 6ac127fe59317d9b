-- ===== src/User/Protocol.antt =====
-- src/user.c: user_handle_command, for any property that goes along with the transitions of the
-- protocol. `P` is what holds in front of a command and `J` what holds behind it.
use microdc.Prelude.{ℕ, ◌≡◌, refl, ◌∙◌, arith, Bool, true, false, Option}
use microdc.Prelude.Text.{Bytes}
use microdc.Prelude.Exec.{Exec, ◌>>=◌, expect}
use microdc.Prelude.Exec.Triple.{
  Triple, Triple-pure, Triple-gets, Triple-bind, Triple-if, Triple-front, Triple-back,
  Triple-expect,
}
use microdc.User.State.{
  UserState, disconnected, connect, mynick, lock, direction, supports, key, get, send_get,
  file_length, data_recv, data_send, Core, Conn, change, read_core, is_state,
}
use microdc.User.Comm.{give_up, check_state}
use microdc.User.Stable.{
  Holds, Dying, Leaves, Lasting, Leaves-read_core, Leaves-read_env, Leaves-bind, Leaves-when,
  Leaves-change, Triple-change, give_up-stops, Leaves-screen_writer, Leaves-warn, Leaves-user_putf,
  Leaves-wants_to_download, Leaves-direction_validate, Leaves-get_our_nick, Leaves-nick_validate,
}
use microdc.User.Files.{View, At}
use microdc.User.Requests.{Asks, Turns, download_next_file-Turns}
use microdc.User.Handshake.{
  introduce, on_mynick, on_lock, on_supports, on_direction, on_key, is_send,
}

pub is_state-eq : (a b : UserState) → is_state a b ≡ true → a ≡ b
is_state-eq disconnected disconnected h = refl
is_state-eq connect connect h = refl
is_state-eq mynick mynick h = refl
is_state-eq lock lock h = refl
is_state-eq direction direction h = refl
is_state-eq supports supports h = refl
is_state-eq key key h = refl
is_state-eq get get h = refl
is_state-eq send_get send_get h = refl
is_state-eq file_length file_length h = refl
is_state-eq data_recv data_recv h = refl
is_state-eq data_send data_send h = refl
is_state-eq _ _ h = ground arith

-- `P`, in state `x`
abbrev pub In : UserState → View → View
In x P r s d p z = P r s d p z × (s ≡ x)

-- A process that is to shut down does not lose `P`, and then has `J`.
pub record Fates (P J : View) : Type 0 where
  pub dies : {r : Bool} {s : UserState} {d p z : ℕ} → P r s d p z → P false s d p z
  pub dead : {s : UserState} {d p z : ℕ} → P false s d p z → J false s d p z

-- The transitions of the handshake.
pub record Greets (P J : View) : Type 0 where
  pub fates : Fates P J
  pub nick_known : {r : Bool} {d p z : ℕ} → P r mynick d p z → J r lock d p z
  pub lock_answered : {r : Bool} {d p z : ℕ} → P r lock d p z → J r supports d p z
  pub supports_known : {r : Bool} {d p z : ℕ} → P r supports d p z → J r direction d p z
  pub direction_known : {r : Bool} {d p z : ℕ} → P r direction d p z → J r key d p z
  pub may_send : {r : Bool} {d p z : ℕ} → P r key d p z → J r get d p z
  pub may_ask : Asks (In key P) J

module _ (P J : View) (fates : Fates P J) where
  pub P-Lasting : Lasting (At P)
  P-Lasting = record { dies = λ r k h. fates.dies h }

  pub In-Lasting : (x : UserState) → Lasting (At (In x P))
  In-Lasting x = record { dies = λ r k h. (fates.dies h.0, h.1) }

  pub unless_dead : (c : Conn) → Dying (At P) c → Holds (At J) c
  unless_dead c h = record { holds = rw h.1 (fates.dead (rw (← h.1) h.0.holds)) }

  pub back : (x : UserState) (c : Conn) → Dying (At (In x P)) c → Holds (At J) c
  back x c h = unless_dead c (record { holds = h.0.holds.0 }, h.1)

  -- a part that leaves `P` and the state alone, and then one that turns them into `J`
  pub after :
      {A B : Type 0} (x : UserState) {m : Exec Conn A} {f : A → Exec Conn B}
      → Leaves (At (In x P)) m
      → ((a : A) → Turns (In x P) J (f a))
      → Turns (In x P) J (m >>= f)
  after x t h = Triple-bind (Triple-back (λ _ s h. h) (back x) t) h

  pub give_up-Turns :
      {A : Type 0} (x : UserState) {Q : A → Conn → Type 0}
      → Triple (Holds (At (In x P))) give_up Q (Holds (At J))
  give_up-Turns x = Triple-back (λ a s h. h) (back x) (give_up-stops (In-Lasting x))

  -- the fallible steps of a handler: the message is refused, or the handler goes on
  pub parsed :
      {A B : Type 0} (x : UserState) (o : Option A) {f : A → Exec Conn B}
      → ((a : A) → Turns (In x P) J (f a))
      → Turns (In x P) J (expect o give_up >>= f)
  parsed x o h = Triple-bind (Triple-expect o (λ a e s p. p) (give_up-Turns x)) h

  pub check_state-lem :
      (x : UserState)
      → Triple (Holds (At P)) (check_state x) (λ _. Holds (At (In x P))) (Dying (At P))
  unfolding check_state read_core
  check_state-lem x =
      Triple-bind {Q = λ now c. Holds (At P) c × (c.user_state ≡ now)}
        (Triple-gets _ λ c p. (p, refl))
        λ now.
          Triple-if _ _ _
            (λ e. Triple-pure tt λ c p. record { holds = (p.0.holds, p.1 ∙ is_state-eq now x e) })
            (λ _. Triple-front (λ c p. p.0) (give_up-stops P-Lasting))

  pub checked :
      (x : UserState) {m : Exec Conn Unit}
      → Turns (In x P) J m
      → Turns P J (check_state x >>= λ _. m)
  checked x h = Triple-bind (Triple-back (λ _ s h. h) unless_dead (check_state-lem x)) λ _. h

  introduce-Leaves : Leaves (At (In mynick P)) introduce
  unfolding introduce
  introduce-Leaves = Leaves-bind (Leaves-get_our_nick (In-Lasting mynick)) λ nick.
      Leaves-bind (Leaves-read_env _) λ hub_nick.
        Leaves-bind (Leaves-user_putf (In-Lasting mynick) _)
          λ _. Leaves-user_putf (In-Lasting mynick) _

  -- the new state
  moved :
      (x : UserState) (f : Core → Core)
      → ((r : Bool) (k : Core) → At (In x P) r k → At J r (f k))
      → Turns (In x P) J (change f)
  moved x f h = Triple-change f h

  pub on_mynick-Turns :
      (step : (r : Bool) (d p z : ℕ) → P r mynick d p z → J r lock d p z) (buf : Bytes)
      → Turns P J (on_mynick buf)
  unfolding on_mynick
  on_mynick-Turns step buf = checked mynick (
      after mynick (Leaves-read_env _) λ nick.
        after mynick (Leaves-nick_validate (In-Lasting mynick) nick) λ _.
          after mynick (Leaves-change _ λ r k h. h) λ _.
            after mynick (Leaves-read_core _) λ we_connected.
              after mynick (Leaves-when _ introduce-Leaves)
                λ _. moved mynick _ λ r k h. step _ _ _ _ (rw (← h.1) h.0))

  pub on_lock-Turns :
      (step : (r : Bool) (d p z : ℕ) → P r lock d p z → J r supports d p z) (buf : Bytes)
      → Turns P J (on_lock buf)
  unfolding on_lock
  on_lock-Turns step buf =
      let lasting = In-Lasting lock in
      checked lock (
        after lock (Leaves-when _ (Leaves-warn lasting)) λ _.
          after lock (Leaves-when _ (Leaves-screen_writer lasting)) λ _.
            after lock (Leaves-wants_to_download lasting) λ download.
              after lock (Leaves-user_putf lasting _) λ _. after lock (Leaves-read_core _) λ rand.
                after lock (Leaves-user_putf lasting _) λ _.
                  after lock (Leaves-user_putf lasting _)
                    λ _. moved lock _ λ r k h. step _ _ _ _ (rw (← h.1) h.0))

  pub on_supports-Turns :
      (step : (r : Bool) (d p z : ℕ) → P r supports d p z → J r direction d p z) (buf : Bytes)
      → Turns P J (on_supports buf)
  unfolding on_supports
  on_supports-Turns step buf =
      checked supports (moved supports _ λ r k h. step _ _ _ _ (rw (← h.1) h.0))

  pub on_direction-Turns :
      (step : (r : Bool) (d p z : ℕ) → P r direction d p z → J r key d p z) (buf : Bytes)
      → Turns P J (on_direction buf)
  unfolding on_direction
  on_direction-Turns step buf =
      let lasting = In-Lasting direction in
      checked direction (
        parsed direction _ λ first. parsed direction _ λ they. parsed direction _ λ second.
          parsed direction _ λ remote_rand. after direction (Leaves-wants_to_download lasting) λ we.
            after direction (Leaves-read_core _) λ rand. parsed direction _ λ dir.
              after direction (Leaves-change _ λ r k h. h) λ _.
                after direction (Leaves-direction_validate lasting dir)
                  λ _. moved direction _ λ r k h. step _ _ _ _ (rw (← h.1) h.0))

  pub on_key-Turns :
      (step : (r : Bool) (d p z : ℕ) → P r key d p z → J r get d p z) (may_ask : Asks (In key P) J)
      (buf : Bytes)
      → Turns P J (on_key buf)
  unfolding on_key
  on_key-Turns step may_ask buf = checked key (
      after key (Leaves-when _ (Leaves-warn (In-Lasting key))) λ _.
        after key (Leaves-read_core _) λ dir.
          Triple-if (is_send dir) _ _ (λ _. moved key _ λ r k h. step _ _ _ _ (rw (← h.1) h.0))
            (λ _. download_next_file-Turns (In key P) J may_ask))
