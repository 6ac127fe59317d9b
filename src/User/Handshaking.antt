-- ===== src/User/Handshaking.antt =====
-- src/user.c: the messages of the handshake. Each of them is awaited in one state, and leads out of
-- it.
use microdc.Prelude.{
  ◌≡◌, ◌≢◌, ◌&&◌, ◌==◌, ==_iff, refl, sym, ◌∙◌, arith, Bool, true, false, [], ◌∷◌, ℕ, if◌then◌else◌,
}
use microdc.Prelude.Text.{Bytes, codes, starts}
use microdc.Prelude.Exec.{Exec}
use microdc.Prelude.Exec.Triple.{Triple-gets, Triple-bind, Triple-if, Triple-front}
use microdc.User.State.{
  UserState, mynick, lock, direction, supports, key, get, file_length, data_recv, Conn, read_core,
  is_state,
}
use microdc.User.Stable.{Holds}
use microdc.User.Files.{View, At}
use microdc.User.Requests.{Asks, Turns}
use microdc.User.Command.{dispatch, user_handle_command}
use microdc.User.Protocol.{
  Fates, In, is_state-eq, on_mynick-Turns, on_lock-Turns, on_supports-Turns, on_direction-Turns,
  on_key-Turns,
}
use microdc.User.Framing.{outcome, no-run}

-- the message that is awaited in a state of the handshake
abbrev pub greeting : UserState → Bytes
greeting mynick = codes "$MyNick "
greeting lock = codes "$Lock "
greeting supports = codes "$Supports "
greeting direction = codes "$Direction "
greeting key = codes "$Key "
greeting _ = []

-- The state after it. A sender then waits for $Get, and a receiver for $FileLength.
abbrev pub advances : UserState → UserState → Bool
advances mynick lock = true
advances lock supports = true
advances supports direction = true
advances direction key = true
advances key get = true
advances key file_length = true
advances _ _ = false

abbrev pub is_greeted : UserState → Bool
is_greeted mynick = true
is_greeted lock = true
is_greeted supports = true
is_greeted direction = true
is_greeted key = true
is_greeted _ = false

-- the process came from state `s0`
abbrev From : UserState → View
From s0 r s d p z = s ≡ s0

-- If it still runs, it came from state `x`, and left it.
abbrev Left : UserState → UserState → View
Left s0 x r s d p z = r ≡ true → (s0 ≡ x) × (advances x s ≡ true)

-- the letter behind the first one
letter : Bytes → ℕ
letter (a ∷ b ∷ s) = b
letter _ = 0

both_true : (a b : Bool) → (a && b) ≡ true → (a ≡ true) × (b ≡ true)
both_true true b h = (refl, h)
both_true false b h = absurd (ground arith)

starts-letter : (a b : ℕ) (w buf : Bytes) → starts (a ∷ b ∷ w) buf ≡ true → letter buf ≡ b
unfolding letter
starts-letter a b w [] h = absurd (ground arith)
starts-letter a b w (c ∷ []) h = absurd (ground (arith, (both_true (c == a) false h).1))
starts-letter a b w (c ∷ d ∷ buf) h = (==_iff d b).0 (both_true _ _ (both_true _ _ h).1).0

module _ (s0 : UserState) where
  fates : (x : UserState) → Fates (From s0) (Left s0 x)
  fates x = record { dies = λ h. h; dead = λ h e. no-run e }

  asks : Asks (In key (From s0)) (Left s0 key)
  asks = record {
    front = record { dies = λ r k h. h };
    over = λ h e. no-run e;
    asked = λ p' z' h hp hz e. (sym h.0 ∙ h.1, refl);
  }

  -- a branch of dispatch that is not taken, by the second letter of its word
  other :
      (J : View) (b : ℕ) (w buf : Bytes) (m n : Exec Conn Unit)
      → letter buf ≢ b
      → Turns (From s0) J n
      → Turns (From s0) J (if starts (b'$' ∷ b ∷ w) buf then m else n)
  other J b w buf m n ne t =
      Triple-if (starts (b'$' ∷ b ∷ w) buf) m n (λ e. absurd (ne (starts-letter b'$' b w buf e)))
        (λ _. t)

  -- and one that is
  taken :
      (J : View) (b : Bool) (m n : Exec Conn Unit)
      → b ≡ true
      → Turns (From s0) J m
      → Turns (From s0) J (if b then m else n)
  taken J b m n h t = Triple-if b m n (λ _. t) (λ e. absurd (ground (arith, h, e)))

  dispatch-Left :
      (x : UserState) (buf : Bytes)
      → is_greeted x ≡ true
      → starts (greeting x) buf ≡ true
      → Turns (From s0) (Left s0 x) (dispatch buf)
  unfolding dispatch
  dispatch-Left mynick buf ok h =
      taken _ _ _ _ h (on_mynick-Turns _ _ (fates mynick) (λ r d p z e running. (sym e, refl)) buf)
  dispatch-Left lock buf ok h =
      let here : letter buf ≡ b'L' = starts-letter b'$' b'L' (codes "ock ") buf h in
      other _ b'M' (codes "yNick ") buf _ _ (λ e. ground (arith, here, e))
        (taken _ _ _ _ h (on_lock-Turns _ _ (fates lock) (λ r d p z e running. (sym e, refl)) buf))
  dispatch-Left supports buf ok h =
      let here : letter buf ≡ b'S' = starts-letter b'$' b'S' (codes "upports ") buf h in
      other _ b'M' (codes "yNick ") buf _ _ (λ e. ground (arith, here, e))
        (other _ b'L' (codes "ock ") buf _ _ (λ e. ground (arith, here, e))
          (taken _ _ _ _ h
            (on_supports-Turns _ _ (fates supports) (λ r d p z e running. (sym e, refl)) buf)))
  dispatch-Left direction buf ok h =
      let here : letter buf ≡ b'D' = starts-letter b'$' b'D' (codes "irection ") buf h in
      other _ b'M' (codes "yNick ") buf _ _ (λ e. ground (arith, here, e))
        (other _ b'L' (codes "ock ") buf _ _ (λ e. ground (arith, here, e))
          (other _ b'S' (codes "upports ") buf _ _ (λ e. ground (arith, here, e))
            (taken _ _ _ _ h
              (on_direction-Turns _ _ (fates direction) (λ r d p z e running. (sym e, refl)) buf))))
  dispatch-Left key buf ok h =
      let here : letter buf ≡ b'K' = starts-letter b'$' b'K' (codes "ey ") buf h in
      other _ b'M' (codes "yNick ") buf _ _ (λ e. ground (arith, here, e))
        (other _ b'L' (codes "ock ") buf _ _ (λ e. ground (arith, here, e))
          (other _ b'S' (codes "upports ") buf _ _ (λ e. ground (arith, here, e))
            (other _ b'D' (codes "irection ") buf _ _ (λ e. ground (arith, here, e))
              (taken _ _ _ _ h
                (on_key-Turns _ _ (fates key) (λ r d p z e running. (sym e, refl)) asks buf)))))
  dispatch-Left _ buf ok h = absurd (ground arith)

  handle-Left :
      (x : UserState) (buf : Bytes)
      → is_greeted x ≡ true
      → starts (greeting x) buf ≡ true
      → s0 ≢ data_recv
      → Turns (From s0) (Left s0 x) (user_handle_command buf)
  unfolding user_handle_command read_core
  handle-Left x buf ok h outside =
      Triple-bind {Q = λ now c. Holds (At (From s0)) c × (c.user_state ≡ now)}
        (Triple-gets _ λ c p. (p, refl))
        λ now.
          Triple-if (is_state now data_recv) _ _
            (λ e. record {
              at = λ c p. absurd (outside (sym p.0.holds ∙ (p.1 ∙ is_state-eq now data_recv e)));
            })
            (λ _. Triple-front (λ c p. p.0) (dispatch-Left x buf ok h))

-- When the message that belongs to a state of the handshake is handled outside of
-- DC_USER_DATA_RECV, and the process still runs behind it, then it was in just that state, and is
-- now in the next one. So no message of the handshake is accepted in another state, or leaves the
-- process in the state it was in.
pub command-advances :
    (x : UserState) (buf : Bytes) (c : Conn)
    → is_greeted x ≡ true
    → starts (greeting x) buf ≡ true
    → c.user_state ≢ data_recv
    → (user_handle_command buf c).1.user_running ≡ true
    → (c.user_state ≡ x) × (advances x (user_handle_command buf c).1.user_state ≡ true)
command-advances x buf c ok h outside running =
    let s0 = c.user_state in
    let t = handle-Left s0 x buf ok h outside in
    (outcome (Holds (At (Left s0 x))) _ _ (t.at c (record { holds = refl }))).holds running
